-- ===== src/File/Transfer.antt =====
-- file.cc: the functions that read, write, copy, move and remove whole files, and disk_move of
-- scan.cc, which moves the image of a disk.
pub mod Copying
pub mod Moves
use advancescan.Base.{
  Bool, Bytes, Result, [], err, failed, false, if◌then◌else◌, none, ok, some, true, ℕ, ◌>>=◌,
}
use advancescan.Operation.{Operation, active_move}
use advancescan.Scan.Store.{file_size}
use advancescan.Zip.Archive.{System, flushed, put_file}
use advancescan.Zip.Stream.{fread, fwrite}

-- fopen(path, "wb"), fwrite and fclose. A file that fwrite does not take whole is removed; where
-- that is refused, what the disk took is left. What fclose returns is not looked at.
unfoldable pub file_write : Bytes → Bytes → System → Result (Unit {0}) × System
file_write path content s = elim (s.can_create path) [
  | false ↦ (err failed, s)
  | true ↦ elim (fwrite content (record { written = []; room = s.room })) [
    | ok f ↦ (ok tt, put_file path (some (flushed path f.written s)) s)
    | err e ↦ (
      err failed,
      put_file path (if s.can_remove path then none else some (flushed path content s)) s,
    )
  ]
]

-- file_read(path, data, offset, size)
unfoldable pub file_read : Bytes → ℕ → ℕ → System → Result Bytes
file_read path offset size s = elim (if s.can_read path then s.files path else none) [
  | none ↦ err failed
  | some content ↦ fread size (record { content = content; pos = offset }) failed >>= λ r. ok (r.0)
]

-- file_remove
unfoldable pub file_remove : Bytes → System → Result (Unit {0}) × System
file_remove path s = elim (if s.can_remove path then s.files path else none) [
  | none ↦ (err failed, s)
  | some content ↦ (ok tt, put_file path none s)
]

-- file_copy
unfoldable pub file_copy : Bytes → Bytes → System → Result (Unit {0}) × System
file_copy path1 path2 s = elim (file_size path1 s >>= λ size. file_read path1 0 size s) [
  | err e ↦ (err e, s)
  | ok content ↦ file_write path2 content s
]

-- the end of file_move between two file systems, by what file_copy has done
abbrev pub after_copy : Bytes → Bytes → Result (Unit {0}) × System → Result (Unit {0}) × System
after_copy path1 path2 (err e, s) = (err failed, (file_remove path2 s).1)
after_copy path1 path2 (ok _, s) = file_remove path1 s

-- rename(path1, path2), where it is done
abbrev pub renamed_files : Bytes → Bytes → System → System
renamed_files path1 path2 s = put_file path1 none (put_file path2 (s.files path1) s)

-- file_move. `exdev` is whether errno is EXDEV where rename fails.
unfoldable pub file_move : Bool → Bytes → Bytes → System → Result (Unit {0}) × System
file_move exdev path1 path2 s = elim (s.can_rename path1 path2) [
  | true ↦ (ok tt, renamed_files path1 path2 s)
  | false ↦ elim exdev [
    | false ↦ (ok tt, s)
    | true ↦ after_copy path1 path2 (file_copy path1 path2 s)
  ]
]

-- file_rename
unfoldable pub file_rename : Bytes → Bytes → System → Result (Unit {0}) × System
file_rename path1 path2 s = elim (s.can_rename path1 path2) [
  | true ↦ (ok tt, renamed_files path1 path2 s)
  | false ↦ (err failed, s)
]

-- file_crc; `crc_compute` is that of zlib
unfoldable pub file_crc : (Bytes → ℕ) → Bytes → System → Result ℕ
file_crc crc_compute path s =
    file_size path s >>= λ size. file_read path 0 size s >>= λ content. ok (crc_compute content)

-- disk_move
unfoldable pub disk_move : Operation → Bool → Bytes → Bytes → System → Result (Unit {0}) × System
disk_move o exdev z reject s = elim (active_move o) [
  | true ↦ file_move exdev z reject s
  | false ↦ (ok tt, s)
]
