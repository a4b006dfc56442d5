-- ===== src/Zip/Archive/Atomic.antt =====
-- zip.cc: zip::save and the file that it replaces; zip::reopen.
use advancescan.Base.{
  Bool, Bool-cases, Bytes, Error, Option-cases, Result, [], aborted, arith, err, failed, false, inl,
  inr, none, ok, refl, some, true, ◌&&◌, ◌∷◌, ◌≡◌, ◌⊎◌,
}
use advancescan.Zip.Archive.{System, Zip, bytes_eq, close, create, flushed, is_empty, new_zip}
use advancescan.Zip.Archive.Directory.{open_zip}
use advancescan.Zip.Archive.Load.{reopen}
use advancescan.Zip.Archive.RoundTrip.{bytes_eq_longer, bytes_eq_refl, bytes_eq_shorter}
use advancescan.Zip.Archive.Save.{
  delete_file, file_temp, finish_rename, replace, save, save_clean, save_files, save_stream,
}
use advancescan.Zip.Stream.{Output}

-- How a save of `z` may end: the archive's file is the old one, or the new one, or it is deleted as
-- intended, or it is gone and the new file stands under the temporary name. The new file is what
-- the disk took of the bytes written.
pub data Ending (z : Zip) (path temp : Bytes) (s : System) (r : Result Zip × System) : Type 0 where
  kept : (e : Error) → r.0 ≡ err e → r.1.files path ≡ s.files path → Ending z path temp s r
  renamed :
      (z' : Zip) (f : Output)
      → save_stream z (record { written = []; room = s.room }) ≡ ok (z', f)
      → r.0 ≡ ok z'
      → r.1.files path ≡ some (flushed temp f.written s)
      → r.1.files temp ≡ none
      → Ending z path temp s r
  deleted :
      is_empty z ≡ true
      → r.0 ≡ ok (record z { offset_to_start_of_cent_dir = 0 })
      → r.1.files path ≡ none
      → Ending z path temp s r
  stranded :
      (z' : Zip) (f : Output)
      → save_stream z (record { written = []; room = s.room }) ≡ ok (z', f)
      → r.0 ≡ err failed
      → r.1.files temp ≡ some (flushed temp f.written s)
      → s.can_rename temp path ≡ false
      → Ending z path temp s r

module _ (z : Zip) (path temp : Bytes) (s : System) (other : bytes_eq temp path ≡ false)
    (other' : bytes_eq path temp ≡ false) where
  -- The writes have succeeded.
  written-Ending :
      (z' : Zip) (f : Output)
      → save_stream z (record { written = []; room = s.room }) ≡ ok (z', f)
      → Ending z path temp s (save_files temp (ok (z', f)) path s)
  unfolding save_files replace finish_rename
  written-Ending z' f w = elim (Bool-cases (s.can_rename temp path)) [
    | inl can ↦ elim (Option-cases (s.files path)) [
      | inl absent ↦
          renamed z' f w (ground arith) (ground (arith, bytes_eq_refl path, bytes_eq_refl temp))
            (ground (arith, bytes_eq_refl temp))
      | inr (old, present) ↦ elim (Bool-cases (s.can_remove path)) [
        | inl remove ↦
            renamed z' f w (ground arith) (ground (arith, bytes_eq_refl path, bytes_eq_refl temp))
              (ground (arith, bytes_eq_refl temp))
        | inr locked ↦ kept failed (ground arith) (ground arith)
      ]
    ]
    | inr cannot ↦ elim (Option-cases (s.files path)) [
      | inl absent ↦ stranded z' f w (ground arith) (ground (arith, bytes_eq_refl temp)) cannot
      | inr (old, present) ↦ elim (Bool-cases (s.can_remove path)) [
        | inl remove ↦ stranded z' f w (ground arith) (ground (arith, bytes_eq_refl temp)) cannot
        | inr locked ↦ kept failed (ground arith) (ground arith)
      ]
    ]
  ]

Result-cases {ℓ} :
    {A : Type ℓ} (r : Result A) → ((a : A) × (r ≡ ok a)) ⊎ ((e : Error) × (r ≡ err e))
Result-cases (ok a) = inl (a, refl)
Result-cases (err e) = inr (e, refl)

delete_file-Ending :
    (z : Zip) (temp : Bytes) (s : System)
    → is_empty z ≡ true
    → Ending z z.path temp s
        (delete_file (s.files z.path) (record z { offset_to_start_of_cent_dir = 0 }) s)
unfolding delete_file
delete_file-Ending z temp s n = elim (Option-cases (s.files z.path)) [
  | inl absent ↦ rw (absent, delete_file) (deleted n refl absent)
  | inr (old, present) ↦ elim (Bool-cases (s.can_remove z.path)) [
    | inl can ↦ deleted n (ground arith) (ground (arith, bytes_eq_refl z.path))
    | inr cannot ↦ kept failed (ground arith) (ground arith)
  ]
]

save_files_err :
    (z : Zip) (path temp : Bytes) (s : System) (e : Error)
    → bytes_eq temp path ≡ false
    → Ending z path temp s (save_files temp (err e) path s)
unfolding save_files
save_files_err z path temp s e other = kept e refl (rw other)

save_clean-Ending :
    (stamp : Bytes) (z : Zip) (s : System)
    → Ending z z.path (file_temp z.path stamp) s (save_clean stamp z s)
unfolding save_clean
save_clean-Ending stamp z s =
    let temp = file_temp z.path stamp in
    let other = bytes_eq_longer z.path (b't' ∷ b'm' ∷ b'p' ∷ stamp) b'.' in
    let other' = bytes_eq_shorter z.path (b't' ∷ b'm' ∷ b'p' ∷ stamp) b'.' in
    elim (Bool-cases (is_empty z)) [
      | inl n ↦ rw (n, save_clean) (delete_file-Ending z temp s n)
      | inr n ↦ elim (Bool-cases (s.can_create temp)) [
        | inr cannot ↦ rw (n, save_clean) (rw cannot (kept failed refl refl))
        | inl can ↦ elim (Result-cases (save_stream z (record { written = []; room = s.room }))) [
          | inl ((z', f), w) ↦
              rw (n, save_clean) (rw (can, w) (written-Ending z z.path temp s other other' z' f w))
          | inr (e, w) ↦ rw (n, save_clean) (rw (can, w) (save_files_err z z.path temp s e other))
        ]
      ]
    ]

-- Whatever the disk and the system allow, a save ends in one of four ways: the old file is left as
-- it was, and an error is reported; or every write was taken, no error is reported, the temporary
-- file is gone, and the archive's file holds of the bytes written as many as the disk took by
-- fclose, which are all of them only where the disk had room for them; or no entry has data, and
-- the file is deleted; or every write was taken and the last rename was refused: the error is
-- reported, and the temporary file holds what the disk took of it.
pub save-Ending :
    (stamp : Bytes) (z : Zip) (s : System)
    → Ending (record z { is_modify = false }) z.path (file_temp z.path stamp) s (save stamp z s)
unfolding save
save-Ending stamp z s = elim (Bool-cases (z.is_open && z.is_read)) [
  | inl ready ↦ rw ready (save_clean-Ending stamp (record z { is_modify = false }) s)
  | inr not_ready ↦ rw not_ready (kept aborted refl refl)
]

-- zip::reopen of an open archive never reads the archive's file: `close` clears the path, so
-- what is opened is the file with the empty name. Where there is none, the result is a newly
-- created archive with no name and no entry, whatever the archive held.
pub reopen-close :
    (pedantic : Bool) (z : Zip) (s : System)
    → z.is_open ≡ true
    → s.can_stat [] ≡ true
    → s.files [] ≡ none
    → reopen pedantic z s ≡ ok (record (new_zip []) { is_open = true; is_read = true })
unfolding reopen open_zip create close
reopen-close pedantic z s o t n = rw o (rw (t, open_zip) (rw n))
