-- ===== src/Zip/Archive.antt =====
-- zip.cc, class zip: the state of an archive, the files of the system, and the operations that
-- change the list of entries (erase, rename, insert, insert_uncompressed).
pub mod Directory
pub mod Load
pub mod Save
pub mod RoundTrip
pub mod Atomic
pub mod Edit
use advancescan.Base.{
  Bool, Bytes, List, Option, Result, [], aborted, false, if◌then◌else◌, length, ltb, map, not, ok,
  suc, take, throw_if, true, zero, ℕ, ◌&&◌, ◌++◌, ◌+◌, ◌==◌, ◌>>=◌, ◌>>◌, ◌∷◌,
}
use advancescan.Zip.Entry.{
  Attributes, Entry, entry_set, entry_unload, is_text, method_get, name_set, new_entry, store,
}
use advancescan.Zip.Entry.Local.{compressed_read}

pub record Zip : Type 0 where
  -- flag
  pub is_open : Bool
  pub is_read : Bool
  pub is_modify : Bool
  -- info
  pub offset_to_start_of_cent_dir : ℕ
  pub zipfile_comment_length : ℕ
  pub zipfile_comment : Bytes
  pub entries : List Entry
  pub path : Bytes

-- The file system, as far as zip.cc calls it: the files by name, which calls are permitted, and
-- what a full disk does. stdio keeps bytes in a buffer: `room` is the number of bytes after which
-- fwrite fails, and `disk_room` how many bytes of the file that is written under a path are on the
-- disk after fclose. Where it is less than what was written, fclose reports it, and the code does
-- not look at what fclose returns.
pub record System : Type 0 where
  pub files : Bytes → Option Bytes
  pub room : ℕ
  pub disk_room : Bytes → ℕ
  pub can_stat : Bytes → Bool
  pub can_read : Bytes → Bool
  pub can_create : Bytes → Bool
  pub can_remove : Bytes → Bool
  pub can_rename : Bytes → Bytes → Bool

-- memcmp, or == of strings
unfoldable pub bytes_eq : Bytes → Bytes → Bool
bytes_eq [] [] = true
bytes_eq (x ∷ xs) (y ∷ ys) = x == y && bytes_eq xs ys
bytes_eq _ _ = false

abbrev pub put_file : Bytes → Option Bytes → System → System
put_file p c s = record s { files = λ q. if bytes_eq p q then c else s.files q }

-- what the disk has, after fclose, of the bytes written to a file
abbrev pub flushed : Bytes → Bytes → System → Bytes
flushed path written s = take (s.disk_room path) written

-- zip::zip(const string& Apath). `info` is not set by the constructor.
abbrev pub new_zip : Bytes → Zip
new_zip p = record {
  is_open = false;
  is_read = false;
  is_modify = false;
  offset_to_start_of_cent_dir = 0;
  zipfile_comment_length = 0;
  zipfile_comment = [];
  entries = [];
  path = p;
}

-- assert(b)
abbrev pub assert : Bool → Result (Unit {0})
assert b = throw_if (not b) aborted

-- zip::create
unfoldable pub create : Zip → Result Zip
create z = do
  assert (not z.is_open)
  ok (record z {
    offset_to_start_of_cent_dir = 0;
    zipfile_comment_length = 0;
    zipfile_comment = [];
    is_read = true;
    is_open = true;
    is_modify = false;
  })

-- zip::close
unfoldable pub close : Zip → Zip
close z = record z {
  is_open = false;
  is_read = false;
  is_modify = false;
  zipfile_comment = [];
  path = [];
  entries = [];
}

-- zip::unload
pub unload : Zip → Result Zip
unload z = do
  assert (z.is_open && z.is_read && not z.is_modify)
  ok (record z { entries = map entry_unload z.entries; is_read = false })

-- zip::size_not_zero
unfoldable pub size_not_zero : List Entry → ℕ
size_not_zero [] = 0
size_not_zero (e ∷ es) =
    let rest = size_not_zero es in if ltb 0 e.info.uncompressed_size then rest + 1 else rest

-- zip::empty
abbrev pub is_empty : Zip → Bool
is_empty z = size_not_zero z.entries == 0

-- list::erase at the i-th iterator
unfoldable pub erase_at : ℕ → List Entry → List Entry
erase_at i [] = []
erase_at zero (e ∷ es) = es
erase_at (suc i) (e ∷ es) = e ∷ erase_at i es

-- zip::erase
unfoldable pub erase : ℕ → Zip → Result Zip
unfolding erase_at
erase i z = do assert z.is_read; ok (record z { is_modify = true; entries = erase_at i z.entries })

rename_at : ℕ → Bytes → List Entry → List Entry
rename_at i name [] = []
rename_at zero name (e ∷ es) = name_set name e ∷ es
rename_at (suc i) name (e ∷ es) = e ∷ rename_at i name es

-- zip::rename
unfoldable pub rename : ℕ → Bytes → Zip → Result Zip
unfolding rename_at
rename i name z = do
  assert z.is_read
  ok (record z { is_modify = true; entries = rename_at i name z.entries })

-- the attributes that zip::insert takes over from the entry A
abbrev pub attributes_of : Entry → Attributes
attributes_of a = record {
  compsize = a.info.compressed_size;
  size = a.info.uncompressed_size;
  crc = a.info.crc32;
  date = a.info.last_mod_file_date;
  time = a.info.last_mod_file_time;
  text = is_text a;
}

abbrev pub append_entry : Entry → Zip → Zip
append_entry e z = record z { entries = z.entries ++ e ∷ []; is_modify = true }

-- zip::insert of the entry `a`, whose archive is the file `source` if its data is not in memory.
unfoldable pub insert : Bool → Entry → Option Bytes → Bytes → Zip → Result Zip
insert pedantic a source name z = do
  assert z.is_read
  bytes ← compressed_read pedantic a source
  e ← entry_set (method_get a.info) name bytes (attributes_of a) (new_entry z.path)
  ok (append_entry e z)

-- zip::insert_uncompressed; `crc32` is zlib's, and `date` and `time` are what time2zip computes.
unfoldable pub insert_uncompressed :
    (Bytes → ℕ) → Bytes → Bytes → ℕ → ℕ → ℕ → Bool → Zip → Result Zip
insert_uncompressed crc32 name bytes crc date time text z = do
  assert z.is_read
  assert (crc == crc32 bytes)
  let size = length bytes
  e ←
      entry_set store name bytes
        (record { compsize = size; size = size; crc = crc; date = date; time = time; text = text })
        (new_entry z.path)
  ok (append_entry e z)
