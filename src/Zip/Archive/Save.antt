-- ===== src/Zip/Archive/Save.antt =====
-- zip.cc: zip::save, and file_temp of file.cc.
pub mod Layout
pub mod Frame
use advancescan.Base.{
  Bytes, List, Option, Result, [], aborted, err, failed, false, if◌then◌else◌, length, none, not,
  ok, replicate, some, ℕ, ◌%◌, ◌&&◌, ◌++◌, ◌-◌, ◌>>=◌, ◌>>◌, ◌∷◌,
}
use advancescan.Endian.{le_uint16_write, le_uint32_write}
use advancescan.Zip.Archive.{System, Zip, flushed, is_empty, put_file}
use advancescan.Zip.Entry.{Entry}
use advancescan.Zip.Entry.Header.{fwrite_some, save_cent, unique_disk}
use advancescan.Zip.Entry.Local.{save_local}
use advancescan.Zip.Format.{
  e_signature, eo_end_of_central_dir_signature, eo_fixed, eo_number_of_disk_start_cent_dir,
  eo_number_of_this_disk, eo_offset_to_start_of_cent_dir, eo_size_of_cent_dir,
  eo_total_entries_cent_dir, eo_total_entries_cent_dir_this_disk, eo_zipfile_comment_length,
}
use advancescan.Zip.Stream.{Output, ftell, fwrite}

pub save_locals : List Entry → Output → Result (List Entry × Output)
save_locals [] f = ok ([], f)
save_locals (e ∷ es) f = do
  (e', f1) ← save_local e f
  (es', f2) ← save_locals es f1
  ok (e' ∷ es', f2)

pub save_cents : List Entry → Output → Result Output
save_cents [] f = ok f
save_cents (e ∷ es) f = do f1 ← save_cent e f; save_cents es f1

-- The end of the central directory: number of entries, size and offset of the directory.
unfoldable pub eo_header : ℕ → ℕ → ℕ → ℕ → Bytes
eo_header count cent_size cent_offset comment_length =
    let b0 = le_uint32_write eo_end_of_central_dir_signature e_signature (replicate eo_fixed 0) in
    let b1 = le_uint16_write eo_number_of_this_disk unique_disk b0 in
    let b2 = le_uint16_write eo_number_of_disk_start_cent_dir unique_disk b1 in
    let b3 = le_uint16_write eo_total_entries_cent_dir_this_disk count b2 in
    let b4 = le_uint16_write eo_total_entries_cent_dir count b3 in
    let b5 = le_uint32_write eo_size_of_cent_dir cent_size b4 in
    let b6 = le_uint32_write eo_offset_to_start_of_cent_dir cent_offset b5 in
    le_uint16_write eo_zipfile_comment_length comment_length b6

-- The writes of zip::save between fopen and fclose.
unfoldable pub save_stream : Zip → Output → Result (Zip × Output)
unfolding save_locals save_cents
save_stream z f = do
  (entries, f1) ← save_locals z.entries f
  let cent_offset = ftell f1
  f2 ← save_cents entries f1
  let cent_size = ftell f2 - cent_offset
  f3 ← fwrite (eo_header (length entries) cent_size cent_offset z.zipfile_comment_length) f2
  f4 ← fwrite_some z.zipfile_comment z.zipfile_comment_length f3
  ok (record z { entries = entries; offset_to_start_of_cent_dir = cent_offset % 4294967296 }, f4)

-- file_temp: path, ".tmp" and the time. (The NUL that `ends` adds is cut by c_str.)
abbrev pub file_temp : Bytes → Bytes → Bytes
file_temp path stamp = path ++ (b'.' ∷ b't' ∷ b'm' ∷ b'p' ∷ stamp)

-- ::rename(save_path, path)
unfoldable pub finish_rename : Bytes → Bytes → Zip → System → Result Zip × System
finish_rename temp path z s =
    if s.can_rename temp path
    then (ok z, put_file temp none (put_file path (s.files temp) s))
    else (err failed, s)

-- What follows fclose, by whether the file `path` exists: the old file is deleted, and the new
-- one gets its name.
unfoldable pub replace : Option Bytes → Bytes → Bytes → Zip → System → Result Zip × System
unfolding finish_rename
replace none temp path z s = finish_rename temp path z s
replace (some _) temp path z s =
    if s.can_remove path
    then finish_rename temp path z (put_file path none s)
    else (err failed, put_file temp none s)

-- The files after the writes and fclose, whose result is not looked at: what the disk took of the
-- temporary file, or nothing where a write failed.
unfoldable pub save_files : Bytes → Result (Zip × Output) → Bytes → System → Result Zip × System
unfolding replace
save_files temp (err e) path s = (err e, put_file temp none s)
save_files temp (ok (z, f)) path s =
    let s1 = put_file temp (some (flushed temp f.written s)) s in
    replace (s1.files path) temp path z s1

-- `else` of save: no entry has data, and the file is deleted.
unfoldable pub delete_file : Option Bytes → Zip → System → Result Zip × System
delete_file none z s = (ok z, s)
delete_file (some _) z s =
    if s.can_remove z.path then (ok z, put_file z.path none s) else (err failed, s)

-- zip::save, with flag.modify reset
unfoldable pub save_clean : Bytes → Zip → System → Result Zip × System
save_clean stamp z s =
    let temp = file_temp z.path stamp in
    if not (is_empty z)
    then (if s.can_create temp
        then save_files temp (save_stream z (record { written = []; room = s.room })) z.path s
        else (err failed, s))
    else delete_file (s.files z.path) (record z { offset_to_start_of_cent_dir = 0 }) s

-- zip::save; `stamp` is the time in decimal. The archive, and the files that are left.
unfoldable pub save : Bytes → Zip → System → Result Zip × System
save stamp z s =
    if z.is_open && z.is_read
    then save_clean stamp (record z { is_modify = false }) s
    else (err aborted, s)
