-- ===== src/Zip/Archive/RoundTrip.antt =====
-- zip.cc: save, then open and load.
use advancescan.Base.{
  ==_refl, Bool, Bytes, Option-cases, Result, [], arith, false, inl, inr, length, map, ok, refl,
  some, take_ge, true, ℕ, ◌++◌, ◌<◌, ◌>>=◌, ◌∙◌, ◌∷◌, ◌≡◌, ◌≤◌,
}
use advancescan.Zip.Archive.{System, Zip, bytes_eq, is_empty, new_zip}
use advancescan.Zip.Archive.Directory.{open_content, open_zip}
use advancescan.Zip.Archive.Directory.RoundTrip.{open_content-archive_bytes, reopened}
use advancescan.Zip.Archive.Load.{load, load_content}
use advancescan.Zip.Archive.Load.RoundTrip.{load_content-archive_bytes, reloaded}
use advancescan.Zip.Archive.Save.{
  file_temp, finish_rename, replace, save, save_clean, save_files, save_stream,
}
use advancescan.Zip.Archive.Save.Layout.{
  All, IsKept, all_locals, archive_bytes, placed_all, save_stream_ok, saved,
}
use advancescan.Zip.Stream.{Output}

pub bytes_eq_refl : (a : Bytes) → bytes_eq a a ≡ true
unfolding bytes_eq
bytes_eq_refl [] = refl
bytes_eq_refl (x ∷ a) = rw (==_refl x) (bytes_eq_refl a)

-- The temporary file has another name than the archive.
pub bytes_eq_longer : (a b : Bytes) (x : ℕ) → bytes_eq (a ++ (x ∷ b)) a ≡ false
unfolding bytes_eq
bytes_eq_longer [] b x = refl
bytes_eq_longer (y ∷ a) b x = rw (==_refl y) (bytes_eq_longer a b x)

pub bytes_eq_shorter : (a b : Bytes) (x : ℕ) → bytes_eq a (a ++ (x ∷ b)) ≡ false
unfolding bytes_eq
bytes_eq_shorter [] b x = refl
bytes_eq_shorter (y ∷ a) b x = rw (==_refl y) (bytes_eq_shorter a b x)

-- What the system must grant for a save and for a later load.
pub record Grants (s : System) (path temp : Bytes) : Type 0 where
  pub stat : s.can_stat path ≡ true
  pub read : s.can_read path ≡ true
  pub create : s.can_create temp ≡ true
  pub remove : s.can_remove path ≡ true
  pub rename : s.can_rename temp path ≡ true

-- The archive after zip::open and zip::load of what was saved.
abbrev pub restored : Zip → Zip
restored z = record (new_zip z.path) {
  is_open = true;
  is_read = true;
  offset_to_start_of_cent_dir = length (all_locals z.entries);
  entries = map (reloaded z.path) (placed_all 0 z.entries);
}

-- The hypotheses under which an archive can be saved.
pub record CanSave (z : Zip) (s : System) : Type 0 where
  pub opened : z.is_open ≡ true
  pub loaded : z.is_read ≡ true
  pub kept : All IsKept z.entries
  pub not_empty : is_empty z ≡ false
  pub no_comment : z.zipfile_comment_length ≡ 0
  pub room : length (archive_bytes z.entries) ≤ s.room
  pub small : length (archive_bytes z.entries) < 4294967296

-- The new file under the archive's name, with the rest of the system as it was.
record Replaced (z : Zip) (content : Bytes) (s : System) (r : Result Zip × System) (z' : Zip)
    : Type 0 where
  returns : r.0 ≡ ok z'
  file : r.1.files z.path ≡ some content
  stat : r.1.can_stat z.path ≡ true
  read : r.1.can_read z.path ≡ true

save_files_ok :
    (temp : Bytes) (z z' : Zip) (f : Output) (s : System)
    → Grants s z.path temp
    → bytes_eq temp z.path ≡ false
    → bytes_eq z.path temp ≡ false
    → length f.written ≤ s.disk_room temp
    → Replaced z f.written s (save_files temp (ok (z', f)) z.path s) z'
unfolding save_files replace finish_rename
save_files_ok temp z z' f s g other other' fit = elim (Option-cases (s.files z.path)) [
  | inl absent ↦
      ground
        (arith, bytes_eq_refl z.path, bytes_eq_refl temp, take_ge (s.disk_room temp) f.written fit)
  | inr (old, present) ↦
      ground
        (arith, bytes_eq_refl z.path, bytes_eq_refl temp, take_ge (s.disk_room temp) f.written fit)
]

save_open :
    (stamp : Bytes) (z : Zip) (s : System)
    → z.is_open ≡ true
    → z.is_read ≡ true
    → save stamp z s ≡ save_clean stamp (record z { is_modify = false }) s
unfolding save
save_open stamp z s o r = ground arith

save_clean_ok :
    (stamp : Bytes) (z z' : Zip) (f : Output) (s : System)
    → is_empty z ≡ false
    → s.can_create (file_temp z.path stamp) ≡ true
    → save_stream z (record { written = []; room = s.room }) ≡ ok (z', f)
    → save_clean stamp z s ≡ save_files (file_temp z.path stamp) (ok (z', f)) z.path s
unfolding save_clean
save_clean_ok stamp z z' f s n c e = rw (n, save_clean) (rw (c, save_clean) (rw e))

open_zip_ok :
    (pedantic : Bool) (path content : Bytes) (s : System)
    → s.can_stat path ≡ true
    → s.can_read path ≡ true
    → s.files path ≡ some content
    → open_zip pedantic (new_zip path) s ≡ open_content pedantic (new_zip path) content
unfolding open_zip
open_zip_ok pedantic path content s t r f = rw (t, open_zip) (rw (f, open_zip) (rw r))

load_ok :
    (pedantic : Bool) (z : Zip) (content : Bytes) (s : System)
    → z.is_open ≡ true
    → z.is_read ≡ false
    → s.can_read z.path ≡ true
    → s.files z.path ≡ some content
    → load pedantic z s ≡ load_content pedantic z content
unfolding load
load_ok pedantic z content s o n r f = ground arith

-- A loaded archive with at least one entry that has data, whose entries are well formed and fit
-- the disk, both what fwrite takes and what reaches it by fclose, and 32-bit offsets, and with no
-- comment, is saved, where the system permits the calls; and opening and loading the file that is
-- left under its name, pedantically or not, gives back every entry in order, with its name, data,
-- checksum and attributes.
pub load-open-save :
    (pedantic : Bool) (stamp : Bytes) (z : Zip) (s : System)
    → CanSave z s
    → Grants s z.path (file_temp z.path stamp)
    → length (archive_bytes z.entries) ≤ s.disk_room (file_temp z.path stamp)
    → let (r, s') = save stamp z s in
      (r ≡ ok (saved (record z { is_modify = false })))
      × ((open_zip pedantic (new_zip z.path) s' >>= λ y. load pedantic y s') ≡ ok (restored z))
load-open-save pedantic stamp z s c g fit =
    let temp = file_temp z.path stamp in
    let z1 = record z { is_modify = false } in
    let f : Output = record { written = archive_bytes z.entries; room = s.room } in
    let same =
      save_open stamp z s c.opened c.loaded
      ∙ save_clean_ok stamp z1 (saved z1) f s c.not_empty g.create
          (save_stream_ok z1 s.room c.kept c.no_comment c.room) in
    let r =
      save_files_ok temp z (saved z1) f s g
        (bytes_eq_longer z.path (b't' ∷ b'm' ∷ b'p' ∷ stamp) b'.')
        (bytes_eq_shorter z.path (b't' ∷ b'm' ∷ b'p' ∷ stamp) b'.') fit in
    let s' = (save_files temp (ok (saved z1, f)) z.path s).1 in
    let y : Zip = record (new_zip z.path) {
      is_open = true;
      offset_to_start_of_cent_dir = length (all_locals z.entries);
      entries = map (reopened z.path) (placed_all 0 z.entries);
    } in
    rw same (
      r.returns,
      rw (open_zip_ok pedantic z.path (archive_bytes z.entries) s' r.stat r.read r.file) (
          rw (open_content-archive_bytes pedantic (new_zip z.path) z.entries c.kept c.small) (
            rw (load_ok pedantic y (archive_bytes z.entries) s' refl refl r.read r.file) (
              load_content-archive_bytes pedantic (record (new_zip z.path) { is_open = true })
                z.entries c.kept c.small))),
    )
