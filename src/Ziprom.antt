-- ===== src/Ziprom.antt =====
-- ziprom.cc: class ziprom, an archive of roms. Names are compared by file_compare (file.cc), in
-- either case. The log lines are left out.
pub mod Laws
pub mod Edit
pub mod View
use advancescan.Base.{
  Bool, Bytes, List, Option, Result, [], err, failed, false, if◌then◌else◌, none, not, ok, overrun,
  some, ℕ, ◌&&◌, ◌+◌, ◌==◌, ◌>>=◌, ◌>>◌, ◌∷◌,
}
use advancescan.File.{same_name}
use advancescan.Zip.Archive.{System, Zip, erase, insert, new_zip, rename, unload}
use advancescan.Zip.Archive.Directory.{open_zip}
use advancescan.Zip.Archive.Load.{get_elem?, load, reopen}
use advancescan.Zip.Archive.Save.{save}
use advancescan.Zip.Entry.{Entry}

-- zip_type
pub data ZipType : Type 0 where
  zip_own zip_import zip_unknown : ZipType

pub record Ziprom : Type 0 where
  pub zip : Zip
  pub type : ZipType
  pub readonly : Bool

-- ziprom(path, type, readonly)
abbrev pub new_ziprom : Bytes → ZipType → Bool → Ziprom
new_ziprom path type readonly = record { zip = new_zip path; type = type; readonly = readonly }

-- What the ziprom becomes, by the answer of an operation of its zip.
abbrev pub with_zip : Ziprom → Result Zip → Result Ziprom
with_zip r m = m >>= λ z. ok (record r { zip = z })

-- The data of an entry's archive, where the file can be read.
abbrev pub source_of : System → Entry → Option Bytes
source_of s e = if s.can_read e.parent_name then s.files e.parent_name else none

-- ziprom::open; `can_write` is the answer of access for reading and writing. Where zip::open
-- fails the ziprom is given up.
unfoldable pub open_ziprom : Bool → Bool → Ziprom → System → Result Ziprom
open_ziprom pedantic can_write r s = do
  z ← open_zip pedantic r.zip s
  ok (record r { zip = z; readonly = if z.is_read then false else not can_write })

unfoldable pub find_from : ℕ → Bytes → List Entry → Option (ℕ × Entry)
find_from i name [] = none
find_from i name (e ∷ es) =
    let rest = find_from (i + 1) name es in if same_name e.file_name name then some (i, e) else rest

-- ziprom::find: the place of the first entry of this name, and the entry
unfoldable pub find_name : Bytes → Ziprom → Option (ℕ × Entry)
unfolding find_from
find_name name r = find_from 0 name r.zip.entries

-- ziprom::load
unfoldable pub load_ziprom : Bool → System → Ziprom → Result Ziprom
load_ziprom pedantic s r = if not r.zip.is_read then with_zip r (load pedantic r.zip s) else ok r

-- ziprom::unload
unfoldable pub unload_ziprom : Bool → System → Ziprom → Result Ziprom
unload_ziprom pedantic s r =
    if r.zip.is_read
    then with_zip r (if r.zip.is_modify then reopen pedantic r.zip s else unload r.zip)
    else ok r

-- ziprom::save; both branches on the size call zip::save.
unfoldable pub save_ziprom : Bytes → Ziprom → System → Result Ziprom × System
save_ziprom stamp r s =
    if r.zip.is_read && r.zip.is_modify
    then (let (m, s') = save stamp r.zip s in (with_zip r m, s'))
    else (ok r, s)

-- erase(i) where find has an answer
unfoldable pub erase_found : Ziprom → Option (ℕ × Entry) → Result Ziprom
erase_found r none = ok r
erase_found r (some (i, e)) = with_zip r (erase i r.zip)

-- ziprom::remove(name)
unfoldable pub remove_name : Bool → System → Bytes → Ziprom → Result Ziprom
remove_name pedantic s name r = do r1 ← load_ziprom pedantic s r; erase_found r1 (find_name name r1)

-- ziprom::move, behind the search for the entry
unfoldable pub move_found :
    Bool → System → Option (ℕ × Entry) → Bytes → Ziprom → Ziprom → Result (Ziprom × Ziprom)
move_found pedantic s none dst r reject = err failed
move_found pedantic s (some (i, e)) dst r reject = do
  z ← insert pedantic e (source_of s e) dst reject.zip
  z1 ← erase i r.zip
  ok (record r { zip = z1 }, record reject { zip = z })

-- ziprom::move: this archive, and the one that the entry goes to
unfoldable pub move : Bool → System → Bytes → Bytes → Ziprom → Ziprom → Result (Ziprom × Ziprom)
move pedantic s src dst r reject = do
  r1 ← load_ziprom pedantic s r
  reject1 ← load_ziprom pedantic s reject
  reject2 ← remove_name pedantic s dst reject1
  move_found pedantic s (find_name src r1) dst r1 reject2

unfoldable pub move_if_found :
    Bool → System → Option (ℕ × Entry) → Bytes → Ziprom → Ziprom → Result (Ziprom × Ziprom)
move_if_found pedantic s none name r reject = ok (r, reject)
move_if_found pedantic s (some _) name r reject = move pedantic s name name r reject

-- ziprom::remove(name, reject)
unfoldable pub remove_to : Bool → System → Bytes → Ziprom → Ziprom → Result (Ziprom × Ziprom)
remove_to pedantic s name r reject = do
  r1 ← load_ziprom pedantic s r
  move_if_found pedantic s (find_name name r1) name r1 reject

-- ziprom::add(entry, name), of an entry that the call does not remove
unfoldable pub add_entry : Bool → System → Entry → Bytes → Ziprom → Result Ziprom
add_entry pedantic s e dst r = do
  r1 ← load_ziprom pedantic s r
  r2 ← remove_name pedantic s dst r1
  with_zip r2 (insert pedantic e (source_of s e) dst r2.zip)

-- ziprom::add(entry, name, reject)
unfoldable pub add_entry_to :
    Bool → System → Entry → Bytes → Ziprom → Ziprom → Result (Ziprom × Ziprom)
add_entry_to pedantic s e dst r reject = do
  r1 ← load_ziprom pedantic s r
  (r2, reject1) ← remove_to pedantic s dst r1 reject
  z ← insert pedantic e (source_of s e) dst r2.zip
  ok (record r2 { zip = z }, reject1)

unfoldable pub rename_found : Option (ℕ × Entry) → Bytes → Ziprom → Result Ziprom
rename_found none dst r = err failed
rename_found (some (i, e)) dst r = with_zip r (rename i dst r.zip)

-- ziprom::rename(src, dst, reject)
unfoldable pub rename_to :
    Bool → System → Bytes → Bytes → Ziprom → Ziprom → Result (Ziprom × Ziprom)
rename_to pedantic s src dst r reject = do
  r1 ← load_ziprom pedantic s r
  (r2, reject1) ← remove_to pedantic s dst r1 reject
  r3 ← rename_found (find_name src r2) dst r2
  ok (r3, reject1)

-- ziprom::swap, behind the search: `k` is the place of reject_entry, and `e` the entry there
unfoldable pub swap_found :
    Bool → System → Option (ℕ × Entry) → ℕ → Entry → Ziprom → Ziprom → Result (Ziprom × Ziprom)
swap_found pedantic s none k e r reject = do
  z ← insert pedantic e (source_of s e) e.file_name r.zip
  z1 ← erase k reject.zip
  ok (record r { zip = z }, record reject { zip = z1 })
swap_found pedantic s (some (i, old)) k e r reject = do
  z ← insert pedantic e (source_of s e) e.file_name r.zip
  y ← insert pedantic old (source_of s old) old.file_name reject.zip
  z1 ← erase i z
  y1 ← erase k y
  ok (record r { zip = z1 }, record reject { zip = y1 })

-- whether erasing what `find` has found takes away the entry at this place
abbrev pub takes : ℕ → Option (ℕ × Entry) → Bool
takes i none = false
takes i (some (j, e)) = i == j

-- ziprom::add(src, dst), behind the search for src. Where the entry is the one that is removed,
-- the source reads an erased entry.
unfoldable pub add_found : Bool → System → Option (ℕ × Entry) → Bytes → Ziprom → Result Ziprom
add_found pedantic s none dst r = err failed
add_found pedantic s (some (i, e)) dst r =
    if takes i (find_name dst r) then err overrun else add_entry pedantic s e dst r

-- ziprom::add(src, dst)
unfoldable pub add_named : Bool → System → Bytes → Bytes → Ziprom → Result Ziprom
add_named pedantic s src dst r = do
  r1 ← load_ziprom pedantic s r
  add_found pedantic s (find_name src r1) dst r1

unfoldable pub add_found_to :
    Bool → System → Option (ℕ × Entry) → Bytes → Ziprom → Ziprom → Result (Ziprom × Ziprom)
add_found_to pedantic s none dst r reject = err failed
add_found_to pedantic s (some (i, e)) dst r reject =
    if takes i (find_name dst r) then err overrun else add_entry_to pedantic s e dst r reject

-- ziprom::add(src, dst, reject)
unfoldable pub add_named_to :
    Bool → System → Bytes → Bytes → Ziprom → Ziprom → Result (Ziprom × Ziprom)
add_named_to pedantic s src dst r reject = do
  r1 ← load_ziprom pedantic s r
  add_found_to pedantic s (find_name src r1) dst r1 reject

-- ziprom::swap; the iterator reject_entry stands at the place `k`
unfoldable pub swap : Bool → System → Bytes → ℕ → Ziprom → Ziprom → Result (Ziprom × Ziprom)
swap pedantic s name k r reject = do
  r1 ← load_ziprom pedantic s r
  reject1 ← load_ziprom pedantic s reject
  elim (get_elem? reject1.zip.entries k) [
    | none ↦ err overrun
    | some e ↦ swap_found pedantic s (find_name name r1) k e r1 reject1
  ]
