-- ===== src/Ziparchive.antt =====
-- ziprom.cc: class ziparchive, a list of archives with an index of the sizes and checksums of
-- their entries. The destructor is left out.
pub mod Index
use advancescan.Base.{
  Bool, Bytes, List, Option, Result, [], false, if◌then◌else◌, none, not, ok, some, suc, true, zero,
  ℕ, ◌&&◌, ◌++◌, ◌+◌, ◌==◌, ◌>>=◌, ◌>>◌, ◌∷◌,
}
use advancescan.Zip.Archive.{System, assert, bytes_eq, is_empty}
use advancescan.Zip.Entry.{Entry}
use advancescan.Ziprom.{ZipType, Ziprom, open_ziprom, zip_import, zip_own, zip_unknown}

-- ziparchive_crcsize
pub record CrcSize : Type 0 where
  pub crc : ℕ
  pub size : ℕ

pub record Ziparchive : Type 0 where
  pub data_list : List Ziprom
  pub index : List CrcSize

abbrev pub new_ziparchive : Ziparchive
new_ziparchive = record { data_list = []; index = [] }

-- ziparchive_crcsize::operator==
abbrev pub same_crcsize : CrcSize → CrcSize → Bool
same_crcsize a b = a.crc == b.crc && a.size == b.size

-- index.find(k) != index.end()
unfoldable pub has_key : CrcSize → List CrcSize → Bool
has_key k [] = false
has_key k (x ∷ index) = let rest = has_key k index in if same_crcsize k x then true else rest

-- index.insert(k)
unfoldable pub insert_key : CrcSize → List CrcSize → List CrcSize
insert_key k index = if has_key k index then index else k ∷ index

abbrev pub key_of : Entry → CrcSize
key_of e = record { crc = e.info.crc32; size = e.info.uncompressed_size }

-- the loops that update the index
unfoldable pub insert_keys : List Entry → List CrcSize → List CrcSize
insert_keys [] index = index
insert_keys (e ∷ es) index = insert_keys es (insert_key (key_of e) index)

-- ziparchive::find(zipfile): the place of the first archive of this path
unfoldable pub find_file : ℕ → Bytes → List Ziprom → Option ℕ
find_file i path [] = none
find_file i path (r ∷ rs) =
    let rest = find_file (i + 1) path rs in if bytes_eq path r.zip.path then some i else rest

unfoldable pub erase_ziprom : ℕ → List Ziprom → List Ziprom
erase_ziprom i [] = []
erase_ziprom zero (r ∷ rs) = rs
erase_ziprom (suc i) (r ∷ rs) = r ∷ erase_ziprom i rs

-- ziparchive::erase
unfoldable pub erase_at_place : ℕ → Ziparchive → Ziparchive
erase_at_place i a = record a { data_list = erase_ziprom i a.data_list }

-- data.insert(data.end(), A) and the update of the index
unfoldable pub append_ziprom : Ziprom → Ziparchive → Ziparchive
append_ziprom r a = record {
  data_list = a.data_list ++ r ∷ [];
  index = insert_keys r.zip.entries a.index;
}

-- ziparchive::open_and_insert
unfoldable pub open_and_insert : Bool → Bool → Ziprom → System → Ziparchive → Result Ziparchive
open_and_insert pedantic can_write r s a = do
  assert (not r.zip.is_open)
  r1 ← open_ziprom pedantic can_write r s
  assert r1.zip.is_open
  ok (append_ziprom r1 a)

-- `erase(i)` of the archive that is already there
unfoldable pub without : Option ℕ → Ziparchive → Ziparchive
without none a = a
without (some i) a = erase_at_place i a

-- ziparchive::update
unfoldable pub update : Ziprom → Ziparchive → Result Ziparchive
update r a = do
  assert r.zip.is_open
  let a1 = without (find_file 0 r.zip.path a.data_list) a
  ok (if not (is_empty r.zip) then append_ziprom r a1 else a1)

-- the inner loop of find_iter
unfoldable pub find_entry : CrcSize → List Entry → Option Entry
find_entry k [] = none
find_entry k (e ∷ es) =
    let rest = find_entry k es in
    if k.crc == e.info.crc32 && k.size == e.info.uncompressed_size then some e else rest

-- what the inner loop finds in an archive, or what the next ones have
abbrev pub found_in : Ziprom → Option Entry → Option (Ziprom × Entry) → Option (Ziprom × Entry)
found_in r (some e) rest = some (r, e)
found_in r none rest = rest

-- the outer loop, over the archives that pass the test; `i` is the place of the first
unfoldable pub find_in : (ℕ → Ziprom → Bool) → CrcSize → ℕ → List Ziprom → Option (Ziprom × Entry)
find_in test k i [] = none
find_in test k i (r ∷ rs) =
    let rest = find_in test k (i + 1) rs in
    if test i r then found_in r (find_entry k r.zip.entries) rest else rest

-- ziparchive::find_iter(size, crc)
abbrev pub find_iter : CrcSize → Ziparchive → Option (Ziprom × Entry)
find_iter k a = find_in (λ i r. true) k 0 a.data_list

-- ziparchive::find(size, crc)
unfoldable pub find : CrcSize → Ziparchive → Option (Ziprom × Entry)
find k a = if has_key k a.index then find_iter k a else none

-- type==i->type_get()
abbrev pub same_type : ZipType → ZipType → Bool
same_type zip_own zip_own = true
same_type zip_import zip_import = true
same_type zip_unknown zip_unknown = true
same_type _ _ = false

-- ziparchive::find(size, crc, type)
unfoldable pub find_type : ZipType → CrcSize → Ziparchive → Option (Ziprom × Entry)
find_type t k a = find_in (λ i r. same_type t r.type) k 0 a.data_list

-- &*i != &exclude, where `exclude` is the archive at this place of the list, or none of them
abbrev pub is_other : Option ℕ → ℕ → Bool
is_other none i = true
is_other (some j) i = not (i == j)

-- ziparchive::find_exclude_iter
abbrev pub find_exclude_iter : Option ℕ → CrcSize → Ziparchive → Option (Ziprom × Entry)
find_exclude_iter exclude k a = find_in (λ i r. is_other exclude i) k 0 a.data_list

-- ziparchive::find_exclude
unfoldable pub find_exclude : Option ℕ → CrcSize → Ziparchive → Option (Ziprom × Entry)
find_exclude exclude k a = if has_key k a.index then find_exclude_iter exclude k a else none
