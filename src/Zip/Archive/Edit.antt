-- ===== src/Zip/Archive/Edit.antt =====
-- zip.cc: the operations on the list of entries.
use mathlib.Core.Path.{subst}
use advancescan.Base.{
  Bool, Bytes, Option, [], ap, arith, length, ok, refl, some, sym, true, ℕ, ◌++◌, ◌<◌, ◌>>=◌, ◌∙◌,
  ◌∷◌, ◌≡◌,
}
use advancescan.Zip.Archive.{Zip, attributes_of, insert}
use advancescan.Zip.Archive.Save.Layout.{IsKept}
use advancescan.Zip.Entry.{
  Attributes, Entry, Info, Method, entry_set, method_get, method_set, name_set, new_entry, set_info,
}
use advancescan.Zip.Entry.Local.{compressed_read}
use advancescan.Zip.Entry.Methods.{Coded, Settable, method_set-Coded, stored_method}
use advancescan.Zip.Stream.Laws.{block_all}

-- The parts of a new entry's data that zip::insert takes over.
pub record Copies (a e : Entry) (name bytes : Bytes) : Type 0 where
  pub name_is : e.file_name ≡ name
  pub data_is : e.compdata ≡ some bytes
  pub crc_is : e.info.crc32 ≡ a.info.crc32
  pub size_is : e.info.uncompressed_size ≡ a.info.uncompressed_size
  pub compressed_is : e.info.compressed_size ≡ a.info.compressed_size
  pub date_is : e.info.last_mod_file_date ≡ a.info.last_mod_file_date
  pub time_is : e.info.last_mod_file_time ≡ a.info.last_mod_file_time

-- The entry that `set` makes of a fresh one.
made : Bytes → Bytes → Attributes → Bytes → Info → Entry
made name bytes a parent j = name_set name (record (new_entry parent) {
  info = record j {
    compressed_size = a.compsize;
    local_extra_field_length = 0;
    central_extra_field_length = 0;
    file_comment_length = 0;
  };
  compdata = some bytes;
})

entry_set-made :
    (m : Method) (name bytes parent : Bytes) (a : Attributes)
    → a.compsize ≡ length bytes
    → entry_set m name bytes a (new_entry parent)
      ≡ (method_set m (set_info a (new_entry parent).info) >>= λ j. ok (made name bytes a parent j))
unfolding entry_set made
entry_set-made m name bytes parent a e = rw (block_all bytes a.compsize e)

-- The bounds of what is stored.
pub record InRange (a : Attributes) (name : Bytes) : Type 0 where
  pub name_pos : 0 < length name
  pub name_lt : length name < 65536
  pub size_lt : a.size < 4294967296
  pub compsize_lt : a.compsize < 4294967296
  pub crc_lt : a.crc < 4294967296
  pub date_lt : a.date < 65536
  pub time_lt : a.time < 65536

coded_info : Attributes → Bytes → ℕ → ℕ → ℕ → Info
coded_info a parent method flags version = record (set_info a (new_entry parent).info) {
  compression_method = method;
  general_purpose_bit_flag = flags;
  version_needed_to_extract = version;
}

coded_info-IsKept :
    (name bytes parent : Bytes) (a : Attributes) (method flags version : ℕ)
    → InRange a name
    → a.compsize ≡ length bytes
    → method < 65536
    → flags < 65536
    → version < 256
    → IsKept (made name bytes a parent (coded_info a parent method flags version))
unfolding made coded_info
coded_info-IsKept name bytes parent a method flags version r e hm hf hv = record {
  stored = record {
    fits = ground arith;
    name_is = refl;
    central_extra_is = refl;
    local_extra_is = refl;
    comment_is = refl;
  };
  loaded = record { data_is = refl; size_is = e };
}

made-IsKept :
    (name bytes parent : Bytes) (a : Attributes) (j : Info)
    → InRange a name
    → a.compsize ≡ length bytes
    → Coded (set_info a (new_entry parent).info) j
    → IsKept (made name bytes a parent j)
unfolding coded_info
made-IsKept name bytes parent a j r e c =
    subst (λ k. IsKept (made name bytes a parent k)) (sym c.rest)
      (coded_info-IsKept name bytes parent a j.compression_method j.general_purpose_bit_flag
        j.version_needed_to_extract r e c.method c.flags c.version)

made-Copies :
    (name bytes parent : Bytes) (a : Entry) (j : Info)
    → Coded (set_info (attributes_of a) (new_entry parent).info) j
    → Copies a (made name bytes (attributes_of a) parent j) name bytes
unfolding made
made-Copies name bytes parent a j c = record {
  name_is = refl;
  data_is = refl;
  crc_is = ap (λ k. k.crc32) c.rest;
  size_is = ap (λ k. k.uncompressed_size) c.rest;
  compressed_is = refl;
  date_is = ap (λ k. k.last_mod_file_date) c.rest;
  time_is = ap (λ k. k.last_mod_file_time) c.rest;
}

method_get-made :
    (name bytes parent : Bytes) (a : Attributes) (j : Info)
    → method_get (made name bytes a parent j).info ≡ method_get j
unfolding made method_get
method_get-made name bytes parent a j = refl

-- Inserting an entry whose data can be read, under a new name, appends exactly one entry: a copy
-- with the same data, checksum, sizes, time and compression class, which can be saved again. The
-- other entries stay as they are, and the archive counts as modified. The conditions are that
-- the archive is loaded, the entry's method is known, its sizes are those of its data, and all
-- stored numbers are in range.
pub insert-appends :
    (pedantic : Bool) (a : Entry) (source : Option Bytes) (name bytes : Bytes) (z : Zip)
    → z.is_read ≡ true
    → compressed_read pedantic a source ≡ ok bytes
    → a.info.compressed_size ≡ length bytes
    → Settable (method_get a.info) a.info
    → InRange (attributes_of a) name
    → (e : Entry) × (insert pedantic a source name z
        ≡ ok (record z { entries = z.entries ++ e ∷ []; is_modify = true }))
      × Copies a e name bytes
      × IsKept e
      × (method_get e.info ≡ stored_method (method_get a.info))
unfolding insert
insert-appends pedantic a source name bytes z loaded readable size s r =
    let att = attributes_of a in
    let (j, accepted, c, m) =
      method_set-Coded (method_get a.info) (set_info att (new_entry z.path).info) s refl refl in
    (
      made name bytes att z.path j,
      rw loaded (
          rw readable
            (rw (entry_set-made (method_get a.info) name bytes z.path att size) (rw accepted))),
      made-Copies name bytes z.path a j c,
      made-IsKept name bytes z.path att j r size c,
      method_get-made name bytes z.path att j ∙ m,
    )
