-- ===== src/Tests/ZipTests.antt =====
-- Runs of zip.cc's model, and instances of the theorems about it.
use advancescan.Base.{
  Bytes, [], arith, false, length, none, ok, refl, some, true, ℕ, ◌++◌, ◌>>=◌, ◌∷◌, ◌≡◌,
}
use advancescan.Zip.Archive.{
  System, Zip, attributes_of, insert, insert_uncompressed, new_zip, size_not_zero,
}
use advancescan.Zip.Archive.Atomic.{Ending, reopen-close, save-Ending}
use advancescan.Zip.Archive.Directory.{open_zip}
use advancescan.Zip.Archive.Edit.{Copies, InRange, insert-appends}
use advancescan.Zip.Archive.Load.{load, reopen}
use advancescan.Zip.Archive.RoundTrip.{CanSave, Grants, load-open-save, restored}
use advancescan.Zip.Archive.Save.{eo_header, file_temp, save}
use advancescan.Zip.Archive.Save.Layout.{IsKept, all_cents, all_locals, placed_all, saved}
use advancescan.Zip.Entry.{Entry, entry_set, method_get, method_set}
use advancescan.Zip.Entry.Header.{cent_header}
use advancescan.Zip.Entry.Local.{compressed_read, local_header}
use advancescan.Zip.Entry.Methods.{Settable, stored_method}
use advancescan.Zip.Stream.{block}

abbrev pub checksum : Bytes → ℕ
checksum b = 77

abbrev pub empty_zip : Zip
empty_zip = record (new_zip (b'z' ∷ [])) { is_open = true; is_read = true }

abbrev pub item : Bytes → Bytes → Entry
item name bytes = record {
  info = record {
    version_made_by = 20;
    host_os = 0;
    version_needed_to_extract = 10;
    os_needed_to_extract = 0;
    general_purpose_bit_flag = 0;
    compression_method = 0;
    last_mod_file_time = 5;
    last_mod_file_date = 9;
    crc32 = 77;
    compressed_size = length bytes;
    uncompressed_size = length bytes;
    filename_length = length name;
    central_extra_field_length = 0;
    local_extra_field_length = 0;
    file_comment_length = 0;
    internal_file_attrib = 0;
    external_file_attrib = 0;
    relative_offset_of_local_header = 0xffffffff;
  };
  parent_name = b'z' ∷ [];
  file_name = name;
  file_comment = [];
  local_extra_field = [];
  central_extra_field = [];
  compdata = some bytes;
}

abbrev pub item_a : Entry
item_a = item (b'a' ∷ []) (1 ∷ 2 ∷ 3 ∷ [])

abbrev pub item_b : Entry
item_b = item (b'b' ∷ b'b' ∷ []) []

abbrev pub two_items : Zip
two_items = record empty_zip { entries = item_a ∷ item_b ∷ []; is_modify = true }

abbrev pub disk : System
disk = record {
  files = λ p. none;
  room = 1000;
  disk_room = λ p. 1000;
  can_stat = λ p. true;
  can_read = λ p. true;
  can_create = λ p. true;
  can_remove = λ p. true;
  can_rename = λ p q. true;
}

inserted :
    (insert_uncompressed checksum (b'a' ∷ []) (1 ∷ 2 ∷ 3 ∷ []) 77 9 5 false empty_zip
      >>= insert_uncompressed checksum (b'b' ∷ b'b' ∷ []) [] 77 9 5 false)
    ≡ ok two_items
unfolding insert_uncompressed entry_set method_set block
inserted = refl

pub item_a-IsKept : IsKept item_a
item_a-IsKept = ground arith

pub item_b-IsKept : IsKept item_b
item_b-IsKept = ground arith

two_items-CanSave : CanSave two_items disk
unfolding size_not_zero all_locals placed_all all_cents cent_header local_header eo_header
two_items-CanSave = record {
  opened = refl;
  loaded = refl;
  kept = (item_a-IsKept, (item_b-IsKept, tt));
  not_empty = refl;
  no_comment = refl;
  room = omega arith;
  small = omega arith;
}

disk-Grants : Grants disk (b'z' ∷ []) (file_temp (b'z' ∷ []) (b'1' ∷ []))
disk-Grants = record { stat = refl; read = refl; create = refl; remove = refl; rename = refl }

load-open-save_example :
    let (r, s') = save (b'1' ∷ []) two_items disk in
    (r ≡ ok (saved (record two_items { is_modify = false })))
    × ((open_zip true (new_zip (b'z' ∷ [])) s' >>= λ y. load true y s') ≡ ok (restored two_items))
load-open-save_example =
    load-open-save true (b'1' ∷ []) two_items disk two_items-CanSave disk-Grants
      two_items-CanSave.room

save-Ending_example :
    Ending
      (record (record two_items { is_modify = false }) { is_modify = false })
      (b'z' ∷ [])
      (file_temp (b'z' ∷ []) (b'1' ∷ []))
      disk
      (save (b'1' ∷ []) (record two_items { is_modify = false }) disk)
save-Ending_example = save-Ending (b'1' ∷ []) (record two_items { is_modify = false }) disk

reopen-close_example :
    reopen true two_items disk ≡ ok (record (new_zip []) { is_open = true; is_read = true })
reopen-close_example = reopen-close true two_items disk refl refl refl

readable_a : compressed_read true item_a none ≡ ok (1 ∷ 2 ∷ 3 ∷ [])
unfolding compressed_read block
readable_a = refl

a-Settable : Settable (method_get item_a.info) item_a.info
unfolding method_get
a-Settable = ((λ h. absurd cc), (λ h. absurd cc), (λ h. refl))

a-InRange : InRange (attributes_of item_a) (b'c' ∷ [])
a-InRange = ground arith

insert-appends_example :
    (e : Entry) × (insert true item_a none (b'c' ∷ []) two_items
      ≡ ok (record two_items { entries = two_items.entries ++ e ∷ []; is_modify = true }))
    × Copies item_a e (b'c' ∷ []) (1 ∷ 2 ∷ 3 ∷ [])
    × IsKept e
    × (method_get e.info ≡ stored_method (method_get item_a.info))
insert-appends_example =
    insert-appends true item_a none (b'c' ∷ []) (1 ∷ 2 ∷ 3 ∷ []) two_items refl readable_a refl
      a-Settable a-InRange
