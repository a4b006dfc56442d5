-- ===== src/Tests/EntryTests.antt =====
-- Instances of the theorems about the headers of an archive.
use advancescan.Base.{
  Bytes, [], arith, err, invalid, length, ok, overrun, refl, replicate, some, true, ◌%◌, ◌++◌, ◌+◌,
  ◌-◌, ◌∷◌, ◌≡◌, ◌≢◌, ◌⊎◌,
}
use advancescan.Endian.{le_uint16_read, le_uint16_write, le_uint32_read, le_uint32_write}
use advancescan.Endian.Laws.{read-write}
use advancescan.Tests.ZipTests.{item_a, item_a-IsKept, item_b, item_b-IsKept}
use advancescan.Zip.Archive.Directory.{ecd_find_sig, read_entries}
use advancescan.Zip.Archive.Directory.Signature.{Located, ecd_find_sig-Located}
use advancescan.Zip.Entry.{
  Info, deflate0, deflate8, method_get, method_set, new_entry, store, unknown,
}
use advancescan.Zip.Entry.Header.{cent_header, load_cent, save_cent}
use advancescan.Zip.Entry.Header.Bounds.{read_entries_overrun}
use advancescan.Zip.Entry.Header.RoundTrip.{cent_bytes, cent_entry, load_cent-save_cent}
use advancescan.Zip.Entry.Local.{load_local, local_header}
use advancescan.Zip.Entry.Local.RoundTrip.{load_local-local_bytes, local_tail}
use advancescan.Zip.Entry.Methods.{method_get-method_set, stored_method}
use advancescan.Zip.Format.{eo_fixed}
use advancescan.Zip.Stream.{Output}
use advancescan.Zip.Stream.Laws.{push}

abbrev out : Output
out = record { written = 7 ∷ []; room = 1000 }

load_cent-save_cent_example :
    (save_cent item_a out ≡ ok (push out (cent_bytes item_a)))
    × (load_cent (cent_bytes item_a ++ 9 ∷ []) (new_entry (b'z' ∷ []))
        ≡ ok (cent_entry item_a (new_entry (b'z' ∷ [])), length (cent_bytes item_a)))
unfolding cent_header
load_cent-save_cent_example =
    load_cent-save_cent item_a (new_entry (b'z' ∷ [])) out (9 ∷ []) (item_a-IsKept.stored)
      (omega arith)

load_local-local_bytes_example :
    load_local true
      (local_header item_a.info)
      (record { content = 8 ∷ local_tail item_a (1 ∷ 2 ∷ 3 ∷ []) ++ 9 ∷ []; pos = 1 })
      (length (local_tail item_a (1 ∷ 2 ∷ 3 ∷ [])))
      (cent_entry item_a (new_entry (b'z' ∷ [])))
    ≡ ok (
      record (cent_entry item_a (new_entry (b'z' ∷ []))) { compdata = some (1 ∷ 2 ∷ 3 ∷ []) },
      record {
        content = 8 ∷ local_tail item_a (1 ∷ 2 ∷ 3 ∷ []) ++ 9 ∷ [];
        pos = 1 + length (local_tail item_a (1 ∷ 2 ∷ 3 ∷ []));
      },
    )
load_local-local_bytes_example =
    load_local-local_bytes true item_a (new_entry (b'z' ∷ [])) (1 ∷ 2 ∷ 3 ∷ []) (8 ∷ []) (9 ∷ [])
      (item_a-IsKept.stored) refl refl

method_get-method_set_example :
    ((j : Info) × (method_set deflate8 item_a.info ≡ ok j)
      × (method_get j ≡ stored_method deflate8)
      × (j.crc32 ≡ item_a.info.crc32)
      × (j.compressed_size ≡ item_a.info.compressed_size)
      × (j.uncompressed_size ≡ item_a.info.uncompressed_size))
    ⊎ ((method_set deflate8 item_a.info ≡ err invalid)
        × ((deflate8 ≡ unknown)
            ⊎ (deflate8 ≡ deflate0)
            ⊎ ((deflate8 ≡ store) × (item_a.info.uncompressed_size ≢ item_a.info.compressed_size))))
method_get-method_set_example = method_get-method_set deflate8 item_a.info

read_entries_overrun_example :
    read_entries 3 (b'z' ∷ []) (cent_header item_b.info ++ b'b' ∷ []) 0 ≡ err overrun
read_entries_overrun_example =
    read_entries_overrun item_b (b'b' ∷ []) (b'b' ∷ []) 2 (b'z' ∷ []) (item_b-IsKept.stored) refl
      (omega arith)

abbrev ending : Bytes
ending = replicate 3 0 ++ b'P' ∷ b'K' ∷ 5 ∷ 6 ∷ replicate 20 0

ecd_find_sig-Located_example : Located ending (length ending + 1 - eo_fixed) (ecd_find_sig ending)
ecd_find_sig-Located_example = ecd_find_sig-Located ending

read-write_example :
    (le_uint16_read (le_uint16_write 1 70000 (replicate 6 0)) 1 ≡ ok (70000 % 65536))
    × (le_uint32_read (le_uint32_write 1 70000 (replicate 6 0)) 1 ≡ ok (70000 % 4294967296))
read-write_example = read-write 1 70000 (replicate 6 0) (omega arith)
