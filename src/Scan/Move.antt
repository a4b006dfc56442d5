-- ===== src/Scan/Move.antt =====
-- scan.cc: rom_move and sample_move, which empty an archive into another, and unknown_scan.
pub mod Safety
pub mod Order
pub mod Modified
pub mod Whole
use advancescan.Base.{Bool, Bytes, List, Result, [], false, none, ok, some, ◌>>=◌, ◌∷◌}
use advancescan.Operation.{Operation, active_move}
use advancescan.Rom.{Rom, insert_rom}
use advancescan.Scan.Fix.{remove_all_to}
use advancescan.Scan.Store.{after, save_unload, within}
use advancescan.Zip.Archive.{System}
use advancescan.Zip.Entry.{Entry}
use advancescan.Ziparchive.{Ziparchive, find_type}
use advancescan.Ziprom.{Ziprom, open_ziprom, remove_name, zip_own}

-- the set of all the roms of an archive
unfoldable pub all_roms : List Entry → List Rom → List Rom
all_roms [] rs = rs
all_roms (i ∷ es) rs = all_roms es (
    insert_rom
      (record {
        name = i.file_name;
        size = i.info.uncompressed_size;
        crc = i.info.crc32;
        nodump = false;
      })
      rs)

-- The end of rom_move: first the reject archive is saved, and only then the data is deleted.
unfoldable pub rom_move_end :
    Bool → Bytes → Bytes → Ziprom → Ziprom → System → Result (Ziprom × Ziprom) × System
rom_move_end pedantic stamp stamp' z reject s =
    after (save_unload pedantic stamp reject s)
      (λ q1 s1. after (save_unload pedantic stamp' z s1) (λ z1 s2. (ok (z1, q1), s2)))

-- rom_move and sample_move
unfoldable pub rom_move :
    Operation
    → Bool
    → Bool
    → Bytes
    → Bytes
    → Ziprom
    → Ziprom
    → System
    → Result (Ziprom × Ziprom) × System
rom_move o pedantic can_write stamp stamp' z reject s =
    after (within s (open_ziprom pedantic can_write reject s)) (λ q s.
      after (within s (remove_all_to (active_move o) pedantic s (all_roms z.zip.entries []) z q))
        (λ p s. rom_move_end pedantic stamp stamp' (p.0) (p.1) s))

-- the loop of unknown_scan: what the own set has is removed
unfoldable pub remove_known : Bool → System → Ziparchive → List Rom → Ziprom → Result Ziprom
remove_known pedantic s zar [] z = ok z
remove_known pedantic s zar (i ∷ rs) z =
    elim (find_type zip_own (record { crc = i.crc; size = i.size }) zar) [
      | none ↦ ok z
      | some _ ↦ remove_name pedantic s i.name z
    ]
    >>= λ z1. remove_known pedantic s zar rs z1

-- unknown_scan
unfoldable pub unknown_scan : Bool → Bytes → Ziparchive → Ziprom → System → Result Ziprom × System
unknown_scan pedantic stamp zar z s =
    after (within s (remove_known pedantic s zar (all_roms z.zip.entries []) z))
      (λ z1 s. save_unload pedantic stamp z1 s)
