-- ===== src/Scan/Fix.antt =====
-- scan.cc: rom_scan, which repairs the archive of a game. What it prints is left out.
pub mod Order
pub mod Clean
pub mod DryRun
use advancescan.Base.{
  Bool, Bytes, List, Option, Result, [], false, if◌then◌else◌, length, not, ok, true, ℕ, ◌&&◌, ◌++◌,
  ◌==◌, ◌>>=◌, ◌∷◌,
}
use advancescan.Analyze.{AnalyzeEntry}
use advancescan.Game.{Game}
use advancescan.Operation.{
  Operation, active_remove_binary, active_remove_garbage, active_remove_text,
}
use advancescan.Rom.{Rom, insert_rom}
use advancescan.Scan.{RomBad, new_rom_stat, stat_rom_zip}
use advancescan.Scan.Add.{Bench, rom_scan_add}
use advancescan.Scan.Store.{after, file_size, save_unload, within}
use advancescan.Zip.Archive.{System, is_empty}
use advancescan.Ziparchive.{Ziparchive}
use advancescan.Ziprom.{Ziprom, open_ziprom, remove_name, remove_to}

-- the loop over the missing roms: those that are still missing, and the good ones
unfoldable pub fix_missing :
    Operation
    → Bool
    → System
    → Option ℕ
    → Ziparchive
    → List Rom
    → List Rom × List Rom
    → Bench
    → Result ((List Rom × List Rom) × Bench)
fix_missing o pedantic s place zar [] acc b = ok (acc, b)
fix_missing o pedantic s place zar (i ∷ rs) (missing, good) b =
    rom_scan_add o pedantic s i.name i.size i.crc place zar b >>= λ p.
    fix_missing o pedantic s place zar rs
      (if p.0 then (missing, insert_rom i good) else (insert_rom i missing, good)) (p.1)

-- the loop over the wrong roms
unfoldable pub fix_bad :
    Operation
    → Bool
    → System
    → Option ℕ
    → Ziparchive
    → List RomBad
    → List RomBad × List Rom
    → Bench
    → Result ((List RomBad × List Rom) × Bench)
fix_bad o pedantic s place zar [] acc b = ok (acc, b)
fix_bad o pedantic s place zar (i ∷ rs) (bad, good) b =
    rom_scan_add o pedantic s i.rom.name i.rom.size i.rom.crc place zar b >>= λ p.
    fix_bad o pedantic s place zar rs
      (if p.0 then (bad, insert_rom i.rom good) else (bad ++ i ∷ [], good)) (p.1)

-- the loops that remove the unknown files to the reject archive, where they may
unfoldable pub remove_all_to :
    Bool → Bool → System → List Rom → Ziprom → Ziprom → Result (Ziprom × Ziprom)
remove_all_to active pedantic s [] z reject = ok (z, reject)
remove_all_to active pedantic s (i ∷ rs) z reject =
    (if active && not z.readonly then remove_to pedantic s i.name z reject else ok (z, reject))
    >>= λ p. remove_all_to active pedantic s rs (p.0) (p.1)

-- the loop that removes the garbage
unfoldable pub remove_all : Bool → Bool → System → List Rom → Ziprom → Result Ziprom
remove_all active pedantic s [] z = ok z
remove_all active pedantic s (i ∷ rs) z =
    (if active && not z.readonly then remove_name pedantic s i.name z else ok z) >>= λ z1.
    remove_all active pedantic s rs z1

-- rom_scan between reject.open() and the saves: the archives, and whether nothing is missing or
-- wrong
unfoldable pub repair :
    Operation
    → Bool
    → System
    → List AnalyzeEntry
    → Option ℕ
    → Ziparchive
    → Game
    → Ziprom
    → Ziprom
    → Result (Bool × Ziprom × Ziprom)
repair o pedantic s garbage place zar g z reject =
    let st = stat_rom_zip garbage z.zip.entries g.rs new_rom_stat in
    fix_missing o pedantic s place zar st.rom_miss ([], st.rom_equal)
      (record { z = z; reject = reject; rremove = st.unk_binary })
    >>= λ m. fix_bad o pedantic s place zar st.rom_bad ([], m.0.1) (m.1) >>= λ w.
        remove_all_to (active_remove_binary o) pedantic s w.1.rremove w.1.z w.1.reject >>= λ x.
        remove_all_to (active_remove_text o) pedantic s st.unk_text (x.0) (x.1) >>= λ y.
        remove_all (active_remove_garbage o) pedantic s st.unk_garbage (y.0) >>= λ v.
        ok (length m.0.0 == 0 && length w.0.0 == 0, v, y.1)

-- the game with the archive in its list, if the archive is not empty
unfoldable pub rzs_report : Bool → Ziprom → Game → System → Result Game
rzs_report good z g s = elim (is_empty z.zip) [
  | true ↦ ok g
  | false ↦ file_size z.zip.path s >>= λ size. ok (record g {
    rzs =
        g.rzs ++ record { file = z.zip.path; good = good; size = size; readonly = z.readonly } ∷ [];
  })
]

-- the end of rom_scan: first the archive is saved, then the reject archive
unfoldable pub rom_scan_end :
    Bool
    → Bytes
    → Bytes
    → Bool
    → Game
    → Ziprom
    → Ziprom
    → System
    → Result (Ziprom × Ziprom × Game) × System
rom_scan_end pedantic stamp stamp' good g z reject s =
    after (save_unload pedantic stamp z s) (λ z1 s1.
      after (within s1 (rzs_report good z1 g s1))
        (λ g1 s1. after (save_unload pedantic stamp' reject s1) (λ q1 s2. (ok (z1, q1, g1), s2))))

-- rom_scan
unfoldable pub rom_scan :
    Operation
    → Bool
    → Bool
    → Bytes
    → Bytes
    → List AnalyzeEntry
    → Option ℕ
    → Ziparchive
    → Game
    → Ziprom
    → Ziprom
    → System
    → Result (Ziprom × Ziprom × Game) × System
rom_scan o pedantic can_write stamp stamp' garbage place zar g z reject s =
    after (within s (open_ziprom pedantic can_write reject s)) (λ q s.
      after (within s (repair o pedantic s garbage place zar g z q))
        (λ w s. rom_scan_end pedantic stamp stamp' (w.0) g (w.1) (w.2) s))
