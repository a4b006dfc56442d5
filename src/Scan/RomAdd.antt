-- ===== src/Scan/RomAdd.antt =====
-- scan.cc: rom_add, which makes the archive of a game that has none. What it prints is left out.
-- The archive's place in the list of archives, if it has one, stands for its address.
use advancescan.Base.{
  Bool, Bytes, List, Option, Result, [], false, if◌then◌else◌, length, ltb, none, not, ok, some,
  true, ℕ, ◌&&◌, ◌+◌, ◌==◌, ◌>>=◌, ◌||◌, ◌∷◌,
}
use advancescan.Game.{Game}
use advancescan.Operation.{Operation, active_add}
use advancescan.Rom.{Rom, insert_rom, rom_by_crc_less}
use advancescan.Scan.Fix.{rzs_report}
use advancescan.Scan.Store.{after, save_unload, within}
use advancescan.Zip.Archive.{System}
use advancescan.Zip.Entry.{Entry}
use advancescan.Ziparchive.{Ziparchive, find_exclude}
use advancescan.Ziprom.{Ziprom, add_entry}

-- how many roms of the multiset have this checksum and size
unfoldable pub crc_range : Rom → List Rom → ℕ
crc_range r [] = 0
crc_range r (x ∷ rs) =
    let rest = crc_range r rs in
    if not (rom_by_crc_less r x) && not (rom_by_crc_less x r) then 1 + rest else rest

-- The first loop: the roms that no other game has, and the shared ones. One element of the range is
-- the rom itself.
unfoldable pub split_shared : List Rom → List Rom → List Rom × List Rom → List Rom × List Rom
split_shared rcb [] acc = acc
split_shared rcb (i ∷ rs) (miss_unique, miss_shared) = split_shared rcb rs (
    if ltb 1 (crc_range i rcb)
    then (miss_unique, insert_rom i miss_shared)
    else (insert_rom i miss_unique, miss_shared))

-- what one round finds in the other archives, and adds where it may
unfoldable pub add_missing :
    Bool → Bool → System → Rom → Option (Ziprom × Entry) → Ziprom → Result (Bool × Ziprom)
add_missing active pedantic s i none z = ok (false, z)
add_missing active pedantic s i (some (_, k)) z =
    if active && not z.readonly
    then (add_entry pedantic s k i.name z >>= λ z1. ok (true, z1))
    else ok (false, z)

-- the loops over the missing roms: those that are still missing, and the good ones
unfoldable pub add_all :
    Bool
    → Bool
    → System
    → Option ℕ
    → Ziparchive
    → List Rom
    → List Rom × List Rom
    → Ziprom
    → Result ((List Rom × List Rom) × Ziprom)
add_all active pedantic s place zar [] acc z = ok (acc, z)
add_all active pedantic s place zar (i ∷ rs) (missing, good) z = elim i.nodump [
  | true ↦ add_all active pedantic s place zar rs (missing, good) z
  | false ↦
      add_missing active pedantic s i
        (find_exclude place (record { crc = i.crc; size = i.size }) zar) z
      >>= λ p.
          add_all active pedantic s place zar rs
            (if p.0 then (missing, insert_rom i good) else (insert_rom i missing, good)) (p.1)
]

-- the second loop is left out, if there are unique roms and none of them was found
unfoldable pub add_shared :
    Bool
    → Bool
    → System
    → Option ℕ
    → Ziparchive
    → List Rom
    → List Rom
    → List Rom
    → Ziprom
    → Result ((List Rom × List Rom) × Ziprom)
add_shared active pedantic s place zar miss_unique miss_shared good z =
    if length miss_unique == 0 || not (length good == 0)
    then add_all active pedantic s place zar miss_shared ([], good) z
    else ok ((miss_shared, good), z)

-- both loops: whether no rom is missing, whether one was added, and the archive
unfoldable pub add_loops :
    Operation
    → Bool
    → System
    → Option ℕ
    → Ziparchive
    → List Rom
    → Game
    → Ziprom
    → Result (Bool × Bool × Ziprom)
add_loops o pedantic s place zar rcb g z =
    let (unique, shared) = split_shared rcb g.rs ([], []) in
    add_all (active_add o) pedantic s place zar unique ([], []) z >>= λ u.
    add_shared (active_add o) pedantic s place zar (u.0.0) shared (u.0.1) (u.1) >>= λ w.
    ok (length u.0.0 == 0 && length w.0.0 == 0, not (length w.0.1 == 0), w.1)

-- rom_add
unfoldable pub rom_add :
    Operation
    → Bool
    → Bytes
    → Option ℕ
    → Ziparchive
    → List Rom
    → Game
    → Ziprom
    → System
    → Result (Ziprom × Game) × System
rom_add o pedantic stamp place zar rcb g z s =
    after (within s (add_loops o pedantic s place zar rcb g z)) (λ w s. elim (w.1) [
      | false ↦ (ok (w.2, g), s)
      | true ↦
          after (save_unload pedantic stamp (w.2) s)
            (λ z1 s1. after (within s1 (rzs_report (w.0) z1 g s1)) (λ g1 s1. (ok (z1, g1), s1)))
    ])
