-- ===== src/Rom.antt =====
-- rom.cc and rom.h: class rom, its comparisons, and the sets of roms. A std::set is the list of
-- its elements, none of which the set's order takes for the same as another; the order itself
-- is not modelled.
pub mod Sets
use advancescan.Base.{
  Bool, Bytes, List, Option, [], false, if◌then◌else◌, ltb, none, not, some, true, ℕ, ◌&&◌, ◌++◌,
  ◌==◌, ◌∷◌,
}
use advancescan.File.{same_name}

pub record Rom : Type 0 where
  pub name : Bytes
  pub size : ℕ
  pub crc : ℕ
  pub nodump : Bool

-- rom::rom()
abbrev pub new_rom : Rom
new_rom = record { name = []; size = 0; crc = 0; nodump = false }

-- rom::operator==
abbrev pub same_rom : Rom → Rom → Bool
same_rom a b = same_name a.name b.name && a.size == b.size && a.crc == b.crc

-- rom_by_crc_less
abbrev pub rom_by_crc_less : Rom → Rom → Bool
rom_by_crc_less a b =
    if ltb a.crc b.crc
    then true
    else if ltb b.crc a.crc
    then false
    else if ltb a.size b.size
    then true
    else false

-- rom_by_name_set::find of a name
unfoldable pub find_rom : Bytes → List Rom → Option Rom
find_rom name [] = none
find_rom name (r ∷ rs) =
    let rest = find_rom name rs in if same_name r.name name then some r else rest

-- rom_by_name_set::erase of the element that find finds
unfoldable pub erase_rom : Bytes → List Rom → List Rom
erase_rom name [] = []
erase_rom name (r ∷ rs) =
    let rest = erase_rom name rs in if same_name r.name name then rs else r ∷ rest

-- rom_by_name_set::insert
unfoldable pub insert_rom : Rom → List Rom → List Rom
insert_rom r rs = elim (find_rom r.name rs) [ some _ ↦ rs | none ↦ rs ++ r ∷ [] ]

-- rom_by_crc_set::find: neither is less than the other
unfoldable pub has_crc : Rom → List Rom → Bool
has_crc r [] = false
has_crc r (x ∷ rs) =
    let rest = has_crc r rs in
    if not (rom_by_crc_less r x) && not (rom_by_crc_less x r) then true else rest
