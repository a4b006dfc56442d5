-- ===== src/Scan/Add.antt =====
-- scan.cc: rom_scan_add, which looks for a rom in four places. `found` is false where it is
-- called, and what it prints is left out. The archive's place in the list of archives, if it has
-- one, stands for its address.
use advancescan.Base.{
  Bool, Bytes, List, Option, Result, [], err, failed, false, if◌then◌else◌, none, not, ok, overrun,
  some, true, ℕ, ◌&&◌, ◌+◌, ◌==◌, ◌>>=◌, ◌∷◌,
}
use advancescan.Operation.{Operation, active_fix, output_fix}
use advancescan.Rom.{Rom, erase_rom}
use advancescan.Zip.Archive.{System, bytes_eq, insert}
use advancescan.Zip.Archive.Load.{get_elem?}
use advancescan.Zip.Entry.{Entry}
use advancescan.Ziparchive.{Ziparchive, find_exclude}
use advancescan.Ziprom.{
  Ziprom, add_entry_to, add_found_to, find_name, load_ziprom, move, rename_to, source_of, swap,
  takes,
}

-- the archives that rom_scan_add works on, and the bag of what will be removed
pub record Bench : Type 0 where
  pub z : Ziprom
  pub reject : Ziprom
  pub rremove : List Rom

-- oper.active_fix() && !z.is_readonly()
abbrev pub may_fix : Operation → Ziprom → Bool
may_fix o z = active_fix o && not z.readonly

-- the first rom of this checksum and size
unfoldable pub find_crc : ℕ → ℕ → List Rom → Option Rom
find_crc size crc [] = none
find_crc size crc (j ∷ rs) =
    let rest = find_crc size crc rs in if crc == j.crc && size == j.size then some j else rest

-- the place of the first entry of this checksum and size, and the entry
unfoldable pub find_place : ℕ → ℕ → ℕ → List Entry → Option (ℕ × Entry)
find_place i size crc [] = none
find_place i size crc (j ∷ es) =
    let rest = find_place (i + 1) size crc es in
    if crc == j.info.crc32 && size == j.info.uncompressed_size then some (i, j) else rest

-- what is done if it may be, with the answer whether it was
abbrev pub if_may : Bool → Bench → Result (Ziprom × Ziprom) → Result (Bool × Bench)
if_may true b m = m >>= λ p. ok (true, record b { z = p.0; reject = p.1 })
if_may false b m = ok (false, b)

-- In the bag: the rom is renamed. Where the name is printed also, it is read behind the erase.
unfoldable pub fix_from_bag :
    Operation → Bool → System → Bytes → Rom → Bench → Result (Bool × Bench)
fix_from_bag o pedantic s name j b =
    if_may (may_fix o b.z)
      (record b { rremove = if may_fix o b.z then erase_rom j.name b.rremove else b.rremove })
      (rename_to pedantic s j.name name b.z b.reject >>= λ p.
        if output_fix o then err overrun else ok p)

-- z.add(j, name, reject), where j stands at a place of z
unfoldable pub add_place : Bool → System → ℕ → Bytes → Ziprom → Ziprom → Result (Ziprom × Ziprom)
add_place pedantic s i name z reject = do
  z1 ← load_ziprom pedantic s z
  elim (get_elem? z1.zip.entries i) [
    | none ↦ err overrun
    | some e ↦ add_found_to pedantic s (some (i, e)) name z1 reject
  ]

-- In the archive itself.
unfoldable pub fix_from_own :
    Operation → Bool → System → Bytes → ℕ → Entry → Bench → Result (Bool × Bench)
fix_from_own o pedantic s name i j b =
    if bytes_eq name j.file_name
    then err failed
    else if_may (may_fix o b.z) b (add_place pedantic s i name b.z b.reject)

-- z.add(j, name, reject), where j stands at a place of reject: if z has the name, its entry goes
-- to reject first, and takes the place of an entry of that name there.
unfoldable pub add_rejected :
    Bool
    → System
    → Option (ℕ × Entry)
    → ℕ
    → Entry
    → Bytes
    → Ziprom
    → Ziprom
    → Result (Ziprom × Ziprom)
add_rejected pedantic s none k e name z reject = do
  y ← insert pedantic e (source_of s e) name z.zip
  ok (record z { zip = y }, reject)
add_rejected pedantic s (some _) k e name z reject = do
  reject1 ← load_ziprom pedantic s reject
  elim (get_elem? reject1.zip.entries k) [
    | none ↦ err overrun
    | some e1 ↦
        if takes k (find_name name reject1)
        then err overrun
        else (move pedantic s name name z reject1 >>= λ p.
            insert pedantic e1 (source_of s e1) name p.0.zip >>= λ y.
            ok (record (p.0) { zip = y }, p.1))
  ]

-- In the reject archive.
unfoldable pub fix_from_reject :
    Operation → Bool → System → Bytes → ℕ → Entry → Bench → Result (Bool × Bench)
fix_from_reject o pedantic s name k j b = if_may (may_fix o b.z) b (
    if bytes_eq name j.file_name
    then swap pedantic s name k b.z b.reject
    else (load_ziprom pedantic s b.z >>= λ z1.
        add_rejected pedantic s (find_name name z1) k j name z1 b.reject))

-- In another archive.
unfoldable pub fix_from_other :
    Operation → Bool → System → Bytes → Entry → Bench → Result (Bool × Bench)
fix_from_other o pedantic s name k b =
    if_may (may_fix o b.z) b (add_entry_to pedantic s k name b.z b.reject)

-- what the four searches find; the first that finds something is used
pub data Source : Type 0 where
  bag_rom : Rom → Source
  own_entry : ℕ → Entry → Source
  rejected_entry : ℕ → Entry → Source
  other_entry : Entry → Source
  found_nowhere : Source

abbrev pub in_other : Option (Ziprom × Entry) → Source
in_other none = found_nowhere
in_other (some (_, k)) = other_entry k

abbrev pub in_reject : Option (ℕ × Entry) → Source → Source
in_reject none rest = rest
in_reject (some (k, j)) rest = rejected_entry k j

abbrev pub in_own : Option (ℕ × Entry) → Source → Source
in_own none rest = rest
in_own (some (i, j)) rest = own_entry i j

abbrev pub in_bag : Option Rom → Source → Source
in_bag none rest = rest
in_bag (some j) rest = bag_rom j

abbrev pub source_for : ℕ → ℕ → Option ℕ → Ziparchive → Bench → Source
source_for size crc place zar b = in_bag (find_crc size crc b.rremove) (
    in_own (find_place 0 size crc b.z.zip.entries) (
      in_reject (find_place 0 size crc b.reject.zip.entries)
        (in_other (find_exclude place (record { crc = crc; size = size }) zar))))

unfoldable pub fix_from : Operation → Bool → System → Bytes → Source → Bench → Result (Bool × Bench)
fix_from o pedantic s name (bag_rom j) b = fix_from_bag o pedantic s name j b
fix_from o pedantic s name (own_entry i j) b = fix_from_own o pedantic s name i j b
fix_from o pedantic s name (rejected_entry k j) b = fix_from_reject o pedantic s name k j b
fix_from o pedantic s name (other_entry k) b = fix_from_other o pedantic s name k b
fix_from o pedantic s name found_nowhere b = ok (false, b)

-- rom_scan_add, of a rom of this name, size and checksum: whether it was added
unfoldable pub rom_scan_add :
    Operation
    → Bool
    → System
    → Bytes
    → ℕ
    → ℕ
    → Option ℕ
    → Ziparchive
    → Bench
    → Result (Bool × Bench)
rom_scan_add o pedantic s name size crc place zar b =
    fix_from o pedantic s name (source_for size crc place zar b) b
