-- ===== src/Scan/Partition.antt =====
-- scan.cc: stat_rom_zip, and how many roms of its lists pass a test.
use advancescan.Base.{
  Bool, Bytes, List, Option, [], arith, false, if◌then◌else◌, none, refl, some, true, ℕ, ◌++◌, ◌+◌,
  ◌∙◌, ◌∷◌, ◌≡◌,
}
use advancescan.Analyze.{
  AnalyzeEntry, AnalyzeType, analyze, analyze_binary, analyze_garbage, analyze_text,
}
use advancescan.Rom.{Rom, erase_rom, find_rom, insert_rom}
use advancescan.Rom.Sets.{
  Apart, Apart-erase_rom, Apart-found, Apart-insert_rom, Apart-nil, Apart-one, IsRomSet,
  IsRomSet-erase_rom, LacksRom-found, count_roms, count_roms-erase_rom, count_roms-insert_rom,
}
use advancescan.Scan.{
  RomBad, RomStat, is_good, new_rom_stat, rom_bad_of, stat_branch, stat_entries, stat_entry,
  stat_known, stat_miss, stat_missing, stat_rom_zip, stat_unknown,
}
use advancescan.Zip.Entry.{Entry}

-- the same for a list of wrong roms
abbrev pub count_bad : (Rom → Bool) → List RomBad → ℕ
count_bad p [] = 0
count_bad p (b ∷ bs) = (if p b.rom then 1 else 0) + count_bad p bs

-- how many roms in the statistics' lists of known roms pass a test
abbrev pub count_known : (Rom → Bool) → RomStat → ℕ
count_known p s =
    count_roms p s.rom_equal
    + count_bad p s.rom_bad
    + count_roms p s.nodump_equal
    + count_bad p s.nodump_bad
    + count_roms p s.rom_miss
    + count_roms p s.nodump_miss

count_bad_append :
    (p : Rom → Bool) (bs : List RomBad) (b : RomBad)
    → count_bad p (bs ++ b ∷ []) ≡ (if p b.rom then 1 else 0) + count_bad p bs
count_bad_append p [] b = refl
count_bad_append p (x ∷ bs) b = omega (arith, count_bad_append p bs b)

-- The bag is a set, and apart from the sets of the statistics that roms are put into.
record Inv (b : List Rom) (s : RomStat) : Type 0 where
  bag : IsRomSet b
  equal : Apart b s.rom_equal
  nodump : Apart b s.nodump_equal
  miss : Apart b s.rom_miss
  nodump_none : Apart b s.nodump_miss

-- what one round does to the counts and to the invariant
abbrev Round : (Rom → Bool) → List Rom → RomStat → List Rom × RomStat → Type 0
Round p b s bs =
    Inv (bs.0) (bs.1)
    × (count_known p (bs.1) + count_roms p (bs.0) ≡ count_known p s + count_roms p b)

stat_unknown-Round :
    (p : Rom → Bool) (b : List Rom) (s : RomStat) (t : AnalyzeType) (r : Rom)
    → Inv b s
    → Round p b s (b, stat_unknown t r s)
unfolding stat_unknown
stat_unknown-Round p b s analyze_text r v = (
  record {
    bag = v.bag;
    equal = v.equal;
    nodump = v.nodump;
    miss = v.miss;
    nodump_none = v.nodump_none;
  },
  refl,
)
stat_unknown-Round p b s analyze_binary r v = (
  record {
    bag = v.bag;
    equal = v.equal;
    nodump = v.nodump;
    miss = v.miss;
    nodump_none = v.nodump_none;
  },
  refl,
)
stat_unknown-Round p b s analyze_garbage r v = (
  record {
    bag = v.bag;
    equal = v.equal;
    nodump = v.nodump;
    miss = v.miss;
    nodump_none = v.nodump_none;
  },
  refl,
)

module _ (p : Rom → Bool) (name : Bytes) (b : List Rom) (s : RomStat) (i : Rom)
    (here : find_rom name b ≡ some i) (v : Inv b s) where
  left : IsRomSet (erase_rom name b)
  left = IsRomSet-erase_rom name b v.bag

  one : Apart (erase_rom name b) (i ∷ [])
  one = Apart-found name b i here v.bag

  stays : (t : List Rom) → Apart b t → Apart (erase_rom name b) t
  stays t a = Apart-erase_rom name b t a

  joins : (t : List Rom) → Apart b t → Apart (erase_rom name b) (insert_rom i t)
  joins t a =
      Apart-insert_rom (erase_rom name b) t i (LacksRom-found name b t i here a) (stays t a) one

  counts :
      (t : List Rom)
      → Apart b t
      → count_roms p (insert_rom i t) ≡ (if p i then 1 else 0) + count_roms p t
  counts t a = count_roms-insert_rom p i t (LacksRom-found name b t i here a)

  stat_branch-Round :
      (nodump good : Bool) (z : Entry)
      → Round p b s (erase_rom name b, stat_branch nodump good z i s)
  unfolding stat_branch
  stat_branch-Round true true z = (
    record {
      bag = left;
      equal = stays s.rom_equal v.equal;
      nodump = joins s.nodump_equal v.nodump;
      miss = stays s.rom_miss v.miss;
      nodump_none = stays s.nodump_miss v.nodump_none;
    },
    omega (arith, count_roms-erase_rom p name b i here, counts s.nodump_equal v.nodump),
  )
  stat_branch-Round true false z = (
    record {
      bag = left;
      equal = stays s.rom_equal v.equal;
      nodump = stays s.nodump_equal v.nodump;
      miss = stays s.rom_miss v.miss;
      nodump_none = stays s.nodump_miss v.nodump_none;
    },
    omega (
      arith,
      count_roms-erase_rom p name b i here,
      count_bad_append p s.nodump_bad (rom_bad_of z i),
    ),
  )
  stat_branch-Round false true z = (
    record {
      bag = left;
      equal = joins s.rom_equal v.equal;
      nodump = stays s.nodump_equal v.nodump;
      miss = stays s.rom_miss v.miss;
      nodump_none = stays s.nodump_miss v.nodump_none;
    },
    omega (arith, count_roms-erase_rom p name b i here, counts s.rom_equal v.equal),
  )
  stat_branch-Round false false z = (
    record {
      bag = left;
      equal = stays s.rom_equal v.equal;
      nodump = stays s.nodump_equal v.nodump;
      miss = stays s.rom_miss v.miss;
      nodump_none = stays s.nodump_miss v.nodump_none;
    },
    omega (
      arith,
      count_roms-erase_rom p name b i here,
      count_bad_append p s.rom_bad (rom_bad_of z i),
    ),
  )

stat_entry-Round :
    (p : Rom → Bool) (garbage : List AnalyzeEntry) (z : Entry) (b : List Rom) (s : RomStat)
    (o : Option Rom)
    → find_rom z.file_name b ≡ o
    → Inv b s
    → Round p b s (stat_entry garbage z o (b, s))
unfolding stat_entry stat_known
stat_entry-Round p garbage z b s none h v =
    stat_unknown-Round p b s (analyze garbage z.file_name z.info.uncompressed_size z.info.crc32)
      (record {
        name = z.file_name;
        size = z.info.uncompressed_size;
        crc = z.info.crc32;
        nodump = false;
      })
      v
stat_entry-Round p garbage z b s (some i) h v =
    stat_branch-Round p z.file_name b s i h v i.nodump (is_good z i) z

stat_entries-Round :
    (p : Rom → Bool) (garbage : List AnalyzeEntry) (zs : List Entry) (b : List Rom) (s : RomStat)
    → Inv b s
    → Round p b s (stat_entries garbage zs (b, s))
unfolding stat_entries
stat_entries-Round p garbage [] b s v = (v, refl)
stat_entries-Round p garbage (z ∷ zs) b s v =
    let next = stat_entry garbage z (find_rom z.file_name b) (b, s) in
    let (v1, e1) = stat_entry-Round p garbage z b s (find_rom z.file_name b) refl v in
    let (v2, e2) = stat_entries-Round p garbage zs (next.0) (next.1) v1 in (v2, e2 ∙ e1)

-- the first of a set, apart from the rest
stat_miss-Round :
    (p : Rom → Bool) (nodump : Bool) (i : Rom) (b : List Rom) (s : RomStat)
    → Inv (i ∷ b) s
    → Round p (i ∷ b) s (b, stat_miss nodump i s)
unfolding stat_miss
stat_miss-Round p true i b s v = (
  record {
    bag = v.bag.1;
    equal = v.equal.1;
    nodump = v.nodump.1;
    miss = v.miss.1;
    nodump_none =
        Apart-insert_rom b s.nodump_miss i (v.nodump_none.0) (v.nodump_none.1)
          (Apart-one i b (v.bag.0));
  },
  omega (arith, count_roms-insert_rom p i s.nodump_miss (v.nodump_none.0)),
)
stat_miss-Round p false i b s v = (
  record {
    bag = v.bag.1;
    equal = v.equal.1;
    nodump = v.nodump.1;
    miss = Apart-insert_rom b s.rom_miss i (v.miss.0) (v.miss.1) (Apart-one i b (v.bag.0));
    nodump_none = v.nodump_none.1;
  },
  omega (arith, count_roms-insert_rom p i s.rom_miss (v.miss.0)),
)

count_known-stat_missing :
    (p : Rom → Bool) (b : List Rom) (s : RomStat)
    → Inv b s
    → count_known p (stat_missing b s) ≡ count_known p s + count_roms p b
unfolding stat_missing
count_known-stat_missing p [] s v = omega arith
count_known-stat_missing p (i ∷ b) s v =
    let (v1, e1) = stat_miss-Round p i.nodump i b s v in
    count_known-stat_missing p b (stat_miss i.nodump i s) v1 ∙ e1

-- Where the roms of the game are a set by name, stat_rom_zip puts each of them into exactly one
-- of its six lists of known roms, whatever the archive holds and whatever is garbage: for every
-- test, as many roms of those lists pass it as roms of the game.
pub count_known-stat_rom_zip :
    (p : Rom → Bool) (garbage : List AnalyzeEntry) (zd : List Entry) (roms : List Rom)
    → IsRomSet roms
    → count_known p (stat_rom_zip garbage zd roms new_rom_stat) ≡ count_roms p roms
unfolding stat_rom_zip
count_known-stat_rom_zip p garbage zd roms d =
    let none_yet = Apart-nil roms in
    let v : Inv roms new_rom_stat = record {
      bag = d;
      equal = none_yet;
      nodump = none_yet;
      miss = none_yet;
      nodump_none = none_yet;
    } in
    let bs = stat_entries garbage zd (roms, new_rom_stat) in
    let (v1, e1) = stat_entries-Round p garbage zd roms new_rom_stat v in
    omega (arith, count_known-stat_missing p (bs.0) (bs.1) v1, e1)
