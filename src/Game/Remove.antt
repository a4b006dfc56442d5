-- ===== src/Game/Remove.antt =====
-- game.cc: which roms rs_remove_crc and rs_remove_name leave.
use advancescan.Base.{
  Bool, Bool-cases, List, [], append-nil, append_assoc, arith, false, if◌then◌else◌, inl, inr, not,
  refl, some, sym, true, ◌&&◌, ◌++◌, ◌↔◌, ◌∙◌, ◌∷◌, ◌≡◌,
}
use advancescan.File.{same_name}
use advancescan.Game.{Game, differs, keep_roms, rs_remove_crc, rs_remove_name}
use advancescan.Rom.{Rom, find_rom, has_crc, insert_rom, rom_by_crc_less}
use advancescan.Rom.Sets.{
  Apart, Apart-insert_rom, Apart-nil, Apart-one, IsRomSet, LacksRom, insert_rom_new,
}
use advancescan.Ziprom.Laws.{same_name_sym, same_name_trans}

-- the roms that pass a test
abbrev pub filter : (Rom → Bool) → List Rom → List Rom
filter keep [] = []
filter keep (r ∷ rs) = let rest = filter keep rs in if keep r then r ∷ rest else rest

keep_roms-filter :
    (keep : Rom → Bool) (built rs : List Rom)
    → IsRomSet rs
    → Apart rs built
    → keep_roms keep built rs ≡ built ++ filter keep rs
unfolding keep_roms
keep_roms-filter keep built [] d a = sym (append-nil built)
keep_roms-filter keep built (r ∷ rs) d a = elim (Bool-cases (keep r)) [
  | inl k ↦
      let new = insert_rom_new r built (a.0) in
      let apart = Apart-insert_rom rs built r (a.0) (a.1) (Apart-one r rs (d.0)) in
      rw k (
        keep_roms-filter keep (insert_rom r built) rs (d.1) apart
        ∙ rw new (append_assoc built (r ∷ []) (filter keep rs)))
  | inr k ↦ rw k (keep_roms-filter keep built rs (d.1) (a.1))
]

-- a rom of the set that has the size and the checksum of `r`
pub data HasData (r : Rom) : List Rom → Type 0 where
  data_here : {j : Rom} {a : List Rom} → j.crc ≡ r.crc → j.size ≡ r.size → HasData r (j ∷ a)
  data_there : {j : Rom} {a : List Rom} → HasData r a → HasData r (j ∷ a)

-- a rom of the set that has the name, the size and the checksum of `r`
pub data HasNamed (r : Rom) : List Rom → Type 0 where
  named_here :
      {j : Rom} {a : List Rom}
      → same_name j.name r.name ≡ true
      → j.crc ≡ r.crc
      → j.size ≡ r.size
      → HasNamed r (j ∷ a)
  named_there : {j : Rom} {a : List Rom} → HasNamed r a → HasNamed r (j ∷ a)

-- neither of two roms is less than the other just where size and checksum are the same
neither_less :
    (r x : Rom)
    → ((not (rom_by_crc_less r x) && not (rom_by_crc_less x r)) ≡ true)
      ↔ ((x.crc ≡ r.crc) × (x.size ≡ r.size))
neither_less r x = (λ h. (ground arith, ground arith), λ e. ground arith)

has_crc-HasData : (r : Rom) (a : List Rom) → has_crc r a ≡ true → HasData r a
unfolding has_crc
has_crc-HasData r [] h = cc h
has_crc-HasData r (x ∷ a) h =
    elim (Bool-cases (not (rom_by_crc_less r x) && not (rom_by_crc_less x r))) [
      | inl p ↦ let (c, s) = (neither_less r x).0 p in data_here c s
      | inr p ↦ data_there (has_crc-HasData r a (rw p at h))
    ]

HasData-has_crc : (r : Rom) (a : List Rom) → HasData r a → has_crc r a ≡ true
unfolding has_crc
HasData-has_crc r [] m = elim m [ ]
HasData-has_crc r (x ∷ a) (data_here c s) = rw ((neither_less r x).1 (c, s)) refl
HasData-has_crc r (x ∷ a) (data_there m) =
    elim (Bool-cases (not (rom_by_crc_less r x) && not (rom_by_crc_less x r))) [
      | inl p ↦ rw p refl
      | inr p ↦ rw p (HasData-has_crc r a m)
    ]

differs-false : (i j : Rom) → (differs i (some j) ≡ false) ↔ ((j.crc ≡ i.crc) × (j.size ≡ i.size))
differs-false i j = (λ h. (ground arith, ground arith), λ e. ground arith)

differs-HasNamed : (r : Rom) (a : List Rom) → differs r (find_rom r.name a) ≡ false → HasNamed r a
unfolding find_rom
differs-HasNamed r [] h = cc h
differs-HasNamed r (x ∷ a) h = elim (Bool-cases (same_name x.name r.name)) [
  | inl p ↦ let (c, s) = (differs-false r x).0 (rw p at h) in named_here p c s
  | inr p ↦ named_there (differs-HasNamed r a (rw p at h))
]

lacks-HasNamed :
    (r x : Rom) (a : List Rom)
    → same_name x.name r.name ≡ true
    → LacksRom x.name a
    → HasNamed r a
    → ⊥
lacks-HasNamed r x [] p l m = elim m [ ]
lacks-HasNamed r x (j ∷ a) p l (named_here q c s) = absurd (
    cc (
      l.0,
      same_name_trans r.name j.name x.name (same_name_sym j.name r.name q)
          (same_name_sym x.name r.name p),
    ))
lacks-HasNamed r x (j ∷ a) p l (named_there m) = lacks-HasNamed r x a p (l.1) m

HasNamed-differs :
    (r : Rom) (a : List Rom) → IsRomSet a → HasNamed r a → differs r (find_rom r.name a) ≡ false
unfolding find_rom
HasNamed-differs r [] d m = elim m [ ]
HasNamed-differs r (x ∷ a) d (named_here p c s) = rw p ((differs-false r x).1 (c, s))
HasNamed-differs r (x ∷ a) d (named_there m) = elim (Bool-cases (same_name x.name r.name)) [
  | inl p ↦ absurd (lacks-HasNamed r x a p (d.0) m)
  | inr p ↦ rw p (HasNamed-differs r a (d.1) m)
]

-- what is left of a list: in order, the elements that do not have the property
pub data Leaves (P : Rom → Type 0) : List Rom → List Rom → Type 0 where
  leaves_none : Leaves P [] []
  leaves_it :
      {r : Rom} {rs left : List Rom} → ¬ P r → Leaves P rs left → Leaves P (r ∷ rs) (r ∷ left)
  takes_it : {r : Rom} {rs left : List Rom} → P r → Leaves P rs left → Leaves P (r ∷ rs) left

filter-Leaves :
    (P : Rom → Type 0) (keep : Rom → Bool)
    → ((r : Rom) → keep r ≡ true → ¬ P r)
    → ((r : Rom) → keep r ≡ false → P r)
    → (rs : List Rom) → Leaves P rs (filter keep rs)
filter-Leaves P keep f g [] = leaves_none
filter-Leaves P keep f g (r ∷ rs) = elim (Bool-cases (keep r)) [
  | inl k ↦ rw k (leaves_it (f r k) (filter-Leaves P keep f g rs))
  | inr k ↦ rw k (takes_it (g r k) (filter-Leaves P keep f g rs))
]

-- Where the roms of the game and those of the other set are sets by name, rs_remove_crc removes
-- from the game just the roms that have the size and the checksum of some rom of the other set,
-- and rs_remove_name just those that have the name, the size and the checksum of one; both leave
-- the others in their order.
pub rs_remove-Leaves :
    (a : List Rom) (g : Game)
    → IsRomSet g.rs
    → IsRomSet a
    → Leaves (λ r. HasData r a) g.rs (rs_remove_crc a g).rs
      × Leaves (λ r. HasNamed r a) g.rs (rs_remove_name a g).rs
unfolding rs_remove_crc rs_remove_name
rs_remove-Leaves a g d e = (
  rw (keep_roms-filter (λ i. not (has_crc i a)) [] g.rs d (Apart-nil g.rs)) (
      filter-Leaves (λ r. HasData r a) (λ i. not (has_crc i a))
        (λ r k m. cc (k, HasData-has_crc r a m)) (λ r k. has_crc-HasData r a (ground (arith, k)))
        g.rs),
  rw (keep_roms-filter (λ i. differs i (find_rom i.name a)) [] g.rs d (Apart-nil g.rs)) (
      filter-Leaves (λ r. HasNamed r a) (λ i. differs i (find_rom i.name a))
        (λ r k m. cc (k, HasNamed-differs r a e m)) (λ r k. differs-HasNamed r a k) g.rs),
)
