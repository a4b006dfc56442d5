-- ===== src/Rom/Sets.antt =====
-- rom.h: sets of roms by name, and how many of their roms pass a test.
use mathlib.Core.Path.{subst}
use advancescan.Base.{
  Bool, Bool-cases, Bytes, List, [], arith, false, if◌then◌else◌, inl, inr, none, refl, some, sym,
  true, ℕ, ◌++◌, ◌+◌, ◌∙◌, ◌∷◌, ◌≡◌,
}
use advancescan.File.{same_name}
use advancescan.Rom.{Rom, erase_rom, find_rom, insert_rom}
use advancescan.Ziprom.Laws.{not_true, same_name_sym}

-- how many roms pass a test
abbrev pub count_roms : (Rom → Bool) → List Rom → ℕ
count_roms p [] = 0
count_roms p (r ∷ rs) = (if p r then 1 else 0) + count_roms p rs

-- no rom of the set has this name
abbrev pub LacksRom : Bytes → List Rom → Type 0
LacksRom name [] = Unit
LacksRom name (r ∷ rs) = (same_name r.name name ≡ false) × LacksRom name rs

-- The roms are a set by name.
abbrev pub IsRomSet : List Rom → Type 0
IsRomSet [] = Unit
IsRomSet (r ∷ rs) = LacksRom r.name rs × IsRomSet rs

-- no rom of the second set has the name of one of the first
abbrev pub Apart : List Rom → List Rom → Type 0
Apart [] s = Unit
Apart (r ∷ rs) s = LacksRom r.name s × Apart rs s

LacksRom-find_rom : (name : Bytes) (rs : List Rom) → LacksRom name rs → find_rom name rs ≡ none
unfolding find_rom
LacksRom-find_rom name [] l = refl
LacksRom-find_rom name (r ∷ rs) l = rw (l.0) (LacksRom-find_rom name rs (l.1))

count_append :
    (p : Rom → Bool) (rs : List Rom) (r : Rom)
    → count_roms p (rs ++ r ∷ []) ≡ (if p r then 1 else 0) + count_roms p rs
count_append p [] r = refl
count_append p (x ∷ rs) r = omega (arith, count_append p rs r)

pub insert_rom_new : (r : Rom) (rs : List Rom) → LacksRom r.name rs → insert_rom r rs ≡ rs ++ r ∷ []
unfolding insert_rom
insert_rom_new r rs l = rw (LacksRom-find_rom r.name rs l, insert_rom) refl

pub count_roms-insert_rom :
    (p : Rom → Bool) (r : Rom) (rs : List Rom)
    → LacksRom r.name rs
    → count_roms p (insert_rom r rs) ≡ (if p r then 1 else 0) + count_roms p rs
count_roms-insert_rom p r rs l = rw (insert_rom_new r rs l) (count_append p rs r)

LacksRom-append :
    (name : Bytes) (rs : List Rom) (r : Rom)
    → LacksRom name rs
    → same_name r.name name ≡ false
    → LacksRom name (rs ++ r ∷ [])
LacksRom-append name [] r l h = (h, tt)
LacksRom-append name (x ∷ rs) r l h = (l.0, LacksRom-append name rs r (l.1) h)

find_here :
    (name : Bytes) (r : Rom) (rs : List Rom) (i : Rom)
    → same_name r.name name ≡ true
    → find_rom name (r ∷ rs) ≡ some i
    → r ≡ i
unfolding find_rom
find_here name r rs i e h = get (sym found ∙ h)
  where
    found : find_rom name (r ∷ rs) ≡ some r
    found = rw e refl

    get : some r ≡ some i → r ≡ i
    get g = cc

find_there :
    (name : Bytes) (r : Rom) (rs : List Rom) (i : Rom)
    → same_name r.name name ≡ false
    → find_rom name (r ∷ rs) ≡ some i
    → find_rom name rs ≡ some i
unfolding find_rom
find_there name r rs i e h = sym passed ∙ h
  where
    passed : find_rom name (r ∷ rs) ≡ find_rom name rs
    passed = rw e refl

-- what is found is taken out once
pub count_roms-erase_rom :
    (p : Rom → Bool) (name : Bytes) (rs : List Rom) (i : Rom)
    → find_rom name rs ≡ some i
    → count_roms p rs ≡ (if p i then 1 else 0) + count_roms p (erase_rom name rs)
unfolding find_rom erase_rom
count_roms-erase_rom p name [] i h = absurd cc
count_roms-erase_rom p name (r ∷ rs) i h = elim (Bool-cases (same_name r.name name)) [
  | inl e ↦ let here : r ≡ i = find_here name r rs i e h in rw (e, here) refl
  | inr e ↦
      let rest = count_roms-erase_rom p name rs i (find_there name r rs i e h) in
      rw e (omega (arith, rest))
]

LacksRom-erase_rom :
    (other name : Bytes) (rs : List Rom) → LacksRom other rs → LacksRom other (erase_rom name rs)
unfolding erase_rom
LacksRom-erase_rom other name [] l = tt
LacksRom-erase_rom other name (r ∷ rs) l = elim (Bool-cases (same_name r.name name)) [
  | inl e ↦ rw e (l.1)
  | inr e ↦ rw e (l.0, LacksRom-erase_rom other name rs (l.1))
]

pub IsRomSet-erase_rom : (name : Bytes) (rs : List Rom) → IsRomSet rs → IsRomSet (erase_rom name rs)
unfolding erase_rom
IsRomSet-erase_rom name [] d = tt
IsRomSet-erase_rom name (r ∷ rs) d = elim (Bool-cases (same_name r.name name)) [
  | inl e ↦ rw e (d.1)
  | inr e ↦ rw e (LacksRom-erase_rom r.name name rs (d.0), IsRomSet-erase_rom name rs (d.1))
]

pub Apart-erase_rom : (name : Bytes) (rs s : List Rom) → Apart rs s → Apart (erase_rom name rs) s
unfolding erase_rom
Apart-erase_rom name [] s a = tt
Apart-erase_rom name (r ∷ rs) s a = elim (Bool-cases (same_name r.name name)) [
  | inl e ↦ rw e (a.1)
  | inr e ↦ rw e (a.0, Apart-erase_rom name rs s (a.1))
]

-- the rom that is found has no name of a set apart
pub LacksRom-found :
    (name : Bytes) (rs s : List Rom) (i : Rom)
    → find_rom name rs ≡ some i
    → Apart rs s
    → LacksRom i.name s
unfolding find_rom
LacksRom-found name [] s i h a = absurd cc
LacksRom-found name (r ∷ rs) s i h a = elim (Bool-cases (same_name r.name name)) [
  | inl e ↦
      let here : r ≡ i = find_here name r rs i e h in subst (λ x. LacksRom x.name s) here (a.0)
  | inr e ↦ LacksRom-found name rs s i (find_there name r rs i e h) (a.1)
]

same_name-false : (a b : Bytes) → same_name a b ≡ false → same_name b a ≡ false
same_name-false a b h = not_true (same_name b a) (λ k. cc (h, same_name_sym b a k))

pub Apart-one : (r : Rom) (rs : List Rom) → LacksRom r.name rs → Apart rs (r ∷ [])
Apart-one r [] l = tt
Apart-one r (x ∷ rs) l = ((same_name-false x.name r.name (l.0), tt), Apart-one r rs (l.1))

other_than_found :
    (name other : Bytes) (rs : List Rom) (i : Rom)
    → find_rom name rs ≡ some i
    → LacksRom other rs
    → same_name i.name other ≡ false
unfolding find_rom
other_than_found name other [] i h l = absurd cc
other_than_found name other (r ∷ rs) i h l = elim (Bool-cases (same_name r.name name)) [
  | inl e ↦
      let here : r ≡ i = find_here name r rs i e h in
      subst (λ x. same_name x.name other ≡ false) here (l.0)
  | inr e ↦ other_than_found name other rs i (find_there name r rs i e h) (l.1)
]

-- none of the others has the name of the one that is found
pub Apart-found :
    (name : Bytes) (rs : List Rom) (i : Rom)
    → find_rom name rs ≡ some i
    → IsRomSet rs
    → Apart (erase_rom name rs) (i ∷ [])
unfolding find_rom erase_rom
Apart-found name [] i h d = absurd cc
Apart-found name (r ∷ rs) i h d = elim (Bool-cases (same_name r.name name)) [
  | inl e ↦
      let here : r ≡ i = find_here name r rs i e h in
      rw e (subst (λ x. Apart rs (x ∷ [])) here (Apart-one r rs (d.0)))
  | inr e ↦
      let h1 = find_there name r rs i e h in
      rw e ((other_than_found name r.name rs i h1 (d.0), tt), Apart-found name rs i h1 (d.1))
]

pub Apart-insert_rom :
    (b s : List Rom) (i : Rom)
    → LacksRom i.name s
    → Apart b s
    → Apart b (i ∷ [])
    → Apart b (insert_rom i s)
Apart-insert_rom b s i l a one = rw (insert_rom_new i s l) (go b a one)
  where
    go : (c : List Rom) → Apart c s → Apart c (i ∷ []) → Apart c (s ++ i ∷ [])
    go [] a one = tt
    go (x ∷ c) a one = (LacksRom-append x.name s i (a.0) (one.0.0), go c (a.1) (one.1))

pub Apart-nil : (b : List Rom) → Apart b []
Apart-nil [] = tt
Apart-nil (r ∷ b) = (tt, Apart-nil b)
