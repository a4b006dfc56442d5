-- ===== src/Gamexml/Depths.antt =====
-- gamexml.cc: what the table finds at each depth.
use mathlib.Core.Path.{subst}
use advancescan.Base.{
  Bool, Bool-cases, Bytes, List, [], false, inl, inr, refl, some, true, ◌||◌, ◌∙◌, ◌∷◌, ◌≡◌,
}
use advancescan.Gameinfo.Words.{word_rom}
use advancescan.Gamexml.{Process}
use advancescan.Gamexml.Needs.{is_disk, is_game, is_rom, is_served}
use advancescan.Gamexml.Table.{
  Conversion, TagName, conv2, conv3, find_conversion, match_gamemachine, match_mamemessraine,
  match_word, tags_fit,
}
use advancescan.Gamexml.Words.{word_disk}

-- each row of a table
infixr 4 ◌&◌
pub data AllRows (q : List TagName → Process → Type 0) : List Conversion → Type 0 where
  no_rows : AllRows q []
  ◌&◌ :
      {c : Conversion} {conv : List Conversion}
      → q c.names c.process
      → AllRows q conv
      → AllRows q (c ∷ conv)

some-injective : (x y : Process) → some x ≡ some y → x ≡ y
some-injective x y h = cc

-- what is found is a row that fits
pub find_conversion-fits :
    (q : List TagName → Process → Type 0) (conv : List Conversion) (tags : List Bytes) (p : Process)
    → AllRows q conv
    → find_conversion conv tags ≡ some p
    → (names : List TagName) × q names p × (tags_fit names tags ≡ true)
find_conversion-fits q [] tags p no_rows h = absurd cc
find_conversion-fits q (c ∷ conv) tags p (fits & all) h =
    elim (Bool-cases (tags_fit c.names tags)) [
      | inl e ↦
          let found : some c.process ≡ find_conversion (c ∷ conv) tags = rw e refl in
          (c.names, subst (q c.names) (some-injective c.process p (found ∙ h)) fits, e)
      | inr e ↦
          let passed : find_conversion conv tags ≡ find_conversion (c ∷ conv) tags = rw e refl in
          find_conversion-fits q conv tags p all (passed ∙ h)
    ]

-- the names above the elements of a game
abbrev pub outer_names : List TagName
outer_names = match_gamemachine ∷ match_mamemessraine ∷ []

-- a function of CONV2: it does not take the game away, and has what it uses, where there is a game
abbrev pub IsInGame : Process → Type 0
IsInGame p =
    (is_game p ≡ false) × ((r d : Bool) → is_served p true (is_rom p || r) (is_disk p || d) ≡ true)

-- a function of CONV3: it takes nothing away, and has what it uses, below the element `outer`
abbrev pub IsInside : Bytes → Process → Type 0
IsInside outer p =
    (is_game p ≡ false)
    × (is_rom p ≡ false)
    × (is_disk p ≡ false)
    × ((r d : Bool)
        → (outer ≡ word_rom → r ≡ true)
        → (outer ≡ word_disk → d ≡ true)
        → is_served p true r d ≡ true)

abbrev pub IsRow2 : List TagName → Process → Type 0
IsRow2 names p = (w : Bytes) × (names ≡ match_word w ∷ outer_names) × IsInGame p

abbrev pub IsRow3 : List TagName → Process → Type 0
IsRow3 names p =
    (w outer : Bytes) × (names ≡ match_word w ∷ match_word outer ∷ outer_names) × IsInside outer p

pub conv2-IsRow2 : AllRows IsRow2 conv2
unfolding is_served
conv2-IsRow2 =
    (_, refl, (refl, λ r d. refl))
    & (_, refl, (refl, λ r d. refl))
    & (_, refl, (refl, λ r d. refl))
    & (_, refl, (refl, λ r d. refl))
    & (_, refl, (refl, λ r d. refl))
    & (_, refl, (refl, λ r d. refl))
    & (_, refl, (refl, λ r d. refl))
    & (_, refl, (refl, λ r d. refl))
    & (_, refl, (refl, λ r d. refl))
    & (_, refl, (refl, λ r d. refl))
    & (_, refl, (refl, λ r d. refl))
    & no_rows

pub conv3-IsRow3 : AllRows IsRow3 conv3
unfolding is_served
conv3-IsRow3 =
    (_, _, refl, (refl, refl, refl, λ r d in_rom in_disk. in_rom refl))
    & (_, _, refl, (refl, refl, refl, λ r d in_rom in_disk. in_rom refl))
    & (_, _, refl, (refl, refl, refl, λ r d in_rom in_disk. in_rom refl))
    & (_, _, refl, (refl, refl, refl, λ r d in_rom in_disk. in_rom refl))
    & (_, _, refl, (refl, refl, refl, λ r d in_rom in_disk. refl))
    & (_, _, refl, (refl, refl, refl, λ r d in_rom in_disk. refl))
    & (_, _, refl, (refl, refl, refl, λ r d in_rom in_disk. in_disk refl))
    & (_, _, refl, (refl, refl, refl, λ r d in_rom in_disk. in_disk refl))
    & no_rows
