-- ===== src/Gamexml/Levels.antt =====
-- gamexml.cc: the functions of the open levels, and what they use.
use mathlib.Core.Path.{subst}
use advancescan.Base.{
  Bool, List, Option, [], ap, false, length, none, refl, some, true, ◌&&◌, ◌||◌, ◌∙◌, ◌∷◌, ◌≡◌,
}
use advancescan.Gameinfo.Words.{word_rom}
use advancescan.Gamexml.{
  Level, Process, cloneof_process, description_process, disk_process, diskname_process,
  disksha1_process, driverstatus_process, game_process, isbios_process, manufacturer_process,
  name_process, rom_process, romcrc_process, romname_process, romof_process, romsize_process,
  romstatus_process, runnable_process, samplename_process, sampleof_process, year_process,
}
use advancescan.Gamexml.Depths.{outer_names}
use advancescan.Gamexml.Handlers.{tags_of}
use advancescan.Gamexml.Needs.{is_disk, is_game, is_rom, is_served}
use advancescan.Gamexml.Table.{identify, tags_fit}
use advancescan.Gamexml.Words.{word_disk}
use advancescan.Zip.Archive.{bytes_eq}

-- the functions of the levels are those that the table has for their tags
abbrev pub AreKnown : List Level → Type 0
AreKnown [] = Unit
AreKnown (l ∷ level) =
    (l.process ≡ identify (length level) (l.tag ∷ tags_of level)) × AreKnown level

abbrev pub IsServed : Option Process → Bool → Bool → Bool → Type 0
IsServed none g r d = Unit
IsServed (some p) g r d = is_served p g r d ≡ true

-- the functions of the levels have what they use
abbrev pub AreServed : List Level → Bool → Bool → Bool → Type 0
AreServed [] g r d = Unit
AreServed (l ∷ level) g r d = IsServed l.process g r d × AreServed level g r d

-- what is there is not less
abbrev pub Implies : Bool → Bool → Type 0
Implies b c = b ≡ true → c ≡ true

and-Implies : (b b1 c c1 : Bool) → Implies b b1 → Implies c c1 → Implies (b && c) (b1 && c1)
and-Implies true b1 true c1 i j h = rw (i refl, j refl) refl
and-Implies true b1 false c1 i j h = absurd cc
and-Implies false b1 c c1 i j h = absurd cc

or-Implies : (a b : Bool) → Implies b (a || b)
or-Implies true b h = refl
or-Implies false b h = h

is_served-Implies :
    (p : Process) (g r d g1 r1 d1 : Bool)
    → Implies g g1
    → Implies r r1
    → Implies d d1
    → Implies (is_served p g r d) (is_served p g1 r1 d1)
unfolding is_served
is_served-Implies game_process g r d g1 r1 d1 i j k = i
is_served-Implies runnable_process g r d g1 r1 d1 i j k = i
is_served-Implies isbios_process g r d g1 r1 d1 i j k = i
is_served-Implies name_process g r d g1 r1 d1 i j k = i
is_served-Implies description_process g r d g1 r1 d1 i j k = i
is_served-Implies manufacturer_process g r d g1 r1 d1 i j k = i
is_served-Implies year_process g r d g1 r1 d1 i j k = i
is_served-Implies cloneof_process g r d g1 r1 d1 i j k = i
is_served-Implies romof_process g r d g1 r1 d1 i j k = i
is_served-Implies sampleof_process g r d g1 r1 d1 i j k = i
is_served-Implies rom_process g r d g1 r1 d1 i j k = and-Implies g g1 r r1 i j
is_served-Implies romsize_process g r d g1 r1 d1 i j k = j
is_served-Implies romcrc_process g r d g1 r1 d1 i j k = j
is_served-Implies romname_process g r d g1 r1 d1 i j k = j
is_served-Implies romstatus_process g r d g1 r1 d1 i j k = j
is_served-Implies driverstatus_process g r d g1 r1 d1 i j k = i
is_served-Implies samplename_process g r d g1 r1 d1 i j k = i
is_served-Implies disk_process g r d g1 r1 d1 i j k = and-Implies g g1 d d1 i k
is_served-Implies diskname_process g r d g1 r1 d1 i j k = k
is_served-Implies disksha1_process g r d g1 r1 d1 i j k = k

IsServed-Implies :
    (o : Option Process) (g r d g1 r1 d1 : Bool)
    → Implies g g1
    → Implies r r1
    → Implies d d1
    → IsServed o g r d
    → IsServed o g1 r1 d1
IsServed-Implies none g r d g1 r1 d1 i j k h = tt
IsServed-Implies (some p) g r d g1 r1 d1 i j k h = is_served-Implies p g r d g1 r1 d1 i j k h

pub AreServed-Implies :
    (level : List Level) (g r d g1 r1 d1 : Bool)
    → Implies g g1
    → Implies r r1
    → Implies d d1
    → AreServed level g r d
    → AreServed level g1 r1 d1
AreServed-Implies [] g r d g1 r1 d1 i j k h = tt
AreServed-Implies (l ∷ level) g r d g1 r1 d1 i j k h = (
  IsServed-Implies l.process g r d g1 r1 d1 i j k (h.0),
  AreServed-Implies level g r d g1 r1 d1 i j k (h.1),
)

-- a function that opens leaves the others served
pub AreServed-open :
    (p : Process) (level : List Level) (g r d : Bool)
    → AreServed level g r d
    → AreServed level (is_game p || g) (is_rom p || r) (is_disk p || d)
AreServed-open p level g r d =
    AreServed-Implies level g r d _ _ _ (or-Implies (is_game p) g) (or-Implies (is_rom p) r)
      (or-Implies (is_disk p) d)

pub and_right : (a b : Bool) → (a && b) ≡ true → b ≡ true
and_right true b h = h
and_right false b h = absurd cc

pub and_left : (a b : Bool) → (a && b) ≡ true → a ≡ true
and_left true b h = refl
and_left false b h = absurd cc

-- the game below a level that fits the row of a game
pub game_there :
    (l1 l0 : Level) (g r d : Bool)
    → AreKnown (l1 ∷ l0 ∷ [])
    → AreServed (l1 ∷ l0 ∷ []) g r d
    → tags_fit outer_names (l1.tag ∷ l0.tag ∷ []) ≡ true
    → g ≡ true
unfolding identify is_served
game_there l1 l0 g r d known served fits =
    let named : identify 1 (l1.tag ∷ l0.tag ∷ []) ≡ some game_process = rw fits refl in
    subst (λ o. IsServed o g r d) (known.0 ∙ named) (served.0)

-- the rom, or the disk, below a level of its element
pub rom_there :
    (l2 l1 l0 : Level) (g r d : Bool)
    → AreKnown (l2 ∷ l1 ∷ l0 ∷ [])
    → AreServed (l2 ∷ l1 ∷ l0 ∷ []) g r d
    → tags_fit outer_names (l1.tag ∷ l0.tag ∷ []) ≡ true
    → l2.tag ≡ word_rom
    → r ≡ true
unfolding identify is_served bytes_eq
rom_there l2 l1 l0 g r d known served fits e =
    let named : identify 2 (word_rom ∷ l1.tag ∷ l0.tag ∷ []) ≡ some rom_process = rw fits refl in
    let at_tag = ap (λ t. identify 2 (t ∷ l1.tag ∷ l0.tag ∷ [])) e in
    and_right g r (subst (λ o. IsServed o g r d) (known.0 ∙ at_tag ∙ named) (served.0))

pub disk_there :
    (l2 l1 l0 : Level) (g r d : Bool)
    → AreKnown (l2 ∷ l1 ∷ l0 ∷ [])
    → AreServed (l2 ∷ l1 ∷ l0 ∷ []) g r d
    → tags_fit outer_names (l1.tag ∷ l0.tag ∷ []) ≡ true
    → l2.tag ≡ word_disk
    → d ≡ true
unfolding identify is_served bytes_eq
disk_there l2 l1 l0 g r d known served fits e =
    let named : identify 2 (word_disk ∷ l1.tag ∷ l0.tag ∷ []) ≡ some disk_process = rw fits refl in
    let at_tag = ap (λ t. identify 2 (t ∷ l1.tag ∷ l0.tag ∷ [])) e in
    and_right g d (subst (λ o. IsServed o g r d) (known.0 ∙ at_tag ∙ named) (served.0))
