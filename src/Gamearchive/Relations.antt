-- ===== src/Gamearchive/Relations.antt =====
-- game.cc: gamearchive::load, with the relations between the games, and the functions that follow
-- them. What the files found for a game give, and what expat makes of the file, are arguments.
use advancescan.Base.{
  Bool, Bytes, List, Option, Result, [], err, failed, false, if◌then◌else◌, map, none, not, ok,
  some, suc, true, zero, ℕ, ◌&&◌, ◌++◌, ◌==◌, ◌∷◌,
}
use advancescan.Game.{has_good_rom}
use advancescan.Gamearchive.{find_listed, reduce_game}
use advancescan.Gameinfo.{Listed, Parse, has_read, refusal, spent}
use advancescan.Gameinfo.Load.{load_info}
use advancescan.Gamexml.{XmlError}
use advancescan.Gamexml.Handlers.{XmlEvent, load_xml}
use advancescan.Readinfo.{isspace}
use advancescan.Zip.Archive.{bytes_eq}

-- the loop that reduces all games, in their order, each with the others as they are then
unfoldable pub reduce_all : ℕ → List Listed → List Listed → Option (List Listed)
reduce_all fuel reduced_games [] = some reduced_games
reduce_all fuel reduced_games (i ∷ games) = elim (reduce_game fuel (reduced_games ++ i ∷ games) i) [
  | none ↦ none
  | some r ↦ reduce_all fuel (reduced_games ++ r ∷ []) games
]

-- the romof, or sampleof, of a game that is kept: that of another game of the list
unfoldable pub adjusted : List Listed → Bytes → Bytes → Bytes
adjusted gs me [] = []
adjusted gs me (c ∷ other) = elim (find_listed (c ∷ other) gs) [
  | none ↦ []
  | some j ↦ if bytes_eq j.name me then [] else c ∷ other
]

-- the loops that test the romof and the sampleof relationship. No name is changed, so that each
-- game finds the others as they were.
abbrev pub adjust_romof : List Listed → Listed → Listed
adjust_romof gs i = record i { romof = adjusted gs i.name i.romof }

abbrev pub adjust_sampleof : List Listed → Listed → Listed
adjust_sampleof gs i = record i { sampleof = adjusted gs i.name i.sampleof }

abbrev pub adjust_all : List Listed → List Listed
adjust_all gs = let roms = map (adjust_romof gs) gs in map (adjust_sampleof roms) roms

-- what is changed in the game of this name
unfoldable pub change_listed : Bytes → (Listed → Listed) → List Listed → List Listed
change_listed name change [] = []
change_listed name change (g ∷ gs) =
    let rest = change_listed name change gs in
    if bytes_eq g.name name then change g ∷ gs else g ∷ rest

-- the loop that computes the rom_son containers
unfoldable pub add_sons : List Listed → List Listed → List Listed
add_sons [] gs = gs
add_sons (i ∷ games) gs =
    add_sons games (change_listed i.romof (λ j. record j { rom_son = j.rom_son ++ i.name ∷ [] }) gs)

-- gamearchive::is_game_parent
abbrev pub is_game_parent : List Listed → Listed → Bool
is_game_parent gs g = elim (find_listed g.romof gs) [ none ↦ true | some j ↦ j.resource ]

-- the answer of a function that marks games, and the games with their marks; `none` where its fuel
-- is spent
abbrev pub Marked : Type 0
Marked = Option (Bool × List Listed)

abbrev pub and_mark : Marked → (Bool → List Listed → Marked) → Marked
and_mark none k = none
and_mark (some (b, gs)) k = k b gs

-- if (result) g.working_subset_set(true), or the other flag
abbrev pub mark_if : Bytes → (Listed → Listed) → Bool → List Listed → Marked
mark_if name mark b gs = some (b, if b then change_listed name mark gs else gs)

-- the loop of game_working_subset_compute over the sons
unfoldable pub all_sons : (Listed → List Listed → Marked) → List Bytes → Bool → List Listed → Marked
all_sons again [] result gs = some (result, gs)
all_sons again (n ∷ names) result gs = elim (find_listed n gs) [
  | none ↦ all_sons again names result gs
  | some j ↦ and_mark (again j gs) (λ b gs1. all_sons again names (if b then true else result) gs1)
]

-- gamearchive::game_working_subset_compute, on fuel for the depth of the recursion
unfoldable pub game_working_subset_compute : ℕ → Listed → List Listed → Marked
game_working_subset_compute zero g gs = none
game_working_subset_compute (suc fuel) g gs =
    and_mark (all_sons (game_working_subset_compute fuel) g.rom_son g.working gs)
      (mark_if g.name (λ x. record x { working_subset = true }))

-- the loop of game_working_parent_subset_compute over the sons, up to the first that answers true
unfoldable pub first_son : (Listed → List Listed → Marked) → List Bytes → List Listed → Marked
first_son again [] gs = some (false, gs)
first_son again (n ∷ names) gs = elim (find_listed n gs) [
  | none ↦ first_son again names gs
  | some j ↦
      and_mark (again j gs)
        (λ b gs1. elim b [ true ↦ some (true, gs1) | false ↦ first_son again names gs1 ])
]

-- gamearchive::game_working_parent_subset_compute, on fuel
unfoldable pub game_working_parent_subset_compute : ℕ → Listed → List Listed → Marked
game_working_parent_subset_compute zero g gs = none
game_working_parent_subset_compute (suc fuel) g gs =
    and_mark
      (elim g.working [
        | true ↦ some (true, gs)
        | false ↦ first_son (game_working_parent_subset_compute fuel) g.rom_son gs
      ])
      (mark_if g.name (λ x. record x { working_parent_subset = true }))

-- one round of the loops over all games that mark resources, and what is below parents
abbrev pub mark_game :
    (Listed → List Listed → Marked) → (Listed → Listed) → Listed → List Listed → Marked
mark_game compute mark i gs =
    if i.resource
    then mark_if i.name mark true gs
    else if is_game_parent gs i
    then compute i gs
    else some (false, gs)

unfoldable pub mark_all :
    (Listed → List Listed → Marked)
    → (Listed → Listed)
    → List Listed
    → List Listed
    → Option (List Listed)
mark_all compute mark [] gs = some gs
mark_all compute mark (i ∷ games) gs = elim (mark_game compute mark i gs) [
  | none ↦ none
  | some (b, gs1) ↦ mark_all compute mark games gs1
]

-- gamearchive::load behind the reader
unfoldable pub relate_games : ℕ → List Listed → Option (List Listed)
relate_games fuel gs = elim (reduce_all fuel [] gs) [
  | none ↦ none
  | some gs1 ↦
      let gs2 = adjust_all gs1 in
      let gs3 = add_sons gs2 gs2 in
      elim (mark_all (game_working_subset_compute fuel) (λ x. record x { working_subset = true })
        gs3 gs3) [
          | none ↦ none
          | some gs4 ↦
              mark_all (game_working_parent_subset_compute fuel)
                (λ x. record x { working_parent_subset = true }) gs4 gs4
        ]
]

-- the spaces before the list
unfoldable pub skip_spaces : Bytes → Bytes
skip_spaces [] = []
skip_spaces (c ∷ s) = let rest = skip_spaces s in if isspace c then rest else c ∷ s

-- what load_info throws where it refuses the file
abbrev pub read_info : Parse (List Listed) → Option (Result (List Listed))
read_info spent = none
read_info refusal = some (err failed)
read_info (has_read gs) = some (ok gs)

-- the reader, by the first character that is no space; `expat` is what the parser makes of a file
abbrev pub read_list :
    (ℕ → Bool) → (Bytes → List XmlEvent × Option XmlError) → Bytes → Option (Result (List Listed))
read_list alloc expat [] = read_info (load_info [])
read_list alloc expat (c ∷ s) =
    if c == b'<'
    then some (load_xml alloc (expat (c ∷ s)).0 (expat (c ∷ s)).1)
    else read_info (load_info (c ∷ s))

-- gamearchive::load
unfoldable pub load_list :
    ℕ
    → (ℕ → Bool)
    → (Bytes → List XmlEvent × Option XmlError)
    → Bytes
    → Option (Result (List Listed))
load_list fuel alloc expat s = elim (read_list alloc expat (skip_spaces s)) [
  | none ↦ none
  | some (err e) ↦ some (err e)
  | some (ok gs) ↦ elim (relate_games fuel gs) [ none ↦ none | some r ↦ some (ok r) ]
]

-- gamearchive::filter
unfoldable pub filter : (Listed → Bool) → List Listed → List Listed
filter p [] = []
filter p (j ∷ gs) = let rest = filter p gs in if not (p j) then rest else j ∷ rest

-- the loop of find_working_clones over the sons
unfoldable pub clones_of :
    (Listed → Option (List Bytes)) → List Listed → List Bytes → List Bytes → Option (List Bytes)
clones_of again gs [] r = some r
clones_of again gs (n ∷ names) r = elim (find_listed n gs) [
  | none ↦ clones_of again gs names r
  | some j ↦ elim (again j) [ none ↦ none | some s ↦ clones_of again gs names (r ++ s) ]
]

-- gamearchive::find_working_clones, on fuel for the depth of the recursion
unfoldable pub find_working_clones : ℕ → List Listed → Listed → Option (List Bytes)
find_working_clones zero gs g = none
find_working_clones (suc fuel) gs g =
    clones_of (find_working_clones fuel gs) gs g.rom_son (if g.working then g.name ∷ [] else [])

-- the loop of has_working_clone_with_rom; `has_good_rom` is that of the games
unfoldable pub clone_with_rom :
    (Listed → Option Bool) → (Listed → Bool) → List Listed → List Bytes → Option Bool
clone_with_rom again has_good_rom gs [] = some false
clone_with_rom again has_good_rom gs (n ∷ names) = elim (find_listed n gs) [
  | none ↦ clone_with_rom again has_good_rom gs names
  | some j ↦ if j.working && has_good_rom j then some true else elim (again j) [
    | none ↦ none
    | some true ↦ some true
    | some false ↦ clone_with_rom again has_good_rom gs names
  ]
]

-- gamearchive::has_working_clone_with_rom, on fuel
unfoldable pub has_working_clone_with_rom : ℕ → (Listed → Bool) → List Listed → Listed → Option Bool
has_working_clone_with_rom zero has_good_rom gs g = none
has_working_clone_with_rom (suc fuel) has_good_rom gs g =
    clone_with_rom (has_working_clone_with_rom fuel has_good_rom gs) has_good_rom gs g.rom_son
