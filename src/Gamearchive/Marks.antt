-- ===== src/Gamearchive/Marks.antt =====
-- game.cc: game_working_subset_compute follows the sons as find_working_clones does.
use advancescan.Base.{
  Bool, Bool-cases, Bytes, List, Option, Option-cases, [], ap, false, if◌then◌else◌, inl, inr, map,
  none, refl, some, suc, sym, true, zero, ℕ, ◌++◌, ◌∙◌, ◌∷◌, ◌≡◌,
}
use advancescan.Gamearchive.{find_listed}
use advancescan.Gamearchive.Clones.{start_clones}
use advancescan.Gamearchive.Relations.{
  Marked, all_sons, and_mark, change_listed, clones_of, find_working_clones,
  game_working_subset_compute, mark_if,
}
use advancescan.Gamearchive.Sons.{clones_pass, clones_spent, clones_step, none-some, some-injective}
use advancescan.Gameinfo.{Listed}
use advancescan.Zip.Archive.{bytes_eq}

-- a game without its marks
abbrev pub unmarked : Listed → Listed
unmarked g = record g { working_subset = false; working_parent_subset = false }

abbrev pub SameGames : List Listed → List Listed → Type 0
SameGames gs gs0 = map unmarked gs ≡ map unmarked gs0

abbrev pub is_found : List Bytes → Bool
is_found [] = false
is_found (n ∷ r) = true

abbrev unmarked_found : Option Listed → Option Listed
unmarked_found none = none
unmarked_found (some g) = some (unmarked g)

find_listed-unmarked :
    (n : Bytes) (gs : List Listed)
    → find_listed n (map unmarked gs) ≡ unmarked_found (find_listed n gs)
unfolding find_listed
find_listed-unmarked n [] = refl
find_listed-unmarked n (g ∷ gs) = elim (Bool-cases (bytes_eq g.name n)) [
  | inl e ↦ rw e refl
  | inr e ↦ rw e (find_listed-unmarked n gs)
]

found_same :
    (n : Bytes) (gs gs0 : List Listed)
    → SameGames gs gs0
    → unmarked_found (find_listed n gs) ≡ unmarked_found (find_listed n gs0)
found_same n gs gs0 h =
    sym (find_listed-unmarked n gs) ∙ ap (find_listed n) h ∙ find_listed-unmarked n gs0

found_none : (o : Option Listed) → unmarked_found o ≡ none → o ≡ none
found_none none h = refl
found_none (some g) h = absurd cc

found_some :
    (o : Option Listed) (j0 : Listed)
    → unmarked_found o ≡ some (unmarked j0)
    → (j : Listed) × (o ≡ some j) × (unmarked j ≡ unmarked j0)
found_some none j0 h = absurd cc
found_some (some j) j0 h = (j, refl, cc)

change_listed-unmarked :
    (n : Bytes) (mark : Listed → Listed)
    → ((g : Listed) → unmarked (mark g) ≡ unmarked g)
    → (gs : List Listed) → SameGames (change_listed n mark gs) gs
unfolding change_listed
change_listed-unmarked n mark same [] = refl
change_listed-unmarked n mark same (g ∷ gs) = elim (Bool-cases (bytes_eq g.name n)) [
  | inl e ↦ rw e (ap (λ x. x ∷ map unmarked gs) (same g))
  | inr e ↦ rw e (ap (λ l. unmarked g ∷ l) (change_listed-unmarked n mark same gs))
]

-- an answer, and the same games but for their marks
abbrev Answers : Marked → Bool → List Listed → Type 0
Answers m b gs0 = (gs1 : List Listed) × (m ≡ some (b, gs1)) × SameGames gs1 gs0

mark_if-Answers :
    (n : Bytes) (mark : Listed → Listed) (b : Bool) (gs gs0 : List Listed)
    → ((g : Listed) → unmarked (mark g) ≡ unmarked g)
    → SameGames gs gs0
    → Answers (mark_if n mark b gs) b gs0
mark_if-Answers n mark true gs gs0 same h =
    (change_listed n mark gs, refl, change_listed-unmarked n mark same gs ∙ h)
mark_if-Answers n mark false gs gs0 same h = (gs, refl, h)

-- a recursion that answers whether the other finds a game
abbrev Agree :
    (Listed → List Listed → Marked) → (Listed → Option (List Bytes)) → List Listed → Type 0
Agree again again0 gs0 =
    (j j0 : Listed) (gs : List Listed) (s : List Bytes)
    → SameGames gs gs0
    → unmarked j ≡ unmarked j0
    → again0 j0 ≡ some s
    → Answers (again j gs) (is_found s) gs0

is_found-append : (r s : List Bytes) → (if is_found s then true else is_found r) ≡ is_found (r ++ s)
is_found-append [] [] = refl
is_found-append [] (n ∷ s) = refl
is_found-append (x ∷ r) [] = refl
is_found-append (x ∷ r) (n ∷ s) = refl

module _ (again : Listed → List Listed → Marked) (again0 : Listed → Option (List Bytes))
    (gs0 : List Listed) (agree : Agree again again0 gs0) where
  sons_pass :
      (n : Bytes) (names : List Bytes) (b : Bool) (gs : List Listed)
      → find_listed n gs ≡ none
      → all_sons again (n ∷ names) b gs ≡ all_sons again names b gs
  unfolding all_sons
  sons_pass n names b gs e = rw (e, all_sons) refl

  sons_step :
      (n : Bytes) (names : List Bytes) (b b1 : Bool) (gs gs1 : List Listed) (j : Listed)
      → find_listed n gs ≡ some j
      → again j gs ≡ some (b1, gs1)
      → all_sons again (n ∷ names) b gs ≡ all_sons again names (if b1 then true else b) gs1
  unfolding all_sons
  sons_step n names b b1 gs gs1 j e f = rw (e, all_sons) (rw f refl)

  all_sons-Answers :
      (names r0 r : List Bytes) (gs : List Listed)
      → SameGames gs gs0
      → clones_of again0 gs0 names r0 ≡ some r
      → Answers (all_sons again names (is_found r0) gs) (is_found r) gs0
  unfolding all_sons clones_of
  all_sons-Answers [] r0 r gs h c = (gs, ap (λ x. some (is_found x, gs)) (some-injective r0 r c), h)
  all_sons-Answers (n ∷ names) r0 r gs h c = elim (Option-cases (find_listed n gs0)) [
    | inl e ↦
        let e1 = found_none (find_listed n gs) (found_same n gs gs0 h ∙ ap unmarked_found e) in
        let (gs1, f, k) =
          all_sons-Answers names r0 r gs h (sym (clones_pass again0 gs0 n names r0 e) ∙ c) in
        (gs1, sons_pass n names (is_found r0) gs e1 ∙ f, k)
    | inr (j0, e) ↦
        let (j, e1, u) =
          found_some (find_listed n gs) j0 (found_same n gs gs0 h ∙ ap unmarked_found e) in
        elim (Option-cases (again0 j0)) [
          | inl a ↦
              absurd (none-some again0 gs0 r (sym (clones_spent again0 gs0 n names r0 j0 e a) ∙ c))
          | inr (s, a) ↦
              let (gs2, b, h2) = agree j j0 gs s h u a in
              let (gs1, f, k) =
                all_sons-Answers names (r0 ++ s) r gs2 h2
                  (sym (clones_step again0 gs0 n names r0 j0 s e a) ∙ c) in
              (
                gs1,
                sons_step n names (is_found r0) (is_found s) gs gs2 j e1 b
                    ∙ ap (λ x. all_sons again names x gs2) (is_found-append r0 s)
                    ∙ f,
                k,
              )
        ]
  ]

is_found-start : (w : Bool) (n : Bytes) → w ≡ is_found (if w then n ∷ [] else [])
is_found-start true n = refl
is_found-start false n = refl

subset_compute-Agree :
    (fuel : ℕ) (gs0 : List Listed)
    → Agree (game_working_subset_compute fuel) (find_working_clones fuel gs0) gs0
unfolding game_working_subset_compute find_working_clones
subset_compute-Agree zero gs0 j j0 gs s h u c = absurd (none-some (λ x. none) gs0 s c)
subset_compute-Agree (suc fuel) gs0 j j0 gs s h u c =
    let again = game_working_subset_compute fuel in
    let (gs1, e, k) =
      all_sons-Answers again (find_working_clones fuel gs0) gs0 (subset_compute-Agree fuel gs0)
        j0.rom_son (start_clones j0) s gs h c in
    let sons = ap (λ x. all_sons again x.rom_son x.working gs) u in
    let start = ap (λ w. all_sons again j0.rom_son w gs) (is_found-start j0.working j0.name) in
    let (gs2, f, l) =
      mark_if-Answers j.name (λ x. record x { working_subset = true }) (is_found s) gs1 gs0
        (λ g. refl) k in
    (
      gs2,
      ap (λ m. and_mark m (mark_if j.name (λ x. record x { working_subset = true })))
            (sons ∙ start ∙ e)
          ∙ f,
      l,
    )

-- Where find_working_clones returns, game_working_subset_compute returns as well, with the same depth of
-- recursion; it answers whether a game was found, and changes nothing but marks in the games.
pub game_working_subset_compute-find_working_clones :
    (fuel : ℕ) (gs : List Listed) (g : Listed) (r : List Bytes)
    → find_working_clones fuel gs g ≡ some r
    → (gs1 : List Listed) × (game_working_subset_compute fuel g gs ≡ some (is_found r, gs1))
      × SameGames gs1 gs
game_working_subset_compute-find_working_clones fuel gs g r h =
    subset_compute-Agree fuel gs g g gs r refl refl h
