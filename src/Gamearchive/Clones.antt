-- ===== src/Gamearchive/Clones.antt =====
-- game.cc: which games find_working_clones finds.
use mathlib.Core.Path.{subst}
use advancescan.Base.{
  Bool, Bytes, List, Option, Option-cases, [], arith, false, if◌then◌else◌, inl, inr, none, refl,
  some, suc, sym, true, zero, ℕ, ◌++◌, ◌<◌, ◌↔◌, ◌∙◌, ◌∷◌, ◌≡◌,
}
use advancescan.Gamearchive.{find_listed}
use advancescan.Gamearchive.Relations.{clones_of, find_working_clones}
use advancescan.Gamearchive.Sons.{
  IsIn, at_head, clones_of-keeps, clones_of_complete, clones_of_sound, clones_pass, clones_step,
  in_tail, none-some,
}
use advancescan.Gameinfo.{Listed}

-- a working game, which is the game itself or a clone of one of its sons
pub data IsClone (gs : List Listed) : Listed → Bytes → Type 0 where
  itself : {g : Listed} → g.working ≡ true → IsClone gs g g.name
  of_son :
      {g j : Listed} {n name : Bytes}
      → IsIn n g.rom_son
      → find_listed n gs ≡ some j
      → IsClone gs j name
      → IsClone gs g name

abbrev pub start_clones : Listed → List Bytes
start_clones g = if g.working then g.name ∷ [] else []

start_clones-IsClone :
    (gs : List Listed) (g : Listed) (name : Bytes) → IsIn name (start_clones g) → IsClone gs g name
start_clones-IsClone gs g name m = go g.working refl m
  where
    go : (b : Bool) → g.working ≡ b → IsIn name (if b then g.name ∷ [] else []) → IsClone gs g name
    go false w k = elim k [ ]
    go true w (in_tail k) = elim k [ ]
    go true w (at_head e) = subst (IsClone gs g) (sym e) (itself w)

find_working_clones_sound :
    (fuel : ℕ) (gs : List Listed) (g : Listed) (r : List Bytes) (name : Bytes)
    → find_working_clones fuel gs g ≡ some r
    → IsIn name r
    → IsClone gs g name
unfolding find_working_clones
find_working_clones_sound zero gs g r name h m = absurd (none-some (λ x. none) gs r h)
find_working_clones_sound (suc fuel) gs g r name h m =
    elim (clones_of_sound (find_working_clones fuel gs) gs g.rom_son (start_clones g) r name h m) [
      | inl k ↦ start_clones-IsClone gs g name k
      | inr (n, j, s, k, e, f, l) ↦ of_son k e (find_working_clones_sound fuel gs j s name f l)
    ]

find_working_clones_complete :
    (fuel : ℕ) (gs : List Listed) (g : Listed) (r : List Bytes) (name : Bytes)
    → find_working_clones fuel gs g ≡ some r
    → IsClone gs g name
    → IsIn name r
unfolding find_working_clones
find_working_clones_complete zero gs g r name h c = absurd (none-some (λ x. none) gs r h)
find_working_clones_complete (suc fuel) gs g r _ h (itself w) =
    clones_of-keeps (find_working_clones fuel gs) gs g.rom_son (start_clones g) r g.name h
      (rw w (at_head refl))
find_working_clones_complete (suc fuel) gs g r name h (of_son {j = j} {n = n} k e c) =
    let (s, f, among) =
      clones_of_complete (find_working_clones fuel gs) gs g.rom_son (start_clones g) r n j h k e in
    among name (find_working_clones_complete fuel gs j s name f c)

-- Where find_working_clones returns, it has found exactly the working ones among the game, its sons, their
-- sons, and so on.
pub find_working_clones-IsClone :
    (fuel : ℕ) (gs : List Listed) (g : Listed) (r : List Bytes) (name : Bytes)
    → find_working_clones fuel gs g ≡ some r
    → IsIn name r ↔ IsClone gs g name
find_working_clones-IsClone fuel gs g r name h =
    (find_working_clones_sound fuel gs g r name h, find_working_clones_complete fuel gs g r name h)

-- each son is found with fewer rounds
clones_of-returns :
    (again : Listed → Option (List Bytes)) (gs : List Listed) (names r : List Bytes)
    → ((n : Bytes) (j : Listed)
        → IsIn n names
        → find_listed n gs ≡ some j
        → (s : List Bytes) × (again j ≡ some s))
    → (r1 : List Bytes) × (clones_of again gs names r ≡ some r1)
unfolding clones_of
clones_of-returns again gs [] r h = (r, refl)
clones_of-returns again gs (n ∷ names) r h = elim (Option-cases (find_listed n gs)) [
  | inl e ↦
      let (r1, f) = clones_of-returns again gs names r (λ x j m. h x j (in_tail m)) in
      (r1, clones_pass again gs n names r e ∙ f)
  | inr (j, e) ↦
      let (s, a) = h n j (at_head refl) e in
      let (r1, f) = clones_of-returns again gs names (r ++ s) (λ x i m. h x i (in_tail m)) in
      (r1, clones_step again gs n names r j s e a ∙ f)
]

-- Where a rank of the games falls from each to its sons, find_working_clones returns with more fuel than
-- the rank of the game.
pub find_working_clones-returns :
    (gs : List Listed) (rank : Listed → ℕ)
    → ((g j : Listed) (n : Bytes) → IsIn n g.rom_son → find_listed n gs ≡ some j → rank j < rank g)
    → (fuel : ℕ) (g : Listed) → rank g < fuel
    → (r : List Bytes) × (find_working_clones fuel gs g ≡ some r)
unfolding find_working_clones
find_working_clones-returns gs rank falls zero g h = absurd (omega arith)
find_working_clones-returns gs rank falls (suc fuel) g h =
    clones_of-returns (find_working_clones fuel gs) gs g.rom_son (start_clones g) (λ n j m e.
      let lower = falls g j n m e in find_working_clones-returns gs rank falls fuel j (omega arith))
