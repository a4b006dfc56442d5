-- ===== src/Gamearchive/Adjust.antt =====
-- game.cc: the names that gamearchive::load leaves in the games.
use advancescan.Base.{
  Bool-cases, Bytes, List, Option-cases, [], ap, false, inl, inr, map, none, refl, some, sym, true,
  ◌∙◌, ◌∷◌, ◌≡◌, ◌⊎◌,
}
use advancescan.Gamearchive.{find_listed}
use advancescan.Gamearchive.Relations.{adjust_all, adjust_romof, adjust_sampleof, adjusted}
use advancescan.Gameinfo.{Listed}
use advancescan.Zip.Archive.{bytes_eq}

-- no name, or that of another game of the list
abbrev pub IsOther : List Listed → Bytes → Bytes → Type 0
IsOther gs me other =
    (other ≡ []) ⊎ ((j : Listed) × (find_listed other gs ≡ some j) × (bytes_eq j.name me ≡ false))

-- the romof and the sampleof of these games are such names
abbrev pub AreLinked : List Listed → List Listed → Type 0
AreLinked gs [] = Unit
AreLinked gs (i ∷ games) =
    (IsOther gs i.name i.romof × IsOther gs i.name i.sampleof) × AreLinked gs games

adjusted-IsOther : (gs : List Listed) (me other : Bytes) → IsOther gs me (adjusted gs me other)
unfolding adjusted
adjusted-IsOther gs me [] = inl refl
adjusted-IsOther gs me (c ∷ other) = elim (Option-cases (find_listed (c ∷ other) gs)) [
  | inl e ↦ rw (e, adjusted) (inl refl)
  | inr (j, e) ↦ elim (Bool-cases (bytes_eq j.name me)) [
    | inl f ↦ rw (e, adjusted) (rw f (inl refl))
    | inr f ↦ rw (e, adjusted) (rw f (inr (j, e, f)))
  ]
]

-- games of the same names are found again
find_listed-map :
    (f : Listed → Listed)
    → ((g : Listed) → (f g).name ≡ g.name)
    → (name : Bytes) (gs : List Listed) (j : Listed) → find_listed name gs ≡ some j
    → find_listed name (map f gs) ≡ some (f j)
unfolding find_listed
find_listed-map f same name [] j h = absurd cc
find_listed-map f same name (g ∷ gs) j h = elim (Bool-cases (bytes_eq g.name name)) [
  | inl e ↦
      let here : find_listed name (g ∷ gs) ≡ some g = rw e refl in
      let e1 : bytes_eq (f g).name name ≡ true = ap (λ x. bytes_eq x name) (same g) ∙ e in
      rw e1 (ap (λ o. elim o [ none ↦ none | some x ↦ some (f x) ]) (sym here ∙ h))
  | inr e ↦
      let passed : find_listed name (g ∷ gs) ≡ find_listed name gs = rw e refl in
      let e1 : bytes_eq (f g).name name ≡ false = ap (λ x. bytes_eq x name) (same g) ∙ e in
      rw e1 (find_listed-map f same name gs j (sym passed ∙ h))
]

IsOther-map :
    (f : Listed → Listed)
    → ((g : Listed) → (f g).name ≡ g.name)
    → (gs : List Listed) (me other : Bytes) → IsOther gs me other
    → IsOther (map f gs) me other
IsOther-map f same gs me other (inl e) = inl e
IsOther-map f same gs me other (inr (j, e, n)) =
    inr (f j, find_listed-map f same other gs j e, ap (λ x. bytes_eq x me) (same j) ∙ n)

adjust-AreLinked :
    (gs games : List Listed)
    → (let roms = map (adjust_romof gs) gs in
        AreLinked
          (map (adjust_sampleof roms) roms)
          (map (adjust_sampleof roms) (map (adjust_romof gs) games)))
adjust-AreLinked gs [] = tt
adjust-AreLinked gs (i ∷ games) =
    let roms = map (adjust_romof gs) gs in
    let again = IsOther-map (adjust_sampleof roms) (λ g. refl) roms i.name in
    (
      (
        again _ (
            IsOther-map (adjust_romof gs) (λ g. refl) gs i.name _
              (adjusted-IsOther gs i.name i.romof)),
        again _ (adjusted-IsOther roms i.name i.sampleof),
      ),
      adjust-AreLinked gs games,
    )

-- The loops of gamearchive::load that test the romof and the sampleof relationship leave in each game
-- either no name or that of another game of the list.
pub adjust_all-AreLinked : (gs : List Listed) → AreLinked (adjust_all gs) (adjust_all gs)
adjust_all-AreLinked gs = adjust-AreLinked gs gs
