-- ===== src/Gamearchive/Sons.antt =====
-- game.cc: the loop of find_working_clones over the sons.
use mathlib.Core.Path.{subst}
use advancescan.Base.{
  Bytes, List, Option, Option-cases, [], ap, inl, inr, none, refl, some, sym, ◌++◌, ◌∙◌, ◌∷◌, ◌≡◌,
  ◌⊎◌,
}
use advancescan.Gamearchive.{find_listed}
use advancescan.Gamearchive.Relations.{clones_of}
use advancescan.Gameinfo.{Listed}

pub data IsIn (name : Bytes) : List Bytes → Type 0 where
  at_head : {n : Bytes} {names : List Bytes} → name ≡ n → IsIn name (n ∷ names)
  in_tail : {n : Bytes} {names : List Bytes} → IsIn name names → IsIn name (n ∷ names)

IsIn-append : {name : Bytes} {r : List Bytes} (s : List Bytes) → IsIn name r → IsIn name (r ++ s)
IsIn-append s (at_head e) = at_head e
IsIn-append s (in_tail m) = in_tail (IsIn-append s m)

IsIn-append_right :
    {name : Bytes} (r : List Bytes) {s : List Bytes} → IsIn name s → IsIn name (r ++ s)
IsIn-append_right [] m = m
IsIn-append_right (n ∷ r) m = in_tail (IsIn-append_right r m)

IsIn-cases :
    {name : Bytes} (r : List Bytes) {s : List Bytes}
    → IsIn name (r ++ s)
    → IsIn name r ⊎ IsIn name s
IsIn-cases [] m = inr m
IsIn-cases (n ∷ r) (at_head e) = inl (at_head e)
IsIn-cases (n ∷ r) (in_tail m) = elim (IsIn-cases r m) [ inl k ↦ inl (in_tail k) | inr k ↦ inr k ]

pub some-injective : (a b : List Bytes) → some a ≡ some b → a ≡ b
some-injective a b h = cc

-- the clones of a son, among those of all sons
abbrev OfSon : (Listed → Option (List Bytes)) → List Listed → List Bytes → Bytes → Type 0
OfSon again gs names name =
    (n : Bytes) × (j : Listed) × (s : List Bytes) × IsIn n names
    × (find_listed n gs ≡ some j)
    × (again j ≡ some s)
    × IsIn name s

module _ (again : Listed → Option (List Bytes)) (gs : List Listed) where
  no_game : {j : Listed} → none ≡ some j → ⊥
  no_game h = cc

  same_game : (i j : Listed) → some i ≡ some j → i ≡ j
  same_game i j h = cc

  pub clones_step :
      (n : Bytes) (names r : List Bytes) (j : Listed) (s : List Bytes)
      → find_listed n gs ≡ some j
      → again j ≡ some s
      → clones_of again gs (n ∷ names) r ≡ clones_of again gs names (r ++ s)
  unfolding clones_of
  clones_step n names r j s e f = rw (e, clones_of) (rw f refl)

  pub clones_pass :
      (n : Bytes) (names r : List Bytes)
      → find_listed n gs ≡ none
      → clones_of again gs (n ∷ names) r ≡ clones_of again gs names r
  unfolding clones_of
  clones_pass n names r e = rw (e, clones_of) refl

  pub clones_spent :
      (n : Bytes) (names r : List Bytes) (j : Listed)
      → find_listed n gs ≡ some j
      → again j ≡ none
      → clones_of again gs (n ∷ names) r ≡ none
  unfolding clones_of
  clones_spent n names r j e f = rw (e, clones_of) (rw f refl)

  pub none-some : (r : List Bytes) → none ≡ some r → ⊥
  none-some r h = cc

  -- what is found was there, or is of a son
  pub clones_of_sound :
      (names r r1 : List Bytes) (name : Bytes)
      → clones_of again gs names r ≡ some r1
      → IsIn name r1
      → IsIn name r ⊎ OfSon again gs names name
  unfolding clones_of
  clones_of_sound [] r r1 name h m = inl (subst (IsIn name) (sym (some-injective r r1 h)) m)
  clones_of_sound (n ∷ names) r r1 name h m = elim (Option-cases (find_listed n gs)) [
    | inl e ↦ later (clones_of_sound names r r1 name (sym (clones_pass n names r e) ∙ h) m)
    | inr (j, e) ↦ elim (Option-cases (again j)) [
      | inl f ↦ absurd (none-some r1 (sym (clones_spent n names r j e f) ∙ h))
      | inr (s, f) ↦
          here j s e f
            (clones_of_sound names (r ++ s) r1 name (sym (clones_step n names r j s e f) ∙ h) m)
    ]
  ]
    where
      later :
          IsIn name r ⊎ OfSon again gs names name → IsIn name r ⊎ OfSon again gs (n ∷ names) name
      later (inl k) = inl k
      later (inr (x, j, s, k, e, f, l)) = inr (x, j, s, in_tail k, e, f, l)

      from_cases :
          (j : Listed) (s : List Bytes)
          → find_listed n gs ≡ some j
          → again j ≡ some s
          → IsIn name r ⊎ IsIn name s
          → IsIn name r ⊎ OfSon again gs (n ∷ names) name
      from_cases j s e f (inl k) = inl k
      from_cases j s e f (inr k) = inr (n, j, s, at_head refl, e, f, k)

      here :
          (j : Listed) (s : List Bytes)
          → find_listed n gs ≡ some j
          → again j ≡ some s
          → IsIn name (r ++ s) ⊎ OfSon again gs names name
          → IsIn name r ⊎ OfSon again gs (n ∷ names) name
      here j s e f (inl k) = from_cases j s e f (IsIn-cases r k)
      here j s e f (inr (x, i, t, k, p, q, l)) = inr (x, i, t, in_tail k, p, q, l)

  -- what was there is found
  pub clones_of-keeps :
      (names r r1 : List Bytes) (name : Bytes)
      → clones_of again gs names r ≡ some r1
      → IsIn name r
      → IsIn name r1
  unfolding clones_of
  clones_of-keeps [] r r1 name h m = subst (IsIn name) (some-injective r r1 h) m
  clones_of-keeps (n ∷ names) r r1 name h m = elim (Option-cases (find_listed n gs)) [
    | inl e ↦ clones_of-keeps names r r1 name (sym (clones_pass n names r e) ∙ h) m
    | inr (j, e) ↦ elim (Option-cases (again j)) [
      | inl f ↦ absurd (none-some r1 (sym (clones_spent n names r j e f) ∙ h))
      | inr (s, f) ↦
          clones_of-keeps names (r ++ s) r1 name (sym (clones_step n names r j s e f) ∙ h)
            (IsIn-append s m)
    ]
  ]

  -- what again finds for a game is among these
  abbrev Within : Listed → List Bytes → Type 0
  Within j r1 =
      (s : List Bytes) × (again j ≡ some s) × ((name : Bytes) → IsIn name s → IsIn name r1)

  son_here :
      (x n : Bytes) (names r r1 : List Bytes) (i j : Listed) (s : List Bytes)
      → find_listed x gs ≡ some i
      → again i ≡ some s
      → clones_of again gs names (r ++ s) ≡ some r1
      → n ≡ x
      → find_listed n gs ≡ some j
      → Within j r1
  son_here x n names r r1 i j s e f h same k =
      let named : i ≡ j = same_game i j (sym (ap (λ y. find_listed y gs) same ∙ e) ∙ k) in
      (
        s,
        sym (ap again named) ∙ f,
        λ name l. clones_of-keeps names (r ++ s) r1 name h (IsIn-append_right r l),
      )

  -- and so is what is found for a son
  pub clones_of_complete :
      (names r r1 : List Bytes) (n : Bytes) (j : Listed)
      → clones_of again gs names r ≡ some r1
      → IsIn n names
      → find_listed n gs ≡ some j
      → Within j r1
  unfolding clones_of
  clones_of_complete [] r r1 n j h m k = elim m [ ]
  clones_of_complete (x ∷ names) r r1 n j h m k = elim (Option-cases (find_listed x gs)) [
    | inl e ↦ elim m [
      | at_head same ↦ absurd (no_game (sym (ap (λ y. find_listed y gs) same ∙ e) ∙ k))
      | in_tail l ↦ clones_of_complete names r r1 n j (sym (clones_pass x names r e) ∙ h) l k
    ]
    | inr (i, e) ↦ elim (Option-cases (again i)) [
      | inl f ↦ absurd (none-some r1 (sym (clones_spent x names r i e f) ∙ h))
      | inr (s, f) ↦
          let rest = sym (clones_step x names r i s e f) ∙ h in
          elim m [
            | at_head same ↦ son_here x n names r r1 i j s e f rest same k
            | in_tail l ↦ clones_of_complete names (r ++ s) r1 n j rest l k
          ]
    ]
  ]
