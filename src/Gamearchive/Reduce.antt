-- ===== src/Gamearchive/Reduce.antt =====
-- game.cc: for which lists of games the loop of gamearchive::load that reduces a game returns.
use mathlib.Core.Path.{subst}
use advancescan.Base.{
  Bool-cases, Bytes, List, Option, [], ap, false, inl, inr, none, refl, some, sym, true, ℕ, ◌<◌,
  ◌∙◌, ◌≡◌, ◌≢◌, ◌⊎◌,
}
use advancescan.Gamearchive.{
  ancestors_loop, find_listed, last_round, loop_breaks, one_round, reduce_game, reduced, round_at,
  without_merged, without_samples,
}
use advancescan.Gamearchive.Chains.{GoesOn, ancestors_loop_ends, ancestors_loop_runs}
use advancescan.Gameinfo.{Listed}
use advancescan.Zip.Archive.{bytes_eq}

-- two games of the list, neither of them the one that is reduced, that name each other
pub record AreMutual (of : Listed → Bytes) (gs : List Listed) (me : Bytes) (a b : Listed)
    : Type 0 where
  pub a_found : find_listed a.name gs ≡ some a
  pub b_found : find_listed b.name gs ≡ some b
  pub a_of : of a ≡ b.name
  pub b_of : of b ≡ a.name
  pub a_named : a.name ≢ []
  pub b_named : b.name ≢ []
  pub a_not_me : bytes_eq a.name me ≡ false
  pub b_not_me : bytes_eq b.name me ≡ false
  pub a_not_b : bytes_eq a.name b.name ≡ false
  pub b_not_a : bytes_eq b.name a.name ≡ false

round_on :
    (of : Listed → Bytes) (me : Bytes) (a : Listed) (n : Bytes)
    → of a ≡ n
    → bytes_eq a.name me ≡ false
    → bytes_eq n a.name ≡ false
    → round_at of me a.name (some a) ≡ one_round a
round_on of me a n e f g =
    let h : bytes_eq (of a) a.name ≡ false = ap (λ m. bytes_eq m a.name) e ∙ g in rw (f, h) refl

goes_on :
    (gs : List Listed) (me : Bytes) (a : Listed) (c n : Bytes)
    → c ≡ a.name
    → a.name ≢ []
    → find_listed a.name gs ≡ some a
    → a.romof ≡ n
    → bytes_eq a.name me ≡ false
    → bytes_eq n a.name ≡ false
    → GoesOn (λ j. j.romof) without_merged gs me c n
goes_on gs me a c n e named found of_a not_me other =
    let of = λ (j : Listed). j.romof in
    subst (λ c. GoesOn of without_merged gs me c n) (sym e)
      (named, (a, ap (round_at of me a.name) found ∙ round_on of me a n of_a not_me other, of_a))

-- Where two games name each other as the one whose roms they share, a third game that names the
-- first is never reduced, whatever fuel the loop is given.
pub reduce_game-AreMutual :
    (gs : List Listed) (i a b : Listed) (fuel : ℕ)
    → AreMutual (λ j. j.romof) gs i.name a b
    → i.romof ≡ a.name
    → reduce_game fuel gs i ≡ none
unfolding reduce_game
reduce_game-AreMutual gs i a b fuel h start =
    let of = λ (j : Listed). j.romof in
    let never =
      ancestors_loop_runs of without_merged gs i.name (λ c. (c ≡ a.name) ⊎ (c ≡ b.name)) next fuel
        i.romof (i.roms, i.disks) (inl start) in
    let samples =
      ancestors_loop (λ j. j.sampleof) without_samples gs i.name fuel i.sampleof i.samples in
    ap (λ m. reduced i m samples) never
  where
    next :
        (c : Bytes)
        → (c ≡ a.name) ⊎ (c ≡ b.name)
        → (d : Bytes) × GoesOn (λ j. j.romof) without_merged gs i.name c d
          × ((d ≡ a.name) ⊎ (d ≡ b.name))
    next c (inl e) = (
      b.name,
      goes_on gs i.name a c b.name e h.a_named h.a_found h.a_of h.a_not_me h.b_not_a,
      inr refl,
    )
    next c (inr e) = (
      a.name,
      goes_on gs i.name b c a.name e h.b_named h.b_found h.b_of h.b_not_me h.a_not_b,
      inl refl,
    )

-- where the loop goes on, it has found the game, which is not the one that is reduced, and does not
-- name itself
one_round-found :
    (of : Listed → Bytes) (me c : Bytes) (o : Option Listed) (j : Listed)
    → round_at of me c o ≡ one_round j
    → (o ≡ some j) × (bytes_eq c me ≡ false) × (bytes_eq (of j) j.name ≡ false)
one_round-found of me c none j e = cc e
one_round-found of me c (some g) j e = elim (Bool-cases (bytes_eq c me)) [
  | inl p ↦ absurd (cc (sym (at_me p), e))
  | inr p ↦ elim (Bool-cases (bytes_eq (of g) g.name)) [
    | inl q ↦ absurd (cc (sym (at_self p q), e))
    | inr q ↦
        let same : g ≡ j = cc (sym (at_other p q), e) in
        (ap some same, p, subst (λ x. bytes_eq (of x) x.name ≡ false) same q)
  ]
]
  where
    at_me : bytes_eq c me ≡ true → round_at of me c (some g) ≡ loop_breaks
    at_me p = rw p refl

    at_self :
        bytes_eq c me ≡ false
        → bytes_eq (of g) g.name ≡ true
        → round_at of me c (some g) ≡ last_round g
    at_self p q = rw (p, q) refl

    at_other :
        bytes_eq c me ≡ false
        → bytes_eq (of g) g.name ≡ false
        → round_at of me c (some g) ≡ one_round g
    at_other p q = rw (p, q) refl

-- The rank falls from each name of the list to the ancestor of its game, but for the game that is
-- reduced and for games that are their own ancestor.
abbrev pub Falls : (Listed → Bytes) → List Listed → Bytes → (Bytes → ℕ) → Type 0
Falls of gs me rank =
    (c : Bytes) (j : Listed)
    → find_listed c gs ≡ some j
    → bytes_eq c me ≡ false
    → bytes_eq (of j) j.name ≡ false
    → rank (of j) < rank c

loop_ends_at {ℓ} :
    {A : Type ℓ} (of : Listed → Bytes) (remove : Listed → A → A) (gs : List Listed) (me : Bytes)
    (rank : Bytes → ℕ) (fuel : ℕ) (c : Bytes) (a : A)
    → Falls of gs me rank
    → rank c < fuel
    → (r : A) × (ancestors_loop of remove gs me fuel c a ≡ some r)
loop_ends_at of remove gs me rank fuel c a falls h =
    ancestors_loop_ends of remove gs me rank
      (λ c d g.
        let (n, (j, e, k)) = g in
        let (f, m, s) = one_round-found of me c (find_listed c gs) j e in
        subst (λ d. rank d < rank c) k (falls c j f m s))
      fuel c a h

-- A game is reduced with as much fuel as the ranks of its two names, for ranks, one for romof and
-- one for sampleof, that fall from each game of the list to its ancestor, except from the game that
-- is reduced, and from a game that is its own ancestor: so a game whose samples are its own, and a
-- cycle of ancestors that leads through the game itself, do not keep the loop from its end.
pub reduce_game-ends :
    (gs : List Listed) (i : Listed) (rank rank' : Bytes → ℕ) (fuel : ℕ)
    → Falls (λ j. j.romof) gs i.name rank
    → Falls (λ j. j.sampleof) gs i.name rank'
    → rank i.romof < fuel
    → rank' i.sampleof < fuel
    → (r : Listed) × (reduce_game fuel gs i ≡ some r)
unfolding reduce_game
reduce_game-ends gs i rank rank' fuel falls falls' h k =
    let (rs, e) =
      loop_ends_at (λ j. j.romof) without_merged gs i.name rank fuel i.romof (i.roms, i.disks) falls
        h in
    let (ss, f) =
      loop_ends_at (λ j. j.sampleof) without_samples gs i.name rank' fuel i.sampleof i.samples
        falls' k in
    (
      record i { roms = rs.0; disks = rs.1; samples = ss },
      ap
            (λ m. reduced i m (
              ancestors_loop (λ j. j.sampleof) without_samples gs i.name fuel i.sampleof i.samples))
            e
          ∙ ap (reduced i (some rs)) f,
    )
