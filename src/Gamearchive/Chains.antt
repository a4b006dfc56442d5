-- ===== src/Gamearchive/Chains.antt =====
-- game.cc: where the loops over the ancestors of a game end, and where they do not.
use advancescan.Base.{
  Bytes, List, [], ap, arith, none, refl, some, suc, zero, ℕ, ◌<◌, ◌∙◌, ◌∷◌, ◌≡◌, ◌≢◌,
}
use advancescan.Gamearchive.{
  ChainRound, ancestors_loop, find_listed, last_round, loop_breaks, one_round, round_at,
}
use advancescan.Gameinfo.{Listed}

module _ {ℓ} {A : Type ℓ} (of : Listed → Bytes) (remove : Listed → A → A) (gs : List Listed)
    (me : Bytes) where
  -- the loop goes on from this name to that one
  abbrev pub GoesOn : Bytes → Bytes → Type 0
  GoesOn c d =
      (c ≢ []) × ((j : Listed) × (round_at of me c (find_listed c gs) ≡ one_round j) × (of j ≡ d))

  -- Names from each of which the loop goes on to one of them: from there it never ends.
  pub ancestors_loop_runs :
      (P : Bytes → Type 0)
      → ((c : Bytes) → P c → (d : Bytes) × GoesOn c d × P d)
      → (fuel : ℕ) (c : Bytes) (a : A) → P c
      → ancestors_loop of remove gs me fuel c a ≡ none
  unfolding ancestors_loop
  ancestors_loop_runs P next zero c a p = refl
  ancestors_loop_runs P next (suc fuel) [] a p = let (d, g, q) = next [] p in absurd (g.0 refl)
  ancestors_loop_runs P next (suc fuel) (x ∷ c) a p =
      let (d, (n, (j, e, h)), q) = next (x ∷ c) p in
      rw (e, ancestors_loop)
        (ap (λ w. ancestors_loop of remove gs me fuel w (remove j a)) h
          ∙ ancestors_loop_runs P next fuel d (remove j a) q)

  -- how a round ends
  data RoundCase (r : ChainRound) : Type 0 where
    it_breaks : r ≡ loop_breaks → RoundCase r
    it_is_last : (j : Listed) → r ≡ last_round j → RoundCase r
    it_goes_on : (j : Listed) → r ≡ one_round j → RoundCase r

  round_case : (r : ChainRound) → RoundCase r
  round_case loop_breaks = it_breaks refl
  round_case (last_round j) = it_is_last j refl
  round_case (one_round j) = it_goes_on j refl

  -- A rank that falls whenever the loop goes on: it ends, within as many rounds.
  pub ancestors_loop_ends :
      (rank : Bytes → ℕ)
      → ((c d : Bytes) → GoesOn c d → rank d < rank c)
      → (fuel : ℕ) (c : Bytes) (a : A) → rank c < fuel
      → (r : A) × (ancestors_loop of remove gs me fuel c a ≡ some r)
  unfolding ancestors_loop
  ancestors_loop_ends rank falls zero c a h = absurd (omega arith)
  ancestors_loop_ends rank falls (suc fuel) [] a h = (a, refl)
  ancestors_loop_ends rank falls (suc fuel) (x ∷ c) a h =
      elim (round_case (round_at of me (x ∷ c) (find_listed (x ∷ c) gs))) [
        | it_breaks e ↦ (a, rw (e, ancestors_loop) refl)
        | it_is_last j e ↦ (remove j a, rw (e, ancestors_loop) refl)
        | it_goes_on j e ↦
            let less = falls (x ∷ c) (of j) ((λ n. cc n), (j, e, refl)) in
            let (r, p) = ancestors_loop_ends rank falls fuel (of j) (remove j a) (omega arith) in
            (r, rw (e, ancestors_loop) p)
      ]
