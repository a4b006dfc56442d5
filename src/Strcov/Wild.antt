-- ===== src/Strcov/Wild.antt =====
-- strcov.c: striwildcmp and the match of a shell pattern.
use advancescan.Base.{
  ==_iff, Bool-cases, Bytes, [], ap, arith, false, inl, inr, refl, sym, true, ℕ, ◌++◌, ◌==◌, ◌↔◌,
  ◌∙◌, ◌∷◌, ◌≡◌, ◌≢◌, ◌⊎◌,
}
use advancescan.Strcov.{striwildcmp, toupper, wild_end, wild_star}

-- A string matches a pattern: `*` stands for any bytes, `?` for one, and another character for
-- itself in either case.
abbrev pub Matches : Bytes → Bytes → Type 0
Matches [] str = str ≡ []
Matches (p ∷ pattern) str =
    ((p ≡ b'*') × ((a b : Bytes) × (str ≡ a ++ b) × Matches pattern b))
    ⊎ ((p ≢ b'*')
        × ((c : ℕ) × (rest : Bytes) × (str ≡ c ∷ rest)
            × ((p ≡ b'?') ⊎ (toupper c ≡ toupper p))
            × Matches pattern rest))

nil_lem : (c : ℕ) (str : Bytes) → striwildcmp [] (c ∷ str) ≡ false
unfolding striwildcmp
nil_lem c str = refl

-- at the end of the string the loop does what its end does
striwildcmp_nil : (pattern : Bytes) → striwildcmp pattern [] ≡ wild_end pattern []
unfolding striwildcmp
striwildcmp_nil [] = refl
striwildcmp_nil (p ∷ pattern) = refl

star_here :
    (pattern str : Bytes)
    → striwildcmp pattern str ≡ true
    → wild_star (striwildcmp pattern) pattern str ≡ true
unfolding wild_star
star_here pattern [] h = sym (striwildcmp_nil pattern) ∙ h
star_here pattern (c ∷ str) h = rw h refl

star_skip :
    (pattern a b : Bytes)
    → striwildcmp pattern b ≡ true
    → wild_star (striwildcmp pattern) pattern (a ++ b) ≡ true
unfolding wild_star
star_skip pattern [] b h = star_here pattern b h
star_skip pattern (c ∷ a) b h = elim (Bool-cases (striwildcmp pattern (c ∷ (a ++ b)))) [
  | inl e ↦ rw e refl
  | inr e ↦ rw e (star_skip pattern a b h)
]

star_some :
    (pattern str : Bytes)
    → wild_star (striwildcmp pattern) pattern str ≡ true
    → (a b : Bytes) × (str ≡ a ++ b) × (striwildcmp pattern b ≡ true)
unfolding wild_star
star_some pattern [] h = ([], [], refl, striwildcmp_nil pattern ∙ h)
star_some pattern (c ∷ str) h = elim (Bool-cases (striwildcmp pattern (c ∷ str))) [
  | inl e ↦ ([], c ∷ str, refl, e)
  | inr e ↦
      let (a, b, s, m) = star_some pattern str (sym (skip e) ∙ h) in (c ∷ a, b, ap (◌∷◌ c) s, m)
]
  where
    skip :
        striwildcmp pattern (c ∷ str) ≡ false
        → wild_star (striwildcmp pattern) pattern (c ∷ str)
          ≡ wild_star (striwildcmp pattern) pattern str
    skip e = rw e refl

-- the end of the string is matched by stars alone
wild_end-Matches : (pattern : Bytes) → wild_end pattern [] ≡ true → Matches pattern []
wild_end-Matches [] h = refl
wild_end-Matches (p ∷ pattern) h = elim (Bool-cases (p == b'*')) [
  | inl e ↦
      let g : wild_end pattern [] ≡ true = cc (h, step e) in
      inl ((==_iff p b'*').0 e, ([], [], refl, wild_end-Matches pattern g))
  | inr e ↦ absurd (cc (h, stop e))
]
  where
    step : (p == b'*') ≡ true → wild_end (p ∷ pattern) [] ≡ wild_end pattern []
    step e = rw e refl

    stop : (p == b'*') ≡ false → wild_end (p ∷ pattern) [] ≡ false
    stop e = rw e refl

Matches-wild_end : (pattern : Bytes) → Matches pattern [] → wild_end pattern [] ≡ true
Matches-wild_end [] m = refl
Matches-wild_end (p ∷ pattern) (inl (star, (a, b, s, m))) =
    rw ((==_iff p b'*').1 star) (Matches-wild_end pattern (rw (none_left a b s) at m))
  where
    none_left : (a b : Bytes) → [] ≡ a ++ b → b ≡ []
    none_left [] b s = sym s
    none_left (x ∷ a) b s = absurd cc
Matches-wild_end (p ∷ pattern) (inr (star, (c, rest, s, q, m))) = absurd cc

module _ (p c : ℕ) (pattern str : Bytes) where
  at_star :
      (p == b'*') ≡ true
      → striwildcmp (p ∷ pattern) (c ∷ str) ≡ wild_star (striwildcmp pattern) pattern (c ∷ str)
  unfolding striwildcmp
  at_star e = rw e refl

  -- the character of the pattern takes this one
  at_taken :
      (p == b'*') ≡ false
      → (p ≡ b'?') ⊎ (toupper c ≡ toupper p)
      → striwildcmp (p ∷ pattern) (c ∷ str) ≡ striwildcmp pattern str
  unfolding striwildcmp
  at_taken e (inl q) = rw (e, (==_iff p b'?').1 q) refl
  at_taken e (inr q) = elim (Bool-cases (p == b'?')) [
    | inl f ↦ rw (e, f) refl
    | inr f ↦ rw (e, f, (==_iff (toupper c) (toupper p)).1 q) refl
  ]

  at_other :
      (p == b'*') ≡ false
      → (p == b'?') ≡ false
      → (toupper c == toupper p) ≡ false
      → striwildcmp (p ∷ pattern) (c ∷ str) ≡ false
  unfolding striwildcmp
  at_other e f g = rw (e, f, g) refl

not_eq : (a b : ℕ) → (a == b) ≡ false → a ≢ b
not_eq a b h = ground arith

-- one step, from the same about what is left of the pattern
module _ (p c : ℕ) (pattern str : Bytes)
    (rest_lem : (b : Bytes) → (striwildcmp pattern b ≡ true) ↔ Matches pattern b) where
  taken :
      (p == b'*') ≡ false
      → (p ≡ b'?') ⊎ (toupper c ≡ toupper p)
      → striwildcmp (p ∷ pattern) (c ∷ str) ≡ true
      → Matches (p ∷ pattern) (c ∷ str)
  taken e q h = inr (
    not_eq p b'*' e,
    (c, str, refl, q, (rest_lem str).0 (sym (at_taken p c pattern str e q) ∙ h)),
  )

  found :
      ((p == b'*') ≡ true) ⊎ ((p == b'*') ≡ false)
      → ((p == b'?') ≡ true) ⊎ ((p == b'?') ≡ false)
      → ((toupper c == toupper p) ≡ true) ⊎ ((toupper c == toupper p) ≡ false)
      → striwildcmp (p ∷ pattern) (c ∷ str) ≡ true
      → Matches (p ∷ pattern) (c ∷ str)
  found (inl e) _ _ h =
      let (a, b, s, m) = star_some pattern (c ∷ str) (sym (at_star p c pattern str e) ∙ h) in
      inl ((==_iff p b'*').0 e, (a, b, s, (rest_lem b).0 m))
  found (inr e) (inl f) _ h = taken e (inl ((==_iff p b'?').0 f)) h
  found (inr e) (inr f) (inl g) h = taken e (inr ((==_iff (toupper c) (toupper p)).0 g)) h
  found (inr e) (inr f) (inr g) h = absurd (cc (h, at_other p c pattern str e f g))

  finds : Matches (p ∷ pattern) (c ∷ str) → striwildcmp (p ∷ pattern) (c ∷ str) ≡ true
  finds (inl (e, (a, b, s, m))) =
      at_star p c pattern str ((==_iff p b'*').1 e)
      ∙ ap (wild_star (striwildcmp pattern) pattern) s
      ∙ star_skip pattern a b ((rest_lem b).1 m)
  finds (inr (n, (d, rest, s, q, m))) = elim (Bool-cases (p == b'*')) [
    | inl e ↦ absurd (n ((==_iff p b'*').0 e))
    | inr e ↦
        let same : c ≡ d = cc in
        let left : str ≡ rest = cc in
        at_taken p c pattern str e (rw same q) ∙ (rest_lem str).1 (rw left m)
  ]

-- striwildcmp finds a match exactly where the string matches the pattern.
pub striwildcmp-Matches :
    (pattern str : Bytes) → (striwildcmp pattern str ≡ true) ↔ Matches pattern str
striwildcmp-Matches [] [] = ((λ h. refl), (λ h. striwildcmp_nil []))
striwildcmp-Matches [] (c ∷ str) = ((λ h. absurd (cc (h, nil_lem c str))), (λ h. absurd cc))
striwildcmp-Matches (p ∷ pattern) [] = (
  (λ h. wild_end-Matches (p ∷ pattern) (sym (striwildcmp_nil (p ∷ pattern)) ∙ h)),
  (λ m. striwildcmp_nil (p ∷ pattern) ∙ Matches-wild_end (p ∷ pattern) m),
)
striwildcmp-Matches (p ∷ pattern) (c ∷ str) = (
  found p c pattern str (striwildcmp-Matches pattern) (Bool-cases (p == b'*'))
      (Bool-cases (p == b'?')) (Bool-cases (toupper c == toupper p)),
  finds p c pattern str (striwildcmp-Matches pattern),
)
