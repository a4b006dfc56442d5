-- ===== src/Game/Sizes.antt =====
-- game.cc: the size that good_rom_size and good_sample_size report.
use advancescan.Base.{
  Bool, Bool-cases, List, [], arith, false, if◌then◌else◌, inl, inr, ltb, refl, sym, true, ℕ, ◌&&◌,
  ◌<◌, ◌==◌, ◌||◌, ◌∷◌, ◌≡◌, ◌≤◌, ◌⊎◌,
}
use advancescan.Game.{Infopath, least_good}
use mathlib.Core.Path.{subst}

-- every good path has a size
abbrev pub HasSizes : List Infopath → Type 0
HasSizes [] = Unit
HasSizes (i ∷ paths) = (i.good ≡ true → 0 < i.size) × HasSizes paths

-- no good path is smaller than n, which is not 0 if there is one
abbrev pub IsUpTo : ℕ → List Infopath → Type 0
IsUpTo n [] = Unit
IsUpTo n (i ∷ paths) = (i.good ≡ true → (0 < n) × (n ≤ i.size)) × IsUpTo n paths

-- n is the size of a good path, or `start`
abbrev pub IsOneOf : ℕ → ℕ → List Infopath → Type 0
IsOneOf start n [] = n ≡ start
IsOneOf start n (i ∷ paths) = ((i.good ≡ true) × (n ≡ i.size)) ⊎ IsOneOf start n paths

-- n is the least of the sizes of the good paths and of `start`, where 0 stands for no start
abbrev pub Least : ℕ → ℕ → List Infopath → Type 0
Least start n paths = (0 < start → (0 < n) × (n ≤ start)) × IsUpTo n paths × IsOneOf start n paths

-- one path more in front, whose size is taken
taken :
    (start n : ℕ) (i : Infopath) (paths : List Infopath)
    → i.good ≡ true
    → 0 < i.size
    → (0 < start → i.size < start)
    → Least i.size n paths
    → Least start n (i ∷ paths)
taken start n i paths g p less (bound, up, one) =
    let (q, r) = bound p in ((λ s. (q, below (less s) r)), ((λ g. (q, r)), up), from paths one)
  where
    below : i.size < start → n ≤ i.size → n ≤ start
    below a b = omega arith

    from : (ps : List Infopath) → IsOneOf i.size n ps → IsOneOf start n (i ∷ ps)
    from [] o = inl (g, o)
    from (x ∷ ps) (inl o) = inr (inl o)
    from (x ∷ ps) (inr o) = elim (from ps o) [ inl e ↦ inl e | inr e ↦ inr (inr e) ]

-- one path more in front, which is not good or not smaller
passed :
    (start n : ℕ) (i : Infopath) (paths : List Infopath)
    → (i.good ≡ true → (0 < start) × (start ≤ i.size))
    → Least start n paths
    → Least start n (i ∷ paths)
passed start n i paths f (bound, up, one) = (bound, ((λ g. least g), up), inr one)
  where
    least : i.good ≡ true → (0 < n) × (n ≤ i.size)
    least g = let (s, t) = f g in let (q, r) = bound s in (q, omega arith)

Least-nil : (start : ℕ) → Least start (least_good start []) []
unfolding least_good
Least-nil start = ((λ p. (p, omega arith)), tt, refl)

least_good_cons :
    (start : ℕ) (i : Infopath) (paths : List Infopath) (b : Bool)
    → (i.good && (start == 0 || ltb i.size start)) ≡ b
    → least_good start (i ∷ paths) ≡ least_good (if b then i.size else start) paths
unfolding least_good
least_good_cons start i paths b e = rw e refl

taken_good :
    (i : Infopath) (start : ℕ) → (i.good && (start == 0 || ltb i.size start)) ≡ true → i.good ≡ true
taken_good i start e = ground (arith, e)

taken_less :
    (i : Infopath) (start : ℕ)
    → (i.good && (start == 0 || ltb i.size start)) ≡ true
    → 0 < start
    → i.size < start
taken_less i start e s = ground (arith, e)

passed_bound :
    (i : Infopath) (start : ℕ)
    → (i.good && (start == 0 || ltb i.size start)) ≡ false
    → i.good ≡ true
    → (0 < start) × (start ≤ i.size)
passed_bound i start e g = ground (arith, e, g)

-- The loop of good_rom_size and good_sample_size, where every good archive has a size: from any
-- start, of which 0 stands for none, the result is not above the start or the size of a good
-- archive, it is not 0 where there is one of them, and it is one of them or the start.
pub least_good-Least :
    (start : ℕ) (paths : List Infopath)
    → HasSizes paths
    → Least start (least_good start paths) paths
least_good-Least start [] h = Least-nil start
least_good-Least start (i ∷ paths) h =
    elim (Bool-cases (i.good && (start == 0 || ltb i.size start))) [
      | inl e ↦
          let good = taken_good i start e in
          subst (λ n. Least start n (i ∷ paths)) (sym (least_good_cons start i paths true e))
            (taken start (least_good i.size paths) i paths good (h.0 good) (taken_less i start e)
              (least_good-Least i.size paths (h.1)))
      | inr e ↦
          subst (λ n. Least start n (i ∷ paths)) (sym (least_good_cons start i paths false e))
            (passed start (least_good start paths) i paths (passed_bound i start e)
              (least_good-Least start paths (h.1)))
    ]
