-- ===== src/Zip/Archive/Directory/Signature.antt =====
-- zip.cc: where ecd_find_sig looks.
use native.Mathlib.Decide.{dec_lt}
use advancescan.Base.{
  Bool-cases, Bytes, Option, arith, drop, false, inl, inr, length, none, some, suc, true, zero, ℕ,
  ◌+◌, ◌-◌, ◌<◌, ◌≡◌,
}
use advancescan.Zip.Archive.Directory.{ecd_compare_sig, ecd_find_sig, find_sig_below}
use advancescan.Zip.Format.{eo_fixed}

-- What ecd_find_sig answers: the last place where the signature stands with room for the whole
-- structure behind it, or that there is none.
abbrev pub Located : Bytes → ℕ → Option ℕ → Type 0
Located buf n none = (j : ℕ) → j < n → ecd_compare_sig (drop j buf) ≡ false
Located buf n (some k) =
    (k < n)
    × (ecd_compare_sig (drop k buf) ≡ true)
    × ((j : ℕ) → k < j → j < n → ecd_compare_sig (drop j buf) ≡ false)

find_sig_below-Located : (n : ℕ) (buf : Bytes) → Located buf n (find_sig_below n buf)
unfolding find_sig_below
find_sig_below-Located zero buf = λ j h. absurd (omega arith)
find_sig_below-Located (suc i) buf = elim (Bool-cases (ecd_compare_sig (drop i buf))) [
  | inl here ↦ rw here (omega arith, here, λ j h k. absurd (omega arith))
  | inr not_here ↦ rw not_here (go not_here (find_sig_below i buf) (find_sig_below-Located i buf))
]
  where
    at_i : (j : ℕ) → ¬ (j < i) → j < suc i → j ≡ i
    at_i j p q = omega arith

    extend :
        (j : ℕ)
        → (j < i → ecd_compare_sig (drop j buf) ≡ false)
        → j < suc i
        → ecd_compare_sig (drop i buf) ≡ false
        → ecd_compare_sig (drop j buf) ≡ false
    extend j f h last = elim (dec_lt j i) [ yes p ↦ f p | no p ↦ rw (at_i j p h) last ]

    go :
        ecd_compare_sig (drop i buf) ≡ false
        → (r : Option ℕ) → Located buf i r
        → Located buf (suc i) r
    go last none l = λ j h. extend j (l j) h last
    go last (some k) l = (omega arith, l.1, λ j p h. extend j (λ q. l.2 j p q) h last)

-- ecd_find_sig finds the last signature that has room for the structure behind it, and answers
-- that there is none only if there is none.
pub ecd_find_sig-Located :
    (buf : Bytes) → Located buf (length buf + 1 - eo_fixed) (ecd_find_sig buf)
unfolding ecd_find_sig
ecd_find_sig-Located buf = find_sig_below-Located (length buf + 1 - eo_fixed) buf
