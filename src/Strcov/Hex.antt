-- ===== src/Strcov/Hex.antt =====
-- strcov.c: strvhex and the room in its vector.
use advancescan.Base.{
  Bool-cases, Bytes, [], ap, arith, inl, inr, length, ok, refl, suc, ◌*◌, ◌∷◌, ◌≡◌, ◌≤◌,
}
use advancescan.Strcov.{isxdigit, strvhex}

-- Where the string has at most two characters for each byte of the vector, strvhex writes nothing
-- behind the vector's end, and the vector keeps its length.
pub strvhex-room :
    (dst s : Bytes)
    → length s ≤ 2 * length dst
    → (q : Bytes × Bytes) × (strvhex dst s ≡ ok q) × (length q.0 ≡ length dst)
unfolding strvhex
strvhex-room dst [] h = ((dst, []), refl, refl)
strvhex-room [] (c ∷ s) h = absurd (omega arith)
strvhex-room (d ∷ dst) (c ∷ []) h = elim (Bool-cases (isxdigit c)) [
  | inl e ↦ rw e ((_, refl, refl))
  | inr e ↦ rw e ((_, refl, refl))
]
strvhex-room (d ∷ dst) (c ∷ e ∷ s) h = elim (Bool-cases (isxdigit c)) [
  | inl p ↦ elim (Bool-cases (isxdigit e)) [
    | inl q ↦
        let (r, found, l) = strvhex-room dst s (omega arith) in
        rw (p, q, found) ((_, refl, ap suc l))
    | inr q ↦ rw (p, q) ((_, refl, refl))
  ]
  | inr p ↦ rw p ((_, refl, refl))
]
