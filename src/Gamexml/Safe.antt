-- ===== src/Gamexml/Safe.antt =====
-- gamexml.cc: the constructor of sha1 uses no null pointer.
use advancescan.Base.{
  Bool-cases, Bytes, Result, [], err, failed, inl, inr, length, null_used, ok, replicate, ℕ, ◌==◌,
  ◌>>=◌, ◌∷◌, ◌≢◌,
}
use advancescan.Disk.{sha1_of_string}
use advancescan.Strcov.{isxdigit, push_byte, strvhex}

-- no null pointer is used
abbrev pub IsSafe {ℓ} : {A : Type ℓ} → Result A → Type 0
IsSafe (err e) = e ≢ null_used
IsSafe (ok a) = Unit

push_byte-IsSafe : (b : ℕ) (m : Result (Bytes × Bytes)) → IsSafe m → IsSafe (push_byte b m)
push_byte-IsSafe b (err e) n = n
push_byte-IsSafe b (ok q) n = tt

strvhex-IsSafe : (dst s : Bytes) → IsSafe (strvhex dst s)
unfolding strvhex
strvhex-IsSafe dst [] = tt
strvhex-IsSafe [] (c ∷ s) = elim (Bool-cases (isxdigit c)) [
  | inl e ↦ rw e (λ h. cc h)
  | inr e ↦ rw e tt
]
strvhex-IsSafe (d ∷ dst) (c ∷ []) = elim (Bool-cases (isxdigit c)) [
  | inl e ↦ rw e tt
  | inr e ↦ rw e tt
]
strvhex-IsSafe (d ∷ dst) (c ∷ x ∷ s) = elim (Bool-cases (isxdigit c)) [
  | inr e ↦ rw e tt
  | inl e ↦ elim (Bool-cases (isxdigit x)) [
    | inl k ↦ rw (e, k) (push_byte-IsSafe _ (strvhex dst s) (strvhex-IsSafe dst s))
    | inr k ↦ rw (e, k) tt
  ]
]

then-IsSafe {ℓ κ} :
    {A : Type ℓ} {B : Type κ} (m : Result A) (f : A → Result B)
    → IsSafe m
    → ((a : A) → IsSafe (f a))
    → IsSafe (m >>= f)
then-IsSafe (err e) f n k = n
then-IsSafe (ok a) f n k = k a

pub sha1_of_string-IsSafe : (s : Bytes) → IsSafe (sha1_of_string s)
unfolding sha1_of_string
sha1_of_string-IsSafe s = elim (Bool-cases (length s == 40)) [
  | inr e ↦ rw e (λ h. cc h)
  | inl e ↦ rw e (
      then-IsSafe (strvhex (replicate 20 0) s) _ (strvhex-IsSafe (replicate 20 0) s)
        (λ q. whole q.0 q.1))
]
  where
    whole :
        (hash rest : Bytes) → IsSafe {A = Bytes} (elim rest [ [] ↦ ok hash | _ ∷ _ ↦ err failed ])
    whole hash [] = tt
    whole hash (c ∷ rest) = λ h. cc h
