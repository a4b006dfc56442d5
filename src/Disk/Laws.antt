-- ===== src/Disk/Laws.antt =====
-- disk.cc: a hash, printed and then read.
use advancescan.Base.{
  Bytes, [], arith, length, ok, refl, replicate, sym, true, ℕ, ◌%◌, ◌*◌, ◌+◌, ◌/◌, ◌<◌, ◌∷◌, ◌≡◌,
}
use advancescan.Disk.{print_digit, print_hash, sha1_of_string}
use advancescan.Strcov.{digit_value, isxdigit, strvhex}

-- twenty bytes
abbrev pub IsBytes : Bytes → Type 0
IsBytes [] = Unit
IsBytes (b ∷ bs) = (b < 256) × IsBytes bs

digit_is : (v : ℕ) → v < 16 → isxdigit (print_digit v) ≡ true
digit_is v h = ground arith

value_of : (v : ℕ) → v < 16 → digit_value (print_digit v) ≡ v
unfolding digit_value
value_of v h = ground arith

read_byte : (b : ℕ) → b < 256 → (b / 16 % 16 * 16 + b % 16) % 256 ≡ b
read_byte b h = omega arith

pub length-print_hash : (hash : Bytes) → length (print_hash hash) ≡ 2 * length hash
length-print_hash [] = refl
length-print_hash (b ∷ hash) = omega (arith, length-print_hash hash)

strvhex-print_hash :
    (hash dst : Bytes)
    → IsBytes hash
    → length dst ≡ length hash
    → strvhex dst (print_hash hash) ≡ ok (hash, [])
unfolding strvhex
strvhex-print_hash [] [] h e = refl
strvhex-print_hash [] (d ∷ dst) h e = absurd (omega arith)
strvhex-print_hash (b ∷ hash) [] h e = absurd (omega arith)
strvhex-print_hash (b ∷ hash) (d ∷ dst) h e =
    rw
      (
        digit_is (b / 16 % 16) (omega arith),
        digit_is (b % 16) (omega arith),
        value_of (b / 16 % 16) (omega arith),
        value_of (b % 16) (omega arith),
        read_byte b (h.0),
        strvhex-print_hash hash dst (h.1) (omega arith),
      )
      refl

-- A hash of 20 bytes, printed, is read back as the same hash.
pub sha1_of_string-print_hash :
    (hash : Bytes) → IsBytes hash → length hash ≡ 20 → sha1_of_string (print_hash hash) ≡ ok hash
unfolding sha1_of_string
sha1_of_string-print_hash hash h e =
    let l : length (print_hash hash) ≡ 40 = omega (arith, length-print_hash hash) in
    rw (l, strvhex-print_hash hash (replicate 20 0) h (sym e)) refl
