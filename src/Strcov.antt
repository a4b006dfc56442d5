-- ===== src/Strcov.antt =====
-- strcov.c: striwildcmp, strdec, strhex and strvhex. A C string is the list of its bytes without
-- the closing 0; a pointer into it is the list of what stands from there on. An unsigned wraps
-- at 2 ^ 32.
pub mod Wild
pub mod Hex
use advancescan.Base.{
  Bool, Bytes, Result, [], err, false, if◌then◌else◌, leb, not, ok, overrun, true, ℕ, ◌%◌, ◌&&◌,
  ◌*◌, ◌+◌, ◌-◌, ◌==◌, ◌>>=◌, ◌||◌, ◌∷◌,
}

-- <ctype.h>, in the C locale
abbrev pub isdigit : ℕ → Bool
isdigit c = leb 48 c && leb c 57

abbrev pub toupper : ℕ → ℕ
toupper c = if leb 97 c && leb c 122 then c - 32 else c

abbrev pub isxdigit : ℕ → Bool
isxdigit c = isdigit c || (leb 97 c && leb c 102) || (leb 65 c && leb c 70)

-- The end of striwildcmp: skip the `*` left, then both strings must be over.
abbrev pub wild_end : Bytes → Bytes → Bool
wild_end [] [] = true
wild_end [] (c ∷ str) = false
wild_end (p ∷ pattern) str = if p == b'*' then wild_end pattern str else false

-- The loop behind a `*`: try every place of the string, then go on at its end.
unfoldable pub wild_star : (Bytes → Bool) → Bytes → Bytes → Bool
wild_star again pattern [] = wild_end pattern []
wild_star again pattern (c ∷ str) = if again (c ∷ str) then true else wild_star again pattern str

-- striwildcmp; `true` stands for its result 0, a match.
unfoldable pub striwildcmp : Bytes → Bytes → Bool
striwildcmp [] str = wild_end [] str
striwildcmp (p ∷ pattern) [] = wild_end (p ∷ pattern) []
striwildcmp (p ∷ pattern) (c ∷ str) =
    let rest = striwildcmp pattern str in
    if p == b'*'
    then wild_star (striwildcmp pattern) pattern (c ∷ str)
    else if p == b'?'
    then rest
    else if toupper c == toupper p
    then rest
    else false

-- strdec: the value, and the pointer *e
unfoldable pub strdec_loop : ℕ → Bytes → ℕ × Bytes
strdec_loop v [] = (v, [])
strdec_loop v (c ∷ s) =
    if not (isdigit c) then (0, c ∷ s) else strdec_loop ((v * 10 + (c - 48)) % 4294967296) s

abbrev pub strdec : Bytes → ℕ × Bytes
strdec s = strdec_loop 0 s

-- The value of a hexadecimal digit.
unfoldable pub digit_value : ℕ → ℕ
digit_value c = if leb 48 c && leb c 57 then c - 48 else toupper c - 65 + 10

-- strhex: the value, and the pointer *e
unfoldable pub strhex_loop : ℕ → Bytes → ℕ × Bytes
strhex_loop v [] = (v, [])
strhex_loop v (c ∷ s) =
    if not (isxdigit c) then (v, c ∷ s) else strhex_loop ((v * 16 + digit_value c) % 4294967296) s

abbrev pub strhex : Bytes → ℕ × Bytes
strhex s = strhex_loop 0 s

-- One more byte of the vector stands before what is written behind it.
abbrev pub push_byte : ℕ → Result (Bytes × Bytes) → Result (Bytes × Bytes)
push_byte b r = r >>= λ q. ok (b ∷ q.0, q.1)

-- strvhex: the vector from dst + i on, and the pointer *e. A write behind the vector's end is
-- `err overrun`.
unfoldable pub strvhex : Bytes → Bytes → Result (Bytes × Bytes)
strvhex dst [] = ok (dst, [])
strvhex [] (c ∷ s) = if isxdigit c then err overrun else ok ([], c ∷ s)
strvhex (d ∷ dst) (c ∷ []) =
    if isxdigit c then ok (digit_value c * 16 % 256 ∷ dst, []) else ok (d ∷ dst, c ∷ [])
strvhex (d ∷ dst) (c ∷ e ∷ s) =
    let rest = strvhex dst s in
    if isxdigit c
    then if isxdigit e
      then push_byte ((digit_value c * 16 + digit_value e) % 256) rest
      else ok (digit_value c * 16 % 256 ∷ dst, e ∷ s)
    else ok (d ∷ dst, c ∷ e ∷ s)
