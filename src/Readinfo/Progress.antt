-- ===== src/Readinfo/Progress.antt =====
-- lib/readinfo.c: what the scanner leaves of the stream.
use advancescan.Base.{
  Bool-cases, Bytes, Option, [], arith, false, inl, inr, length, refl, some, suc, true, zero, ℕ,
  ◌++◌, ◌+◌, ◌<◌, ◌∷◌, ◌≡◌, ◌≢◌, ◌≤◌,
}
use advancescan.Readinfo.{
  InfoToken, Place, Scanned, SkipMode, StringMode, StringStep, broken, count_char, ended,
  get_string, get_symbol, go_on, in_symbol, info_close, info_eof, info_error, info_open,
  info_skip_value, info_string, info_symbol, info_token_get, is_error, isspace, next_token,
  one_value, pairs, plain, skip_value, string_step, token_from,
}

get_symbol-stream :
    (c : ℕ) (s : Bytes) (p : Place) (text : Bytes)
    → length (get_symbol c s p text).stream ≤ 1 + length s
unfolding get_symbol
get_symbol-stream c [] p text = ground arith
get_symbol-stream c (d ∷ s) p text =
    ground (arith, get_symbol-stream d s (count_char d p) (text ++ c ∷ []))

get_symbol-shorter :
    (c : ℕ) (s : Bytes) (p : Place) (text : Bytes)
    → in_symbol c ≡ true
    → length (get_symbol c s p text).stream ≤ length s
unfolding get_symbol
get_symbol-shorter c [] p text i = ground arith
get_symbol-shorter c (d ∷ s) p text i =
    ground (arith, get_symbol-stream d s (count_char d p) (text ++ c ∷ []))

-- what the next character of a string makes of it
pub data StepCase (w : StringStep) : Type 0 where
  string_goes : (m : StringMode) (text : Bytes) → w ≡ go_on m text → StepCase w
  string_ends : w ≡ ended → StepCase w
  string_breaks : w ≡ broken → StepCase w

pub step_case : (w : StringStep) → StepCase w
step_case (go_on m text) = string_goes m text refl
step_case ended = string_ends refl
step_case broken = string_breaks refl

get_string-stream :
    (m : StringMode) (s : Bytes) (p : Place) (text : Bytes)
    → length (get_string m s p text).stream ≤ length s
unfolding get_string
get_string-stream m [] p text = omega arith
get_string-stream m (c ∷ s) p text = elim (step_case (string_step m c text)) [
  | string_goes m1 text1 e ↦
      rw (e, get_string) (let k = get_string-stream m1 s (count_char c p) text1 in omega arith)
  | string_ends e ↦ rw (e, get_string) (omega arith)
  | string_breaks e ↦ rw (e, get_string) (omega arith)
]

token_from-shorter :
    (c : ℕ) (s : Bytes) (p : Place)
    → isspace c ≡ false
    → length (token_from c s p).stream ≤ length s
token_from-shorter c s p i =
    ground (arith, get_string-stream plain s p [], get_symbol-shorter c s p [])

-- A token takes at least one character of the stream, but for the end of the file.
pub data Took (s : Bytes) (t : Scanned) : Type 0 where
  at_eof : t.token ≡ info_eof → length t.stream ≤ length s → Took s t
  took : length t.stream < length s → Took s t

pub info_token_get-Took : (s : Bytes) (p : Place) → Took s (info_token_get s p)
unfolding info_token_get
info_token_get-Took [] p = at_eof refl (omega arith)
info_token_get-Took (c ∷ s) p = elim (Bool-cases (isspace c)) [
  | inl i ↦ rw (i, info_token_get) (longer (info_token_get-Took s (count_char c p)))
  | inr i ↦
      rw (i, info_token_get)
        (let k = token_from-shorter c s (count_char c p) i in took (omega arith))
]
  where
    longer : {t : Scanned} → Took s t → Took (c ∷ s) t
    longer (at_eof e h) = at_eof e (omega arith)
    longer (took h) = took (omega arith)

-- a token that is not the end of the file has taken a character
pub Took-shorter :
    {s : Bytes} {t : Scanned} → Took s t → t.token ≢ info_eof → length t.stream < length s
Took-shorter (at_eof e h) n = absurd (n e)
Took-shorter (took h) n = h

pub next_token-Took : (t : Scanned) → Took t.stream (next_token t)
next_token-Took t = info_token_get-Took t.stream t.place

pub next_token-stream : (t : Scanned) → length (next_token t).stream ≤ length t.stream
next_token-stream t = elim (next_token-Took t) [ at_eof e h ↦ h | took h ↦ omega arith ]

-- a call of info_skip_value returns, with no more of the stream than before
abbrev pub Skips : Option Scanned → Scanned → Type 0
Skips o t = (r : Scanned) × (o ≡ some r) × (length r.stream ≤ length t.stream)

abbrev IsTotal : ℕ → Type 0
IsTotal fuel =
    (m : SkipMode) (s : Bytes) (t : Scanned)
    → Took s t
    → length s < fuel
    → Skips (skip_value fuel m t) t

-- the round behind a token that has taken a character
skip_next :
    (fuel : ℕ) (m : SkipMode) (t : Scanned)
    → IsTotal fuel
    → length t.stream < fuel
    → Skips (skip_value fuel m (next_token t)) t
skip_next fuel m t ih h =
    let (r, p, q) = ih m t.stream (next_token t) (next_token-Took t) h in
    let l = next_token-stream t in (r, p, omega arith)

abbrev scan : InfoToken → Bytes → Bytes → Place → Scanned
scan w b u p = record { token = w; info_buf = b; stream = u; place = p }

skip_value-one :
    (fuel : ℕ) (s : Bytes) (w : InfoToken) (b u : Bytes) (p : Place)
    → IsTotal fuel
    → Took s (scan w b u p)
    → length s < suc fuel
    → Skips (skip_value (suc fuel) one_value (scan w b u p)) (scan w b u p)
unfolding skip_value
skip_value-one fuel s info_open b u p ih k h =
    let less = Took-shorter k (λ n. cc n) in
    skip_next fuel pairs (scan info_open b u p) ih (omega arith)
skip_value-one fuel s info_symbol b u p ih k h = (scan info_symbol b u p, refl, omega arith)
skip_value-one fuel s info_string b u p ih k h = (scan info_string b u p, refl, omega arith)
skip_value-one fuel s w b u p ih k h = (scan info_error b u p, refl, omega arith)

skip_value-pairs :
    (fuel : ℕ) (s : Bytes) (w : InfoToken) (b u : Bytes) (p : Place)
    → IsTotal fuel
    → Took s (scan w b u p)
    → length s < suc fuel
    → Skips (skip_value (suc fuel) pairs (scan w b u p)) (scan w b u p)
unfolding skip_value
skip_value-pairs fuel s info_symbol b u p ih k h =
    let less = Took-shorter k (λ n. cc n) in
    let (r1, q, l) = skip_next fuel one_value (scan info_symbol b u p) ih (omega arith) in
    elim (Bool-cases (is_error r1.token)) [
      | inl x ↦ (r1, rw q (rw x refl), l)
      | inr x ↦
          let (r, y, v) = skip_next fuel pairs r1 ih (omega arith) in
          (r, rw q (rw x y), omega arith)
    ]
skip_value-pairs fuel s info_close b u p ih k h = (scan info_close b u p, refl, omega arith)
skip_value-pairs fuel s w b u p ih k h = (scan info_error b u p, refl, omega arith)

skip_value-IsTotal : (fuel : ℕ) → IsTotal fuel
skip_value-IsTotal zero m s t k h = absurd (omega arith)
skip_value-IsTotal (suc fuel) one_value s t k h =
    skip_value-one fuel s t.token t.info_buf t.stream t.place (skip_value-IsTotal fuel) k h
skip_value-IsTotal (suc fuel) pairs s t k h =
    skip_value-pairs fuel s t.token t.info_buf t.stream t.place (skip_value-IsTotal fuel) k h

-- info_skip_value ends on every stream, however its values are nested, and leaves no more of it
-- than there was.
pub info_skip_value-total :
    (s : Bytes) (p : Place)
    → (r : Scanned) × (info_skip_value s p ≡ some r) × (length r.stream ≤ length s)
unfolding info_skip_value
info_skip_value-total s p =
    let k = info_token_get-Took s p in
    let (r, q, l) =
      skip_value-IsTotal (length s + 1) one_value s (info_token_get s p) k (omega arith) in
    (r, q, elim k [ at_eof e h ↦ omega arith | took h ↦ omega arith ])
