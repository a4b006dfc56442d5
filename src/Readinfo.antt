-- ===== src/Readinfo.antt =====
-- lib/readinfo.c: the scanner of the information files. The stream is the bytes that are left, and
-- EOF is its end. `isspace` is that of the C locale.
pub mod Progress
pub mod Spelling
pub mod Reading
use advancescan.Base.{
  Bool, Bytes, Option, [], false, if◌then◌else◌, leb, length, none, not, some, suc, true, zero, ℕ,
  ◌%◌, ◌&&◌, ◌*◌, ◌++◌, ◌+◌, ◌==◌, ◌||◌, ◌∷◌,
}
use advancescan.Strcov.{digit_value, isxdigit}

abbrev pub isspace : ℕ → Bool
isspace c = c == 32 || (leb 9 c && leb c 13)

-- info_t
pub data InfoToken : Type 0 where
  info_error info_eof info_symbol info_open info_close info_string : InfoToken

-- info_row, info_col and info_pos, which are unsigned
pub record Place : Type 0 where
  pub info_row : ℕ
  pub info_col : ℕ
  pub info_pos : ℕ

abbrev pub new_place : Place
new_place = record { info_row = 0; info_col = 0; info_pos = 0 }

-- what info_getc counts
abbrev pub count_char : ℕ → Place → Place
count_char c p =
    if c == b'\n'
    then record {
      info_row = (p.info_row + 1) % 4294967296;
      info_col = 0;
      info_pos = (p.info_pos + 1) % 4294967296;
    }
    else record {
      info_row = p.info_row;
      info_col = (p.info_col + 1) % 4294967296;
      info_pos = (p.info_pos + 1) % 4294967296;
    }

-- what info_ungetc counts
abbrev pub uncount_char : Place → Place
uncount_char p = record p {
  info_col = (p.info_col + 4294967295) % 4294967296;
  info_pos = (p.info_pos + 4294967295) % 4294967296;
}

-- A token, the buffer that holds its text, the stream behind it, and the place there.
pub record Scanned : Type 0 where
  pub token : InfoToken
  pub info_buf : Bytes
  pub stream : Bytes
  pub place : Place

-- the characters that go on with a symbol
abbrev pub in_symbol : ℕ → Bool
in_symbol c = not (isspace c) && not (c == b'(') && not (c == b')') && not (c == 34)

-- the end of get_symbol: a space is left out, any other character goes back
abbrev pub end_symbol : ℕ → Bytes → Place → Bytes → Scanned
end_symbol c s p text = elim (isspace c) [
  | true ↦ record { token = info_symbol; info_buf = text; stream = s; place = p }
  | false ↦ record { token = info_symbol; info_buf = text; stream = c ∷ s; place = uncount_char p }
]

-- get_symbol(c), where the stream stands behind c
unfoldable pub get_symbol : ℕ → Bytes → Place → Bytes → Scanned
get_symbol c [] p text = elim (in_symbol c) [
  | true ↦ record { token = info_symbol; info_buf = text ++ c ∷ []; stream = []; place = p }
  | false ↦ end_symbol c [] p text
]
get_symbol c (d ∷ s) p text = elim (in_symbol c) [
  | true ↦ get_symbol d s (count_char d p) (text ++ c ∷ [])
  | false ↦ end_symbol c (d ∷ s) p text
]

-- where get_string stands: between two characters, behind a `\`, behind `\x`, and behind the
-- first digit of `\x`
pub data StringMode : Type 0 where
  plain escape first_digit : StringMode
  second_digit : ℕ → StringMode

-- what a character makes of it
pub data StringStep : Type 0 where
  go_on : StringMode → Bytes → StringStep
  ended broken : StringStep

-- the cases of the switch that add one character
abbrev pub escaped : ℕ → Option ℕ
escaped c =
    if c == b'a'
    then some 7
    else if c == b'b'
    then some 8
    else if c == b'f'
    then some 12
    else if c == b'n'
    then some 10
    else if c == b'r'
    then some 13
    else if c == b't'
    then some 9
    else if c == b'v'
    then some 11
    else if c == 92 || c == b'?' || c == 39 || c == 34
    then some c
    else none

abbrev pub escape_step : ℕ → Option ℕ → Bytes → StringStep
escape_step c (some b) text = go_on plain (text ++ b ∷ [])
escape_step c none text = if c == b'x' then go_on first_digit text else broken

unfoldable pub string_step : StringMode → ℕ → Bytes → StringStep
string_step plain c text =
    if c == 34 then ended else if c == 92 then go_on escape text else go_on plain (text ++ c ∷ [])
string_step escape c text = escape_step c (escaped c) text
string_step first_digit c text = if isxdigit c then go_on (second_digit c) text else broken
string_step (second_digit d) c text =
    if isxdigit c
    then go_on plain (text ++ (digit_value d * 16 + digit_value c) % 256 ∷ [])
    else broken

-- get_string
unfoldable pub get_string : StringMode → Bytes → Place → Bytes → Scanned
get_string m [] p text = record { token = info_error; info_buf = text; stream = []; place = p }
get_string m (c ∷ s) p text = elim (string_step m c text) [
  | go_on m1 text1 ↦ get_string m1 s (count_char c p) text1
  | ended ↦ record { token = info_string; info_buf = text; stream = s; place = count_char c p }
  | broken ↦ record { token = info_error; info_buf = text; stream = s; place = count_char c p }
]

abbrev pub bare : InfoToken → Bytes → Place → Scanned
bare t s p = record { token = t; info_buf = []; stream = s; place = p }

-- the switch of info_token_get, where c is counted
abbrev pub token_from : ℕ → Bytes → Place → Scanned
token_from c s p =
    if c == b'('
    then bare info_open s p
    else if c == b')'
    then bare info_close s p
    else if c == 34
    then get_string plain s p []
    else get_symbol c s p []

-- info_token_get
unfoldable pub info_token_get : Bytes → Place → Scanned
info_token_get [] p = bare info_eof [] p
info_token_get (c ∷ s) p = elim (isspace c) [
  | true ↦ info_token_get s (count_char c p)
  | false ↦ token_from c s (count_char c p)
]

-- info_text_get: the buffer as a string of C
unfoldable pub text_get : Bytes → Bytes
text_get [] = []
text_get (c ∷ text) = let rest = text_get text in if c == 0 then [] else c ∷ rest

-- the next token behind one
abbrev pub next_token : Scanned → Scanned
next_token t = info_token_get t.stream t.place

abbrev pub skip_error : Scanned → Scanned
skip_error t = record t { token = info_error }

abbrev pub is_error : InfoToken → Bool
is_error info_error = true
is_error _ = false

pub data SkipMode : Type 0 where
  one_value pairs : SkipMode

-- info_skip_value, behind its first token, and its loop, on fuel; `none` where the fuel is spent
unfoldable pub skip_value : ℕ → SkipMode → Scanned → Option Scanned
skip_value zero m t = none
skip_value (suc fuel) one_value t = elim t.token [
  | info_open ↦ skip_value fuel pairs (next_token t)
  | info_symbol ↦ some t
  | info_string ↦ some t
  | _ ↦ some (skip_error t)
]
skip_value (suc fuel) pairs t = elim t.token [
  | info_close ↦ some t
  | info_symbol ↦ elim (skip_value fuel one_value (next_token t)) [
    | none ↦ none
    | some t1 ↦ elim (is_error t1.token) [
      | true ↦ some t1
      | false ↦ skip_value fuel pairs (next_token t1)
    ]
  ]
  | _ ↦ some (skip_error t)
]

-- info_skip_value
unfoldable pub info_skip_value : Bytes → Place → Option Scanned
info_skip_value s p = skip_value (length s + 1) one_value (info_token_get s p)
