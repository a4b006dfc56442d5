-- ===== src/Readinfo/Spelling.antt =====
-- lib/readinfo.c: the texts that a token can have, stated apart from the scanner.
use mathlib.Core.Path.{subst}
use advancescan.Base.{
  Bytes, [], ap, append-nil, append_assoc, false, refl, some, sym, true, ℕ, ◌%◌, ◌*◌, ◌++◌, ◌+◌,
  ◌==◌, ◌∷◌, ◌≡◌,
}
use advancescan.Readinfo.{
  InfoToken, Place, Scanned, StringMode, count_char, escape, escape_step, escaped, first_digit,
  get_string, get_symbol, go_on, in_symbol, info_string, info_symbol, plain, second_digit,
  string_step,
}
use advancescan.Strcov.{digit_value, isxdigit}
use advancescan.Zip.Archive.Save.Layout.{All}

-- how a string may be spelled between its quotes
pub data Spells : Bytes → Bytes → Type 0 where
  nothing : Spells [] []
  as_it_is :
      {src text : Bytes} (c : ℕ)
      → (c == 34) ≡ false
      → (c == 92) ≡ false
      → Spells src text
      → Spells (c ∷ src) (c ∷ text)
  by_letter :
      {src text : Bytes} (c b : ℕ)
      → escaped c ≡ some b
      → Spells src text
      → Spells (92 ∷ c ∷ src) (b ∷ text)
  by_digits :
      {src text : Bytes} (d e : ℕ)
      → isxdigit d ≡ true
      → isxdigit e ≡ true
      → Spells src text
      → Spells (92 ∷ b'x' ∷ d ∷ e ∷ src) ((digit_value d * 16 + digit_value e) % 256 ∷ text)

-- what a call of the scanner gives, apart from the place
pub record Gives (r : Scanned) (w : InfoToken) (text rest : Bytes) : Type 0 where
  pub token_is : r.token ≡ w
  pub text_is : r.info_buf ≡ text
  pub stream_is : r.stream ≡ rest

pub Gives-text :
    {r : Scanned} {w : InfoToken} {t t' rest : Bytes}
    → t ≡ t'
    → Gives r w t rest
    → Gives r w t' rest
Gives-text {r} {w} {rest = rest} e g = subst (λ t. Gives r w t rest) e g

-- a character of a string that goes on
Gives-step :
    (m : StringMode) (c : ℕ) (buf s : Bytes) (p : Place) {m1 : StringMode} {buf1 : Bytes}
    {w : InfoToken} {t rest : Bytes}
    → string_step m c buf ≡ go_on m1 buf1
    → Gives (get_string m1 s (count_char c p) buf1) w t rest
    → Gives (get_string m (c ∷ s) p buf) w t rest
unfolding get_string
Gives-step m c buf s p e g = rw (e, get_string) g

step_backslash : (buf : Bytes) → string_step plain 92 buf ≡ go_on escape buf
unfolding string_step
step_backslash buf = refl

step_x : (buf : Bytes) → string_step escape b'x' buf ≡ go_on first_digit buf
unfolding string_step
step_x buf = refl

get_string_end :
    (rest : Bytes) (p : Place) (buf : Bytes)
    → Gives (get_string plain (34 ∷ rest) p buf) info_string (buf ++ []) rest
unfolding get_string string_step
get_string_end rest p buf = record {
  token_is = refl;
  text_is = sym (append-nil buf);
  stream_is = refl;
}

step_plain :
    (c : ℕ) (buf : Bytes)
    → (c == 34) ≡ false
    → (c == 92) ≡ false
    → string_step plain c buf ≡ go_on plain (buf ++ c ∷ [])
unfolding string_step
step_plain c buf n m = rw (n, m) refl

step_letter :
    (c b : ℕ) (buf : Bytes)
    → escaped c ≡ some b
    → string_step escape c buf ≡ go_on plain (buf ++ b ∷ [])
unfolding string_step
step_letter c b buf e = ap (λ o. escape_step c o buf) e

step_digit :
    (d : ℕ) (buf : Bytes)
    → isxdigit d ≡ true
    → string_step first_digit d buf ≡ go_on (second_digit d) buf
unfolding string_step
step_digit d buf i = rw i refl

step_digits :
    (d e : ℕ) (buf : Bytes)
    → isxdigit e ≡ true
    → string_step (second_digit d) e buf
      ≡ go_on plain (buf ++ (digit_value d * 16 + digit_value e) % 256 ∷ [])
unfolding string_step
step_digits d e buf i = rw i refl

-- the text of the string is added to what is in the buffer
pub get_string-Gives :
    {src text : Bytes} (rest : Bytes) (p : Place) (buf : Bytes)
    → Spells src text
    → Gives (get_string plain (src ++ 34 ∷ rest) p buf) info_string (buf ++ text) rest
get_string-Gives rest p buf nothing = get_string_end rest p buf
get_string-Gives rest p buf (as_it_is {src = src} {text = text} c n m w) =
    Gives-step plain c buf (src ++ 34 ∷ rest) p (step_plain c buf n m) (
      Gives-text (append_assoc buf (c ∷ []) text)
        (get_string-Gives rest (count_char c p) (buf ++ c ∷ []) w))
get_string-Gives rest p buf (by_letter {src = src} {text = text} c b e w) =
    let p1 = count_char 92 p in
    let left = src ++ 34 ∷ rest in
    Gives-step plain 92 buf (c ∷ left) p (step_backslash buf) (
      Gives-step escape c buf left p1 (step_letter c b buf e) (
        Gives-text (append_assoc buf (b ∷ []) text)
          (get_string-Gives rest (count_char c p1) (buf ++ b ∷ []) w)))
get_string-Gives rest p buf (by_digits {src = src} {text = text} d e i j w) =
    let b = (digit_value d * 16 + digit_value e) % 256 in
    let p1 = count_char 92 p in
    let p2 = count_char b'x' p1 in
    let p3 = count_char d p2 in
    let left = src ++ 34 ∷ rest in
    Gives-step plain 92 buf (b'x' ∷ d ∷ e ∷ left) p (step_backslash buf) (
      Gives-step escape b'x' buf (d ∷ e ∷ left) p1 (step_x buf) (
        Gives-step first_digit d buf (e ∷ left) p2 (step_digit d buf i) (
          Gives-step (second_digit d) e buf left p3 (step_digits d e buf j) (
            Gives-text (append_assoc buf (b ∷ []) text)
              (get_string-Gives rest (count_char e p3) (buf ++ b ∷ []) w)))))

abbrev pub AllSymbol : Bytes → Type 0
AllSymbol s = All (λ c. in_symbol c ≡ true) s

get_symbol_space :
    (rest : Bytes) (p : Place) (buf : Bytes) → Gives (get_symbol 32 rest p buf) info_symbol buf rest
unfolding get_symbol
get_symbol_space [] p buf = record { token_is = refl; text_is = refl; stream_is = refl }
get_symbol_space (d ∷ s) p buf = record { token_is = refl; text_is = refl; stream_is = refl }

pub get_symbol-Gives :
    (c : ℕ) (cs rest : Bytes) (p : Place) (buf : Bytes)
    → in_symbol c ≡ true
    → AllSymbol cs
    → Gives (get_symbol c (cs ++ 32 ∷ rest) p buf) info_symbol (buf ++ c ∷ cs) rest
unfolding get_symbol
get_symbol-Gives c [] rest p buf i a =
    rw (i, get_symbol) (get_symbol_space rest (count_char 32 p) (buf ++ c ∷ []))
get_symbol-Gives c (d ∷ cs) rest p buf i a =
    rw (i, get_symbol)
      (Gives-text (append_assoc buf (c ∷ []) (d ∷ cs))
        (get_symbol-Gives d cs rest (count_char d p) (buf ++ c ∷ []) (a.0) (a.1)))
