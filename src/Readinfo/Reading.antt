-- ===== src/Readinfo/Reading.antt =====
-- lib/readinfo.c: a whole file, as the tokens that info_token_get gives one after the other.
use mathlib.Core.Path.{subst}
use advancescan.Base.{
  Bytes, List, [], ap, append_assoc, arith, false, refl, sym, true, ℕ, ◌++◌, ◌∙◌, ◌∷◌, ◌≡◌,
}
use advancescan.Readinfo.{
  InfoToken, Place, Scanned, count_char, get_string, get_symbol, in_symbol, info_close, info_eof,
  info_open, info_string, info_symbol, info_token_get, isspace, plain, token_from,
}
use advancescan.Readinfo.Spelling.{AllSymbol, Gives, Spells, get_string-Gives, get_symbol-Gives}
use advancescan.Zip.Archive.Save.Layout.{All}

-- how each token may be spelled
pub data IsSpelled : InfoToken → Bytes → Bytes → Type 0 where
  open_spelled : IsSpelled info_open [] (b'(' ∷ [])
  close_spelled : IsSpelled info_close [] (b')' ∷ [])
  symbol_spelled :
      (c : ℕ) (cs : Bytes)
      → in_symbol c ≡ true
      → AllSymbol cs
      → IsSpelled info_symbol (c ∷ cs) (c ∷ cs)
  string_spelled :
      (src text : Bytes) → Spells src text → IsSpelled info_string text (34 ∷ src ++ 34 ∷ [])

abbrev pub AllSpace : Bytes → Type 0
AllSpace s = All (λ c. isspace c ≡ true) s

-- a file of these tokens: any spaces before each, and a space behind it
pub data IsFile : List (InfoToken × Bytes) → Bytes → Type 0 where
  no_token : (spaces : Bytes) → AllSpace spaces → IsFile [] spaces
  a_token :
      (w : InfoToken) (text src spaces rest : Bytes) (ts : List (InfoToken × Bytes))
      → AllSpace spaces
      → IsSpelled w text src
      → IsFile ts rest
      → IsFile ((w, text) ∷ ts) (spaces ++ (src ++ 32 ∷ rest))

-- what the calls of info_token_get give, up to the end of the file
pub data Reads : Bytes → Place → List (InfoToken × Bytes) → Type 0 where
  read_end : (s : Bytes) (p : Place) → (info_token_get s p).token ≡ info_eof → Reads s p []
  read_token :
      (s : Bytes) (p : Place) (w : InfoToken) (text : Bytes) (ts : List (InfoToken × Bytes))
      (r : Scanned)
      → info_token_get s p ≡ r
      → r.token ≡ w
      → r.info_buf ≡ text
      → Reads r.stream r.place ts
      → Reads s p ((w, text) ∷ ts)

info_token_get_space :
    (c : ℕ) (s : Bytes) (p : Place)
    → isspace c ≡ true
    → info_token_get (c ∷ s) p ≡ info_token_get s (count_char c p)
unfolding info_token_get
info_token_get_space c s p i = rw (i, info_token_get) refl

info_token_get_other :
    (c : ℕ) (s : Bytes) (p : Place)
    → isspace c ≡ false
    → info_token_get (c ∷ s) p ≡ token_from c s (count_char c p)
unfolding info_token_get
info_token_get_other c s p i = rw (i, info_token_get) refl

Reads-space :
    {ts : List (InfoToken × Bytes)} (c : ℕ) (s : Bytes) (p q : Place)
    → isspace c ≡ true
    → count_char c p ≡ q
    → Reads s q ts
    → Reads (c ∷ s) p ts
Reads-space c s p q i e (read_end _ _ h) =
    let k = info_token_get_space c s p i ∙ ap (info_token_get s) e in
    read_end (c ∷ s) p (ap (λ r. r.token) k ∙ h)
Reads-space c s p q i e (read_token _ _ w text ts r h f g k) =
    let start = info_token_get_space c s p i ∙ ap (info_token_get s) e in
    read_token (c ∷ s) p w text ts r (start ∙ h) f g k

Reads-spaces :
    {ts : List (InfoToken × Bytes)} (spaces s : Bytes) (p : Place)
    → AllSpace spaces
    → ((q : Place) → Reads s q ts)
    → Reads (spaces ++ s) p ts
Reads-spaces [] s p a k = k p
Reads-spaces (c ∷ spaces) s p a k =
    Reads-space c (spaces ++ s) p (count_char c p) (a.0) refl
      (Reads-spaces spaces s (count_char c p) (a.1) k)

spaces_eof : (spaces : Bytes) (p : Place) → AllSpace spaces → Reads spaces p []
unfolding info_token_get
spaces_eof [] p a = read_end [] p refl
spaces_eof (c ∷ spaces) p a =
    Reads-space c spaces p (count_char c p) (a.0) refl (spaces_eof spaces (count_char c p) (a.1))

token_from_symbol :
    (c : ℕ) (s : Bytes) (p : Place)
    → in_symbol c ≡ true
    → (isspace c ≡ false) × (token_from c s p ≡ get_symbol c s p [])
token_from_symbol c s p i = (ground arith, ground arith)

-- a token that the scanner gives, and what is read behind it
Reads-Gives :
    {w : InfoToken} {text rest : Bytes} {ts : List (InfoToken × Bytes)} (s : Bytes) (p : Place)
    (r : Scanned)
    → info_token_get s p ≡ r
    → Gives r w text rest
    → Reads rest r.place ts
    → Reads s p ((w, text) ∷ ts)
Reads-Gives {w} {text} {ts = ts} s p r e g k =
    read_token s p w text ts r e g.token_is g.text_is
      (subst (λ u. Reads u r.place ts) (sym g.stream_is) k)

Reads-symbol :
    {ts : List (InfoToken × Bytes)} (c : ℕ) (cs rest : Bytes) (p : Place)
    → in_symbol c ≡ true
    → AllSymbol cs
    → ((q : Place) → Reads rest q ts)
    → Reads (c ∷ cs ++ 32 ∷ rest) p ((info_symbol, c ∷ cs) ∷ ts)
Reads-symbol c cs rest p i a k =
    let s = cs ++ 32 ∷ rest in
    let (n, e) = token_from_symbol c s (count_char c p) i in
    let r = get_symbol c s (count_char c p) [] in
    Reads-Gives (c ∷ s) p r (info_token_get_other c s p n ∙ e)
      (get_symbol-Gives c cs rest (count_char c p) [] i a) (k r.place)

Reads-string :
    {src text : Bytes} {ts : List (InfoToken × Bytes)} (rest : Bytes) (p : Place)
    → Spells src text
    → ((q : Place) → Reads rest q ts)
    → Reads (34 ∷ src ++ 34 ∷ 32 ∷ rest) p ((info_string, text) ∷ ts)
Reads-string {src} rest p w k =
    let q = count_char 34 p in
    let s = src ++ 34 ∷ 32 ∷ rest in
    let r = get_string plain s q [] in
    Reads-Gives (34 ∷ s) p r (info_token_get_other 34 s p refl)
      (get_string-Gives (32 ∷ rest) q [] w)
      (Reads-space 32 rest r.place (count_char 32 r.place) refl refl (k (count_char 32 r.place)))

-- The first token is spelled so, and what follows reads on behind the space.
Reads-spelled :
    {w : InfoToken} {text src : Bytes} (rest : Bytes) (ts : List (InfoToken × Bytes)) (p : Place)
    → IsSpelled w text src
    → ((q : Place) → Reads rest q ts)
    → Reads (src ++ 32 ∷ rest) p ((w, text) ∷ ts)
unfolding info_token_get
Reads-spelled rest ts p open_spelled k =
    let q = count_char b'(' p in
    read_token _ p _ _ ts (info_token_get (b'(' ∷ 32 ∷ rest) p) refl refl refl
      (Reads-space 32 rest q (count_char 32 q) refl refl (k (count_char 32 q)))
Reads-spelled rest ts p close_spelled k =
    let q = count_char b')' p in
    read_token _ p _ _ ts (info_token_get (b')' ∷ 32 ∷ rest) p) refl refl refl
      (Reads-space 32 rest q (count_char 32 q) refl refl (k (count_char 32 q)))
Reads-spelled rest ts p (symbol_spelled c cs i a) k = Reads-symbol c cs rest p i a k
Reads-spelled rest ts p (string_spelled src text w) k =
    subst (λ s. Reads (34 ∷ s) p ((info_string, text) ∷ ts))
      (sym (append_assoc src (34 ∷ []) (32 ∷ rest))) (Reads-string rest p w k)

-- A file of tokens is read as these tokens, up to its end, whatever spaces stand before each, and
-- however the characters of a string are spelled: as they are, by a letter behind `\`, or by two
-- hexadecimal digits.
pub IsFile-Reads :
    {ts : List (InfoToken × Bytes)} {s : Bytes} (p : Place) → IsFile ts s → Reads s p ts
IsFile-Reads p (no_token spaces a) = spaces_eof spaces p a
IsFile-Reads p (a_token w text src spaces rest ts a m f) =
    Reads-spaces spaces (src ++ 32 ∷ rest) p a
      (λ q. Reads-spelled rest ts q m (λ q'. IsFile-Reads q' f))
