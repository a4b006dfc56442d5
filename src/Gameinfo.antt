-- ===== src/Gameinfo.antt =====
-- gameinfo.cc: the reader of the game lists of MAME's -listinfo, over the scanner of readinfo.c.
-- The place of an error, which load_info reports, is left out.
pub mod Words
pub mod Load
pub mod Total
pub mod Reader
use advancescan.Base.{
  Bool, Bytes, List, Option, [], false, if◌then◌else◌, length, ltb, none, some, suc, true, zero, ℕ,
  ◌+◌, ◌==◌, ◌∷◌,
}
use advancescan.Game.{DiskInfo}
use advancescan.Readinfo.{
  InfoToken, Scanned, info_close, info_eof, info_error, info_open, info_skip_value, info_string,
  info_symbol, is_error, next_token, text_get,
}
use advancescan.Rom.{Rom}
use advancescan.Zip.Archive.{bytes_eq}

-- How a part of load_info_internal ends: its fuel is spent, it returns false, or it goes on.
pub data Parse {ℓ} (A : Type ℓ) : Type ℓ where
  spent refusal : Parse A
  has_read : A → Parse A

abbrev pub and_then {ℓ κ} : {A : Type ℓ} {B : Type κ} → Parse A → (A → Parse B) → Parse B
and_then spent k = spent
and_then refusal k = refusal
and_then (has_read a) k = k a

-- a game as it is listed
pub record Listed : Type 0 where
  pub resource : Bool
  pub name : Bytes
  pub description : Bytes
  pub manufacturer : Bytes
  pub year : Bytes
  pub cloneof : Bytes
  pub romof : Bytes
  pub sampleof : Bytes
  pub working : Bool
  pub roms : List Rom
  pub samples : List Bytes
  pub disks : List DiskInfo
  pub rom_son : List Bytes
  pub working_subset : Bool
  pub working_parent_subset : Bool

-- game g; g.resource_set(resource)
abbrev pub new_listed : Bool → Listed
new_listed resource = record {
  resource = resource;
  name = [];
  description = [];
  manufacturer = [];
  year = [];
  cloneof = [];
  romof = [];
  sampleof = [];
  working = true;
  roms = [];
  samples = [];
  disks = [];
  rom_son = [];
  working_subset = false;
  working_parent_subset = false;
}

-- operator< of strings
unfoldable pub name_less : Bytes → Bytes → Bool
name_less [] [] = false
name_less [] (y ∷ b) = true
name_less (x ∷ a) [] = false
name_less (x ∷ a) (y ∷ b) = let rest = name_less a b in if x == y then rest else ltb x y

-- game_by_name_set::insert. The set is the list in the order of the names.
unfoldable pub insert_listed : Listed → List Listed → List Listed
insert_listed g [] = g ∷ []
insert_listed g (h ∷ gs) =
    let rest = insert_listed g gs in
    if bytes_eq h.name g.name
    then h ∷ gs
    else if name_less g.name h.name
    then g ∷ h ∷ gs
    else h ∷ rest

-- if (info_token_get() != w) return false
abbrev pub same_token : InfoToken → InfoToken → Bool
same_token info_symbol info_symbol = true
same_token info_string info_string = true
same_token info_open info_open = true
same_token info_close info_close = true
same_token info_eof info_eof = true
same_token info_error info_error = true
same_token _ _ = false

unfoldable pub expect : InfoToken → Scanned → Parse Scanned
expect w t = let v = next_token t in if same_token v.token w then has_read v else refusal

-- strcmp(info_text_get(), key) == 0
abbrev pub is_text_of : Scanned → Bytes → Bool
is_text_of t key = bytes_eq (text_get t.info_buf) key

-- if (info_skip_value() == info_error) return false
abbrev pub skipped : Option Scanned → Parse Scanned
skipped none = spent
skipped (some v) = if is_error v.token then refusal else has_read v

-- a field whose value is a token w, and what its text does
unfoldable pub read_text {ℓ} :
    {A : Type ℓ} → InfoToken → Scanned → (Bytes → Parse A) → Parse (Scanned × A)
read_text w t use_text =
    and_then (expect w t) (λ v. and_then (use_text (text_get v.info_buf)) (λ a. has_read (v, a)))

unfoldable pub skip_field {ℓ} : {A : Type ℓ} → Scanned → A → Parse (Scanned × A)
skip_field t a = and_then (skipped (info_skip_value t.stream t.place)) (λ v. has_read (v, a))

-- how a loop over the fields goes on at a token, by the token that ends it
pub data LoopCase : Type 0 where
  loop_ends one_more not_a_field : LoopCase

abbrev pub loop_case : InfoToken → InfoToken → LoopCase
loop_case info_close info_close = loop_ends
loop_case info_eof info_eof = loop_ends
loop_case _ info_symbol = one_more
loop_case _ _ = not_a_field

-- while (token != end) { if (token != info_symbol) return false; ...; token = info_token_get(); }
-- on fuel
unfoldable pub fields_loop {ℓ} :
    {A : Type ℓ}
    → (Scanned → A → Parse (Scanned × A))
    → InfoToken
    → ℕ
    → Scanned
    → A
    → Parse (Scanned × A)
fields_loop field end zero t a = spent
fields_loop field end (suc fuel) t a = elim (loop_case end t.token) [
  | loop_ends ↦ has_read (t, a)
  | one_more ↦ and_then (field t a) (λ p. fields_loop field end fuel (next_token (p.0)) (p.1))
  | not_a_field ↦ refusal
]

-- the loop behind t: no round is without a character of what is left
abbrev pub fields {ℓ} :
    {A : Type ℓ}
    → (Scanned → A → Parse (Scanned × A))
    → InfoToken
    → Scanned
    → A
    → Parse (Scanned × A)
fields field end t a = fields_loop field end (length t.stream + 1) (next_token t) a

-- a field with its own fields in parentheses
unfoldable pub in_parentheses {ℓ} :
    {A : Type ℓ} → (Scanned → A → Parse (Scanned × A)) → Scanned → A → Parse (Scanned × A)
in_parentheses field t a = and_then (expect info_open t) (λ o. fields field info_close o a)
