-- ===== src/Analyze.antt =====
-- analyze.cc: what a file that no game knows is taken for, by its name, size and checksum.
-- The table GARBAGE is an argument.
use advancescan.Base.{
  Bool, Bytes, List, [], false, if◌then◌else◌, not, suc, true, zero, ℕ, ◌%◌, ◌&&◌, ◌+◌, ◌/◌, ◌==◌,
  ◌∷◌,
}
use advancescan.Strcov.{striwildcmp}
use advancescan.Zip.Archive.{bytes_eq}

pub record AnalyzeEntry : Type 0 where
  pub name : Bytes
  pub size : ℕ
  pub crc : ℕ

-- analyze_type
pub data AnalyzeType : Type 0 where
  analyze_text analyze_binary analyze_garbage : AnalyzeType

-- TEXT_WILD
abbrev pub text_wild : List Bytes
text_wild =
    (b'*' ∷ b'.' ∷ b't' ∷ b'x' ∷ b't' ∷ [])
    ∷ (b'*' ∷ b'.' ∷ b'd' ∷ b'o' ∷ b'c' ∷ [])
    ∷ (b'*' ∷ b'.' ∷ b'n' ∷ b'f' ∷ b'o' ∷ [])
    ∷ (b'*' ∷ b'.' ∷ b'd' ∷ b'i' ∷ b'z' ∷ [])
    ∷ (b'r' ∷ b'e' ∷ b'a' ∷ b'd' ∷ b'm' ∷ b'e' ∷ b'.' ∷ b'*' ∷ [])
    ∷ []

-- BIN_WILD
abbrev pub bin_wild : List Bytes
bin_wild = (b'*' ∷ b'.' ∷ b's' ∷ b'a' ∷ b'm' ∷ []) ∷ (b'*' ∷ b'.' ∷ b'w' ∷ b'a' ∷ b'v' ∷ []) ∷ []

-- the loops over the patterns
unfoldable pub any_wild : List Bytes → Bytes → Bool
any_wild [] name = false
any_wild (p ∷ ps) name = let rest = any_wild ps name in if striwildcmp p name then true else rest

-- The loop that counts the ones of the size, on fuel: an unsigned has 32 of them at most.
unfoldable pub count_ones : ℕ → ℕ → ℕ
count_ones zero size = 0
count_ones (suc fuel) size =
    let rest = count_ones fuel (size / 2) in if size == 0 then 0 else size % 2 + rest

-- heuristic_is_text
unfoldable pub heuristic_is_text : Bytes → ℕ → Bool
heuristic_is_text name size =
    if any_wild bin_wild name
    then false
    else if any_wild text_wild name
    then true
    else if size == 0
    then false
    else not (count_ones 32 size == 1)

-- garbage.find(t) != garbage.end()
unfoldable pub is_garbage : AnalyzeEntry → List AnalyzeEntry → Bool
is_garbage t [] = false
is_garbage t (g ∷ gs) =
    let rest = is_garbage t gs in
    if g.size == t.size && g.crc == t.crc && bytes_eq g.name t.name then true else rest

-- analyze::operator()
unfoldable pub analyze : List AnalyzeEntry → Bytes → ℕ → ℕ → AnalyzeType
analyze garbage name size crc =
    if not (heuristic_is_text name size)
    then analyze_binary
    else if is_garbage (record { name = name; size = size; crc = crc }) garbage
    then analyze_garbage
    else analyze_text
