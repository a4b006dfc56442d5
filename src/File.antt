-- ===== src/File.antt =====
-- file.cc: the functions on paths. A path is the list of its bytes.
pub mod Parts
pub mod Transfer
use advancescan.Base.{
  Bool, Bytes, Option, [], drop, false, if◌then◌else◌, none, some, suc, take, true, ℕ, ◌+◌, ◌==◌,
  ◌||◌, ◌∷◌,
}
use advancescan.Strcov.{toupper}

-- string::c_str: a C string ends at its first byte 0
unfoldable pub c_str : Bytes → Bytes
c_str [] = []
c_str (a ∷ rest_a) = let rest = c_str rest_a in if a == 0 then [] else a ∷ rest

-- strcasecmp finds no difference
unfoldable pub same_text : Bytes → Bytes → Bool
same_text [] [] = true
same_text [] (b ∷ rest_b) = false
same_text (a ∷ rest_a) [] = false
same_text (a ∷ rest_a) (b ∷ rest_b) =
    let rest = same_text rest_a rest_b in if toupper a == toupper b then rest else false

-- file_compare(a, b) == 0
unfoldable pub same_name : Bytes → Bytes → Bool
same_name a b = same_text (c_str a) (c_str b)

-- string::rfind of a character; `none` is string::npos
unfoldable pub rfind : ℕ → Bytes → Option ℕ
rfind c [] = none
rfind c (x ∷ path) = elim (rfind c path) [
  | some i ↦ some (suc i)
  | none ↦ if x == c then some 0 else none
]

-- what file_dir and file_name do with the place of the last '/'
abbrev pub dir_at : Bytes → Option ℕ → Bytes
dir_at path none = []
dir_at path (some pos) = take (pos + 1) path

abbrev pub name_at : Bytes → Option ℕ → Bytes
name_at path none = path
name_at path (some pos) = drop (pos + 1) path

unfoldable pub file_dir : Bytes → Bytes
file_dir path = dir_at path (rfind b'/' path)

unfoldable pub file_name : Bytes → Bytes
file_name path = name_at path (rfind b'/' path)

-- what file_basename and file_ext do with the place of the last '.'
abbrev pub stem_at : Bytes → Option ℕ → Bytes
stem_at name none = name
stem_at name (some dot) = take dot name

abbrev pub ext_at : Bytes → Option ℕ → Bytes
ext_at name none = []
ext_at name (some dot) = drop dot name

unfoldable pub file_basepath : Bytes → Bytes
file_basepath path = stem_at path (rfind b'.' path)

unfoldable pub file_basename : Bytes → Bytes
file_basename path = stem_at (file_name path) (rfind b'.' (file_name path))

unfoldable pub file_ext : Bytes → Bytes
file_ext path = ext_at (file_name path) (rfind b'.' (file_name path))

-- file_adjust: each '/' or '\\' is '/', and at the end of the path it is left out.
unfoldable pub file_adjust : Bytes → Bytes
file_adjust [] = []
file_adjust (c ∷ []) = if c == 92 || c == b'/' then [] else c ∷ []
file_adjust (c ∷ d ∷ path) =
    let rest = file_adjust (d ∷ path) in if c == 92 || c == b'/' then b'/' ∷ rest else c ∷ rest
