-- ===== src/Tests/TextTests.antt =====
-- Instances of the theorems about strings, hashes and paths.
use advancescan.Base.{
  Bytes, [], arith, length, none, ok, refl, replicate, true, ◌++◌, ◌↔◌, ◌∷◌, ◌≡◌,
}
use advancescan.Disk.{print_hash, sha1_of_string}
use advancescan.Disk.Laws.{IsBytes, sha1_of_string-print_hash}
use advancescan.File.{file_basename, file_dir, file_ext, file_name, rfind}
use advancescan.File.Parts.{file_dir-file_name}
use advancescan.Strcov.{striwildcmp, strvhex}
use advancescan.Strcov.Hex.{strvhex-room}
use advancescan.Strcov.Wild.{Matches, striwildcmp-Matches}

striwildcmp-Matches_example :
    (striwildcmp (b'*' ∷ b'.' ∷ b't' ∷ []) (b'a' ∷ b'.' ∷ b'T' ∷ []) ≡ true)
    ↔ Matches (b'*' ∷ b'.' ∷ b't' ∷ []) (b'a' ∷ b'.' ∷ b'T' ∷ [])
striwildcmp-Matches_example =
    striwildcmp-Matches (b'*' ∷ b'.' ∷ b't' ∷ []) (b'a' ∷ b'.' ∷ b'T' ∷ [])

strvhex-room_example :
    (q : Bytes × Bytes) × (strvhex (0 ∷ 0 ∷ []) (b'1' ∷ b'f' ∷ b'A' ∷ []) ≡ ok q) × (length q.0 ≡ 2)
strvhex-room_example = strvhex-room (0 ∷ 0 ∷ []) (b'1' ∷ b'f' ∷ b'A' ∷ []) (omega arith)

hash-IsBytes : IsBytes (replicate 20 171)
hash-IsBytes = ground arith

sha1_of_string-print_hash_example :
    sha1_of_string (print_hash (replicate 20 171)) ≡ ok (replicate 20 171)
sha1_of_string-print_hash_example = sha1_of_string-print_hash (replicate 20 171) hash-IsBytes refl

abbrev some_path : Bytes
some_path = b'r' ∷ b'/' ∷ b'a' ∷ b'.' ∷ b'z' ∷ []

file_dir-file_name_example :
    (file_dir some_path ++ file_name some_path ≡ some_path)
    × (rfind b'/' (file_name some_path) ≡ none)
    × (file_basename some_path ++ file_ext some_path ≡ file_name some_path)
file_dir-file_name_example = file_dir-file_name some_path
