-- ===== src/Scan/Filter.antt =====
-- scan.cc: filt and its tests, which choose the games of the list.
use advancescan.Base.{
  Bool, Bytes, List, Result, [], err, failed, if◌then◌else◌, not, ok, ◌&&◌, ◌++◌, ◌∷◌,
}
use advancescan.Gamearchive.Relations.{filter}
use advancescan.Gameinfo.{Listed}
use advancescan.Gameinfo.Words.{word_preliminary}
use advancescan.Zip.Archive.{bytes_eq}

abbrev pub filter_preliminary : Listed → Bool
filter_preliminary g = not g.working_subset

abbrev pub filter_working : Listed → Bool
filter_working g = g.working_subset

abbrev pub filter_working_parent : Listed → Bool
filter_working_parent g = g.working_subset && g.working_parent_subset

abbrev pub filter_working_clone : Listed → Bool
filter_working_clone g = g.working_subset && not g.working_parent_subset

abbrev pub word_working : Bytes
word_working = b'w' ∷ b'o' ∷ b'r' ∷ b'k' ∷ b'i' ∷ b'n' ∷ b'g' ∷ []

abbrev pub word_parent : Bytes
word_parent = b'_' ∷ b'p' ∷ b'a' ∷ b'r' ∷ b'e' ∷ b'n' ∷ b't' ∷ []

abbrev pub word_clone : Bytes
word_clone = b'_' ∷ b'c' ∷ b'l' ∷ b'o' ∷ b'n' ∷ b'e' ∷ []

-- filt
unfoldable pub filt : Bytes → List Listed → Result (List Listed)
filt option gs =
    if bytes_eq option word_preliminary
    then ok (filter filter_preliminary gs)
    else if bytes_eq option word_working
    then ok (filter filter_working gs)
    else if bytes_eq option (word_working ++ word_parent)
    then ok (filter filter_working_parent gs)
    else if bytes_eq option (word_working ++ word_clone)
    then ok (filter filter_working_clone gs)
    else if bytes_eq option []
    then ok gs
    else err failed
