-- ===== src/Gamexml/Words.antt =====
-- gamexml.cc: the names of the elements and attributes, and the texts that are looked for.
use advancescan.Base.{Bytes, [], ◌∷◌}

abbrev pub word_mame : Bytes
word_mame = b'm' ∷ b'a' ∷ b'm' ∷ b'e' ∷ []

abbrev pub word_mess : Bytes
word_mess = b'm' ∷ b'e' ∷ b's' ∷ b's' ∷ []

abbrev pub word_raine : Bytes
word_raine = b'r' ∷ b'a' ∷ b'i' ∷ b'n' ∷ b'e' ∷ []

abbrev pub word_runnable : Bytes
word_runnable = b'r' ∷ b'u' ∷ b'n' ∷ b'n' ∷ b'a' ∷ b'b' ∷ b'l' ∷ b'e' ∷ []

abbrev pub word_isbios : Bytes
word_isbios = b'i' ∷ b's' ∷ b'b' ∷ b'i' ∷ b'o' ∷ b's' ∷ []

abbrev pub word_disk : Bytes
word_disk = b'd' ∷ b'i' ∷ b's' ∷ b'k' ∷ []

abbrev pub word_sha1 : Bytes
word_sha1 = b's' ∷ b'h' ∷ b'a' ∷ b'1' ∷ []

abbrev pub word_yes : Bytes
word_yes = b'y' ∷ b'e' ∷ b's' ∷ []

abbrev pub word_no : Bytes
word_no = b'n' ∷ b'o' ∷ []

abbrev pub word_wav : Bytes
word_wav = b'.' ∷ b'w' ∷ b'a' ∷ b'v' ∷ []
