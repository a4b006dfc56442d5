-- ===== src/Gameinfo/Words.antt =====
-- gameinfo.cc: the words of the game lists.
use advancescan.Base.{Bytes, [], ◌∷◌}

abbrev pub word_game : Bytes
word_game = b'g' ∷ b'a' ∷ b'm' ∷ b'e' ∷ []

abbrev pub word_resource : Bytes
word_resource = b'r' ∷ b'e' ∷ b's' ∷ b'o' ∷ b'u' ∷ b'r' ∷ b'c' ∷ b'e' ∷ []

abbrev pub word_machine : Bytes
word_machine = b'm' ∷ b'a' ∷ b'c' ∷ b'h' ∷ b'i' ∷ b'n' ∷ b'e' ∷ []

abbrev pub word_name : Bytes
word_name = b'n' ∷ b'a' ∷ b'm' ∷ b'e' ∷ []

abbrev pub word_description : Bytes
word_description = b'd' ∷ b'e' ∷ b's' ∷ b'c' ∷ b'r' ∷ b'i' ∷ b'p' ∷ b't' ∷ b'i' ∷ b'o' ∷ b'n' ∷ []

abbrev pub word_manufacturer : Bytes
word_manufacturer =
    b'm' ∷ b'a' ∷ b'n' ∷ b'u' ∷ b'f' ∷ b'a' ∷ b'c' ∷ b't' ∷ b'u' ∷ b'r' ∷ b'e' ∷ b'r' ∷ []

abbrev pub word_year : Bytes
word_year = b'y' ∷ b'e' ∷ b'a' ∷ b'r' ∷ []

abbrev pub word_cloneof : Bytes
word_cloneof = b'c' ∷ b'l' ∷ b'o' ∷ b'n' ∷ b'e' ∷ b'o' ∷ b'f' ∷ []

abbrev pub word_romof : Bytes
word_romof = b'r' ∷ b'o' ∷ b'm' ∷ b'o' ∷ b'f' ∷ []

abbrev pub word_sampleof : Bytes
word_sampleof = b's' ∷ b'a' ∷ b'm' ∷ b'p' ∷ b'l' ∷ b'e' ∷ b'o' ∷ b'f' ∷ []

abbrev pub word_rom : Bytes
word_rom = b'r' ∷ b'o' ∷ b'm' ∷ []

abbrev pub word_driver : Bytes
word_driver = b'd' ∷ b'r' ∷ b'i' ∷ b'v' ∷ b'e' ∷ b'r' ∷ []

abbrev pub word_sample : Bytes
word_sample = b's' ∷ b'a' ∷ b'm' ∷ b'p' ∷ b'l' ∷ b'e' ∷ []

abbrev pub word_size : Bytes
word_size = b's' ∷ b'i' ∷ b'z' ∷ b'e' ∷ []

abbrev pub word_crc : Bytes
word_crc = b'c' ∷ b'r' ∷ b'c' ∷ []

abbrev pub word_flags : Bytes
word_flags = b'f' ∷ b'l' ∷ b'a' ∷ b'g' ∷ b's' ∷ []

abbrev pub word_nodump : Bytes
word_nodump = b'n' ∷ b'o' ∷ b'd' ∷ b'u' ∷ b'm' ∷ b'p' ∷ []

abbrev pub word_status : Bytes
word_status = b's' ∷ b't' ∷ b'a' ∷ b't' ∷ b'u' ∷ b's' ∷ []

abbrev pub word_preliminary : Bytes
word_preliminary = b'p' ∷ b'r' ∷ b'e' ∷ b'l' ∷ b'i' ∷ b'm' ∷ b'i' ∷ b'n' ∷ b'a' ∷ b'r' ∷ b'y' ∷ []
