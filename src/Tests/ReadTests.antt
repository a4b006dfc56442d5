-- ===== src/Tests/ReadTests.antt =====
-- Instances of the theorems about the scanner of readinfo.c.
use advancescan.Base.{Bytes, List, [], false, length, refl, some, ◌∷◌, ◌≡◌, ◌≤◌}
use advancescan.Gameinfo.{
  expect, fields_loop, has_read, in_parentheses, insert_listed, new_listed, read_text, skip_field,
}
use advancescan.Gameinfo.Load.{file_field, game_field, load_info, read_game}
use advancescan.Gameinfo.Reader.{load_info-Ends}
use advancescan.Gameinfo.Total.{Ends}
use advancescan.Readinfo.{
  InfoToken, Scanned, get_symbol, info_close, info_open, info_skip_value, info_string, info_symbol,
  info_token_get, new_place, text_get,
}
use advancescan.Readinfo.Progress.{info_skip_value-total}
use advancescan.Readinfo.Reading.{
  IsFile, IsFile-Reads, Reads, a_token, close_spelled, no_token, open_spelled, string_spelled,
  symbol_spelled,
}
use advancescan.Readinfo.Spelling.{Spells, as_it_is, by_digits, by_letter, nothing}
use advancescan.Strcov.{digit_value}
use advancescan.Zip.Archive.{bytes_eq}

-- ( name "a\n\x41" ) and what the scanner makes of it
abbrev game_text : Bytes
game_text =
    b'(' ∷ 32 ∷ b'n' ∷ b'a' ∷ b'm' ∷ b'e' ∷ 32 ∷ 34 ∷ b'a' ∷ 92 ∷ b'n' ∷ 92 ∷ b'x' ∷ b'4' ∷ b'1'
    ∷ 34 ∷ 32 ∷ b')' ∷ 32 ∷ []

abbrev game_tokens : List (InfoToken × Bytes)
game_tokens =
    (info_open, [])
    ∷ (info_symbol, b'n' ∷ b'a' ∷ b'm' ∷ b'e' ∷ [])
    ∷ (info_string, b'a' ∷ 10 ∷ 65 ∷ [])
    ∷ (info_close, [])
    ∷ []

string_src : Spells (b'a' ∷ 92 ∷ b'n' ∷ 92 ∷ b'x' ∷ b'4' ∷ b'1' ∷ []) (b'a' ∷ 10 ∷ 65 ∷ [])
unfolding digit_value
string_src =
    as_it_is b'a' refl refl (by_letter b'n' 10 refl (by_digits b'4' b'1' refl refl nothing))

game-IsFile : IsFile game_tokens game_text
game-IsFile = a_token info_open [] (b'(' ∷ []) [] _ _ tt open_spelled (
    a_token info_symbol _ _ [] _ _ tt
      (symbol_spelled b'n' (b'a' ∷ b'm' ∷ b'e' ∷ []) refl (refl, (refl, (refl, tt))))
      (a_token info_string _ _ [] _ _ tt (string_spelled _ _ string_src)
        (a_token info_close [] (b')' ∷ []) [] _ _ tt close_spelled (no_token [] tt))))

IsFile-Reads_example : Reads game_text new_place game_tokens
IsFile-Reads_example = IsFile-Reads new_place game-IsFile

info_skip_value-total_example :
    (r : Scanned) × (info_skip_value game_text new_place ≡ some r)
    × (length r.stream ≤ length game_text)
info_skip_value-total_example = info_skip_value-total game_text new_place

-- game ( name x )
abbrev list_text : Bytes
list_text =
    b'g' ∷ b'a' ∷ b'm' ∷ b'e' ∷ 32 ∷ b'(' ∷ 32 ∷ b'n' ∷ b'a' ∷ b'm' ∷ b'e' ∷ 32 ∷ b'x' ∷ 32 ∷ b')'
    ∷ []

list_read : load_info list_text ≡ has_read (record (new_listed false) { name = b'x' ∷ [] } ∷ [])
unfolding load_info fields_loop file_field read_game in_parentheses game_field read_text expect
    insert_listed skip_field info_token_get get_symbol text_get bytes_eq
list_read = refl

load_info-Ends_example : Ends (load_info list_text)
load_info-Ends_example = load_info-Ends list_text
