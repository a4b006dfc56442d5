-- ===== src/Tests/XmlTests.antt =====
-- Instances of the theorems about the lists of games in XML.
use advancescan.Base.{Bytes, List, [], arith, none, ok, refl, true, ◌∷◌, ◌≡◌}
use advancescan.Gameinfo.Words.{word_machine, word_name, word_preliminary}
use advancescan.Gamexml.Filling.{Filling, char_data, filling_ends, other_element}
use advancescan.Gamexml.Handlers.{handle_all, load_xml, new_state}
use advancescan.Gamexml.Invariant.{handle_all-Steady, new_state-Steady}
use advancescan.Gamexml.Listing.{
  AreGames, RootItem, XmlGame, beside_games, crc_field, document_events, driver_item, filling_item,
  game_entry, games_of, isbios_field, known_attribute, name_field, other_attribute, rom_item,
  romname_field, sample_item, size_field, text_item, year_field,
}
use advancescan.Gamexml.Reading.{load_xml-document_events}
use advancescan.Gamexml.Steady.{Steady}
use advancescan.Gamexml.Table.{match_gamemachine, match_mamemessraine, tag_fits}
use advancescan.Gamexml.Words.{word_mame, word_yes}
use advancescan.Strcov.{strdec_loop, strhex_loop}
use advancescan.Zip.Archive.{bytes_eq}

abbrev text_12 : Bytes
text_12 = b'1' ∷ b'2' ∷ []

abbrev text_ab : Bytes
text_ab = b'a' ∷ b'b' ∷ []

abbrev new_line : Bytes
new_line = 10 ∷ []

abbrev space : Filling
space = char_data new_line filling_ends

-- an element that the reader does not know, with another in it
abbrev chip : Filling
chip = char_data new_line (
    other_element text_ab ((word_name, text_12) ∷ []) (other_element word_name [] space space)
      space)

-- a game with a rom, a driver and a sample, and with what is not read
abbrev xml_game : XmlGame
xml_game = record {
  attributes =
      known_attribute name_field text_ab
      ∷ other_attribute text_12 text_ab
      ∷ known_attribute isbios_field word_yes
      ∷ [];
  items =
      filling_item chip
      ∷ text_item year_field (char_data text_12 (char_data text_12 filling_ends))
      ∷ filling_item space
      ∷ rom_item (
          known_attribute romname_field text_ab
          ∷ known_attribute size_field text_12
          ∷ other_attribute text_12 text_ab
          ∷ known_attribute crc_field text_ab
          ∷ [])
      ∷ driver_item ((text_12, text_ab) ∷ []) word_preliminary []
      ∷ sample_item [] text_ab []
      ∷ [];
}

abbrev xml_items : List RootItem
xml_items = beside_games space ∷ game_entry xml_game ∷ beside_games space ∷ []

xml_items-AreGames : AreGames xml_items none
unfolding strdec_loop strhex_loop bytes_eq
xml_items-AreGames = ground arith

mame-fits : tag_fits match_mamemessraine word_mame ≡ true
unfolding bytes_eq
mame-fits = refl

machine-fits : tag_fits match_gamemachine word_machine ≡ true
unfolding bytes_eq
machine-fits = refl

load_xml-document_events_example :
    load_xml (λ n. true) (document_events word_mame [] word_machine xml_items) none
    ≡ ok (games_of xml_items [])
load_xml-document_events_example =
    load_xml-document_events (λ n. true) word_mame word_machine [] xml_items (λ n. refl) mame-fits
      machine-fits tt xml_items-AreGames

handle_all-Steady_example :
    Steady (handle_all (λ n. true) (document_events word_mame [] word_machine xml_items) new_state)
handle_all-Steady_example =
    handle_all-Steady (λ n. true) (document_events word_mame [] word_machine xml_items) new_state
      new_state-Steady
