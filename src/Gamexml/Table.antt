-- ===== src/Gamexml/Table.antt =====
-- gamexml.cc: the table of the elements and attributes.
use advancescan.Base.{
  Bool, Bytes, List, Option, [], false, if◌then◌else◌, none, some, true, ℕ, ◌&&◌, ◌==◌, ◌||◌, ◌∷◌,
}
use advancescan.Gameinfo.Words.{
  word_cloneof, word_crc, word_description, word_driver, word_game, word_machine, word_manufacturer,
  word_name, word_rom, word_romof, word_sample, word_sampleof, word_size, word_status, word_year,
}
use advancescan.Gamexml.{
  Process, cloneof_process, description_process, disk_process, diskname_process, disksha1_process,
  driverstatus_process, game_process, isbios_process, manufacturer_process, name_process,
  rom_process, romcrc_process, romname_process, romof_process, romsize_process, romstatus_process,
  runnable_process, samplename_process, sampleof_process, year_process,
}
use advancescan.Gamexml.Words.{
  word_disk, word_isbios, word_mame, word_mess, word_raine, word_runnable, word_sha1,
}
use advancescan.Zip.Archive.{bytes_eq}

-- a name of the table conversion_t
pub data TagName : Type 0 where
  match_mamemessraine match_gamemachine : TagName
  match_word : Bytes → TagName

-- conversion_t. The names are those from the depth back to 0.
pub record Conversion : Type 0 where
  pub names : List TagName
  pub process : Process

abbrev pub conv1 : List Conversion
conv1 = record { names = match_gamemachine ∷ match_mamemessraine ∷ []; process = game_process } ∷ []

-- a row of CONV2
abbrev pub row2 : Bytes → Process → Conversion
row2 word p = record {
  names = match_word word ∷ match_gamemachine ∷ match_mamemessraine ∷ [];
  process = p;
}

abbrev pub conv2 : List Conversion
conv2 =
    row2 word_runnable runnable_process
    ∷ row2 word_isbios isbios_process
    ∷ row2 word_name name_process
    ∷ row2 word_description description_process
    ∷ row2 word_manufacturer manufacturer_process
    ∷ row2 word_year year_process
    ∷ row2 word_cloneof cloneof_process
    ∷ row2 word_romof romof_process
    ∷ row2 word_sampleof sampleof_process
    ∷ row2 word_rom rom_process
    ∷ row2 word_disk disk_process
    ∷ []

-- a row of CONV3
abbrev pub row3 : Bytes → Bytes → Process → Conversion
row3 outer word p = record {
  names = match_word word ∷ match_word outer ∷ match_gamemachine ∷ match_mamemessraine ∷ [];
  process = p;
}

abbrev pub conv3 : List Conversion
conv3 =
    row3 word_rom word_name romname_process
    ∷ row3 word_rom word_size romsize_process
    ∷ row3 word_rom word_crc romcrc_process
    ∷ row3 word_rom word_status romstatus_process
    ∷ row3 word_driver word_status driverstatus_process
    ∷ row3 word_sample word_name samplename_process
    ∷ row3 word_disk word_name diskname_process
    ∷ row3 word_disk word_sha1 disksha1_process
    ∷ []

abbrev pub tag_fits : TagName → Bytes → Bool
tag_fits match_mamemessraine tag =
    bytes_eq tag word_mame || bytes_eq tag word_mess || bytes_eq tag word_raine
tag_fits match_gamemachine tag = bytes_eq tag word_game || bytes_eq tag word_machine
tag_fits (match_word word) tag = bytes_eq tag word

-- the loop over the tags of the levels, from the depth back to 0
abbrev pub tags_fit : List TagName → List Bytes → Bool
tags_fit [] tags = true
tags_fit (n ∷ names) [] = false
tags_fit (n ∷ names) (tag ∷ tags) = tag_fits n tag && tags_fit names tags

-- the loop over the table
abbrev pub find_conversion : List Conversion → List Bytes → Option Process
find_conversion [] tags = none
find_conversion (c ∷ conv) tags =
    if tags_fit c.names tags then some c.process else find_conversion conv tags

unfoldable pub identify : ℕ → List Bytes → Option Process
identify depth tags =
    if depth == 1
    then find_conversion conv1 tags
    else if depth == 2
    then find_conversion conv2 tags
    else if depth == 3
    then find_conversion conv3 tags
    else none
