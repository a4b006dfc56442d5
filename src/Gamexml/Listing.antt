-- ===== src/Gamexml/Listing.antt =====
-- gamexml.cc: lists of games as documents, the events that expat reports for them, and the games that
-- they stand for.
use advancescan.Base.{
  Bytes, List, Option, [], false, if◌then◌else◌, length, none, not, ◌&&◌, ◌++◌, ◌||◌, ◌∷◌, ◌≡◌,
}
use advancescan.Disk.{print_hash}
use advancescan.Disk.Laws.{IsBytes}
use advancescan.Game.{DiskInfo}
use advancescan.Gameinfo.{Listed, insert_listed, new_listed}
use advancescan.Gameinfo.Words.{
  word_cloneof, word_crc, word_description, word_driver, word_manufacturer, word_name, word_nodump,
  word_preliminary, word_rom, word_romof, word_sample, word_sampleof, word_size, word_status,
  word_year,
}
use advancescan.Gamexml.{insert_disk, lacks_dot, new_disk}
use advancescan.Gamexml.Filling.{
  Filling, IsFilling, IsNoneOf, IsShort, char_data, fill_events, fill_text, filling_ends,
  other_element,
}
use advancescan.Gamexml.Handlers.{XmlEvent, end_event, start_event}
use advancescan.Gamexml.Table.{match_gamemachine, tag_fits}
use advancescan.Gamexml.Words.{
  word_disk, word_isbios, word_no, word_runnable, word_sha1, word_wav, word_yes,
}
use advancescan.Rom.{Rom, insert_rom, new_rom}
use advancescan.Scan.Sample.{insert_sample}
use advancescan.Strcov.{strdec, strhex}
use advancescan.Zip.Archive.{bytes_eq}

-- the texts of a game, as attributes or elements
pub data GameField : Type 0 where
  runnable_field isbios_field name_field description_field manufacturer_field : GameField
  year_field cloneof_field romof_field sampleof_field : GameField

abbrev pub game_word : GameField → Bytes
game_word runnable_field = word_runnable
game_word isbios_field = word_isbios
game_word name_field = word_name
game_word description_field = word_description
game_word manufacturer_field = word_manufacturer
game_word year_field = word_year
game_word cloneof_field = word_cloneof
game_word romof_field = word_romof
game_word sampleof_field = word_sampleof

-- what a text means for the game
abbrev pub set_game : GameField → Bytes → Listed → Listed
set_game runnable_field v g = record g { resource = g.resource || bytes_eq v word_no }
set_game isbios_field v g = record g { resource = bytes_eq v word_yes }
set_game name_field v g = record g { name = v }
set_game description_field v g = record g { description = v }
set_game manufacturer_field v g = record g { manufacturer = v }
set_game year_field v g = record g { year = v }
set_game cloneof_field v g = record g { cloneof = v }
set_game romof_field v g = record g { romof = v }
set_game sampleof_field v g = record g { sampleof = v }

-- the attributes of a rom
pub data RomField : Type 0 where
  romname_field size_field crc_field status_field : RomField

abbrev pub rom_word : RomField → Bytes
rom_word romname_field = word_name
rom_word size_field = word_size
rom_word crc_field = word_crc
rom_word status_field = word_status

abbrev pub set_rom : RomField → Bytes → Rom → Rom
set_rom romname_field v r = record r { name = v }
set_rom size_field v r = record r { size = (strdec v).0 }
set_rom crc_field v r = record r { crc = (strhex v).0 }
set_rom status_field v r = record r { nodump = r.nodump || bytes_eq v word_nodump }

-- a number is nothing else
abbrev pub IsRomText : RomField → Bytes → Type 0
IsRomText romname_field v = IsShort v
IsRomText size_field v = IsShort v × ((strdec v).1 ≡ [])
IsRomText crc_field v = IsShort v × ((strhex v).1 ≡ [])
IsRomText status_field v = IsShort v

-- the names of the elements and attributes of a game that are read, or hold what is read
abbrev pub game_words : List Bytes
game_words =
    word_runnable ∷ word_isbios ∷ word_name ∷ word_description ∷ word_manufacturer ∷ word_year
    ∷ word_cloneof ∷ word_romof ∷ word_sampleof ∷ word_rom ∷ word_disk ∷ word_driver ∷ word_sample
    ∷ []

abbrev pub rom_words : List Bytes
rom_words = word_name ∷ word_size ∷ word_crc ∷ word_status ∷ []

abbrev pub disk_words : List Bytes
disk_words = word_name ∷ word_sha1 ∷ []

-- no game
abbrev pub IsNoGame : Bytes → Type 0
IsNoGame tag = tag_fits match_gamemachine tag ≡ false

-- an attribute that is read, or another one
pub data Attribute (F : Type 0) : Type 0 where
  known_attribute : F → Bytes → Attribute F
  other_attribute : Bytes → Bytes → Attribute F

-- an attribute of a disk; the hash is printed
pub data DiskAttribute : Type 0 where
  diskname_attribute : Bytes → DiskAttribute
  sha1_attribute : Bytes → DiskAttribute
  other_disk_attribute : Bytes → Bytes → DiskAttribute

-- what stands in a game: an element with a text, a rom, a disk, a driver with its status and a
-- sample with its name, each between other attributes, and whatever is not read
pub data GameItem : Type 0 where
  text_item : GameField → Filling → GameItem
  rom_item : List (Attribute RomField) → GameItem
  disk_item : List DiskAttribute → GameItem
  driver_item : List (Bytes × Bytes) → Bytes → List (Bytes × Bytes) → GameItem
  sample_item : List (Bytes × Bytes) → Bytes → List (Bytes × Bytes) → GameItem
  filling_item : Filling → GameItem

pub record XmlGame : Type 0 where
  pub attributes : List (Attribute GameField)
  pub items : List GameItem

-- what stands in the outer element: a game, or what is not read
pub data RootItem : Type 0 where
  game_entry : XmlGame → RootItem
  beside_games : Filling → RootItem

abbrev pub game_attributes : List (Attribute GameField) → List (Bytes × Bytes)
game_attributes [] = []
game_attributes (known_attribute f v ∷ attributes) = (game_word f, v) ∷ game_attributes attributes
game_attributes (other_attribute tag v ∷ attributes) = (tag, v) ∷ game_attributes attributes

abbrev pub rom_attributes : List (Attribute RomField) → List (Bytes × Bytes)
rom_attributes [] = []
rom_attributes (known_attribute f v ∷ attributes) = (rom_word f, v) ∷ rom_attributes attributes
rom_attributes (other_attribute tag v ∷ attributes) = (tag, v) ∷ rom_attributes attributes

abbrev pub disk_attributes : List DiskAttribute → List (Bytes × Bytes)
disk_attributes [] = []
disk_attributes (diskname_attribute v ∷ attributes) = (word_name, v) ∷ disk_attributes attributes
disk_attributes (sha1_attribute hash ∷ attributes) =
    (word_sha1, print_hash hash) ∷ disk_attributes attributes
disk_attributes (other_disk_attribute tag v ∷ attributes) = (tag, v) ∷ disk_attributes attributes

-- an element without text
abbrev pub empty_element : Bytes → List (Bytes × Bytes) → List XmlEvent → List XmlEvent
empty_element tag attributes events = start_event tag attributes ∷ end_event ∷ events

-- the events of the items, before those that follow
abbrev pub item_events : GameItem → List XmlEvent → List XmlEvent
item_events (text_item f filling) events =
    start_event (game_word f) [] ∷ fill_events filling (end_event ∷ events)
item_events (rom_item attributes) events = empty_element word_rom (rom_attributes attributes) events
item_events (disk_item attributes) events =
    empty_element word_disk (disk_attributes attributes) events
item_events (driver_item before status behind) events =
    empty_element word_driver (before ++ (word_status, status) ∷ behind) events
item_events (sample_item before name behind) events =
    empty_element word_sample (before ++ (word_name, name) ∷ behind) events
item_events (filling_item filling) events = fill_events filling events

abbrev pub items_events : List GameItem → List XmlEvent → List XmlEvent
items_events [] events = events
items_events (i ∷ items) events = item_events i (items_events items events)

abbrev pub games_events : Bytes → List RootItem → List XmlEvent → List XmlEvent
games_events machine [] events = events
games_events machine (game_entry x ∷ games) events =
    start_event machine (game_attributes x.attributes)
    ∷ items_events x.items (end_event ∷ games_events machine games events)
games_events machine (beside_games filling ∷ games) events =
    fill_events filling (games_events machine games events)

-- the whole file, by the names of the two outer elements and the attributes of the first
abbrev pub document_events : Bytes → List (Bytes × Bytes) → Bytes → List RootItem → List XmlEvent
document_events root attributes machine games =
    start_event root attributes ∷ games_events machine games (end_event ∷ [])

-- what the document means
abbrev pub listed_rom : List (Attribute RomField) → Rom → Rom
listed_rom [] r = r
listed_rom (known_attribute f v ∷ attributes) r = listed_rom attributes (set_rom f v r)
listed_rom (other_attribute tag v ∷ attributes) r = listed_rom attributes r

abbrev pub listed_disk : List DiskAttribute → DiskInfo → DiskInfo
listed_disk [] d = d
listed_disk (diskname_attribute v ∷ attributes) d = listed_disk attributes (record d { name = v })
listed_disk (sha1_attribute hash ∷ attributes) d = listed_disk attributes (record d { hash = hash })
listed_disk (other_disk_attribute tag v ∷ attributes) d = listed_disk attributes d

abbrev pub with_fields : List (Attribute GameField) → Listed → Listed
with_fields [] g = g
with_fields (known_attribute f v ∷ attributes) g = with_fields attributes (set_game f v g)
with_fields (other_attribute tag v ∷ attributes) g = with_fields attributes g

-- all the text that stands directly in an element
abbrev pub whole_text : Filling → Bytes
whole_text filling_ends = []
whole_text (char_data s rest) = s ++ whole_text rest
whole_text (other_element tag attributes inner rest) = whole_text rest

abbrev pub with_item : GameItem → Listed → Listed
with_item (text_item f filling) g = set_game f (whole_text filling) g
with_item (rom_item attributes) g = record g {
  roms = insert_rom (listed_rom attributes new_rom) g.roms;
}
with_item (disk_item attributes) g = record g {
  disks = insert_disk (listed_disk attributes new_disk) g.disks;
}
with_item (driver_item before status behind) g = record g {
  working = g.working && not (bytes_eq status word_preliminary);
}
with_item (sample_item before name behind) g = record g {
  samples = insert_sample (if lacks_dot name then name ++ word_wav else name) g.samples;
}
with_item (filling_item filling) g = g

abbrev pub with_items : List GameItem → Listed → Listed
with_items [] g = g
with_items (i ∷ items) g = with_items items (with_item i g)

abbrev pub game_of : XmlGame → Listed
game_of x = with_items x.items (with_fields x.attributes (new_listed false))

abbrev pub games_of : List RootItem → List Listed → List Listed
games_of [] gs = gs
games_of (game_entry x ∷ games) gs = games_of games (insert_listed (game_of x) gs)
games_of (beside_games filling ∷ games) gs = games_of games gs

-- the attributes can be read, and those that are not read have other names
abbrev pub AreShort : List (Attribute GameField) → Type 0
AreShort [] = Unit
AreShort (known_attribute f v ∷ attributes) = IsShort v × AreShort attributes
AreShort (other_attribute tag v ∷ attributes) =
    IsNoneOf game_words tag × IsShort v × AreShort attributes

abbrev pub AreRomTexts : List (Attribute RomField) → Type 0
AreRomTexts [] = Unit
AreRomTexts (known_attribute f v ∷ attributes) = IsRomText f v × AreRomTexts attributes
AreRomTexts (other_attribute tag v ∷ attributes) =
    IsNoneOf rom_words tag × IsShort v × AreRomTexts attributes

abbrev pub AreDiskTexts : List DiskAttribute → Type 0
AreDiskTexts [] = Unit
AreDiskTexts (diskname_attribute v ∷ attributes) = IsShort v × AreDiskTexts attributes
AreDiskTexts (sha1_attribute hash ∷ attributes) =
    IsBytes hash × (length hash ≡ 20) × AreDiskTexts attributes
AreDiskTexts (other_disk_attribute tag v ∷ attributes) =
    IsNoneOf disk_words tag × IsShort v × AreDiskTexts attributes

-- attributes that are not read: their names pass the test, and their values are short
abbrev pub AreOthers : (Bytes → Type 0) → List (Bytes × Bytes) → Type 0
AreOthers Passes [] = Unit
AreOthers Passes ((tag, v) ∷ attributes) = Passes tag × IsShort v × AreOthers Passes attributes

-- an item can be read within a game whose text is `t`
abbrev pub IsItem : GameItem → Option Bytes → Type 0
IsItem (text_item f filling) t = IsFilling (λ name. Unit) filling none
IsItem (rom_item attributes) t = AreRomTexts attributes
IsItem (disk_item attributes) t = AreDiskTexts attributes
IsItem (driver_item before status behind) t =
    AreOthers (λ tag. bytes_eq tag word_status ≡ false) before
    × IsShort status
    × AreOthers (λ tag. bytes_eq tag word_status ≡ false) behind
IsItem (sample_item before name behind) t =
    AreOthers (λ tag. bytes_eq tag word_name ≡ false) before
    × IsShort name
    × AreOthers (λ tag. bytes_eq tag word_name ≡ false) behind
IsItem (filling_item filling) t = IsFilling (IsNoneOf game_words) filling t

-- the text of the game behind the item
abbrev pub text_behind : GameItem → Option Bytes → Option Bytes
text_behind (filling_item filling) t = fill_text filling t
text_behind _ t = t

abbrev pub AreItems : List GameItem → Option Bytes → Type 0
AreItems [] t = Unit
AreItems (i ∷ items) t = IsItem i t × AreItems items (text_behind i t)

-- the games can be read in an outer element whose text is `t`
abbrev pub AreGames : List RootItem → Option Bytes → Type 0
AreGames [] t = Unit
AreGames (game_entry x ∷ games) t = AreShort x.attributes × AreItems x.items none × AreGames games t
AreGames (beside_games filling ∷ games) t =
    IsFilling IsNoGame filling t × AreGames games (fill_text filling t)
