-- ===== src/Gamexml.antt =====
-- gamexml.cc: the state of the reader of the lists in XML, and the functions process_*, each of which
-- is called for one kind of element or attribute. The text of an error is left out, only its kind is
-- kept.
pub mod Words
pub mod Table
pub mod Handlers
pub mod Needs
pub mod Safe
pub mod TokenCalls
pub mod Depths
pub mod Levels
pub mod Found
pub mod BothCalls
pub mod Steady
pub mod Closing
pub mod Invariant
pub mod Filling
pub mod Listing
pub mod Fields
pub mod Ignored
pub mod Unknown
pub mod RomFields
pub mod ItemSteps
pub mod Reading
use advancescan.Base.{
  Bool, Bytes, List, Option, Result, [], err, false, if◌then◌else◌, none, not, null_used, ok,
  replicate, some, true, ℕ, ◌++◌, ◌==◌, ◌>>=◌, ◌∷◌,
}
use advancescan.Disk.{sha1_of_string}
use advancescan.File.{same_name}
use advancescan.Game.{DiskInfo}
use advancescan.Gameinfo.{Listed, insert_listed, new_listed}
use advancescan.Gameinfo.Words.{word_nodump, word_preliminary}
use advancescan.Gamexml.Words.{word_no, word_wav, word_yes}
use advancescan.Rom.{Rom, insert_rom, new_rom}
use advancescan.Scan.Sample.{insert_sample}
use advancescan.Strcov.{strdec, strhex}
use advancescan.Zip.Archive.{bytes_eq}

-- enum token_t; token_data with the text s, len
pub data XmlToken : Type 0 where
  token_open token_close : XmlToken
  token_data : Bytes → XmlToken

-- the messages of process_error
pub data XmlError : Type 0 where
  invalid_state invalid_size invalid_crc low_memory read_error syntax_error : XmlError

-- process_t*: which of the functions below
pub data Process : Type 0 where
  game_process runnable_process isbios_process name_process description_process : Process
  manufacturer_process year_process cloneof_process romof_process sampleof_process : Process
  rom_process romsize_process romcrc_process romname_process romstatus_process : Process
  driverstatus_process samplename_process disk_process diskname_process disksha1_process : Process

-- level_t. `none` is the pointer 0, of the data and of the process.
pub record Level : Type 0 where
  pub tag : Bytes
  pub text : Option Bytes
  pub process : Option Process

-- state_t. `opened` is depth + 1, and `level` are the levels of the array up to depth, the last first.
-- `current_rom`, `current_disk` and `current_game` are r, d and g, and `games` is what a points to.
pub record XmlState : Type 0 where
  pub opened : ℕ
  pub level : List Level
  pub error : Option XmlError
  pub current_rom : Option Rom
  pub current_disk : Option DiskInfo
  pub current_game : Option Listed
  pub games : List Listed

abbrev pub process_error : XmlError → XmlState → XmlState
process_error e st = record st { error = some e }

-- what is done with the game, the rom or the disk, which has to be there
abbrev pub with_game : (Listed → XmlState → XmlState) → XmlState → XmlState
with_game f st = elim st.current_game [ none ↦ process_error invalid_state st | some g ↦ f g st ]

abbrev pub with_rom : (Rom → XmlState → XmlState) → XmlState → XmlState
with_rom f st = elim st.current_rom [ none ↦ process_error invalid_state st | some r ↦ f r st ]

abbrev pub with_disk : (DiskInfo → XmlState → XmlState) → XmlState → XmlState
with_disk f st = elim st.current_disk [ none ↦ process_error invalid_state st | some d ↦ f d st ]

abbrev pub put_game : Listed → XmlState → XmlState
put_game g st = record st { current_game = some g }

abbrev pub put_rom : Rom → XmlState → XmlState
put_rom r st = record st { current_rom = some r }

abbrev pub put_disk : DiskInfo → XmlState → XmlState
put_disk d st = record st { current_disk = some d }

-- if (t == token_data) { if (!state->g) ... }, and the same with r
abbrev pub game_text : (Bytes → Listed → Listed) → XmlToken → XmlState → XmlState
game_text f (token_data s) st = with_game (λ g. put_game (f s g)) st
game_text f _ st = st

abbrev pub rom_text : (Bytes → Rom → XmlState → XmlState) → XmlToken → XmlState → XmlState
rom_text f (token_data s) st = with_rom (f s) st
rom_text f _ st = st

abbrev pub process_game : XmlToken → XmlState → XmlState
process_game token_open st = put_game (new_listed false) st
process_game token_close st =
    with_game (λ g st. record st { current_game = none; games = insert_listed g st.games }) st
process_game (token_data s) st = st

abbrev pub process_runnable : XmlToken → XmlState → XmlState
process_runnable =
    game_text (λ s g. if not g.resource then record g { resource = bytes_eq s word_no } else g)

abbrev pub process_isbios : XmlToken → XmlState → XmlState
process_isbios = game_text (λ s g. record g { resource = bytes_eq s word_yes })

abbrev pub process_name : XmlToken → XmlState → XmlState
process_name = game_text (λ s g. record g { name = s })

abbrev pub process_description : XmlToken → XmlState → XmlState
process_description = game_text (λ s g. record g { description = s })

abbrev pub process_manufacturer : XmlToken → XmlState → XmlState
process_manufacturer = game_text (λ s g. record g { manufacturer = s })

abbrev pub process_year : XmlToken → XmlState → XmlState
process_year = game_text (λ s g. record g { year = s })

abbrev pub process_cloneof : XmlToken → XmlState → XmlState
process_cloneof = game_text (λ s g. record g { cloneof = s })

abbrev pub process_romof : XmlToken → XmlState → XmlState
process_romof = game_text (λ s g. record g { romof = s })

abbrev pub process_sampleof : XmlToken → XmlState → XmlState
process_sampleof = game_text (λ s g. record g { sampleof = s })

-- the rom goes into the game; r is used without a test
abbrev pub store_rom : Option Rom → Listed → XmlState → Result XmlState
store_rom none g st = err null_used
store_rom (some r) g st = ok (record st {
  current_rom = none;
  current_game = some (record g { roms = insert_rom r g.roms });
})

abbrev pub process_rom : XmlToken → XmlState → Result XmlState
process_rom token_open st = ok (put_rom new_rom st)
process_rom token_close st = elim st.current_game [
  | none ↦ ok (process_error invalid_state st)
  | some g ↦ store_rom st.current_rom g st
]
process_rom (token_data s) st = ok st

-- what strdec or strhex have read, where nothing is behind it
abbrev pub whole_number : XmlError → (ℕ → XmlState → XmlState) → ℕ × Bytes → XmlState → XmlState
whole_number bad use_value (z, []) st = use_value z st
whole_number bad use_value (z, _ ∷ _) st = process_error bad st

abbrev pub process_romsize : XmlToken → XmlState → XmlState
process_romsize =
    rom_text (λ s r. whole_number invalid_size (λ z. put_rom (record r { size = z })) (strdec s))

abbrev pub process_romcrc : XmlToken → XmlState → XmlState
process_romcrc =
    rom_text (λ s r. whole_number invalid_crc (λ z. put_rom (record r { crc = z })) (strhex s))

abbrev pub process_romname : XmlToken → XmlState → XmlState
process_romname = rom_text (λ s r. put_rom (record r { name = s }))

abbrev pub process_romstatus : XmlToken → XmlState → XmlState
process_romstatus =
    rom_text (λ s r. put_rom (if bytes_eq s word_nodump then record r { nodump = true } else r))

abbrev pub process_driverstatus : XmlToken → XmlState → XmlState
process_driverstatus =
    game_text (λ s g. if bytes_eq s word_preliminary then record g { working = false } else g)

-- name.find('.') == string::npos
unfoldable pub lacks_dot : Bytes → Bool
lacks_dot [] = true
lacks_dot (c ∷ name) = let rest = lacks_dot name in if c == b'.' then false else rest

abbrev pub process_samplename : XmlToken → XmlState → XmlState
process_samplename = game_text (λ s g. record g {
  samples = insert_sample (if lacks_dot s then s ++ word_wav else s) g.samples;
})

-- disk_by_name_set::insert
unfoldable pub insert_disk : DiskInfo → List DiskInfo → List DiskInfo
insert_disk d [] = d ∷ []
insert_disk d (x ∷ ds) =
    let rest = insert_disk d ds in if same_name x.name d.name then x ∷ ds else x ∷ rest

-- disk::disk(); the hash is 20 bytes 0
abbrev pub new_disk : DiskInfo
new_disk = record { name = []; hash = replicate 20 0 }

-- the disk goes into the game; d is used without a test
abbrev pub store_disk : Option DiskInfo → Listed → XmlState → Result XmlState
store_disk none g st = err null_used
store_disk (some d) g st = ok (record st {
  current_disk = none;
  current_game = some (record g { disks = insert_disk d g.disks });
})

abbrev pub process_disk : XmlToken → XmlState → Result XmlState
process_disk token_open st = ok (put_disk new_disk st)
process_disk token_close st = elim st.current_game [
  | none ↦ ok (process_error invalid_state st)
  | some g ↦ store_disk st.current_disk g st
]
process_disk (token_data s) st = ok st

abbrev pub process_diskname : XmlToken → XmlState → XmlState
process_diskname (token_data s) st = with_disk (λ d. put_disk (record d { name = s })) st
process_diskname _ st = st

-- the constructor of sha1 may throw
abbrev pub process_disksha1 : XmlToken → XmlState → Result XmlState
process_disksha1 (token_data s) st = elim st.current_disk [
  | none ↦ ok (process_error invalid_state st)
  | some d ↦ sha1_of_string s >>= λ hash. ok (put_disk (record d { hash = hash }) st)
]
process_disksha1 _ st = ok st
