-- ===== src/Gamexml/Handlers.antt =====
-- gamexml.cc: the handlers of the events of expat, and load_xml. What expat makes of the file is an
-- argument: the events it reports, and how it ends.
use advancescan.Base.{
  Bool, Bytes, List, Option, Result, [], err, failed, if◌then◌else◌, length, ltb, none, ok, overrun,
  some, suc, zero, ℕ, ◌%◌, ◌++◌, ◌+◌, ◌>>=◌, ◌∷◌,
}
use advancescan.Gameinfo.{Listed}
use advancescan.Gamexml.{
  Level, Process, XmlError, XmlState, XmlToken, cloneof_process, description_process, disk_process,
  diskname_process, disksha1_process, driverstatus_process, game_process, isbios_process,
  low_memory, manufacturer_process, name_process, process_cloneof, process_description,
  process_disk, process_diskname, process_disksha1, process_driverstatus, process_error,
  process_game, process_isbios, process_manufacturer, process_name, process_rom, process_romcrc,
  process_romname, process_romof, process_romsize, process_romstatus, process_runnable,
  process_samplename, process_sampleof, process_year, rom_process, romcrc_process, romname_process,
  romof_process, romsize_process, romstatus_process, runnable_process, samplename_process,
  sampleof_process, token_close, token_data, token_open, year_process,
}
use advancescan.Gamexml.Table.{identify}

-- the call of the function of a level, where it has one
unfoldable pub run_process : Process → XmlToken → XmlState → Result XmlState
run_process game_process t st = ok (process_game t st)
run_process runnable_process t st = ok (process_runnable t st)
run_process isbios_process t st = ok (process_isbios t st)
run_process name_process t st = ok (process_name t st)
run_process description_process t st = ok (process_description t st)
run_process manufacturer_process t st = ok (process_manufacturer t st)
run_process year_process t st = ok (process_year t st)
run_process cloneof_process t st = ok (process_cloneof t st)
run_process romof_process t st = ok (process_romof t st)
run_process sampleof_process t st = ok (process_sampleof t st)
run_process rom_process t st = process_rom t st
run_process romsize_process t st = ok (process_romsize t st)
run_process romcrc_process t st = ok (process_romcrc t st)
run_process romname_process t st = ok (process_romname t st)
run_process romstatus_process t st = ok (process_romstatus t st)
run_process driverstatus_process t st = ok (process_driverstatus t st)
run_process samplename_process t st = ok (process_samplename t st)
run_process disk_process t st = process_disk t st
run_process diskname_process t st = ok (process_diskname t st)
run_process disksha1_process t st = process_disksha1 t st

-- DEPTH_MAX
abbrev pub depth_max : ℕ
depth_max = 5

abbrev pub text_of : Option Bytes → Bytes
text_of none = []
text_of (some text) = text

-- the calls of the function of a level that ends
abbrev pub close_level : Level → XmlState → Result XmlState
close_level l st = elim st.error [
  | some e ↦ ok st
  | none ↦ elim l.process [
    | none ↦ ok st
    | some p ↦ run_process p (token_data (text_of l.text)) st >>= run_process p token_close
  ]
]

-- end_handler. Without an open element, level[-1] is read.
unfoldable pub end_handler : XmlState → Result XmlState
end_handler st = elim st.opened [
  | zero ↦ err overrun
  | suc depth ↦
      if ltb depth depth_max
      then elim st.level [
        | [] ↦ err overrun
        | l ∷ level ↦ close_level l st >>= λ st1. ok (record st1 { opened = depth; level = level })
      ]
      else ok (record st { opened = depth })
]

-- realloc and memcpy; `alloc` is whether realloc has this many bytes, and memcpy overruns the
-- buffer where new_len has wrapped.
abbrev pub add_text : (ℕ → Bool) → Bytes → Level → List Level → XmlState → Result XmlState
add_text alloc s l level st =
    let new_len = length (text_of l.text) + length s in
    if alloc (new_len % 4294967296)
    then if ltb new_len 4294967296
      then ok (record st { level = record l { text = some (text_of l.text ++ s) } ∷ level })
      else err overrun
    else ok (process_error low_memory (record st { level = record l { text = none } ∷ level }))

-- data_handler
unfoldable pub data_handler : (ℕ → Bool) → Bytes → XmlState → Result XmlState
data_handler alloc s st = elim st.opened [
  | zero ↦ err overrun
  | suc depth ↦
      if ltb depth depth_max
      then elim st.error [
        | some e ↦ ok st
        | none ↦ elim st.level [ [] ↦ err overrun | l ∷ level ↦ add_text alloc s l level st ]
      ]
      else ok st
]

abbrev pub push_level : Bytes → Option Process → XmlState → XmlState
push_level tag p st = record st {
  opened = suc st.opened;
  level = record { tag = tag; text = none; process = p } ∷ st.level;
}

-- the process of the new level, and its call
abbrev pub open_level : Bytes → Option Process → XmlState → Result XmlState
open_level tag none st = ok (push_level tag none st)
open_level tag (some p) st = run_process p token_open (push_level tag (some p) st)

abbrev pub tags_of : List Level → List Bytes
tags_of [] = []
tags_of (l ∷ level) = l.tag ∷ tags_of level

-- start_handler without attributes
unfoldable pub start_element : Bytes → XmlState → Result XmlState
start_element tag st =
    if ltb st.opened depth_max
    then elim st.error [
      | some e ↦ ok (push_level tag none st)
      | none ↦ open_level tag (identify st.opened (tag ∷ tags_of st.level)) st
    ]
    else ok (record st { opened = suc st.opened })

-- the loop over the attributes
unfoldable pub attributes_loop : (ℕ → Bool) → List (Bytes × Bytes) → XmlState → Result XmlState
attributes_loop alloc [] st = ok st
attributes_loop alloc ((tag, value) ∷ attributes) st =
    start_element tag st
    >>= data_handler alloc value
    >>= end_handler
    >>= attributes_loop alloc attributes

-- start_handler
unfoldable pub start_handler :
    (ℕ → Bool) → Bytes → List (Bytes × Bytes) → XmlState → Result XmlState
start_handler alloc tag attributes st =
    if ltb st.opened depth_max
    then elim st.error [
      | some e ↦ start_element tag st
      | none ↦ start_element tag st >>= attributes_loop alloc attributes
    ]
    else start_element tag st

-- an event that expat reports
pub data XmlEvent : Type 0 where
  start_event : Bytes → List (Bytes × Bytes) → XmlEvent
  data_event : Bytes → XmlEvent
  end_event : XmlEvent

abbrev pub handle : (ℕ → Bool) → XmlEvent → XmlState → Result XmlState
handle alloc (start_event tag attributes) = start_handler alloc tag attributes
handle alloc (data_event s) = data_handler alloc s
handle alloc end_event = end_handler

unfoldable pub handle_all : (ℕ → Bool) → List XmlEvent → XmlState → Result XmlState
handle_all alloc [] st = ok st
handle_all alloc (e ∷ events) st = handle alloc e st >>= handle_all alloc events

-- the state that load_xml starts from
abbrev pub new_state : XmlState
new_state = record {
  opened = 0;
  level = [];
  error = none;
  current_rom = none;
  current_disk = none;
  current_game = none;
  games = [];
}

-- process_error behind the loop over the file, and what is thrown for the error
abbrev pub last_error : Option XmlError → Option XmlError → Option XmlError
last_error none e = e
last_error (some bad) e = some bad

abbrev pub parse_end : Option XmlError → XmlState → Result (List Listed)
parse_end bad st = elim (last_error bad st.error) [ some e ↦ err failed | none ↦ ok st.games ]

-- load_xml, into an empty gamearchive. `bad` is read_error where the file cannot be read on,
-- syntax_error where XML_Parse fails, and `none` at the end of the file.
unfoldable pub load_xml : (ℕ → Bool) → List XmlEvent → Option XmlError → Result (List Listed)
load_xml alloc events bad = handle_all alloc events new_state >>= parse_end bad
