-- ===== src/Gamexml/Needs.antt =====
-- gamexml.cc: the game, the rom and the disk that the functions process_* use.
use advancescan.Base.{
  Bool, Error, List, Option, Result, err, false, none, null_used, ok, some, true, ℕ, ◌&&◌, ◌≡◌, ◌≢◌,
}
use advancescan.Game.{DiskInfo}
use advancescan.Gameinfo.{Listed}
use advancescan.Gamexml.{
  Level, Process, XmlError, XmlState, cloneof_process, description_process, disk_process,
  diskname_process, disksha1_process, driverstatus_process, game_process, invalid_crc, invalid_size,
  isbios_process, manufacturer_process, name_process, rom_process, romcrc_process, romname_process,
  romof_process, romsize_process, romstatus_process, runnable_process, samplename_process,
  sampleof_process, year_process,
}
use advancescan.Rom.{Rom}

abbrev pub is_there {ℓ} : {A : Type ℓ} → Option A → Bool
is_there none = false
is_there (some _) = true

-- whether the function has what it uses, from whether there is a game, a rom and a disk
unfoldable pub is_served : Process → Bool → Bool → Bool → Bool
is_served game_process g r d = g
is_served runnable_process g r d = g
is_served isbios_process g r d = g
is_served name_process g r d = g
is_served description_process g r d = g
is_served manufacturer_process g r d = g
is_served year_process g r d = g
is_served cloneof_process g r d = g
is_served romof_process g r d = g
is_served sampleof_process g r d = g
is_served rom_process g r d = g && r
is_served romsize_process g r d = r
is_served romcrc_process g r d = r
is_served romname_process g r d = r
is_served romstatus_process g r d = r
is_served driverstatus_process g r d = g
is_served samplename_process g r d = g
is_served disk_process g r d = g && d
is_served diskname_process g r d = d
is_served disksha1_process g r d = d

-- what the function brings in when it opens, and takes away when it closes
abbrev pub is_game : Process → Bool
is_game game_process = true
is_game _ = false

abbrev pub is_rom : Process → Bool
is_rom rom_process = true
is_rom _ = false

abbrev pub is_disk : Process → Bool
is_disk disk_process = true
is_disk _ = false

-- what a call may do to the error
pub data ErrorStep (e : Option XmlError) : Option XmlError → Type 0 where
  no_new_error : ErrorStep e e
  bad_size : ErrorStep e (some invalid_size)
  bad_crc : ErrorStep e (some invalid_crc)

-- A call leaves the levels as they are, and these things are there; or it throws, but has not used
-- a null pointer.
pub data CallEnds (st : XmlState) (g r d : Bool) : Result XmlState → Type 0 where
  call_ends :
      (st1 : XmlState)
      → st1.opened ≡ st.opened
      → st1.level ≡ st.level
      → ErrorStep st.error st1.error
      → is_there st1.current_game ≡ g
      → is_there st1.current_rom ≡ r
      → is_there st1.current_disk ≡ d
      → CallEnds st g r d (ok st1)
  call_throws : (e : Error) → e ≢ null_used → CallEnds st g r d (err e)

-- the state, field by field
abbrev pub state_of :
    ℕ
    → List Level
    → Option XmlError
    → List Listed
    → Option Listed
    → Option Rom
    → Option DiskInfo
    → XmlState
state_of o l e a g r d = record {
  opened = o;
  level = l;
  error = e;
  current_rom = r;
  current_disk = d;
  current_game = g;
  games = a;
}
