-- ===== src/Gamexml/TokenCalls.antt =====
-- gamexml.cc: how the calls of the functions process_* end.
use advancescan.Base.{
  Bytes, List, Option, Result, [], err, none, not, ok, refl, some, true, ℕ, ◌&&◌, ◌>>=◌, ◌||◌, ◌∷◌,
  ◌≡◌,
}
use advancescan.Disk.{sha1_of_string}
use advancescan.Game.{DiskInfo}
use advancescan.Gameinfo.{Listed}
use advancescan.Gamexml.{
  Level, Process, XmlError, cloneof_process, description_process, disk_process, diskname_process,
  disksha1_process, driverstatus_process, game_process, invalid_crc, invalid_size, isbios_process,
  manufacturer_process, name_process, process_disksha1, put_disk, put_rom, rom_process,
  romcrc_process, romname_process, romof_process, romsize_process, romstatus_process,
  runnable_process, samplename_process, sampleof_process, token_close, token_data, token_open,
  whole_number, with_rom, year_process,
}
use advancescan.Gamexml.Handlers.{run_process}
use advancescan.Gamexml.Needs.{
  CallEnds, ErrorStep, bad_crc, bad_size, call_ends, call_throws, is_disk, is_game, is_rom,
  is_served, is_there, no_new_error, state_of,
}
use advancescan.Gamexml.Safe.{IsSafe, sha1_of_string-IsSafe}
use advancescan.Rom.{Rom}
use advancescan.Strcov.{strdec, strhex}

-- what a text does to the game, the rom or the disk
module _ (o : ℕ) (l : List Level) (e : Option XmlError) (a : List Listed) where
  number-CallEnds :
      (bad : XmlError) (f : Rom → ℕ → Rom) (q : ℕ × Bytes) (g : Option Listed) (r : Option Rom)
      (d : Option DiskInfo)
      → ErrorStep e (some bad)
      → is_there r ≡ true
      → CallEnds
          (state_of o l e a g r d)
          (is_there g)
          true
          (is_there d)
          (ok (with_rom (λ r. whole_number bad (λ z. put_rom (f r z)) q) (state_of o l e a g r d)))
  number-CallEnds bad f q g none d b h = absurd cc
  number-CallEnds bad f (z, []) g (some r) d b h = call_ends _ refl refl no_new_error refl refl refl
  number-CallEnds bad f (z, c ∷ s) g (some r) d b h = call_ends _ refl refl b refl refl refl

  hash-CallEnds :
      (c : DiskInfo) (m : Result Bytes) (g : Option Listed) (r : Option Rom) (d : Option DiskInfo)
      → IsSafe m
      → CallEnds
          (state_of o l e a g r d)
          (is_there g)
          (is_there r)
          true
          (m >>= λ hash. ok (put_disk (record c { hash = hash }) (state_of o l e a g r d)))
  hash-CallEnds c (err x) g r d n = call_throws x n
  hash-CallEnds c (ok hash) g r d n = call_ends _ refl refl no_new_error refl refl refl

  hashes-CallEnds :
      (s : Bytes) (g : Option Listed) (r : Option Rom) (d : Option DiskInfo)
      → is_there d ≡ true
      → CallEnds
          (state_of o l e a g r d)
          (is_there g)
          (is_there r)
          true
          (process_disksha1 (token_data s) (state_of o l e a g r d))
  hashes-CallEnds s g r none h = absurd cc
  hashes-CallEnds s g r (some d) h =
      hash-CallEnds d (sha1_of_string s) g r (some d) (sha1_of_string-IsSafe s)

  -- the call of a function at a text
  pub data-CallEnds :
      (p : Process) (s : Bytes) (g : Option Listed) (r : Option Rom) (d : Option DiskInfo)
      → is_served p (is_there g) (is_there r) (is_there d) ≡ true
      → CallEnds
          (state_of o l e a g r d)
          (is_there g)
          (is_there r)
          (is_there d)
          (run_process p (token_data s) (state_of o l e a g r d))
  unfolding is_served run_process
  data-CallEnds game_process s g r d h = call_ends _ refl refl no_new_error refl refl refl
  data-CallEnds runnable_process s none r d h = absurd cc
  data-CallEnds runnable_process s (some g) r d h =
      call_ends _ refl refl no_new_error refl refl refl
  data-CallEnds isbios_process s none r d h = absurd cc
  data-CallEnds isbios_process s (some g) r d h = call_ends _ refl refl no_new_error refl refl refl
  data-CallEnds name_process s none r d h = absurd cc
  data-CallEnds name_process s (some g) r d h = call_ends _ refl refl no_new_error refl refl refl
  data-CallEnds description_process s none r d h = absurd cc
  data-CallEnds description_process s (some g) r d h =
      call_ends _ refl refl no_new_error refl refl refl
  data-CallEnds manufacturer_process s none r d h = absurd cc
  data-CallEnds manufacturer_process s (some g) r d h =
      call_ends _ refl refl no_new_error refl refl refl
  data-CallEnds year_process s none r d h = absurd cc
  data-CallEnds year_process s (some g) r d h = call_ends _ refl refl no_new_error refl refl refl
  data-CallEnds cloneof_process s none r d h = absurd cc
  data-CallEnds cloneof_process s (some g) r d h = call_ends _ refl refl no_new_error refl refl refl
  data-CallEnds romof_process s none r d h = absurd cc
  data-CallEnds romof_process s (some g) r d h = call_ends _ refl refl no_new_error refl refl refl
  data-CallEnds sampleof_process s none r d h = absurd cc
  data-CallEnds sampleof_process s (some g) r d h =
      call_ends _ refl refl no_new_error refl refl refl
  data-CallEnds rom_process s g r d h = call_ends _ refl refl no_new_error refl refl refl
  data-CallEnds romsize_process s g r d h =
      rw h (number-CallEnds invalid_size (λ r z. record r { size = z }) (strdec s) g r d bad_size h)
  data-CallEnds romcrc_process s g r d h =
      rw h (number-CallEnds invalid_crc (λ r z. record r { crc = z }) (strhex s) g r d bad_crc h)
  data-CallEnds romname_process s g none d h = absurd cc
  data-CallEnds romname_process s g (some r) d h = call_ends _ refl refl no_new_error refl refl refl
  data-CallEnds romstatus_process s g none d h = absurd cc
  data-CallEnds romstatus_process s g (some r) d h =
      call_ends _ refl refl no_new_error refl refl refl
  data-CallEnds driverstatus_process s none r d h = absurd cc
  data-CallEnds driverstatus_process s (some g) r d h =
      call_ends _ refl refl no_new_error refl refl refl
  data-CallEnds samplename_process s none r d h = absurd cc
  data-CallEnds samplename_process s (some g) r d h =
      call_ends _ refl refl no_new_error refl refl refl
  data-CallEnds disk_process s g r d h = call_ends _ refl refl no_new_error refl refl refl
  data-CallEnds diskname_process s g r none h = absurd cc
  data-CallEnds diskname_process s g r (some d) h =
      call_ends _ refl refl no_new_error refl refl refl
  data-CallEnds disksha1_process s g r d h = rw h (hashes-CallEnds s g r d h)

  -- the call of a function that opens
  pub open-CallEnds :
      (p : Process) (g : Option Listed) (r : Option Rom) (d : Option DiskInfo)
      → CallEnds
          (state_of o l e a g r d)
          (is_game p || is_there g)
          (is_rom p || is_there r)
          (is_disk p || is_there d)
          (run_process p token_open (state_of o l e a g r d))
  unfolding run_process
  open-CallEnds game_process g r d = call_ends _ refl refl no_new_error refl refl refl
  open-CallEnds runnable_process g r d = call_ends _ refl refl no_new_error refl refl refl
  open-CallEnds isbios_process g r d = call_ends _ refl refl no_new_error refl refl refl
  open-CallEnds name_process g r d = call_ends _ refl refl no_new_error refl refl refl
  open-CallEnds description_process g r d = call_ends _ refl refl no_new_error refl refl refl
  open-CallEnds manufacturer_process g r d = call_ends _ refl refl no_new_error refl refl refl
  open-CallEnds year_process g r d = call_ends _ refl refl no_new_error refl refl refl
  open-CallEnds cloneof_process g r d = call_ends _ refl refl no_new_error refl refl refl
  open-CallEnds romof_process g r d = call_ends _ refl refl no_new_error refl refl refl
  open-CallEnds sampleof_process g r d = call_ends _ refl refl no_new_error refl refl refl
  open-CallEnds rom_process g r d = call_ends _ refl refl no_new_error refl refl refl
  open-CallEnds romsize_process g r d = call_ends _ refl refl no_new_error refl refl refl
  open-CallEnds romcrc_process g r d = call_ends _ refl refl no_new_error refl refl refl
  open-CallEnds romname_process g r d = call_ends _ refl refl no_new_error refl refl refl
  open-CallEnds romstatus_process g r d = call_ends _ refl refl no_new_error refl refl refl
  open-CallEnds driverstatus_process g r d = call_ends _ refl refl no_new_error refl refl refl
  open-CallEnds samplename_process g r d = call_ends _ refl refl no_new_error refl refl refl
  open-CallEnds disk_process g r d = call_ends _ refl refl no_new_error refl refl refl
  open-CallEnds diskname_process g r d = call_ends _ refl refl no_new_error refl refl refl
  open-CallEnds disksha1_process g r d = call_ends _ refl refl no_new_error refl refl refl

  -- the call of a function that closes
  pub close-CallEnds :
      (p : Process) (g : Option Listed) (r : Option Rom) (d : Option DiskInfo)
      → is_served p (is_there g) (is_there r) (is_there d) ≡ true
      → CallEnds
          (state_of o l e a g r d)
          (not (is_game p) && is_there g)
          (not (is_rom p) && is_there r)
          (not (is_disk p) && is_there d)
          (run_process p token_close (state_of o l e a g r d))
  unfolding is_served run_process
  close-CallEnds game_process none r d h = absurd cc
  close-CallEnds game_process (some g) r d h = call_ends _ refl refl no_new_error refl refl refl
  close-CallEnds runnable_process g r d h = call_ends _ refl refl no_new_error refl refl refl
  close-CallEnds isbios_process g r d h = call_ends _ refl refl no_new_error refl refl refl
  close-CallEnds name_process g r d h = call_ends _ refl refl no_new_error refl refl refl
  close-CallEnds description_process g r d h = call_ends _ refl refl no_new_error refl refl refl
  close-CallEnds manufacturer_process g r d h = call_ends _ refl refl no_new_error refl refl refl
  close-CallEnds year_process g r d h = call_ends _ refl refl no_new_error refl refl refl
  close-CallEnds cloneof_process g r d h = call_ends _ refl refl no_new_error refl refl refl
  close-CallEnds romof_process g r d h = call_ends _ refl refl no_new_error refl refl refl
  close-CallEnds sampleof_process g r d h = call_ends _ refl refl no_new_error refl refl refl
  close-CallEnds rom_process none r d h = absurd cc
  close-CallEnds rom_process (some g) none d h = absurd cc
  close-CallEnds rom_process (some g) (some r) d h =
      call_ends _ refl refl no_new_error refl refl refl
  close-CallEnds romsize_process g r d h = call_ends _ refl refl no_new_error refl refl refl
  close-CallEnds romcrc_process g r d h = call_ends _ refl refl no_new_error refl refl refl
  close-CallEnds romname_process g r d h = call_ends _ refl refl no_new_error refl refl refl
  close-CallEnds romstatus_process g r d h = call_ends _ refl refl no_new_error refl refl refl
  close-CallEnds driverstatus_process g r d h = call_ends _ refl refl no_new_error refl refl refl
  close-CallEnds samplename_process g r d h = call_ends _ refl refl no_new_error refl refl refl
  close-CallEnds disk_process none r d h = absurd cc
  close-CallEnds disk_process (some g) r none h = absurd cc
  close-CallEnds disk_process (some g) r (some d) h =
      call_ends _ refl refl no_new_error refl refl refl
  close-CallEnds diskname_process g r d h = call_ends _ refl refl no_new_error refl refl refl
  close-CallEnds disksha1_process g r d h = call_ends _ refl refl no_new_error refl refl refl
