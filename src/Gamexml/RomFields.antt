-- ===== src/Gamexml/RomFields.antt =====
-- gamexml.cc: the handlers within roms, disks, drivers and samples.
use advancescan.Base.{Bytes, List, [], ap, arith, length, none, ok, refl, some, ℕ, ◌∷◌, ◌≡◌}
use advancescan.Disk.{print_hash}
use advancescan.Disk.Laws.{IsBytes, length-print_hash, sha1_of_string-print_hash}
use advancescan.Game.{DiskInfo}
use advancescan.Gameinfo.{Listed}
use advancescan.Gameinfo.Words.{
  word_crc, word_driver, word_name, word_nodump, word_preliminary, word_rom, word_sample, word_size,
  word_status,
}
use advancescan.Gamexml.{
  XmlError, XmlState, disk_process, diskname_process, disksha1_process, driverstatus_process,
  invalid_crc, invalid_size, put_rom, rom_process, romcrc_process, romname_process, romsize_process,
  romstatus_process, samplename_process, whole_number,
}
use advancescan.Gamexml.Fields.{
  Setting, game_level, nodump_step, one_element, root_level, short_text, working_step,
}
use advancescan.Gamexml.Filling.{IsShort}
use advancescan.Gamexml.Handlers.{data_handler, end_handler, run_process, start_element}
use advancescan.Gamexml.Listing.{
  IsRomText, RomField, crc_field, driver_item, rom_word, romname_field, sample_item, set_rom,
  size_field, status_field, with_item,
}
use advancescan.Gamexml.Needs.{state_of}
use advancescan.Gamexml.Table.{identify}
use advancescan.Gamexml.Words.{word_disk, word_sha1}
use advancescan.Rom.{Rom}
use advancescan.Strcov.{strdec, strhex}
use advancescan.Zip.Archive.{bytes_eq}

module _ (k : Setting) where
  -- within a rom
  unfoldable pub rom_state : List Listed → Listed → Rom → XmlState
  rom_state gs g r =
      state_of 3
        (record { tag = word_rom; text = none; process = some rom_process }
          ∷ game_level k
          ∷ root_level k
          ∷ [])
        none gs (some g) (some r) none

  number_step :
      (bad : XmlError) (q : ℕ × Bytes) (f : ℕ → Rom) (st : XmlState)
      → q.1 ≡ []
      → whole_number bad (λ z. put_rom (f z)) q st ≡ put_rom (f q.0) st
  number_step bad (z, []) f st e = refl
  number_step bad (z, c ∷ rest) f st e = absurd cc

  pub rom_step :
      (f : RomField) (v : Bytes) (gs : List Listed) (g : Listed) (r : Rom)
      → IsRomText f v
      → one_element k (rom_word f) v (rom_state gs g r) ≡ ok (rom_state gs g (set_rom f v r))
  unfolding rom_state start_element identify bytes_eq data_handler end_handler run_process
  rom_step romname_field v gs g r h =
      rw (k.is_machine, k.is_root)
        (rw (short_text k word_name romname_process v (rom_state gs g r) h) refl)
  rom_step size_field v gs g r h =
      rw (k.is_machine, k.is_root)
        (rw (short_text k word_size romsize_process v (rom_state gs g r) (h.0)) (
          ap {A = XmlState} (λ x. ok (record x { opened = 3; level = (rom_state gs g r).level }))
            (number_step invalid_size (strdec v) (λ z. record r { size = z })
              (record (rom_state gs g r) {
                opened = 4;
                level =
                    record { tag = word_size; text = some v; process = some romsize_process }
                    ∷ (rom_state gs g r).level;
              })
              (h.1))))
  rom_step crc_field v gs g r h =
      rw (k.is_machine, k.is_root)
        (rw (short_text k word_crc romcrc_process v (rom_state gs g r) (h.0)) (
          ap {A = XmlState} (λ x. ok (record x { opened = 3; level = (rom_state gs g r).level }))
            (number_step invalid_crc (strhex v) (λ z. record r { crc = z })
              (record (rom_state gs g r) {
                opened = 4;
                level =
                    record { tag = word_crc; text = some v; process = some romcrc_process }
                    ∷ (rom_state gs g r).level;
              })
              (h.1))))
  rom_step status_field v gs g r h =
      rw (k.is_machine, k.is_root)
        (rw (short_text k word_status romstatus_process v (rom_state gs g r) h)
          (ap (λ x. ok (rom_state gs g x)) (nodump_step r r.nodump (bytes_eq v word_nodump))))

  -- within a disk
  unfoldable pub disk_state : List Listed → Listed → DiskInfo → XmlState
  disk_state gs g d =
      state_of 3
        (record { tag = word_disk; text = none; process = some disk_process }
          ∷ game_level k
          ∷ root_level k
          ∷ [])
        none gs (some g) none (some d)

  pub diskname_step :
      (v : Bytes) (gs : List Listed) (g : Listed) (d : DiskInfo)
      → IsShort v
      → one_element k word_name v (disk_state gs g d) ≡ ok (disk_state gs g (record d { name = v }))
  unfolding disk_state start_element identify bytes_eq data_handler end_handler run_process
  diskname_step v gs g d h =
      rw (k.is_machine, k.is_root)
        (rw (short_text k word_name diskname_process v (disk_state gs g d) h) refl)

  pub disksha1_step :
      (hash : Bytes) (gs : List Listed) (g : Listed) (d : DiskInfo)
      → IsBytes hash
      → length hash ≡ 20
      → one_element k word_sha1 (print_hash hash) (disk_state gs g d)
        ≡ ok (disk_state gs g (record d { hash = hash }))
  unfolding disk_state start_element identify bytes_eq data_handler end_handler run_process
  disksha1_step hash gs g d h e =
      rw (k.is_machine, k.is_root)
        (rw
          (short_text k word_sha1 disksha1_process (print_hash hash) (disk_state gs g d)
            (omega (arith, length-print_hash hash, e)))
          (rw (sha1_of_string-print_hash hash h e) refl))

  -- within an element that is not in the table
  unfoldable pub other_state : Bytes → List Listed → Listed → XmlState
  other_state tag gs g =
      state_of 3
        (record { tag = tag; text = none; process = none } ∷ game_level k ∷ root_level k ∷ []) none
        gs (some g) none none

  pub driver_step :
      (v : Bytes) (gs : List Listed) (g : Listed)
      → IsShort v
      → one_element k word_status v (other_state word_driver gs g)
        ≡ ok (other_state word_driver gs (with_item (driver_item [] v []) g))
  unfolding other_state start_element identify bytes_eq data_handler end_handler run_process
  driver_step v gs g h =
      rw (k.is_machine, k.is_root)
        (rw (short_text k word_status driverstatus_process v (other_state word_driver gs g) h) (
          ap (λ x. ok (other_state word_driver gs x))
            (working_step g g.working (bytes_eq v word_preliminary))))

  pub sample_step :
      (v : Bytes) (gs : List Listed) (g : Listed)
      → IsShort v
      → one_element k word_name v (other_state word_sample gs g)
        ≡ ok (other_state word_sample gs (with_item (sample_item [] v []) g))
  unfolding other_state start_element identify bytes_eq data_handler end_handler run_process
  sample_step v gs g h =
      rw (k.is_machine, k.is_root)
        (rw (short_text k word_name samplename_process v (other_state word_sample gs g) h) refl)
