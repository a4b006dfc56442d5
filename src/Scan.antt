-- ===== src/Scan.antt =====
-- scan.cc: stat_rom_zip, which sorts the files of an archive and the roms of a game.
pub mod Partition
pub mod Store
pub mod Add
pub mod Fix
pub mod Move
pub mod Sample
pub mod DiskScan
pub mod Filter
pub mod RomAdd
use advancescan.Base.{Bool, List, Option, [], false, none, some, true, ℕ, ◌&&◌, ◌++◌, ◌==◌, ◌∷◌}
use advancescan.Analyze.{
  AnalyzeEntry, AnalyzeType, analyze, analyze_binary, analyze_garbage, analyze_text,
}
use advancescan.Rom.{Rom, erase_rom, find_rom, insert_rom}
use advancescan.Zip.Entry.{Entry}

-- rom_bad
pub record RomBad : Type 0 where
  pub rom : Rom
  pub bad_size : ℕ
  pub bad_crc : ℕ

-- rom_stat_t
pub record RomStat : Type 0 where
  pub rom_miss : List Rom
  pub rom_equal : List Rom
  pub rom_bad : List RomBad
  pub unk_binary : List Rom
  pub unk_text : List Rom
  pub unk_garbage : List Rom
  pub nodump_equal : List Rom
  pub nodump_bad : List RomBad
  pub nodump_miss : List Rom

abbrev pub new_rom_stat : RomStat
new_rom_stat = record {
  rom_miss = [];
  rom_equal = [];
  rom_bad = [];
  unk_binary = [];
  unk_text = [];
  unk_garbage = [];
  nodump_equal = [];
  nodump_bad = [];
  nodump_miss = [];
}

-- the switch on the type of an unknown file
unfoldable pub stat_unknown : AnalyzeType → Rom → RomStat → RomStat
stat_unknown analyze_text r s = record s { unk_text = insert_rom r s.unk_text }
stat_unknown analyze_binary r s = record s { unk_binary = insert_rom r s.unk_binary }
stat_unknown analyze_garbage r s = record s { unk_garbage = insert_rom r s.unk_garbage }

-- z->uncompressed_size_get() == i->size_get() && z->crc_get() == i->crc_get()
abbrev pub is_good : Entry → Rom → Bool
is_good z i = z.info.uncompressed_size == i.size && z.info.crc32 == i.crc

abbrev pub rom_bad_of : Entry → Rom → RomBad
rom_bad_of z i = record { rom = i; bad_size = z.info.uncompressed_size; bad_crc = z.info.crc32 }

-- the branches for a name that the game knows, by whether the rom is a nodump, and whether the
-- file is good
unfoldable pub stat_branch : Bool → Bool → Entry → Rom → RomStat → RomStat
stat_branch true true z i s = record s { nodump_equal = insert_rom i s.nodump_equal }
stat_branch true false z i s = record s { nodump_bad = s.nodump_bad ++ rom_bad_of z i ∷ [] }
stat_branch false true z i s = record s { rom_equal = insert_rom i s.rom_equal }
stat_branch false false z i s = record s { rom_bad = s.rom_bad ++ rom_bad_of z i ∷ [] }

unfoldable pub stat_known : Entry → Rom → RomStat → RomStat
stat_known z i s = stat_branch i.nodump (is_good z i) z i s

-- One round of the loop over the archive: the bag of roms that are left, and the statistics.
unfoldable pub stat_entry :
    List AnalyzeEntry → Entry → Option Rom → List Rom × RomStat → List Rom × RomStat
stat_entry garbage z none (b, s) = (
  b,
  stat_unknown (analyze garbage z.file_name z.info.uncompressed_size z.info.crc32)
      (record {
        name = z.file_name;
        size = z.info.uncompressed_size;
        crc = z.info.crc32;
        nodump = false;
      })
      s,
)
stat_entry garbage z (some i) (b, s) = (erase_rom z.file_name b, stat_known z i s)

unfoldable pub stat_entries :
    List AnalyzeEntry → List Entry → List Rom × RomStat → List Rom × RomStat
stat_entries garbage [] bs = bs
stat_entries garbage (z ∷ zs) bs =
    stat_entries garbage zs (stat_entry garbage z (find_rom z.file_name (bs.0)) bs)

-- the loop over the bag
unfoldable pub stat_miss : Bool → Rom → RomStat → RomStat
stat_miss true i s = record s { nodump_miss = insert_rom i s.nodump_miss }
stat_miss false i s = record s { rom_miss = insert_rom i s.rom_miss }

unfoldable pub stat_missing : List Rom → RomStat → RomStat
stat_missing [] s = s
stat_missing (i ∷ b) s = stat_missing b (stat_miss i.nodump i s)

-- stat_rom_zip, of the entries of the archive and the roms of the game
unfoldable pub stat_rom_zip : List AnalyzeEntry → List Entry → List Rom → RomStat → RomStat
stat_rom_zip garbage zd roms s =
    let (b, s1) = stat_entries garbage zd (roms, s) in stat_missing b s1
