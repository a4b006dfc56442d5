-- ===== src/Tests/RomTests.antt =====
-- Instances of the theorems about archives of roms and the statistics of a game.
use advancescan.Base.{[], arith, false, ok, refl, some, true, ◌++◌, ◌∷◌, ◌≡◌}
use advancescan.File.{c_str, same_name, same_text}
use advancescan.Game.{Game, good_rom_size, rs_remove_crc, rs_remove_name}
use advancescan.Game.Remove.{HasData, HasNamed, Leaves, rs_remove-Leaves}
use advancescan.Game.Sizes.{HasSizes, Least, least_good-Least}
use advancescan.Rom.{Rom}
use advancescan.Rom.Sets.{IsRomSet, count_roms}
use advancescan.Scan.{new_rom_stat, stat_rom_zip}
use advancescan.Scan.Partition.{count_known, count_known-stat_rom_zip}
use advancescan.Tests.ZipTests.{disk, item, item_a, item_b, two_items}
use advancescan.Zip.Archive.{erase, erase_at, insert, size_not_zero}
use advancescan.Zip.Entry.{Entry, entry_set, is_text, method_get, method_set}
use advancescan.Zip.Entry.Local.{compressed_read}
use advancescan.Zip.Stream.{block}
use advancescan.Ziparchive.{
  Ziparchive, append_ziprom, find, find_exclude, find_exclude_iter, find_file, find_iter,
  insert_keys, key_of, new_ziparchive, update, without,
}
use advancescan.Ziparchive.Index.{after_step, empty_archive, find-find_iter, update_step}
use advancescan.Ziprom.{
  Ziprom, add_entry, erase_found, find_from, find_name, load_ziprom, new_ziprom, remove_name,
  zip_own,
}
use advancescan.Ziprom.Edit.{IsWith, add_entry-IsDistinct, remove_name-others}
use advancescan.Ziprom.Laws.{IsDistinct, others}

abbrev pub box : Ziprom
box = record (new_ziprom (b'z' ∷ []) zip_own false) { zip = two_items }

pub box-IsDistinct : IsDistinct box.zip.entries
unfolding same_name same_text c_str
box-IsDistinct = ((refl, tt), (tt, tt))

remove_name-others_example :
    (r1 : Ziprom) × (remove_name true disk (b'A' ∷ []) box ≡ ok r1)
    × IsWith box r1 (others (b'A' ∷ []) box.zip.entries)
remove_name-others_example = remove_name-others true disk (b'A' ∷ []) box refl box-IsDistinct

abbrev box_added : Ziprom
box_added = record box {
  zip = record two_items {
    entries = item_b ∷ item (b'A' ∷ []) (1 ∷ 2 ∷ 3 ∷ []) ∷ [];
    is_modify = true;
  };
}

added : add_entry true disk item_a (b'A' ∷ []) box ≡ ok box_added
unfolding add_entry remove_name load_ziprom erase_found find_name find_from same_name same_text
    c_str erase erase_at insert compressed_read entry_set method_get method_set block is_text
added = refl

add_entry-IsDistinct_example :
    IsDistinct box_added.zip.entries
    × ((e : Entry) × (box_added.zip.entries ≡ others (b'A' ∷ []) box.zip.entries ++ e ∷ [])
        × (e.file_name ≡ b'A' ∷ []))
add_entry-IsDistinct_example =
    add_entry-IsDistinct true disk item_a (b'A' ∷ []) box box_added refl box-IsDistinct added

abbrev kept_boxes : Ziparchive
kept_boxes = record { data_list = box ∷ []; index = insert_keys (item_a ∷ item_b ∷ []) [] }

boxed : update box new_ziparchive ≡ ok kept_boxes
unfolding update find_file without append_ziprom size_not_zero
boxed = refl

find-find_iter_example :
    (find (key_of item_a) kept_boxes ≡ find_iter (key_of item_a) kept_boxes)
    × (find_exclude (some 0) (key_of item_a) kept_boxes
        ≡ find_exclude_iter (some 0) (key_of item_a) kept_boxes)
find-find_iter_example =
    find-find_iter kept_boxes (key_of item_a) (some 0)
      (after_step empty_archive (update_step box boxed))

abbrev pub rom_a : Rom
rom_a = record { name = b'A' ∷ []; size = 3; crc = 77; nodump = false }

abbrev rom_c : Rom
rom_c = record { name = b'c' ∷ []; size = 4; crc = 5; nodump = true }

roms-IsRomSet : IsRomSet (rom_a ∷ rom_c ∷ [])
unfolding same_name same_text c_str
roms-IsRomSet = ((refl, tt), (tt, tt))

count_known-stat_rom_zip_example :
    count_known
      (λ r. r.nodump)
      (stat_rom_zip [] (item_a ∷ item_b ∷ []) (rom_a ∷ rom_c ∷ []) new_rom_stat)
    ≡ count_roms (λ r. r.nodump) (rom_a ∷ rom_c ∷ [])
count_known-stat_rom_zip_example =
    count_known-stat_rom_zip (λ r. r.nodump) [] (item_a ∷ item_b ∷ []) (rom_a ∷ rom_c ∷ [])
      roms-IsRomSet

abbrev some_game : Game
some_game = record {
  rs = rom_a ∷ rom_c ∷ [];
  ss = [];
  ds = [];
  rzs =
      record { file = b'x' ∷ []; good = true; size = 5; readonly = false }
      ∷ record { file = b'y' ∷ []; good = true; size = 3; readonly = true }
      ∷ [];
  szs = [];
  dzs = [];
}

rs_remove-Leaves_example :
    Leaves (λ r. HasData r (rom_c ∷ [])) some_game.rs (rs_remove_crc (rom_c ∷ []) some_game).rs
    × Leaves (λ r. HasNamed r (rom_c ∷ [])) some_game.rs (rs_remove_name (rom_c ∷ []) some_game).rs
rs_remove-Leaves_example = rs_remove-Leaves (rom_c ∷ []) some_game roms-IsRomSet (tt, tt)

paths-HasSizes : HasSizes some_game.rzs
paths-HasSizes = ground arith

least_good-Least_example : Least 0 (good_rom_size some_game) some_game.rzs
least_good-Least_example = least_good-Least 0 some_game.rzs paths-HasSizes
