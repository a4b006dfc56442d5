-- ===== src/Tests/ScanTests.antt =====
-- Instances of the theorems about an archive of roms and its reject archive.
use advancescan.Base.{List, [], arith, false, none, ok, refl, true, ◌∷◌, ◌≡◌, ◌⊎◌}
use advancescan.Game.{Game}
use advancescan.Operation.{Operation, active_move}
use advancescan.Scan.Fix.{remove_all_to, rom_scan, rom_scan_end}
use advancescan.Scan.Fix.DryRun.{rom_move_dry, rom_scan_dry}
use advancescan.Scan.Fix.Order.{rom_scan_end-files}
use advancescan.Scan.Move.{all_roms, rom_move}
use advancescan.Scan.Move.Order.{AreApart}
use advancescan.Scan.Move.Safety.{IsEmptied}
use advancescan.Scan.Move.Whole.{WasSaved, rom_move-WasSaved}
use advancescan.Scan.Sample.{sample_scan}
use advancescan.Scan.Sample.Printing.{sample_scan_dry}
use advancescan.Scan.Store.{save_unload}
use advancescan.Tests.RomTests.{box, box-IsDistinct, rom_a}
use advancescan.Tests.ZipTests.{disk, item_a, item_b, two_items}
use advancescan.Zip.Archive.{bytes_eq, create, new_zip}
use advancescan.Zip.Archive.Directory.{open_zip}
use advancescan.Zip.Archive.Save.{file_temp, save}
use advancescan.Zip.Archive.Save.Frame.{save-files}
use advancescan.Zip.Archive.Save.Layout.{All}
use advancescan.Zip.Entry.{Info, Method, method_get, store}
use advancescan.Zip.Entry.Methods.{Settable}
use advancescan.Ziparchive.{new_ziparchive}
use advancescan.Ziprom.{Ziprom, load_ziprom, new_ziprom, open_ziprom, zip_unknown}
use advancescan.Ziprom.View.{IsMovable, IsSound, view}
use advancescan.Ziprom.View.Pair.{
  Call, Holds, IsCall, Maps, adds_to, call_all, call_all-spec_all, removes, removes_to, spec_all,
}

method_a : method_get item_a.info ≡ store
unfolding method_get
method_a = refl

method_b : method_get item_b.info ≡ store
unfolding method_get
method_b = refl

store-Settable :
    (m : Method) (i : Info) → m ≡ store → i.uncompressed_size ≡ i.compressed_size → Settable m i
store-Settable m i e h = ((λ p. cc (e, p)), (λ p. cc (e, p)), (λ p. h))

item_a-IsMovable : IsMovable item_a
item_a-IsMovable = record {
  in_memory = refl;
  size_is = refl;
  settable = store-Settable (method_get item_a.info) item_a.info method_a refl;
  in_range = ground arith;
}

item_b-IsMovable : IsMovable item_b
item_b-IsMovable = record {
  in_memory = refl;
  size_is = refl;
  settable = store-Settable (method_get item_b.info) item_b.info method_b refl;
  in_range = ground arith;
}

box-IsSound : IsSound box
box-IsSound = record {
  loaded = refl;
  distinct = box-IsDistinct;
  movable = (item_a-IsMovable, (item_b-IsMovable, tt));
}

abbrev no_box : Ziprom
no_box = new_ziprom (b'q' ∷ []) zip_unknown false

abbrev reject_box : Ziprom
reject_box = record no_box { zip = record (new_zip (b'q' ∷ [])) { is_open = true; is_read = true } }

reject_box-IsSound : IsSound reject_box
reject_box-IsSound = record { loaded = refl; distinct = tt; movable = tt }

abbrev two_maps : Maps
two_maps = record { own = view box.zip.entries; rejected = view [] }

boxes-Holds : Holds (box, reject_box) (box, reject_box) two_maps
boxes-Holds = record {
  own_is = record { sound = box-IsSound; path_is = refl; readonly_is = refl; view_is = λ n. refl };
  rejected_is = record {
    sound = reject_box-IsSound;
    path_is = refl;
    readonly_is = refl;
    view_is = λ n. refl;
  };
}

abbrev calls : List Call
calls = removes_to (b'A' ∷ []) ∷ adds_to item_a (b'c' ∷ []) ∷ removes (b'x' ∷ []) ∷ []

calls-All : All IsCall calls
calls-All = (ground arith, ((item_a-IsMovable, ground arith), (tt, tt)))

call_all-spec_all_example :
    (p : Ziprom × Ziprom) × (call_all true disk calls (box, reject_box) ≡ ok p)
    × Holds (box, reject_box) p (spec_all calls two_maps)
call_all-spec_all_example =
    call_all-spec_all true disk calls box reject_box two_maps boxes-Holds calls-All

abbrev moves : Operation
moves = record {
  flag_active = true;
  flag_output = false;
  flag_move = true;
  flag_add = false;
  flag_fix = false;
  flag_remove_binary = false;
  flag_remove_text = false;
  flag_remove_garbage = false;
}

opened : open_ziprom true true no_box disk ≡ ok reject_box
unfolding open_ziprom open_zip create
opened = refl

box_loaded : load_ziprom true disk box ≡ ok box
unfolding load_ziprom
box_loaded = refl

reject_loaded : load_ziprom true disk reject_box ≡ ok reject_box
unfolding load_ziprom
reject_loaded = refl

boxes-AreApart : AreApart (b'1' ∷ []) (b'2' ∷ []) box.zip.path reject_box.zip.path
unfolding bytes_eq
boxes-AreApart = record {
  not_own = refl;
  not_rejected = refl;
  not_own_temp = refl;
  not_rejected_temp = refl;
}

rom_move-WasSaved_example :
    let s' = (rom_move moves true true (b'1' ∷ []) (b'2' ∷ []) box no_box disk).1 in
    (p : Ziprom × Ziprom) × (remove_all_to
        (active_move moves)
        true
        disk
        (all_roms box.zip.entries [])
        box
        reject_box
      ≡ ok p)
    × IsEmptied box reject_box (p.0) (p.1)
    × ((s'.files (b'z' ∷ []) ≡ none)
        ⊎ WasSaved p.1.zip (b'q' ∷ []) (file_temp (b'q' ∷ []) (b'1' ∷ [])) disk s')
rom_move-WasSaved_example =
    rom_move-WasSaved moves true true (b'1' ∷ []) (b'2' ∷ []) box box no_box reject_box reject_box
      disk refl refl opened box_loaded reject_loaded box-IsSound reject_box-IsSound boxes-AreApart
      refl item_a (item_b ∷ []) refl

save-files_example : (save (b'1' ∷ []) two_items disk).1.files (b'y' ∷ []) ≡ none
unfolding bytes_eq
save-files_example = save-files (b'1' ∷ []) two_items disk (b'y' ∷ []) refl refl

abbrev no_game : Game
no_game = record { rs = []; ss = []; ds = []; rzs = []; szs = []; dzs = [] }

rom_scan_end-files_example :
    (rom_scan_end true (b'1' ∷ []) (b'2' ∷ []) true no_game box reject_box disk).1.files (b'z' ∷ [])
    ≡ (save_unload true (b'1' ∷ []) box disk).1.files (b'z' ∷ [])
unfolding bytes_eq
rom_scan_end-files_example =
    rom_scan_end-files true (b'1' ∷ []) (b'2' ∷ []) true no_game box reject_box disk refl refl

abbrev prints : Operation
prints = record moves { flag_active = false; flag_output = true; flag_fix = true }

abbrev clean_box : Ziprom
clean_box = record box { zip = record two_items { is_modify = false } }

abbrev wants_a : Game
wants_a = record no_game { rs = rom_a ∷ [] }

rom_scan_dry_example :
    (rom_scan prints true true
      (b'1' ∷ [])
      (b'2' ∷ [])
      []
      none
      new_ziparchive
      wants_a
      clean_box
      no_box
      disk).1
    ≡ disk
rom_scan_dry_example =
    rom_scan_dry prints true true (b'1' ∷ []) (b'2' ∷ []) [] none new_ziparchive wants_a clean_box
      no_box disk refl refl

rom_move_dry_example :
    (rom_move prints true true (b'1' ∷ []) (b'2' ∷ []) clean_box no_box disk).1 ≡ disk
rom_move_dry_example =
    rom_move_dry prints true true (b'1' ∷ []) (b'2' ∷ []) clean_box no_box disk refl refl

abbrev wants_samples : Game
wants_samples = record no_game { ss = (b'a' ∷ []) ∷ (b's' ∷ []) ∷ [] }

sample_scan_dry_example :
    (sample_scan prints true true (b'1' ∷ []) (b'2' ∷ []) [] wants_samples clean_box no_box disk).1
    ≡ disk
sample_scan_dry_example =
    sample_scan_dry prints true true (b'1' ∷ []) (b'2' ∷ []) [] wants_samples clean_box no_box disk
      refl refl
