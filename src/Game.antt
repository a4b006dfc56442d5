-- ===== src/Game.antt =====
-- game.cc: class game, what it wants and what was found for it. The fields that the functions
-- here do not read (the texts, the clone and sample names, the flags of resources and of the
-- working sets, and the sons) are left out.
pub mod Sizes
pub mod Remove
use advancescan.Base.{
  Bool, Bytes, List, Option, [], false, if◌then◌else◌, ltb, none, not, some, true, ℕ, ◌%◌, ◌&&◌,
  ◌+◌, ◌==◌, ◌||◌, ◌∷◌,
}
use advancescan.File.{file_basename}
use advancescan.Rom.{Rom, find_rom, has_crc, insert_rom}
use advancescan.Zip.Archive.{bytes_eq}

-- infopath (file.h)
pub record Infopath : Type 0 where
  pub file : Bytes
  pub good : Bool
  pub size : ℕ
  pub readonly : Bool

-- disk (disk.h)
pub record DiskInfo : Type 0 where
  pub name : Bytes
  pub hash : Bytes

pub record Game : Type 0 where
  pub rs : List Rom
  pub ss : List Bytes
  pub ds : List DiskInfo
  pub rzs : List Infopath
  pub szs : List Infopath
  pub dzs : List Infopath

-- the loop of game::is_romset_required
unfoldable pub any_required : List Rom → Bool
any_required [] = false
any_required (i ∷ rs) =
    let rest = any_required rs in if not (i.size == 0) && not i.nodump then true else rest

-- game::is_romset_required
abbrev pub is_romset_required : Game → Bool
is_romset_required g = any_required g.rs

-- the loops of good_rom_size and good_sample_size
unfoldable pub least_good : ℕ → List Infopath → ℕ
least_good size [] = size
least_good size (i ∷ paths) =
    least_good (if i.good && (size == 0 || ltb i.size size) then i.size else size) paths

-- game::good_rom_size
abbrev pub good_rom_size : Game → ℕ
good_rom_size g = least_good 0 g.rzs

-- game::good_sample_size
abbrev pub good_sample_size : Game → ℕ
good_sample_size g = least_good 0 g.szs

unfoldable pub any_good : List Infopath → Bool
any_good [] = false
any_good (i ∷ paths) = let rest = any_good paths in if i.good then true else rest

unfoldable pub any_bad : List Infopath → Bool
any_bad [] = false
any_bad (i ∷ paths) = let rest = any_bad paths in if not i.good then true else rest

unfoldable pub any_usable : List Infopath → Bool
any_usable [] = false
any_usable (i ∷ paths) =
    let rest = any_usable paths in
    if i.good then true else if not i.good && not i.readonly then true else rest

unfoldable pub first_good : List Infopath → Bytes
first_good [] = []
first_good (i ∷ paths) = let rest = first_good paths in if i.good then i.file else rest

-- game::has_good_rom
abbrev pub has_good_rom : Game → Bool
has_good_rom g = any_good g.rzs

-- game::good_rom_get
abbrev pub good_rom_get : Game → Bytes
good_rom_get g = first_good g.rzs

-- game::has_bad_rom
abbrev pub has_bad_rom : Game → Bool
has_bad_rom g = any_bad g.rzs

-- game::has_usable_rom
abbrev pub has_usable_rom : Game → Bool
has_usable_rom g = any_usable g.rzs

-- game::has_good_sample
abbrev pub has_good_sample : Game → Bool
has_good_sample g = any_good g.szs

-- game::has_bad_sample
abbrev pub has_bad_sample : Game → Bool
has_bad_sample g = any_bad g.szs

-- game::has_bad_disk
abbrev pub has_bad_disk : Game → Bool
has_bad_disk g = any_bad g.dzs

-- the inner loop of has_good_disk: some path has the disk's name and is good
unfoldable pub disk_found : Bytes → List Infopath → Bool
disk_found name [] = false
disk_found name (j ∷ paths) =
    let rest = disk_found name paths in
    if bytes_eq (file_basename j.file) name && j.good then true else rest

unfoldable pub all_disks : List DiskInfo → List Infopath → Bool
all_disks [] paths = true
all_disks (i ∷ ds) paths =
    let rest = all_disks ds paths in if disk_found i.name paths then rest else false

-- game::has_good_disk
abbrev pub has_good_disk : Game → Bool
has_good_disk g = all_disks g.ds g.dzs

-- The loop that builds the set B: each rom that is kept is inserted.
unfoldable pub keep_roms : (Rom → Bool) → List Rom → List Rom → List Rom
keep_roms keep built [] = built
keep_roms keep built (i ∷ rs) = keep_roms keep (if keep i then insert_rom i built else built) rs

-- j == A.end() || j->crc_get()!=i->crc_get() || j->size_get()!=i->size_get()
abbrev pub differs : Rom → Option Rom → Bool
differs i none = true
differs i (some j) = not (j.crc == i.crc) || not (j.size == i.size)

-- game::rs_remove_name
unfoldable pub rs_remove_name : List Rom → Game → Game
rs_remove_name a g = record g { rs = keep_roms (λ i. differs i (find_rom i.name a)) [] g.rs }

-- game::rs_remove_crc
unfoldable pub rs_remove_crc : List Rom → Game → Game
rs_remove_crc a g = record g { rs = keep_roms (λ i. not (has_crc i a)) [] g.rs }

-- game::size_get
unfoldable pub sum_sizes : ℕ → List Rom → ℕ
sum_sizes size [] = size
sum_sizes size (i ∷ rs) = sum_sizes ((size + i.size) % 4294967296) rs

abbrev pub size_get : Game → ℕ
size_get g = sum_sizes 0 g.rs
