-- ===== src/Gamearchive.antt =====
-- game.cc: gamearchive::load behind the reader, which takes from each game the roms, disks and samples
-- of its ancestors.
pub mod Chains
pub mod Reduce
pub mod Relations
pub mod Adjust
pub mod Sons
pub mod Clones
pub mod Marks
use advancescan.Base.{
  Bool, Bytes, List, Option, [], false, if◌then◌else◌, none, not, some, suc, true, zero, ℕ, ◌∷◌,
}
use advancescan.File.{same_name}
use advancescan.Game.{DiskInfo, keep_roms}
use advancescan.Gameinfo.{Listed}
use advancescan.Gamexml.{insert_disk}
use advancescan.Rom.{Rom, has_crc}
use advancescan.Scan.Sample.{find_sample, insert_sample}
use advancescan.Zip.Archive.{bytes_eq}

-- map.find(game(name))
unfoldable pub find_listed : Bytes → List Listed → Option Listed
find_listed name [] = none
find_listed name (g ∷ gs) =
    let rest = find_listed name gs in if bytes_eq g.name name then some g else rest

-- How a round of the loop over the ancestors of `me` goes on from the name `ancestor`: it breaks, or
-- it removes what this game has, and goes on with its own ancestor, if that is not itself.
pub data ChainRound : Type 0 where
  loop_breaks : ChainRound
  last_round one_round : Listed → ChainRound

abbrev pub round_at : (Listed → Bytes) → Bytes → Bytes → Option Listed → ChainRound
round_at of me ancestor none = loop_breaks
round_at of me ancestor (some j) =
    if bytes_eq ancestor me
    then loop_breaks
    else if bytes_eq (of j) j.name
    then last_round j
    else one_round j

-- while (romof.length()) { ... }, and the same with sampleof, on fuel; `none` where it is spent
unfoldable pub ancestors_loop {ℓ} :
    {A : Type ℓ}
    → (Listed → Bytes)
    → (Listed → A → A)
    → List Listed
    → Bytes
    → ℕ
    → Bytes
    → A
    → Option A
ancestors_loop of remove gs me zero ancestor a = none
ancestors_loop of remove gs me (suc fuel) [] a = some a
ancestors_loop of remove gs me (suc fuel) (c ∷ name) a =
    elim (round_at of me (c ∷ name) (find_listed (c ∷ name) gs)) [
      | loop_breaks ↦ some a
      | last_round j ↦ some (remove j a)
      | one_round j ↦ ancestors_loop of remove gs me fuel (of j) (remove j a)
    ]

-- i->rs_remove_crc(A), of the roms of the ancestor
abbrev pub without_roms : Listed → List Rom → List Rom
without_roms j rs = keep_roms (λ r. not (has_crc r j.roms)) [] rs

-- disk_by_name_set::find
unfoldable pub has_disk : Bytes → List DiskInfo → Bool
has_disk name [] = false
has_disk name (d ∷ ds) = let rest = has_disk name ds in if same_name d.name name then true else rest

-- game::ds_remove_name
unfoldable pub keep_disks : List DiskInfo → List DiskInfo → List DiskInfo → List DiskInfo
keep_disks of_parent [] kept_disks = kept_disks
keep_disks of_parent (i ∷ ds) kept_disks =
    keep_disks of_parent ds
      (if has_disk i.name of_parent then kept_disks else insert_disk i kept_disks)

-- i->rs_remove_crc(A); i->ds_remove_name(B);
abbrev pub without_merged : Listed → List Rom × List DiskInfo → List Rom × List DiskInfo
without_merged j (rs, ds) = (without_roms j rs, keep_disks j.disks ds [])

-- game::ss_remove_name
unfoldable pub keep_samples : List Bytes → List Bytes → List Bytes → List Bytes
keep_samples of_parent [] kept_samples = kept_samples
keep_samples of_parent (i ∷ ss) kept_samples =
    keep_samples of_parent ss (elim (find_sample i of_parent) [
      | none ↦ insert_sample i kept_samples
      | some _ ↦ kept_samples
    ])

abbrev pub without_samples : Listed → List Bytes → List Bytes
without_samples j ss = keep_samples j.samples ss []

-- the game with what both loops leave
abbrev pub reduced :
    Listed → Option (List Rom × List DiskInfo) → Option (List Bytes) → Option Listed
reduced i none _ = none
reduced i (some q) none = none
reduced i (some q) (some ss) = some (record i { roms = q.0; disks = q.1; samples = ss })

-- one round of the loop that reduces the games, on fuel for each chain
unfoldable pub reduce_game : ℕ → List Listed → Listed → Option Listed
reduce_game fuel gs i =
    reduced i
      (ancestors_loop (λ j. j.romof) without_merged gs i.name fuel i.romof (i.roms, i.disks))
      (ancestors_loop (λ j. j.sampleof) without_samples gs i.name fuel i.sampleof i.samples)
