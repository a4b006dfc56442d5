-- ===== src/Scan/DiskScan.antt =====
-- scan.cc: disk_stat and disk_scan, which judge the image of a disk by its hash.
use advancescan.Base.{
  Bool, Bytes, List, Option, Result, [], false, if◌then◌else◌, none, ok, some, ◌++◌, ◌>>=◌, ◌∷◌,
}
use advancescan.Disk.{disk_sha1}
use advancescan.File.{file_basename, same_name}
use advancescan.Game.{DiskInfo, Game}
use advancescan.Scan.Store.{file_size}
use advancescan.Zip.Archive.{System, bytes_eq}

-- disk_stat, behind disk_sha1: whether the hash is the one that the game wants, if the game has the
-- disk
unfoldable pub disk_stat : Bytes → Bytes → List DiskInfo → Option Bool
disk_stat name hash [] = none
disk_stat name hash (i ∷ ds) =
    let rest = disk_stat name hash ds in
    if same_name i.name name then some (bytes_eq hash i.hash) else rest

-- !st.disk_equal.empty()
abbrev pub is_disk_equal : Option Bool → Bool
is_disk_equal none = false
is_disk_equal (some equal) = equal

-- disk_scan
unfoldable pub disk_scan : Bytes → Game → System → Result Game
disk_scan z g s = do
  hash ← disk_sha1 (if s.can_read z then s.files z else none)
  size ← file_size z s
  ok (record g {
    dzs =
        g.dzs
        ++ record {
          file = z;
          good = is_disk_equal (disk_stat (file_basename z) hash g.ds);
          size = size;
          readonly = false;
        }
          ∷ [];
  })
