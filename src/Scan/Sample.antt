-- ===== src/Scan/Sample.antt =====
-- scan.cc and sample.h: the statistics of the samples of a game, and sample_scan, which repairs the
-- archive of its samples. What it prints is left out. A sample is its name.
pub mod Printing
use advancescan.Base.{
  Bool, Bytes, List, Option, Result, [], false, if◌then◌else◌, length, none, not, ok, some, true,
  ◌&&◌, ◌++◌, ◌==◌, ◌>>=◌, ◌∷◌,
}
use advancescan.Analyze.{
  AnalyzeEntry, AnalyzeType, analyze, analyze_binary, analyze_garbage, analyze_text,
}
use advancescan.File.{file_name, same_name}
use advancescan.Game.{Game}
use advancescan.Operation.{
  Operation, active_fix, active_remove_binary, active_remove_garbage, active_remove_text,
}
use advancescan.Scan.Store.{after, file_size, save_unload, within}
use advancescan.Zip.Archive.{System, is_empty}
use advancescan.Zip.Entry.{Entry}
use advancescan.Ziprom.{Ziprom, add_named, open_ziprom, remove_name, remove_to}

-- sample_by_name_set: find, insert and erase
unfoldable pub find_sample : Bytes → List Bytes → Option Bytes
find_sample name [] = none
find_sample name (i ∷ ss) =
    let rest = find_sample name ss in if same_name i name then some i else rest

unfoldable pub insert_sample : Bytes → List Bytes → List Bytes
insert_sample s ss = elim (find_sample s ss) [ none ↦ ss ++ s ∷ [] | some _ ↦ ss ]

unfoldable pub erase_sample : Bytes → List Bytes → List Bytes
erase_sample name [] = []
erase_sample name (i ∷ ss) =
    let rest = erase_sample name ss in if same_name i name then ss else i ∷ rest

-- sample_stat_t
pub record SampleStat : Type 0 where
  pub sample_miss : List Bytes
  pub sample_equal : List Bytes
  pub binary_samples : List Bytes
  pub text_samples : List Bytes
  pub garbage_samples : List Bytes

-- the switch on the type of an unknown file
unfoldable pub sample_unknown : AnalyzeType → Bytes → SampleStat → SampleStat
sample_unknown analyze_text s st = record st { text_samples = insert_sample s st.text_samples }
sample_unknown analyze_binary s st = record st {
  binary_samples = insert_sample s st.binary_samples;
}
sample_unknown analyze_garbage s st = record st {
  garbage_samples = insert_sample s st.garbage_samples;
}

-- one round of the loop of sample_stat
unfoldable pub sample_entry : List AnalyzeEntry → Entry → Option Bytes → SampleStat → SampleStat
sample_entry garbage z none st =
    sample_unknown (analyze garbage z.file_name z.info.uncompressed_size z.info.crc32) z.file_name
      st
sample_entry garbage z (some i) st = record st {
  sample_equal = insert_sample i st.sample_equal;
  sample_miss = erase_sample z.file_name st.sample_miss;
}

unfoldable pub sample_entries : List AnalyzeEntry → List Entry → SampleStat → SampleStat
sample_entries garbage [] st = st
sample_entries garbage (z ∷ zs) st =
    sample_entries garbage zs (sample_entry garbage z (find_sample z.file_name st.sample_miss) st)

-- sample_stat
unfoldable pub sample_stat : List AnalyzeEntry → List Entry → Game → SampleStat
sample_stat garbage zd g = sample_entries garbage zd (record {
  sample_miss = g.ss;
  sample_equal = [];
  binary_samples = [];
  text_samples = [];
  garbage_samples = [];
})

-- the first unknown file whose name without its directory is the sample's
unfoldable pub find_in_dirs : Bytes → List Bytes → Option Bytes
find_in_dirs name [] = none
find_in_dirs name (j ∷ ss) =
    let rest = find_in_dirs name ss in if same_name name (file_name j) then some j else rest

-- one round of the loop over the missing samples
unfoldable pub fix_sample :
    Bool → Bool → System → Bytes → Option Bytes → Ziprom → Result (Bool × Ziprom)
fix_sample active pedantic s name none z = ok (false, z)
fix_sample active pedantic s name (some j) z =
    if active && not z.readonly
    then (add_named pedantic s j name z >>= λ z1. ok (true, z1))
    else ok (false, z)

-- the loop over the missing samples: those that are still missing
unfoldable pub fix_samples :
    Bool
    → Bool
    → System
    → List Bytes
    → List Bytes
    → List Bytes
    → Ziprom
    → Result (List Bytes × Ziprom)
fix_samples active pedantic s known [] missing z = ok (missing, z)
fix_samples active pedantic s known (i ∷ ss) missing z =
    fix_sample active pedantic s i (find_in_dirs i known) z >>= λ p.
    fix_samples active pedantic s known ss (if p.0 then missing else insert_sample i missing) (p.1)

-- the loops that remove the unknown files to the reject archive, where they may
unfoldable pub remove_samples_to :
    Bool → Bool → System → List Bytes → Ziprom → Ziprom → Result (Ziprom × Ziprom)
remove_samples_to active pedantic s [] z reject = ok (z, reject)
remove_samples_to active pedantic s (i ∷ ss) z reject =
    (if active && not z.readonly then remove_to pedantic s i z reject else ok (z, reject)) >>= λ p.
    remove_samples_to active pedantic s ss (p.0) (p.1)

-- the loop that removes the garbage
unfoldable pub remove_samples : Bool → Bool → System → List Bytes → Ziprom → Result Ziprom
remove_samples active pedantic s [] z = ok z
remove_samples active pedantic s (i ∷ ss) z =
    (if active && not z.readonly then remove_name pedantic s i z else ok z) >>= λ z1.
    remove_samples active pedantic s ss z1

-- sample_scan between reject.open() and the saves: the archives, and whether no sample is missing
unfoldable pub repair_samples :
    Operation
    → Bool
    → System
    → List AnalyzeEntry
    → Game
    → Ziprom
    → Ziprom
    → Result (Bool × Ziprom × Ziprom)
repair_samples o pedantic s garbage g z reject =
    let st = sample_stat garbage z.zip.entries g in
    fix_samples (active_fix o) pedantic s st.binary_samples st.sample_miss [] z >>= λ m.
    remove_samples_to (active_remove_binary o) pedantic s st.binary_samples (m.1) reject >>= λ x.
    remove_samples_to (active_remove_text o) pedantic s st.text_samples (x.0) (x.1) >>= λ y.
    remove_samples (active_remove_garbage o) pedantic s st.garbage_samples (y.0) >>= λ v.
    ok (length m.0 == 0, v, y.1)

-- the game with the archive in its list, if the archive is not empty
unfoldable pub szs_report : Bool → Ziprom → Game → System → Result Game
szs_report good z g s = elim (is_empty z.zip) [
  | true ↦ ok g
  | false ↦ file_size z.zip.path s >>= λ size. ok (record g {
    szs =
        g.szs ++ record { file = z.zip.path; good = good; size = size; readonly = z.readonly } ∷ [];
  })
]

-- sample_scan
unfoldable pub sample_scan :
    Operation
    → Bool
    → Bool
    → Bytes
    → Bytes
    → List AnalyzeEntry
    → Game
    → Ziprom
    → Ziprom
    → System
    → Result (Ziprom × Ziprom × Game) × System
sample_scan o pedantic can_write stamp stamp' garbage g z reject s =
    after (within s (open_ziprom pedantic can_write reject s)) (λ q s.
      after (within s (repair_samples o pedantic s garbage g z q)) (λ w s.
        after (save_unload pedantic stamp (w.1) s) (λ z1 s1.
          after (within s1 (szs_report (w.0) z1 g s1)) (λ g1 s1.
            after (save_unload pedantic stamp' (w.2) s1) (λ q1 s2. (ok (z1, q1, g1), s2))))))
