-- ===== src/Scan/Sample/Printing.antt =====
-- scan.cc: sample_scan where the program is only asked to print.
use advancescan.Base.{
  Bool, Bytes, List, Option, Result, [], ap, false, length, none, ok, refl, some, ◌&&◌, ◌==◌, ◌>>=◌,
  ◌∙◌, ◌∷◌, ◌≡◌,
}
use advancescan.Analyze.{AnalyzeEntry}
use advancescan.Game.{Game}
use advancescan.Operation.{
  Operation, active_fix, active_remove_binary, active_remove_garbage, active_remove_text,
}
use advancescan.Scan.Fix.Clean.{
  IsClean, after_ok, after_same, open_ziprom-IsClean, save_unload_clean,
}
use advancescan.Scan.Sample.{
  SampleStat, find_in_dirs, fix_sample, fix_samples, insert_sample, remove_samples,
  remove_samples_to, repair_samples, sample_scan, sample_stat, szs_report,
}
use advancescan.Scan.Store.{after, save_unload, within}
use advancescan.Zip.Archive.{System}
use advancescan.Ziprom.{Ziprom, open_ziprom}

remove_samples_to_idle :
    (pedantic : Bool) (s : System) (ss : List Bytes) (z q : Ziprom)
    → remove_samples_to false pedantic s ss z q ≡ ok (z, q)
unfolding remove_samples_to
remove_samples_to_idle pedantic s [] z q = refl
remove_samples_to_idle pedantic s (i ∷ ss) z q = remove_samples_to_idle pedantic s ss z q

remove_samples_idle :
    (pedantic : Bool) (s : System) (ss : List Bytes) (z : Ziprom)
    → remove_samples false pedantic s ss z ≡ ok z
unfolding remove_samples
remove_samples_idle pedantic s [] z = refl
remove_samples_idle pedantic s (i ∷ ss) z = remove_samples_idle pedantic s ss z

fix_sample_idle :
    (pedantic : Bool) (s : System) (i : Bytes) (o : Option Bytes) (z : Ziprom)
    → fix_sample false pedantic s i o z ≡ ok (false, z)
unfolding fix_sample
fix_sample_idle pedantic s i none z = refl
fix_sample_idle pedantic s i (some j) z = refl

fix_samples_idle :
    (pedantic : Bool) (s : System) (known ss missing : List Bytes) (z : Ziprom)
    → (m : List Bytes) × (fix_samples false pedantic s known ss missing z ≡ ok (m, z))
unfolding fix_samples
fix_samples_idle pedantic s known [] missing z = (missing, refl)
fix_samples_idle pedantic s known (i ∷ ss) missing z =
    let (m, e) = fix_samples_idle pedantic s known ss (insert_sample i missing) z in
    (m, rw (fix_sample_idle pedantic s i (find_in_dirs i known) z) e)

-- what sample_scan does between reject.open() and the saves, by what it may do
abbrev sample_repairs :
    Bool
    → Bool
    → Bool
    → Bool
    → Bool
    → System
    → SampleStat
    → Ziprom
    → Ziprom
    → Result (Bool × Ziprom × Ziprom)
sample_repairs fix binary text garbage pedantic s st z reject =
    fix_samples fix pedantic s st.binary_samples st.sample_miss [] z >>= λ m.
    remove_samples_to binary pedantic s st.binary_samples (m.1) reject >>= λ x.
    remove_samples_to text pedantic s st.text_samples (x.0) (x.1) >>= λ y.
    remove_samples garbage pedantic s st.garbage_samples (y.0) >>= λ v. ok (length m.0 == 0, v, y.1)

sample_repairs_idle :
    (pedantic : Bool) (s : System) (st : SampleStat) (z q : Ziprom)
    → (good : Bool) × (sample_repairs false false false false pedantic s st z q ≡ ok (good, z, q))
sample_repairs_idle pedantic s st z q =
    let (m, e) = fix_samples_idle pedantic s st.binary_samples st.sample_miss [] z in
    (
      length m == 0,
      rw e (
          rw (remove_samples_to_idle pedantic s st.binary_samples z q) (
            rw (remove_samples_to_idle pedantic s st.text_samples z q)
              (rw (remove_samples_idle pedantic s st.garbage_samples z) refl))),
    )

sample_repairs_off :
    (a b c d : Bool) (pedantic : Bool) (s : System) (st : SampleStat) (z q : Ziprom)
    → a ≡ false
    → b ≡ false
    → c ≡ false
    → d ≡ false
    → (good : Bool) × (sample_repairs a b c d pedantic s st z q ≡ ok (good, z, q))
sample_repairs_off a b c d pedantic s st z q e f g h =
    let (good, k) = sample_repairs_idle pedantic s st z q in
    (
      good,
      ap (λ a. sample_repairs a b c d pedantic s st z q) e
          ∙ ap (λ b. sample_repairs false b c d pedantic s st z q) f
          ∙ ap (λ c. sample_repairs false false c d pedantic s st z q) g
          ∙ ap (λ d. sample_repairs false false false d pedantic s st z q) h
          ∙ k,
    )

repair_samples_idle :
    (o : Operation) (pedantic : Bool) (s : System) (garbage : List AnalyzeEntry) (g : Game)
    (z q : Ziprom)
    → o.flag_active ≡ false
    → (good : Bool) × (repair_samples o pedantic s garbage g z q ≡ ok (good, z, q))
unfolding repair_samples
repair_samples_idle o pedantic s garbage g z q idle =
    sample_repairs_off (active_fix o) (active_remove_binary o) (active_remove_text o)
      (active_remove_garbage o) pedantic s (sample_stat garbage z.zip.entries g) z q
      (ap (λ a. a && o.flag_fix) idle) (ap (λ a. a && o.flag_remove_binary) idle)
      (ap (λ a. a && o.flag_remove_text) idle) (ap (λ a. a && o.flag_remove_garbage) idle)

-- the saves at the end of sample_scan
abbrev sample_saves :
    Bool
    → Bytes
    → Bytes
    → Game
    → Bool × Ziprom × Ziprom
    → System
    → Result (Ziprom × Ziprom × Game) × System
sample_saves pedantic stamp stamp' g w s = after (save_unload pedantic stamp (w.1) s) (λ z1 s1.
    after (within s1 (szs_report (w.0) z1 g s1))
      (λ g1 s1. after (save_unload pedantic stamp' (w.2) s1) (λ q1 s2. (ok (z1, q1, g1), s2))))

sample_saves_clean :
    (pedantic : Bool) (stamp stamp' : Bytes) (g : Game) (good : Bool) (z q : Ziprom) (s : System)
    → IsClean z.zip
    → IsClean q.zip
    → (sample_saves pedantic stamp stamp' g (good, z, q) s).1 ≡ s
sample_saves_clean pedantic stamp stamp' g good z q s c d =
    after_same (save_unload pedantic stamp z s) _ s (save_unload_clean pedantic stamp z s c)
      (λ z1 s1 e. after_same (within s1 (szs_report good z1 g s1)) _ s e (λ g1 s2 f.
        after_same (save_unload pedantic stamp' q s2) _ s
          (save_unload_clean pedantic stamp' q s2 d ∙ f) (λ q1 s3 h. h)))

-- sample_scan, where it is only asked to print: the files are as they were, also if it fails, if
-- the archive has not been modified before.
pub sample_scan_dry :
    (o : Operation) (pedantic can_write : Bool) (stamp stamp' : Bytes) (garbage : List AnalyzeEntry)
    (g : Game) (z reject : Ziprom) (s : System)
    → o.flag_active ≡ false
    → IsClean z.zip
    → (sample_scan o pedantic can_write stamp stamp' garbage g z reject s).1 ≡ s
unfolding sample_scan
sample_scan_dry o pedantic can_write stamp stamp' garbage g z reject s idle c =
    let k = λ (w : Bool × Ziprom × Ziprom) (s : System). sample_saves pedantic stamp stamp' g w s in
    after_ok (open_ziprom pedantic can_write reject s) _ s
      (open_ziprom-IsClean pedantic can_write reject s)
      (λ q d.
        let (good, e) = repair_samples_idle o pedantic s garbage g z q idle in
        ap (λ m. (after (within s m) k).1) e
        ∙ sample_saves_clean pedantic stamp stamp' g good z q s c d)
