-- ===== src/Scan/Fix/DryRun.antt =====
-- scan.cc: rom_scan where the program is only asked to print.
use mathlib.Core.Path.{subst}
use advancescan.Base.{
  Bool, Bytes, List, Option, Result, [], ap, err, failed, false, if◌then◌else◌, length, not, ok,
  refl, sym, true, ℕ, ◌&&◌, ◌++◌, ◌==◌, ◌>>=◌, ◌∙◌, ◌∷◌, ◌≡◌,
}
use advancescan.Analyze.{AnalyzeEntry}
use advancescan.Game.{Game}
use advancescan.Operation.{
  Operation, active_move, active_remove_binary, active_remove_garbage, active_remove_text,
}
use advancescan.Rom.{Rom, erase_rom, insert_rom}
use advancescan.Scan.{RomBad, RomStat, new_rom_stat, stat_rom_zip}
use advancescan.Scan.Add.{
  Bench, Source, bag_rom, fix_from, fix_from_bag, fix_from_other, fix_from_own, fix_from_reject,
  found_nowhere, if_may, may_fix, other_entry, own_entry, rejected_entry, rom_scan_add, source_for,
}
use advancescan.Scan.Fix.{fix_bad, fix_missing, remove_all, remove_all_to, repair, rom_scan}
use advancescan.Scan.Fix.Clean.{
  IfOk, IfOk-then, IsClean, after_ok, after_same, if_err, if_ok, open_ziprom-IsClean,
  rom_scan_end_clean, save_unload_clean,
}
use advancescan.Scan.Move.{all_roms, rom_move, rom_move_end}
use advancescan.Scan.Store.{after, save_unload, within}
use advancescan.Zip.Archive.{System, bytes_eq}
use advancescan.Ziparchive.{Ziparchive}
use advancescan.Ziprom.{Ziprom, open_ziprom}

-- a fix that it may not do
if_may_not :
    (may : Bool) (b b1 : Bench) (m : Result (Ziprom × Ziprom))
    → may ≡ false
    → b1 ≡ b
    → IfOk (λ p. p.1 ≡ b) (if_may may b1 m)
if_may_not true b b1 m e h = absurd (cc e)
if_may_not false b b1 m e h = if_ok (false, b1) h

-- the rounds behind one that has left the bench as it was
IfOk-at {ℓ} :
    {A : Type ℓ} {k : Bench → Result (A × Bench)} {b c : Bench}
    → c ≡ b
    → ((d : Bench) → IfOk (λ p. p.1 ≡ d) (k d))
    → IfOk (λ p. p.1 ≡ b) (k c)
IfOk-at {k = k} {c = c} e f = subst (λ b. IfOk (λ p. p.1 ≡ b) (k c)) e (f c)

remove_all_to_idle :
    (pedantic : Bool) (s : System) (rs : List Rom) (z q : Ziprom)
    → remove_all_to false pedantic s rs z q ≡ ok (z, q)
unfolding remove_all_to
remove_all_to_idle pedantic s [] z q = refl
remove_all_to_idle pedantic s (i ∷ rs) z q = remove_all_to_idle pedantic s rs z q

remove_all_idle :
    (pedantic : Bool) (s : System) (rs : List Rom) (z : Ziprom)
    → remove_all false pedantic s rs z ≡ ok z
unfolding remove_all
remove_all_idle pedantic s [] z = refl
remove_all_idle pedantic s (i ∷ rs) z = remove_all_idle pedantic s rs z

-- the removals at the end of rom_scan, by what they may do
abbrev removals :
    Bool
    → Bool
    → Bool
    → Bool
    → System
    → List Rom
    → RomStat
    → Bool
    → Ziprom
    → Ziprom
    → Result (Bool × Ziprom × Ziprom)
removals binary text garbage pedantic s bs st good z q =
    remove_all_to binary pedantic s bs z q >>= λ x.
    remove_all_to text pedantic s st.unk_text (x.0) (x.1) >>= λ y.
    remove_all garbage pedantic s st.unk_garbage (y.0) >>= λ v. ok (good, v, y.1)

removals_idle :
    (pedantic : Bool) (s : System) (bs : List Rom) (st : RomStat) (good : Bool) (z q : Ziprom)
    → removals false false false pedantic s bs st good z q ≡ ok (good, z, q)
removals_idle pedantic s bs st good z q = rw (remove_all_to_idle pedantic s bs z q) (
    rw (remove_all_to_idle pedantic s st.unk_text z q)
      (rw (remove_all_idle pedantic s st.unk_garbage z) refl))

removals_off :
    (a b c : Bool) (pedantic : Bool) (s : System) (bs : List Rom) (st : RomStat) (good : Bool)
    (z q : Ziprom)
    → a ≡ false
    → b ≡ false
    → c ≡ false
    → removals a b c pedantic s bs st good z q ≡ ok (good, z, q)
removals_off a b c pedantic s bs st good z q e f h =
    ap (λ a. removals a b c pedantic s bs st good z q) e
    ∙ ap (λ b. removals false b c pedantic s bs st good z q) f
    ∙ ap (λ c. removals false false c pedantic s bs st good z q) h
    ∙ removals_idle pedantic s bs st good z q

fix_own_idle :
    (same : Bool) (b : Bench) (m : Result (Bool × Bench))
    → IfOk (λ p. p.1 ≡ b) m
    → IfOk (λ p. p.1 ≡ b) (if same then err failed else m)
fix_own_idle true b m h = if_err failed
fix_own_idle false b m h = h

module _ (o : Operation) (idle : o.flag_active ≡ false) where
  may_not_fix : (z : Ziprom) → may_fix o z ≡ false
  may_not_fix z = ap (λ a. (a && o.flag_fix) && not z.readonly) idle

  fix_from_idle :
      (pedantic : Bool) (s : System) (name : Bytes) (w : Source) (b : Bench)
      → IfOk (λ p. p.1 ≡ b) (fix_from o pedantic s name w b)
  unfolding fix_from fix_from_bag fix_from_own fix_from_reject fix_from_other
  fix_from_idle pedantic s name (bag_rom j) b = if_may_not (may_fix o b.z) b _ _ (may_not_fix b.z) (
      ap (λ a. record b { rremove = if a then erase_rom j.name b.rremove else b.rremove })
        (may_not_fix b.z))
  fix_from_idle pedantic s name (own_entry i j) b =
      fix_own_idle (bytes_eq name j.file_name) b _
        (if_may_not (may_fix o b.z) b b _ (may_not_fix b.z) refl)
  fix_from_idle pedantic s name (rejected_entry k j) b =
      if_may_not (may_fix o b.z) b b _ (may_not_fix b.z) refl
  fix_from_idle pedantic s name (other_entry k) b =
      if_may_not (may_fix o b.z) b b _ (may_not_fix b.z) refl
  fix_from_idle pedantic s name found_nowhere b = if_ok (false, b) refl

  rom_scan_add_idle :
      (pedantic : Bool) (s : System) (name : Bytes) (size crc : ℕ) (place : Option ℕ)
      (zar : Ziparchive) (b : Bench)
      → IfOk (λ p. p.1 ≡ b) (rom_scan_add o pedantic s name size crc place zar b)
  unfolding rom_scan_add
  rom_scan_add_idle pedantic s name size crc place zar b =
      fix_from_idle pedantic s name (source_for size crc place zar b) b

  fix_missing_idle :
      (pedantic : Bool) (s : System) (place : Option ℕ) (zar : Ziparchive) (rs : List Rom)
      (acc : List Rom × List Rom) (b : Bench)
      → IfOk (λ p. p.1 ≡ b) (fix_missing o pedantic s place zar rs acc b)
  unfolding fix_missing
  fix_missing_idle pedantic s place zar [] acc b = if_ok (acc, b) refl
  fix_missing_idle pedantic s place zar (i ∷ rs) (missing, good) b =
      IfOk-then (rom_scan_add o pedantic s i.name i.size i.crc place zar b) _
        (rom_scan_add_idle pedantic s i.name i.size i.crc place zar b)
        (λ p e. IfOk-at e (
          fix_missing_idle pedantic s place zar rs
            (if p.0 then (missing, insert_rom i good) else (insert_rom i missing, good))))

  fix_bad_idle :
      (pedantic : Bool) (s : System) (place : Option ℕ) (zar : Ziparchive) (rs : List RomBad)
      (acc : List RomBad × List Rom) (b : Bench)
      → IfOk (λ p. p.1 ≡ b) (fix_bad o pedantic s place zar rs acc b)
  unfolding fix_bad
  fix_bad_idle pedantic s place zar [] acc b = if_ok (acc, b) refl
  fix_bad_idle pedantic s place zar (i ∷ rs) (bad, good) b =
      IfOk-then (rom_scan_add o pedantic s i.rom.name i.rom.size i.rom.crc place zar b) _
        (rom_scan_add_idle pedantic s i.rom.name i.rom.size i.rom.crc place zar b)
        (λ p e. IfOk-at e (
          fix_bad_idle pedantic s place zar rs
            (if p.0 then (bad, insert_rom i.rom good) else (bad ++ i ∷ [], good))))

  repair_idle :
      (pedantic : Bool) (s : System) (garbage : List AnalyzeEntry) (place : Option ℕ)
      (zar : Ziparchive) (g : Game) (z reject : Ziprom)
      → IfOk (λ p. (p.1 ≡ z) × (p.2 ≡ reject)) (repair o pedantic s garbage place zar g z reject)
  unfolding repair
  repair_idle pedantic s garbage place zar g z reject =
      let st = stat_rom_zip garbage z.zip.entries g.rs new_rom_stat in
      let b : Bench = record { z = z; reject = reject; rremove = st.unk_binary } in
      let binary : active_remove_binary o ≡ false = ap (λ a. a && o.flag_remove_binary) idle in
      let text : active_remove_text o ≡ false = ap (λ a. a && o.flag_remove_text) idle in
      let rest : active_remove_garbage o ≡ false = ap (λ a. a && o.flag_remove_garbage) idle in
      IfOk-then (fix_missing o pedantic s place zar st.rom_miss ([], st.rom_equal) b) _
        (fix_missing_idle pedantic s place zar st.rom_miss ([], st.rom_equal) b)
        (λ m e.
          IfOk-then (fix_bad o pedantic s place zar st.rom_bad ([], m.0.1) (m.1)) _
            (fix_bad_idle pedantic s place zar st.rom_bad ([], m.0.1) (m.1))
            (λ w f.
              (let good = length m.0.0 == 0 && length w.0.0 == 0 in
                subst (IfOk (λ p. (p.1 ≡ z) × (p.2 ≡ reject)))
                  (sym (
                    removals_off (active_remove_binary o) (active_remove_text o)
                      (active_remove_garbage o) pedantic s w.1.rremove st good w.1.z w.1.reject
                      binary text rest))
                  (if_ok (good, w.1.z, w.1.reject)
                    (ap (λ c. c.z) (f ∙ e), ap (λ c. c.reject) (f ∙ e))))))

-- rom_scan, where it is only asked to print: whatever it returns, and also if it fails, the files
-- are as they were, if the archive has not been modified before.
pub rom_scan_dry :
    (o : Operation) (pedantic can_write : Bool) (stamp stamp' : Bytes) (garbage : List AnalyzeEntry)
    (place : Option ℕ) (zar : Ziparchive) (g : Game) (z reject : Ziprom) (s : System)
    → o.flag_active ≡ false
    → IsClean z.zip
    → (rom_scan o pedantic can_write stamp stamp' garbage place zar g z reject s).1 ≡ s
unfolding rom_scan
rom_scan_dry o pedantic can_write stamp stamp' garbage place zar g z reject s idle c =
    after_ok (open_ziprom pedantic can_write reject s) _ s
      (open_ziprom-IsClean pedantic can_write reject s)
      (λ q d.
        after_ok (repair o pedantic s garbage place zar g z q) _ s
          (repair_idle o idle pedantic s garbage place zar g z q)
          (λ w e.
            rom_scan_end_clean pedantic stamp stamp' (w.0) g (w.1) (w.2) s
              (ap (λ y. y.zip.is_modify) (e.0) ∙ c) (ap (λ y. y.zip.is_modify) (e.1) ∙ d)))

rom_move_end_clean :
    (pedantic : Bool) (stamp stamp' : Bytes) (z reject : Ziprom) (s : System)
    → IsClean z.zip
    → IsClean reject.zip
    → (rom_move_end pedantic stamp stamp' z reject s).1 ≡ s
unfolding rom_move_end
rom_move_end_clean pedantic stamp stamp' z reject s c d =
    after_same (save_unload pedantic stamp reject s) _ s
      (save_unload_clean pedantic stamp reject s d)
      (λ q1 s1 e.
        after_same (save_unload pedantic stamp' z s1) _ s
          (save_unload_clean pedantic stamp' z s1 c ∙ e) (λ z1 s2 h. h))

-- rom_move, where it is only asked to print: the files are as they were, also if it fails, if the
-- archive has not been modified before.
pub rom_move_dry :
    (o : Operation) (pedantic can_write : Bool) (stamp stamp' : Bytes) (z reject : Ziprom)
    (s : System)
    → o.flag_active ≡ false
    → IsClean z.zip
    → (rom_move o pedantic can_write stamp stamp' z reject s).1 ≡ s
unfolding rom_move
rom_move_dry o pedantic can_write stamp stamp' z reject s idle c =
    let k =
      λ (p : Ziprom × Ziprom) (s : System). rom_move_end pedantic stamp stamp' (p.0) (p.1) s in
    let rs = all_roms z.zip.entries [] in
    after_ok (open_ziprom pedantic can_write reject s) _ s
      (open_ziprom-IsClean pedantic can_write reject s)
      (λ q d.
        let off : remove_all_to (active_move o) pedantic s rs z q ≡ ok (z, q) =
          ap (λ a. remove_all_to (a && o.flag_move) pedantic s rs z q) idle
          ∙ remove_all_to_idle pedantic s rs z q in
        ap (λ m. (after (within s m) k).1) off ∙ rom_move_end_clean pedantic stamp stamp' z q s c d)
