-- ===== src/Scan/Move/Whole.antt =====
-- scan.cc: rom_move as a whole, from archives that are open and not loaded yet.
use advancescan.Base.{
  Bool, Bytes, List, Result, [], ap, err, false, if◌then◌else◌, inl, inr, map, none, not, ok, refl,
  some, sym, true, ℕ, ◌>>=◌, ◌∙◌, ◌∷◌, ◌≡◌, ◌⊎◌,
}
use advancescan.Operation.{Operation, active_move}
use advancescan.Rom.{Rom}
use advancescan.Rom.Sets.{Apart-nil}
use advancescan.Scan.Fix.{remove_all_to}
use advancescan.Scan.Move.{all_roms, rom_move}
use advancescan.Scan.Move.Modified.{AreModified, remove_all_to-AreModified}
use advancescan.Scan.Move.Order.{AreApart, Saved, rewritten, rom_move_end-at, unmodified, vanished}
use advancescan.Scan.Move.Safety.{
  IsEmptied, IsRomSet-rom_of, all_roms-map, remove_all_to-IsEmptied, rom_of,
}
use advancescan.Zip.Archive.{System, Zip, flushed, is_empty}
use advancescan.Zip.Archive.Load.{load}
use advancescan.Zip.Archive.Save.{file_temp, save_stream}
use advancescan.Zip.Archive.Save.Layout.{saved}
use advancescan.Zip.Entry.{Entry}
use advancescan.Zip.Stream.{Output}
use advancescan.Ziprom.{
  Ziprom, find_from, find_name, load_ziprom, move, move_found, move_if_found, open_ziprom,
  remove_name, remove_to, with_zip,
}
use advancescan.Ziprom.Edit.{load_loaded}
use advancescan.Ziprom.Laws.{same_name_iff}
use advancescan.Ziprom.View.{IsSound}

module _ (pedantic : Bool) (s : System) (z z1 q q1 : Ziprom)
    (load_own : load_ziprom pedantic s z ≡ ok z1) (load_rejected : load_ziprom pedantic s q ≡ ok q1)
    (own_read : z1.zip.is_read ≡ true) (rejected_read : q1.zip.is_read ≡ true) where
  move-load : (name : Bytes) → move pedantic s name name z1 q ≡ move pedantic s name name z1 q1
  unfolding move
  move-load name =
      ap
        (λ m. load_ziprom pedantic s z1 >>= λ a. m >>= λ b.
          remove_name pedantic s name b >>= λ c. move_found pedantic s (find_name name a) name a c)
        (load_rejected ∙ sym (load_loaded pedantic s q1 rejected_read))

  -- remove loads both archives, where it finds the name
  remove_to-load :
      (name : Bytes) (f : ℕ × Entry)
      → find_name name z1 ≡ some f
      → remove_to pedantic s name z q ≡ remove_to pedantic s name z1 q1
  unfolding remove_to move_if_found
  remove_to-load name f h =
      let loaded = load_loaded pedantic s z1 own_read in rw (load_own, loaded, h) (move-load name)

  remove_all_to-load :
      (i : Rom) (rs : List Rom) (f : ℕ × Entry)
      → find_name i.name z1 ≡ some f
      → z.readonly ≡ false
      → z1.readonly ≡ false
      → remove_all_to true pedantic s (i ∷ rs) z q ≡ remove_all_to true pedantic s (i ∷ rs) z1 q1
  unfolding remove_all_to
  remove_all_to-load i rs f h w w1 =
      let k = λ (t : Ziprom × Ziprom). remove_all_to true pedantic s rs (t.0) (t.1) in
      let if_writable = λ (a b : Ziprom) (r : Bool).
        (if not r then remove_to pedantic s i.name a b else ok (a, b)) >>= k in
      ap (if_writable z q) w
      ∙ ap (λ m. m >>= k) (remove_to-load i.name f h)
      ∙ ap (if_writable z1 q1) (sym w1)

find_name_first :
    (z : Ziprom) (e : Entry) (es : List Entry)
    → z.zip.entries ≡ e ∷ es
    → find_name e.file_name z ≡ some (0, e)
unfolding find_name
find_name_first z e es h =
    ap (find_from 0 e.file_name) h ∙ rw ((same_name_iff e.file_name e.file_name).1 refl) refl

load_if-readonly :
    (load_it : Bool) (m : Result Zip) (z z1 : Ziprom)
    → (if load_it then with_zip z m else ok z) ≡ ok z1
    → z1.readonly ≡ z.readonly
load_if-readonly false m z z1 h = cc
load_if-readonly true (err e) z z1 h = cc
load_if-readonly true (ok x) z z1 h = cc

load_ziprom-readonly :
    (pedantic : Bool) (s : System) (z z1 : Ziprom)
    → load_ziprom pedantic s z ≡ ok z1
    → z1.readonly ≡ z.readonly
unfolding load_ziprom
load_ziprom-readonly pedantic s z z1 h =
    load_if-readonly (not z.zip.is_read) (load pedantic z.zip s) z z1 h

-- the loop of rom_move, from two archives that are only open
remove_all_to-IsMoved :
    (pedantic : Bool) (s : System) (z z1 q q1 : Ziprom)
    → load_ziprom pedantic s z ≡ ok z1
    → load_ziprom pedantic s q ≡ ok q1
    → IsSound z1
    → IsSound q1
    → z.readonly ≡ false
    → all_roms z.zip.entries [] ≡ all_roms z1.zip.entries []
    → (e : Entry) (es : List Entry) → z1.zip.entries ≡ e ∷ es
    → (p : Ziprom × Ziprom) × (remove_all_to true pedantic s (all_roms z.zip.entries []) z q ≡ ok p)
      × IsEmptied z1 q1 (p.0) (p.1)
      × AreModified p
remove_all_to-IsMoved pedantic s z z1 q q1 l l' v u w roms e es h =
    let w1 = load_ziprom-readonly pedantic s z z1 l ∙ w in
    let (p, k, d) = remove_all_to-IsEmptied pedantic s z1 q1 v u w1 in
    let listed : all_roms z1.zip.entries [] ≡ rom_of e ∷ map rom_of es =
      all_roms-map z1.zip.entries [] (IsRomSet-rom_of z1.zip.entries v.distinct)
        (Apart-nil (map rom_of z1.zip.entries))
      ∙ ap (map rom_of) h in
    let first = find_name_first z1 e es h in
    let start =
      remove_all_to-load pedantic s z z1 q q1 l l' v.loaded u.loaded (rom_of e) (map rom_of es)
        (0, e) first w w1 in
    (
      p,
      ap (λ rs. remove_all_to true pedantic s rs z q) (roms ∙ listed)
          ∙ start
          ∙ ap (λ rs. remove_all_to true pedantic s rs z1 q1) (sym listed)
          ∙ k,
      d,
      remove_all_to-AreModified pedantic s (rom_of e) (map rom_of es) (0, e) z1 q1 p w1 v.loaded
          first (ap (λ rs. remove_all_to true pedantic s rs z1 q1) (sym listed) ∙ k),
    )

-- What a save that reports no error has left of an archive that was modified: its bytes, as far as
-- the disk took them, or no file, where no entry has data.
pub data WasSaved (q : Zip) (path temp : Bytes) (s s1 : System) : Type 0 where
  was_rewritten :
      (z' : Zip) (f : Output)
      → save_stream (record q { is_modify = false }) (record { written = []; room = s.room })
        ≡ ok (z', f)
      → s1.files path ≡ some (flushed temp f.written s)
      → WasSaved q path temp s s1
  was_emptied : is_empty q ≡ true → s1.files path ≡ none → WasSaved q path temp s s1

Saved-modified :
    {q : Zip} {path temp : Bytes} {s s1 : System}
    → q.is_modify ≡ true
    → Saved q path temp s s1
    → WasSaved q path temp s s1
Saved-modified m (unmodified n p) = absurd (cc (m, n))
Saved-modified m (rewritten z' f w p) = was_rewritten z' f w p
Saved-modified m (vanished n p) = was_emptied n p

-- What rom_move does to two archives, of which the first has something: its loop ends with two
-- archives, of which the first has no entry, and the other, the reject archive, has all that the
-- first had, and else what it had before. Then either the file of the first is left as it was, or
-- the file of the reject archive is what zip::save writes of that reject archive, as far as the
-- disk took it, or it is gone, where none of the entries has data.
pub rom_move-WasSaved :
    (o : Operation) (pedantic can_write : Bool) (stamp stamp' : Bytes) (z z1 reject q q1 : Ziprom)
    (s : System)
    → active_move o ≡ true
    → z.readonly ≡ false
    → open_ziprom pedantic can_write reject s ≡ ok q
    → load_ziprom pedantic s z ≡ ok z1
    → load_ziprom pedantic s q ≡ ok q1
    → IsSound z1
    → IsSound q1
    → AreApart stamp stamp' z1.zip.path q1.zip.path
    → all_roms z.zip.entries [] ≡ all_roms z1.zip.entries []
    → (e : Entry) (es : List Entry) → z1.zip.entries ≡ e ∷ es
    → (p : Ziprom × Ziprom) × (remove_all_to
          (active_move o)
          pedantic
          s
          (all_roms z.zip.entries [])
          z
          q
        ≡ ok p)
      × IsEmptied z1 q1 (p.0) (p.1)
      × (((rom_move o pedantic can_write stamp stamp' z reject s).1.files z1.zip.path
            ≡ s.files z1.zip.path)
          ⊎ WasSaved p.1.zip q1.zip.path
              (file_temp q1.zip.path stamp)
              s
              (rom_move o pedantic can_write stamp stamp' z reject s).1)
unfolding rom_move
rom_move-WasSaved o pedantic can_write stamp stamp' z z1 reject q q1 s active w opened l l' v u a
      roms e es h =
    let ((z2, q2), k, d, m) = remove_all_to-IsMoved pedantic s z z1 q q1 l l' v u w roms e es h in
    let ends =
      rom_move_end-at pedantic stamp stamp' z1.zip.path q1.zip.path z2 q2 s d.own_path
        d.rejected_path d.rejected_is.loaded a in
    (
      (z2, q2),
      rw active k,
      d,
      rw (opened, active, k)
          (elim ends [
            | inl same ↦ inl same
            | inr saved ↦ inr (Saved-modified m.rejected_modify saved)
          ]),
    )
