-- ===== src/Scan/Move/Order.antt =====
-- scan.cc: the saves at the end of rom_move, and what they leave on the disk.
use mathlib.Core.Path.{subst}
use advancescan.Base.{
  Bool, Bool-cases, Bytes, Error, Result, [], ap, err, false, if◌then◌else◌, inl, inr, none, ok,
  refl, some, sym, true, ◌&&◌, ◌∙◌, ◌≡◌, ◌⊎◌,
}
use advancescan.Scan.Move.{rom_move_end}
use advancescan.Scan.Store.{after, save_unload, within}
use advancescan.Zip.Archive.{System, Zip, bytes_eq, flushed, is_empty}
use advancescan.Zip.Archive.Atomic.{deleted, kept, renamed, save-Ending, stranded}
use advancescan.Zip.Archive.Save.{file_temp, save, save_stream}
use advancescan.Zip.Archive.Save.Frame.{save-files}
use advancescan.Zip.Stream.{Output}
use advancescan.Ziprom.{Ziprom, save_ziprom, unload_ziprom, with_zip}

-- how a save ends that reports no error
pub data Saved (q : Zip) (path temp : Bytes) (s s1 : System) : Type 0 where
  unmodified : q.is_modify ≡ false → s1.files path ≡ s.files path → Saved q path temp s s1
  rewritten :
      (z' : Zip) (f : Output)
      → save_stream (record q { is_modify = false }) (record { written = []; room = s.room })
        ≡ ok (z', f)
      → s1.files path ≡ some (flushed temp f.written s)
      → Saved q path temp s s1
  vanished : is_empty q ≡ true → s1.files path ≡ none → Saved q path temp s s1

pub after-files {ℓ κ} :
    {A : Type ℓ} {B : Type κ} (m : Result A × System) (k : A → System → Result B × System)
    (p : Bytes)
    → ((a : A) (s : System) → (k a s).1.files p ≡ s.files p)
    → (after m k).1.files p ≡ m.1.files p
after-files (err e, s) k p h = refl
after-files (ok a, s) k p h = h a s

after-cases {ℓ κ} :
    {A : Type ℓ} {B : Type κ} (m : Result A × System) (k : A → System → Result B × System)
    → ((a : A) × (m.0 ≡ ok a) × (after m k ≡ k a (m.1)))
      ⊎ ((e : Error) × (after m k ≡ (err e, m.1)))
after-cases (err e, s) k = inr (e, refl)
after-cases (ok a, s) k = inl (a, refl, refl)

-- a save and its unload leave the other files alone
pub save_unload-files :
    (pedantic : Bool) (stamp : Bytes) (r : Ziprom) (s : System) (p : Bytes)
    → bytes_eq r.zip.path p ≡ false
    → bytes_eq (file_temp r.zip.path stamp) p ≡ false
    → (save_unload pedantic stamp r s).1.files p ≡ s.files p
unfolding save_unload save_ziprom
save_unload-files pedantic stamp r s p a b =
    after-files (save_ziprom stamp r s) (λ r1 s1. within s1 (unload_ziprom pedantic s1 r1)) p
      (λ r1 s1. refl)
    ∙ elim (Bool-cases (r.zip.is_read && r.zip.is_modify)) [
      | inl c ↦ rw c (save-files stamp r.zip s p a b)
      | inr c ↦ rw c refl
    ]

-- a whole save of zip.cc that reports no error
save-Saved :
    (stamp : Bytes) (q : Zip) (s : System) (x : Zip)
    → (save stamp q s).0 ≡ ok x
    → Saved q q.path (file_temp q.path stamp) s (save stamp q s).1
save-Saved stamp q s x e = elim (save-Ending stamp q s) [
  | kept e' p h ↦ absurd (cc (e, p))
  | renamed z' f w r p t ↦ rewritten z' f w p
  | deleted n r p ↦ vanished n p
  | stranded z' f w p t c ↦ absurd (cc (e, p))
]

with_zip_ok :
    (r : Ziprom) (m : Result Zip) (r1 : Ziprom) → with_zip r m ≡ ok r1 → (x : Zip) × (m ≡ ok x)
with_zip_ok r (err e) r1 p = cc
with_zip_ok r (ok x) r1 p = (x, refl)

abbrev pub save_if : Bool → Bytes → Ziprom → System → Result Ziprom × System
save_if ready stamp r s =
    if ready then (let (m, s') = save stamp r.zip s in (with_zip r m, s')) else (ok r, s)

save_if-Saved :
    (ready : Bool) (stamp : Bytes) (r : Ziprom) (s : System) (r1 : Ziprom)
    → (ready ≡ false → r.zip.is_modify ≡ false)
    → (save_if ready stamp r s).0 ≡ ok r1
    → Saved r.zip r.zip.path (file_temp r.zip.path stamp) s (save_if ready stamp r s).1
save_if-Saved true stamp r s r1 f e =
    let (x, p) = with_zip_ok r (save stamp r.zip s).0 r1 e in save-Saved stamp r.zip s x p
save_if-Saved false stamp r s r1 f e = unmodified (f refl) refl

save_ziprom-Saved :
    (stamp : Bytes) (r : Ziprom) (s : System) (r1 : Ziprom)
    → r.zip.is_read ≡ true
    → (save_ziprom stamp r s).0 ≡ ok r1
    → Saved r.zip r.zip.path (file_temp r.zip.path stamp) s (save_ziprom stamp r s).1
unfolding save_ziprom
save_ziprom-Saved stamp r s r1 l e =
    save_if-Saved (r.zip.is_read && r.zip.is_modify) stamp r s r1
      (λ h. ap (λ b. b && r.zip.is_modify) (sym l) ∙ h) e

save_unload-Saved :
    (pedantic : Bool) (stamp : Bytes) (r : Ziprom) (s : System) (r2 : Ziprom)
    → r.zip.is_read ≡ true
    → (save_unload pedantic stamp r s).0 ≡ ok r2
    → Saved r.zip r.zip.path (file_temp r.zip.path stamp) s (save_unload pedantic stamp r s).1
unfolding save_unload
save_unload-Saved pedantic stamp r s r2 l e =
    let k = λ (r1 : Ziprom) (s1 : System). within s1 (unload_ziprom pedantic s1 r1) in
    elim (after-cases (save_ziprom stamp r s) k) [
      | inl (r1, h, p) ↦ rw p (save_ziprom-Saved stamp r s r1 l h)
      | inr (e', p) ↦ absurd (cc (ap (λ t. t.0) (sym p), e))
    ]

Saved-files :
    {q : Zip} {path temp : Bytes} {s s1 s2 : System}
    → Saved q path temp s s1
    → s2.files path ≡ s1.files path
    → Saved q path temp s s2
Saved-files (unmodified m p) h = unmodified m (h ∙ p)
Saved-files (rewritten z' f w p) h = rewritten z' f w (h ∙ p)
Saved-files (vanished n p) h = vanished n (h ∙ p)

-- the second save of rom_move
abbrev then_delete : Bool → Bytes → Ziprom → Ziprom → System → Result (Ziprom × Ziprom) × System
then_delete pedantic stamp z q s =
    after (save_unload pedantic stamp z s) (λ z1 s2. (ok (z1, q), s2))

-- two files that, with the temporary ones of their saves, are not the same
pub record AreApart (stamp stamp' own rejected : Bytes) : Type 0 where
  pub not_own : bytes_eq rejected own ≡ false
  pub not_rejected : bytes_eq own rejected ≡ false
  pub not_own_temp : bytes_eq (file_temp rejected stamp) own ≡ false
  pub not_rejected_temp : bytes_eq (file_temp own stamp') rejected ≡ false

-- rom_move_end: the archive's own file is as it was, or the other archive has been saved.
rom_move_end-Saved :
    (pedantic : Bool) (stamp stamp' : Bytes) (z q : Ziprom) (s : System)
    → q.zip.is_read ≡ true
    → AreApart stamp stamp' z.zip.path q.zip.path
    → ((rom_move_end pedantic stamp stamp' z q s).1.files z.zip.path ≡ s.files z.zip.path)
      ⊎ Saved q.zip q.zip.path
          (file_temp q.zip.path stamp)
          s
          (rom_move_end pedantic stamp stamp' z q s).1
unfolding rom_move_end
rom_move_end-Saved pedantic stamp stamp' z q s l a =
    let m = save_unload pedantic stamp q s in
    elim (after-cases m (then_delete pedantic stamp' z)) [
      | inl (q1, h, p) ↦
          let kept =
            after-files (save_unload pedantic stamp' z m.1) (λ z1 s2. (ok (z1, q1), s2)) q.zip.path
              (λ z1 s2. refl)
            ∙ save_unload-files pedantic stamp' z (m.1) q.zip.path a.not_rejected
                a.not_rejected_temp in
          inr (
            subst
              (λ (t : Result (Ziprom × Ziprom) × System).
                Saved q.zip q.zip.path (file_temp q.zip.path stamp) s (t.1))
              (sym p) (Saved-files (save_unload-Saved pedantic stamp q s q1 l h) kept))
      | inr (e', p) ↦ inl (
          ap (λ t. t.1.files z.zip.path) p
          ∙ save_unload-files pedantic stamp q s z.zip.path a.not_own a.not_own_temp)
    ]

pub rom_move_end-at :
    (pedantic : Bool) (stamp stamp' own rejected : Bytes) (z q : Ziprom) (s : System)
    → z.zip.path ≡ own
    → q.zip.path ≡ rejected
    → q.zip.is_read ≡ true
    → AreApart stamp stamp' own rejected
    → ((rom_move_end pedantic stamp stamp' z q s).1.files own ≡ s.files own)
      ⊎ Saved q.zip rejected
          (file_temp rejected stamp)
          s
          (rom_move_end pedantic stamp stamp' z q s).1
rom_move_end-at pedantic stamp stamp' own rejected z q s p p' l a =
    let t = rom_move_end pedantic stamp stamp' z q s in
    let a' : AreApart stamp stamp' z.zip.path q.zip.path =
      subst (λ x. AreApart stamp stamp' x q.zip.path) (sym p)
        (subst (λ y. AreApart stamp stamp' own y) (sym p') a) in
    subst (λ x. (t.1.files x ≡ s.files x) ⊎ Saved q.zip rejected (file_temp rejected stamp) s (t.1))
      p
      (subst
        (λ y.
          (t.1.files z.zip.path ≡ s.files z.zip.path) ⊎ Saved q.zip y (file_temp y stamp) s (t.1))
        p' (rom_move_end-Saved pedantic stamp stamp' z q s l a'))
