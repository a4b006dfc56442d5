-- ===== src/Scan/Fix/Clean.antt =====
-- ziprom.cc: archives that are not modified, and what is left of the disk where they are saved.
use advancescan.Base.{
  Bool, Bytes, Error, Option, Result, drop, err, failed, false, if◌then◌else◌, invalid, length,
  none, not, ok, refl, some, throw_if, true, ℕ, ◌%◌, ◌&&◌, ◌+◌, ◌-◌, ◌==◌, ◌>>=◌, ◌∙◌, ◌≡◌,
}
use advancescan.Endian.{le_uint16_read, le_uint32_read}
use advancescan.Game.{Game}
use advancescan.Scan.Fix.{rom_scan_end, rzs_report}
use advancescan.Scan.Move.Order.{save_if}
use advancescan.Scan.Store.{after, save_unload, within}
use advancescan.Zip.Archive.{System, Zip, assert, create}
use advancescan.Zip.Archive.Directory.{
  cent_read, open_cent, open_content, open_found, open_zip, read_entries,
}
use advancescan.Zip.Format.{
  e_signature, eo_fixed, eo_offset_to_start_of_cent_dir, eo_zipfile_comment_length,
}
use advancescan.Zip.Stream.{block}
use advancescan.Ziprom.{Ziprom, open_ziprom, save_ziprom, unload_ziprom}

-- a property of what a call returns, where it returns
pub data IfOk {ℓ} {A : Type ℓ} (P : A → Type 0) : Result A → Type ℓ where
  if_err : (e : Error) → IfOk P (err e)
  if_ok : (a : A) → P a → IfOk P (ok a)

pub IfOk-then {ℓ κ} :
    {A : Type ℓ} {B : Type κ} {P : A → Type 0} {Q : B → Type 0} (m : Result A) (k : A → Result B)
    → IfOk P m
    → ((a : A) → P a → IfOk Q (k a))
    → IfOk Q (m >>= k)
IfOk-then _ k (if_err e) f = if_err e
IfOk-then _ k (if_ok a p) f = f a p

IfOk-call {ℓ κ} :
    {A : Type ℓ} {B : Type κ} {Q : B → Type 0} (m : Result A) {k : A → Result B}
    → ((a : A) → IfOk Q (k a))
    → IfOk Q (m >>= k)
IfOk-call (err e) f = if_err e
IfOk-call (ok a) f = f a

-- the zip is as it is on the disk
abbrev pub IsClean : Zip → Type 0
IsClean z = z.is_modify ≡ false

open_cent-IsClean :
    (pedantic : Bool) (z : Zip) (n : ℕ) (cent : Bytes) → IfOk IsClean (open_cent pedantic z n cent)
unfolding open_cent
open_cent-IsClean pedantic z n cent = IfOk-call (read_entries (length cent + 1) z.path cent 0) (λ r.
    IfOk-call (le_uint32_read cent (r.1)) (λ signature.
      IfOk-call (throw_if (not (signature == e_signature)) invalid) (λ _.
        IfOk-call (le_uint32_read cent (r.1 + eo_offset_to_start_of_cent_dir)) (λ start.
          IfOk-call (le_uint16_read cent (r.1 + eo_zipfile_comment_length)) (λ comment_length.
            IfOk-call (throw_if (not (start == n - length cent)) invalid) (λ _.
              IfOk-call (block (drop (r.1 + eo_fixed) cent) comment_length) (λ comment.
                IfOk-call
                  (throw_if (pedantic && not (r.1 + eo_fixed + comment_length == length cent))
                    invalid)
                  (λ _. if_ok _ refl))))))))

open_found-IsClean :
    (pedantic : Bool) (z : Zip) (n : ℕ) (o : Option Bytes)
    → IfOk IsClean (open_found pedantic z n o)
unfolding open_found
open_found-IsClean pedantic z n none = if_err invalid
open_found-IsClean pedantic z n (some cent) = open_cent-IsClean pedantic z n cent

open_content-IsClean :
    (pedantic : Bool) (z : Zip) (content : Bytes) → IfOk IsClean (open_content pedantic z content)
unfolding open_content
open_content-IsClean pedantic z content =
    let n = length content % 4294967296 in
    IfOk-call (cent_read content n) (open_found-IsClean pedantic z n)

create-IsClean : (z : Zip) → IfOk IsClean (create z)
unfolding create
create-IsClean z = IfOk-call (assert (not z.is_open)) (λ _. if_ok _ refl)

-- the file of an archive, if it is there and may be read
open_file-IsClean :
    (pedantic readable : Bool) (z : Zip) (f : Option Bytes)
    → IfOk IsClean (elim f [
      | none ↦ create z
      | some content ↦ if readable then open_content pedantic z content else err failed
    ])
open_file-IsClean pedantic readable z none = create-IsClean z
open_file-IsClean pedantic true z (some content) = open_content-IsClean pedantic z content
open_file-IsClean pedantic false z (some content) = if_err failed

open_zip-IsClean : (pedantic : Bool) (z : Zip) (s : System) → IfOk IsClean (open_zip pedantic z s)
unfolding open_zip
open_zip-IsClean pedantic z s = IfOk-call (assert (not z.is_open)) (λ _.
    IfOk-call (throw_if (not (s.can_stat z.path)) failed)
      (λ _. open_file-IsClean pedantic (s.can_read z.path) z (s.files z.path)))

pub open_ziprom-IsClean :
    (pedantic can_write : Bool) (r : Ziprom) (s : System)
    → IfOk (λ q. IsClean q.zip) (open_ziprom pedantic can_write r s)
unfolding open_ziprom
open_ziprom-IsClean pedantic can_write r s =
    IfOk-then (open_zip pedantic r.zip s) _ (open_zip-IsClean pedantic r.zip s) (λ z c. if_ok _ c)

-- the next call leaves the disk as it is, whatever the first has returned
pub after_same {ℓ κ} :
    {A : Type ℓ} {B : Type κ} (m : Result A × System) (k : A → System → Result B × System)
    (s : System)
    → m.1 ≡ s
    → ((a : A) (s1 : System) → s1 ≡ s → (k a s1).1 ≡ s)
    → (after m k).1 ≡ s
after_same (err e, s1) k s h f = h
after_same (ok a, s1) k s h f = f a s1 h

pub after_ok {ℓ κ} :
    {A : Type ℓ} {B : Type κ} {P : A → Type 0} (m : Result A) (k : A → System → Result B × System)
    (s : System)
    → IfOk P m
    → ((a : A) → P a → (k a s).1 ≡ s)
    → (after (within s m) k).1 ≡ s
after_ok _ k s (if_err e) f = refl
after_ok _ k s (if_ok a p) f = f a p

save_if_clean :
    (ready : Bool) (stamp : Bytes) (r : Ziprom) (s : System)
    → ready ≡ false
    → (save_if ready stamp r s).1 ≡ s
save_if_clean true stamp r s e = cc e
save_if_clean false stamp r s e = refl

and_false : (a b : Bool) → b ≡ false → (a && b) ≡ false
and_false true b e = e
and_false false b e = refl

-- a save of an archive that is not modified leaves the disk as it is
pub save_unload_clean :
    (pedantic : Bool) (stamp : Bytes) (r : Ziprom) (s : System)
    → IsClean r.zip
    → (save_unload pedantic stamp r s).1 ≡ s
unfolding save_unload save_ziprom
save_unload_clean pedantic stamp r s c =
    let ready = r.zip.is_read && r.zip.is_modify in
    after_same (save_if ready stamp r s) (λ r1 s1. within s1 (unload_ziprom pedantic s1 r1)) s
      (save_if_clean ready stamp r s (and_false r.zip.is_read r.zip.is_modify c)) (λ r1 s1 h. h)

pub rom_scan_end_clean :
    (pedantic : Bool) (stamp stamp' : Bytes) (good : Bool) (g : Game) (z reject : Ziprom)
    (s : System)
    → IsClean z.zip
    → IsClean reject.zip
    → (rom_scan_end pedantic stamp stamp' good g z reject s).1 ≡ s
unfolding rom_scan_end
rom_scan_end_clean pedantic stamp stamp' good g z reject s c d =
    after_same (save_unload pedantic stamp z s) _ s (save_unload_clean pedantic stamp z s c)
      (λ z1 s1 e. after_same (within s1 (rzs_report good z1 g s1)) _ s e (λ g1 s2 f.
        after_same (save_unload pedantic stamp' reject s2) _ s
          (save_unload_clean pedantic stamp' reject s2 d ∙ f) (λ q1 s3 h. h)))
