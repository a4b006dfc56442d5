-- ===== src/Zip/Archive/Save/Layout.antt =====
-- zip.cc: the bytes that zip::save writes.
use mathlib.Core.Option
use advancescan.Base.{
  Bytes, List, [], ap, append-nil, append_assoc, arith, length, length-append, ok, refl, sym, ℕ,
  ◌%◌, ◌++◌, ◌+◌, ◌-◌, ◌∷◌, ◌≡◌, ◌≤◌,
}
use advancescan.Zip.Archive.{Zip}
use advancescan.Zip.Archive.Save.{eo_header, save_cents, save_locals, save_stream}
use advancescan.Zip.Entry.{Entry}
use advancescan.Zip.Entry.Header.RoundTrip.{IsStored, cent_bytes, fwrite_some_none, save_cent_ok}
use advancescan.Zip.Entry.Local.RoundTrip.{IsLoaded, local_bytes, placed, save_local_ok}
use advancescan.Zip.Format.{eo_fixed}
use advancescan.Zip.Stream.{Output, ftell}
use advancescan.Zip.Stream.Laws.{fwrite_ok, push, push-push}

-- A property of every element of a list.
abbrev pub All {ℓ κ} : {A : Type ℓ} → (A → Type κ) → List A → Type κ
All P [] = Unit
All P (x ∷ xs) = P x × All P xs

abbrev pub data_of : Entry → Bytes
data_of e = Option.get_or e.compdata []

-- An entry that can be saved: its buffers have the lengths of `info`, and its data is there.
pub record IsKept (e : Entry) : Type 0 where
  pub stored : IsStored e
  pub loaded : IsLoaded e (data_of e)

abbrev pub entry_bytes : Entry → Bytes
entry_bytes e = local_bytes e (data_of e)

unfoldable pub all_locals : List Entry → Bytes
all_locals [] = []
all_locals (e ∷ es) = entry_bytes e ++ all_locals es

-- The entries with the offsets at which they are written, from `pos` on.
unfoldable pub placed_all : ℕ → List Entry → List Entry
placed_all pos [] = []
placed_all pos (e ∷ es) = placed e pos ∷ placed_all (pos + length (entry_bytes e)) es

unfoldable pub all_cents : List Entry → Bytes
all_cents [] = []
all_cents (e ∷ es) = cent_bytes e ++ all_cents es

pub placed-IsStored : (e : Entry) (pos : ℕ) → IsStored e → IsStored (placed e pos)
placed-IsStored e pos h = ground arith

pub placed_all-IsStored :
    (es : List Entry) (pos : ℕ) → All IsKept es → All IsStored (placed_all pos es)
unfolding placed_all
placed_all-IsStored [] pos h = tt
placed_all-IsStored (e ∷ es) pos h =
    (placed-IsStored e pos h.0.stored, placed_all-IsStored es (pos + length (entry_bytes e)) h.1)

save_locals_ok :
    (es : List Entry) (f : Output)
    → All IsKept es
    → length f.written + length (all_locals es) ≤ f.room
    → save_locals es f ≡ ok (placed_all (ftell f) es, push f (all_locals es))
unfolding save_locals placed_all all_locals
save_locals_ok [] f h r = ap (λ w. ok ([], record f { written = w })) (sym (append-nil f.written))
save_locals_ok (e ∷ es) f h r =
    let n = length-append (entry_bytes e) (all_locals es) in
    let n' = length-append f.written (entry_bytes e) in
    let f1 = push f (entry_bytes e) in
    rw (save_local_ok e (data_of e) f h.0.stored h.0.loaded (omega arith)) (
      rw (save_locals_ok es f1 h.1 (omega arith))
        (rw (n', push-push f (entry_bytes e) (all_locals es))))

save_cents_ok :
    (es : List Entry) (f : Output)
    → All IsStored es
    → length f.written + length (all_cents es) ≤ f.room
    → save_cents es f ≡ ok (push f (all_cents es))
unfolding save_cents all_cents
save_cents_ok [] f h r = ap (λ w. ok (record f { written = w })) (sym (append-nil f.written))
save_cents_ok (e ∷ es) f h r =
    let n = length-append (cent_bytes e) (all_cents es) in
    let n' = length-append f.written (cent_bytes e) in
    let f1 = push f (cent_bytes e) in
    rw (save_cent_ok e f h.0 (omega arith))
      (rw (save_cents_ok es f1 h.1 (omega arith)) (rw (push-push f (cent_bytes e) (all_cents es))))

-- The whole file: the local entries, the directory and its end, with no comment.
abbrev pub directory_bytes : List Entry → Bytes
directory_bytes es =
    let start = length (all_locals es) in
    let cents = all_cents (placed_all 0 es) in
    cents ++ eo_header (length (placed_all 0 es)) (start + length cents - start) start 0

abbrev pub archive_bytes : List Entry → Bytes
archive_bytes es = all_locals es ++ directory_bytes es

pub length-eo_header : (n s o c : ℕ) → length (eo_header n s o c) ≡ eo_fixed
unfolding eo_header
length-eo_header n s o c = refl

-- The archive after the writes of zip::save.
abbrev pub saved : Zip → Zip
saved z = record z {
  entries = placed_all 0 z.entries;
  offset_to_start_of_cent_dir = length (all_locals z.entries) % 4294967296;
}

pub save_stream_ok :
    (z : Zip) (room : ℕ)
    → All IsKept z.entries
    → z.zipfile_comment_length ≡ 0
    → length (archive_bytes z.entries) ≤ room
    → save_stream z (record { written = []; room = room })
      ≡ ok (saved z, record { written = archive_bytes z.entries; room = room })
unfolding save_stream
save_stream_ok z room h c r =
    let es = z.entries in
    let start = length (all_locals es) in
    let cents = all_cents (placed_all 0 es) in
    let eo = eo_header (length (placed_all 0 es)) (start + length cents - start) start 0 in
    let f0 : Output = record { written = []; room = room } in
    let f1 = push f0 (all_locals es) in
    let f2 = push f1 cents in
    let n0 = length-append (all_locals es) (cents ++ eo) in
    let n1 = length-append cents eo in
    let n2 = length-append (all_locals es) cents in
    let n3 = length-eo_header (length (placed_all 0 es)) (start + length cents - start) start 0 in
    rw (save_locals_ok es f0 h (omega arith)) (
      rw (save_cents_ok (placed_all 0 es) f1 (placed_all-IsStored es 0 h) (omega arith)) (
        rw c (
          rw n2 (
            rw (fwrite_ok eo f2 (omega arith) (omega arith))
              (rw (fwrite_some_none z.zipfile_comment (push f2 eo)) (simp append_assoc))))))
