-- ===== src/Zip/Archive/Directory/RoundTrip.antt =====
-- zip.cc: zip::open of a file that zip::save wrote.
use advancescan.Base.{
  Bool, Bool-cases, Bytes, List, [], ap, append_assoc, arith, drop, drop-add-append, drop-drop,
  drop-length-append, failed, false, inl, inr, leb, length, length-append, length-drop, le→ltb, map,
  not, ok, refl, some, suc, true, zero, ℕ, ◌%◌, ◌++◌, ◌+◌, ◌-◌, ◌<◌, ◌==◌, ◌∷◌, ◌≡◌, ◌≤◌,
}
use advancescan.Endian.{first16, first32, le_uint16_read, le_uint32_read}
use advancescan.Endian.Laws.{make32_bytes}
use advancescan.Zip.Archive.{Zip}
use advancescan.Zip.Archive.Directory.{
  cent_copy, cent_found, cent_loop, cent_read, ecd_compare_sig, ecd_find_sig, first_buffer,
  open_cent, open_content, read_entries,
}
use advancescan.Zip.Archive.Save.{eo_header}
use advancescan.Zip.Archive.Save.Layout.{
  All, IsKept, all_cents, all_locals, archive_bytes, directory_bytes, length-eo_header, placed_all,
  placed_all-IsStored,
}
use advancescan.Zip.Entry.{Entry, new_entry}
use advancescan.Zip.Entry.Header.{load_cent}
use advancescan.Zip.Entry.Header.RoundTrip.{
  IsStored, cent_bytes, cent_entry, cent_signature, length-cent_bytes, load_cent-cent_bytes,
}
use advancescan.Zip.Format.{
  c_signature, e_signature, eo_fixed, eo_offset_to_start_of_cent_dir, eo_zipfile_comment_length,
}
use advancescan.Zip.Stream.Laws.{block_all, fread_end}

-- An entry as zip::open reads it back from the directory of the archive `parent`.
abbrev pub reopened : Bytes → Entry → Entry
reopened parent e = cent_entry e (new_entry parent)

read32-append : (a b : Bytes) (n : ℕ) → le_uint32_read (a ++ b) (length a + n) ≡ le_uint32_read b n
read32-append a b n = ap first32 (drop-add-append a b n)

read16-append : (a b : Bytes) (n : ℕ) → le_uint16_read (a ++ b) (length a + n) ≡ le_uint16_read b n
read16-append a b n = ap first16 (drop-add-append a b n)

read32_here : (a b : Bytes) → le_uint32_read (a ++ b) (length a) ≡ le_uint32_read b 0
read32_here a b = ap first32 (drop-length-append a b)

-- One round of the loop of zip::open.
read_entries_step :
    (fuel : ℕ) (parent cent : Bytes) (pos skip : ℕ) (e : Entry) (r : List Entry × ℕ)
    → le_uint32_read cent pos ≡ ok c_signature
    → load_cent (drop pos cent) (new_entry parent) ≡ ok (e, skip)
    → read_entries fuel parent cent (pos + skip) ≡ ok r
    → read_entries (suc fuel) parent cent pos ≡ ok (e ∷ r.0, r.1)
unfolding read_entries
read_entries_step fuel parent cent pos skip e r hs hl hr = rw hs (rw hl (rw hr))

read_entries_stop :
    (fuel : ℕ) (parent cent : Bytes) (pos : ℕ)
    → le_uint32_read cent pos ≡ ok e_signature
    → read_entries (suc fuel) parent cent pos ≡ ok ([], pos)
unfolding read_entries
read_entries_stop fuel parent cent pos h = rw h

-- The loop of zip::open reads back every entry of the directory, and stops at its end.
read_entries-all_cents :
    (es : List Entry) (fuel : ℕ) (parent before tail : Bytes)
    → All IsStored es
    → length es < fuel
    → le_uint32_read tail 0 ≡ ok e_signature
    → read_entries fuel parent (before ++ (all_cents es ++ tail)) (length before)
      ≡ ok (map (reopened parent) es, length before + length (all_cents es))
unfolding all_cents
read_entries-all_cents es zero parent before tail h f e = absurd (omega arith)
read_entries-all_cents [] (suc fuel) parent before tail h f e =
    let ends : length before + 0 ≡ length before = omega arith in
    rw ends (
      read_entries_stop fuel parent (before ++ tail) (length before)
        (rw (read32_here before tail) e))
read_entries-all_cents (x ∷ es) (suc fuel) parent before tail h f e =
    let rest = all_cents es ++ tail in
    let l1 = length-append before (cent_bytes x) in
    let l2 = length-append (cent_bytes x) (all_cents es) in
    let ends : length before + length (cent_bytes x) + length (all_cents es)
        ≡ length before + length (cent_bytes x ++ all_cents es) =
      omega arith in
    rw (append_assoc (cent_bytes x) (all_cents es) tail, ← ends)
      (read_entries_step fuel parent (before ++ (cent_bytes x ++ rest)) (length before)
        (length (cent_bytes x)) (reopened parent x)
        (map (reopened parent) es, length before + length (cent_bytes x) + length (all_cents es))
        (rw (read32_here before (cent_bytes x ++ rest)) (cent_signature x rest))
        (rw (drop-length-append before (cent_bytes x ++ rest))
          (load_cent-cent_bytes x (new_entry parent) rest h.0))
        (rw (← append_assoc before (cent_bytes x) rest, ← l1)
          (read_entries-all_cents es fuel parent (before ++ cent_bytes x) tail h.1 (omega arith)
            e)))

-- The end of the central directory, as zip::open reads it.
record EoReads (n s o : ℕ) : Type 0 where
  signature : le_uint32_read (eo_header n s o 0) 0 ≡ ok e_signature
  start : le_uint32_read (eo_header n s o 0) eo_offset_to_start_of_cent_dir ≡ ok o
  comment : le_uint16_read (eo_header n s o 0) eo_zipfile_comment_length ≡ ok 0
  compares : ecd_compare_sig (eo_header n s o 0) ≡ true
  nothing_left : drop eo_fixed (eo_header n s o 0) ≡ []

eo_reads : (n s o : ℕ) → o < 4294967296 → EoReads n s o
unfolding eo_header ecd_compare_sig
eo_reads n s o h = record {
  signature = refl;
  start = ap ok (make32_bytes o h);
  comment = refl;
  compares = refl;
  nothing_left = refl;
}

length-le-all_cents : (es : List Entry) → length es ≤ length (all_cents es)
unfolding all_cents
length-le-all_cents [] = omega arith
length-le-all_cents (e ∷ es) = omega (
  arith,
  length-le-all_cents es,
  length-cent_bytes e,
  length-append (cent_bytes e) (all_cents es),
)

-- zip::open, behind cent_read, of a directory that zip::save wrote for entries that begin at 0.
open_cent-directory_bytes :
    (pedantic : Bool) (z : Zip) (es : List Entry)
    → All IsKept es
    → length (archive_bytes es) < 4294967296
    → open_cent pedantic z (length (archive_bytes es)) (directory_bytes es)
      ≡ ok (record z {
        is_open = true;
        is_read = false;
        is_modify = false;
        offset_to_start_of_cent_dir = length (all_locals es);
        zipfile_comment_length = 0;
        zipfile_comment = [];
        entries = z.entries ++ map (reopened z.path) (placed_all 0 es);
      })
unfolding open_cent
open_cent-directory_bytes pedantic z es h lt =
    let placed_es = placed_all 0 es in
    let start = length (all_locals es) in
    let cents = all_cents placed_es in
    let eo = eo_header (length placed_es) (start + length cents - start) start 0 in
    let l1 = length-append (all_locals es) (cents ++ eo) in
    let l2 = length-append cents eo in
    let l3 = length-eo_header (length placed_es) (start + length cents - start) start 0 in
    let r = eo_reads (length placed_es) (start + length cents - start) start (omega arith) in
    let few = length-le-all_cents placed_es in
    let dir = directory_bytes es in
    let same : not (start == length (archive_bytes es) - length dir) ≡ false = ground arith in
    let whole : not (length cents + eo_fixed + 0 == length dir) ≡ false = ground arith in
    let first =
      read_entries-all_cents placed_es (length dir + 1) z.path [] eo (placed_all-IsStored es 0 h)
        (omega arith) r.signature in
    let zero_add : 0 + length cents ≡ length cents = omega arith in
    rw first (
      rw zero_add (
        rw (read32_here cents eo) (
          rw (r.signature) (
            rw (read32-append cents eo eo_offset_to_start_of_cent_dir) (
              rw (r.start) (
                rw (read16-append cents eo eo_zipfile_comment_length) (
                  rw (r.comment) (
                    rw same (
                      rw (drop-add-append cents eo eo_fixed) (
                        rw (r.nothing_left)
                          (rw (block_all [] 0 refl) (rw whole (ground arith)))))))))))))

-- The end of a file that ends with the structure `eo`: cent_read finds it where it stands.
find_sig_last :
    (buf : Bytes) (n s o : ℕ)
    → o < 4294967296
    → eo_fixed ≤ length buf
    → drop (length buf - eo_fixed) buf ≡ eo_header n s o 0
    → ecd_find_sig buf ≡ some (length buf - eo_fixed)
unfolding ecd_find_sig
find_sig_last buf n s o lt le at_end =
    let e : length buf + 1 - eo_fixed ≡ suc (length buf - eo_fixed) = omega arith in
    rw e (rw at_end (rw ((eo_reads n s o lt).compares)))

first_buffer_bounds : (n : ℕ) → 22 ≤ n → (22 ≤ first_buffer n) × (first_buffer n ≤ n)
first_buffer_bounds n h = ground arith

module _ (content : Bytes) (n s o : ℕ) (lt : o < 4294967296) (size : eo_fixed ≤ length content)
    (inside : o < length content)
    (at_end : drop (length content - eo_fixed) content ≡ eo_header n s o 0) where
  cent_copy_ok :
      (w : ℕ)
      → w ≤ length content
      → cent_copy content (drop (length content - w) content) o (length content)
        ≡ ok (some (drop o content))
  unfolding cent_copy
  cent_copy_ok w le =
      let l = length-drop (length content - w) content in
      let l' = length-drop o content in
      let lb : length content - length (drop (length content - w) content) ≡ length content - w =
        omega arith in
      rw lb (elim (Bool-cases (leb (length content - w) o)) [
        | inl inside_buffer ↦
            let pos : length content - w + (o - (length content - w)) ≡ o = ground arith in
            rw inside_buffer (
              rw (drop-drop (o - (length content - w)) (length content - w) content)
                (rw pos (rw (block_all (drop o content) (length content - o) (omega arith)))))
        | inr outside ↦
            rw outside
              (rw (fread_end content o (length content - o) failed (omega arith) (omega arith)))
      ])

  cent_found_ok :
      (w : ℕ)
      → w ≤ length content
      → eo_fixed ≤ w
      → cent_found content (drop (length content - w) content) (w - eo_fixed) (length content)
        ≡ ok (some (drop o content))
  unfolding cent_found
  cent_found_ok w le few =
      let r = eo_reads n s o lt in
      let at_eo : length content - w + (w - eo_fixed) ≡ length content - eo_fixed = omega arith in
      let not_past : leb (length content) o ≡ false = ground arith in
      rw
        (← drop-drop eo_offset_to_start_of_cent_dir (w - eo_fixed)
          (drop (length content - w) content))
        (rw (drop-drop (w - eo_fixed) (length content - w) content)
          (rw at_eo (rw at_end (rw (r.start) (rw not_past (cent_copy_ok w le))))))

  cent_loop_ok :
      (fuel w : ℕ)
      → w ≤ length content
      → eo_fixed ≤ w
      → cent_loop (suc fuel) content (length content) w ≡ ok (some (drop o content))
  unfolding cent_loop
  cent_loop_ok fuel w le few =
      let lb = length-drop (length content - w) content in
      let lw : length (drop (length content - w) content) ≡ w = omega arith in
      let at_eo : length content - w + (w - eo_fixed) ≡ length content - eo_fixed = omega arith in
      let found =
        find_sig_last (drop (length content - w) content) n s o lt (omega arith)
          (rw lw (rw (drop-drop (w - eo_fixed) (length content - w) content) (rw at_eo at_end))) in
      rw (le→ltb (length content) w le, cent_loop)
        (rw (fread_end content (length content - w) w failed (omega arith) (omega arith))
          (rw found (rw lw (cent_found_ok w le few))))

  pub cent_read_ok : cent_read content (length content) ≡ ok (some (drop o content))
  unfolding cent_read
  cent_read_ok =
      let b = first_buffer_bounds (length content) (omega arith) in
      cent_loop_ok 8 (first_buffer (length content)) b.1 (omega arith)

-- zip::open of the whole file that zip::save wrote.
pub open_content-archive_bytes :
    (pedantic : Bool) (z : Zip) (es : List Entry)
    → All IsKept es
    → length (archive_bytes es) < 4294967296
    → open_content pedantic z (archive_bytes es)
      ≡ ok (record z {
        is_open = true;
        is_read = false;
        is_modify = false;
        offset_to_start_of_cent_dir = length (all_locals es);
        zipfile_comment_length = 0;
        zipfile_comment = [];
        entries = z.entries ++ map (reopened z.path) (placed_all 0 es);
      })
unfolding open_content
open_content-archive_bytes pedantic z es h lt =
    let placed_es = placed_all 0 es in
    let start = length (all_locals es) in
    let cents = all_cents placed_es in
    let eo = eo_header (length placed_es) (start + length cents - start) start 0 in
    let l1 = length-append (all_locals es) (cents ++ eo) in
    let l2 = length-append cents eo in
    let l3 = length-eo_header (length placed_es) (start + length cents - start) start 0 in
    let content = archive_bytes es in
    let small : length content % 4294967296 ≡ length content = omega arith in
    let before_eo : length content - eo_fixed ≡ length (all_locals es ++ cents) =
      omega (arith, length-append (all_locals es) cents) in
    let at_end : drop (length content - eo_fixed) content ≡ eo = rw (before_eo) (
      rw (← append_assoc (all_locals es) cents eo)
        (drop-length-append (all_locals es ++ cents) eo)) in
    let found =
      cent_read_ok content (length placed_es) (start + length cents - start) start (omega arith)
        (omega arith) (omega arith) at_end in
    rw small (
      rw found (
        rw (drop-length-append (all_locals es) (directory_bytes es))
          (open_cent-directory_bytes pedantic z es h lt)))
