-- ===== src/Zip/Entry/Header/Bounds.antt =====
-- zip.cc: load_cent and zip::open on directories that are cut.
use advancescan.Base.{
  Bytes, ap, arith, drop, err, length, length-append, length-drop, ok, overrun, refl, suc, ℕ, ◌++◌,
  ◌+◌, ◌<◌, ◌∙◌, ◌≡◌, ◌≤◌,
}
use advancescan.Endian.{le_uint32_read}
use advancescan.Zip.Archive.Directory.{read_entries}
use advancescan.Zip.Entry.{Entry, Info, new_entry}
use advancescan.Zip.Entry.Header.{cent_header, check_cent, load_cent, load_tail, read_cent}
use advancescan.Zip.Entry.Header.RoundTrip.{
  IsStored, cent_info, check_cent-cent_header, length-cent_header, read_cent-cent_header,
}
use advancescan.Zip.Format.{c_signature, co_fixed}
use advancescan.Zip.Stream.{block, short}

block_overrun : (b : Bytes) (n : ℕ) → length b < n → block b n ≡ err overrun
unfolding block
block_overrun b n h = ground arith

load_tail_overrun :
    (buf : Bytes) (i : Info) (e : Entry)
    → length buf < i.filename_length
    → load_tail buf i e ≡ err overrun
unfolding load_tail
load_tail_overrun buf i e h = rw (block_overrun buf i.filename_length h)

-- A directory entry whose fixed part is well formed, and whose stated file name is longer than
-- what is left of the buffer, is not refused: load_cent reads past the end of the buffer.
pub load_cent_overrun :
    (buf : Bytes) (e : Entry) (j : Info)
    → check_cent buf ≡ ok tt
    → read_cent buf e.info ≡ ok j
    → length buf < co_fixed + j.filename_length
    → co_fixed ≤ length buf
    → load_cent buf e ≡ err overrun
unfolding load_cent
load_cent_overrun buf e j c r short whole =
    let l = length-drop co_fixed buf in
    rw c (rw r (load_tail_overrun (drop co_fixed buf) j e (omega arith)))

header_signature :
    (i : Info) (rest : Bytes) → le_uint32_read (cent_header i ++ rest) 0 ≡ ok c_signature
unfolding cent_header
header_signature i rest = refl

-- So a directory that is cut inside the name of its only entry makes the loop of zip::open read
-- outside of its buffer, for every entry that can be stored and every such cut.
pub read_entries_overrun :
    (e : Entry) (start lost : Bytes) (fuel : ℕ) (parent : Bytes)
    → IsStored e
    → e.file_name ≡ start ++ lost
    → 0 < length lost
    → read_entries (suc fuel) parent (cent_header e.info ++ start) 0 ≡ err overrun
unfolding read_entries
read_entries_overrun e start lost fuel parent h cut some_lost =
    let l1 = length-append (cent_header e.info) start in
    let l2 = length-append start lost in
    let l3 = length-cent_header e.info in
    let l4 : e.info.filename_length ≡ length (start ++ lost) = h.name_is ∙ ap length cut in
    rw (header_signature e.info start) (
      rw (
        load_cent_overrun (cent_header e.info ++ start) (new_entry parent)
          (cent_info e.info (new_entry parent).info) (check_cent-cent_header e.info start h.fits)
          (read_cent-cent_header e.info (new_entry parent).info start h.fits) (omega arith)
          (omega arith)))
