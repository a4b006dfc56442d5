-- ===== src/Zip/Entry/Local/RoundTrip.antt =====
-- zip.cc: load_local after save_local.
use advancescan.Base.{
  Bool, Bytes, [], ap, append_assoc, arith, failed, false, length, length-append, le→ltb, ltb, ok,
  refl, some, ℕ, ◌%◌, ◌++◌, ◌+◌, ◌-◌, ◌<◌, ◌∷◌, ◌≡◌, ◌≤◌,
}
use advancescan.Endian.{byte0, byte1, le_uint16_read, le_uint32_read, make16}
use advancescan.Endian.Laws.{make16_bytes, make32_bytes}
use advancescan.Zip.Entry.{Entry, Info, has_descriptor}
use advancescan.Zip.Entry.Header.{clear_descriptor}
use advancescan.Zip.Entry.Header.RoundTrip.{Fits, IsStored, cent_entry, cent_info, fwrite_some_ok}
use advancescan.Zip.Entry.Local.{check_local, fread_some, load_local, local_header, save_local}
use advancescan.Zip.Format.{
  l_signature, lo_compressed_size, lo_compression_method, lo_crc32, lo_extra_field_length,
  lo_filename_length, lo_fixed, lo_general_purpose_bit_flag, lo_local_file_header_signature,
  lo_uncompressed_size,
}
use advancescan.Zip.Stream.{Output, ftell}
use advancescan.Zip.Stream.Laws.{block_all, fread-append, fwrite_ok, push}

pub length-local_header : (i : Info) → length (local_header i) ≡ lo_fixed
unfolding local_header
length-local_header i = refl

flags_bytes :
    (v : ℕ)
    → v < 65536
    → make16 (byte0 (clear_descriptor v)) (byte1 (clear_descriptor v)) ≡ clear_descriptor v
flags_bytes v h = make16_bytes (clear_descriptor v) (omega arith)

-- The fields that check_local and load_local read.
record LocalReads (i : Info) : Type 0 where
  signature : le_uint32_read (local_header i) lo_local_file_header_signature ≡ ok l_signature
  flags :
      le_uint16_read (local_header i) lo_general_purpose_bit_flag
      ≡ ok (clear_descriptor i.general_purpose_bit_flag)
  method : le_uint16_read (local_header i) lo_compression_method ≡ ok i.compression_method
  crc : le_uint32_read (local_header i) lo_crc32 ≡ ok i.crc32
  compressed : le_uint32_read (local_header i) lo_compressed_size ≡ ok i.compressed_size
  uncompressed : le_uint32_read (local_header i) lo_uncompressed_size ≡ ok i.uncompressed_size
  name : le_uint16_read (local_header i) lo_filename_length ≡ ok i.filename_length
  extra : le_uint16_read (local_header i) lo_extra_field_length ≡ ok i.local_extra_field_length

local_reads : (i : Info) → Fits i → LocalReads i
unfolding local_header
local_reads i h = record {
  signature = refl;
  flags = ap ok (flags_bytes i.general_purpose_bit_flag h.flags);
  method = ap ok (make16_bytes i.compression_method h.method);
  crc = ap ok (make32_bytes i.crc32 h.crc);
  compressed = ap ok (make32_bytes i.compressed_size h.compressed);
  uncompressed = ap ok (make32_bytes i.uncompressed_size h.uncompressed);
  name = ap ok (make16_bytes i.filename_length h.name);
  extra = ap ok (make16_bytes i.local_extra_field_length h.local_extra);
}

no_descriptor : (v : ℕ) → has_descriptor (clear_descriptor v) ≡ false
no_descriptor v = ground arith

-- The directory's view of an entry accepts the local header that was saved with it.
check_local-local_header :
    (pedantic : Bool) (i j : Info)
    → Fits i
    → j.local_extra_field_length ≡ 0
    → check_local pedantic (cent_info i j) (local_header i) ≡ ok tt
unfolding check_local
check_local-local_header pedantic i j h z =
    let r = local_reads i h in
    rw (r.signature) (
      rw (r.flags) (
        rw (r.method) (
          rw (no_descriptor i.general_purpose_bit_flag) (
            rw (r.crc) (
              rw (r.compressed)
                (rw (r.uncompressed) (rw (r.name) (rw (r.extra) (ground arith)))))))))

-- The data of an entry is in memory.
pub record IsLoaded (e : Entry) (d : Bytes) : Type 0 where
  pub data_is : e.compdata ≡ some d
  pub size_is : e.info.compressed_size ≡ length d

-- The bytes of an entry in front of the next local header.
abbrev pub local_tail : Entry → Bytes → Bytes
local_tail e d = e.file_name ++ (e.local_extra_field ++ d)

abbrev pub local_bytes : Entry → Bytes → Bytes
local_bytes e d = local_header e.info ++ local_tail e d

-- An entry that has been written at this offset.
abbrev pub placed : Entry → ℕ → Entry
placed e offset = record e {
  info = record (e.info) { relative_offset_of_local_header = offset % 4294967296 };
}

pub length-local_bytes :
    (e : Entry) (d : Bytes)
    → length (local_bytes e d)
      ≡ lo_fixed + length e.file_name + length e.local_extra_field + length d
length-local_bytes e d = omega (
  arith,
  length-append (local_header e.info) (local_tail e d),
  length-local_header e.info,
  length-append e.file_name (e.local_extra_field ++ d),
  length-append e.local_extra_field d,
)

pub local_header-placed :
    (e : Entry) (offset : ℕ) → local_header (placed e offset).info ≡ local_header e.info
unfolding local_header
local_header-placed e offset = refl

pub save_local_ok :
    (e : Entry) (d : Bytes) (f : Output)
    → IsStored e
    → IsLoaded e d
    → length f.written + length (local_bytes e d) ≤ f.room
    → save_local e f ≡ ok (placed e (ftell f), push f (local_bytes e d))
unfolding save_local
save_local_ok e d f h l r =
    let n = length-local_bytes e d in
    let f1 = push f (local_header e.info) in
    let f2 = push f1 e.file_name in
    let f3 = push f2 e.local_extra_field in
    let l1 = length-append f.written (local_header e.info) in
    let l2 = length-append f1.written e.file_name in
    let l3 = length-append f2.written e.local_extra_field in
    let l0 = length-local_header e.info in
    rw (local_header-placed e (ftell f)) (
      rw (fwrite_ok (local_header e.info) f (omega arith) (omega arith)) (
        rw (block_all e.file_name e.info.filename_length h.name_is) (
          rw (fwrite_ok e.file_name f1 (omega (arith, h.fits.name_pos, h.name_is)) (omega arith)) (
            rw
              (fwrite_some_ok e.local_extra_field e.info.local_extra_field_length f2
                h.local_extra_is (omega arith))
              (rw (l.data_is) (
                rw (fwrite_some_ok d e.info.compressed_size f3 l.size_is (omega arith))
                  (simp append_assoc)))))))

pub fread_some-append :
    (a b c : Bytes)
    → fread_some (length b) (record { content = a ++ (b ++ c); pos = length a })
      ≡ ok (b, record { content = a ++ (b ++ c); pos = length a + length b })
unfolding fread_some
fread_some-append a [] c = ground arith
fread_some-append a (x ∷ b) c = ground (arith, fread-append a (x ∷ b) c failed (omega arith))

-- The same, for a file that is known to hold the bytes there.
pub fread_some_at :
    {content : Bytes} {n pos : ℕ} (a b c : Bytes)
    → content ≡ a ++ (b ++ c)
    → pos ≡ length a
    → n ≡ length b
    → fread_some n (record { content = content; pos = pos })
      ≡ ok (b, record { content = content; pos = pos + n })
fread_some_at a b c he hp hn = rw (he, hp, hn) (fread_some-append a b c)

-- The reader's view of an entry `e` accepts what save_local wrote for it, finds its data, and
-- stops where the entry ends.
pub load_local-local_bytes :
    (pedantic : Bool) (e p : Entry) (d a c : Bytes)
    → IsStored e
    → e.info.compressed_size ≡ length d
    → p.info.local_extra_field_length ≡ 0
    → let content = a ++ (local_tail e d ++ c) in
      load_local pedantic
        (local_header e.info)
        (record { content = content; pos = length a })
        (length (local_tail e d))
        (cent_entry e p)
      ≡ ok (
        record (cent_entry e p) { compdata = some d },
        record { content = content; pos = length a + length (local_tail e d) },
      )
unfolding load_local
load_local-local_bytes pedantic e p d a c h ds z =
    let r = local_reads e.info h.fits in
    let skip = e.info.filename_length + e.info.local_extra_field_length in
    let l1 = length-append e.file_name (e.local_extra_field ++ d) in
    let l2 = length-append e.local_extra_field d in
    let l3 = length-append e.file_name e.local_extra_field in
    let l4 = length-append a (e.file_name ++ e.local_extra_field) in
    let hn = h.name_is in
    let hx = h.local_extra_is in
    let fits : ltb (length (local_tail e d)) skip ≡ false = le→ltb _ _ (omega arith) in
    let room : ltb (length (local_tail e d) - skip) e.info.compressed_size ≡ false =
      le→ltb _ _ (omega arith) in
    let read =
      fread_some_at {content = a ++ (local_tail e d ++ c)} {n = e.info.compressed_size}
        {pos = length a + skip} (a ++ (e.file_name ++ e.local_extra_field)) d c (simp append_assoc)
        (omega arith) ds in
    let ends : length a + skip + e.info.compressed_size ≡ length a + length (local_tail e d) =
      omega arith in
    rw (check_local-local_header pedantic e.info p.info h.fits z) (
      rw (r.extra) (
        rw fits (
          rw room (
            rw read
              (rw (r.flags) (rw (no_descriptor e.info.general_purpose_bit_flag) (rw ends)))))))
