-- ===== src/Zip/Entry/Header/RoundTrip.antt =====
-- zip.cc: load_cent after save_cent.
use advancescan.Base.{
  Bytes, [], ap, append-nil, append_assoc, arith, drop, drop-length-append, false, length,
  length-append, ok, refl, sym, ℕ, ◌%◌, ◌++◌, ◌+◌, ◌<◌, ◌==◌, ◌∷◌, ◌≡◌, ◌≤◌,
}
use advancescan.Endian.{le_uint32_read}
use advancescan.Endian.Laws.{make16_bytes, make32_bytes}
use advancescan.Zip.Entry.{Entry, Info}
use advancescan.Zip.Entry.Header.{
  cent_header, check_cent, clear_descriptor, fwrite_some, load_cent, load_tail, read_cent,
  save_cent,
}
use advancescan.Zip.Format.{c_signature, co_fixed}
use advancescan.Zip.Stream.{Output}
use advancescan.Zip.Stream.Laws.{block-append, block_all, fwrite_ok, push}

pub length-cent_header : (i : Info) → length (cent_header i) ≡ co_fixed
unfolding cent_header
length-cent_header i = refl

pub drop-cent_header : (i : Info) (rest : Bytes) → drop co_fixed (cent_header i ++ rest) ≡ rest
unfolding cent_header
drop-cent_header i rest = refl

-- The fields that the format stores fit their places: one, two or four bytes.
pub record Fits (i : Info) : Type 0 where
  pub version_made_by : i.version_made_by < 256
  pub host_os : i.host_os < 256
  pub version_needed : i.version_needed_to_extract < 256
  pub os_needed : i.os_needed_to_extract < 256
  pub flags : i.general_purpose_bit_flag < 65536
  pub method : i.compression_method < 65536
  pub time : i.last_mod_file_time < 65536
  pub date : i.last_mod_file_date < 65536
  pub crc : i.crc32 < 4294967296
  pub compressed : i.compressed_size < 4294967296
  pub uncompressed : i.uncompressed_size < 4294967296
  pub name : i.filename_length < 65536
  pub name_pos : 0 < i.filename_length
  pub central_extra : i.central_extra_field_length < 65536
  pub local_extra : i.local_extra_field_length < 65536
  pub comment : i.file_comment_length < 65536
  pub internal : i.internal_file_attrib < 65536
  pub external : i.external_file_attrib < 4294967296
  pub offset : i.relative_offset_of_local_header < 4294967296

pub check_cent-cent_header :
    (i : Info) (rest : Bytes) → Fits i → check_cent (cent_header i ++ rest) ≡ ok tt
unfolding check_cent cent_header
check_cent-cent_header i rest h = ground arith

byte_eq : (v : ℕ) → v < 256 → v % 256 ≡ v
byte_eq v h = omega arith

flags_lt : (v : ℕ) → v < 65536 → clear_descriptor v < 65536
flags_lt v h = omega arith

-- What the central directory keeps of an entry's data: all but the data descriptor's flag and
-- the local extra field, which is the reader's.
abbrev pub cent_info : Info → Info → Info
cent_info i j = record i {
  general_purpose_bit_flag = clear_descriptor i.general_purpose_bit_flag;
  local_extra_field_length = j.local_extra_field_length;
}

pub read_cent-cent_header :
    (i j : Info) (rest : Bytes) → Fits i → read_cent (cent_header i ++ rest) j ≡ ok (cent_info i j)
unfolding read_cent cent_header
read_cent-cent_header i j rest h = cc (
  byte_eq i.version_made_by h.version_made_by,
  byte_eq i.host_os h.host_os,
  byte_eq i.version_needed_to_extract h.version_needed,
  byte_eq i.os_needed_to_extract h.os_needed,
  make16_bytes (clear_descriptor i.general_purpose_bit_flag) (flags_lt _ h.flags),
  make16_bytes i.compression_method h.method,
  make16_bytes i.last_mod_file_time h.time,
  make16_bytes i.last_mod_file_date h.date,
  make32_bytes i.crc32 h.crc,
  make32_bytes i.compressed_size h.compressed,
  make32_bytes i.uncompressed_size h.uncompressed,
  make16_bytes i.filename_length h.name,
  make16_bytes i.central_extra_field_length h.central_extra,
  make16_bytes i.file_comment_length h.comment,
  make16_bytes i.internal_file_attrib h.internal,
  make32_bytes i.external_file_attrib h.external,
  make32_bytes i.relative_offset_of_local_header h.offset,
)

-- An entry as the archive holds it: the lengths in `info` are those of the buffers.
pub record IsStored (e : Entry) : Type 0 where
  pub fits : Fits e.info
  pub name_is : e.info.filename_length ≡ length e.file_name
  pub central_extra_is : e.info.central_extra_field_length ≡ length e.central_extra_field
  pub local_extra_is : e.info.local_extra_field_length ≡ length e.local_extra_field
  pub comment_is : e.info.file_comment_length ≡ length e.file_comment

-- The bytes of an entry in the central directory.
abbrev pub cent_tail : Entry → Bytes
cent_tail e = e.file_name ++ (e.central_extra_field ++ e.file_comment)

abbrev pub cent_bytes : Entry → Bytes
cent_bytes e = cent_header e.info ++ cent_tail e

-- What the directory gives back of an entry, read into the fresh entry `p`.
abbrev pub cent_entry : Entry → Entry → Entry
cent_entry e p = record p {
  info = cent_info e.info p.info;
  file_name = e.file_name;
  central_extra_field = e.central_extra_field;
  file_comment = e.file_comment;
}

pub length-cent_bytes :
    (e : Entry)
    → length (cent_bytes e)
      ≡ co_fixed + length e.file_name + length e.central_extra_field + length e.file_comment
length-cent_bytes e = omega (
  arith,
  length-append (cent_header e.info) (cent_tail e),
  length-cent_header e.info,
  length-append e.file_name (e.central_extra_field ++ e.file_comment),
  length-append e.central_extra_field e.file_comment,
)

pub fwrite_some_ok :
    (b : Bytes) (n : ℕ) (f : Output)
    → n ≡ length b
    → length f.written + length b ≤ f.room
    → fwrite_some b n f ≡ ok (push f b)
unfolding fwrite_some
fwrite_some_ok [] n f e r = rw e (ap ok (λ i. record f { written = sym (append-nil f.written) i }))
fwrite_some_ok (x ∷ b) n f e r =
    let some_bytes : (n == 0) ≡ false = ground arith in
    rw (some_bytes, fwrite_some) (rw (block_all (x ∷ b) n e) (fwrite_ok (x ∷ b) f (omega arith) r))

pub save_cent_ok :
    (e : Entry) (f : Output)
    → IsStored e
    → length f.written + length (cent_bytes e) ≤ f.room
    → save_cent e f ≡ ok (push f (cent_bytes e))
unfolding save_cent
save_cent_ok e f h r =
    let n = length-cent_bytes e in
    let f1 = push f (cent_header e.info) in
    let f2 = push f1 e.file_name in
    let f3 = push f2 e.central_extra_field in
    let l1 = length-append f.written (cent_header e.info) in
    let l2 = length-append f1.written e.file_name in
    let l3 = length-append f2.written e.central_extra_field in
    let l0 = length-cent_header e.info in
    rw (fwrite_ok (cent_header e.info) f (omega arith) (omega arith)) (
      rw (block_all e.file_name e.info.filename_length h.name_is) (
        rw (fwrite_ok e.file_name f1 (omega (arith, h.fits.name_pos, h.name_is)) (omega arith)) (
          rw
            (fwrite_some_ok e.central_extra_field e.info.central_extra_field_length f2
              h.central_extra_is (omega arith))
            (rw
              (fwrite_some_ok e.file_comment e.info.file_comment_length f3 h.comment_is
                (omega arith))
              (simp append_assoc)))))

load_tail-cent_tail :
    (e p : Entry) (rest : Bytes) (i : Info)
    → i.filename_length ≡ length e.file_name
    → i.central_extra_field_length ≡ length e.central_extra_field
    → i.file_comment_length ≡ length e.file_comment
    → load_tail (cent_tail e ++ rest) i p
      ≡ ok (
        record p {
          info = i;
          file_name = e.file_name;
          central_extra_field = e.central_extra_field;
          file_comment = e.file_comment;
        },
        length (cent_bytes e),
      )
unfolding load_tail
load_tail-cent_tail e p rest i hn hx hc =
    rw (append_assoc e.file_name (e.central_extra_field ++ e.file_comment) rest) (
      rw (append_assoc e.central_extra_field e.file_comment rest) (
        rw (block-append e.file_name _ i.filename_length hn) (
          rw hn (
            rw (drop-length-append e.file_name (e.central_extra_field ++ (e.file_comment ++ rest)))
              (rw (block-append e.central_extra_field _ i.central_extra_field_length hx) (
                rw hx (
                  rw (drop-length-append e.central_extra_field (e.file_comment ++ rest)) (
                    rw (block-append e.file_comment rest i.file_comment_length hc)
                      (rw hc (rw (length-cent_bytes e)))))))))))

pub load_cent-cent_bytes :
    (e p : Entry) (rest : Bytes)
    → IsStored e
    → load_cent (cent_bytes e ++ rest) p ≡ ok (cent_entry e p, length (cent_bytes e))
unfolding load_cent
load_cent-cent_bytes e p rest h = rw (append_assoc (cent_header e.info) (cent_tail e) rest) (
    rw (check_cent-cent_header e.info (cent_tail e ++ rest) h.fits) (
      rw (read_cent-cent_header e.info p.info (cent_tail e ++ rest) h.fits) (
        rw (drop-cent_header e.info (cent_tail e ++ rest)) (
          load_tail-cent_tail e p rest (cent_info e.info p.info) h.name_is h.central_extra_is
            h.comment_is))))

-- A stored entry whose bytes there is room for is written to the central directory, and read
-- from it, whatever follows: into an entry with the same name, extra field, comment and data
-- fields but for the data descriptor's flag, skipping exactly the bytes written.
pub load_cent-save_cent :
    (e p : Entry) (f : Output) (rest : Bytes)
    → IsStored e
    → length f.written + length (cent_bytes e) ≤ f.room
    → (save_cent e f ≡ ok (push f (cent_bytes e)))
      × (load_cent (cent_bytes e ++ rest) p ≡ ok (cent_entry e p, length (cent_bytes e)))
load_cent-save_cent e p f rest h r = (save_cent_ok e f h r, load_cent-cent_bytes e p rest h)

pub fwrite_some_none : (b : Bytes) (f : Output) → fwrite_some b 0 f ≡ ok f
unfolding fwrite_some
fwrite_some_none b f = refl

pub cent_signature :
    (e : Entry) (rest : Bytes) → le_uint32_read (cent_bytes e ++ rest) 0 ≡ ok c_signature
unfolding cent_header
cent_signature e rest = refl
