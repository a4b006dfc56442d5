-- ===== src/Zip/Entry/Local.antt =====
-- zip.cc: the local header and the data of an entry, zip_entry::check_local, check_descriptor,
-- load_local, save_local, compressed_seek and compressed_read.
pub mod RoundTrip
use advancescan.Base.{
  Bool, Bytes, Option, Result, [], aborted, err, failed, false, if◌then◌else◌, invalid, ltb, none,
  not, ok, replicate, some, throw_if, true, ℕ, ◌%◌, ◌&&◌, ◌++◌, ◌+◌, ◌-◌, ◌==◌, ◌>>=◌, ◌>>◌,
}
use advancescan.Endian.{
  le_uint16_read, le_uint16_write, le_uint32_read, le_uint32_write, le_uint8_write,
}
use advancescan.Readinfo.{bare}
use advancescan.Zip.Entry.{Entry, Info, has_descriptor}
use advancescan.Zip.Entry.Header.{clear_descriptor, fwrite_some}
use advancescan.Zip.Format.{
  d_signature, do_compressed_size, do_crc32, do_fixed, do_header_signature, do_uncompressed_size,
  l_signature, lo_compressed_size, lo_compression_method, lo_crc32, lo_extra_field_length,
  lo_filename_length, lo_fixed, lo_general_purpose_bit_flag, lo_last_mod_file_date,
  lo_last_mod_file_time, lo_local_file_header_signature, lo_os_needed_to_extract,
  lo_uncompressed_size, lo_version_needed_to_extract,
}
use advancescan.Zip.Stream.{Input, Output, block, fread, fseek_cur, ftell, fwrite}

-- the data descriptor's flag is set, and `zip::pedantic` holds or not
zero_fields : Bool → Info → Bytes → Result (Unit {0})
zero_fields true i buf = do
  crc ← le_uint32_read buf lo_crc32
  throw_if (not (crc == 0)) invalid
  compressed ← le_uint32_read buf lo_compressed_size
  throw_if (not (compressed == 0)) invalid
  uncompressed ← le_uint32_read buf lo_uncompressed_size
  throw_if (not (uncompressed == 0)) invalid
zero_fields false i buf = do
  crc ← le_uint32_read buf lo_crc32
  throw_if (not (crc == 0) && not (i.crc32 == crc)) invalid
  compressed ← le_uint32_read buf lo_compressed_size
  throw_if (not (compressed == 0) && not (i.compressed_size == compressed)) invalid
  uncompressed ← le_uint32_read buf lo_uncompressed_size
  throw_if (not (uncompressed == 0) && not (i.uncompressed_size == uncompressed)) invalid

-- the flag is clear
same_fields : Info → Bytes → Result (Unit {0})
same_fields i buf = do
  crc ← le_uint32_read buf lo_crc32
  throw_if (not (i.crc32 == crc)) invalid
  compressed ← le_uint32_read buf lo_compressed_size
  throw_if (not (i.compressed_size == compressed)) invalid
  uncompressed ← le_uint32_read buf lo_uncompressed_size
  throw_if (not (i.uncompressed_size == uncompressed)) invalid

-- zip_entry::check_local; the first argument is `zip::pedantic`.
pub check_local : Bool → Info → Bytes → Result (Unit {0})
unfolding zero_fields same_fields
check_local pedantic i buf = do
  signature ← le_uint32_read buf lo_local_file_header_signature
  throw_if (not (signature == l_signature)) invalid
  flags ← le_uint16_read buf lo_general_purpose_bit_flag
  throw_if (not (i.general_purpose_bit_flag == flags)) invalid
  method ← le_uint16_read buf lo_compression_method
  throw_if (not (i.compression_method == method)) invalid
  if has_descriptor flags then zero_fields pedantic i buf else same_fields i buf
  name_length ← le_uint16_read buf lo_filename_length
  throw_if (not (i.filename_length == name_length)) invalid
  extra_length ← le_uint16_read buf lo_extra_field_length
  throw_if
      (not (i.local_extra_field_length == extra_length) && not (i.local_extra_field_length == 0))
      invalid

-- zip_entry::check_descriptor
pub check_descriptor : Info → Bytes → Result (Unit {0})
check_descriptor i buf = do
  signature ← le_uint32_read buf do_header_signature
  throw_if (not (d_signature == signature)) invalid
  crc ← le_uint32_read buf do_crc32
  throw_if (not (i.crc32 == crc)) invalid
  compressed ← le_uint32_read buf do_compressed_size
  throw_if (not (i.compressed_size == compressed) && not (0 == compressed)) invalid
  uncompressed ← le_uint32_read buf do_uncompressed_size
  throw_if (not (i.uncompressed_size == uncompressed) && not (0 == uncompressed)) invalid

-- `if (n > 0) fread`, with no bytes where n is 0
pub fread_some : ℕ → Input → Result (Bytes × Input)
fread_some n f = elim (n == 0) [ true ↦ ok ([], f) | false ↦ fread n f failed ]

-- The data descriptor behind the data, whose signature may be missing.
load_descriptor : Info → ℕ → Input → Result Input
unfolding check_descriptor
load_descriptor i size f = do
  let bare = size == do_fixed - 4
  let offset = if bare then do_crc32 else 0
  throw_if (ltb size (do_fixed - offset)) invalid
  (bytes, f') ← fread (do_fixed - offset) f failed
  let signature =
      if bare then le_uint32_write do_header_signature d_signature (replicate do_crc32 0) else []
  check_descriptor i (signature ++ bytes)
  ok f'

-- zip_entry::load_local: `buf` is the fixed header, `f` stands behind it, and `size` bytes are
-- left in front of the next header. The entry with its data, and the stream.
unfoldable pub load_local : Bool → Bytes → Input → ℕ → Entry → Result (Entry × Input)
unfolding check_local load_descriptor
load_local pedantic buf f size e = do
  check_local pedantic e.info buf
  extra_length ← le_uint16_read buf lo_extra_field_length
  let skip = e.info.filename_length + extra_length
  throw_if (ltb size skip) invalid
  throw_if (ltb (size - skip) e.info.compressed_size) invalid
  (bytes, f1) ← fread_some e.info.compressed_size (fseek_cur skip f)
  flags ← le_uint16_read buf lo_general_purpose_bit_flag
  f2 ←
      (if has_descriptor flags
        then load_descriptor e.info (size - skip - e.info.compressed_size) f1
        else ok f1)
  ok (record e { compdata = some bytes }, f2)

-- The fixed part, as save_local fills it in; every byte of the buffer is written.
unfoldable pub local_header : Info → Bytes
local_header i =
    let b0 = le_uint32_write lo_local_file_header_signature l_signature (replicate lo_fixed 0) in
    let b1 = le_uint8_write lo_version_needed_to_extract i.version_needed_to_extract b0 in
    let b2 = le_uint8_write lo_os_needed_to_extract i.os_needed_to_extract b1 in
    let b3 =
      le_uint16_write lo_general_purpose_bit_flag (clear_descriptor i.general_purpose_bit_flag)
        b2 in
    let b4 = le_uint16_write lo_compression_method i.compression_method b3 in
    let b5 = le_uint16_write lo_last_mod_file_time i.last_mod_file_time b4 in
    let b6 = le_uint16_write lo_last_mod_file_date i.last_mod_file_date b5 in
    let b7 = le_uint32_write lo_crc32 i.crc32 b6 in
    let b8 = le_uint32_write lo_compressed_size i.compressed_size b7 in
    let b9 = le_uint32_write lo_uncompressed_size i.uncompressed_size b8 in
    let b10 = le_uint16_write lo_filename_length i.filename_length b9 in
    le_uint16_write lo_extra_field_length i.local_extra_field_length b10

-- `if (n) { assert(p); fwrite(p, n, 1, f) }`
pub fwrite_data : Option Bytes → ℕ → Output → Result Output
unfolding fwrite_some
fwrite_data none n f = if n == 0 then ok f else err aborted
fwrite_data (some p) n f = fwrite_some p n f

-- zip_entry::save_local: the entry with its new offset (a long, kept in an unsigned), and the
-- stream.
unfoldable pub save_local : Entry → Output → Result (Entry × Output)
unfolding fwrite_some fwrite_data
save_local e f = do
  let i = record (e.info) { relative_offset_of_local_header = ftell f % 4294967296 }
  f1 ← fwrite (local_header i) f
  name ← block e.file_name i.filename_length
  f2 ← fwrite name f1
  f3 ← fwrite_some e.local_extra_field i.local_extra_field_length f2
  f4 ← fwrite_data e.compdata i.compressed_size f3
  ok (record e { info = i }, f4)

-- zip_entry::compressed_seek, on the archive's file
pub compressed_seek : Bool → Entry → Bytes → Result Input
unfolding check_local
compressed_seek pedantic e content = do
  (buf, f) ←
      fread lo_fixed (record { content = content; pos = e.info.relative_offset_of_local_header })
        failed
  check_local pedantic e.info buf
  extra_length ← le_uint16_read buf lo_extra_field_length
  ok (fseek_cur (e.info.filename_length + extra_length) f)

read_from : Bool → Entry → Option Bytes → Result Bytes
unfolding compressed_seek
read_from pedantic e none = err failed
read_from pedantic e (some content) = do
  f ← compressed_seek pedantic e content
  (bytes, _) ← fread_some e.info.compressed_size f
  ok bytes

-- zip_entry::compressed_read, from memory or from the archive's file, which may be missing.
unfoldable pub compressed_read : Bool → Entry → Option Bytes → Result Bytes
unfolding read_from
compressed_read pedantic e archive = elim (e.compdata) [
  | some p ↦ block p e.info.compressed_size
  | none ↦ read_from pedantic e archive
]
