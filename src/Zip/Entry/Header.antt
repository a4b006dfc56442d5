-- ===== src/Zip/Entry/Header.antt =====
-- zip.cc: the central directory entry, zip_entry::check_cent, load_cent and save_cent.
pub mod RoundTrip
pub mod Bounds
use advancescan.Base.{
  Bytes, Result, drop, false, invalid, not, ok, replicate, throw_if, true, ℕ, ◌%◌, ◌*◌, ◌+◌, ◌-◌,
  ◌/◌, ◌==◌, ◌>>=◌, ◌>>◌,
}
use advancescan.Endian.{
  le_uint16_read, le_uint16_write, le_uint32_read, le_uint32_write, le_uint8_read, le_uint8_write,
}
use advancescan.Zip.Entry.{Entry, Info}
use advancescan.Zip.Format.{
  c_signature, co_central_file_header_signature, co_compressed_size, co_compression_method,
  co_crc32, co_disk_number_start, co_external_file_attrib, co_extra_field_length,
  co_file_comment_length, co_filename_length, co_fixed, co_general_purpose_bit_flag, co_host_os,
  co_internal_file_attrib, co_last_mod_file_date, co_last_mod_file_time, co_os_needed_to_extract,
  co_relative_offset_of_local_header, co_uncompressed_size, co_version_made_by,
  co_version_needed_to_extract,
}
use advancescan.Zip.Stream.{Output, block, fwrite}

-- ZIP_UNIQUE_DISK
abbrev pub unique_disk : ℕ
unique_disk = 0

-- flags & ~ZIP_GEN_FLAGS_DEFLATE_ZERO
abbrev pub clear_descriptor : ℕ → ℕ
clear_descriptor flags = flags - flags / 8 % 2 * 8

pub check_cent : Bytes → Result (Unit {0})
check_cent buf = do
  signature ← le_uint32_read buf co_central_file_header_signature
  throw_if (not (signature == c_signature)) invalid
  name_length ← le_uint16_read buf co_filename_length
  throw_if (name_length == 0) invalid

-- The fixed part, as load_cent reads it into `info`.
pub read_cent : Bytes → Info → Result Info
read_cent buf i = do
  v0 ← le_uint8_read buf co_version_made_by
  v1 ← le_uint8_read buf co_host_os
  v2 ← le_uint8_read buf co_version_needed_to_extract
  v3 ← le_uint8_read buf co_os_needed_to_extract
  v4 ← le_uint16_read buf co_general_purpose_bit_flag
  v5 ← le_uint16_read buf co_compression_method
  v6 ← le_uint16_read buf co_last_mod_file_time
  v7 ← le_uint16_read buf co_last_mod_file_date
  v8 ← le_uint32_read buf co_crc32
  v9 ← le_uint32_read buf co_compressed_size
  v10 ← le_uint32_read buf co_uncompressed_size
  v11 ← le_uint16_read buf co_filename_length
  v12 ← le_uint16_read buf co_extra_field_length
  v13 ← le_uint16_read buf co_file_comment_length
  v14 ← le_uint16_read buf co_internal_file_attrib
  v15 ← le_uint32_read buf co_external_file_attrib
  v16 ← le_uint32_read buf co_relative_offset_of_local_header
  ok (record i {
    version_made_by = v0;
    host_os = v1;
    version_needed_to_extract = v2;
    os_needed_to_extract = v3;
    general_purpose_bit_flag = v4;
    compression_method = v5;
    last_mod_file_time = v6;
    last_mod_file_date = v7;
    crc32 = v8;
    compressed_size = v9;
    uncompressed_size = v10;
    filename_length = v11;
    central_extra_field_length = v12;
    file_comment_length = v13;
    internal_file_attrib = v14;
    external_file_attrib = v15;
    relative_offset_of_local_header = v16;
  })

-- The three variable parts, and how far `buf` has moved from the start.
pub load_tail : Bytes → Info → Entry → Result (Entry × ℕ)
load_tail buf i e = do
  name ← block buf i.filename_length
  extra ← block (drop i.filename_length buf) i.central_extra_field_length
  comment ←
      block (drop i.central_extra_field_length (drop i.filename_length buf)) i.file_comment_length
  ok (
    record e { info = i; file_name = name; central_extra_field = extra; file_comment = comment },
    co_fixed + i.filename_length + i.central_extra_field_length + i.file_comment_length,
  )

-- zip_entry::load_cent: the entry, and the bytes to skip.
unfoldable pub load_cent : Bytes → Entry → Result (Entry × ℕ)
unfolding check_cent read_cent load_tail
load_cent buf e = do check_cent buf; i ← read_cent buf e.info; load_tail (drop co_fixed buf) i e

-- The fixed part, as save_cent fills it in; every byte of the buffer is written.
unfoldable pub cent_header : Info → Bytes
cent_header i =
    let b0 = le_uint32_write co_central_file_header_signature c_signature (replicate co_fixed 0) in
    let b1 = le_uint8_write co_version_made_by i.version_made_by b0 in
    let b2 = le_uint8_write co_host_os i.host_os b1 in
    let b3 = le_uint8_write co_version_needed_to_extract i.version_needed_to_extract b2 in
    let b4 = le_uint8_write co_os_needed_to_extract i.os_needed_to_extract b3 in
    let b5 =
      le_uint16_write co_general_purpose_bit_flag (clear_descriptor i.general_purpose_bit_flag)
        b4 in
    let b6 = le_uint16_write co_compression_method i.compression_method b5 in
    let b7 = le_uint16_write co_last_mod_file_time i.last_mod_file_time b6 in
    let b8 = le_uint16_write co_last_mod_file_date i.last_mod_file_date b7 in
    let b9 = le_uint32_write co_crc32 i.crc32 b8 in
    let b10 = le_uint32_write co_compressed_size i.compressed_size b9 in
    let b11 = le_uint32_write co_uncompressed_size i.uncompressed_size b10 in
    let b12 = le_uint16_write co_filename_length i.filename_length b11 in
    let b13 = le_uint16_write co_extra_field_length i.central_extra_field_length b12 in
    let b14 = le_uint16_write co_file_comment_length i.file_comment_length b13 in
    let b15 = le_uint16_write co_disk_number_start unique_disk b14 in
    let b16 = le_uint16_write co_internal_file_attrib i.internal_file_attrib b15 in
    let b17 = le_uint32_write co_external_file_attrib i.external_file_attrib b16 in
    le_uint32_write co_relative_offset_of_local_header i.relative_offset_of_local_header b17

-- `if (n && fwrite(p, n, 1, f) != 1) throw`
unfoldable pub fwrite_some : Bytes → ℕ → Output → Result Output
fwrite_some p n f = elim (n == 0) [ true ↦ ok f | false ↦ do b ← block p n; fwrite b f ]

-- zip_entry::save_cent
unfoldable pub save_cent : Entry → Output → Result Output
unfolding fwrite_some
save_cent e f = do
  f1 ← fwrite (cent_header e.info) f
  name ← block e.file_name e.info.filename_length
  f2 ← fwrite name f1
  f3 ← fwrite_some e.central_extra_field e.info.central_extra_field_length f2
  fwrite_some e.file_comment e.info.file_comment_length f3
