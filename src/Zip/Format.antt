-- ===== src/Zip/Format.antt =====
-- zip.h: the constants of the zip format (signatures, offsets in the fixed structures, methods).
-- The prefix ZIP_ is left out: `co_crc32` is ZIP_CO_crc32.
use advancescan.Base.{ℕ}

-- ZIP_METHOD_*
abbrev pub method_store : ℕ
method_store = 0x00

abbrev pub method_shrunk : ℕ
method_shrunk = 0x01

abbrev pub method_reduce1 : ℕ
method_reduce1 = 0x02

abbrev pub method_reduce2 : ℕ
method_reduce2 = 0x03

abbrev pub method_reduce3 : ℕ
method_reduce3 = 0x04

abbrev pub method_reduce4 : ℕ
method_reduce4 = 0x05

abbrev pub method_implode : ℕ
method_implode = 0x06

abbrev pub method_deflate : ℕ
method_deflate = 0x08

abbrev pub method_bzip2 : ℕ
method_bzip2 = 0x0C

abbrev pub method_lzma : ℕ
method_lzma = 0x0F

-- ZIP_L_signature, ZIP_C_signature, ZIP_E_signature, and the one of the data descriptor
abbrev pub l_signature : ℕ
l_signature = 0x04034b50

abbrev pub c_signature : ℕ
c_signature = 0x02014b50

abbrev pub e_signature : ℕ
e_signature = 0x06054b50

abbrev pub d_signature : ℕ
d_signature = 0x08074b50

-- ZIP_EO_*: offsets in the end of central directory structure, and its fixed size
abbrev pub eo_end_of_central_dir_signature : ℕ
eo_end_of_central_dir_signature = 0x00

abbrev pub eo_number_of_this_disk : ℕ
eo_number_of_this_disk = 0x04

abbrev pub eo_number_of_disk_start_cent_dir : ℕ
eo_number_of_disk_start_cent_dir = 0x06

abbrev pub eo_total_entries_cent_dir_this_disk : ℕ
eo_total_entries_cent_dir_this_disk = 0x08

abbrev pub eo_total_entries_cent_dir : ℕ
eo_total_entries_cent_dir = 0x0A

abbrev pub eo_size_of_cent_dir : ℕ
eo_size_of_cent_dir = 0x0C

abbrev pub eo_offset_to_start_of_cent_dir : ℕ
eo_offset_to_start_of_cent_dir = 0x10

abbrev pub eo_zipfile_comment_length : ℕ
eo_zipfile_comment_length = 0x14

abbrev pub eo_fixed : ℕ
eo_fixed = 0x16

-- ZIP_CO_*: offsets in a central directory entry, and its fixed size
abbrev pub co_central_file_header_signature : ℕ
co_central_file_header_signature = 0x00

abbrev pub co_version_made_by : ℕ
co_version_made_by = 0x04

abbrev pub co_host_os : ℕ
co_host_os = 0x05

abbrev pub co_version_needed_to_extract : ℕ
co_version_needed_to_extract = 0x06

abbrev pub co_os_needed_to_extract : ℕ
co_os_needed_to_extract = 0x07

abbrev pub co_general_purpose_bit_flag : ℕ
co_general_purpose_bit_flag = 0x08

abbrev pub co_compression_method : ℕ
co_compression_method = 0x0A

abbrev pub co_last_mod_file_time : ℕ
co_last_mod_file_time = 0x0C

abbrev pub co_last_mod_file_date : ℕ
co_last_mod_file_date = 0x0E

abbrev pub co_crc32 : ℕ
co_crc32 = 0x10

abbrev pub co_compressed_size : ℕ
co_compressed_size = 0x14

abbrev pub co_uncompressed_size : ℕ
co_uncompressed_size = 0x18

abbrev pub co_filename_length : ℕ
co_filename_length = 0x1C

abbrev pub co_extra_field_length : ℕ
co_extra_field_length = 0x1E

abbrev pub co_file_comment_length : ℕ
co_file_comment_length = 0x20

abbrev pub co_disk_number_start : ℕ
co_disk_number_start = 0x22

abbrev pub co_internal_file_attrib : ℕ
co_internal_file_attrib = 0x24

abbrev pub co_external_file_attrib : ℕ
co_external_file_attrib = 0x26

abbrev pub co_relative_offset_of_local_header : ℕ
co_relative_offset_of_local_header = 0x2A

abbrev pub co_fixed : ℕ
co_fixed = 0x2E

-- ZIP_DO_*: offsets in a data descriptor, and its fixed size
abbrev pub do_header_signature : ℕ
do_header_signature = 0x00

abbrev pub do_crc32 : ℕ
do_crc32 = 0x04

abbrev pub do_compressed_size : ℕ
do_compressed_size = 0x08

abbrev pub do_uncompressed_size : ℕ
do_uncompressed_size = 0x0C

abbrev pub do_fixed : ℕ
do_fixed = 0x10

-- ZIP_LO_*: offsets in a local file header, and its fixed size
abbrev pub lo_local_file_header_signature : ℕ
lo_local_file_header_signature = 0x00

abbrev pub lo_version_needed_to_extract : ℕ
lo_version_needed_to_extract = 0x04

abbrev pub lo_os_needed_to_extract : ℕ
lo_os_needed_to_extract = 0x05

abbrev pub lo_general_purpose_bit_flag : ℕ
lo_general_purpose_bit_flag = 0x06

abbrev pub lo_compression_method : ℕ
lo_compression_method = 0x08

abbrev pub lo_last_mod_file_time : ℕ
lo_last_mod_file_time = 0x0A

abbrev pub lo_last_mod_file_date : ℕ
lo_last_mod_file_date = 0x0C

abbrev pub lo_crc32 : ℕ
lo_crc32 = 0x0E

abbrev pub lo_compressed_size : ℕ
lo_compressed_size = 0x12

abbrev pub lo_uncompressed_size : ℕ
lo_uncompressed_size = 0x16

abbrev pub lo_filename_length : ℕ
lo_filename_length = 0x1A

abbrev pub lo_extra_field_length : ℕ
lo_extra_field_length = 0x1C

abbrev pub lo_fixed : ℕ
lo_fixed = 0x1E
