-- ===== src/Zip/Entry.antt =====
-- zip.cc, class zip_entry: the data of an entry, its compression method and `set`.
-- A pointer with its length in `info` is the bytes that it points to; a null `data` is `none`.
-- `flags & 0x06` and `flags & 0x08` are written with `/` and `%`.
pub mod Header
pub mod Local
pub mod Methods
use advancescan.Base.{
  Bool, Bytes, Option, Result, [], err, if◌then◌else◌, invalid, length, none, not, ok, some, take,
  throw_if, ℕ, ◌%◌, ◌*◌, ◌/◌, ◌==◌, ◌>>=◌, ◌>>◌,
}
use advancescan.Zip.Format.{
  method_bzip2, method_deflate, method_implode, method_lzma, method_reduce1, method_reduce2,
  method_reduce3, method_reduce4, method_shrunk, method_store,
}
use advancescan.Zip.Stream.{block}

-- enum method_t
pub data Method : Type 0 where
  unknown store shrunk reduce1 reduce2 reduce3 reduce4 : Method
  implode_4kdict_2tree implode_8kdict_2tree implode_4kdict_3tree implode_8kdict_3tree : Method
  deflate0 deflate1 deflate2 deflate3 deflate4 deflate5 deflate6 deflate7 deflate8 deflate9 : Method
  bzip2 lzma : Method

pub record Info : Type 0 where
  pub version_made_by : ℕ
  pub host_os : ℕ
  pub version_needed_to_extract : ℕ
  pub os_needed_to_extract : ℕ
  pub general_purpose_bit_flag : ℕ
  pub compression_method : ℕ
  pub last_mod_file_time : ℕ
  pub last_mod_file_date : ℕ
  pub crc32 : ℕ
  pub compressed_size : ℕ
  pub uncompressed_size : ℕ
  pub filename_length : ℕ
  pub central_extra_field_length : ℕ
  pub local_extra_field_length : ℕ
  pub file_comment_length : ℕ
  pub internal_file_attrib : ℕ
  pub external_file_attrib : ℕ
  pub relative_offset_of_local_header : ℕ

pub record Entry : Type 0 where
  pub info : Info
  pub parent_name : Bytes
  pub file_name : Bytes
  pub file_comment : Bytes
  pub local_extra_field : Bytes
  pub central_extra_field : Bytes
  pub compdata : Option Bytes

-- memset(&info, 0xFF, sizeof(info))
abbrev all_ones : ℕ
all_ones = 0xffffffff

-- zip_entry::zip_entry(const zip& Aparent)
abbrev pub new_entry : Bytes → Entry
new_entry parent = record {
  info = record {
    version_made_by = all_ones;
    host_os = all_ones;
    version_needed_to_extract = all_ones;
    os_needed_to_extract = all_ones;
    general_purpose_bit_flag = all_ones;
    compression_method = all_ones;
    last_mod_file_time = all_ones;
    last_mod_file_date = all_ones;
    crc32 = all_ones;
    compressed_size = 0;
    uncompressed_size = all_ones;
    filename_length = 0;
    central_extra_field_length = 0;
    local_extra_field_length = 0;
    file_comment_length = 0;
    internal_file_attrib = all_ones;
    external_file_attrib = all_ones;
    relative_offset_of_local_header = all_ones;
  };
  parent_name = parent;
  file_name = [];
  file_comment = [];
  local_extra_field = [];
  central_extra_field = [];
  compdata = none;
}

-- flags & ZIP_GEN_FLAGS_DEFLATE_MASK, and & ZIP_GEN_FLAGS_IMPLODE_MASK: both are 0x06
abbrev pub mask_level : ℕ → ℕ
mask_level flags = flags / 2 % 4 * 2

-- (flags & ZIP_GEN_FLAGS_DEFLATE_ZERO) != 0
abbrev pub has_descriptor : ℕ → Bool
has_descriptor flags = flags / 8 % 2 == 1

implode_get : ℕ → Method
implode_get level =
    if level == 0x00
    then implode_4kdict_2tree
    else if level == 0x02
    then implode_8kdict_2tree
    else if level == 0x04
    then implode_4kdict_3tree
    else if level == 0x06
    then implode_8kdict_3tree
    else unknown

deflate_get : ℕ → Method
deflate_get level =
    if level == 0x00
    then deflate6
    else if level == 0x02
    then deflate9
    else if level == 0x04
    then deflate3
    else if level == 0x06
    then deflate1
    else unknown

unfoldable pub method_get : Info → Method
unfolding implode_get deflate_get
method_get i =
    let m = i.compression_method in
    let level = mask_level i.general_purpose_bit_flag in
    if m == method_store
    then store
    else if m == method_shrunk
    then shrunk
    else if m == method_reduce1
    then reduce1
    else if m == method_reduce2
    then reduce2
    else if m == method_reduce3
    then reduce3
    else if m == method_reduce4
    then reduce4
    else if m == method_implode
    then implode_get level
    else if m == method_deflate
    then deflate_get level
    else if m == method_bzip2
    then bzip2
    else if m == method_lzma
    then lzma
    else unknown

-- (info.internal_file_attrib & ZIP_INT_ATTR_TEXT) != 0
unfoldable pub is_text : Entry → Bool
is_text e = e.info.internal_file_attrib % 2 == 1

abbrev coded : ℕ → ℕ → Info → Result Info
coded method flags i =
    ok (record i { compression_method = method; general_purpose_bit_flag = flags })

-- The switch of zip_entry::set. `deflate0` and `unknown` have no case of their own.
unfoldable pub method_set : Method → Info → Result Info
method_set store i = do
  throw_if (not (i.uncompressed_size == i.compressed_size)) invalid
  ok (record i { compression_method = method_store; version_needed_to_extract = 10 })
method_set shrunk i = coded method_shrunk 0 i
method_set reduce1 i = coded method_reduce1 0 i
method_set reduce2 i = coded method_reduce2 0 i
method_set reduce3 i = coded method_reduce3 0 i
method_set reduce4 i = coded method_reduce4 0 i
method_set deflate1 i = coded method_deflate 0x06 i
method_set deflate2 i = coded method_deflate 0x06 i
method_set deflate3 i = coded method_deflate 0x04 i
method_set deflate4 i = coded method_deflate 0x04 i
method_set deflate5 i = coded method_deflate 0x04 i
method_set deflate6 i = coded method_deflate 0x00 i
method_set deflate7 i = coded method_deflate 0x00 i
method_set deflate8 i = coded method_deflate 0x00 i
method_set deflate9 i = coded method_deflate 0x02 i
method_set implode_4kdict_2tree i = coded method_implode 0x00 i
method_set implode_8kdict_2tree i = coded method_implode 0x02 i
method_set implode_4kdict_3tree i = coded method_implode 0x04 i
method_set implode_8kdict_3tree i = coded method_implode 0x06 i
method_set bzip2 i = coded method_bzip2 0 i
method_set lzma i = coded method_lzma 0 i
method_set deflate0 i = err invalid
method_set unknown i = err invalid

-- zip_entry::name_set; `length` of a string fits an unsigned here.
abbrev pub name_set : Bytes → Entry → Entry
name_set name e = record e {
  info = record (e.info) { filename_length = length name };
  file_name = name;
}

-- string(file_name, file_name + info.filename_length)
abbrev pub name_get : Entry → Bytes
name_get e = take e.info.filename_length e.file_name

-- The arguments of zip_entry::set behind the method, the name and the data.
pub record Attributes : Type 0 where
  pub compsize : ℕ
  pub size : ℕ
  pub crc : ℕ
  pub date : ℕ
  pub time : ℕ
  pub text : Bool

-- the assignments in front of the switch of `set`
abbrev pub set_info : Attributes → Info → Info
set_info a i = record i {
  version_needed_to_extract = 20;
  os_needed_to_extract = 0;
  version_made_by = 20;
  host_os = 0;
  general_purpose_bit_flag = 0;
  last_mod_file_date = a.date;
  last_mod_file_time = a.time;
  crc32 = a.crc;
  compressed_size = a.compsize;
  uncompressed_size = a.size;
  internal_file_attrib = if a.text then 1 else 0;
  external_file_attrib = 0;
}

unfoldable pub entry_set : Method → Bytes → Bytes → Attributes → Entry → Result Entry
entry_set method name compdata a e = do
  i ← method_set method (set_info a e.info)
  copy ← block compdata a.compsize
  ok (
      name_set name (record e {
        info = record i {
          compressed_size = a.compsize;
          local_extra_field_length = 0;
          central_extra_field_length = 0;
          file_comment_length = 0;
        };
        compdata = some copy;
        local_extra_field = [];
        central_extra_field = [];
        file_comment = [];
      }))

-- zip_entry::unload
abbrev pub entry_unload : Entry → Entry
entry_unload e = record e { compdata = none }
