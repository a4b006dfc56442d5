-- ===== src/Zip/Archive/Directory.antt =====
-- zip.cc: ecd_compare_sig, ecd_find_sig, cent_read and zip::open.
pub mod RoundTrip
pub mod Signature
use advancescan.Base.{
  Bool, Bytes, List, Option, Result, [], aborted, drop, err, failed, false, if◌then◌else◌, invalid,
  leb, length, ltb, none, not, ok, some, suc, throw_if, true, zero, ℕ, ◌%◌, ◌&&◌, ◌*◌, ◌++◌, ◌+◌,
  ◌-◌, ◌/◌, ◌==◌, ◌>>=◌, ◌>>◌, ◌∷◌,
}
use advancescan.Endian.{le_uint16_read, le_uint32_read}
use advancescan.Zip.Archive.{System, Zip, assert, create}
use advancescan.Zip.Entry.{Entry, new_entry}
use advancescan.Zip.Entry.Header.{load_cent}
use advancescan.Zip.Format.{
  c_signature, e_signature, eo_fixed, eo_offset_to_start_of_cent_dir, eo_zipfile_comment_length,
}
use advancescan.Zip.Stream.{block, fread}

-- The bytes at the pointer begin with "PK\5\6".
pub ecd_compare_sig : Bytes → Bool
ecd_compare_sig (a ∷ b ∷ c ∷ d ∷ _) = a == b'P' && b == b'K' && c == 0x05 && d == 0x06
ecd_compare_sig _ = false

-- the loop of ecd_find_sig: `suc i` stands for the index i, and 0 for -1
unfoldable pub find_sig_below : ℕ → Bytes → Option ℕ
find_sig_below zero buf = none
find_sig_below (suc i) buf = if ecd_compare_sig (drop i buf) then some i else find_sig_below i buf

-- ecd_find_sig: the last place, with room for the structure, where the signature stands.
pub ecd_find_sig : Bytes → Option ℕ
unfolding find_sig_below ecd_compare_sig
ecd_find_sig buf = find_sig_below (length buf + 1 - eo_fixed) buf

-- ECD_READ_BUFFER_SIZE
abbrev pub ecd_read_buffer_size : ℕ
ecd_read_buffer_size = 4096

-- the first size of the buffer; `x & ~4095` is `x / 4096 * 4096`
abbrev pub first_buffer : ℕ → ℕ
first_buffer file_length =
    if leb file_length ecd_read_buffer_size
    then file_length
    else file_length - (file_length - ecd_read_buffer_size) / 4096 * 4096

-- The end of the file from `start` on, out of the buffer or out of the file.
pub cent_copy : Bytes → Bytes → ℕ → ℕ → Result (Option Bytes)
cent_copy content buf start file_length =
    let size = file_length - start in
    if leb (file_length - length buf) start
    then block (drop (start - (file_length - length buf)) buf) size >>= (λ b. ok (some b))
    else elim (fread size (record { content = content; pos = start }) failed) [
      | ok (b, _) ↦ ok (some b)
      | err _ ↦ ok none
    ]

-- What is done where the signature is found; `none` is `return false`.
pub cent_found : Bytes → Bytes → ℕ → ℕ → Result (Option Bytes)
unfolding cent_copy
cent_found content buf offset file_length = do
  start ← le_uint32_read buf (offset + eo_offset_to_start_of_cent_dir)
  if leb file_length start then ok none else cent_copy content buf start file_length

-- The loop of cent_read, on fuel.
unfoldable pub cent_loop : ℕ → Bytes → ℕ → ℕ → Result (Option Bytes)
cent_loop zero content file_length wanted = ok none
cent_loop (suc fuel) content file_length wanted =
    let buf_length = if ltb file_length wanted then file_length else wanted in
    let again = cent_loop fuel content file_length (buf_length + ecd_read_buffer_size) in
    elim (fread buf_length (record { content = content; pos = file_length - buf_length }) failed) [
      | err _ ↦ ok none
      | ok (buf, _) ↦ elim (ecd_find_sig buf) [
        | some offset ↦ cent_found content buf offset file_length
        | none ↦
            if ltb buf_length (8 * ecd_read_buffer_size) && ltb buf_length file_length
            then again
            else ok none
      ]
    ]

-- The buffer holds 4096 bytes or the file at first, and 32768 at last.
abbrev pub cent_fuel : ℕ
cent_fuel = 9

-- cent_read; `file_length` is an unsigned.
unfoldable pub cent_read : Bytes → ℕ → Result (Option Bytes)
cent_read content file_length = cent_loop cent_fuel content file_length (first_buffer file_length)

-- The loop of zip::open over the directory entries, on fuel: the entries, and the position of
-- the first other signature. Without fuel it stops as if an assertion failed.
unfoldable pub read_entries : ℕ → Bytes → Bytes → ℕ → Result (List Entry × ℕ)
read_entries zero parent cent pos = err aborted
read_entries (suc fuel) parent cent pos = do
  signature ← le_uint32_read cent pos
  elim (signature == c_signature) [
    | false ↦ ok ([], pos)
    | true ↦ load_cent (drop pos cent) (new_entry parent) >>= λ r.
        read_entries fuel parent cent (pos + r.1) >>= λ s. ok (r.0 ∷ s.0, s.1)
  ]

-- zip::open, behind cent_read: `cent` is the end of the file from the directory on.
unfoldable pub open_cent : Bool → Zip → ℕ → Bytes → Result Zip
open_cent pedantic z file_length cent = do
  (entries, pos) ← read_entries (length cent + 1) z.path cent 0
  signature ← le_uint32_read cent pos
  throw_if (not (signature == e_signature)) invalid
  start ← le_uint32_read cent (pos + eo_offset_to_start_of_cent_dir)
  comment_length ← le_uint16_read cent (pos + eo_zipfile_comment_length)
  throw_if (not (start == file_length - length cent)) invalid
  comment ← block (drop (pos + eo_fixed) cent) comment_length
  throw_if (pedantic && not (pos + eo_fixed + comment_length == length cent)) invalid
  ok (record z {
    is_open = true;
    is_read = false;
    is_modify = false;
    offset_to_start_of_cent_dir = start;
    zipfile_comment_length = comment_length;
    zipfile_comment = comment;
    entries = z.entries ++ entries;
  })

-- what zip::open does by the answer of cent_read
unfoldable pub open_found : Bool → Zip → ℕ → Option Bytes → Result Zip
open_found pedantic z file_length none = err invalid
open_found pedantic z file_length (some cent) = open_cent pedantic z file_length cent

-- zip::open of a file with this content
unfoldable pub open_content : Bool → Zip → Bytes → Result Zip
unfolding open_found
open_content pedantic z content =
    cent_read content (length content % 4294967296)
    >>= open_found pedantic z (length content % 4294967296)

-- zip::open. A file that is not there is created in memory.
unfoldable pub open_zip : Bool → Zip → System → Result Zip
open_zip pedantic z s = do
  assert (not z.is_open)
  throw_if (not (s.can_stat z.path)) failed
  elim (s.files z.path) [
    | none ↦ create z
    | some content ↦ if s.can_read z.path then open_content pedantic z content else err failed
  ]
