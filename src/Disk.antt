-- ===== src/Disk.antt =====
-- disk.cc: class sha1 (its constructor from a string, and the operator that prints it) and
-- disk_sha1, which reads the hash of a CHD file.
pub mod Laws
use advancescan.Base.{
  Bool, Bytes, Option, Result, [], drop, err, failed, false, if◌then◌else◌, invalid, length, ltb,
  none, not, ok, replicate, some, throw_if, ℕ, ◌%◌, ◌&&◌, ◌*◌, ◌+◌, ◌-◌, ◌/◌, ◌==◌, ◌>>=◌, ◌>>◌,
  ◌∷◌,
}
use advancescan.Endian.{le_uint8_read}
use advancescan.Strcov.{strvhex}
use advancescan.Zip.Stream.{block, fread}

-- sha1::sha1(const string&). The string has no byte 0.
unfoldable pub sha1_of_string : Bytes → Result Bytes
sha1_of_string s =
    if not (length s == 40)
    then err failed
    else strvhex (replicate 20 0) s >>= λ r. elim (r.1) [ [] ↦ ok (r.0) | _ ∷ _ ↦ err failed ]

-- one digit of the operator <<
abbrev pub print_digit : ℕ → ℕ
print_digit v = if ltb v 10 then 48 + v else 97 + v - 10

-- operator<<(ostream&, const sha1&)
abbrev pub print_hash : Bytes → Bytes
print_hash [] = []
print_hash (b ∷ hash) = print_digit (b / 16 % 16) ∷ print_digit (b % 16) ∷ print_hash hash

-- memcmp(header + 0, "MComprHD", 8) == 0
abbrev pub is_tag : Bytes → Bool
is_tag (a ∷ b ∷ c ∷ d ∷ e ∷ f ∷ g ∷ h ∷ _) =
    a == b'M'
    && b == b'C'
    && c == b'o'
    && d == b'm'
    && e == b'p'
    && f == b'r'
    && g == b'H'
    && h == b'D'
is_tag _ = false

-- the offset of the hash, by the version
abbrev pub hash_offset : ℕ → Option ℕ
hash_offset version =
    if version == 3
    then some 80
    else if version == 4
    then some 48
    else if version == 5
    then some 84
    else none

-- the version, a big-endian number at offset 12
abbrev pub chd_version : Bytes → Result ℕ
chd_version header = do
  b3 ← le_uint8_read header 15
  b2 ← le_uint8_read header 14
  b1 ← le_uint8_read header 13
  b0 ← le_uint8_read header 12
  ok (b3 + b2 * 256 + b1 * 65536 + b0 * 16777216)

-- memcpy of 20 bytes out of the header, where the version is one of the three
abbrev pub hash_at : Bytes → Option ℕ → Result Bytes
hash_at header none = err invalid
hash_at header (some offset) = block (drop offset header) 20

-- disk_sha1, on the content of the file; `none` is a file that cannot be opened.
unfoldable pub disk_sha1 : Option Bytes → Result Bytes
disk_sha1 none = err failed
disk_sha1 (some content) = do
  (header, _) ← fread 120 (record { content = content; pos = 0 }) failed
  throw_if (not (is_tag header)) invalid
  version ← chd_version header
  hash_at header (hash_offset version)
