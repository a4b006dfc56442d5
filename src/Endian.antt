-- ===== src/Endian.antt =====
-- lib/endianrw.h: reads and writes of little-endian numbers of 8, 16 and 32 bits at an offset
-- of a buffer (`buf + off` in the source). The build without USE_LSB is modelled, where a number
-- is put together from single bytes; `|` of bytes shifted to disjoint places is written `+`.
-- A read that leaves the buffer is `err overrun`.
pub mod Laws
use advancescan.Base.{
  Bytes, Result, [], drop, err, ok, overrun, suc, zero, ℕ, ◌%◌, ◌*◌, ◌+◌, ◌/◌, ◌∷◌,
}

abbrev pub make16 : ℕ → ℕ → ℕ
make16 v0 v1 = v0 + v1 * 256

abbrev pub make32 : ℕ → ℕ → ℕ → ℕ → ℕ
make32 v0 v1 v2 v3 = v0 + v1 * 256 + v2 * 65536 + v3 * 16777216

-- ptr8[0] …, of the bytes that stand at the pointer.
abbrev pub first8 : Bytes → Result ℕ
first8 (a ∷ _) = ok a
first8 _ = err overrun

abbrev pub first16 : Bytes → Result ℕ
first16 (a ∷ b ∷ _) = ok (make16 a b)
first16 _ = err overrun

abbrev pub first32 : Bytes → Result ℕ
first32 (a ∷ b ∷ c ∷ d ∷ _) = ok (make32 a b c d)
first32 _ = err overrun

abbrev pub le_uint8_read : Bytes → ℕ → Result ℕ
le_uint8_read buf off = first8 (drop off buf)

abbrev pub le_uint16_read : Bytes → ℕ → Result ℕ
le_uint16_read buf off = first16 (drop off buf)

abbrev pub le_uint32_read : Bytes → ℕ → Result ℕ
le_uint32_read buf off = first32 (drop off buf)

-- The byte of `v` at bits 8 k and up: `(v >> 8 * k) & 0xFF`, as an assignment to a byte keeps it.
abbrev pub byte0 : ℕ → ℕ
byte0 v = v % 256

abbrev pub byte1 : ℕ → ℕ
byte1 v = v / 256 % 256

abbrev pub byte2 : ℕ → ℕ
byte2 v = v / 65536 % 256

abbrev pub byte3 : ℕ → ℕ
byte3 v = v / 16777216 % 256

-- Overwrite the buffer with these bytes from its start; no byte goes past its end.
abbrev pub overwrite : Bytes → Bytes → Bytes
overwrite [] buf = buf
overwrite (b ∷ bs) [] = []
overwrite (b ∷ bs) (x ∷ buf) = b ∷ overwrite bs buf

abbrev pub write_at : ℕ → Bytes → Bytes → Bytes
write_at zero bs buf = overwrite bs buf
write_at (suc off) bs [] = []
write_at (suc off) bs (x ∷ buf) = x ∷ write_at off bs buf

abbrev pub le_uint8_write : ℕ → ℕ → Bytes → Bytes
le_uint8_write off v = write_at off (byte0 v ∷ [])

abbrev pub le_uint16_write : ℕ → ℕ → Bytes → Bytes
le_uint16_write off v = write_at off (byte0 v ∷ byte1 v ∷ [])

abbrev pub le_uint32_write : ℕ → ℕ → Bytes → Bytes
le_uint32_write off v = write_at off (byte0 v ∷ byte1 v ∷ byte2 v ∷ byte3 v ∷ [])
