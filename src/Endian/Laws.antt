-- ===== src/Endian/Laws.antt =====
-- lib/endianrw.h: a read of what was written at the same offset.
use advancescan.Base.{Bytes, [], ap, arith, length, ok, suc, zero, ℕ, ◌%◌, ◌+◌, ◌<◌, ◌∷◌, ◌≡◌, ◌≤◌}
use advancescan.Endian.{
  byte0, byte1, byte2, byte3, le_uint16_read, le_uint16_write, le_uint32_read, le_uint32_write,
  make16, make32,
}

pub make16_bytes : (v : ℕ) → v < 65536 → make16 (byte0 v) (byte1 v) ≡ v
make16_bytes v h = omega arith

pub make32_bytes : (v : ℕ) → v < 4294967296 → make32 (byte0 v) (byte1 v) (byte2 v) (byte3 v) ≡ v
make32_bytes v h = omega arith

le_uint16_lem :
    (off v : ℕ) (buf : Bytes)
    → off + 2 ≤ length buf
    → le_uint16_read (le_uint16_write off v buf) off ≡ ok (v % 65536)
le_uint16_lem zero v (x ∷ y ∷ buf) h = ap ok (omega arith)
le_uint16_lem zero v (x ∷ []) h = absurd (omega arith)
le_uint16_lem zero v [] h = absurd (omega arith)
le_uint16_lem (suc off) v (x ∷ buf) h = le_uint16_lem off v buf (omega arith)
le_uint16_lem (suc off) v [] h = absurd (omega arith)

le_uint32_lem :
    (off v : ℕ) (buf : Bytes)
    → off + 4 ≤ length buf
    → le_uint32_read (le_uint32_write off v buf) off ≡ ok (v % 4294967296)
le_uint32_lem zero v (x ∷ y ∷ z ∷ w ∷ buf) h = ap ok (omega arith)
le_uint32_lem zero v (x ∷ y ∷ z ∷ []) h = absurd (omega arith)
le_uint32_lem zero v (x ∷ y ∷ []) h = absurd (omega arith)
le_uint32_lem zero v (x ∷ []) h = absurd (omega arith)
le_uint32_lem zero v [] h = absurd (omega arith)
le_uint32_lem (suc off) v (x ∷ buf) h = le_uint32_lem off v buf (omega arith)
le_uint32_lem (suc off) v [] h = absurd (omega arith)

-- A number written at an offset of a buffer with room for it, in two or in four bytes, is read
-- back there, modulo the range of the width.
pub read-write :
    (off v : ℕ) (buf : Bytes)
    → off + 4 ≤ length buf
    → (le_uint16_read (le_uint16_write off v buf) off ≡ ok (v % 65536))
      × (le_uint32_read (le_uint32_write off v buf) off ≡ ok (v % 4294967296))
read-write off v buf h = (le_uint16_lem off v buf (omega arith), le_uint32_lem off v buf h)
