-- ===== src/Zip/Stream.antt =====
-- The C library's files as zip.cc uses them. A file that is read is its bytes and a position; a
-- file that is written grows at its end and has room for a number of bytes (a full disk).
pub mod Laws
use advancescan.Base.{
  Bool, Bytes, Error, Result, drop, err, failed, if◌then◌else◌, leb, length, ltb, ok, overrun, take,
  ℕ, ◌++◌, ◌+◌, ◌==◌, ◌||◌,
}

pub record Input : Type 0 where
  pub content : Bytes
  pub pos : ℕ

-- fseek(f, n, SEEK_SET) and SEEK_CUR: they do not fail on a regular file.
abbrev pub fseek_set : ℕ → Input → Input
fseek_set n f = record f { pos = n }

abbrev pub fseek_cur : ℕ → Input → Input
fseek_cur n f = record f { pos = f.pos + n }

-- fread(buf, n, 1, f) != 1: the bytes are not there, or n is 0.
abbrev pub short : ℕ → Input → Bool
short n f = n == 0 || ltb (length f.content) (f.pos + n)

-- The bytes that fread stores, and the stream behind them, where it does not fail.
unfoldable pub fread : ℕ → Input → Error → Result (Bytes × Input)
fread n f e = if short n f then err e else ok (take n (drop f.pos f.content), fseek_cur n f)

pub record Output : Type 0 where
  pub written : Bytes
  pub room : ℕ

abbrev pub ftell : Output → ℕ
ftell f = length f.written

-- fwrite(b, n, 1, f): one item of no bytes is reported as not written.
unfoldable pub fwrite : Bytes → Output → Result Output
fwrite b f =
    if length b == 0 || ltb f.room (length f.written + length b)
    then err failed
    else ok (record f { written = f.written ++ b })

-- The first n bytes at a pointer, for memcpy or fwrite.
unfoldable pub block : Bytes → ℕ → Result Bytes
block b n = if leb n (length b) then ok (take n b) else err overrun
