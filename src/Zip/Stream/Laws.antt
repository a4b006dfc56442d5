-- ===== src/Zip/Stream/Laws.antt =====
-- The C library's files: when a read or a write succeeds, and what it leaves.
use advancescan.Base.{
  Bytes, Error, [], ap, append-nil, append_assoc, arith, drop, drop-length-append, length,
  length-append, length-drop, le→leb, ok, take-length-append, take_all, ℕ, ◌++◌, ◌+◌, ◌<◌, ◌≡◌, ◌≤◌,
}
use advancescan.Zip.Stream.{Output, block, fread, fwrite}

-- A memory block that stands in front of other bytes.
pub block-append : (b rest : Bytes) (n : ℕ) → n ≡ length b → block (b ++ rest) n ≡ ok b
unfolding block
block-append b rest n e = rw e (
    rw (le→leb (length b) (length (b ++ rest)) (omega (arith, length-append b rest)))
      (ap ok (take-length-append b rest)))

pub block_all : (b : Bytes) (n : ℕ) → n ≡ length b → block b n ≡ ok b
block_all b n e = rw append-nil at (block-append b [] n e)

-- The output with these bytes behind it.
abbrev pub push : Output → Bytes → Output
push f b = record f { written = f.written ++ b }

pub push-push : (f : Output) (a b : Bytes) → push (push f a) b ≡ push f (a ++ b)
push-push f a b = λ i. record f { written = append_assoc f.written a b i }

pub fwrite_ok :
    (b : Bytes) (f : Output)
    → 0 < length b
    → length f.written + length b ≤ f.room
    → fwrite b f ≡ ok (push f b)
unfolding fwrite
fwrite_ok b f p h = ground arith

-- A block of a file is read where it stands.
pub fread-append :
    (a b c : Bytes) (e : Error)
    → 0 < length b
    → fread (length b) (record { content = a ++ (b ++ c); pos = length a }) e
      ≡ ok (b, record { content = a ++ (b ++ c); pos = length a + length b })
unfolding fread
fread-append a b c e p =
    rw (drop-length-append a (b ++ c), take-length-append b c)
      (ground (arith, length-append a (b ++ c), length-append b c))

-- A read up to the end of the file.
pub fread_end :
    (content : Bytes) (pos n : ℕ) (e : Error)
    → 0 < n
    → pos + n ≡ length content
    → fread n (record { content = content; pos = pos }) e
      ≡ ok (drop pos content, record { content = content; pos = pos + n })
unfolding fread
fread_end content pos n e p ends =
    let l = length-drop pos content in
    rw (take_all n (drop pos content) (omega arith)) (ground arith)
