-- ===== src/File/Transfer/Copying.antt =====
-- file.cc: what a read, a write, a copy and a removal leave of a file.
use advancescan.Base.{
  Bool-cases, Bytes, Error, Option-cases, Result, [], ap, err, failed, false, inl, inr, length, ltb,
  none, ok, refl, some, take, ℕ, ◌%◌, ◌+◌, ◌==◌, ◌>>=◌, ◌||◌, ◌∙◌, ◌≡◌, ◌⊎◌,
}
use advancescan.File.Transfer.{file_copy, file_read, file_remove, file_write}
use advancescan.Scan.Store.{file_size}
use advancescan.Zip.Archive.{System, bytes_eq, flushed}
use advancescan.Zip.Archive.RoundTrip.{bytes_eq_refl}
use advancescan.Zip.Stream.{fread, fwrite, short}

-- the size of a file as an unsigned, and the part of its content that a copy takes
abbrev pub copied_part : Bytes → Bytes
copied_part c = take (length c % 4294967296) c

fread_start :
    (n : ℕ) (c : Bytes)
    → (fread n (record { content = c; pos = 0 }) failed ≡ err failed)
      ⊎ (fread n (record { content = c; pos = 0 }) failed
          ≡ ok (take n c, record { content = c; pos = 0 + n }))
unfolding fread
fread_start n c = elim (Bool-cases (short n (record { content = c; pos = 0 }))) [
  | inl e ↦ inl (rw e refl)
  | inr e ↦ inr (rw e refl)
]

size_of :
    (path c : Bytes) (s : System)
    → s.files path ≡ some c
    → (file_size path s ≡ err failed) ⊎ (file_size path s ≡ ok (length c % 4294967296))
size_of path c s h = elim (Bool-cases (s.can_stat path)) [
  | inr e ↦ inl (rw (e, file_size) refl)
  | inl e ↦ inr (rw (e, file_size) (rw h refl))
]

read_of :
    (path c : Bytes) (n : ℕ) (s : System)
    → s.files path ≡ some c
    → (file_read path 0 n s ≡ err failed) ⊎ (file_read path 0 n s ≡ ok (take n c))
unfolding file_read
read_of path c n s h = elim (Bool-cases (s.can_read path)) [
  | inr e ↦ inl (rw (e, file_read) refl)
  | inl e ↦ elim (fread_start n c) [
    | inl g ↦ inl (rw (e, file_read) (rw h (rw g refl)))
    | inr g ↦ inr (rw (e, file_read) (rw h (rw g refl)))
  ]
]

-- what file_copy reads
read_whole :
    (path c : Bytes) (s : System)
    → s.files path ≡ some c
    → (let m = file_size path s >>= λ size. file_read path 0 size s in
        (m ≡ err failed) ⊎ (m ≡ ok (copied_part c)))
read_whole path c s h = elim (size_of path c s h) [
  | inl e ↦ inl (ap (λ m. m >>= λ size. file_read path 0 size s) e)
  | inr e ↦
      let f = ap (λ m. m >>= λ size. file_read path 0 size s) e in
      elim (read_of path c (length c % 4294967296) s h) [
        | inl g ↦ inl (f ∙ g)
        | inr g ↦ inr (f ∙ g)
      ]
]

-- how a write ends, and the other files
pub data Wrote (content path : Bytes) (s : System) (r : Result (Unit {0}) × System) : Type 0 where
  wrote : r.0 ≡ ok tt → r.1.files path ≡ some (flushed path content s) → Wrote content path s r
  not_written : (e : Error) → r.0 ≡ err e → Wrote content path s r

fwrite_cases :
    (b : Bytes) (room : ℕ)
    → (fwrite b (record { written = []; room = room }) ≡ err failed)
      ⊎ (fwrite b (record { written = []; room = room }) ≡ ok (record { written = b; room = room }))
unfolding fwrite
fwrite_cases b room = elim (Bool-cases (length b == 0 || ltb room (0 + length b))) [
  | inl e ↦ inl (rw e refl)
  | inr e ↦ inr (rw e refl)
]

file_write-Wrote :
    (path content : Bytes) (s : System) → Wrote content path s (file_write path content s)
unfolding file_write
file_write-Wrote path content s = elim (Bool-cases (s.can_create path)) [
  | inr e ↦ rw (e, file_write) (not_written failed refl)
  | inl e ↦ elim (fwrite_cases content s.room) [
    | inl g ↦ rw (e, file_write) (rw g (not_written failed refl))
    | inr g ↦ rw (e, file_write) (rw g (wrote refl (rw (bytes_eq_refl path) refl)))
  ]
]

file_write-others :
    (path content other : Bytes) (s : System)
    → bytes_eq path other ≡ false
    → (file_write path content s).1.files other ≡ s.files other
unfolding file_write
file_write-others path content other s n = elim (Bool-cases (s.can_create path)) [
  | inr e ↦ rw (e, file_write) refl
  | inl e ↦ elim (fwrite_cases content s.room) [
    | inl g ↦ rw (e, file_write) (rw g (rw n refl))
    | inr g ↦ rw (e, file_write) (rw g (rw n refl))
  ]
]

pub file_remove-others :
    (path other : Bytes) (s : System)
    → bytes_eq path other ≡ false
    → (file_remove path s).1.files other ≡ s.files other
unfolding file_remove
file_remove-others path other s n = elim (Bool-cases (s.can_remove path)) [
  | inr e ↦ rw (e, file_remove) refl
  | inl e ↦ elim (Option-cases (s.files path)) [
    | inl g ↦ rw (e, file_remove) (rw g refl)
    | inr (c, g) ↦ rw (e, file_remove) (rw g (rw n refl))
  ]
]

-- the removal of a file that is there
pub file_remove-present :
    (path c : Bytes) (s : System)
    → s.files path ≡ some c
    → (((file_remove path s).0 ≡ ok tt) × ((file_remove path s).1.files path ≡ none))
      ⊎ (file_remove path s ≡ (err failed, s))
unfolding file_remove
file_remove-present path c s h = elim (Bool-cases (s.can_remove path)) [
  | inr e ↦ inr (rw (e, file_remove) refl)
  | inl e ↦
      inl
        (rw (e, file_remove) (rw h refl), rw (e, file_remove) (rw h (rw (bytes_eq_refl path) refl)))
]

-- what a copy leaves of both files
pub data Copied (c path1 path2 : Bytes) (s : System) (r : Result (Unit {0}) × System) : Type 0 where
  was_written :
      r.0 ≡ ok tt
      → r.1.files path2 ≡ some (flushed path2 (copied_part c) s)
      → r.1.files path1 ≡ some c
      → Copied c path1 path2 s r
  not_copied : (e : Error) → r.0 ≡ err e → r.1.files path1 ≡ some c → Copied c path1 path2 s r

write-Copied :
    (c path1 path2 : Bytes) (s : System)
    → s.files path1 ≡ some c
    → bytes_eq path2 path1 ≡ false
    → Copied c path1 path2 s (file_write path2 (copied_part c) s)
write-Copied c path1 path2 s h n =
    let kept_first = file_write-others path2 (copied_part c) path1 s n ∙ h in
    elim (file_write-Wrote path2 (copied_part c) s) [
      | wrote o w ↦ was_written o w kept_first
      | not_written e w ↦ not_copied e w kept_first
    ]

pub file_copy-Copied :
    (c path1 path2 : Bytes) (s : System)
    → s.files path1 ≡ some c
    → bytes_eq path2 path1 ≡ false
    → Copied c path1 path2 s (file_copy path1 path2 s)
unfolding file_copy
file_copy-Copied c path1 path2 s h n = elim (read_whole path1 c s h) [
  | inl g ↦ rw (g, file_copy) (not_copied failed refl h)
  | inr g ↦ rw (g, file_copy) (write-Copied c path1 path2 s h n)
]
