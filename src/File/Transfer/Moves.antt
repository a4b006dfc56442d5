-- ===== src/File/Transfer/Moves.antt =====
-- file.cc: what a move leaves of a file.
use advancescan.Base.{
  Bool, Bool-cases, Bytes, Result, ap, arith, err, failed, false, inl, inr, length,
  length-take_bound, none, ok, refl, some, sym, take, take_all, take_ge, true, ◌%◌, ◌<◌, ◌↔◌, ◌∙◌,
  ◌≡◌, ◌≤◌,
}
use advancescan.File.Transfer.{after_copy, file_copy, file_move}
use advancescan.File.Transfer.Copying.{
  Copied, copied_part, file_copy-Copied, file_remove-others, file_remove-present, not_copied,
  was_written,
}
use advancescan.Zip.Archive.{System, bytes_eq, flushed}
use advancescan.Zip.Archive.RoundTrip.{bytes_eq_refl}

-- How the move of a file with the content c may end.
pub data Moved (exdev : Bool) (c path1 path2 : Bytes) (s : System) (r : Result (Unit {0}) × System)
    : Type 0 where
  was_renamed :
      r.0 ≡ ok tt
      → s.can_rename path1 path2 ≡ true
      → r.1.files path2 ≡ some c
      → r.1.files path1 ≡ none
      → Moved exdev c path1 path2 s r
  was_copied :
      r.0 ≡ ok tt
      → s.can_rename path1 path2 ≡ false
      → exdev ≡ true
      → r.1.files path2 ≡ some (flushed path2 (copied_part c) s)
      → r.1.files path1 ≡ none
      → Moved exdev c path1 path2 s r
  left_alone :
      r.0 ≡ ok tt
      → r.1 ≡ s
      → s.can_rename path1 path2 ≡ false
      → exdev ≡ false
      → Moved exdev c path1 path2 s r
  was_reported : r.0 ≡ err failed → r.1.files path1 ≡ some c → Moved exdev c path1 path2 s r

after_copy-Moved :
    (exdev : Bool) (c path1 path2 : Bytes) (s : System) (a : Result (Unit {0})) (s1 : System)
    → bytes_eq path2 path1 ≡ false
    → bytes_eq path1 path2 ≡ false
    → s.can_rename path1 path2 ≡ false
    → exdev ≡ true
    → Copied c path1 path2 s (a, s1)
    → Moved exdev c path1 path2 s (after_copy path1 path2 (a, s1))
after_copy-Moved exdev c path1 path2 s (err e) s1 n m l x (was_written o w k) = absurd cc
after_copy-Moved exdev c path1 path2 s (err e) s1 n m l x (not_copied f w k) =
    was_reported refl (file_remove-others path2 path1 s1 n ∙ k)
after_copy-Moved exdev c path1 path2 s (ok tt) s1 n m l x (not_copied f w k) = absurd cc
after_copy-Moved exdev c path1 path2 s (ok tt) s1 n m l x (was_written o w k) =
    elim (file_remove-present path1 c s1 k) [
      | inl g ↦ was_copied (g.0) l x (file_remove-others path1 path2 s1 m ∙ w) (g.1)
      | inr g ↦ was_reported (ap (λ r. r.0) g) (ap (λ r. r.1.files path1) g ∙ k)
    ]

-- A move of a file that is there to a path of another name ends in one of four ways: it was renamed;
-- it was removed, and the new path holds the first bytes of it, as many as its size as an unsigned
-- and as the disk took by fclose; it failed, and the file is still there; or it is reported as done,
-- and nothing has changed, where the system refused the rename for another reason than that the
-- paths are on two file systems.
pub file_move-Moved :
    (exdev : Bool) (c path1 path2 : Bytes) (s : System)
    → s.files path1 ≡ some c
    → bytes_eq path1 path2 ≡ false
    → bytes_eq path2 path1 ≡ false
    → Moved exdev c path1 path2 s (file_move exdev path1 path2 s)
unfolding file_move
file_move-Moved exdev c path1 path2 s h m n = elim (Bool-cases (s.can_rename path1 path2)) [
  | inl e ↦
      rw (e, file_move)
        (was_renamed refl e (rw m (rw (bytes_eq_refl path2) h)) (rw (bytes_eq_refl path1) refl))
  | inr e ↦ elim (Bool-cases exdev) [
    | inr g ↦ rw (e, file_move) (rw g (left_alone refl refl e refl))
    | inl g ↦
        rw (e, file_move)
          (rw g (
            after_copy-Moved true c path1 path2 s (file_copy path1 path2 s).0
              (file_copy path1 path2 s).1 n m e refl (file_copy-Copied c path1 path2 s h n)))
  ]
]

some-injective {ℓ} : {A : Type ℓ} (x y : A) → some x ≡ some y → x ≡ y
some-injective x y h = cc

-- Between two file systems the move of a file that is there to a path of another name, where it is
-- reported as done, has copied the file whole, if and only if the file has less than 2 ^ 32 bytes
-- and the disk took all of them by fclose.
pub file_move-bounds :
    (c path1 path2 : Bytes) (s : System)
    → s.files path1 ≡ some c
    → bytes_eq path1 path2 ≡ false
    → bytes_eq path2 path1 ≡ false
    → s.can_rename path1 path2 ≡ false
    → (file_move true path1 path2 s).0 ≡ ok tt
    → ((file_move true path1 path2 s).1.files path2 ≡ some c)
      ↔ ((length c < 4294967296) × (length c ≤ s.disk_room path2))
file_move-bounds c path1 path2 s h m n l done = elim (file_move-Moved true c path1 path2 s h m n) [
  | was_renamed o e w g ↦ absurd cc
  | left_alone o e f g ↦ absurd cc
  | was_reported o w ↦ absurd cc
  | was_copied o e x w g ↦ (
    λ same.
        let shorter =
          ap length (some-injective (flushed path2 (copied_part c) s) c (sym w ∙ same)) in
        let on_disk = length-take_bound (s.disk_room path2) (copied_part c) in
        let part = length-take_bound (length c % 4294967296) c in (omega arith, omega arith),
    λ fit.
        let part = take_all (length c % 4294967296) c (omega (arith, fit.0)) in
        w ∙ ap some (ap (take (s.disk_room path2)) part ∙ take_ge (s.disk_room path2) c (fit.1)),
  )
]
