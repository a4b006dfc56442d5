-- ===== src/Zip/Archive/Load/Search.antt =====
-- zip.cc, zip::load: the two searches for the next entry.
use advancescan.Base.{
  Bool, List, Option, [], ap, arith, false, leb, length, le→ltb, ltb, lt→ltb, none, refl, some, suc,
  true, ℕ, ◌&&◌, ◌++◌, ◌+◌, ◌<◌, ◌∙◌, ◌∷◌, ◌≡◌, ◌≤◌,
}
use advancescan.Zip.Archive.Load.{end_offset, search}
use advancescan.Zip.Archive.Save.Layout.{All}
use advancescan.Zip.Entry.{Entry}

abbrev pub offset_of : Entry → ℕ
offset_of e = e.info.relative_offset_of_local_header

-- Entries that fail the test are passed over.
search_skip :
    (test : ℕ → Bool) (xs ys : List Entry) (i : ℕ) (best : Option (ℕ × ℕ))
    → All (λ e. test (offset_of e) ≡ false) xs
    → search test i best (xs ++ ys) ≡ search test (length xs + i) best ys
unfolding search
search_skip test [] ys i best h = ap (λ k. search test k best ys) (omega arith)
search_skip test (x ∷ xs) ys i best h =
    let e : length xs + (i + 1) ≡ suc (length xs) + i = omega arith in
    rw (h.0, search) (rw (search_skip test xs ys (i + 1) best h.1) (rw e))

and_false : (b : Bool) → (b && false) ≡ false
and_false true = refl
and_false false = refl

-- An entry is kept against later ones with no lesser offset.
search_keep :
    (test : ℕ → Bool) (ys : List Entry) (i k o : ℕ)
    → All (λ e. o ≤ offset_of e) ys
    → search test i (some (k, o)) ys ≡ some (k, o)
unfolding search
search_keep test [] i k o h = refl
search_keep test (y ∷ ys) i k o h =
    rw (le→ltb (offset_of y) o h.0, search)
      (rw (and_false (test (offset_of y))) (search_keep test ys (i + 1) k o h.1))

search_nil : (test : ℕ → Bool) (i : ℕ) (best : Option (ℕ × ℕ)) → search test i best [] ≡ best
unfolding search
search_nil test i best = refl

search_take :
    (test : ℕ → Bool) (h : Entry) (ys : List Entry) (i : ℕ)
    → test (offset_of h) ≡ true
    → All (λ e. offset_of h ≤ offset_of e) ys
    → search test i none (h ∷ ys) ≡ some (i, offset_of h)
unfolding search
search_take test h ys i t hy = rw (t, search) (search_keep test ys (i + 1) i (offset_of h) hy)

pub All-map {ℓ κ μ} :
    {A : Type ℓ} {P : A → Type κ} {Q : A → Type μ} (xs : List A)
    → ((a : A) → P a → Q a)
    → All P xs
    → All Q xs
All-map [] f h = tt
All-map (x ∷ xs) f h = (f x h.0, All-map xs f h.1)

-- The first search finds the entry at the position of the stream, behind those that are loaded.
pub search_next :
    (xs ys : List Entry) (h : Entry) (pos : ℕ)
    → All (λ e. offset_of e < pos) xs
    → offset_of h ≡ pos
    → All (λ e. pos ≤ offset_of e) ys
    → search (λ o. leb pos o) 0 none (xs ++ (h ∷ ys)) ≡ some (length xs, pos)
search_next xs ys h pos hx hh hy =
    let i : length xs + 0 ≡ length xs = omega arith in
    let found : search (λ o. leb pos o) (length xs) none (h ∷ ys) ≡ some (length xs, offset_of h) =
      search_take (λ o. leb pos o) h ys (length xs) (ground arith) (rw hh hy) in
    search_skip (λ o. leb pos o) xs (h ∷ ys) 0 none
      (All-map {P = λ e. offset_of e < pos} {Q = λ e. leb pos (offset_of e) ≡ false} xs
        (λ e p. ground arith) hx)
    ∙ rw i (found ∙ ap (λ k. some (length xs, k)) hh)

-- The second search goes on behind the entry.
search_behind :
    (xs ys : List Entry) (h : Entry) (pos : ℕ)
    → All (λ e. offset_of e < pos) xs
    → offset_of h ≡ pos
    → search (λ o. ltb pos o) 0 none (xs ++ (h ∷ ys))
      ≡ search (λ o. ltb pos o) (suc (length xs + 0)) none ys
search_behind xs ys h pos hx hh =
    let passed : ltb pos (offset_of h) ≡ false = ground arith in
    search_skip (λ o. ltb pos o) xs (h ∷ ys) 0 none
      (All-map {P = λ e. offset_of e < pos} {Q = λ e. ltb pos (offset_of e) ≡ false} xs
        (λ e p. ground arith) hx)
    ∙ search_skip (λ o. ltb pos o) (h ∷ []) ys (length xs + 0) none (passed, tt)
    ∙ ap (λ k. search (λ o. ltb pos o) k none ys) (omega arith)

-- The end of that entry is the start of the directory, if it is the last.
pub end_offset_last :
    (xs : List Entry) (h : Entry) (pos cent_start : ℕ)
    → All (λ e. offset_of e < pos) xs
    → offset_of h ≡ pos
    → end_offset cent_start (xs ++ (h ∷ [])) pos ≡ cent_start
unfolding end_offset
end_offset_last xs h pos cent_start hx hh = rw (
  search_behind xs [] h pos hx hh ∙ search_nil (λ o. ltb pos o) (suc (length xs + 0)) none,
  end_offset,
)

-- Else it is the start of the next entry.
pub end_offset_next :
    (xs ys : List Entry) (h y : Entry) (pos cent_start : ℕ)
    → All (λ e. offset_of e < pos) xs
    → offset_of h ≡ pos
    → pos < offset_of y
    → All (λ e. offset_of y ≤ offset_of e) ys
    → end_offset cent_start (xs ++ (h ∷ y ∷ ys)) pos ≡ offset_of y
unfolding end_offset
end_offset_next xs ys h y pos cent_start hx hh hn hy =
    rw (search_behind xs (y ∷ ys) h pos hx hh, end_offset)
      (rw
        (search_take (λ o. ltb pos o) y ys (suc (length xs + 0)) (lt→ltb pos (offset_of y) hn) hy))
