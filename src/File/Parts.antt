-- ===== src/File/Parts.antt =====
-- file.cc: how file_dir, file_name, file_basename and file_ext cut a path.
use advancescan.Base.{
  Bool, Bytes, Option, [], ap, append-nil, arith, drop, false, if◌then◌else◌, none, refl, some, suc,
  take, true, zero, ℕ, ◌++◌, ◌+◌, ◌==◌, ◌∷◌, ◌≡◌,
}
use advancescan.File.{
  dir_at, ext_at, file_basename, file_dir, file_ext, file_name, name_at, rfind, stem_at,
}

take-drop : (n : ℕ) (xs : Bytes) → take n xs ++ drop n xs ≡ xs
take-drop zero xs = refl
take-drop (suc n) [] = refl
take-drop (suc n) (x ∷ xs) = ap (◌∷◌ x) (take-drop n xs)

-- one character more in front, from the same about what follows it
rfind_cons :
    (c x : ℕ) (path : Bytes) (i : ℕ) (o : Option ℕ)
    → ((k : ℕ) → rfind c path ≡ some k → rfind c (drop (k + 1) path) ≡ none)
    → rfind c path ≡ o
    → elim o [ some j ↦ some (suc j) | none ↦ if x == c then some 0 else none ] ≡ some i
    → rfind c (drop (i + 1) (x ∷ path)) ≡ none
rfind_cons c x path i none rest e h =
    let start : i + 1 ≡ 1 = omega (arith, zero_of (x == c) h) in rw start e
  where
    zero_of : (b : Bool) → (if b then some 0 else none) ≡ some i → i ≡ 0
    zero_of true h = cc
    zero_of false h = absurd cc
rfind_cons c x path i (some j) rest e h =
    let same : suc j ≡ i = cc in
    let place : i + 1 ≡ suc (j + 1) = omega (arith, same) in rw place (rest j e)

rfind-some :
    (c : ℕ) (path : Bytes) (i : ℕ) → rfind c path ≡ some i → rfind c (drop (i + 1) path) ≡ none
unfolding rfind
rfind-some c [] i h = absurd cc
rfind-some c (x ∷ path) i h = rfind_cons c x path i (rfind c path) (rfind-some c path) refl h

-- The directory and the name of a path make up the path, the name has no '/', and the name's
-- stem and its extension make up the name.
pub file_dir-file_name :
    (path : Bytes)
    → (file_dir path ++ file_name path ≡ path)
      × (rfind b'/' (file_name path) ≡ none)
      × (file_basename path ++ file_ext path ≡ file_name path)
unfolding file_dir file_name file_basename file_ext
file_dir-file_name path = (
  whole (rfind b'/' path),
  last (rfind b'/' path) refl,
  stem (name_at path (rfind b'/' path)) (rfind b'.' (name_at path (rfind b'/' path))),
)
  where
    whole : (o : Option ℕ) → dir_at path o ++ name_at path o ≡ path
    whole none = refl
    whole (some i) = take-drop (i + 1) path

    last : (o : Option ℕ) → rfind b'/' path ≡ o → rfind b'/' (name_at path o) ≡ none
    last none h = h
    last (some i) h = rfind-some b'/' path i h

    stem : (name : Bytes) (o : Option ℕ) → stem_at name o ++ ext_at name o ≡ name
    stem name none = append-nil name
    stem name (some i) = take-drop i name
