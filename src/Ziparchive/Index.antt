-- ===== src/Ziparchive/Index.antt =====
-- ziprom.cc: the index of a ziparchive, under the operations that change the archive.
use advancescan.Base.{
  ==_refl, >>=-eq-ok, Bool, Bool-cases, List, Option, [], ap, arith, false, if◌then◌else◌, inl, inr,
  none, not, ok, refl, some, suc, sym, true, zero, ℕ, ◌&&◌, ◌++◌, ◌+◌, ◌==◌, ◌>>=◌, ◌>>◌, ◌∷◌, ◌≡◌,
}
use advancescan.Zip.Archive.{System, assert, is_empty}
use advancescan.Zip.Entry.{Entry}
use advancescan.Ziparchive.{
  CrcSize, Ziparchive, append_ziprom, erase_at_place, erase_ziprom, find, find_entry, find_exclude,
  find_exclude_iter, find_file, find_in, find_iter, has_key, insert_key, insert_keys, is_other,
  key_of, new_ziparchive, open_and_insert, same_crcsize, update, without,
}
use advancescan.Ziprom.{Ziprom, open_ziprom}
use mathlib.Core.Path.{subst}

-- every entry has its key in the index
abbrev pub Covers : List Entry → List CrcSize → Type 0
Covers [] index = Unit
Covers (e ∷ es) index = (has_key (key_of e) index ≡ true) × Covers es index

abbrev pub AllCovered : List Ziprom → List CrcSize → Type 0
AllCovered [] index = Unit
AllCovered (r ∷ rs) index = Covers r.zip.entries index × AllCovered rs index

-- The index has the key of every entry of every archive.
abbrev pub IsIndexed : Ziparchive → Type 0
IsIndexed a = AllCovered a.data_list a.index

same_crcsize_refl : (k : CrcSize) → same_crcsize k k ≡ true
same_crcsize_refl k = rw (==_refl k.crc, ==_refl k.size) refl

has_key-insert_key : (k : CrcSize) (index : List CrcSize) → has_key k (insert_key k index) ≡ true
unfolding insert_key has_key
has_key-insert_key k index = elim (Bool-cases (has_key k index)) [
  | inl e ↦ rw e e
  | inr e ↦ rw e (rw (same_crcsize_refl k) refl)
]

has_key_cons :
    (k x : CrcSize) (index : List CrcSize) → has_key k index ≡ true → has_key k (x ∷ index) ≡ true
unfolding has_key
has_key_cons k x index h = elim (Bool-cases (same_crcsize k x)) [
  | inl e ↦ rw e refl
  | inr e ↦ rw (e, h) refl
]

has_key_more :
    (k x : CrcSize) (index : List CrcSize)
    → has_key k index ≡ true
    → has_key k (insert_key x index) ≡ true
unfolding insert_key
has_key_more k x index h = elim (Bool-cases (has_key x index)) [
  | inl e ↦ rw e h
  | inr e ↦ rw e (has_key_cons k x index h)
]

has_key_keys :
    (es : List Entry) (k : CrcSize) (index : List CrcSize)
    → has_key k index ≡ true
    → has_key k (insert_keys es index) ≡ true
unfolding insert_keys
has_key_keys [] k index h = h
has_key_keys (e ∷ es) k index h =
    has_key_keys es k (insert_key (key_of e) index) (has_key_more k (key_of e) index h)

Covers-insert_keys : (es : List Entry) (index : List CrcSize) → Covers es (insert_keys es index)
unfolding insert_keys
Covers-insert_keys [] index = tt
Covers-insert_keys (e ∷ es) index = (
  has_key_keys es (key_of e) (insert_key (key_of e) index) (has_key-insert_key (key_of e) index),
  Covers-insert_keys es (insert_key (key_of e) index),
)

Covers-more :
    (new es : List Entry) (index : List CrcSize)
    → Covers es index
    → Covers es (insert_keys new index)
Covers-more new [] index c = tt
Covers-more new (e ∷ es) index c =
    (has_key_keys new (key_of e) index (c.0), Covers-more new es index (c.1))

AllCovered-append :
    (r : Ziprom) (rs : List Ziprom) (index : List CrcSize)
    → AllCovered rs index
    → AllCovered (rs ++ r ∷ []) (insert_keys r.zip.entries index)
AllCovered-append r [] index c = (Covers-insert_keys r.zip.entries index, tt)
AllCovered-append r (x ∷ rs) index c =
    (Covers-more r.zip.entries x.zip.entries index (c.0), AllCovered-append r rs index (c.1))

AllCovered-erase :
    (i : ℕ) (rs : List Ziprom) (index : List CrcSize)
    → AllCovered rs index
    → AllCovered (erase_ziprom i rs) index
unfolding erase_ziprom
AllCovered-erase i [] index c = tt
AllCovered-erase zero (r ∷ rs) index c = c.1
AllCovered-erase (suc i) (r ∷ rs) index c = (c.0, AllCovered-erase i rs index (c.1))

append_ziprom-IsIndexed :
    (r : Ziprom) (a : Ziparchive) → IsIndexed a → IsIndexed (append_ziprom r a)
unfolding append_ziprom
append_ziprom-IsIndexed r a c = AllCovered-append r a.data_list a.index c

erase_at_place-IsIndexed : (i : ℕ) (a : Ziparchive) → IsIndexed a → IsIndexed (erase_at_place i a)
unfolding erase_at_place
erase_at_place-IsIndexed i a c = AllCovered-erase i a.data_list a.index c

without-IsIndexed : (o : Option ℕ) (a : Ziparchive) → IsIndexed a → IsIndexed (without o a)
unfolding without
without-IsIndexed none a c = c
without-IsIndexed (some i) a c = erase_at_place-IsIndexed i a c

-- A call of one of the three operations that change a ziparchive.
pub data Steps : Ziparchive → Ziparchive → Type 0 where
  open_step :
      {a b : Ziparchive} (pedantic can_write : Bool) (r : Ziprom) (s : System)
      → open_and_insert pedantic can_write r s a ≡ ok b
      → Steps a b
  update_step : {a b : Ziparchive} (r : Ziprom) → update r a ≡ ok b → Steps a b
  erase_step : {a : Ziparchive} (i : ℕ) → Steps a (erase_at_place i a)

-- What calls make of an empty ziparchive.
pub data Reached : Ziparchive → Type 0 where
  empty_archive : Reached new_ziparchive
  after_step : {a b : Ziparchive} → Reached a → Steps a b → Reached b

open_and_insert_ok :
    (pedantic can_write : Bool) (r : Ziprom) (s : System) (a b : Ziparchive)
    → open_and_insert pedantic can_write r s a ≡ ok b
    → (r1 : Ziprom) × (b ≡ append_ziprom r1 a)
unfolding open_and_insert
open_and_insert_ok pedantic can_write r s a b h =
    let body = λ (r1 : Ziprom). assert r1.zip.is_open >> ok (append_ziprom r1 a) in
    let (u, p, q) =
      >>=-eq-ok (assert (not r.zip.is_open)) (λ u. open_ziprom pedantic can_write r s >>= body) h in
    let (r1, p1, q1) = >>=-eq-ok (open_ziprom pedantic can_write r s) body q in
    let (v, p2, q2) = >>=-eq-ok (assert r1.zip.is_open) (λ v. ok (append_ziprom r1 a)) q1 in
    (r1, cc q2)

update-IsIndexed : (r : Ziprom) (a b : Ziparchive) → IsIndexed a → update r a ≡ ok b → IsIndexed b
unfolding update
update-IsIndexed r a b c h =
    let a1 = without (find_file 0 r.zip.path a.data_list) a in
    let i1 = without-IsIndexed (find_file 0 r.zip.path a.data_list) a c in
    let answer = λ (x : Bool). if x then append_ziprom r a1 else a1 in
    let (u, p, q) = >>=-eq-ok (assert r.zip.is_open) (λ u. ok (answer (not (is_empty r.zip)))) h in
    let e : answer (not (is_empty r.zip)) ≡ b = cc q in
    subst IsIndexed e (either (not (is_empty r.zip)) a1 i1)
  where
    either :
        (x : Bool) (a1 : Ziparchive)
        → IsIndexed a1
        → IsIndexed (if x then append_ziprom r a1 else a1)
    either true a1 i = append_ziprom-IsIndexed r a1 i
    either false a1 i = i

step-IsIndexed : (a b : Ziparchive) → Steps a b → IsIndexed a → IsIndexed b
step-IsIndexed a b (open_step pedantic can_write r s h) c =
    let (r1, e) = open_and_insert_ok pedantic can_write r s a b h in
    rw e (append_ziprom-IsIndexed r1 a c)
step-IsIndexed a b (update_step r h) c = update-IsIndexed r a b c h
step-IsIndexed a b (erase_step i) c = erase_at_place-IsIndexed i a c

Reached-IsIndexed : (a : Ziparchive) → Reached a → IsIndexed a
Reached-IsIndexed a empty_archive = tt
Reached-IsIndexed a (after_step {a = b} r s) = step-IsIndexed b a s (Reached-IsIndexed b r)

key_of_is :
    (k : CrcSize) (e : Entry)
    → k.crc ≡ e.info.crc32
    → k.size ≡ e.info.uncompressed_size
    → key_of e ≡ k
key_of_is k e p q = rw (sym p, sym q) refl

-- a key that the index does not have is the key of no entry
find_entry-none :
    (k : CrcSize) (es : List Entry) (index : List CrcSize)
    → Covers es index
    → has_key k index ≡ false
    → find_entry k es ≡ none
unfolding find_entry
find_entry-none k [] index c h = refl
find_entry-none k (e ∷ es) index c h =
    elim (Bool-cases (k.crc == e.info.crc32 && k.size == e.info.uncompressed_size)) [
      | inl same ↦
          let p : k.crc ≡ e.info.crc32 = ground (arith, same) in
          let q : k.size ≡ e.info.uncompressed_size = ground (arith, same) in
          absurd (cc (h, c.0, ap (λ x. has_key x index) (key_of_is k e p q)))
      | inr other ↦ rw other (find_entry-none k es index (c.1) h)
    ]

find_in-none :
    (test : ℕ → Ziprom → Bool) (k : CrcSize) (i : ℕ) (rs : List Ziprom) (index : List CrcSize)
    → AllCovered rs index
    → has_key k index ≡ false
    → find_in test k i rs ≡ none
unfolding find_in
find_in-none test k i [] index c h = refl
find_in-none test k i (r ∷ rs) index c h = elim (Bool-cases (test i r)) [
  | inl t ↦
      rw (t, find_entry-none k r.zip.entries index (c.0) h)
        (find_in-none test k (i + 1) rs index (c.1) h)
  | inr t ↦ rw t (find_in-none test k (i + 1) rs index (c.1) h)
]

-- In a ziparchive that any sequence of open_and_insert, update and erase makes of an empty one,
-- the searches that ask the index first find what the searches through all archives find.
pub find-find_iter :
    (a : Ziparchive) (k : CrcSize) (exclude : Option ℕ)
    → Reached a
    → (find k a ≡ find_iter k a) × (find_exclude exclude k a ≡ find_exclude_iter exclude k a)
unfolding find find_exclude
find-find_iter a k exclude reached =
    let c = Reached-IsIndexed a reached in
    elim (Bool-cases (has_key k a.index)) [
      | inl h ↦ rw h (refl, refl)
      | inr h ↦ rw h (
        sym (find_in-none (λ i r. true) k 0 a.data_list a.index c h),
        sym (find_in-none (λ i r. is_other exclude i) k 0 a.data_list a.index c h),
      )
    ]
