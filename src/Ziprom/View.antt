-- ===== src/Ziprom/View.antt =====
-- ziprom.cc: an archive of roms as a map from names, in either case, to contents.
pub mod Calls
pub mod Pair
use advancescan.Base.{
  Bool-cases, Bytes, List, Option, [], false, if◌then◌else◌, inl, inr, length, none, refl, some,
  sym, true, ℕ, ◌++◌, ◌+◌, ◌<◌, ◌∙◌, ◌∷◌, ◌≡◌, ◌⊎◌,
}
use advancescan.File.{same_name}
use advancescan.Zip.Archive.{attributes_of}
use advancescan.Zip.Archive.Edit.{InRange}
use advancescan.Zip.Archive.Save.Layout.{All, data_of}
use advancescan.Zip.Entry.{Entry, Method, method_get}
use advancescan.Zip.Entry.Methods.{Settable, stored_method}
use advancescan.Ziprom.{Ziprom, find_from}
use advancescan.Ziprom.Laws.{IsDistinct, Lacks, not_true, others, same_name_sym, same_name_trans}

-- What an archive keeps of a file.
pub record Content : Type 0 where
  pub bytes : Bytes
  pub crc : ℕ
  pub size : ℕ
  pub date : ℕ
  pub time : ℕ
  pub method : Method

abbrev pub FileMap : Type 0
FileMap = Bytes → Option Content

-- the map without a name, and with a content at a name
abbrev pub delete : Bytes → FileMap → FileMap
delete name m = λ n. if same_name name n then none else m n

abbrev pub put : Bytes → Content → FileMap → FileMap
put name c m = λ n. if same_name name n then some c else m n

abbrev pub content_of : Entry → Content
content_of e = record {
  bytes = data_of e;
  crc = e.info.crc32;
  size = e.info.uncompressed_size;
  date = e.info.last_mod_file_date;
  time = e.info.last_mod_file_time;
  method = stored_method (method_get e.info);
}

abbrev pub view : List Entry → FileMap
view [] n = none
view (e ∷ es) n =
    let rest = view es n in if same_name e.file_name n then some (content_of e) else rest

-- An entry whose data is in memory and which zip::insert accepts.
pub record IsMovable (e : Entry) : Type 0 where
  pub in_memory : e.compdata ≡ some (data_of e)
  pub size_is : e.info.compressed_size ≡ length (data_of e)
  pub settable : Settable (method_get e.info) e.info
  pub in_range : InRange (attributes_of e) e.file_name

-- A loaded archive whose names differ in either case, with such entries.
pub record IsSound (r : Ziprom) : Type 0 where
  pub loaded : r.zip.is_read ≡ true
  pub distinct : IsDistinct r.zip.entries
  pub movable : All IsMovable r.zip.entries

-- a name that fits an entry
abbrev pub IsName : Bytes → Type 0
IsName name = (0 < length name) × (length name < 65536)

pub Lacks-view : (n : Bytes) (es : List Entry) → Lacks n es → view es n ≡ none
Lacks-view n [] l = refl
Lacks-view n (e ∷ es) l = rw (l.0) (Lacks-view n es (l.1))

pub view-Lacks : (n : Bytes) (es : List Entry) → view es n ≡ none → Lacks n es
view-Lacks n [] h = tt
view-Lacks n (e ∷ es) h = elim (Bool-cases (same_name e.file_name n)) [
  | inl p ↦ absurd (cc (h, here p))
  | inr p ↦ (p, view-Lacks n es (sym (there p) ∙ h))
]
  where
    here : same_name e.file_name n ≡ true → view (e ∷ es) n ≡ some (content_of e)
    here p = rw p refl

    there : same_name e.file_name n ≡ false → view (e ∷ es) n ≡ view es n
    there p = rw p refl

-- what `others` leaves is the map without the name
pub view-others :
    (name n : Bytes) (es : List Entry) → view (others name es) n ≡ delete name (view es) n
view-others name n [] = elim (Bool-cases (same_name name n)) [
  | inl p ↦ rw p refl
  | inr p ↦ rw p refl
]
view-others name n (e ∷ es) = elim (Bool-cases (same_name e.file_name name)) [
  | inl p ↦ elim (Bool-cases (same_name name n)) [
    | inl q ↦ rw (p, q) (view-others name n es ∙ rw q refl)
    | inr q ↦
        let d : same_name e.file_name n ≡ false =
          not_true (same_name e.file_name n)
            (λ k. cc (q, same_name_trans e.file_name name n p k)) in
        rw (p, q, d) (view-others name n es ∙ rw q refl)
  ]
  | inr p ↦ elim (Bool-cases (same_name name n)) [
    | inl q ↦
        let d : same_name e.file_name n ≡ false = not_true (same_name e.file_name n) (λ k. cc (
          p,
          same_name_trans n e.file_name name (same_name_sym e.file_name n k)
              (same_name_sym name n q),
        )) in
        rw (p, q, d) (view-others name n es ∙ rw q refl)
    | inr q ↦ elim (Bool-cases (same_name e.file_name n)) [
      | inl d ↦ rw (p, q, d) refl
      | inr d ↦ rw (p, q, d) (view-others name n es ∙ rw q refl)
    ]
  ]
]

-- behind entries that lack its name, a new entry is the map with its content
pub view-append :
    (n : Bytes) (es : List Entry) (e : Entry)
    → Lacks e.file_name es
    → view (es ++ e ∷ []) n ≡ put e.file_name (content_of e) (view es) n
view-append n [] e l = refl
view-append n (x ∷ es) e l = elim (Bool-cases (same_name x.file_name n)) [
  | inl p ↦
      let d : same_name e.file_name n ≡ false = not_true (same_name e.file_name n) (λ k. cc (
        l.0,
        same_name_trans n x.file_name e.file_name (same_name_sym x.file_name n p)
            (same_name_sym e.file_name n k),
      )) in
      rw (p, d) refl
  | inr p ↦ elim (Bool-cases (same_name e.file_name n)) [
    | inl d ↦ rw (p, d) (view-append n es e (l.1) ∙ rw d refl)
    | inr d ↦ rw (p, d) (view-append n es e (l.1) ∙ rw d refl)
  ]
]

pub All-others :
    (name : Bytes) (es : List Entry) → All IsMovable es → All IsMovable (others name es)
All-others name [] a = tt
All-others name (e ∷ es) a = elim (Bool-cases (same_name e.file_name name)) [
  | inl p ↦ rw p (All-others name es (a.1))
  | inr p ↦ rw p (a.0, All-others name es (a.1))
]

pub All-append :
    (es : List Entry) (e : Entry) → All IsMovable es → IsMovable e → All IsMovable (es ++ e ∷ [])
All-append [] e a p = (p, tt)
All-append (x ∷ es) e a p = (a.0, All-append es e (a.1) p)

-- the entry that the map has at a name
pub record IsAt (es : List Entry) (name : Bytes) (e : Entry) : Type 0 where
  pub has : view es name ≡ some (content_of e)
  pub named : same_name e.file_name name ≡ true
  pub moves : All IsMovable es → IsMovable e

-- what `find` answers
pub find_from-view :
    (i : ℕ) (name : Bytes) (es : List Entry)
    → ((find_from i name es ≡ none) × (view es name ≡ none))
      ⊎ ((j : ℕ) × (e : Entry) × (find_from i name es ≡ some (j, e)) × IsAt es name e)
unfolding find_from
find_from-view i name [] = inl (refl, refl)
find_from-view i name (e ∷ es) = elim (Bool-cases (same_name e.file_name name)) [
  | inl p ↦ inr (i, e, rw p refl, record { has = rw p refl; named = p; moves = λ a. a.0 })
  | inr p ↦ elim (find_from-view (i + 1) name es) [
    | inl (f, v) ↦ inl (rw p f, rw p v)
    | inr (j, x, f, w) ↦
        inr
          (j, x, rw p f, record { has = rw p (w.has); named = w.named; moves = λ a. w.moves (a.1) })
  ]
]
