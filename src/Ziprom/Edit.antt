-- ===== src/Ziprom/Edit.antt =====
-- ziprom.cc: add and remove, on archives that are loaded.
use mathlib.Core.Path.{subst}
use advancescan.Base.{
  >>=-eq-ok, Bool, Bool-cases, Bytes, List, Option, Option-cases, [], ap, arith, false, inl, inr,
  none, ok, refl, some, suc, sym, true, ℕ, ◌++◌, ◌+◌, ◌∙◌, ◌∷◌, ◌≡◌,
}
use advancescan.File.{same_name}
use advancescan.Zip.Archive.{System, Zip, assert, attributes_of, erase, erase_at, insert}
use advancescan.Zip.Entry.{
  Attributes, Entry, Method, entry_set, method_get, method_set, new_entry, set_info,
}
use advancescan.Zip.Entry.Local.{compressed_read}
use advancescan.Zip.Stream.{block}
use advancescan.Ziprom.{
  Ziprom, add_entry, erase_found, find_from, find_name, load_ziprom, remove_name, source_of,
  with_zip,
}
use advancescan.Ziprom.Laws.{
  IsDistinct, IsDistinct-append, Lacks, Lacks-others, erase_first, erase_first-others, others,
  others-IsDistinct,
}

-- What remove leaves of an archive: the flags and the path, and these entries.
pub record IsWith (r r1 : Ziprom) (es : List Entry) : Type 0 where
  pub entries_are : r1.zip.entries ≡ es
  pub read_is : r1.zip.is_read ≡ true
  pub path_is : r1.zip.path ≡ r.zip.path
  pub readonly_is : r1.readonly ≡ r.readonly

find_none :
    (i : ℕ) (name : Bytes) (es : List Entry) → find_from i name es ≡ none → erase_first name es ≡ es
unfolding find_from erase_first
find_none i name [] h = refl
find_none i name (e ∷ es) h = elim (Bool-cases (same_name e.file_name name)) [
  | inl p ↦ absurd (cc (h, here p))
  | inr p ↦ rw p (ap (◌∷◌ e) (find_none (i + 1) name es (sym (there p) ∙ h)))
]
  where
    here : same_name e.file_name name ≡ true → find_from i name (e ∷ es) ≡ some (i, e)
    here p = rw p refl

    there :
        same_name e.file_name name ≡ false → find_from i name (e ∷ es) ≡ find_from (i + 1) name es
    there p = rw p refl

pub find_some :
    (i : ℕ) (name : Bytes) (es : List Entry) (j : ℕ) (e : Entry)
    → find_from i name es ≡ some (j, e)
    → (k : ℕ) × (j ≡ i + k) × (erase_at k es ≡ erase_first name es)
unfolding find_from erase_first erase_at
find_some i name [] j e h = absurd cc
find_some i name (x ∷ es) j e h = elim (Bool-cases (same_name x.file_name name)) [
  | inl p ↦ let at : i ≡ j = ap place (sym (here p) ∙ h) in (0, omega (arith, at), rw p refl)
  | inr p ↦
      let (k, at, m) = find_some (i + 1) name es j e (sym (there p) ∙ h) in
      (suc k, omega (arith, at), rw p (ap (◌∷◌ x) m))
]
  where
    here : same_name x.file_name name ≡ true → find_from i name (x ∷ es) ≡ some (i, x)
    here p = rw p refl

    there :
        same_name x.file_name name ≡ false → find_from i name (x ∷ es) ≡ find_from (i + 1) name es
    there p = rw p refl

    place : Option (ℕ × Entry) → ℕ
    place none = 0
    place (some (m, y)) = m

erase_found_lem :
    (r : Ziprom) (name : Bytes)
    → r.zip.is_read ≡ true
    → (r1 : Ziprom) × (erase_found r (find_name name r) ≡ ok r1)
      × IsWith r r1 (erase_first name r.zip.entries)
unfolding erase_found find_name erase
erase_found_lem r name read = elim (Option-cases (find_from 0 name r.zip.entries)) [
  | inl f ↦ (
    r,
    rw f refl,
    record {
      entries_are = sym (find_none 0 name r.zip.entries f);
      read_is = read;
      path_is = refl;
      readonly_is = refl;
    },
  )
  | inr ((j, e), f) ↦
      let (k, at, m) = find_some 0 name r.zip.entries j e f in
      let at' : k ≡ j = omega (arith, at) in
      (
        record r { zip = record r.zip { is_modify = true; entries = erase_at j r.zip.entries } },
        rw (f, read) refl,
        record {
          entries_are = sym (ap (λ i. erase_at i r.zip.entries) at') ∙ m;
          read_is = read;
          path_is = refl;
          readonly_is = refl;
        },
      )
]

pub load_loaded :
    (pedantic : Bool) (s : System) (r : Ziprom)
    → r.zip.is_read ≡ true
    → load_ziprom pedantic s r ≡ ok r
unfolding load_ziprom
load_loaded pedantic s r read = rw read refl

-- remove, on a loaded archive whose entries have different names: it succeeds, and leaves just
-- the entries of the other names, in their order.
pub remove_name-others :
    (pedantic : Bool) (s : System) (name : Bytes) (r : Ziprom)
    → r.zip.is_read ≡ true
    → IsDistinct r.zip.entries
    → (r1 : Ziprom) × (remove_name pedantic s name r ≡ ok r1)
      × IsWith r r1 (others name r.zip.entries)
unfolding remove_name
remove_name-others pedantic s name r read d =
    let (r1, p, w) = erase_found_lem r name read in
    let all = erase_first-others name r.zip.entries d in
    (
      r1,
      rw (load_loaded pedantic s r read) p,
      record {
        entries_are = w.entries_are ∙ all;
        read_is = w.read_is;
        path_is = w.path_is;
        readonly_is = w.readonly_is;
      },
    )

entry_set_name :
    (m : Method) (name bytes : Bytes) (a : Attributes) (e0 e : Entry)
    → entry_set m name bytes a e0 ≡ ok e
    → e.file_name ≡ name
unfolding entry_set
entry_set_name m name bytes a e0 e h =
    let (i, p, q) = >>=-eq-ok (method_set m (set_info a e0.info)) _ h in
    let (copy, p1, q1) = >>=-eq-ok (block bytes a.compsize) _ q in sym (cc q1)

insert_ok :
    (pedantic : Bool) (a : Entry) (source : Option Bytes) (name : Bytes) (z z1 : Zip)
    → insert pedantic a source name z ≡ ok z1
    → (e : Entry) × (z1.entries ≡ z.entries ++ e ∷ []) × (e.file_name ≡ name)
unfolding insert
insert_ok pedantic a source name z z1 h =
    let (u, p, q) = >>=-eq-ok (assert z.is_read) _ h in
    let (bytes, p1, q1) = >>=-eq-ok (compressed_read pedantic a source) _ q in
    let (e, p2, q2) =
      >>=-eq-ok (entry_set (method_get a.info) name bytes (attributes_of a) (new_entry z.path)) _
        q1 in
    (
      e,
      cc q2,
      entry_set_name (method_get a.info) name bytes (attributes_of a) (new_entry z.path) e p2,
    )

-- add, on a loaded archive whose entries have different names: where it succeeds, the archive
-- has the entries of the other names, and behind them one of the new name; the names are
-- different again.
pub add_entry-IsDistinct :
    (pedantic : Bool) (s : System) (a : Entry) (name : Bytes) (r r1 : Ziprom)
    → r.zip.is_read ≡ true
    → IsDistinct r.zip.entries
    → add_entry pedantic s a name r ≡ ok r1
    → IsDistinct r1.zip.entries
      × ((e : Entry) × (r1.zip.entries ≡ others name r.zip.entries ++ e ∷ [])
          × (e.file_name ≡ name))
unfolding add_entry
add_entry-IsDistinct pedantic s a name r r1 read d h =
    let (r2, p, w) = remove_name-others pedantic s name r read d in
    let h1 : with_zip r2 (insert pedantic a (source_of s a) name r2.zip) ≡ ok r1 =
      sym (rw (load_loaded pedantic s r read, p) refl) ∙ h in
    let (z, q, t) =
      >>=-eq-ok (insert pedantic a (source_of s a) name r2.zip) (λ z. ok (record r2 { zip = z }))
        h1 in
    let (e, es, n) = insert_ok pedantic a (source_of s a) name r2.zip z q in
    let all : r1.zip.entries ≡ others name r.zip.entries ++ e ∷ [] = cc (t, es, w.entries_are) in
    let l = Lacks-others name r.zip.entries in
    (
      subst IsDistinct (sym all) (
          IsDistinct-append (others name r.zip.entries) e (others-IsDistinct name r.zip.entries d)
            (subst (λ x. Lacks x (others name r.zip.entries)) (sym n) l)),
      (e, all, n),
    )
