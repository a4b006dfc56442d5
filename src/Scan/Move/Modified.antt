-- ===== src/Scan/Move/Modified.antt =====
-- scan.cc: what the loop of rom_move has changed is marked as modified.
use mathlib.Core.Path.{subst}
use advancescan.Base.{
  >>=-eq-ok, Bool, Bool-cases, Bytes, List, Option, Option-cases, Result, [], ap, err, false,
  if◌then◌else◌, inl, inr, none, not, ok, some, sym, true, ℕ, ◌>>=◌, ◌∙◌, ◌∷◌, ◌≡◌,
}
use advancescan.Rom.{Rom}
use advancescan.Scan.Fix.{remove_all_to}
use advancescan.Zip.Archive.{
  System, Zip, append_entry, assert, attributes_of, erase, erase_at, insert,
}
use advancescan.Zip.Entry.{Entry, entry_set, method_get, new_entry}
use advancescan.Zip.Entry.Local.{compressed_read}
use advancescan.Ziprom.{
  Ziprom, find_name, load_ziprom, move, move_found, move_if_found, remove_name, remove_to,
  source_of,
}
use advancescan.Ziprom.Edit.{load_loaded}

-- the archive is loaded, and both archives are marked as modified
pub record AreModified (p : Ziprom × Ziprom) : Type 0 where
  pub own_read : p.0.zip.is_read ≡ true
  pub own_modify : p.0.zip.is_modify ≡ true
  pub rejected_modify : p.1.zip.is_modify ≡ true

-- the archive that a call returns
abbrev zip_or : Zip → Result Zip → Zip
zip_or z (ok y) = y
zip_or z (err e) = z

abbrev pair_or : Ziprom × Ziprom → Result (Ziprom × Ziprom) → Ziprom × Ziprom
pair_or p (ok q) = q
pair_or p (err e) = p

insert-modify :
    (pedantic : Bool) (a : Entry) (source : Option Bytes) (name : Bytes) (z y : Zip)
    → insert pedantic a source name z ≡ ok y
    → y.is_modify ≡ true
unfolding insert
insert-modify pedantic a source name z y h =
    let place = λ (e : Entry). ok (append_entry e z) in
    let set = λ (bytes : Bytes).
      entry_set (method_get a.info) name bytes (attributes_of a) (new_entry z.path) in
    let read = compressed_read pedantic a source in
    let (u, p, h1) =
      >>=-eq-ok (assert z.is_read) (λ done. read >>= λ bytes. set bytes >>= place) h in
    let (bytes, p1, h2) = >>=-eq-ok read (λ bytes. set bytes >>= place) h1 in
    let (e, p2, h3) = >>=-eq-ok (set bytes) place h2 in sym (ap (λ m. (zip_or z m).is_modify) h3)

erase-modify : (i : ℕ) (z y : Zip) → erase i z ≡ ok y → (y.is_read ≡ true) × (y.is_modify ≡ true)
unfolding erase
erase-modify i z y h = elim (Bool-cases z.is_read) [
  | inl r ↦
      let changed = record z { is_modify = true; entries = erase_at i z.entries } in
      let (u, p, h1) = >>=-eq-ok (assert z.is_read) (λ done. ok changed) h in
      (sym (ap (λ m. (zip_or z m).is_read) h1) ∙ r, sym (ap (λ m. (zip_or z m).is_modify) h1))
  | inr r ↦ absurd (cc (rw r at h))
]

move_found-modify :
    (pedantic : Bool) (s : System) (o : Option (ℕ × Entry)) (name : Bytes) (z q : Ziprom)
    (p : Ziprom × Ziprom)
    → move_found pedantic s o name z q ≡ ok p
    → AreModified p
unfolding move_found
move_found-modify pedantic s none name z q p h = cc h
move_found-modify pedantic s (some (i, e)) name z q p h =
    let pair : Zip → Zip → Result (Ziprom × Ziprom) =
      λ y x. ok (record z { zip = x }, record q { zip = y }) in
    let placed = insert pedantic e (source_of s e) name q.zip in
    let (y, a, h1) = >>=-eq-ok placed (λ y. erase i z.zip >>= pair y) h in
    let (x, b, h2) = >>=-eq-ok (erase i z.zip) (pair y) h1 in
    let (r, m) = erase-modify i z.zip x b in
    let same = ap (λ t. pair_or p t) h2 in
    record {
      own_read = sym (ap (λ t. t.0.zip.is_read) same) ∙ r;
      own_modify = sym (ap (λ t. t.0.zip.is_modify) same) ∙ m;
      rejected_modify =
          sym (ap (λ t. t.1.zip.is_modify) same)
          ∙ insert-modify pedantic e (source_of s e) name q.zip y a;
    }

move-modify :
    (pedantic : Bool) (s : System) (name : Bytes) (z q : Ziprom) (p : Ziprom × Ziprom)
    → move pedantic s name name z q ≡ ok p
    → AreModified p
unfolding move
move-modify pedantic s name z q p h =
    let go = λ (z1 q2 : Ziprom). move_found pedantic s (find_name name z1) name z1 q2 in
    let clear = λ (z1 q1 : Ziprom). remove_name pedantic s name q1 >>= go z1 in
    let (z1, a, h1) =
      >>=-eq-ok (load_ziprom pedantic s z) (λ z1. load_ziprom pedantic s q >>= clear z1) h in
    let (q1, b, h2) = >>=-eq-ok (load_ziprom pedantic s q) (clear z1) h1 in
    let (q2, c, h3) = >>=-eq-ok (remove_name pedantic s name q1) (go z1) h2 in
    move_found-modify pedantic s (find_name name z1) name z1 q2 p h3

-- what is found is moved
remove_to-found :
    (pedantic : Bool) (s : System) (name : Bytes) (f : ℕ × Entry) (z q : Ziprom)
    (p : Ziprom × Ziprom)
    → z.zip.is_read ≡ true
    → find_name name z ≡ some f
    → remove_to pedantic s name z q ≡ ok p
    → AreModified p
unfolding remove_to move_if_found
remove_to-found pedantic s name f z q p r found h =
    move-modify pedantic s name z q p (rw (load_loaded pedantic s z r, found) at h)

remove_to-modify :
    (pedantic : Bool) (s : System) (name : Bytes) (z q : Ziprom) (p : Ziprom × Ziprom)
    → AreModified (z, q)
    → remove_to pedantic s name z q ≡ ok p
    → AreModified p
unfolding remove_to move_if_found
remove_to-modify pedantic s name z q p m h = elim (Option-cases (find_name name z)) [
  | inr (f, found) ↦ remove_to-found pedantic s name f z q p m.own_read found h
  | inl absent ↦
      subst (λ t. AreModified t)
        (ap (λ t. pair_or p t) (rw (load_loaded pedantic s z m.own_read, absent) at h)) m
]

remove_if-modify :
    (readonly pedantic : Bool) (s : System) (name : Bytes) (z q : Ziprom) (p : Ziprom × Ziprom)
    → AreModified (z, q)
    → (if not readonly then remove_to pedantic s name z q else ok (z, q)) ≡ ok p
    → AreModified p
remove_if-modify false pedantic s name z q p m h = remove_to-modify pedantic s name z q p m h
remove_if-modify true pedantic s name z q p m h =
    subst (λ t. AreModified t) (ap (λ t. pair_or p t) h) m

remove_all_to-modify :
    (pedantic : Bool) (s : System) (rs : List Rom) (z q : Ziprom) (p : Ziprom × Ziprom)
    → AreModified (z, q)
    → remove_all_to true pedantic s rs z q ≡ ok p
    → AreModified p
unfolding remove_all_to
remove_all_to-modify pedantic s [] z q p m h =
    subst (λ t. AreModified t) (ap (λ t. pair_or p t) h) m
remove_all_to-modify pedantic s (i ∷ rs) z q p m h =
    let first = if not z.readonly then remove_to pedantic s i.name z q else ok (z, q) in
    let (t, e, h1) = >>=-eq-ok first (λ t. remove_all_to true pedantic s rs (t.0) (t.1)) h in
    remove_all_to-modify pedantic s rs (t.0) (t.1) p
      (remove_if-modify z.readonly pedantic s i.name z q t m e) h1

remove_if-found :
    (readonly pedantic : Bool) (s : System) (name : Bytes) (f : ℕ × Entry) (z q : Ziprom)
    (p : Ziprom × Ziprom)
    → readonly ≡ false
    → z.zip.is_read ≡ true
    → find_name name z ≡ some f
    → (if not readonly then remove_to pedantic s name z q else ok (z, q)) ≡ ok p
    → AreModified p
remove_if-found true pedantic s name f z q p w r found h = cc w
remove_if-found false pedantic s name f z q p w r found h =
    remove_to-found pedantic s name f z q p r found h

-- The loop of rom_move, where it finds its first rom, marks both archives.
pub remove_all_to-AreModified :
    (pedantic : Bool) (s : System) (i : Rom) (rs : List Rom) (f : ℕ × Entry) (z q : Ziprom)
    (p : Ziprom × Ziprom)
    → z.readonly ≡ false
    → z.zip.is_read ≡ true
    → find_name i.name z ≡ some f
    → remove_all_to true pedantic s (i ∷ rs) z q ≡ ok p
    → AreModified p
unfolding remove_all_to
remove_all_to-AreModified pedantic s i rs f z q p w r found h =
    let first = if not z.readonly then remove_to pedantic s i.name z q else ok (z, q) in
    let (t, e, h1) = >>=-eq-ok first (λ t. remove_all_to true pedantic s rs (t.0) (t.1)) h in
    remove_all_to-modify pedantic s rs (t.0) (t.1) p
      (remove_if-found z.readonly pedantic s i.name f z q t w r found e) h1
