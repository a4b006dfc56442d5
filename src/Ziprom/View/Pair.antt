-- ===== src/Ziprom/View/Pair.antt =====
-- ziprom.cc: an archive and its reject archive as a pair of maps.
use mathlib.Core.Path.{subst}
use advancescan.Base.{
  Bool, Bytes, List, Option, Result, [], inl, inr, none, ok, refl, some, sym, ℕ, ◌>>=◌, ◌∙◌, ◌∷◌,
  ◌≡◌,
}
use advancescan.Zip.Archive.{System}
use advancescan.Zip.Archive.Save.Layout.{All}
use advancescan.Zip.Entry.{Entry}
use advancescan.Ziprom.{
  Ziprom, add_entry, add_entry_to, find_name, move, move_found, move_if_found, remove_name,
  remove_to, source_of,
}
use advancescan.Ziprom.Edit.{load_loaded}
use advancescan.Ziprom.Laws.{same_name_iff}
use advancescan.Ziprom.View.{
  Content, FileMap, IsAt, IsMovable, IsName, content_of, delete, find_from-view, put, view,
  view-Lacks,
}
use advancescan.Ziprom.View.Calls.{
  Becomes, add_entry-put, delete_same, erase-delete, insert-put, put-delete, put_same,
  remove_name-delete,
}

-- An archive, and the one that its files go to when they are replaced.
pub record Maps : Type 0 where
  pub own : FileMap
  pub rejected : FileMap

abbrev pub set_aside_found : Bytes → Option Content → Maps → Maps
set_aside_found name none m = m
set_aside_found name (some c) m = record {
  own = delete name m.own;
  rejected = put name c m.rejected;
}

-- a file, if it is there, goes to the other map
abbrev pub set_aside : Bytes → Maps → Maps
set_aside name m = set_aside_found name (m.own name) m

-- The calls of add and remove, the two with a reject archive also.
pub data Call : Type 0 where
  removes : Bytes → Call
  removes_to : Bytes → Call
  adds : Entry → Bytes → Call
  adds_to : Entry → Bytes → Call

-- what a call does to the maps
abbrev pub spec : Call → Maps → Maps
spec (removes name) m = record m { own = delete name m.own }
spec (removes_to name) m = set_aside name m
spec (adds e name) m = record m { own = put name (content_of e) m.own }
spec (adds_to e name) m =
    let m' = set_aside name m in record m' { own = put name (content_of e) m'.own }

abbrev pub spec_all : List Call → Maps → Maps
spec_all [] m = m
spec_all (c ∷ cs) m = spec_all cs (spec c m)

-- the same call of the code
abbrev pub call : Bool → System → Call → Ziprom × Ziprom → Result (Ziprom × Ziprom)
call pedantic s (removes name) (r, q) = remove_name pedantic s name r >>= λ r1. ok (r1, q)
call pedantic s (removes_to name) (r, q) = remove_to pedantic s name r q
call pedantic s (adds e name) (r, q) = add_entry pedantic s e name r >>= λ r1. ok (r1, q)
call pedantic s (adds_to e name) (r, q) = add_entry_to pedantic s e name r q

unfoldable pub call_all : Bool → System → List Call → Ziprom × Ziprom → Result (Ziprom × Ziprom)
call_all pedantic s [] p = ok p
call_all pedantic s (c ∷ cs) p = call pedantic s c p >>= call_all pedantic s cs

-- names that fit, and entries that can be inserted
abbrev pub IsCall : Call → Type 0
IsCall (removes name) = Unit
IsCall (removes_to name) = IsName name
IsCall (adds e name) = IsMovable e × IsName name
IsCall (adds_to e name) = IsMovable e × IsName name

-- both archives are sound, and hold these maps; they were made of the archives `o`
pub record Holds (o p : Ziprom × Ziprom) (m : Maps) : Type 0 where
  pub own_is : Becomes (o.0) (p.0) m.own
  pub rejected_is : Becomes (o.1) (p.1) m.rejected

move_loaded :
    {o : Ziprom × Ziprom} (pedantic : Bool) (s : System) (name : Bytes) (r q : Ziprom) (m : Maps)
    (j : ℕ) (e : Entry)
    → Holds o (r, q) m
    → IsName name
    → find_name name r ≡ some (j, e)
    → IsAt r.zip.entries name e
    → (p : Ziprom × Ziprom) × (move pedantic s name name r q ≡ ok p)
      × Holds o p
          (record { own = delete name m.own; rejected = put name (content_of e) m.rejected })
unfolding move move_found
move_loaded pedantic s name r q m j e h n f w =
    let v = h.own_is.sound in
    let u = h.rejected_is.sound in
    let (q1, p1, b, l) = remove_name-delete pedantic s name q u in
    let (y, p2, c) =
      insert-put pedantic e (source_of s e) name q1 b.sound l (w.moves v.movable) n in
    let (z, p3, d) = erase-delete r name j e v f in
    (
      (record r { zip = z }, record q1 { zip = y }),
      rw (load_loaded pedantic s r v.loaded, load_loaded pedantic s q u.loaded, p1, f)
          (rw (p2, p3) refl),
      record {
        own_is = record {
          sound = d.sound;
          path_is = d.path_is ∙ h.own_is.path_is;
          readonly_is = d.readonly_is ∙ h.own_is.readonly_is;
          view_is =
              λ x. d.view_is x ∙ delete_same name x (view r.zip.entries) m.own (h.own_is.view_is x);
        };
        rejected_is = record {
          sound = c.sound;
          path_is = c.path_is ∙ b.path_is ∙ h.rejected_is.path_is;
          readonly_is = c.readonly_is ∙ b.readonly_is ∙ h.rejected_is.readonly_is;
          view_is = λ x.
              c.view_is x
              ∙ put_same name x (content_of e) (view q1.zip.entries)
                  (delete name (view q.zip.entries)) (b.view_is x)
              ∙ put-delete name x (content_of e) (view q.zip.entries)
              ∙ put_same name x (content_of e) (view q.zip.entries) m.rejected
                  (h.rejected_is.view_is x);
        };
      },
    )

pub remove_to-set_aside :
    {o : Ziprom × Ziprom} (pedantic : Bool) (s : System) (name : Bytes) (r q : Ziprom) (m : Maps)
    → Holds o (r, q) m
    → IsName name
    → (p : Ziprom × Ziprom) × (remove_to pedantic s name r q ≡ ok p) × Holds o p (set_aside name m)
unfolding remove_to move_if_found find_name
remove_to-set_aside {o} pedantic s name r q m h n =
    let v = h.own_is.sound in
    elim (find_from-view 0 name r.zip.entries) [
      | inl (f, w) ↦
          let absent : m.own name ≡ none = sym (h.own_is.view_is name) ∙ w in
          (
            (r, q),
            rw (load_loaded pedantic s r v.loaded, f) refl,
            subst (λ w. Holds o (r, q) (set_aside_found name w m)) (sym absent) h,
          )
      | inr (j, e, f, w) ↦
          let there : m.own name ≡ some (content_of e) = sym (h.own_is.view_is name) ∙ w.has in
          let (p, moved, k) = move_loaded pedantic s name r q m j e h n f w in
          (
            p,
            rw (load_loaded pedantic s r v.loaded, f) moved,
            subst (λ w. Holds o p (set_aside_found name w m)) (sym there) k,
          )
    ]

set_aside_gone : (name : Bytes) (m : Maps) → (set_aside name m).own name ≡ none
set_aside_gone name m = go (m.own name) refl
  where
    go : (o : Option Content) → m.own name ≡ o → (set_aside_found name o m).own name ≡ none
    go none e = e
    go (some c) e = rw ((same_name_iff name name).1 refl) refl

add_entry_to-spec :
    {o : Ziprom × Ziprom} (pedantic : Bool) (s : System) (a : Entry) (name : Bytes) (r q : Ziprom)
    (m : Maps)
    → Holds o (r, q) m
    → IsMovable a
    → IsName name
    → (p : Ziprom × Ziprom) × (add_entry_to pedantic s a name r q ≡ ok p)
      × Holds o p (spec (adds_to a name) m)
unfolding add_entry_to
add_entry_to-spec pedantic s a name r q m h v n =
    let ((r1, q1), moved, k) = remove_to-set_aside pedantic s name r q m h n in
    let l = view-Lacks name r1.zip.entries (k.own_is.view_is name ∙ set_aside_gone name m) in
    let (z, p, c) = insert-put pedantic a (source_of s a) name r1 k.own_is.sound l v n in
    (
      (record r1 { zip = z }, q1),
      rw (load_loaded pedantic s r h.own_is.sound.loaded, moved) (rw p refl),
      record {
        own_is = record {
          sound = c.sound;
          path_is = c.path_is ∙ k.own_is.path_is;
          readonly_is = c.readonly_is ∙ k.own_is.readonly_is;
          view_is = λ x.
              c.view_is x
              ∙ put_same name x (content_of a) (view r1.zip.entries) (set_aside name m).own
                  (k.own_is.view_is x);
        };
        rejected_is = k.rejected_is;
      },
    )

call-spec :
    {o : Ziprom × Ziprom} (pedantic : Bool) (s : System) (c : Call) (r q : Ziprom) (m : Maps)
    → Holds o (r, q) m
    → IsCall c
    → (p : Ziprom × Ziprom) × (call pedantic s c (r, q) ≡ ok p) × Holds o p (spec c m)
call-spec pedantic s (removes name) r q m h v =
    let (r1, p, b, l) = remove_name-delete pedantic s name r h.own_is.sound in
    (
      (r1, q),
      rw p refl,
      record {
        own_is = record {
          sound = b.sound;
          path_is = b.path_is ∙ h.own_is.path_is;
          readonly_is = b.readonly_is ∙ h.own_is.readonly_is;
          view_is =
              λ x. b.view_is x ∙ delete_same name x (view r.zip.entries) m.own (h.own_is.view_is x);
        };
        rejected_is = h.rejected_is;
      },
    )
call-spec pedantic s (removes_to name) r q m h v = remove_to-set_aside pedantic s name r q m h v
call-spec pedantic s (adds e name) r q m h v =
    let (r1, p, b) = add_entry-put pedantic s e name r h.own_is.sound (v.0) (v.1) in
    (
      (r1, q),
      rw p refl,
      record {
        own_is = record {
          sound = b.sound;
          path_is = b.path_is ∙ h.own_is.path_is;
          readonly_is = b.readonly_is ∙ h.own_is.readonly_is;
          view_is = λ x.
              b.view_is x
              ∙ put_same name x (content_of e) (view r.zip.entries) m.own (h.own_is.view_is x);
        };
        rejected_is = h.rejected_is;
      },
    )
call-spec pedantic s (adds_to e name) r q m h v =
    add_entry_to-spec pedantic s e name r q m h (v.0) (v.1)

-- No sequence of calls of add and remove, with or without the reject archive, tells two loaded
-- archives, whose names differ in either case and whose data is in memory, from two maps from
-- names to contents: every call succeeds and does what it does to the maps, where the names fit
-- and the entries can be inserted.
pub call_all-spec_all :
    {o : Ziprom × Ziprom} (pedantic : Bool) (s : System) (cs : List Call) (r q : Ziprom) (m : Maps)
    → Holds o (r, q) m
    → All IsCall cs
    → (p : Ziprom × Ziprom) × (call_all pedantic s cs (r, q) ≡ ok p) × Holds o p (spec_all cs m)
unfolding call_all
call_all-spec_all pedantic s [] r q m h v = ((r, q), refl, h)
call_all-spec_all pedantic s (c ∷ cs) r q m h v =
    let ((r1, q1), p, k) = call-spec pedantic s c r q m h (v.0) in
    let (t, u, w) = call_all-spec_all pedantic s cs r1 q1 (spec c m) k (v.1) in (t, rw p u, w)
