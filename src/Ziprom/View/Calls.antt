-- ===== src/Ziprom/View/Calls.antt =====
-- ziprom.cc: each call of a ziprom as an operation of the maps.
use advancescan.Base.{
  Bool, Bool-cases, Bytes, Option, [], ap, arith, if◌then◌else◌, inl, inr, length, none, ok, refl,
  some, sym, true, ℕ, ◌++◌, ◌∙◌, ◌∷◌, ◌≡◌,
}
use advancescan.File.{same_name}
use advancescan.Zip.Archive.{System, Zip, attributes_of, erase, erase_at, insert}
use advancescan.Zip.Archive.Edit.{Copies, InRange, insert-appends}
use advancescan.Zip.Archive.Save.Layout.{All, data_of}
use advancescan.Zip.Entry.{Entry, Info, Method, deflate0, deflate2, method_get, store, unknown}
use advancescan.Zip.Entry.Local.{compressed_read}
use advancescan.Zip.Entry.Methods.{Settable, stored_method}
use advancescan.Zip.Stream.Laws.{block_all}
use advancescan.Ziprom.{Ziprom, add_entry, find_name, remove_name, source_of}
use advancescan.Ziprom.Edit.{find_some, load_loaded, remove_name-others}
use advancescan.Ziprom.Laws.{
  IsDistinct, IsDistinct-append, Lacks, Lacks-others, erase_first-others, others, others-IsDistinct,
}
use advancescan.Ziprom.View.{
  All-append, All-others, Content, FileMap, IsMovable, IsName, IsSound, content_of, delete, put,
  view, view-append, view-others,
}
use mathlib.Core.Path.{subst}

-- what a call leaves of an archive `o`: sound, with this map, its path and its mark
pub record Becomes (o r : Ziprom) (m : FileMap) : Type 0 where
  pub sound : IsSound r
  pub path_is : r.zip.path ≡ o.zip.path
  pub readonly_is : r.readonly ≡ o.readonly
  pub view_is : (n : Bytes) → view r.zip.entries n ≡ m n

-- remove deletes the name from the map.
pub remove_name-delete :
    (pedantic : Bool) (s : System) (name : Bytes) (r : Ziprom)
    → IsSound r
    → (r1 : Ziprom) × (remove_name pedantic s name r ≡ ok r1)
      × Becomes r r1 (delete name (view r.zip.entries))
      × Lacks name r1.zip.entries
remove_name-delete pedantic s name r v =
    let (r1, p, w) = remove_name-others pedantic s name r v.loaded v.distinct in
    let es = sym w.entries_are in
    (
      r1,
      p,
      record {
        sound = record {
          loaded = w.read_is;
          distinct = subst IsDistinct es (others-IsDistinct name r.zip.entries v.distinct);
          movable = subst (All IsMovable) es (All-others name r.zip.entries v.movable);
        };
        path_is = w.path_is;
        readonly_is = w.readonly_is;
        view_is = λ n. ap (λ l. view l n) w.entries_are ∙ view-others name n r.zip.entries;
      },
      subst (Lacks name) es (Lacks-others name r.zip.entries),
    )

stored_method_twice : (m : Method) → stored_method (stored_method m) ≡ stored_method m
stored_method_twice deflate2 = refl
stored_method_twice _ = refl

stored-Settable :
    (m : Method) (i j : Info)
    → Settable m i
    → i.uncompressed_size ≡ j.uncompressed_size
    → i.compressed_size ≡ j.compressed_size
    → Settable (stored_method m) j
stored-Settable unknown i j s u c = absurd (s.0 refl)
stored-Settable deflate0 i j s u c = absurd (s.1 refl)
stored-Settable store i j s u c = ((λ h. cc), (λ h. cc), (λ h. sym u ∙ s.2 refl ∙ c))
stored-Settable deflate2 i j s u c = ((λ h. cc), (λ h. cc), (λ h. absurd cc))
stored-Settable _ i j s u c = ((λ h. cc), (λ h. cc), (λ h. absurd cc))

-- an inserted entry is movable again, with the same content
Copies-content :
    (a e : Entry) (name : Bytes)
    → IsMovable a
    → IsName name
    → Copies a e name (data_of a)
    → method_get e.info ≡ stored_method (method_get a.info)
    → (content_of e ≡ content_of a) × IsMovable e
Copies-content a e name v n c m =
    let d : data_of e ≡ data_of a = rw (c.data_is) refl in
    (
      cc (
        d,
        c.crc_is,
        c.size_is,
        c.date_is,
        c.time_is,
        ap stored_method m,
        stored_method_twice (method_get a.info),
      ),
      record {
        in_memory = c.data_is ∙ ap some (sym d);
        size_is = c.compressed_is ∙ v.size_is ∙ ap length (sym d);
        settable =
            subst (λ k. Settable k e.info) (sym m)
              (stored-Settable (method_get a.info) a.info e.info v.settable (sym c.size_is)
                (sym c.compressed_is));
        in_range = record {
          name_pos = omega (arith, n.0, ap length c.name_is);
          name_lt = omega (arith, n.1, ap length c.name_is);
          size_lt = omega (arith, c.size_is, v.in_range.size_lt);
          compsize_lt = omega (arith, c.compressed_is, v.in_range.compsize_lt);
          crc_lt = omega (arith, c.crc_is, v.in_range.crc_lt);
          date_lt = omega (arith, c.date_is, v.in_range.date_lt);
          time_lt = omega (arith, c.time_is, v.in_range.time_lt);
        };
      },
    )

compressed_read-memory :
    (pedantic : Bool) (a : Entry) (source : Option Bytes)
    → IsMovable a
    → compressed_read pedantic a source ≡ ok (data_of a)
unfolding compressed_read
compressed_read-memory pedantic a source v =
    rw (v.in_memory, compressed_read) (block_all (data_of a) a.info.compressed_size v.size_is)

-- insert, where no entry has the name, puts the content at the name.
pub insert-put :
    (pedantic : Bool) (a : Entry) (source : Option Bytes) (name : Bytes) (r : Ziprom)
    → IsSound r
    → Lacks name r.zip.entries
    → IsMovable a
    → IsName name
    → (z : Zip) × (insert pedantic a source name r.zip ≡ ok z)
      × Becomes r (record r { zip = z }) (put name (content_of a) (view r.zip.entries))
insert-put pedantic a source name r v l m n =
    let q = m.in_range in
    let fits : InRange (attributes_of a) name = record {
      name_pos = n.0;
      name_lt = n.1;
      size_lt = q.size_lt;
      compsize_lt = q.compsize_lt;
      crc_lt = q.crc_lt;
      date_lt = q.date_lt;
      time_lt = q.time_lt;
    } in
    let (e, p, c, k, g) =
      insert-appends pedantic a source name (data_of a) r.zip v.loaded
        (compressed_read-memory pedantic a source m) m.size_is m.settable fits in
    let (same, moves) = Copies-content a e name m n c g in
    let l' : Lacks e.file_name r.zip.entries =
      subst (λ x. Lacks x r.zip.entries) (sym c.name_is) l in
    (
      record r.zip { entries = r.zip.entries ++ e ∷ []; is_modify = true },
      p,
      record {
        sound = record {
          loaded = v.loaded;
          distinct = IsDistinct-append r.zip.entries e v.distinct l';
          movable = All-append r.zip.entries e v.movable moves;
        };
        path_is = refl;
        readonly_is = refl;
        view_is = λ x.
            view-append x r.zip.entries e l'
            ∙ ap (λ y. put y (content_of e) (view r.zip.entries) x) c.name_is
            ∙ ap (λ y. put name y (view r.zip.entries) x) same;
      },
    )

pub put-delete :
    (name n : Bytes) (c : Content) (m : FileMap) → put name c (delete name m) n ≡ put name c m n
put-delete name n c m = elim (Bool-cases (same_name name n)) [
  | inl p ↦ rw p refl
  | inr p ↦ rw p refl
]

pub put_same :
    (name n : Bytes) (c : Content) (m m' : FileMap) → m n ≡ m' n → put name c m n ≡ put name c m' n
put_same name n c m m' e = ap (λ y. if same_name name n then some c else y) e

pub delete_same :
    (name n : Bytes) (m m' : FileMap) → m n ≡ m' n → delete name m n ≡ delete name m' n
delete_same name n m m' e = ap (λ y. if same_name name n then none else y) e

-- add puts the content at the name.
pub add_entry-put :
    (pedantic : Bool) (s : System) (a : Entry) (name : Bytes) (r : Ziprom)
    → IsSound r
    → IsMovable a
    → IsName name
    → (r1 : Ziprom) × (add_entry pedantic s a name r ≡ ok r1)
      × Becomes r r1 (put name (content_of a) (view r.zip.entries))
unfolding add_entry
add_entry-put pedantic s a name r v m n =
    let (r1, p, b, l) = remove_name-delete pedantic s name r v in
    let (z, q, c) = insert-put pedantic a (source_of s a) name r1 b.sound l m n in
    (
      record r1 { zip = z },
      rw (load_loaded pedantic s r v.loaded, p) (rw q refl),
      record {
        sound = c.sound;
        path_is = c.path_is ∙ b.path_is;
        readonly_is = b.readonly_is;
        view_is = λ x.
            c.view_is x
            ∙ put_same name x (content_of a) (view r1.zip.entries)
                (delete name (view r.zip.entries)) (b.view_is x)
            ∙ put-delete name x (content_of a) (view r.zip.entries);
      },
    )

-- `erase` of the entry that find answers deletes its name.
pub erase-delete :
    (r : Ziprom) (name : Bytes) (j : ℕ) (e : Entry)
    → IsSound r
    → find_name name r ≡ some (j, e)
    → (z : Zip) × (erase j r.zip ≡ ok z)
      × Becomes r (record r { zip = z }) (delete name (view r.zip.entries))
unfolding erase find_name
erase-delete r name j e v f =
    let es = r.zip.entries in
    let (k, at, m) = find_some 0 name es j e f in
    let at' : k ≡ j = omega (arith, at) in
    let all : erase_at j es ≡ others name es =
      sym (ap (λ i. erase_at i es) at') ∙ m ∙ erase_first-others name es v.distinct in
    (
      record r.zip { is_modify = true; entries = erase_at j es },
      rw (v.loaded) refl,
      record {
        sound = record {
          loaded = v.loaded;
          distinct = subst IsDistinct (sym all) (others-IsDistinct name es v.distinct);
          movable = subst (All IsMovable) (sym all) (All-others name es v.movable);
        };
        path_is = refl;
        readonly_is = refl;
        view_is = λ n. ap (λ l. view l n) all ∙ view-others name n es;
      },
    )
