-- ===== src/Zip/Archive/Load/RoundTrip.antt =====
-- zip.cc: zip::load of an archive that zip::save wrote.
use advancescan.Base.{
  Bool, Bytes, List, Result, [], ap, append_assoc, arith, failed, false, leb, length, length-append,
  le→ltb, ltb, lt→ltb, map, none, ok, refl, set, some, suc, true, zero, ℕ, ◌%◌, ◌&&◌, ◌++◌, ◌+◌,
  ◌-◌, ◌<◌, ◌∙◌, ◌∷◌, ◌≡◌, ◌≤◌,
}
use advancescan.Zip.Archive.{Zip}
use advancescan.Zip.Archive.Directory.RoundTrip.{reopened}
use advancescan.Zip.Archive.Load.{
  Loading, end_offset, get_elem?, load_content, load_entry, load_loop, search,
}
use advancescan.Zip.Archive.Load.Search.{
  All-map, end_offset_last, end_offset_next, offset_of, search_next,
}
use advancescan.Zip.Archive.Save.Layout.{
  All, IsKept, all_locals, archive_bytes, data_of, directory_bytes, entry_bytes, placed-IsStored,
  placed_all,
}
use advancescan.Zip.Entry.{Entry, new_entry}
use advancescan.Zip.Entry.Local.{local_header}
use advancescan.Zip.Entry.Local.RoundTrip.{
  length-local_bytes, length-local_header, load_local-local_bytes, local_header-placed, local_tail,
  placed,
}
use advancescan.Zip.Format.{lo_fixed}
use advancescan.Zip.Stream.Laws.{fread-append}

-- An entry as zip::load leaves it: read from the directory, with its data.
abbrev pub reloaded : Bytes → Entry → Entry
reloaded parent e = record (reopened parent e) { compdata = some (data_of e) }

-- The offsets of entries that are placed from `pos` on.
placed_from :
    (es : List Entry) (parent : Bytes) (low pos : ℕ)
    → low ≤ pos
    → pos + length (all_locals es) < 4294967296
    → All (λ e. low ≤ offset_of e) (map (reopened parent) (placed_all pos es))
unfolding placed_all all_locals
placed_from [] parent low pos le lt = tt
placed_from (e ∷ es) parent low pos le lt =
    let n = length-append (entry_bytes e) (all_locals es) in
    (
      omega arith,
      placed_from es parent low (pos + length (entry_bytes e)) (omega arith) (omega arith),
    )

-- Where the entry at `pos` ends, among its fellows.
end_offset-placed :
    (es xs : List Entry) (h : Entry) (parent : Bytes) (pos next : ℕ)
    → All (λ e. offset_of e < pos) xs
    → offset_of h ≡ pos
    → pos < next
    → next + length (all_locals es) < 4294967296
    → end_offset
        (next + length (all_locals es))
        (xs ++ (h ∷ map (reopened parent) (placed_all next es)))
        pos
      ≡ next
unfolding placed_all all_locals
end_offset-placed [] xs h parent pos next hx hh lt small =
    end_offset_last xs h pos (next + 0) hx hh ∙ omega arith
end_offset-placed (e ∷ es) xs h parent pos next hx hh lt small =
    let n = length-append (entry_bytes e) (all_locals es) in
    let here : next % 4294967296 ≡ next = omega arith in
    end_offset_next xs (map (reopened parent) (placed_all (next + length (entry_bytes e)) es)) h
      (reopened parent (placed e next)) pos (next + length (entry_bytes e ++ all_locals es)) hx hh
      (omega arith)
      (rw here
        (placed_from es parent next (next + length (entry_bytes e)) (omega arith) (omega arith)))
    ∙ here

get_elem?-append :
    (xs ys : List Entry) (h : Entry) → get_elem? (xs ++ (h ∷ ys)) (length xs) ≡ some h
unfolding get_elem?
get_elem?-append [] ys h = refl
get_elem?-append (x ∷ xs) ys h = get_elem?-append xs ys h

set-append :
    (xs ys : List Entry) (h h' : Entry) → set (xs ++ (h ∷ ys)) (length xs) h' ≡ xs ++ (h' ∷ ys)
set-append [] ys h h' = refl
set-append (x ∷ xs) ys h h' = ap (◌∷◌ x) (set-append xs ys h h')

-- The state of the loop of zip::load in front of the entries `ys`.
abbrev at : Bytes → ℕ → List Entry → ℕ → Loading
at content pos entries count = record {
  entries = entries;
  stream = record { content = content; pos = pos };
  count = count;
}

-- One entry is loaded from where it was saved.
load_entry_ok :
    (pedantic : Bool) (parent : Bytes) (e : Entry) (es xs : List Entry) (before tail : Bytes)
    (count : ℕ)
    → IsKept e
    → All (λ x. offset_of x < length before) xs
    → length before + length (entry_bytes e) + length (all_locals es) < 4294967296
    → let pos = length before in
      let next = pos + length (entry_bytes e) in
      let content = before ++ (entry_bytes e ++ tail) in
      let ys = map (reopened parent) (placed_all next es) in
      load_entry pedantic
        (next + length (all_locals es))
        (at content pos (xs ++ (reopened parent (placed e pos) ∷ ys)) count)
        (length xs)
        pos
      ≡ ok (at content next (xs ++ (reloaded parent (placed e pos) ∷ ys)) (count + 1))
unfolding load_entry
load_entry_ok pedantic parent e es xs before tail count h hx small =
    let d = data_of e in
    let pos = length before in
    let len = length (entry_bytes e) in
    let cent = pos + len + length (all_locals es) in
    let head = reopened parent (placed e pos) in
    let ys = map (reopened parent) (placed_all (pos + len) es) in
    let n1 = length-local_bytes e d in
    let n2 = length-local_header e.info in
    let n3 = length-append (local_header e.info) (local_tail e d) in
    let n4 = length-append before (local_header e.info) in
    let here : offset_of head ≡ pos = omega arith in
    let inside : leb cent pos ≡ false = ground arith in
    let no_hole : (pedantic && ltb pos pos) ≡ false = ground arith in
    let ends = end_offset-placed es xs head parent pos (pos + len) hx here (omega arith) small in
    let fits : ltb (pos + len) ((pos + lo_fixed) % 4294967296) ≡ false = le→ltb _ _ (omega arith) in
    let left : (pos + len + 8589934592 - pos - lo_fixed) % 4294967296 ≡ length (local_tail e d) =
      omega arith in
    let assoc = append_assoc (local_header e.info) (local_tail e d) tail in
    let read =
      fread-append before (local_header e.info) (local_tail e d ++ tail) failed (omega arith) in
    let hdr = local_header e.info in
    let found = get_elem?-append xs ys head in
    let stops : length (before ++ hdr) + length (local_tail e d) ≡ pos + len = omega arith in
    let behind = append_assoc before hdr (local_tail e d ++ tail) in
    let loaded = rw (stops) at (
      load_local-local_bytes pedantic (placed e pos) (new_entry parent) d (before ++ hdr) tail
        (placed-IsStored e pos h.stored) h.loaded.size_is refl) in
    let loaded' = rw (behind, n4, local_header-placed e pos, n2) at loaded in
    rw assoc (
      rw inside (
        rw no_hole (
          rw ends (
            rw fits (
              rw (← n2) (
                rw read (
                  rw found (
                    rw n2 (
                      rw (ends) (
                        rw left (
                          rw loaded'
                            (rw (set-append xs ys head (reloaded parent (placed e pos)))))))))))))))

load_loop_stop :
    (fuel : ℕ) (pedantic : Bool) (cent_start : ℕ) (l : Loading)
    → ltb l.stream.pos cent_start ≡ false
    → load_loop (suc fuel) pedantic cent_start l ≡ ok l
unfolding load_loop
load_loop_stop fuel pedantic cent_start l h = rw (h, load_loop)

-- One round of the loop of zip::load.
load_loop_step :
    (fuel : ℕ) (pedantic : Bool) (cent_start : ℕ) (l l' : Loading) (i o : ℕ) (r : Result Loading)
    → ltb l.stream.pos cent_start ≡ true
    → search (λ o. leb l.stream.pos o) 0 none l.entries ≡ some (i, o)
    → load_entry pedantic cent_start l i o ≡ ok l'
    → load_loop fuel pedantic cent_start l' ≡ r
    → load_loop (suc fuel) pedantic cent_start l ≡ r
unfolding load_loop
load_loop_step fuel pedantic cent_start l l' i o r more found loaded rest =
    rw (more, load_loop) (rw (found, load_loop) (rw (loaded, load_loop) rest))

All-concat {ℓ κ} :
    {A : Type ℓ} (P : A → Type κ) (xs : List A) (a : A) → All P xs → P a → All P (xs ++ a ∷ [])
All-concat P [] a h p = (p, tt)
All-concat P (x ∷ xs) a h p = (h.0, All-concat P xs a h.1 p)

-- The loop loads every entry from where it was saved, behind those that are loaded.
load_loop_ok :
    (pedantic : Bool) (parent : Bytes) (es xs : List Entry) (fuel : ℕ) (before tail : Bytes)
    (count : ℕ)
    → All IsKept es
    → All (λ x. offset_of x < length before) xs
    → length before + length (all_locals es) < 4294967296
    → length es < fuel
    → let pos = length before in
      let end = pos + length (all_locals es) in
      let content = before ++ (all_locals es ++ tail) in
      load_loop fuel pedantic end
        (at content pos (xs ++ map (reopened parent) (placed_all pos es)) count)
      ≡ ok (at content end (xs ++ map (reloaded parent) (placed_all pos es)) (count + length es))
unfolding all_locals placed_all
load_loop_ok pedantic parent es xs zero before tail count h hx small f = absurd (omega arith)
load_loop_ok pedantic parent [] xs (suc fuel) before tail count h hx small f =
    load_loop_stop fuel pedantic (length before + 0)
      (at (before ++ tail) (length before) (xs ++ []) count) (le→ltb _ _ (omega arith))
    ∙ (λ i. ok (at (before ++ tail) (a i) (xs ++ []) (b i)))
  where
    a : length before ≡ length before + 0
    a = omega arith

    b : count ≡ count + 0
    b = omega arith
load_loop_ok pedantic parent (e ∷ es) xs (suc fuel) before tail count h hx small f =
    let pos = length before in
    let es_bytes = all_locals es in
    let next = pos + length (entry_bytes e) in
    let head = reopened parent (placed e pos) in
    let done = reloaded parent (placed e pos) in
    let ys = map (reopened parent) (placed_all next es) in
    let n1 = length-append (entry_bytes e) es_bytes in
    let n2 = length-append before (entry_bytes e) in
    let n3 = length-local_bytes e (data_of e) in
    let ends : pos + length (entry_bytes e ++ es_bytes) ≡ next + length es_bytes = omega arith in
    let counts : count + suc (length es) ≡ count + 1 + length es = omega arith in
    let content = before ++ (entry_bytes e ++ (es_bytes ++ tail)) in
    let here : offset_of head ≡ pos = omega arith in
    let behind : All (λ x. offset_of x < length (before ++ entry_bytes e)) (xs ++ done ∷ []) =
      All-concat (λ x. offset_of x < length (before ++ entry_bytes e)) xs done
        (All-map {P = λ x. offset_of x < length before} xs (λ x p. omega arith) hx) (omega arith) in
    let rest =
      load_loop_ok pedantic parent es (xs ++ done ∷ []) fuel (before ++ entry_bytes e) tail
        (count + 1) h.1 behind (omega arith) (omega arith) in
    rw (append_assoc (entry_bytes e) es_bytes tail, ends, counts)
      (load_loop_step fuel pedantic (next + length es_bytes)
        (at content pos (xs ++ (head ∷ ys)) count) (at content next (xs ++ (done ∷ ys)) (count + 1))
        (length xs) pos _ (lt→ltb pos (next + length es_bytes) (omega arith))
        (search_next xs ys head pos hx here
          (placed_from es parent pos next (omega arith) (omega arith)))
        (load_entry_ok pedantic parent e es xs before (es_bytes ++ tail) count h.0 hx (omega arith))
        (rw
          (
            n2,
            append_assoc before (entry_bytes e) (es_bytes ++ tail),
            append_assoc xs (done ∷ []) ys,
            append_assoc xs (done ∷ []) (map (reloaded parent) (placed_all next es)),
          )
          at rest))

length-placed :
    (parent : Bytes) (es : List Entry) (pos : ℕ)
    → length (map (reopened parent) (placed_all pos es)) ≡ length es
unfolding placed_all
length-placed parent [] pos = refl
length-placed parent (e ∷ es) pos = ap suc (length-placed parent es (pos + length (entry_bytes e)))

-- zip::load of an archive as zip::open leaves it.
pub load_content-archive_bytes :
    (pedantic : Bool) (z : Zip) (es : List Entry)
    → All IsKept es
    → length (archive_bytes es) < 4294967296
    → let opened_z = record z {
      offset_to_start_of_cent_dir = length (all_locals es);
      entries = map (reopened z.path) (placed_all 0 es);
    } in
      load_content pedantic opened_z (archive_bytes es)
      ≡ ok (record z {
        is_read = true;
        is_modify = false;
        offset_to_start_of_cent_dir = length (all_locals es);
        entries = map (reloaded z.path) (placed_all 0 es);
      })
unfolding load_content
load_content-archive_bytes pedantic z es h small =
    let n = length-append (all_locals es) (directory_bytes es) in
    let l = length-placed z.path es 0 in
    let zero_add : 0 + length (all_locals es) ≡ length (all_locals es) = omega arith in
    let run = rw (zero_add) at (
      load_loop_ok pedantic z.path es [] (length (map (reopened z.path) (placed_all 0 es)) + 1) []
        (directory_bytes es) 0 h tt (omega arith) (omega arith)) in
    rw run (ground arith)
