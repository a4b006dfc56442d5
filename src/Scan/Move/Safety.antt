-- ===== src/Scan/Move/Safety.antt =====
-- scan.cc: what rom_move leaves in its archives and on the disk.

use advancescan.Base.{
  Bool, Bool-cases, Bytes, List, Option, [], ap, append-nil, append_assoc, false, if◌then◌else◌,
  inl, inr, map, none, not, ok, refl, some, sym, true, ◌++◌, ◌>>=◌, ◌∙◌, ◌∷◌, ◌≡◌,
}
use advancescan.File.{same_name}
use advancescan.Rom.{Rom, insert_rom}
use advancescan.Rom.Sets.{
  Apart, Apart-insert_rom, Apart-nil, Apart-one, IsRomSet, LacksRom, insert_rom_new,
}
use advancescan.Scan.Fix.{remove_all_to}
use advancescan.Scan.Move.{all_roms}
use advancescan.Zip.Archive.{System}
use advancescan.Zip.Archive.Save.Layout.{All}
use advancescan.Zip.Entry.{Entry}
use advancescan.Ziprom.{Ziprom, remove_to}
use advancescan.Ziprom.Laws.{IsDistinct, Lacks, not_true, same_name_sym, same_name_trans}
use advancescan.Ziprom.View.{Content, FileMap, IsMovable, IsSound, delete, view}
use advancescan.Ziprom.View.Pair.{
  Call, Holds, IsCall, Maps, remove_to-set_aside, removes_to, set_aside, set_aside_found, spec_all,
}

-- the rom that all_roms makes of an entry
abbrev pub rom_of : Entry → Rom
rom_of i = record {
  name = i.file_name;
  size = i.info.uncompressed_size;
  crc = i.info.crc32;
  nodump = false;
}

LacksRom-rom_of : (name : Bytes) (es : List Entry) → Lacks name es → LacksRom name (map rom_of es)
LacksRom-rom_of name [] l = tt
LacksRom-rom_of name (e ∷ es) l = (l.0, LacksRom-rom_of name es (l.1))

pub IsRomSet-rom_of : (es : List Entry) → IsDistinct es → IsRomSet (map rom_of es)
IsRomSet-rom_of [] d = tt
IsRomSet-rom_of (e ∷ es) d = (LacksRom-rom_of e.file_name es (d.0), IsRomSet-rom_of es (d.1))

pub all_roms-map :
    (es : List Entry) (acc : List Rom)
    → IsRomSet (map rom_of es)
    → Apart (map rom_of es) acc
    → all_roms es acc ≡ acc ++ map rom_of es
unfolding all_roms
all_roms-map [] acc d a = sym (append-nil acc)
all_roms-map (e ∷ es) acc d a =
    let i = rom_of e in
    let new = insert_rom_new i acc (a.0) in
    let apart =
      Apart-insert_rom (map rom_of es) acc i (a.0) (a.1) (Apart-one i (map rom_of es) (d.0)) in
    all_roms-map es (insert_rom i acc) (d.1) apart
    ∙ ap (λ l. l ++ map rom_of es) new
    ∙ append_assoc acc (i ∷ []) (map rom_of es)

-- the names of the roms, as calls
abbrev pub calls_of : List Rom → List Call
calls_of [] = []
calls_of (i ∷ rs) = removes_to i.name ∷ calls_of rs

-- the loop goes on where the archive is not read-only
remove_all_to-step :
    (readonly pedantic : Bool) (s : System) (i : Rom) (rs : List Rom) (z q : Ziprom)
    (p : Ziprom × Ziprom)
    → z.readonly ≡ readonly
    → readonly ≡ false
    → remove_to pedantic s i.name z q ≡ ok p
    → remove_all_to true pedantic s (i ∷ rs) z q ≡ remove_all_to true pedantic s rs (p.0) (p.1)
unfolding remove_all_to
remove_all_to-step readonly pedantic s i rs z q p e w h =
    ap
      (λ b. (if not b then remove_to pedantic s i.name z q else ok (z, q)) >>= λ t.
        remove_all_to true pedantic s rs (t.0) (t.1))
      (e ∙ w)
    ∙ ap (λ m. m >>= λ t. remove_all_to true pedantic s rs (t.0) (t.1)) h

remove_all_to-spec_all :
    (pedantic : Bool) (s : System) (rs : List Rom) {o : Ziprom × Ziprom} (z q : Ziprom) (m : Maps)
    → Holds o (z, q) m
    → o.0.readonly ≡ false
    → All IsCall (calls_of rs)
    → (p : Ziprom × Ziprom) × (remove_all_to true pedantic s rs z q ≡ ok p)
      × Holds o p (spec_all (calls_of rs) m)
unfolding remove_all_to
remove_all_to-spec_all pedantic s [] z q m h w c = ((z, q), refl, h)
remove_all_to-spec_all pedantic s (i ∷ rs) z q m h w c =
    let ((z1, q1), p, k) = remove_to-set_aside pedantic s i.name z q m h (c.0) in
    let (t, u, v) = remove_all_to-spec_all pedantic s rs z1 q1 (set_aside i.name m) k w (c.1) in
    (
      t,
      remove_all_to-step z.readonly pedantic s i rs z q (z1, q1) refl (h.own_is.readonly_is ∙ w) p
          ∙ u,
      v,
    )

-- some rom has this name
abbrev pub covers : List Rom → Bytes → Bool
covers [] n = false
covers (i ∷ rs) n = let rest = covers rs n in if same_name i.name n then true else rest

abbrev pub overlay : Option Content → Option Content → Option Content
overlay none below = below
overlay (some c) below = some c

abbrev Respects : FileMap → Type 0
Respects m = (a b : Bytes) → same_name a b ≡ true → m a ≡ m b

delete-Respects : (name : Bytes) (m : FileMap) → Respects m → Respects (delete name m)
delete-Respects name m r a b h = elim (Bool-cases (same_name name a)) [
  | inl p ↦
      let q : same_name name b ≡ true = same_name_trans a name b (same_name_sym name a p) h in
      rw (p, q) refl
  | inr p ↦
      let q : same_name name b ≡ false =
        not_true (same_name name b)
          (λ k. cc (p, same_name_trans b name a (same_name_sym name b k) (same_name_sym a b h))) in
      rw (p, q) (r a b h)
]

view-Respects : (es : List Entry) → Respects (view es)
view-Respects [] a b h = refl
view-Respects (e ∷ es) a b h = elim (Bool-cases (same_name e.file_name a)) [
  | inl p ↦
      let q : same_name e.file_name b ≡ true =
        same_name_trans a e.file_name b (same_name_sym e.file_name a p) h in
      rw (p, q) refl
  | inr p ↦
      let q : same_name e.file_name b ≡ false = not_true (same_name e.file_name b) (λ k. cc (
        p,
        same_name_trans b e.file_name a (same_name_sym e.file_name b k) (same_name_sym a b h),
      )) in
      rw (p, q) (view-Respects es a b h)
]

-- one name more, where the map has nothing at it
covers-none :
    (same cov : Bool) (x y own rejected : Option Content)
    → (same ≡ true → x ≡ none)
    → own ≡ (if cov then none else x)
    → rejected ≡ (if cov then overlay x y else y)
    → (own ≡ (if (if same then true else cov) then none else x))
      × (rejected ≡ (if (if same then true else cov) then overlay x y else y))
covers-none true true x y own rejected f a r = (a, r)
covers-none true false x y own rejected f a r =
    (a ∙ f refl, r ∙ sym (ap (λ w. overlay w y) (f refl)))
covers-none false cov x y own rejected f a r = (a, r)

-- one name more, where the map has the content c
covers-some :
    (same cov : Bool) (c : Content) (x y own rejected : Option Content)
    → (same ≡ true → x ≡ some c)
    → own ≡ (if cov then none else if same then none else x)
    → rejected ≡ (
        if cov
        then overlay (if same then none else x) (if same then some c else y)
        else if same
        then some c
        else y)
    → (own ≡ (if (if same then true else cov) then none else x))
      × (rejected ≡ (if (if same then true else cov) then overlay x y else y))
covers-some true true c x y own rejected f a r = (a, r ∙ sym (ap (λ w. overlay w y) (f refl)))
covers-some true false c x y own rejected f a r = (a, r ∙ sym (ap (λ w. overlay w y) (f refl)))
covers-some false cov c x y own rejected f a r = (a, r)

-- the maps that rom_move's loop makes of `m`
abbrev IsMoved : List Rom → Maps → Maps → Bytes → Type 0
IsMoved rs m m' n =
    (m'.own n ≡ (if covers rs n then none else m.own n))
    × (m'.rejected n ≡ (if covers rs n then overlay (m.own n) (m.rejected n) else m.rejected n))

IsMoved-cons :
    (i : Rom) (rs : List Rom) (m m' : Maps) (n : Bytes) (o : Option Content)
    → Respects m.own
    → m.own i.name ≡ o
    → IsMoved rs (set_aside_found i.name o m) m' n
    → IsMoved (i ∷ rs) m m' n
IsMoved-cons i rs m m' n none r e h =
    covers-none (same_name i.name n) (covers rs n) (m.own n) (m.rejected n) (m'.own n)
      (m'.rejected n) (λ p. sym (r i.name n p) ∙ e) (h.0) (h.1)
IsMoved-cons i rs m m' n (some c) r e h =
    covers-some (same_name i.name n) (covers rs n) c (m.own n) (m.rejected n) (m'.own n)
      (m'.rejected n) (λ p. sym (r i.name n p) ∙ e) (h.0) (h.1)

set_aside_found-Respects :
    (name : Bytes) (o : Option Content) (m : Maps)
    → Respects m.own
    → Respects (set_aside_found name o m).own
set_aside_found-Respects name none m r = r
set_aside_found-Respects name (some c) m r = delete-Respects name m.own r

spec_all-IsMoved :
    (rs : List Rom) (m : Maps) (n : Bytes)
    → Respects m.own
    → IsMoved rs m (spec_all (calls_of rs) m) n
spec_all-IsMoved [] m n r = (refl, refl)
spec_all-IsMoved (i ∷ rs) m n r =
    IsMoved-cons i rs m (spec_all (calls_of (i ∷ rs)) m) n (m.own i.name) r refl (
      spec_all-IsMoved rs (set_aside i.name m) n
        (set_aside_found-Respects i.name (m.own i.name) m r))

-- the names of the entries cover what the archive has
covers-view : (es : List Entry) (n : Bytes) → covers (map rom_of es) n ≡ false → view es n ≡ none
covers-view [] n h = refl
covers-view (e ∷ es) n h = elim (Bool-cases (same_name e.file_name n)) [
  | inl p ↦ absurd (cc (h, here p))
  | inr p ↦ rw p (covers-view es n (sym (there p) ∙ h))
]
  where
    here : same_name e.file_name n ≡ true → covers (map rom_of (e ∷ es)) n ≡ true
    here p = rw p refl

    there :
        same_name e.file_name n ≡ false → covers (map rom_of (e ∷ es)) n ≡ covers (map rom_of es) n
    there p = rw p refl

calls_of-All : (es : List Entry) → All IsMovable es → All IsCall (calls_of (map rom_of es))
calls_of-All [] a = tt
calls_of-All (e ∷ es) a = ((a.0.in_range.name_pos, a.0.in_range.name_lt), calls_of-All es (a.1))

-- One archive is emptied into another, which keeps what it had under other names.
pub record IsEmptied (z q z' q' : Ziprom) : Type 0 where
  pub own_is : IsSound z'
  pub rejected_is : IsSound q'
  pub gone : (n : Bytes) → view z'.zip.entries n ≡ none
  pub moved :
      (n : Bytes) → view q'.zip.entries n ≡ overlay (view z.zip.entries n) (view q.zip.entries n)
  pub own_path : z'.zip.path ≡ z.zip.path
  pub rejected_path : q'.zip.path ≡ q.zip.path

pub remove_all_to-IsEmptied :
    (pedantic : Bool) (s : System) (z q : Ziprom)
    → IsSound z
    → IsSound q
    → z.readonly ≡ false
    → (p : Ziprom × Ziprom) × (remove_all_to true pedantic s (all_roms z.zip.entries []) z q ≡ ok p)
      × IsEmptied z q (p.0) (p.1)
remove_all_to-IsEmptied pedantic s z q v u w =
    let es = z.zip.entries in
    let distinct = IsRomSet-rom_of es v.distinct in
    let roms : all_roms es [] ≡ map rom_of es =
      all_roms-map es [] distinct (Apart-nil (map rom_of es)) in
    let m : Maps = record { own = view es; rejected = view q.zip.entries } in
    let h : Holds (z, q) (z, q) m = record {
      own_is = record { sound = v; path_is = refl; readonly_is = refl; view_is = λ x. refl };
      rejected_is = record { sound = u; path_is = refl; readonly_is = refl; view_is = λ x. refl };
    } in
    let (p, k, t) =
      remove_all_to-spec_all pedantic s (map rom_of es) z q m h w (calls_of-All es v.movable) in
    (
      p,
      rw roms k,
      record {
        own_is = t.own_is.sound;
        rejected_is = t.rejected_is.sound;
        gone = λ n.
            t.own_is.view_is n
            ∙ (spec_all-IsMoved (map rom_of es) m n (view-Respects es)).0
            ∙ own_gone n;
        moved = λ n.
            t.rejected_is.view_is n
            ∙ (spec_all-IsMoved (map rom_of es) m n (view-Respects es)).1
            ∙ all_moved n;
        own_path = t.own_is.path_is;
        rejected_path = t.rejected_is.path_is;
      },
    )
  where
    own_gone :
        (n : Bytes)
        → (if covers (map rom_of z.zip.entries) n then none else view z.zip.entries n) ≡ none
    own_gone n = elim (Bool-cases (covers (map rom_of z.zip.entries) n)) [
      | inl c ↦ rw c refl
      | inr c ↦ rw c (covers-view z.zip.entries n c)
    ]

    all_moved :
        (n : Bytes)
        → (if covers (map rom_of z.zip.entries) n
            then overlay (view z.zip.entries n) (view q.zip.entries n)
            else view q.zip.entries n)
          ≡ overlay (view z.zip.entries n) (view q.zip.entries n)
    all_moved n = elim (Bool-cases (covers (map rom_of z.zip.entries) n)) [
      | inl c ↦ rw c refl
      | inr c ↦ rw (c, covers-view z.zip.entries n c) refl
    ]
