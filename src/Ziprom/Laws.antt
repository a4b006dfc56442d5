-- ===== src/Ziprom/Laws.antt =====
-- ziprom.cc: what remove and add do to the entries of a name.
use advancescan.Base.{
  ==_iff, Bool, Bool-cases, Bytes, List, [], ap, false, if◌then◌else◌, inl, inr, map, refl, sym,
  true, ◌++◌, ◌==◌, ◌↔◌, ◌∙◌, ◌∷◌, ◌≡◌,
}
use advancescan.File.{c_str, same_name, same_text}
use advancescan.Strcov.{toupper}
use advancescan.Zip.Entry.{Entry}

same_text_iff : (a b : Bytes) → (same_text a b ≡ true) ↔ (map toupper a ≡ map toupper b)
unfolding same_text
same_text_iff [] [] = ((λ h. refl), (λ h. refl))
same_text_iff [] (b ∷ bs) = ((λ h. absurd cc), (λ h. absurd cc))
same_text_iff (a ∷ rest) [] = ((λ h. absurd cc), (λ h. absurd cc))
same_text_iff (a ∷ rest) (b ∷ bs) = elim (Bool-cases (toupper a == toupper b)) [
  | inl e ↦
      let same = (==_iff (toupper a) (toupper b)).0 e in
      (
        (λ h. cc (same, (same_text_iff rest bs).0 (sym (go e) ∙ h))),
        (λ h. go e ∙ (same_text_iff rest bs).1 (tails same h)),
      )
  | inr e ↦ ((λ h. absurd (cc (h, stop e))), (λ h. absurd (differ e h)))
]
  where
    go : (toupper a == toupper b) ≡ true → same_text (a ∷ rest) (b ∷ bs) ≡ same_text rest bs
    go e = rw e refl

    stop : (toupper a == toupper b) ≡ false → same_text (a ∷ rest) (b ∷ bs) ≡ false
    stop e = rw e refl

    tails :
        toupper a ≡ toupper b
        → map toupper (a ∷ rest) ≡ map toupper (b ∷ bs)
        → map toupper rest ≡ map toupper bs
    tails same h = cc

    differ : (toupper a == toupper b) ≡ false → ¬ (map toupper (a ∷ rest) ≡ map toupper (b ∷ bs))
    differ e h =
        let same : toupper a ≡ toupper b = cc in cc (e, (==_iff (toupper a) (toupper b)).1 same)

-- same_name compares the names, up to a byte 0, in upper case
pub same_name_iff :
    (a b : Bytes) → (same_name a b ≡ true) ↔ (map toupper (c_str a) ≡ map toupper (c_str b))
unfolding same_name
same_name_iff a b = same_text_iff (c_str a) (c_str b)

pub same_name_trans :
    (a b c : Bytes) → same_name a b ≡ true → same_name a c ≡ true → same_name b c ≡ true
same_name_trans a b c p q =
    (same_name_iff b c).1 (sym ((same_name_iff a b).0 p) ∙ (same_name_iff a c).0 q)

pub same_name_sym : (a b : Bytes) → same_name a b ≡ true → same_name b a ≡ true
same_name_sym a b p = (same_name_iff b a).1 (sym ((same_name_iff a b).0 p))

-- no entry has this name
abbrev pub Lacks : Bytes → List Entry → Type 0
Lacks name [] = Unit
Lacks name (e ∷ es) = (same_name e.file_name name ≡ false) × Lacks name es

-- no two entries have the same name, in either case
abbrev pub IsDistinct : List Entry → Type 0
IsDistinct [] = Unit
IsDistinct (e ∷ es) = Lacks e.file_name es × IsDistinct es

-- the entries of the other names
abbrev pub others : Bytes → List Entry → List Entry
others name [] = []
others name (e ∷ es) =
    let rest = others name es in if same_name e.file_name name then rest else e ∷ rest

others-Lacks : (name : Bytes) (es : List Entry) → Lacks name es → others name es ≡ es
others-Lacks name [] l = refl
others-Lacks name (e ∷ es) l = rw (l.0) (ap (◌∷◌ e) (others-Lacks name es (l.1)))

pub Lacks-others : (name : Bytes) (es : List Entry) → Lacks name (others name es)
Lacks-others name [] = tt
Lacks-others name (e ∷ es) = elim (Bool-cases (same_name e.file_name name)) [
  | inl h ↦ rw h (Lacks-others name es)
  | inr h ↦ rw h (h, Lacks-others name es)
]

Lacks-kept : (other name : Bytes) (es : List Entry) → Lacks other es → Lacks other (others name es)
Lacks-kept other name [] l = tt
Lacks-kept other name (e ∷ es) l = elim (Bool-cases (same_name e.file_name name)) [
  | inl h ↦ rw h (Lacks-kept other name es (l.1))
  | inr h ↦ rw h (l.0, Lacks-kept other name es (l.1))
]

pub others-IsDistinct :
    (name : Bytes) (es : List Entry) → IsDistinct es → IsDistinct (others name es)
others-IsDistinct name [] d = tt
others-IsDistinct name (e ∷ es) d = elim (Bool-cases (same_name e.file_name name)) [
  | inl h ↦ rw h (others-IsDistinct name es (d.1))
  | inr h ↦ rw h (Lacks-kept e.file_name name es (d.0), others-IsDistinct name es (d.1))
]

pub not_true : (b : Bool) → ¬ (b ≡ true) → b ≡ false
not_true true n = absurd (n refl)
not_true false n = refl

-- what has the same name as a name that is lacked is lacked too
pub Lacks-same : (a b : Bytes) (es : List Entry) → same_name a b ≡ true → Lacks a es → Lacks b es
Lacks-same a b [] h l = tt
Lacks-same a b (e ∷ es) h l =
    (not_true (same_name e.file_name b) (λ k. cc (l.0, back k)), Lacks-same a b es h (l.1))
  where
    back : same_name e.file_name b ≡ true → same_name e.file_name a ≡ true
    back k =
        same_name_sym a e.file_name
          (same_name_trans b a e.file_name (same_name_sym a b h) (same_name_sym e.file_name b k))

-- what `find` and then `erase` leave
unfoldable pub erase_first : Bytes → List Entry → List Entry
erase_first name [] = []
erase_first name (e ∷ es) =
    let rest = erase_first name es in if same_name e.file_name name then es else e ∷ rest

pub erase_first-others :
    (name : Bytes) (es : List Entry) → IsDistinct es → erase_first name es ≡ others name es
unfolding erase_first
erase_first-others name [] d = refl
erase_first-others name (e ∷ es) d = elim (Bool-cases (same_name e.file_name name)) [
  | inl h ↦ rw h (sym (others-Lacks name es (Lacks-same e.file_name name es h (d.0))))
  | inr h ↦ rw h (ap (◌∷◌ e) (erase_first-others name es (d.1)))
]

Lacks-append :
    (name : Bytes) (es : List Entry) (e : Entry)
    → Lacks name es
    → same_name e.file_name name ≡ false
    → Lacks name (es ++ e ∷ [])
Lacks-append name [] e l h = (h, tt)
Lacks-append name (x ∷ es) e l h = (l.0, Lacks-append name es e (l.1) h)

pub IsDistinct-append :
    (es : List Entry) (e : Entry) → IsDistinct es → Lacks e.file_name es → IsDistinct (es ++ e ∷ [])
IsDistinct-append [] e d l = (tt, tt)
IsDistinct-append (x ∷ es) e d l = (
  Lacks-append x.file_name es e (d.0) (
      not_true (same_name e.file_name x.file_name)
        (λ k. cc (l.0, same_name_sym e.file_name x.file_name k))),
  IsDistinct-append es e (d.1) (l.1),
)
