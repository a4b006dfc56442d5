-- ===== src/Gamexml/Ignored.antt =====
-- gamexml.cc: the handlers on elements and attributes that are not in the table.
use mathlib.Core.Path.{subst}
use advancescan.Base.{
  Bool-cases, Bytes, List, Option, [], ap, append_assoc, arith, false, inl, inr, length,
  length-append, ltb, lt→ltb, none, ok, refl, some, suc, true, ℕ, ◌%◌, ◌++◌, ◌+◌, ◌==◌, ◌>>=◌, ◌∙◌,
  ◌∷◌, ◌≡◌, ◌≤◌,
}
use advancescan.Game.{DiskInfo}
use advancescan.Gameinfo.{Listed}
use advancescan.Gamexml.{Level, XmlState}
use advancescan.Gamexml.Fields.{Setting, one_element}
use advancescan.Gamexml.Filling.{
  AreShortValues, Filling, IsFilling, IsShort, char_data, fill_events, fill_text, filling_ends,
  other_element,
}
use advancescan.Gamexml.Handlers.{
  XmlEvent, attributes_loop, data_handler, depth_max, end_event, end_handler, handle_all,
  start_element, start_handler, tags_of, text_of,
}
use advancescan.Gamexml.Listing.{AreOthers}
use advancescan.Gamexml.Needs.{state_of}
use advancescan.Gamexml.Table.{identify}
use advancescan.Rom.{Rom}

pub identify_deep : (m : ℕ) (tags : List Bytes) → 4 ≤ m → identify m tags ≡ none
unfolding identify
identify_deep m tags h =
    let a : (m == 1) ≡ false = ground arith in
    let b : (m == 2) ≡ false = ground arith in
    let c : (m == 3) ≡ false = ground arith in rw (a, b, c) refl

-- the depth of the last of these names, from that of the first
abbrev pub depth_of : ℕ → List Bytes → ℕ
depth_of m [] = m
depth_of m (c ∷ p) = suc (depth_of m p)

pub depth_of_le : (m : ℕ) (p : List Bytes) → m ≤ depth_of m p
depth_of_le m [] = omega arith
depth_of_le m (c ∷ p) = omega (arith, depth_of_le m p)

depth_of-append :
    (m : ℕ) (p : List Bytes) (c : Bytes) → depth_of m (p ++ c ∷ []) ≡ depth_of (suc m) p
depth_of-append m [] c = refl
depth_of-append m (d ∷ p) c = ap suc (depth_of-append m p c)

-- no element or attribute below these names is in the table
abbrev pub IsBarren : ℕ → List Bytes → Type 0
IsBarren m tags = (c : Bytes) (p : List Bytes) → identify (depth_of m p) (p ++ c ∷ tags) ≡ none

IsBarren-child :
    (m : ℕ) (tags : List Bytes) (c : Bytes) → IsBarren m tags → IsBarren (suc m) (c ∷ tags)
IsBarren-child m tags c b d p =
    subst (λ n. identify n (p ++ d ∷ c ∷ tags) ≡ none) (depth_of-append m p d)
      (subst (λ l. identify (depth_of m (p ++ d ∷ [])) l ≡ none)
        (append_assoc p (d ∷ []) (c ∷ tags)) (b c (p ++ d ∷ [])))

-- elements whose names pass are ignored, with all that they hold
abbrev pub Ignores : (Bytes → Type 0) → ℕ → List Bytes → Type 0
Ignores Passes m tags =
    (tag : Bytes) → Passes tag → (identify m (tag ∷ tags) ≡ none) × IsBarren (suc m) (tag ∷ tags)

IsBarren-Ignores : (m : ℕ) (tags : List Bytes) → IsBarren m tags → Ignores (λ name. Unit) m tags
IsBarren-Ignores m tags b tag u = (b tag [], IsBarren-child m tags tag b)

module _ (k : Setting) (gs : List Listed) (g : Option Listed) (r : Option Rom)
    (d : Option DiskInfo) where
  abbrev inside : ℕ → List Level → XmlState
  inside m level = state_of m level none gs g r d

  abbrev ignored_level : Bytes → Level
  ignored_level tag = record { tag = tag; text = none; process = none }

  pub ignored_attribute :
      (m : ℕ) (level : List Level) (tag v : Bytes)
      → identify m (tag ∷ tags_of level) ≡ none
      → IsShort v
      → one_element k tag v (inside m level) ≡ ok (inside m level)
  unfolding start_element data_handler end_handler
  ignored_attribute m level tag v i h = elim (Bool-cases (ltb m depth_max)) [
    | inl p ↦
        rw
          (
            p,
            i,
            p,
            k.plenty ((0 + length v) % 4294967296),
            lt→ltb (0 + length v) 4294967296 (omega (arith, h)),
            p,
          )
          refl
    | inr p ↦ rw (p, p, p) refl
  ]

  ignored_attributes :
      (m : ℕ) (level : List Level) (attributes : List (Bytes × Bytes))
      → ((c : Bytes) → identify m (c ∷ tags_of level) ≡ none)
      → AreShortValues attributes
      → attributes_loop k.alloc attributes (inside m level) ≡ ok (inside m level)
  unfolding attributes_loop
  ignored_attributes m level [] i h = refl
  ignored_attributes m level ((tag, v) ∷ attributes) i h =
      ap (λ m. m >>= attributes_loop k.alloc attributes)
        (ignored_attribute m level tag v (i tag) (h.0))
      ∙ ignored_attributes m level attributes i (h.1)

  -- attributes that pass, before others
  pub others_loop :
      (Passes : Bytes → Type 0) (m : ℕ) (level : List Level)
      (attributes rest : List (Bytes × Bytes))
      → ((c : Bytes) → Passes c → identify m (c ∷ tags_of level) ≡ none)
      → AreOthers Passes attributes
      → attributes_loop k.alloc (attributes ++ rest) (inside m level)
        ≡ attributes_loop k.alloc rest (inside m level)
  unfolding attributes_loop
  others_loop Passes m level [] rest i h = refl
  others_loop Passes m level ((tag, v) ∷ attributes) rest i h =
      ap (λ x. x >>= attributes_loop k.alloc (attributes ++ rest))
        (ignored_attribute m level tag v (i tag (h.0)) (h.1))
      ∙ others_loop Passes m level attributes rest i (h.2)

  open_ignored :
      (m : ℕ) (level : List Level) (tag : Bytes) (attributes : List (Bytes × Bytes))
      → ltb m depth_max ≡ true
      → identify m (tag ∷ tags_of level) ≡ none
      → IsBarren (suc m) (tag ∷ tags_of level)
      → AreShortValues attributes
      → start_handler k.alloc tag attributes (inside m level)
        ≡ ok (inside (suc m) (ignored_level tag ∷ level))
  unfolding start_handler start_element
  open_ignored m level tag attributes p i b h =
      rw (p, i) (ignored_attributes (suc m) (ignored_level tag ∷ level) attributes (λ c. b c []) h)

  close_ignored :
      (m : ℕ) (level : List Level) (tag : Bytes) (t : Option Bytes)
      → ltb m depth_max ≡ true
      → end_handler (inside (suc m) (record { tag = tag; text = t; process = none } ∷ level))
        ≡ ok (inside m level)
  unfolding end_handler
  close_ignored m level tag t p = rw p refl

  -- behind the last level of the array
  deep_filling :
      (f : Filling) (events : List XmlEvent) (m : ℕ) (level : List Level)
      → ltb m depth_max ≡ false
      → handle_all k.alloc (fill_events f events) (inside (suc m) level)
        ≡ handle_all k.alloc events (inside (suc m) level)
  unfolding handle_all start_handler start_element end_handler data_handler
  deep_filling filling_ends events m level p = refl
  deep_filling (char_data s rest) events m level p = rw p (deep_filling rest events m level p)
  deep_filling (other_element tag attributes inner rest) events m level p =
      let q : ltb (suc m) depth_max ≡ false = ground arith in
      rw q (
        deep_filling inner (end_event ∷ fill_events rest events) (suc m) level q
        ∙ rw q (deep_filling rest events m level p))

  pub filling_step :
      (Passes : Bytes → Type 0) (f : Filling) (events : List XmlEvent) (m : ℕ) (l : Level)
      (level : List Level)
      → ltb m depth_max ≡ true
      → Ignores Passes (suc m) (l.tag ∷ tags_of level)
      → IsFilling Passes f l.text
      → handle_all k.alloc (fill_events f events) (inside (suc m) (l ∷ level))
        ≡ handle_all k.alloc events
            (inside (suc m) (record l { text = fill_text f l.text } ∷ level))
  unfolding handle_all start_handler start_element end_handler data_handler
  filling_step Passes filling_ends events m l level p i h = refl
  filling_step Passes (char_data s rest) events m l level p i h =
      let n = length-append (text_of l.text) s in
      rw
        (
          p,
          k.plenty ((length (text_of l.text) + length s) % 4294967296),
          lt→ltb (length (text_of l.text) + length s) 4294967296 (omega (arith, n, h.0)),
        )
        (filling_step Passes rest events m (record l { text = some (text_of l.text ++ s) }) level p
          i (h.1))
  filling_step Passes (other_element tag attributes inner rest) events m l level p i h =
      let behind = fill_events rest events in
      let (none_found, barren) = i tag (h.0) in
      let after = filling_step Passes rest events m l level p i (h.3) in
      elim (Bool-cases (ltb (suc m) depth_max)) [
        | inl q ↦
            ap (λ m. m >>= handle_all k.alloc (fill_events inner (end_event ∷ behind)))
              (open_ignored (suc m) (l ∷ level) tag attributes q none_found barren (h.1))
            ∙ filling_step (λ name. Unit) inner (end_event ∷ behind) (suc m) (ignored_level tag)
                (l ∷ level) q (IsBarren-Ignores (suc (suc m)) (tag ∷ l.tag ∷ tags_of level) barren)
                (h.2)
            ∙ ap (λ m. m >>= handle_all k.alloc behind)
                (close_ignored (suc m) (l ∷ level) tag (fill_text inner none) q)
            ∙ after
        | inr q ↦ rw q (deep_filling inner (end_event ∷ behind) (suc m) (l ∷ level) q ∙ rw q after)
      ]
