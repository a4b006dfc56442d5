-- ===== src/Gamexml/Steady.antt =====
-- gamexml.cc: what holds between the events, and the elements that open.
use advancescan.Base.{
  Bool-cases, Bytes, Option, Option-cases, Result, ap, arith, err, false, inl, inr, length, ltb,
  ltb→lt, none, null_used, ok, some, suc, sym, ℕ, ◌<◌, ◌>>=◌, ◌||◌, ◌∙◌, ◌∷◌, ◌≡◌, ◌≢◌, ◌≤◌,
}
use advancescan.Gamexml.{Process, XmlError, XmlState, invalid_state}
use advancescan.Gamexml.BothCalls.{ErrorStep-good}
use advancescan.Gamexml.Found.{identify-IsServed}
use advancescan.Gamexml.Handlers.{open_level, push_level, start_element, tags_of}
use advancescan.Gamexml.Levels.{AreKnown, AreServed, AreServed-open}
use advancescan.Gamexml.Needs.{CallEnds, call_ends, call_throws, is_disk, is_game, is_rom, is_there}
use advancescan.Gamexml.Table.{identify}
use advancescan.Gamexml.TokenCalls.{open-CallEnds}

-- the levels follow the depth, no call has found its game, rom or disk missing, and, as long as
-- there is no error, the open levels have the functions of the table and what these use
pub record IsSteady (st : XmlState) : Type 0 where
  pub shallow : st.opened ≤ 5 → length st.level ≡ st.opened
  pub deep : 5 ≤ st.opened → length st.level ≡ 5
  pub good : st.error ≢ some invalid_state
  pub known : st.error ≡ none → AreKnown st.level
  pub served :
      st.error ≡ none
      → AreServed st.level
          (is_there st.current_game)
          (is_there st.current_rom)
          (is_there st.current_disk)

-- a handler leaves such a state, or throws, but has not used a null pointer
abbrev pub Steady : Result XmlState → Type 0
Steady (err e) = e ≢ null_used
Steady (ok st) = IsSteady st

pub ltb_ge : (a b : ℕ) → ltb a b ≡ false → b ≤ a
ltb_ge a b h = ground arith

pub then-Steady :
    (m : Result XmlState) (f : XmlState → Result XmlState)
    → Steady m
    → ((st : XmlState) → IsSteady st → Steady (f st))
    → Steady (m >>= f)
then-Steady (err e) f n k = n
then-Steady (ok st) f h k = k st h

-- what the call of an opening function leaves
opened-Steady :
    (tag : Bytes) (p : Process) (st : XmlState) (m : Result XmlState)
    → IsSteady st
    → st.opened < 5
    → st.error ≡ none
    → identify (length st.level) (tag ∷ tags_of st.level) ≡ some p
    → CallEnds
        (push_level tag (some p) st)
        (is_game p || is_there st.current_game)
        (is_rom p || is_there st.current_rom)
        (is_disk p || is_there st.current_disk)
        m
    → Steady m
opened-Steady tag p st _ h small clean found (call_throws e n) = n
opened-Steady tag p st _ h small clean found (call_ends st1 o l s kg kr kd) = record {
  shallow = λ i. rw (l, o) (ap suc (h.shallow (omega arith)));
  deep = λ i. rw l (omega (arith, h.shallow (omega arith), o));
  good = ErrorStep-good st.error st1.error s h.good;
  known = λ e. rw l (sym found, h.known clean);
  served = λ e.
      rw (l, kg, kr, kd)
        (
          identify-IsServed tag st.level p _ _ _ (h.known clean) (h.served clean) found,
          AreServed-open p st.level _ _ _ (h.served clean),
        );
}

-- a level without a function
plain-Steady :
    (tag : Bytes) (st : XmlState)
    → IsSteady st
    → st.opened < 5
    → (st.error ≡ none → identify (length st.level) (tag ∷ tags_of st.level) ≡ none)
    → IsSteady (push_level tag none st)
plain-Steady tag st h small found = record {
  shallow = λ i. ap suc (h.shallow (omega arith));
  deep = λ i. omega (arith, h.shallow (omega arith));
  good = h.good;
  known = λ e. (sym (found e), h.known e);
  served = λ e. (tt, h.served e);
}

open_level-Steady :
    (tag : Bytes) (o : Option Process) (st : XmlState)
    → IsSteady st
    → st.opened < 5
    → st.error ≡ none
    → identify (length st.level) (tag ∷ tags_of st.level) ≡ o
    → Steady (open_level tag o st)
open_level-Steady tag none st h small clean found = plain-Steady tag st h small (λ e. found)
open_level-Steady tag (some p) st h small clean found =
    opened-Steady tag p st _ h small clean found (
      open-CallEnds (suc st.opened) (record { tag = tag; text = none; process = some p } ∷ st.level)
        st.error st.games p st.current_game st.current_rom st.current_disk)

pub some-none : (e : XmlError) → some e ≢ none
some-none e h = cc h

pub start_element-Steady :
    (tag : Bytes) (st : XmlState) → IsSteady st → Steady (start_element tag st)
unfolding start_element
start_element-Steady tag st h = elim (Bool-cases (ltb st.opened 5)) [
  | inr e ↦
      let large = ltb_ge st.opened 5 e in
      rw (e, start_element)
        (record {
          shallow = λ i. absurd (omega arith);
          deep = λ i. h.deep large;
          good = h.good;
          known = h.known;
          served = h.served;
        })
  | inl e ↦
      let small = ltb→lt st.opened 5 e in
      elim (Option-cases st.error) [
        | inl clean ↦
            let at_depth =
              ap (λ n. identify n (tag ∷ tags_of st.level)) (h.shallow (omega arith)) in
            rw (e, start_element)
              (rw clean (
                open_level-Steady tag (identify st.opened (tag ∷ tags_of st.level)) st h small clean
                  at_depth))
        | inr (x, bad) ↦
            rw (e, start_element)
              (rw bad
                (plain-Steady tag st h small (λ clean. absurd (some-none x (sym bad ∙ clean)))))
      ]
]
