-- ===== src/Gamexml/Closing.antt =====
-- gamexml.cc: texts, and the elements that end.
use mathlib.Core.Path.{subst}
use advancescan.Base.{
  Bool, Bool-cases, Bytes, List, Option, Result, [], ap, arith, err, if◌then◌else◌, inl, inr,
  length, ltb, ltb→lt, none, not, ok, overrun, refl, some, suc, sym, zero, ℕ, ◌%◌, ◌&&◌, ◌+◌, ◌<◌,
  ◌>>=◌, ◌∙◌, ◌∷◌, ◌≡◌, ◌≢◌,
}
use advancescan.Gamexml.{
  Level, Process, XmlError, XmlState, invalid_state, low_memory, token_close, token_data,
}
use advancescan.Gamexml.BothCalls.{ErrorStep-good, both_calls}
use advancescan.Gamexml.Found.{close-AreServed}
use advancescan.Gamexml.Handlers.{
  add_text, close_level, data_handler, depth_max, end_handler, run_process, text_of,
}
use advancescan.Gamexml.Levels.{AreKnown, AreServed, IsServed}
use advancescan.Gamexml.Needs.{CallEnds, call_ends, call_throws, is_disk, is_game, is_rom, is_there}
use advancescan.Gamexml.Steady.{IsSteady, Steady, ltb_ge, some-none}

add_text-Steady :
    (alloc : ℕ → Bool) (s : Bytes) (l : Level) (level : List Level) (st : XmlState)
    → st.level ≡ l ∷ level
    → IsSteady st
    → Steady (add_text alloc s l level st)
add_text-Steady alloc s l level st e h =
    let new_len = length (text_of l.text) + length s in
    elim (Bool-cases (alloc (new_len % 4294967296))) [
      | inr f ↦ rw f (record {
        shallow = λ i. sym (ap length e) ∙ h.shallow i;
        deep = λ i. sym (ap length e) ∙ h.deep i;
        good = λ i. cc i;
        known = λ i. absurd (some-none low_memory i);
        served = λ i. absurd (some-none low_memory i);
      })
      | inl f ↦ elim (Bool-cases (ltb new_len 4294967296)) [
        | inr k ↦ rw (f, k) (λ i. cc i)
        | inl k ↦
            rw (f, k)
              (record {
                shallow = λ i. sym (ap length e) ∙ h.shallow i;
                deep = λ i. sym (ap length e) ∙ h.deep i;
                good = h.good;
                known = λ i. subst AreKnown e (h.known i);
                served = λ i.
                    subst
                      (λ v.
                        AreServed v (is_there st.current_game) (is_there st.current_rom)
                          (is_there st.current_disk))
                      e (h.served i);
              })
      ]
    ]

pub data_handler-Steady :
    (alloc : ℕ → Bool) (s : Bytes) (st : XmlState) → IsSteady st → Steady (data_handler alloc s st)
unfolding data_handler
data_handler-Steady alloc s st h = go st.opened st.level st.error refl refl refl
  where
    inner :
        (v : List Level) (x : Option XmlError)
        → st.level ≡ v
        → Steady (elim x [
          | some e ↦ ok st
          | none ↦ elim v [ [] ↦ err overrun | l ∷ level ↦ add_text alloc s l level st ]
        ])
    inner v (some e) k = h
    inner [] none k = λ i. cc i
    inner (l ∷ level) none k = add_text-Steady alloc s l level st k h

    go :
        (o : ℕ) (v : List Level) (x : Option XmlError)
        → st.opened ≡ o
        → st.level ≡ v
        → st.error ≡ x
        → Steady (elim o [
          | zero ↦ err overrun
          | suc depth ↦
              if ltb depth depth_max
              then elim x [
                | some e ↦ ok st
                | none ↦ elim v [ [] ↦ err overrun | l ∷ level ↦ add_text alloc s l level st ]
              ]
              else ok st
        ])
    go zero v x k f g = λ i. cc i
    go (suc depth) v x k f g = elim (Bool-cases (ltb depth depth_max)) [
      | inl e ↦ rw e (inner v x f)
      | inr e ↦ rw e h
    ]

-- the state behind an element that ends
popped-Steady :
    (st : XmlState) (depth : ℕ) (level : List Level)
    → depth < 5
    → length level ≡ depth
    → st.error ≢ some invalid_state
    → (st.error ≡ none → AreKnown level)
    → (st.error ≡ none
        → AreServed level
            (is_there st.current_game)
            (is_there st.current_rom)
            (is_there st.current_disk))
    → IsSteady (record st { opened = depth; level = level })
popped-Steady st depth level small e good known served = record {
  shallow = λ i. e;
  deep = λ i. absurd (omega arith);
  good = good;
  known = known;
  served = served;
}

module _ (st : XmlState) (h : IsSteady st) (depth : ℕ) (small : depth < 5) (l : Level)
    (level : List Level) (at_depth : st.opened ≡ suc depth) (top : st.level ≡ l ∷ level) where
  length_below : length level ≡ depth
  length_below =
      let shallow = h.shallow (omega (arith, at_depth)) in
      omega (arith, sym (ap length top) ∙ shallow ∙ at_depth)

  known_here : st.error ≡ none → AreKnown (l ∷ level)
  known_here i = subst AreKnown top (h.known i)

  served_here :
      st.error ≡ none
      → AreServed
          (l ∷ level)
          (is_there st.current_game)
          (is_there st.current_rom)
          (is_there st.current_disk)
  served_here i =
      subst
        (λ v.
          AreServed v (is_there st.current_game) (is_there st.current_rom)
            (is_there st.current_disk))
        top (h.served i)

  below-Steady : IsSteady (record st { opened = depth; level = level })
  below-Steady =
      popped-Steady st depth level small length_below h.good (λ i. (known_here i).1)
        (λ i. (served_here i).1)

  -- behind the calls of the function of the level
  called-Steady :
      (p : Process) (m : Result XmlState)
      → l.process ≡ some p
      → st.error ≡ none
      → CallEnds st
          (not (is_game p) && is_there st.current_game)
          (not (is_rom p) && is_there st.current_rom)
          (not (is_disk p) && is_there st.current_disk)
          m
      → Steady (m >>= λ st1. ok (record st1 { opened = depth; level = level }))
  called-Steady p _ e clean (call_throws x n) = n
  called-Steady p _ e clean (call_ends st1 o v s kg kr kd) =
      popped-Steady st1 depth level small length_below (ErrorStep-good st.error st1.error s h.good)
        (λ i. (known_here clean).1)
        (λ i.
          rw (kg, kr, kd)
            (close-AreServed l.tag level p _ _ _ ((known_here clean).1) ((served_here clean).1)
              (sym ((known_here clean).0) ∙ e)))

  close_level-Steady :
      (x : Option XmlError) (q : Option Process)
      → st.error ≡ x
      → l.process ≡ q
      → Steady (
          elim x as (λ _. Result XmlState) [
            | some e ↦ ok st
            | none ↦ elim q [
              | none ↦ ok st
              | some p ↦
                  run_process p (token_data (text_of l.text)) st >>= run_process p token_close
            ]
          ]
          >>= λ st1. ok (record st1 { opened = depth; level = level }))
  close_level-Steady (some e) q i j = below-Steady
  close_level-Steady none none i j = below-Steady
  close_level-Steady none (some p) i j =
      called-Steady p (run_process p (token_data (text_of l.text)) st >>= run_process p token_close)
        j i
        (both_calls p (text_of l.text) st (
          subst
            (λ o.
              IsServed o (is_there st.current_game) (is_there st.current_rom)
                (is_there st.current_disk))
            j ((served_here i).0)))

pub end_handler-Steady : (st : XmlState) → IsSteady st → Steady (end_handler st)
unfolding end_handler
end_handler-Steady st h = go st.opened st.level refl refl
  where
    at_level :
        (depth : ℕ) (v : List Level)
        → depth < 5
        → st.opened ≡ suc depth
        → st.level ≡ v
        → Steady (elim v [
          | [] ↦ err overrun
          | l ∷ level ↦
              close_level l st >>= λ st1. ok (record st1 { opened = depth; level = level })
        ])
    at_level depth [] small i j = λ i. cc i
    at_level depth (l ∷ level) small i j =
        close_level-Steady st h depth small l level i j st.error l.process refl refl

    go :
        (o : ℕ) (v : List Level)
        → st.opened ≡ o
        → st.level ≡ v
        → Steady (elim o [
          | zero ↦ err overrun
          | suc depth ↦
              if ltb depth depth_max
              then elim v [
                | [] ↦ err overrun
                | l ∷ level ↦
                    close_level l st >>= λ st1. ok (record st1 { opened = depth; level = level })
              ]
              else ok (record st { opened = depth })
        ])
    go zero v i j = λ i. cc i
    go (suc depth) v i j = elim (Bool-cases (ltb depth depth_max)) [
      | inr e ↦
          let large = ltb_ge depth 5 e in
          let below : IsSteady (record st { opened = depth }) = record {
            shallow = λ k. h.deep (omega (arith, i)) ∙ omega arith;
            deep = λ k. h.deep (omega (arith, i));
            good = h.good;
            known = h.known;
            served = h.served;
          } in
          rw e below
      | inl e ↦ rw e (at_level depth v (ltb→lt depth 5 e) i j)
    ]
