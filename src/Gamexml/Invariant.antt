-- ===== src/Gamexml/Invariant.antt =====
-- gamexml.cc: the handlers on any events.
use advancescan.Base.{
  Bool, Bool-cases, Bytes, List, Option-cases, [], arith, inl, inr, ltb, refl, ℕ, ◌∷◌,
}
use advancescan.Gamexml.{XmlState}
use advancescan.Gamexml.Closing.{data_handler-Steady, end_handler-Steady}
use advancescan.Gamexml.Handlers.{
  XmlEvent, attributes_loop, data_event, data_handler, depth_max, end_event, end_handler, handle,
  handle_all, new_state, start_element, start_event, start_handler,
}
use advancescan.Gamexml.Steady.{IsSteady, Steady, start_element-Steady, then-Steady}

attributes_loop-Steady :
    (alloc : ℕ → Bool) (attributes : List (Bytes × Bytes)) (st : XmlState)
    → IsSteady st
    → Steady (attributes_loop alloc attributes st)
unfolding attributes_loop
attributes_loop-Steady alloc [] st h = h
attributes_loop-Steady alloc ((tag, value) ∷ attributes) st h =
    then-Steady _ (attributes_loop alloc attributes)
      (then-Steady _ end_handler
        (then-Steady (start_element tag st) (data_handler alloc value)
          (start_element-Steady tag st h) (data_handler-Steady alloc value))
        end_handler-Steady)
      (attributes_loop-Steady alloc attributes)

start_handler-Steady :
    (alloc : ℕ → Bool) (tag : Bytes) (attributes : List (Bytes × Bytes)) (st : XmlState)
    → IsSteady st
    → Steady (start_handler alloc tag attributes st)
unfolding start_handler
start_handler-Steady alloc tag attributes st h =
    let plain = start_element-Steady tag st h in
    elim (Bool-cases (ltb st.opened depth_max)) [
      | inr e ↦ rw (e, start_handler) plain
      | inl e ↦ elim (Option-cases st.error) [
        | inr (x, k) ↦ rw (e, start_handler) (rw k plain)
        | inl k ↦
            rw (e, start_handler)
              (rw k (
                then-Steady (start_element tag st) (attributes_loop alloc attributes) plain
                  (attributes_loop-Steady alloc attributes)))
      ]
    ]

handle-Steady :
    (alloc : ℕ → Bool) (e : XmlEvent) (st : XmlState) → IsSteady st → Steady (handle alloc e st)
handle-Steady alloc (start_event tag attributes) st h =
    start_handler-Steady alloc tag attributes st h
handle-Steady alloc (data_event s) st h = data_handler-Steady alloc s st h
handle-Steady alloc end_event st h = end_handler-Steady st h

pub new_state-Steady : IsSteady new_state
new_state-Steady = record {
  shallow = λ i. refl;
  deep = λ i. absurd (omega arith);
  good = λ i. cc i;
  known = λ i. tt;
  served = λ i. tt;
}

-- From a state in which the levels follow the depth, no call has found its game, rom or disk missing
-- and the open levels have the functions of the table with what these use, the handlers, whatever
-- events they are given and whatever memory there is, leave such a state again, or they throw, but
-- not for the use of a null pointer.
pub handle_all-Steady :
    (alloc : ℕ → Bool) (events : List XmlEvent) (st : XmlState)
    → IsSteady st
    → Steady (handle_all alloc events st)
unfolding handle_all
handle_all-Steady alloc [] st h = h
handle_all-Steady alloc (e ∷ events) st h =
    then-Steady (handle alloc e st) (handle_all alloc events) (handle-Steady alloc e st h)
      (handle_all-Steady alloc events)
