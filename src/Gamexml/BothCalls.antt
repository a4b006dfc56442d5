-- ===== src/Gamexml/BothCalls.antt =====
-- gamexml.cc: the two calls of the function of a level that ends.
use mathlib.Core.Path.{subst}
use advancescan.Base.{
  Bool, Bytes, Option, Result, none, not, refl, some, true, ◌&&◌, ◌>>=◌, ◌∙◌, ◌≡◌, ◌≢◌,
}
use advancescan.Gamexml.{Process, XmlError, XmlState, invalid_state, token_close, token_data}
use advancescan.Gamexml.Handlers.{run_process}
use advancescan.Gamexml.Needs.{
  CallEnds, ErrorStep, bad_crc, bad_size, call_ends, call_throws, is_disk, is_game, is_rom,
  is_served, is_there, no_new_error,
}
use advancescan.Gamexml.TokenCalls.{close-CallEnds, data-CallEnds}

pub ErrorStep-trans :
    (e e1 e2 : Option XmlError) → ErrorStep e e1 → ErrorStep e1 e2 → ErrorStep e e2
ErrorStep-trans e _ _ s no_new_error = s
ErrorStep-trans e _ _ s bad_size = bad_size
ErrorStep-trans e _ _ s bad_crc = bad_crc

pub ErrorStep-good :
    (e e1 : Option XmlError) → ErrorStep e e1 → e ≢ some invalid_state → e1 ≢ some invalid_state
ErrorStep-good e _ no_new_error n = n
ErrorStep-good e _ bad_size n = λ h. cc h
ErrorStep-good e _ bad_crc n = λ h. cc h

pub ErrorStep-none : (e e1 : Option XmlError) → ErrorStep e e1 → e1 ≡ none → e ≡ none
ErrorStep-none e _ no_new_error h = h
ErrorStep-none e _ bad_size h = absurd cc
ErrorStep-none e _ bad_crc h = absurd cc

-- a second call, behind one that has returned
after_call :
    (st st1 : XmlState) (g r d : Bool) (m : Result XmlState)
    → st1.opened ≡ st.opened
    → st1.level ≡ st.level
    → ErrorStep st.error st1.error
    → CallEnds st1 g r d m
    → CallEnds st g r d m
after_call st st1 g r d _ o l s (call_throws e n) = call_throws e n
after_call st st1 g r d _ o l s (call_ends st2 o2 l2 s2 kg kr kd) =
    call_ends st2 (o2 ∙ o) (l2 ∙ l) (ErrorStep-trans st.error st1.error st2.error s s2) kg kr kd

close_behind :
    (p : Process) (st : XmlState) (g r d : Bool) (m : Result XmlState)
    → is_served p g r d ≡ true
    → CallEnds st g r d m
    → CallEnds st
        (not (is_game p) && g)
        (not (is_rom p) && r)
        (not (is_disk p) && d)
        (m >>= run_process p token_close)
close_behind p st g r d _ h (call_throws e n) = call_throws e n
close_behind p st g r d _ h (call_ends st1 o l s kg kr kd) =
    after_call st st1 _ _ _ (run_process p token_close st1) o l s (
      subst
        (λ q.
          CallEnds st1 (not (is_game p) && q.0) (not (is_rom p) && q.1) (not (is_disk p) && q.2)
            (run_process p token_close st1))
        same
        (close-CallEnds st1.opened st1.level st1.error st1.games p st1.current_game st1.current_rom
          st1.current_disk (served ∙ h)))
  where
    same :
        ◌≡◌ {A = Bool × Bool × Bool}
          (is_there st1.current_game, is_there st1.current_rom, is_there st1.current_disk)
          (g, r, d)
    same = rw (kg, kr, kd) refl

    served :
        is_served p
          (is_there st1.current_game)
          (is_there st1.current_rom)
          (is_there st1.current_disk)
        ≡ is_served p g r d
    served = rw (kg, kr, kd) refl

-- the function of a level, called for the text and then for the end
pub both_calls :
    (p : Process) (s : Bytes) (st : XmlState)
    → is_served p (is_there st.current_game) (is_there st.current_rom) (is_there st.current_disk)
      ≡ true
    → CallEnds st
        (not (is_game p) && is_there st.current_game)
        (not (is_rom p) && is_there st.current_rom)
        (not (is_disk p) && is_there st.current_disk)
        (run_process p (token_data s) st >>= run_process p token_close)
both_calls p s st h = close_behind p st _ _ _ (run_process p (token_data s) st) h (
    data-CallEnds st.opened st.level st.error st.games p s st.current_game st.current_rom
      st.current_disk h)
