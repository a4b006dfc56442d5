-- ===== src/Gamexml/Fields.antt =====
-- gamexml.cc: the handlers on one attribute or element with a text.
use advancescan.Base.{
  Bool, Bytes, List, Option, Result, [], ap, arith, err, false, if◌then◌else◌, length, lt→ltb, none,
  not, ok, refl, some, suc, true, ℕ, ◌%◌, ◌&&◌, ◌+◌, ◌>>=◌, ◌||◌, ◌∷◌, ◌≡◌,
}
use advancescan.Gameinfo.{Listed}
use advancescan.Gameinfo.Words.{
  word_cloneof, word_description, word_manufacturer, word_name, word_romof, word_sampleof,
  word_year,
}
use advancescan.Gamexml.{
  Level, Process, XmlState, cloneof_process, description_process, game_process, isbios_process,
  manufacturer_process, name_process, romof_process, runnable_process, sampleof_process,
  year_process,
}
use advancescan.Gamexml.Filling.{IsShort}
use advancescan.Gamexml.Handlers.{
  add_text, data_handler, end_handler, push_level, run_process, start_element, text_of,
}
use advancescan.Gamexml.Listing.{
  GameField, cloneof_field, description_field, game_word, isbios_field, manufacturer_field,
  name_field, romof_field, runnable_field, sampleof_field, set_game, year_field,
}
use advancescan.Gamexml.Needs.{state_of}
use advancescan.Gamexml.Table.{identify, match_gamemachine, match_mamemessraine, tag_fits}
use advancescan.Gamexml.Words.{word_isbios, word_no, word_runnable}
use advancescan.Rom.{Rom}
use advancescan.Zip.Archive.{bytes_eq}

chain_inner :
    (m : Result XmlState) (g k : XmlState → Result XmlState)
    → (m >>= λ y. g y >>= k) ≡ (m >>= g >>= k)
chain_inner (err e) g k = refl
chain_inner (ok y) g k = refl

-- four calls, one behind the other
pub chain :
    (m : Result XmlState) (f g k : XmlState → Result XmlState)
    → (m >>= (λ x. ok x) >>= λ x. f x >>= λ y. g y >>= k) ≡ (m >>= f >>= g >>= k)
chain (err e) f g k = refl
chain (ok x) f g k = chain_inner (f x) g k

pub resource_step :
    (g : Listed) (b w : Bool)
    → (if not b then record g { resource = w } else record g { resource = b })
      ≡ record g { resource = b || w }
resource_step g true w = refl
resource_step g false w = refl

pub working_step :
    (g : Listed) (b w : Bool)
    → (if w then record g { working = false } else record g { working = b })
      ≡ record g { working = b && not w }
working_step g true true = refl
working_step g true false = refl
working_step g false true = refl
working_step g false false = refl

pub nodump_step :
    (r : Rom) (b w : Bool)
    → (if w then record r { nodump = true } else record r { nodump = b })
      ≡ record r { nodump = b || w }
nodump_step r true true = refl
nodump_step r true false = refl
nodump_step r false true = refl
nodump_step r false false = refl

-- the memory, and the names and texts of the two outer elements
pub record Setting : Type 0 where
  pub alloc : ℕ → Bool
  pub plenty : (n : ℕ) → alloc n ≡ true
  pub root : Bytes
  pub machine : Bytes
  pub root_text : Option Bytes
  pub game_text : Option Bytes
  pub is_root : tag_fits match_mamemessraine root ≡ true
  pub is_machine : tag_fits match_gamemachine machine ≡ true

module _ (k : Setting) where
  -- the levels of a game
  abbrev pub root_level : Level
  root_level = record { tag = k.root; text = k.root_text; process = none }

  abbrev pub game_level : Level
  game_level = record { tag = k.machine; text = k.game_text; process = some game_process }

  -- the state within a game
  abbrev pub game_state : List Listed → Listed → XmlState
  game_state gs g = state_of 2 (game_level ∷ root_level ∷ []) none gs (some g) none none

  -- the text of a level that has none
  pub short_text :
      (tag : Bytes) (p : Process) (v : Bytes) (st : XmlState)
      → IsShort v
      → add_text k.alloc v
          (record { tag = tag; text = none; process = some p })
          st.level
          (push_level tag (some p) st)
        ≡ ok (record st {
          opened = suc st.opened;
          level = record { tag = tag; text = some v; process = some p } ∷ st.level;
        })
  short_text tag p v st h =
      rw
        (
          k.plenty ((0 + length v) % 4294967296),
          lt→ltb (0 + length v) 4294967296 (omega (arith, h)),
        )
        refl

  -- an element or attribute with a text
  abbrev pub one_element : Bytes → Bytes → XmlState → Result XmlState
  one_element tag v st = start_element tag st >>= data_handler k.alloc v >>= end_handler

  pub game_step :
      (f : GameField) (v : Bytes) (gs : List Listed) (g : Listed)
      → IsShort v
      → one_element (game_word f) v (game_state gs g) ≡ ok (game_state gs (set_game f v g))
  unfolding start_element identify bytes_eq data_handler end_handler run_process
  game_step runnable_field v gs g h =
      rw (k.is_machine, k.is_root)
        (rw (short_text word_runnable runnable_process v (game_state gs g) h)
          (ap (λ x. ok (game_state gs x)) (resource_step g g.resource (bytes_eq v word_no))))
  game_step isbios_field v gs g h =
      rw (k.is_machine, k.is_root)
        (rw (short_text word_isbios isbios_process v (game_state gs g) h) refl)
  game_step name_field v gs g h =
      rw (k.is_machine, k.is_root)
        (rw (short_text word_name name_process v (game_state gs g) h) refl)
  game_step description_field v gs g h =
      rw (k.is_machine, k.is_root)
        (rw (short_text word_description description_process v (game_state gs g) h) refl)
  game_step manufacturer_field v gs g h =
      rw (k.is_machine, k.is_root)
        (rw (short_text word_manufacturer manufacturer_process v (game_state gs g) h) refl)
  game_step year_field v gs g h =
      rw (k.is_machine, k.is_root)
        (rw (short_text word_year year_process v (game_state gs g) h) refl)
  game_step cloneof_field v gs g h =
      rw (k.is_machine, k.is_root)
        (rw (short_text word_cloneof cloneof_process v (game_state gs g) h) refl)
  game_step romof_field v gs g h =
      rw (k.is_machine, k.is_root)
        (rw (short_text word_romof romof_process v (game_state gs g) h) refl)
  game_step sampleof_field v gs g h =
      rw (k.is_machine, k.is_root)
        (rw (short_text word_sampleof sampleof_process v (game_state gs g) h) refl)

  -- the function of an element with a text
  abbrev pub game_function : GameField → Process
  game_function runnable_field = runnable_process
  game_function isbios_field = isbios_process
  game_function name_field = name_process
  game_function description_field = description_process
  game_function manufacturer_field = manufacturer_process
  game_function year_field = year_process
  game_function cloneof_field = cloneof_process
  game_function romof_field = romof_process
  game_function sampleof_field = sampleof_process

  -- within an element with a text
  abbrev pub text_state : GameField → Option Bytes → List Listed → Listed → XmlState
  text_state f t gs g =
      state_of 3
        (record { tag = game_word f; text = t; process = some (game_function f) }
          ∷ game_level
          ∷ root_level
          ∷ [])
        none gs (some g) none none

  pub open_text :
      (f : GameField) (gs : List Listed) (g : Listed)
      → start_element (game_word f) (game_state gs g) ≡ ok (text_state f none gs g)
  unfolding start_element identify bytes_eq run_process
  open_text runnable_field gs g = rw (k.is_machine, k.is_root) refl
  open_text isbios_field gs g = rw (k.is_machine, k.is_root) refl
  open_text name_field gs g = rw (k.is_machine, k.is_root) refl
  open_text description_field gs g = rw (k.is_machine, k.is_root) refl
  open_text manufacturer_field gs g = rw (k.is_machine, k.is_root) refl
  open_text year_field gs g = rw (k.is_machine, k.is_root) refl
  open_text cloneof_field gs g = rw (k.is_machine, k.is_root) refl
  open_text romof_field gs g = rw (k.is_machine, k.is_root) refl
  open_text sampleof_field gs g = rw (k.is_machine, k.is_root) refl

  pub close_text :
      (f : GameField) (t : Option Bytes) (gs : List Listed) (g : Listed)
      → end_handler (text_state f t gs g) ≡ ok (game_state gs (set_game f (text_of t) g))
  unfolding end_handler run_process
  close_text runnable_field t gs g =
      ap (λ x. ok (game_state gs x)) (resource_step g g.resource (bytes_eq (text_of t) word_no))
  close_text isbios_field t gs g = refl
  close_text name_field t gs g = refl
  close_text description_field t gs g = refl
  close_text manufacturer_field t gs g = refl
  close_text year_field t gs g = refl
  close_text cloneof_field t gs g = refl
  close_text romof_field t gs g = refl
  close_text sampleof_field t gs g = refl
