-- ===== src/Gamexml/Filling.antt =====
-- gamexml.cc: what a list has between the elements and attributes that the reader uses.
use advancescan.Base.{Bytes, List, Option, [], false, length, none, some, ◌++◌, ◌<◌, ◌∷◌, ◌≡◌}
use advancescan.Gamexml.Handlers.{XmlEvent, data_event, end_event, start_event, text_of}
use advancescan.Zip.Archive.{bytes_eq}

-- Text, and elements of any other name with their attributes, what they hold, and what follows them.
pub data Filling : Type 0 where
  filling_ends : Filling
  char_data : Bytes → Filling → Filling
  other_element : Bytes → List (Bytes × Bytes) → Filling → Filling → Filling

abbrev pub fill_events : Filling → List XmlEvent → List XmlEvent
fill_events filling_ends events = events
fill_events (char_data s rest) events = data_event s ∷ fill_events rest events
fill_events (other_element tag attributes inner rest) events =
    start_event tag attributes ∷ fill_events inner (end_event ∷ fill_events rest events)

-- the text of the element around it
abbrev pub fill_text : Filling → Option Bytes → Option Bytes
fill_text filling_ends t = t
fill_text (char_data s rest) t = fill_text rest (some (text_of t ++ s))
fill_text (other_element tag attributes inner rest) t = fill_text rest t

-- a text is shorter than an unsigned can say
abbrev pub IsShort : Bytes → Type 0
IsShort v = length v < 4294967296

abbrev pub AreShortValues : List (Bytes × Bytes) → Type 0
AreShortValues [] = Unit
AreShortValues ((tag, v) ∷ attributes) = IsShort v × AreShortValues attributes

-- The text of each element stays short, and the outer elements have names that pass.
abbrev pub IsFilling : (Bytes → Type 0) → Filling → Option Bytes → Type 0
IsFilling Passes filling_ends t = Unit
IsFilling Passes (char_data s rest) t =
    IsShort (text_of t ++ s) × IsFilling Passes rest (some (text_of t ++ s))
IsFilling Passes (other_element tag attributes inner rest) t =
    Passes tag
    × AreShortValues attributes
    × IsFilling (λ name. Unit) inner none
    × IsFilling Passes rest t

-- the name is none of these
abbrev pub IsNoneOf : List Bytes → Bytes → Type 0
IsNoneOf [] tag = Unit
IsNoneOf (word ∷ words) tag = (bytes_eq tag word ≡ false) × IsNoneOf words tag
