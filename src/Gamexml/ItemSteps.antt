-- ===== src/Gamexml/ItemSteps.antt =====
-- gamexml.cc: the handlers on what a game has in it.
use advancescan.Base.{
  Bytes, List, Option, [], ap, append-nil, append_assoc, false, none, ok, refl, some, sym, ◌++◌,
  ◌>>=◌, ◌∙◌, ◌∷◌, ◌≡◌,
}
use advancescan.Disk.{print_hash}
use advancescan.Game.{DiskInfo}
use advancescan.Gameinfo.{Listed}
use advancescan.Gameinfo.Words.{word_driver, word_name, word_rom, word_sample, word_status}
use advancescan.Gamexml.{XmlState, new_disk}
use advancescan.Gamexml.Fields.{
  Setting, close_text, game_function, game_level, game_state, game_step, one_element, open_text,
  root_level,
}
use advancescan.Gamexml.Filling.{
  Filling, IsFilling, IsNoneOf, char_data, fill_events, fill_text, filling_ends, other_element,
}
use advancescan.Gamexml.Handlers.{
  XmlEvent, attributes_loop, end_event, end_handler, handle_all, run_process, start_element,
  start_handler, text_of,
}
use advancescan.Gamexml.Ignored.{filling_step, ignored_attribute, others_loop}
use advancescan.Gamexml.Listing.{
  AreDiskTexts, AreOthers, AreRomTexts, AreShort, Attribute, DiskAttribute, GameField, GameItem,
  IsItem, RomField, disk_attributes, disk_item, diskname_attribute, driver_item, empty_element,
  filling_item, game_attributes, game_word, game_words, item_events, known_attribute, listed_disk,
  listed_rom, other_attribute, other_disk_attribute, rom_attributes, rom_item, rom_word,
  sample_item, set_game, set_rom, sha1_attribute, text_behind, text_item, whole_text, with_fields,
  with_item,
}
use advancescan.Gamexml.RomFields.{
  disk_state, diskname_step, disksha1_step, driver_step, other_state, rom_state, rom_step,
  sample_step,
}
use advancescan.Gamexml.Table.{identify}
use advancescan.Gamexml.Unknown.{
  game-Ignores, game_word-Ignores, identify_disk, identify_driver, identify_game, identify_rom,
  identify_sample,
}
use advancescan.Gamexml.Words.{word_disk, word_sha1}
use advancescan.Rom.{Rom, new_rom}
use advancescan.Zip.Archive.{bytes_eq}

text_of-fill_text :
    (f : Filling) (t : Option Bytes) → text_of (fill_text f t) ≡ text_of t ++ whole_text f
text_of-fill_text filling_ends t = sym (append-nil (text_of t))
text_of-fill_text (char_data s rest) t =
    text_of-fill_text rest (some (text_of t ++ s)) ∙ append_assoc (text_of t) s (whole_text rest)
text_of-fill_text (other_element tag attributes inner rest) t = text_of-fill_text rest t

module _ (k : Setting) where
  -- an attribute, before the others
  first_attribute :
      (tag v : Bytes) (attributes : List (Bytes × Bytes)) (st st1 : XmlState)
      → one_element k tag v st ≡ ok st1
      → attributes_loop k.alloc ((tag, v) ∷ attributes) st ≡ attributes_loop k.alloc attributes st1
  unfolding attributes_loop
  first_attribute tag v attributes st st1 e = ap (λ m. m >>= attributes_loop k.alloc attributes) e

  pub game_attributes_loop :
      (attributes : List (Attribute GameField)) (gs : List Listed) (g : Listed)
      → AreShort attributes
      → attributes_loop k.alloc (game_attributes attributes) (game_state k gs g)
        ≡ ok (game_state k gs (with_fields attributes g))
  unfolding attributes_loop
  game_attributes_loop [] gs g h = refl
  game_attributes_loop (known_attribute f v ∷ attributes) gs g h =
      first_attribute (game_word f) v (game_attributes attributes) (game_state k gs g) _
        (game_step k f v gs g (h.0))
      ∙ game_attributes_loop attributes gs (set_game f v g) (h.1)
  game_attributes_loop (other_attribute tag v ∷ attributes) gs g h =
      first_attribute tag v (game_attributes attributes) (game_state k gs g) (game_state k gs g) (
        ignored_attribute k gs (some g) none none 2 (game_level k ∷ root_level k ∷ []) tag v
          (identify_game k.machine k.root tag (h.0)) (h.1))
      ∙ game_attributes_loop attributes gs g (h.2)

  rom_attributes_loop :
      (attributes : List (Attribute RomField)) (gs : List Listed) (g : Listed) (r : Rom)
      → AreRomTexts attributes
      → attributes_loop k.alloc (rom_attributes attributes) (rom_state k gs g r)
        ≡ ok (rom_state k gs g (listed_rom attributes r))
  unfolding attributes_loop rom_state
  rom_attributes_loop [] gs g r h = refl
  rom_attributes_loop (known_attribute f v ∷ attributes) gs g r h =
      first_attribute (rom_word f) v (rom_attributes attributes) (rom_state k gs g r) _
        (rom_step k f v gs g r (h.0))
      ∙ rom_attributes_loop attributes gs g (set_rom f v r) (h.1)
  rom_attributes_loop (other_attribute tag v ∷ attributes) gs g r h =
      first_attribute tag v (rom_attributes attributes) (rom_state k gs g r) (rom_state k gs g r) (
        ignored_attribute k gs (some g) (some r) none 3 (rom_state k gs g r).level tag v
          (identify_rom k.machine k.root tag (h.0)) (h.1))
      ∙ rom_attributes_loop attributes gs g r (h.2)

  disk_attributes_loop :
      (attributes : List DiskAttribute) (gs : List Listed) (g : Listed) (d : DiskInfo)
      → AreDiskTexts attributes
      → attributes_loop k.alloc (disk_attributes attributes) (disk_state k gs g d)
        ≡ ok (disk_state k gs g (listed_disk attributes d))
  unfolding attributes_loop disk_state
  disk_attributes_loop [] gs g d h = refl
  disk_attributes_loop (diskname_attribute v ∷ attributes) gs g d h =
      first_attribute word_name v (disk_attributes attributes) (disk_state k gs g d) _
        (diskname_step k v gs g d (h.0))
      ∙ disk_attributes_loop attributes gs g (record d { name = v }) (h.1)
  disk_attributes_loop (sha1_attribute hash ∷ attributes) gs g d h =
      first_attribute word_sha1 (print_hash hash) (disk_attributes attributes) (disk_state k gs g d)
        _ (disksha1_step k hash gs g d (h.0) (h.1))
      ∙ disk_attributes_loop attributes gs g (record d { hash = hash }) (h.2)
  disk_attributes_loop (other_disk_attribute tag v ∷ attributes) gs g d h =
      first_attribute tag v (disk_attributes attributes) (disk_state k gs g d) (disk_state k gs g d)
        (ignored_attribute k gs (some g) none (some d) 3 (disk_state k gs g d).level tag v
          (identify_disk k.machine k.root tag (h.0)) (h.1))
      ∙ disk_attributes_loop attributes gs g d (h.2)

  -- one attribute that is read, among others
  one_attribute_loop :
      (Passes : Bytes → Type 0) (name word v : Bytes) (before behind : List (Bytes × Bytes))
      (gs : List Listed) (g g1 : Listed)
      → ((c : Bytes) → Passes c → identify 3 (c ∷ name ∷ k.machine ∷ k.root ∷ []) ≡ none)
      → AreOthers Passes before
      → AreOthers Passes behind
      → one_element k word v (other_state k name gs g) ≡ ok (other_state k name gs g1)
      → attributes_loop k.alloc (before ++ (word, v) ∷ behind) (other_state k name gs g)
        ≡ ok (other_state k name gs g1)
  unfolding attributes_loop other_state
  one_attribute_loop Passes name word v before behind gs g g1 i a b e =
      let level = (other_state k name gs g).level in
      others_loop k gs (some g) none none Passes 3 level before ((word, v) ∷ behind) i a
      ∙ first_attribute word v behind (other_state k name gs g) (other_state k name gs g1) e
      ∙ ap (λ l. attributes_loop k.alloc l (other_state k name gs g1)) (sym (append-nil behind))
      ∙ others_loop k gs (some g1) none none Passes 3 level behind [] i b

  -- an element without text, by the state that it opens and the one that its attributes leave
  element_step :
      (tag : Bytes) (attributes : List (Bytes × Bytes)) (events : List XmlEvent)
      (st st1 st2 st3 : XmlState)
      → start_handler k.alloc tag attributes st
        ≡ (start_element tag st >>= attributes_loop k.alloc attributes)
      → start_element tag st ≡ ok st1
      → attributes_loop k.alloc attributes st1 ≡ ok st2
      → end_handler st2 ≡ ok st3
      → handle_all k.alloc (empty_element tag attributes events) st ≡ handle_all k.alloc events st3
  unfolding handle_all
  element_step tag attributes events st st1 st2 st3 a b c d =
      ap (λ m. m >>= λ x. end_handler x >>= handle_all k.alloc events)
        (a ∙ ap (λ m. m >>= attributes_loop k.alloc attributes) b ∙ c)
      ∙ ap (λ m. m >>= handle_all k.alloc events) d

  -- an element with a text, and whatever else stands in it
  text_step :
      (f : GameField) (filling : Filling) (events : List XmlEvent) (gs : List Listed) (g : Listed)
      → IsFilling (λ name. Unit) filling none
      → handle_all k.alloc (item_events (text_item f filling) events) (game_state k gs g)
        ≡ handle_all k.alloc events (game_state k gs (set_game f (whole_text filling) g))
  unfolding handle_all attributes_loop start_handler
  text_step f filling events gs g h =
      let behind = fill_events filling (end_event ∷ events) in
      ap (λ m. m >>= attributes_loop k.alloc [] >>= handle_all k.alloc behind) (open_text k f gs g)
      ∙ filling_step k gs (some g) none none (λ name. Unit) filling (end_event ∷ events) 2
          (record { tag = game_word f; text = none; process = some (game_function k f) })
          (game_level k ∷ root_level k ∷ []) refl (game_word-Ignores k.machine k.root f) h
      ∙ ap (λ m. m >>= handle_all k.alloc events) (close_text k f (fill_text filling none) gs g)
      ∙ ap (λ v. handle_all k.alloc events (game_state k gs (set_game f v g)))
          (text_of-fill_text filling none)

  -- the texts behind an item
  abbrev pub behind_item : GameItem → Setting
  behind_item i = record k { game_text = text_behind i k.game_text }

  pub item_step :
      (i : GameItem) (events : List XmlEvent) (gs : List Listed) (g : Listed)
      → IsItem i k.game_text
      → handle_all k.alloc (item_events i events) (game_state k gs g)
        ≡ handle_all k.alloc events (game_state (behind_item i) gs (with_item i g))
  unfolding start_handler start_element identify bytes_eq end_handler run_process rom_state
      disk_state other_state attributes_loop
  item_step (text_item f filling) events gs g h = text_step f filling events gs g h
  item_step (rom_item attributes) events gs g h =
      element_step word_rom (rom_attributes attributes) events (game_state k gs g)
        (rom_state k gs g new_rom) (rom_state k gs g (listed_rom attributes new_rom)) _ refl
        (rw (k.is_machine, k.is_root) refl) (rom_attributes_loop attributes gs g new_rom h) refl
  item_step (disk_item attributes) events gs g h =
      element_step word_disk (disk_attributes attributes) events (game_state k gs g)
        (disk_state k gs g new_disk) (disk_state k gs g (listed_disk attributes new_disk)) _ refl
        (rw (k.is_machine, k.is_root) refl) (disk_attributes_loop attributes gs g new_disk h) refl
  item_step (driver_item before status behind) events gs g h =
      let g1 = with_item (driver_item before status behind) g in
      element_step word_driver (before ++ (word_status, status) ∷ behind) events (game_state k gs g)
        (other_state k word_driver gs g) (other_state k word_driver gs g1) _ refl refl
        (one_attribute_loop (λ tag. bytes_eq tag word_status ≡ false) word_driver word_status status
          before behind gs g g1 (identify_driver k.machine k.root) (h.0) (h.2)
          (driver_step k status gs g (h.1)))
        refl
  item_step (sample_item before name behind) events gs g h =
      let g1 = with_item (sample_item before name behind) g in
      element_step word_sample (before ++ (word_name, name) ∷ behind) events (game_state k gs g)
        (other_state k word_sample gs g) (other_state k word_sample gs g1) _ refl refl
        (one_attribute_loop (λ tag. bytes_eq tag word_name ≡ false) word_sample word_name name
          before behind gs g g1 (identify_sample k.machine k.root) (h.0) (h.2)
          (sample_step k name gs g (h.1)))
        refl
  item_step (filling_item filling) events gs g h =
      filling_step k gs (some g) none none (IsNoneOf game_words) filling events 1 (game_level k)
        (root_level k ∷ []) refl (game-Ignores k.machine k.root) h
