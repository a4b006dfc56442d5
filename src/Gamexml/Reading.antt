-- ===== src/Gamexml/Reading.antt =====
-- gamexml.cc: load_xml on a document that lists games.
use advancescan.Base.{
  Bool, Bytes, List, Option, [], ap, append-nil, false, none, ok, refl, sym, true, ℕ, ◌>>=◌, ◌∙◌,
  ◌∷◌, ◌≡◌,
}
use advancescan.Gameinfo.{Listed, insert_listed, new_listed}
use advancescan.Gamexml.{XmlState}
use advancescan.Gamexml.Fields.{Setting, game_state, root_level}
use advancescan.Gamexml.Filling.{fill_text}
use advancescan.Gamexml.Handlers.{
  XmlEvent, attributes_loop, end_event, end_handler, handle_all, load_xml, new_state, parse_end,
  run_process, start_element, start_event, start_handler,
}
use advancescan.Gamexml.Ignored.{filling_step, others_loop}
use advancescan.Gamexml.ItemSteps.{behind_item, game_attributes_loop, item_step}
use advancescan.Gamexml.Listing.{
  AreGames, AreItems, AreOthers, AreShort, Attribute, GameField, GameItem, IsNoGame, RootItem,
  beside_games, document_events, game_attributes, game_entry, game_of, games_events, games_of,
  items_events, with_fields, with_item, with_items,
}
use advancescan.Gamexml.Needs.{state_of}
use advancescan.Gamexml.Table.{identify, match_gamemachine, match_mamemessraine, tag_fits}
use advancescan.Gamexml.Unknown.{identify_root, root-Ignores}
use advancescan.Ziprom.Laws.{others}

items_step :
    (k : Setting) (items : List GameItem) (events : List XmlEvent) (gs : List Listed) (g : Listed)
    → AreItems items k.game_text
    → (t : Option Bytes) × (handle_all k.alloc (items_events items events) (game_state k gs g)
        ≡ handle_all k.alloc events
            (game_state (record k { game_text = t }) gs (with_items items g)))
items_step k [] events gs g h = (k.game_text, refl)
items_step k (i ∷ items) events gs g h =
    let (t, e) = items_step (behind_item k i) items events gs (with_item i g) (h.1) in
    (t, item_step k i (items_events items events) gs g (h.0) ∙ e)

-- between two games
unfoldable top_state : Setting → List Listed → XmlState
top_state k gs = state_of 1 (root_level k ∷ []) none gs none none none

open_game :
    (k : Setting) (attributes : List (Attribute GameField)) (events : List XmlEvent)
    (gs : List Listed)
    → AreShort attributes
    → handle_all k.alloc
        (start_event k.machine (game_attributes attributes) ∷ events)
        (top_state k gs)
      ≡ handle_all k.alloc events (
          game_state (record k { game_text = none }) gs (with_fields attributes (new_listed false)))
unfolding handle_all start_handler start_element identify run_process top_state
open_game k attributes events gs h =
    rw (k.is_machine, k.is_root)
      (ap (λ m. m >>= handle_all k.alloc events)
        (game_attributes_loop (record k { game_text = none }) attributes gs (new_listed false) h))

close_game :
    (k : Setting) (t : Option Bytes) (events : List XmlEvent) (gs : List Listed) (g : Listed)
    → handle_all k.alloc (end_event ∷ events) (game_state (record k { game_text = t }) gs g)
      ≡ handle_all k.alloc events (top_state k (insert_listed g gs))
unfolding handle_all end_handler run_process top_state
close_game k t events gs g = refl

games_step :
    (k : Setting) (games : List RootItem) (events : List XmlEvent) (gs : List Listed)
    → AreGames games k.root_text
    → (t : Option Bytes) × (handle_all k.alloc
          (games_events k.machine games events)
          (top_state k gs)
        ≡ handle_all k.alloc events (top_state (record k { root_text = t }) (games_of games gs)))
unfolding top_state
games_step k [] events gs h = (k.root_text, refl)
games_step k (game_entry x ∷ games) events gs h =
    let behind = end_event ∷ games_events k.machine games events in
    let g = with_fields x.attributes (new_listed false) in
    let (t, e) = items_step (record k { game_text = none }) x.items behind gs g (h.1) in
    let (u, f) = games_step k games events (insert_listed (game_of x) gs) (h.2) in
    (
      u,
      open_game k x.attributes (items_events x.items behind) gs (h.0)
          ∙ e
          ∙ close_game k t (games_events k.machine games events) gs (with_items x.items g)
          ∙ f,
    )
games_step k (beside_games filling ∷ games) events gs h =
    let k1 : Setting = record k { root_text = fill_text filling k.root_text } in
    let (u, f) = games_step k1 games events gs (h.1) in
    (
      u,
      filling_step k gs none none none IsNoGame filling (games_events k.machine games events) 0
            (root_level k) [] refl (root-Ignores k.root) (h.0)
          ∙ f,
    )

open_root :
    (k : Setting) (attributes : List (Bytes × Bytes)) (events : List XmlEvent)
    → AreOthers IsNoGame attributes
    → handle_all k.alloc (start_event k.root attributes ∷ events) new_state
      ≡ handle_all k.alloc events (top_state (record k { root_text = none }) [])
unfolding handle_all start_handler start_element identify attributes_loop top_state
open_root k attributes events h =
    let k1 : Setting = record k { root_text = none } in
    ap (λ m. m >>= handle_all k.alloc events)
      (ap (λ l. attributes_loop k.alloc l (top_state k1 [])) (sym (append-nil attributes))
        ∙ others_loop k [] none none none IsNoGame 1 (root_level k1 ∷ []) attributes []
            (identify_root k.root) h)

document_step :
    (k : Setting) (attributes : List (Bytes × Bytes)) (games : List RootItem)
    → AreOthers IsNoGame attributes
    → AreGames games none
    → handle_all k.alloc (document_events k.root attributes k.machine games) new_state
      ≡ ok (record new_state { games = games_of games [] })
unfolding handle_all end_handler top_state
document_step k attributes games h i =
    let k1 : Setting = record k { root_text = none } in
    let (t, e) = games_step k1 games (end_event ∷ []) [] i in
    open_root k attributes (games_events k.machine games (end_event ∷ [])) h ∙ e

-- load_xml reads a document whose outer element is mame, mess or raine, with attributes of any names
-- but game and machine. It holds games, all as game or all as machine, and between them text and
-- elements of other names; a game has attributes, elements with texts, roms, disks, drivers and
-- samples, and between them text and elements that the reader does not know, which may hold
-- anything. The attributes that the reader knows may stand among others, and the text of an element
-- may come in pieces, with elements between them. The result is the list of the games that the
-- document stands for, where there is memory, all texts are shorter than 2 ^ 32 bytes, the sizes and
-- checksums of roms are numbers, and the hashes of disks are printed ones of 20 bytes.
pub load_xml-document_events :
    (alloc : ℕ → Bool) (root machine : Bytes) (attributes : List (Bytes × Bytes))
    (games : List RootItem)
    → ((n : ℕ) → alloc n ≡ true)
    → tag_fits match_mamemessraine root ≡ true
    → tag_fits match_gamemachine machine ≡ true
    → AreOthers IsNoGame attributes
    → AreGames games none
    → load_xml alloc (document_events root attributes machine games) none ≡ ok (games_of games [])
unfolding load_xml
load_xml-document_events alloc root machine attributes games plenty is_root is_machine others h =
    ap (λ m. m >>= parse_end none)
      (document_step
        (record {
          alloc = alloc;
          plenty = plenty;
          root = root;
          machine = machine;
          root_text = none;
          game_text = none;
          is_root = is_root;
          is_machine = is_machine;
        })
        attributes games others h)
