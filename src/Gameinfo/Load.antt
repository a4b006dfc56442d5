-- ===== src/Gameinfo/Load.antt =====
-- gameinfo.cc: load_info_internal and load_info, the fields of the games.
use advancescan.Base.{Bool, Bytes, List, [], false, if◌then◌else◌, true, ℕ, ◌&&◌, ◌==◌, ◌||◌, ◌∷◌}
use advancescan.Gameinfo.{
  Listed, Parse, and_then, fields, has_read, in_parentheses, insert_listed, is_text_of, new_listed,
  read_text, refusal, skip_field,
}
use advancescan.Gameinfo.Words.{
  word_cloneof, word_crc, word_description, word_driver, word_flags, word_game, word_machine,
  word_manufacturer, word_name, word_nodump, word_preliminary, word_resource, word_rom, word_romof,
  word_sample, word_sampleof, word_size, word_status, word_year,
}
use advancescan.Readinfo.{Scanned, bare, info_eof, info_error, info_string, info_symbol, new_place}
use advancescan.Rom.{Rom, insert_rom, new_rom}
use advancescan.Scan.Sample.{insert_sample}
use advancescan.Strcov.{strdec, strhex}
use advancescan.Zip.Archive.{bytes_eq}

-- strdec of the whole text
unfoldable pub number_of : Bytes → Parse ℕ
number_of text = let (v, e) = strdec text in elim e [ [] ↦ has_read v | _ ∷ _ ↦ refusal ]

-- if (n[0] == '0' && n[1] == 'x') n += 2;
abbrev pub behind_prefix : Bytes → Bytes
behind_prefix (a ∷ b ∷ text) = if a == b'0' && b == b'x' then text else a ∷ b ∷ text
behind_prefix text = text

-- strhex of the text behind the prefix
unfoldable pub checksum_of : Bytes → Parse ℕ
checksum_of text =
    let (v, e) = strhex (behind_prefix text) in elim e [ [] ↦ has_read v | _ ∷ _ ↦ refusal ]

-- one field of a rom
unfoldable pub rom_field : Scanned → Rom → Parse (Scanned × Rom)
rom_field t r =
    if is_text_of t word_name
    then read_text info_symbol t (λ text. has_read (record r { name = text }))
    else if is_text_of t word_size
    then read_text info_symbol t
        (λ text. and_then (number_of text) (λ v. has_read (record r { size = v })))
    else if is_text_of t word_crc
    then read_text info_symbol t
        (λ text. and_then (checksum_of text) (λ v. has_read (record r { crc = v })))
    else if is_text_of t word_flags
    then read_text info_symbol t
        (λ text. has_read (if bytes_eq text word_nodump then record r { nodump = true } else r))
    else skip_field t r

-- one field of a driver
unfoldable pub driver_field : Scanned → Listed → Parse (Scanned × Listed)
driver_field t g =
    if is_text_of t word_status
    then read_text info_symbol t (λ text.
      has_read (if bytes_eq text word_preliminary then record g { working = false } else g))
    else skip_field t g

-- the rom in parentheses, and g.rs_get().insert(r)
unfoldable pub read_rom : Scanned → Listed → Parse (Scanned × Listed)
read_rom t g =
    and_then (in_parentheses rom_field t new_rom)
      (λ p. has_read (p.0, record g { roms = insert_rom (p.1) g.roms }))

-- one field of a game
unfoldable pub game_field : Scanned → Listed → Parse (Scanned × Listed)
game_field t g =
    if is_text_of t word_name
    then read_text info_symbol t (λ text. has_read (record g { name = text }))
    else if is_text_of t word_description
    then read_text info_string t (λ text. has_read (record g { description = text }))
    else if is_text_of t word_manufacturer
    then read_text info_string t (λ text. has_read (record g { manufacturer = text }))
    else if is_text_of t word_year
    then read_text info_symbol t (λ text. has_read (record g { year = text }))
    else if is_text_of t word_cloneof
    then read_text info_symbol t (λ text. has_read (record g { cloneof = text }))
    else if is_text_of t word_romof
    then read_text info_symbol t (λ text. has_read (record g { romof = text }))
    else if is_text_of t word_sampleof
    then read_text info_symbol t (λ text. has_read (record g { sampleof = text }))
    else if is_text_of t word_rom
    then read_rom t g
    else if is_text_of t word_driver
    then in_parentheses driver_field t g
    else if is_text_of t word_sample
    then read_text info_symbol t
        (λ text. has_read (record g { samples = insert_sample text g.samples }))
    else skip_field t g

-- the game in parentheses, and map.insert(g)
unfoldable pub read_game : Bool → Scanned → List Listed → Parse (Scanned × List Listed)
read_game resource t gs =
    and_then (in_parentheses game_field t (new_listed resource))
      (λ p. has_read (p.0, insert_listed (p.1) gs))

-- one field of the file
unfoldable pub file_field : Scanned → List Listed → Parse (Scanned × List Listed)
file_field t gs =
    if is_text_of t word_game || is_text_of t word_resource || is_text_of t word_machine
    then read_game (is_text_of t word_resource) t gs
    else skip_field t gs

-- load_info, into an empty gamearchive
unfoldable pub load_info : Bytes → Parse (List Listed)
load_info s =
    and_then (fields file_field info_eof (bare info_error s new_place) []) (λ p. has_read (p.1))
