-- ===== src/Gameinfo/Reader.antt =====
-- gameinfo.cc: load_info on every file.
use advancescan.Base.{Bool, Bytes, List, [], false, if◌then◌else◌, length, true, ℕ, ◌||◌, ◌∷◌}
use advancescan.Gameinfo.{
  Listed, Parse, and_then, fields, has_read, in_parentheses, insert_listed, is_text_of, new_listed,
  read_text, refusal,
}
use advancescan.Gameinfo.Load.{
  behind_prefix, checksum_of, driver_field, file_field, game_field, load_info, number_of, read_game,
  read_rom, rom_field,
}
use advancescan.Gameinfo.Total.{
  Ends, Fine, Fine-then, IsField, accepts, fields-Fine, fine_read, fine_refusal,
  in_parentheses-Fine, read_text-Fine, refuses, skip_field-Fine,
}
use advancescan.Gameinfo.Words.{
  word_cloneof, word_crc, word_description, word_driver, word_flags, word_game, word_machine,
  word_manufacturer, word_name, word_nodump, word_preliminary, word_resource, word_rom, word_romof,
  word_sample, word_sampleof, word_size, word_status, word_year,
}
use advancescan.Readinfo.{
  InfoToken, Scanned, bare, info_eof, info_error, info_string, info_symbol, new_place,
}
use advancescan.Rom.{insert_rom, new_rom}
use advancescan.Scan.Sample.{insert_sample}
use advancescan.Strcov.{strdec, strhex}
use advancescan.Zip.Archive.{bytes_eq}

if-Fine {ℓ} :
    {A : Type ℓ} {n : ℕ} {x y : Parse (Scanned × A)} (b : Bool)
    → Fine n x
    → Fine n y
    → Fine n (if b then x else y)
if-Fine true f g = f
if-Fine false f g = g

number_of-Ends : (text : Bytes) → Ends (number_of text)
unfolding number_of
number_of-Ends text = go (strdec text).0 (strdec text).1
  where
    go : (v : ℕ) (e : Bytes) → Ends {A = ℕ} (elim e [ [] ↦ has_read v | _ ∷ _ ↦ refusal ])
    go v [] = accepts v
    go v (c ∷ e) = refuses

checksum_of-Ends : (text : Bytes) → Ends (checksum_of text)
unfolding checksum_of
checksum_of-Ends text = go (strhex (behind_prefix text)).0 (strhex (behind_prefix text)).1
  where
    go : (v : ℕ) (e : Bytes) → Ends {A = ℕ} (elim e [ [] ↦ has_read v | _ ∷ _ ↦ refusal ])
    go v [] = accepts v
    go v (c ∷ e) = refuses

then-Ends {ℓ κ} :
    {A : Type ℓ} {B : Type κ} (p : Parse A) (f : A → B)
    → Ends p
    → Ends (and_then p (λ a. has_read (f a)))
then-Ends _ f refuses = refuses
then-Ends _ f (accepts a) = accepts (f a)

rom_field-Fine : IsField rom_field
unfolding rom_field
rom_field-Fine t r =
    if-Fine (is_text_of t word_name)
      (read_text-Fine info_symbol t (λ text. has_read (record r { name = text }))
        (λ text. accepts (record r { name = text })))
      (if-Fine (is_text_of t word_size)
        (read_text-Fine info_symbol t
          (λ text. and_then (number_of text) (λ v. has_read (record r { size = v })))
          (λ text. then-Ends (number_of text) (λ v. record r { size = v }) (number_of-Ends text)))
        (if-Fine (is_text_of t word_crc)
          (read_text-Fine info_symbol t
            (λ text. and_then (checksum_of text) (λ v. has_read (record r { crc = v })))
            (λ text.
              then-Ends (checksum_of text) (λ v. record r { crc = v }) (checksum_of-Ends text)))
          (if-Fine (is_text_of t word_flags)
            (read_text-Fine info_symbol t
              (λ text.
                has_read (if bytes_eq text word_nodump then record r { nodump = true } else r))
              (λ text.
                accepts (if bytes_eq text word_nodump then record r { nodump = true } else r)))
            (skip_field-Fine t r))))

driver_field-Fine : IsField driver_field
unfolding driver_field
driver_field-Fine t g =
    if-Fine (is_text_of t word_status)
      (read_text-Fine info_symbol t
        (λ text.
          has_read (if bytes_eq text word_preliminary then record g { working = false } else g))
        (λ text.
          accepts (if bytes_eq text word_preliminary then record g { working = false } else g)))
      (skip_field-Fine t g)

read_rom-Fine : IsField read_rom
unfolding read_rom
read_rom-Fine t g =
    Fine-then (length t.stream) (in_parentheses rom_field t new_rom)
      (λ p. has_read (p.0, record g { roms = insert_rom (p.1) g.roms }))
      (in_parentheses-Fine rom_field rom_field-Fine t new_rom)
      (λ v r l. fine_read v (record g { roms = insert_rom r g.roms }) l)

-- a field of one text that is stored
stored-Fine :
    (w : InfoToken) (t : Scanned) (keep : Bytes → Listed)
    → Fine (length t.stream) (read_text w t (λ text. has_read (keep text)))
stored-Fine w t keep =
    read_text-Fine w t (λ text. has_read (keep text)) (λ text. accepts (keep text))

game_field-Fine : IsField game_field
unfolding game_field
game_field-Fine t g =
    if-Fine (is_text_of t word_name) (stored-Fine info_symbol t (λ text. record g { name = text }))
      (if-Fine (is_text_of t word_description)
        (stored-Fine info_string t (λ text. record g { description = text }))
        (if-Fine (is_text_of t word_manufacturer)
          (stored-Fine info_string t (λ text. record g { manufacturer = text }))
          (if-Fine (is_text_of t word_year)
            (stored-Fine info_symbol t (λ text. record g { year = text }))
            (if-Fine (is_text_of t word_cloneof)
              (stored-Fine info_symbol t (λ text. record g { cloneof = text }))
              (if-Fine (is_text_of t word_romof)
                (stored-Fine info_symbol t (λ text. record g { romof = text }))
                (if-Fine (is_text_of t word_sampleof)
                  (stored-Fine info_symbol t (λ text. record g { sampleof = text }))
                  (if-Fine (is_text_of t word_rom) (read_rom-Fine t g) (
                    if-Fine (is_text_of t word_driver)
                      (in_parentheses-Fine driver_field driver_field-Fine t g)
                      (if-Fine (is_text_of t word_sample)
                        (stored-Fine info_symbol t
                          (λ text. record g { samples = insert_sample text g.samples }))
                        (skip_field-Fine t g))))))))))

read_game-Fine : (resource : Bool) → IsField (read_game resource)
unfolding read_game
read_game-Fine resource t gs =
    Fine-then (length t.stream) (in_parentheses game_field t (new_listed resource))
      (λ p. has_read (p.0, insert_listed (p.1) gs))
      (in_parentheses-Fine game_field game_field-Fine t (new_listed resource))
      (λ v g l. fine_read v (insert_listed g gs) l)

file_field-Fine : IsField file_field
unfolding file_field
file_field-Fine t gs =
    if-Fine (is_text_of t word_game || is_text_of t word_resource || is_text_of t word_machine)
      (read_game-Fine (is_text_of t word_resource) t gs) (skip_field-Fine t gs)

list-Ends :
    {n : ℕ} (p : Parse (Scanned × List Listed)) → Fine n p → Ends (and_then p (λ q. has_read (q.1)))
list-Ends _ fine_refusal = refuses
list-Ends _ (fine_read v gs l) = accepts gs

-- load_info ends on every file: it refuses the file, or accepts it with a list of games.
pub load_info-Ends : (s : Bytes) → Ends (load_info s)
unfolding load_info
load_info-Ends s =
    let start = bare info_error s new_place in
    list-Ends (fields file_field info_eof start [])
      (fields-Fine file_field file_field-Fine info_eof start [])
