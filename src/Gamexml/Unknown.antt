-- ===== src/Gamexml/Unknown.antt =====
-- gamexml.cc: the names that the table does not have, at each place of a list.
use advancescan.Base.{
  Bool, Bytes, List, [], arith, false, none, refl, suc, true, ◌&&◌, ◌++◌, ◌∷◌, ◌≡◌,
}
use advancescan.Gameinfo.Words.{
  word_cloneof, word_crc, word_description, word_driver, word_manufacturer, word_name, word_rom,
  word_romof, word_sample, word_sampleof, word_size, word_status, word_year,
}
use advancescan.Gamexml.Filling.{IsNoneOf}
use advancescan.Gamexml.Ignored.{Ignores, IsBarren, depth_of, depth_of_le, identify_deep}
use advancescan.Gamexml.Listing.{
  GameField, IsNoGame, cloneof_field, description_field, disk_words, game_word, game_words,
  isbios_field, manufacturer_field, name_field, rom_words, romof_field, runnable_field,
  sampleof_field, year_field,
}
use advancescan.Gamexml.Table.{identify}
use advancescan.Gamexml.Words.{word_disk, word_isbios, word_runnable, word_sha1}
use advancescan.Zip.Archive.{bytes_eq}

and_false : (b : Bool) → (b && false) ≡ false
and_false true = refl
and_false false = refl

pub identify_game :
    (machine root tag : Bytes)
    → IsNoneOf game_words tag
    → identify 2 (tag ∷ machine ∷ root ∷ []) ≡ none
unfolding identify
identify_game machine root tag
      (
        runnable,
        (
          isbios,
          (
            name,
            (
              description,
              (manufacturer, (year, (cloneof, (romof, (sampleof, (rom, (no_disk, rest))))))),
            ),
          ),
        ),
      ) =
    rw
      (
        runnable, isbios, name, description, manufacturer, year, cloneof, romof, sampleof, rom,
        no_disk,
      )
      refl

-- the names of the elements of a game whose attributes are read
abbrev outer_words : List Bytes
outer_words = word_rom ∷ word_disk ∷ word_driver ∷ word_sample ∷ []

identify_in_game :
    (machine root tag c : Bytes)
    → IsNoneOf outer_words tag
    → identify 3 (c ∷ tag ∷ machine ∷ root ∷ []) ≡ none
unfolding identify
identify_in_game machine root tag c (rom, (no_disk, (driver, (sample, rest)))) =
    rw
      (
        rom,
        no_disk,
        driver,
        sample,
        and_false (bytes_eq c word_name),
        and_false (bytes_eq c word_size),
        and_false (bytes_eq c word_crc),
        and_false (bytes_eq c word_status),
        and_false (bytes_eq c word_sha1),
      )
      refl

IsNoneOf-outer_words : (tag : Bytes) → IsNoneOf game_words tag → IsNoneOf outer_words tag
IsNoneOf-outer_words tag
      (
        runnable,
        (
          isbios,
          (name, (description, (manufacturer, (year, (cloneof, (romof, (sampleof, rest))))))),
        ),
      ) =
    rest

IsNoneOf-game_word : (f : GameField) → IsNoneOf outer_words (game_word f)
unfolding bytes_eq
IsNoneOf-game_word runnable_field = (refl, (refl, (refl, (refl, tt))))
IsNoneOf-game_word isbios_field = (refl, (refl, (refl, (refl, tt))))
IsNoneOf-game_word name_field = (refl, (refl, (refl, (refl, tt))))
IsNoneOf-game_word description_field = (refl, (refl, (refl, (refl, tt))))
IsNoneOf-game_word manufacturer_field = (refl, (refl, (refl, (refl, tt))))
IsNoneOf-game_word year_field = (refl, (refl, (refl, (refl, tt))))
IsNoneOf-game_word cloneof_field = (refl, (refl, (refl, (refl, tt))))
IsNoneOf-game_word romof_field = (refl, (refl, (refl, (refl, tt))))
IsNoneOf-game_word sampleof_field = (refl, (refl, (refl, (refl, tt))))

-- whatever stands in an element with a text
pub game_word-Ignores :
    (machine root : Bytes) (f : GameField)
    → Ignores (λ name. Unit) 3 (game_word f ∷ machine ∷ root ∷ [])
game_word-Ignores machine root f tag u = (
  identify_in_game machine root (game_word f) tag (IsNoneOf-game_word f),
  λ c p.
      identify_deep (depth_of 4 p) (p ++ c ∷ tag ∷ game_word f ∷ machine ∷ root ∷ [])
        (depth_of_le 4 p),
)

-- an element of a game with another name
pub game-Ignores : (machine root : Bytes) → Ignores (IsNoneOf game_words) 2 (machine ∷ root ∷ [])
game-Ignores machine root tag u = (identify_game machine root tag u, barren)
  where
    barren : IsBarren 3 (tag ∷ machine ∷ root ∷ [])
    barren c [] = identify_in_game machine root tag c (IsNoneOf-outer_words tag u)
    barren c (d ∷ p) =
        identify_deep (suc (depth_of 3 p)) (d ∷ p ++ c ∷ tag ∷ machine ∷ root ∷ [])
          (omega (arith, depth_of_le 3 p))

identify_beside : (root tag c : Bytes) → IsNoGame tag → identify 2 (c ∷ tag ∷ root ∷ []) ≡ none
unfolding identify
identify_beside root tag c u =
    rw
      (
        u,
        and_false (bytes_eq c word_runnable),
        and_false (bytes_eq c word_isbios),
        and_false (bytes_eq c word_name),
        and_false (bytes_eq c word_description),
        and_false (bytes_eq c word_manufacturer),
        and_false (bytes_eq c word_year),
        and_false (bytes_eq c word_cloneof),
        and_false (bytes_eq c word_romof),
        and_false (bytes_eq c word_sampleof),
        and_false (bytes_eq c word_rom),
        and_false (bytes_eq c word_disk),
      )
      refl

identify_in_beside :
    (root tag c d : Bytes) → IsNoGame tag → identify 3 (d ∷ c ∷ tag ∷ root ∷ []) ≡ none
unfolding identify
identify_in_beside root tag c d u =
    rw
      (
        u,
        and_false (bytes_eq c word_rom),
        and_false (bytes_eq c word_driver),
        and_false (bytes_eq c word_sample),
        and_false (bytes_eq c word_disk),
        and_false (bytes_eq d word_name),
        and_false (bytes_eq d word_size),
        and_false (bytes_eq d word_crc),
        and_false (bytes_eq d word_status),
        and_false (bytes_eq d word_sha1),
      )
      refl

pub identify_root : (root tag : Bytes) → IsNoGame tag → identify 1 (tag ∷ root ∷ []) ≡ none
unfolding identify
identify_root root tag u = rw u refl

-- an element beside the games
pub root-Ignores : (root : Bytes) → Ignores IsNoGame 1 (root ∷ [])
root-Ignores root tag u = (identify_root root tag u, barren)
  where
    barren : IsBarren 2 (tag ∷ root ∷ [])
    barren c [] = identify_beside root tag c u
    barren c (d ∷ []) = identify_in_beside root tag c d u
    barren c (d ∷ e ∷ p) =
        identify_deep (suc (suc (depth_of 2 p))) (d ∷ e ∷ p ++ c ∷ tag ∷ root ∷ [])
          (omega (arith, depth_of_le 2 p))

-- the other attributes of a rom, a disk, a driver and a sample
pub identify_rom :
    (machine root tag : Bytes)
    → IsNoneOf rom_words tag
    → identify 3 (tag ∷ word_rom ∷ machine ∷ root ∷ []) ≡ none
unfolding identify bytes_eq
identify_rom machine root tag (name, (size, (crc, (status, rest)))) =
    rw (name, size, crc, status, and_false (bytes_eq tag word_sha1)) refl

pub identify_disk :
    (machine root tag : Bytes)
    → IsNoneOf disk_words tag
    → identify 3 (tag ∷ word_disk ∷ machine ∷ root ∷ []) ≡ none
unfolding identify bytes_eq
identify_disk machine root tag (name, (sha1, rest)) =
    rw
      (
        name,
        sha1,
        and_false (bytes_eq tag word_size),
        and_false (bytes_eq tag word_crc),
        and_false (bytes_eq tag word_status),
      )
      refl

pub identify_driver :
    (machine root tag : Bytes)
    → bytes_eq tag word_status ≡ false
    → identify 3 (tag ∷ word_driver ∷ machine ∷ root ∷ []) ≡ none
unfolding identify bytes_eq
identify_driver machine root tag status =
    rw
      (
        status,
        and_false (bytes_eq tag word_name),
        and_false (bytes_eq tag word_size),
        and_false (bytes_eq tag word_crc),
        and_false (bytes_eq tag word_sha1),
      )
      refl

pub identify_sample :
    (machine root tag : Bytes)
    → bytes_eq tag word_name ≡ false
    → identify 3 (tag ∷ word_sample ∷ machine ∷ root ∷ []) ≡ none
unfolding identify bytes_eq
identify_sample machine root tag name =
    rw
      (
        name,
        and_false (bytes_eq tag word_status),
        and_false (bytes_eq tag word_size),
        and_false (bytes_eq tag word_crc),
        and_false (bytes_eq tag word_sha1),
      )
      refl
