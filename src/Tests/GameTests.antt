-- ===== src/Tests/GameTests.antt =====
-- Instances of the theorems about the games that share roms.
use mathlib.Core.Path.{subst}
use advancescan.Base.{
  Bool, Bytes, List, [], arith, false, if◌then◌else◌, none, refl, some, sym, true, ℕ, ◌<◌, ◌↔◌, ◌∷◌,
  ◌≡◌,
}
use advancescan.Gamearchive.{find_listed, reduce_game}
use advancescan.Gamearchive.Adjust.{AreLinked, adjust_all-AreLinked}
use advancescan.Gamearchive.Clones.{
  IsClone, find_working_clones-IsClone, find_working_clones-returns,
}
use advancescan.Gamearchive.Marks.{SameGames, game_working_subset_compute-find_working_clones}
use advancescan.Gamearchive.Reduce.{AreMutual, Falls, reduce_game-AreMutual, reduce_game-ends}
use advancescan.Gamearchive.Relations.{
  adjust_all, clones_of, find_working_clones, game_working_subset_compute,
}
use advancescan.Gamearchive.Sons.{IsIn}
use advancescan.Gameinfo.{Listed, new_listed}
use advancescan.Gamexml.Found.{bytes_eq-same}
use advancescan.Zip.Archive.{bytes_eq}
use advancescan.Zip.Archive.RoundTrip.{bytes_eq_refl}

abbrev one_game : Bytes → Bytes → Listed
one_game name romof = record (new_listed false) { name = name; romof = romof }

abbrev game_p : Listed
game_p = one_game (b'p' ∷ []) (b'q' ∷ [])

abbrev game_q : Listed
game_q = one_game (b'q' ∷ []) (b'p' ∷ [])

abbrev game_i : Listed
game_i = one_game (b'i' ∷ []) (b'p' ∷ [])

abbrev mutual_games : List Listed
mutual_games = game_i ∷ game_p ∷ game_q ∷ []

mutual_games-AreMutual : AreMutual (λ j. j.romof) mutual_games (b'i' ∷ []) game_p game_q
unfolding find_listed bytes_eq
mutual_games-AreMutual = record {
  a_found = refl;
  b_found = refl;
  a_of = refl;
  b_of = refl;
  a_named = λ n. cc n;
  b_named = λ n. cc n;
  a_not_me = refl;
  b_not_me = refl;
  a_not_b = refl;
  b_not_a = refl;
}

reduce_game-AreMutual_example : reduce_game 1000 mutual_games game_i ≡ none
reduce_game-AreMutual_example =
    reduce_game-AreMutual mutual_games game_i game_p game_q 1000 mutual_games-AreMutual refl

-- a game that has its own samples, and a game that shares its roms and samples
abbrev game_o : Listed
game_o = record (one_game (b'p' ∷ []) []) { sampleof = b'p' ∷ [] }

abbrev game_n : Listed
game_n = record game_i { sampleof = b'p' ∷ [] }

abbrev rank : Bytes → ℕ
rank n = if bytes_eq (b'p' ∷ []) n then 1 else 0

own_samples : bytes_eq game_o.sampleof game_o.name ≡ true
unfolding bytes_eq
own_samples = refl

rom_rank-Falls : Falls (λ j. j.romof) (game_n ∷ game_o ∷ []) (b'i' ∷ []) rank
unfolding find_listed bytes_eq
rom_rank-Falls c j f = go (bytes_eq (b'i' ∷ []) c) (bytes_eq (b'p' ∷ []) c) refl refl f
  where
    go :
        (x y : Bool)
        → bytes_eq (b'i' ∷ []) c ≡ x
        → bytes_eq (b'p' ∷ []) c ≡ y
        → (if x then some game_n else if y then some game_o else none) ≡ some j
        → bytes_eq c (b'i' ∷ []) ≡ false
        → bytes_eq j.romof j.name ≡ false
        → rank j.romof < rank c
    go true y p q e m o = absurd (cc (bytes_eq-same (b'i' ∷ []) c p, bytes_eq_refl c, m))
    go false true p q e m o =
        let k : game_o ≡ j = cc e in subst (λ j. rank j.romof < rank c) k (rw q (omega arith))
    go false false p q e m o = absurd (cc e)

sample_rank-Falls : Falls (λ j. j.sampleof) (game_n ∷ game_o ∷ []) (b'i' ∷ []) rank
unfolding find_listed bytes_eq
sample_rank-Falls c j f = go (bytes_eq (b'i' ∷ []) c) (bytes_eq (b'p' ∷ []) c) refl f
  where
    go :
        (x y : Bool)
        → bytes_eq (b'i' ∷ []) c ≡ x
        → (if x then some game_n else if y then some game_o else none) ≡ some j
        → bytes_eq c (b'i' ∷ []) ≡ false
        → bytes_eq j.sampleof j.name ≡ false
        → rank j.sampleof < rank c
    go true y p e m o = absurd (cc (bytes_eq-same (b'i' ∷ []) c p, bytes_eq_refl c, m))
    go false true p e m o =
        let k : game_o ≡ j = cc e in
        absurd (cc (own_samples, subst (λ j. bytes_eq j.sampleof j.name ≡ false) (sym k) o))
    go false false p e m o = absurd (cc e)

reduce_game-ends_example : (r : Listed) × (reduce_game 2 (game_n ∷ game_o ∷ []) game_n ≡ some r)
unfolding bytes_eq
reduce_game-ends_example =
    reduce_game-ends (game_n ∷ game_o ∷ []) game_n rank rank 2 rom_rank-Falls sample_rank-Falls
      (omega arith) (omega arith)

adjust_all-AreLinked_example : AreLinked (adjust_all mutual_games) (adjust_all mutual_games)
adjust_all-AreLinked_example = adjust_all-AreLinked mutual_games

-- a game that does not work, with a clone that does
abbrev game_s : Listed
game_s = record (one_game (b's' ∷ []) []) { rom_son = (b'i' ∷ []) ∷ []; working = false }

clones-found : find_working_clones 2 (game_i ∷ game_s ∷ []) game_s ≡ some ((b'i' ∷ []) ∷ [])
unfolding find_working_clones clones_of find_listed bytes_eq
clones-found = refl

find_working_clones-IsClone_example :
    IsIn (b'i' ∷ []) ((b'i' ∷ []) ∷ []) ↔ IsClone (game_i ∷ game_s ∷ []) game_s (b'i' ∷ [])
find_working_clones-IsClone_example =
    find_working_clones-IsClone 2 (game_i ∷ game_s ∷ []) game_s ((b'i' ∷ []) ∷ []) (b'i' ∷ [])
      clones-found

abbrev sons_rank : List Bytes → ℕ
sons_rank [] = 0
sons_rank (n ∷ names) = 1

sons_rank-IsIn : (n : Bytes) (names : List Bytes) → IsIn n names → 0 < sons_rank names
sons_rank-IsIn n [] m = elim m [ ]
sons_rank-IsIn n (x ∷ names) m = omega arith

sons_rank-falls :
    (g j : Listed) (n : Bytes)
    → IsIn n g.rom_son
    → find_listed n (game_i ∷ []) ≡ some j
    → sons_rank j.rom_son < sons_rank g.rom_son
unfolding find_listed
sons_rank-falls g j n m f = go (bytes_eq (b'i' ∷ []) n) f
  where
    go :
        (x : Bool)
        → (if x then some game_i else none) ≡ some j
        → sons_rank j.rom_son < sons_rank g.rom_son
    go true e =
        let k : game_i ≡ j = cc e in
        subst (λ x. sons_rank x.rom_son < sons_rank g.rom_son) k (sons_rank-IsIn n g.rom_son m)
    go false e = absurd (cc e)

find_working_clones-returns_example :
    (r : List Bytes) × (find_working_clones 2 (game_i ∷ []) game_s ≡ some r)
find_working_clones-returns_example =
    find_working_clones-returns (game_i ∷ []) (λ g. sons_rank g.rom_son) sons_rank-falls 2 game_s
      (omega arith)

game_working_subset_compute-find_working_clones_example :
    (gs1 : List Listed) × (game_working_subset_compute 2 game_s (game_i ∷ game_s ∷ [])
      ≡ some (true, gs1))
    × SameGames gs1 (game_i ∷ game_s ∷ [])
game_working_subset_compute-find_working_clones_example =
    game_working_subset_compute-find_working_clones 2 (game_i ∷ game_s ∷ []) game_s
      ((b'i' ∷ []) ∷ []) clones-found
