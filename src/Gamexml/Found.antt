-- ===== src/Gamexml/Found.antt =====
-- gamexml.cc: the function of an element that opens, and those that are left where it closes.
use advancescan.Base.{
  ==_iff, Bool, Bytes, List, Option, [], ap, arith, false, length, none, not, refl, some, sym, true,
  ℕ, ◌&&◌, ◌<◌, ◌==◌, ◌||◌, ◌∙◌, ◌∷◌, ◌≡◌,
}
use advancescan.Gamexml.{Level, Process, game_process}
use advancescan.Gamexml.Depths.{
  IsInGame, IsInside, IsRow2, IsRow3, conv2-IsRow2, conv3-IsRow3, find_conversion-fits, no_rows,
  outer_names, ◌&◌,
}
use advancescan.Gamexml.Handlers.{tags_of}
use advancescan.Gamexml.Levels.{
  AreKnown, AreServed, AreServed-Implies, Implies, IsServed, and_left, and_right, disk_there,
  game_there, rom_there,
}
use advancescan.Gamexml.Needs.{is_disk, is_game, is_rom, is_served}
use advancescan.Gamexml.Table.{conv1, conv2, conv3, identify, tags_fit}
use advancescan.Zip.Archive.{bytes_eq}
use mathlib.Core.Path.{subst}

pub bytes_eq-same : (a b : Bytes) → bytes_eq a b ≡ true → a ≡ b
unfolding bytes_eq
bytes_eq-same [] [] h = refl
bytes_eq-same [] (y ∷ b) h = absurd cc
bytes_eq-same (x ∷ a) [] h = absurd cc
bytes_eq-same (x ∷ a) (y ∷ b) h =
    let e = (==_iff x y).0 (and_left (x == y) (bytes_eq a b) h) in
    let f = bytes_eq-same a b (and_right (x == y) (bytes_eq a b) h) in cc

-- what a row of a game finds
in_game :
    (tag : Bytes) (l1 l0 : Level) (p : Process)
    → identify 2 (tag ∷ l1.tag ∷ l0.tag ∷ []) ≡ some p
    → IsInGame p × (tags_fit outer_names (l1.tag ∷ l0.tag ∷ []) ≡ true)
unfolding identify
in_game tag l1 l0 p h =
    let (names, (w, same, inside), fits) =
      find_conversion-fits IsRow2 conv2 (tag ∷ l1.tag ∷ l0.tag ∷ []) p conv2-IsRow2 h in
    let fits1 = sym (ap (λ n. tags_fit n (tag ∷ l1.tag ∷ l0.tag ∷ [])) same) ∙ fits in
    (inside, and_right (bytes_eq tag w) _ fits1)

in_element :
    (tag : Bytes) (l2 l1 l0 : Level) (p : Process)
    → identify 3 (tag ∷ l2.tag ∷ l1.tag ∷ l0.tag ∷ []) ≡ some p
    → (outer : Bytes) × IsInside outer p
      × (l2.tag ≡ outer)
      × (tags_fit outer_names (l1.tag ∷ l0.tag ∷ []) ≡ true)
unfolding identify
in_element tag l2 l1 l0 p h =
    let (names, (w, outer, same, inside), fits) =
      find_conversion-fits IsRow3 conv3 (tag ∷ l2.tag ∷ l1.tag ∷ l0.tag ∷ []) p conv3-IsRow3 h in
    let fits1 = sym (ap (λ n. tags_fit n (tag ∷ l2.tag ∷ l1.tag ∷ l0.tag ∷ [])) same) ∙ fits in
    let fits2 = and_right (bytes_eq tag w) _ fits1 in
    (
      outer,
      inside,
      bytes_eq-same l2.tag outer (and_left (bytes_eq l2.tag outer) _ fits2),
      and_right (bytes_eq l2.tag outer) _ fits2,
    )

other_depth : (n k : ℕ) → k < n → (n == k) ≡ false
other_depth n k h = ground arith

none-some : (p : Process) → none ≡ some p → ⊥
none-some p h = cc

-- no row is deeper
deeper : (n : ℕ) (tags : List Bytes) → 3 < n → identify n tags ≡ none
unfolding identify
deeper n tags h =
    rw (other_depth n 1 (omega arith), other_depth n 2 (omega arith), other_depth n 3 (omega arith))
      refl

-- the one row of CONV1
at_top :
    (tag : Bytes) (l0 : Level) (p : Process)
    → identify 1 (tag ∷ l0.tag ∷ []) ≡ some p
    → game_process ≡ p
unfolding identify
at_top tag l0 p h =
    let (names, same, fits) =
      find_conversion-fits (λ n q. game_process ≡ q) conv1 (tag ∷ l0.tag ∷ []) p (refl & no_rows)
        h in
    same

-- the function of the element that opens has what it uses
pub identify-IsServed :
    (tag : Bytes) (level : List Level) (p : Process) (g r d : Bool)
    → AreKnown level
    → AreServed level g r d
    → identify (length level) (tag ∷ tags_of level) ≡ some p
    → is_served p (is_game p || g) (is_rom p || r) (is_disk p || d) ≡ true
unfolding identify is_served
identify-IsServed tag [] p g r d known served h = absurd cc
identify-IsServed tag (l0 ∷ []) p g r d known served h =
    subst (λ q. is_served q (is_game q || g) (is_rom q || r) (is_disk q || d) ≡ true)
      (at_top tag l0 p h) refl
identify-IsServed tag (l1 ∷ l0 ∷ []) p g r d known served h =
    let (inside, fits) = in_game tag l1 l0 p h in
    rw (game_there l1 l0 g r d known served fits) (rw (inside.0) (inside.1 r d))
identify-IsServed tag (l2 ∷ l1 ∷ l0 ∷ []) p g r d known served h =
    let (outer, inside, e, fits) = in_element tag l2 l1 l0 p h in
    let g_there = game_there l1 l0 g r d (known.1) (served.1) fits in
    rw (g_there, inside.0, inside.1, inside.2)
      (inside.3 r d (λ is_r. rom_there l2 l1 l0 g r d known served fits (e ∙ is_r))
        (λ is_d. disk_there l2 l1 l0 g r d known served fits (e ∙ is_d)))
identify-IsServed tag (l3 ∷ l2 ∷ l1 ∷ l0 ∷ rest) p g r d known served h =
    let e =
      deeper (length (l3 ∷ l2 ∷ l1 ∷ l0 ∷ rest)) (tag ∷ tags_of (l3 ∷ l2 ∷ l1 ∷ l0 ∷ rest))
        (omega arith) in
    absurd (none-some p (sym e ∙ h))

not_and : (a b : Bool) → a ≡ false → Implies b (not a && b)
not_and a b e h = rw e h

none-IsServed : (o : Option Process) (g r d : Bool) → o ≡ none → IsServed o g r d
none-IsServed none g r d e = tt
none-IsServed (some p) g r d e = absurd cc

game-IsServed :
    (o : Option Process) (g r d : Bool) → o ≡ some game_process → g ≡ true → IsServed o g r d
unfolding is_served
game-IsServed o g r d e h = subst (λ o. IsServed o g r d) (sym e) h

-- the functions that are left have what they use, where one closes
pub close-AreServed :
    (tag : Bytes) (level : List Level) (p : Process) (g r d : Bool)
    → AreKnown level
    → AreServed level g r d
    → identify (length level) (tag ∷ tags_of level) ≡ some p
    → AreServed level (not (is_game p) && g) (not (is_rom p) && r) (not (is_disk p) && d)
unfolding identify is_served
close-AreServed tag [] p g r d known served h = tt
close-AreServed tag (l0 ∷ []) p g r d known served h =
    (none-IsServed l0.process _ _ _ (known.0), tt)
close-AreServed tag (l1 ∷ l0 ∷ []) p g r d known served h =
    let (inside, fits) = in_game tag l1 l0 p h in
    let named : identify 1 (l1.tag ∷ l0.tag ∷ []) ≡ some game_process = rw fits refl in
    let there = game_there l1 l0 g r d known served fits in
    (
      game-IsServed l1.process _ _ _ (known.0 ∙ named) (not_and (is_game p) g (inside.0) there),
      (none-IsServed l0.process _ _ _ (known.1.0), tt),
    )
close-AreServed tag (l2 ∷ l1 ∷ l0 ∷ []) p g r d known served h =
    let (outer, inside, e, fits) = in_element tag l2 l1 l0 p h in
    AreServed-Implies (l2 ∷ l1 ∷ l0 ∷ []) g r d _ _ _ (not_and (is_game p) g (inside.0))
      (not_and (is_rom p) r (inside.1)) (not_and (is_disk p) d (inside.2)) served
close-AreServed tag (l3 ∷ l2 ∷ l1 ∷ l0 ∷ rest) p g r d known served h =
    let e =
      deeper (length (l3 ∷ l2 ∷ l1 ∷ l0 ∷ rest)) (tag ∷ tags_of (l3 ∷ l2 ∷ l1 ∷ l0 ∷ rest))
        (omega arith) in
    absurd (none-some p (sym e ∙ h))
