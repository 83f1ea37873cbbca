-- ===== src/Cage/Examples.antt =====
-- rolling_cage.c: calls at concrete values, with a stand-in for the hash.
use gate.Base.{
  ◌≡◌, false, List, [], ◌∷◌, none, some, Bytes, replicate, length, leb, min, if◌then◌else◌,
}
use gate.Cage.{CageCall, opens, rolls, closes, cage_init, cage_open, cage_calls, cage_max}
use gate.Cage.Slots.{open_count, cage_calls-used}

abbrev toy : Bytes → Bytes
toy b = replicate 32 (length b)

abbrev calls : List CageCall
calls = opens 1 false 10 (replicate 32 1) ∷ rolls 0 11 (replicate 32 2) ∷ closes 0 ∷ []

cage_calls-used_example :
    let cages = cage_calls toy cage_init calls in
    (length cages ≡ min cage_max (open_count calls))
    × ((cage_open toy cages 2 false 12 (replicate 32 3)).0
        ≡ (if leb cage_max (open_count calls) then none else some (open_count calls)))
cage_calls-used_example = cage_calls-used toy calls 2 false 12 (replicate 32 3)
