-- ===== src/Cage/Slots.antt =====
-- rolling_cage.c: how the slots of the table are used, and how long an id can be looked up.
use gate.Base.{
  ℕ, ◌+◌, ◌≤◌, ◌≡◌, refl, Bool, List, [], ◌∷◌, none, some, Bytes, get_or, length, length-set,
  length-append, leb, if◌then◌else◌, min, arith,
}
use gate.Cage.{
  CageSession, Cages, CageCall, opens, rolls, detects, recaptures, closes, cage_max, cage_init,
  cage_open, cage_call, cage_calls, update, roll, recapture, new_cage, no_cage,
}

-- Whether a call is one of `cage_open`.
abbrev pub is_open : CageCall → ℕ
is_open (opens a h n k) = 1
is_open _ = 0

unfoldable pub open_count : List CageCall → ℕ
open_count [] = 0
open_count (c ∷ rest) = is_open c + open_count rest

length-update :
    (cages : Cages) (i : ℕ) (f : CageSession → CageSession)
    → length (update cages i f) ≡ length cages
length-update cages i f = length-set cages i (f (get_or cages i no_cage))

module _ (hash : Bytes → Bytes) where
  call-used :
      (cages : Cages) (c : CageCall)
      → length cages ≤ cage_max
      → length (cage_call hash cages c) ≡ min cage_max (length cages + is_open c)
  unfolding cage_call cage_open
  call-used cages (opens a h n k) le =
      ground (arith, length-append cages (new_cage hash a h n k ∷ []))
  call-used cages (rolls i n k) le = omega (arith, length-update cages i (λ c. roll hash c n k))
  call-used cages (detects i cmd) le = omega (arith, length-set cages i _)
  call-used cages (recaptures i n k) le =
      omega (arith, length-update cages i (λ c. recapture hash c n k))
  call-used cages (closes i) le = omega (arith, length-set cages i _)

  calls-used :
      (cages : Cages) (calls : List CageCall)
      → length cages ≤ cage_max
      → length (cage_calls hash cages calls) ≡ min cage_max (length cages + open_count calls)
  unfolding cage_calls open_count
  calls-used cages [] le = omega arith
  calls-used cages (c ∷ rest) le =
      let step = call-used cages c le in
      omega (arith, step, calls-used (cage_call hash cages c) rest (omega (arith, step)))

  -- Closing a session frees nothing: after any calls the table has as many slots in use as there were
  -- calls of `cage_open`, up to 64, and `cage_open` gives the next slot until then and a null pointer from
  -- then on, whatever was closed.
  pub cage_calls-used :
      (calls : List CageCall) (attacker : ℕ) (has_attrib : Bool) (now : ℕ) (key : Bytes)
      → let cages = cage_calls hash cage_init calls in
        (length cages ≡ min cage_max (open_count calls))
        × ((cage_open hash cages attacker has_attrib now key).0
            ≡ (if leb cage_max (open_count calls) then none else some (open_count calls)))
  unfolding cage_open
  cage_calls-used calls attacker has_attrib now key =
      let none_yet : length cage_init ≡ 0 = unfold cage_init in refl in
      let used = calls-used cage_init calls (omega (arith, none_yet)) in
      (omega (arith, used, none_yet), ground (arith, used, none_yet))
