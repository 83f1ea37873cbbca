-- ===== src/Cage.antt =====
-- rolling_cage.c: sessions that attackers are kept in, with an id that rolls. BLAKE2b is a parameter; the
-- clock and the random session key are arguments. The `ThreatAttrib` that a session points to is not
-- declared under the repository; whether there is one is kept, its counter is not.
pub mod Slots
mod Examples
use gate.Base.{
  ℕ, zero, suc, ◌+◌, Bool, true, false, ◌||◌, List, [], ◌∷◌, ◌++◌, Option, none, some, Bytes, ltb,
  leb, ◌==◌, get_or, set, length, take, replicate, if◌then◌else◌, u8, u32, le_bytes, of_le,
}

abbrev pub cage_max : ℕ
cage_max = 64

pub data CageState : Type 0 where
  empty active escaped recaptured : CageState

-- `attacker` is the address, the part of the socket address that the code reads.
pub record CageSession : Type 0 where
  pub cage_id : ℕ
  pub round : ℕ
  pub state : CageState
  pub attacker : ℕ
  pub entered_ns : ℕ
  pub last_action_ns : ℕ
  pub escape_attempts : ℕ
  pub session_key : Bytes
  pub tripwire_armed : ℕ
  pub has_attrib : Bool

-- `cages[0 .. cage_count)`; a pointer into it is an index.
abbrev pub Cages : Type 0
Cages = List CageSession

unfoldable pub cage_init : Cages
cage_init = []

-- What a read out of range would give.
abbrev pub no_cage : CageSession
no_cage = record {
  cage_id = 0;
  round = 0;
  state = empty;
  attacker = 0;
  entered_ns = 0;
  last_action_ns = 0;
  escape_attempts = 0;
  session_key = replicate 32 0;
  tripwire_armed = 0;
  has_attrib = false;
}

abbrev pub next_index : Option ℕ → Option ℕ
next_index none = none
next_index (some i) = some (suc i)

unfoldable pub cage_lookup : ℕ → Cages → Option ℕ
cage_lookup id [] = none
cage_lookup id (c ∷ rest) =
    let later = next_index (cage_lookup id rest) in if c.cage_id == id then some 0 else later

-- The first four bytes of a command that give an escape away.
abbrev pub escape_words : ℕ → Bool
escape_words word = (word == 0xDEADBEEF) || (word == 0xCAFEBABE)

-- One session: the result and the session afterwards.
pub detect_escape : CageSession → Bytes → Bool × CageSession
detect_escape c cmd =
    if ltb (length cmd) 4
    then (false, c)
    else if escape_words (of_le (take 4 cmd))
    then (true, record c { escape_attempts = u32 (c.escape_attempts + 1) })
    else (false, c)

unfoldable pub close : CageSession → CageSession
close c = record c { state = empty }

-- The calls, on the session of an index, with clock and key of the call. A null pointer, an index out
-- of range here, does nothing.
pub data CageCall : Type 0 where
  opens : ℕ → Bool → ℕ → Bytes → CageCall
  rolls : ℕ → ℕ → Bytes → CageCall
  detects : ℕ → Bytes → CageCall
  recaptures : ℕ → ℕ → Bytes → CageCall
  closes : ℕ → CageCall

abbrev pub update : Cages → ℕ → (CageSession → CageSession) → Cages
update cages i f = set cages i (f (get_or cages i no_cage))

module _ (hash : Bytes → Bytes) where
  -- The id: eight bytes of the hash of address, time and round.
  pub derive_id : ℕ → ℕ → ℕ → ℕ
  derive_id attacker time round =
      of_le (take 8 (hash (le_bytes 4 attacker ++ (le_bytes 8 time ++ le_bytes 1 round))))

  pub new_cage : ℕ → Bool → ℕ → Bytes → CageSession
  unfolding derive_id
  new_cage attacker has_attrib now key = record {
    cage_id = derive_id attacker now 0;
    round = 0;
    state = active;
    attacker = attacker;
    entered_ns = now;
    last_action_ns = now;
    escape_attempts = 0;
    session_key = key;
    tripwire_armed = 1;
    has_attrib = has_attrib;
  }

  pub roll : CageSession → ℕ → Bytes → CageSession
  unfolding derive_id
  roll c now key =
      let round = u8 (c.round + 1) in
      record c { round = round; cage_id = derive_id c.attacker now round; session_key = key }

  pub recapture : CageSession → ℕ → Bytes → CageSession
  unfolding roll
  recapture c now key =
      let counted = record c {
        state = recaptured;
        escape_attempts = u32 (c.escape_attempts + 1);
      } in
      record (roll counted now key) { state = active; tripwire_armed = 1 }

  unfoldable pub cage_open : Cages → ℕ → Bool → ℕ → Bytes → Option ℕ × Cages
  unfolding new_cage
  cage_open cages attacker has_attrib now key =
      if leb cage_max (length cages)
      then (none, cages)
      else (some (length cages), cages ++ (new_cage attacker has_attrib now key ∷ []))

  unfoldable pub cage_call : Cages → CageCall → Cages
  unfolding cage_open detect_escape
  cage_call cages (opens attacker has_attrib now key) =
      (cage_open cages attacker has_attrib now key).1
  cage_call cages (rolls i now key) = update cages i (λ c. roll c now key)
  cage_call cages (detects i cmd) = update cages i (λ c. (detect_escape c cmd).1)
  cage_call cages (recaptures i now key) = update cages i (λ c. recapture c now key)
  cage_call cages (closes i) = update cages i close

  unfoldable pub cage_calls : Cages → List CageCall → Cages
  cage_calls cages [] = cages
  cage_calls cages (c ∷ rest) = cage_calls (cage_call cages c) rest
