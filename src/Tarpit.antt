-- ===== src/Tarpit.antt =====
-- tarpit_sim.c and tarpit_sim.h: simulated process values that an attacker is fed. Arithmetic on `float` and
-- its printing are a parameter; the clock is an argument. The sessions in use are a list.
pub mod Sessions
pub mod Clock
pub mod Capacity
mod Examples
use gate.Base.{
  ℕ, zero, suc, ◌+◌, ◌*◌, ◌/◌, ◌%◌, Bool, true, false, List, [], ◌∷◌, ◌++◌, map, Option, none, some,
  Bytes, bytes_eq, ltb, leb, ◌==◌, get_elem?, length, take, drop, if◌then◌else◌, u32,
}

abbrev pub tarpit_max_sessions : ℕ
tarpit_max_sessions = 64

abbrev pub tarpit_response_len : ℕ
tarpit_response_len = 128

pub data SimState : Type 0 where
  idle running stalled : SimState

-- `float`: a literal by its digits and how many of them are decimals; an integer converted; and `%.*f`
-- with this number of decimals.
pub record Floats : Type 1 where
  pub Float : Type 0
  pub literal : ℕ → ℕ → Float
  pub of_int : ℕ → Float
  pub plus : Float → Float → Float
  pub minus : Float → Float → Float
  pub times : Float → Float → Float
  pub fixed : ℕ → Float → Bytes

abbrev pub next_index : Option ℕ → Option ℕ
next_index none = none
next_index (some i) = some (suc i)

-- `%u`, on numbers of at most `width` digits.
decimal_onto : ℕ → ℕ → Bytes → Bytes
decimal_onto zero n out = out
decimal_onto (suc width) n out =
    let more = decimal_onto width (n / 10) ((b'0' + n % 10) ∷ out) in
    if ltb n 10 then (b'0' + n) ∷ out else more

-- A 32-bit number has at most ten digits.
unfoldable pub decimal : ℕ → Bytes
unfolding decimal_onto
decimal n = decimal_onto 10 n []

module _ (F : Floats) where
  open F use {Float, literal, of_int, plus, minus, times, fixed}

  pub record TarpitSession : Type 0 where
    pub fingerprint : Bytes
    pub state : SimState
    pub tick : ℕ
    pub pressure : Float
    pub flow_rate : Float
    pub valve_pos : Float
    pub last_update_ns : ℕ

  -- `sessions[0 .. count)`
  abbrev pub TarpitTable : Type 0
  TarpitTable = List TarpitSession

  unfoldable pub tarpit_init : TarpitTable
  tarpit_init = []

  pub find_session : TarpitTable → Bytes → Option ℕ
  find_session [] fp = none
  find_session (s ∷ rest) fp =
      let later = next_index (find_session rest fp) in
      if bytes_eq s.fingerprint fp then some 0 else later

  pub new_session : Bytes → ℕ → TarpitSession
  new_session fp now = record {
    fingerprint = fp;
    state = running;
    tick = 0;
    pressure = literal 147 1;
    flow_rate = literal 1200 1;
    valve_pos = literal 72 2;
    last_update_ns = now;
  }

  -- Whether it returns 0, and the table.
  pub tarpit_engage : TarpitTable → Bytes → ℕ → Bool × TarpitTable
  tarpit_engage t fp now = elim (find_session t fp) [
    | some i ↦ (true, t)
    | none ↦
        if leb tarpit_max_sessions (length t)
        then (false, t)
        else (true, t ++ new_session fp now ∷ [])
  ]

  -- The body of the loop for a session that runs.
  unfoldable pub advance : TarpitSession → TarpitSession
  advance s =
      let tick = u32 (s.tick + 1) in
      record s {
        tick = tick;
        pressure = plus s.pressure (times (of_int (tick % 7)) (literal 3 2));
        flow_rate = minus s.flow_rate (times (of_int (tick % 5)) (literal 1 1));
        valve_pos = plus (literal 70 2) (times (of_int (tick % 11)) (literal 5 3));
        state = if ltb 500 tick then stalled else s.state;
      }

  unfoldable pub tick_session : TarpitSession → TarpitSession
  tick_session s = elim s.state [ running ↦ advance s | idle ↦ s | stalled ↦ s ]

  pub tarpit_tick_all : TarpitTable → TarpitTable
  tarpit_tick_all t = map tick_session t

  -- The text that `snprintf` is to write.
  unfoldable pub response_text : TarpitSession → Bytes
  response_text s =
      (b'{' ∷ 34 ∷ b'p' ∷ 34 ∷ b':' ∷ fixed 2 s.pressure)
      ++ ((b',' ∷ 34 ∷ b'f' ∷ 34 ∷ b':' ∷ fixed 2 s.flow_rate)
          ++ ((b',' ∷ 34 ∷ b'v' ∷ 34 ∷ b':' ∷ fixed 3 s.valve_pos)
              ++ ((b',' ∷ 34 ∷ b't' ∷ 34 ∷ b':' ∷ decimal s.tick) ++ b'}' ∷ [])))

  -- The buffer after `snprintf` and the length stored, which is that of the whole text; `none` is the
  -- return of -1, which writes nothing.
  pub tarpit_response : TarpitTable → Bytes → Bytes → Option (Bytes × ℕ)
  tarpit_response t fp buf = elim (find_session t fp) [
    | none ↦ none
    | some i ↦ elim (get_elem? t i) [
      | none ↦ none
      | some s ↦
          let text = response_text s in
          let kept = take 127 text in some (kept ++ 0 ∷ drop (length kept + 1) buf, length text)
    ]
  ]

  -- A call of the interface.
  pub data TarpitCall : Type 0 where
    engage : Bytes → ℕ → TarpitCall
    tick_all : TarpitCall

  unfoldable pub tarpit_step : TarpitTable → TarpitCall → TarpitTable
  tarpit_step t (engage fp now) = (tarpit_engage t fp now).1
  tarpit_step t tick_all = tarpit_tick_all t

  unfoldable pub tarpit_run : TarpitTable → List TarpitCall → TarpitTable
  tarpit_run t [] = t
  tarpit_run t (c ∷ calls) = tarpit_run (tarpit_step t c) calls
