-- ===== src/Engine.antt =====
-- state_engine.c: the controller's state machine. The clock is an argument: `t` is what the first
-- transition of a call reads, `u` what a second one reads.
pub mod Lockout
pub mod Silence
mod Examples
use gate.Base.{ℕ, ◌+◌, Bool, ◌&&◌, ◌||◌, List, [], ◌∷◌, ◌==◌, leb, truthy, if◌then◌else◌, u32}

pub data ControllerState : Type 0 where
  init active degraded failsafe lockout : ControllerState

pub data StateEvent : Type 0 where
  heartbeat_ok heartbeat_miss threat_high threat_critical proxy_restored manual_reset : StateEvent

pub record StateEngine : Type 0 where
  pub current : ControllerState
  pub previous : ControllerState
  pub entered_at_ns : ℕ
  pub heartbeat_misses : ℕ
  pub transition_count : ℕ
  pub lockout_hard : ℕ

-- The enum's values, by which the code compares states.
abbrev pub state_code : ControllerState → ℕ
state_code init = 0
state_code active = 1
state_code degraded = 2
state_code failsafe = 3
state_code lockout = 4

infix 50 ◌is◌
abbrev pub ◌is◌ : ControllerState → ControllerState → Bool
a is b = state_code a == state_code b

transition : StateEngine → ControllerState → ℕ → StateEngine
transition s next t = record s {
  previous = s.current;
  current = next;
  entered_at_ns = t;
  transition_count = u32 (s.transition_count + 1);
}

unfoldable pub state_init : ℕ → StateEngine
state_init t = record {
  current = init;
  previous = init;
  entered_at_ns = t;
  heartbeat_misses = 0;
  transition_count = 0;
  lockout_hard = 0;
}

-- `case EVT_HEARTBEAT_MISS`: past both limits it makes two transitions.
on_miss : StateEngine → ℕ → ℕ → StateEngine
unfolding transition
on_miss s t u =
    let counted = record s { heartbeat_misses = u32 (s.heartbeat_misses + 1) } in
    let first = if leb 3 counted.heartbeat_misses then transition counted degraded t else counted in
    if leb 6 first.heartbeat_misses then transition first failsafe u else first

-- The `switch`.
dispatch : StateEvent → StateEngine → ℕ → ℕ → StateEngine
unfolding transition on_miss
dispatch heartbeat_ok s t u =
    let cleared = record s { heartbeat_misses = 0 } in
    if s.current is degraded || s.current is init then transition cleared active t else cleared
dispatch heartbeat_miss s t u = on_miss s t u
dispatch threat_high s t u = if s.current is active then transition s degraded t else s
dispatch threat_critical s t u = record (transition s lockout t) { lockout_hard = 1 }
dispatch proxy_restored s t u = if s.current is lockout then s else transition s active t
dispatch manual_reset s t u =
    transition (record s { lockout_hard = 0; heartbeat_misses = 0 }) init t

unfoldable pub state_event : StateEngine → StateEvent → ℕ → ℕ → StateEngine
unfolding dispatch
state_event s e t u = if truthy s.lockout_hard then s else dispatch e s t u

unfoldable pub state_tick : StateEngine → ℕ → StateEngine
unfolding transition
state_tick s t =
    if s.current is failsafe && leb 10 s.heartbeat_misses
    then transition (record s { lockout_hard = 1 }) lockout t
    else s

unfoldable pub state_allows_command : StateEngine → Bool
state_allows_command s = s.current is active

-- What drives the engine, with the clock readings of the call.
pub data Action : Type 0 where
  event : StateEvent → ℕ → ℕ → Action
  tick : ℕ → Action

unfoldable pub act : StateEngine → Action → StateEngine
unfolding state_event state_tick
act s (event e t u) = state_event s e t u
act s (tick t) = state_tick s t

pub run : StateEngine → List Action → StateEngine
run s [] = s
run s (a ∷ rest) = run (act s a) rest
