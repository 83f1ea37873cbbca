-- ===== src/Dark.antt =====
-- dark_controller.c: packet suppression, driven by the state of the engine.
pub mod Coupling
mod Examples
use gate.Base.{ℕ, ◌+◌, Bool, true, false, ◌&&◌, ◌||◌, List, [], ◌∷◌, ◌==◌, if◌then◌else◌, u32, u64}
use gate.Engine.{
  ControllerState, active, degraded, failsafe, lockout, ◌is◌, StateEngine, Action, act,
}

pub data DarkMode : Type 0 where
  off on hard : DarkMode

pub record DarkController : Type 0 where
  pub mode : DarkMode
  pub activated_at_ns : ℕ
  pub packets_suppressed : ℕ
  pub trigger_count : ℕ
  pub silent_on_error : ℕ

-- The enum's values, by which the code compares modes.
abbrev pub mode_code : DarkMode → ℕ
mode_code off = 0
mode_code on = 1
mode_code hard = 2

infix 50 ◌is_mode◌
abbrev pub ◌is_mode◌ : DarkMode → DarkMode → Bool
a is_mode b = mode_code a == mode_code b

unfoldable pub dark_init : DarkController
dark_init = record {
  mode = off;
  activated_at_ns = 0;
  packets_suppressed = 0;
  trigger_count = 0;
  silent_on_error = 0;
}

pub dark_activate : DarkController → DarkMode → ℕ → DarkController
dark_activate d m now = record d {
  mode = m;
  activated_at_ns = now;
  trigger_count = u32 (d.trigger_count + 1);
}

pub dark_deactivate : DarkController → DarkController
dark_deactivate d = record d { mode = off; activated_at_ns = 0 }

unfoldable pub dark_should_suppress : DarkController → Bool × DarkController
dark_should_suppress d =
    if d.mode is_mode off
    then (false, d)
    else (true, record d { packets_suppressed = u64 (d.packets_suppressed + 1) })

unfoldable pub dark_tick : DarkController → ControllerState → ℕ → DarkController
unfolding dark_activate dark_deactivate
dark_tick d current now =
    if current is lockout
    then dark_activate d hard now
    else if current is failsafe || current is degraded
    then if d.mode is_mode off then dark_activate d on now else d
    else if current is active && d.mode is_mode on
    then dark_deactivate d
    else d

-- The two machines side by side: one action of the engine, then a tick of the dark controller.
pub record Pair : Type 0 where
  pub engine : StateEngine
  pub dark : DarkController

unfoldable pub step : Pair → Action → ℕ → Pair
unfolding act dark_tick
step p a now =
    let e = act p.engine a in record { engine = e; dark = dark_tick p.dark e.current now }

pub run : Pair → List (Action × ℕ) → Pair
run p [] = p
run p ((a, now) ∷ rest) = run (step p a now) rest
