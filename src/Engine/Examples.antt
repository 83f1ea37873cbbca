-- ===== src/Engine/Examples.antt =====
-- state_engine.c: the engine at concrete values.
use gate.Base.{ℕ, ◌≡◌, ◌⊎◌, refl, ltb, if◌then◌else◌, false, [], ◌∷◌, arith}
use gate.Engine.{
  ControllerState, StateEvent, StateEngine, init, active, degraded, failsafe, lockout, heartbeat_ok,
  heartbeat_miss, threat_high, threat_critical, proxy_restored, manual_reset, Action, event, act,
  run, state_init, state_event, state_tick, state_allows_command,
}
use gate.Engine.Lockout.{critical_forever, allows_needs}
use gate.Engine.Silence.{misses, level, silence_levels, failsafe_relaxes}

abbrev at : ControllerState → ℕ → StateEngine
at s n = record {
  current = s;
  previous = init;
  entered_at_ns = 5;
  heartbeat_misses = n;
  transition_count = 1;
  lockout_hard = 0;
}

abbrev on : StateEvent → Action
on e = event e 10 11

first_heartbeat : (run (state_init 0) (on heartbeat_ok ∷ [])).current ≡ active
unfolding run act state_event state_init
first_heartbeat = refl

threat_degrades : (run (state_init 0) (on heartbeat_ok ∷ on threat_high ∷ [])).current ≡ degraded
unfolding run act state_event state_init
threat_degrades = refl

critical_forever_example :
    let s =
      run
        (state_event (run (state_init 0) (on heartbeat_ok ∷ [])) threat_critical 12 13)
        (on manual_reset ∷ on heartbeat_ok ∷ []) in
    (s.current ≡ lockout) × (state_allows_command s ≡ false)
critical_forever_example =
    critical_forever 0 12 13 (on heartbeat_ok ∷ []) (on manual_reset ∷ on heartbeat_ok ∷ [])

allows_needs_example :
    (t u : ℕ) × (((on heartbeat_ok ≡ event heartbeat_ok t u)
        × ((degraded ≡ init) ⊎ (degraded ≡ degraded)))
      ⊎ (on heartbeat_ok ≡ event proxy_restored t u))
unfolding act state_event state_allows_command
allows_needs_example = allows_needs (at degraded 4) (on heartbeat_ok) refl refl

silence_levels_example :
    let s' = misses 7 (at active 0) 20 in
    (s'.current ≡ level 7) × ((state_tick s' 21).current ≡ (if ltb 7 10 then level 7 else lockout))
silence_levels_example = silence_levels 7 20 21 (at active 0) refl refl refl (omega arith)

failsafe_relaxes_example :
    let s' = state_event (at failsafe 2) heartbeat_miss 30 31 in
    (s'.current ≡ degraded) × ((state_event s' heartbeat_ok 30 31).current ≡ active)
failsafe_relaxes_example =
    failsafe_relaxes (at failsafe 2) 30 31 refl refl (omega arith) (omega arith)
