-- ===== src/Dark/Examples.antt =====
-- dark_controller.c: the two machines at concrete values.
use gate.Base.{ℕ, ◌≡◌, ◌≢◌, ◌⊎◌, true, false, [], ◌∷◌, List}
use gate.Engine.{
  active, degraded, failsafe, lockout, init, heartbeat_ok, threat_high, Action, event,
}
use gate.Dark.{off, on, hard, dark_should_suppress, run}
use gate.Dark.Coupling.{powered_up, suppression_follows}

abbrev steps : List (Action × ℕ)
steps = (event heartbeat_ok 1 2, 3) ∷ (event threat_high 4 5, 6) ∷ []

suppression_follows_example :
    let p = run (powered_up 0) steps in
    let s = p.engine.current in
    let suppressed = (dark_should_suppress p.dark).0 in
    ((s ≡ active) × (suppressed ≡ false) × (p.dark.mode ≡ off))
    ⊎ (((s ≡ degraded) ⊎ (s ≡ failsafe)) × (suppressed ≡ true) × (p.dark.mode ≡ on))
    ⊎ ((s ≡ lockout) × (suppressed ≡ true) × (p.dark.mode ≡ hard))
    ⊎ ((s ≡ init) × (p.dark.mode ≢ hard))
suppression_follows_example = suppression_follows 0 steps
