-- ===== src/Engine/Lockout.antt =====
-- state_engine.c: the hard lockout.
use gate.Base.{ℕ, ◌≡◌, refl, ◌⊎◌, true, false, List, [], ◌∷◌, arith}
use gate.Engine.{
  StateEngine, init, degraded, lockout, heartbeat_ok, threat_critical, proxy_restored, Action,
  event, tick, act, run, state_init, state_event, state_allows_command,
}

-- The flag and the state agree.
pub record IsCoherent (s : StateEngine) : Type 0 where
  pub flag : (s.lockout_hard ≡ 0) ⊎ (s.lockout_hard ≡ 1)
  pub locked : s.lockout_hard ≡ 1 → s.current ≡ lockout
  pub flagged : s.current ≡ lockout → s.lockout_hard ≡ 1

pub state_init-IsCoherent : (t : ℕ) → IsCoherent (state_init t)
unfolding state_init
state_init-IsCoherent t = ground arith

pub act-IsCoherent : (s : StateEngine) (a : Action) → IsCoherent s → IsCoherent (act s a)
unfolding act
act-IsCoherent s (event e t u) c = ground arith
act-IsCoherent s (tick t) c = ground arith

-- In every state that events and ticks lead to from the initial one, the engine is in LOCKOUT exactly
-- when the hard flag is set.
pub run-IsCoherent :
    (s : StateEngine) (actions : List Action) → IsCoherent s → IsCoherent (run s actions)
unfolding run
run-IsCoherent s [] c = c
run-IsCoherent s (a ∷ rest) c = run-IsCoherent (act s a) rest (act-IsCoherent s a c)

act_locked : (s : StateEngine) (a : Action) → IsCoherent s → s.lockout_hard ≡ 1 → act s a ≡ s
unfolding act
act_locked s (event e t u) c h = ground arith
act_locked s (tick t) c h = ground arith

pub run_locked :
    (s : StateEngine) (actions : List Action)
    → IsCoherent s
    → s.lockout_hard ≡ 1
    → run s actions ≡ s
unfolding run
run_locked s [] c h = refl
run_locked s (a ∷ rest) c h = rw (act_locked s a c h) (run_locked s rest c h)

-- A critical threat locks the controller for good: whatever happens before and after it, a manual
-- reset included, it is in LOCKOUT and allows no command.
pub critical_forever :
    (start t u : ℕ) (before later : List Action)
    → let s = run (state_event (run (state_init start) before) threat_critical t u) later in
      (s.current ≡ lockout) × (state_allows_command s ≡ false)
critical_forever start t u before later =
    let r = run (state_init start) before in
    let c = run-IsCoherent _ before (state_init-IsCoherent start) in
    let s = state_event r threat_critical t u in
    let hard : s.lockout_hard ≡ 1 = unfold state_event in ground (arith, c) in
    let c' : IsCoherent s = unfold act in act-IsCoherent r (event threat_critical t u) c in
    rw (run_locked s later c' hard)
      (c'.locked hard, unfold state_allows_command in ground (arith, c'.locked hard))

-- A command can be allowed only in ACTIVE, and the engine enters ACTIVE only by a heartbeat out of
-- INIT or DEGRADED, or by a restored proxy.
pub allows_needs :
    (s : StateEngine) (a : Action)
    → state_allows_command s ≡ false
    → state_allows_command (act s a) ≡ true
    → (t u : ℕ) × (((a ≡ event heartbeat_ok t u) × ((s.current ≡ init) ⊎ (s.current ≡ degraded)))
        ⊎ (a ≡ event proxy_restored t u))
unfolding act state_allows_command
allows_needs s (event e t u) h k = (t, u, ground arith)
allows_needs s (tick t) h k = absurd (ground arith)
