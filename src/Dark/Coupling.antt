-- ===== src/Dark/Coupling.antt =====
-- dark_controller.c with state_engine.c: suppression follows the state of the engine.
use gate.Base.{ℕ, ◌≡◌, ◌≢◌, ◌⊎◌, true, false, List, [], ◌∷◌, arith}
use gate.Engine.{init, active, degraded, failsafe, lockout, Action, event, tick, act, state_init}
use gate.Engine.Lockout.{IsCoherent}
use gate.Dark.{Pair, off, on, hard, dark_init, dark_should_suppress, step, run}

-- What holds between two steps of the pair.
pub record IsCoupled (p : Pair) : Type 0 where
  pub coherent : IsCoherent p.engine
  pub off_in : p.dark.mode ≡ off → (p.engine.current ≡ init) ⊎ (p.engine.current ≡ active)
  pub on_in : p.dark.mode ≡ on → p.engine.current ≢ active
  pub on_below : p.dark.mode ≡ on → p.engine.current ≢ lockout
  pub hard_in : p.dark.mode ≡ hard → p.engine.current ≡ lockout

abbrev pub powered_up : ℕ → Pair
powered_up t = record { engine = state_init t; dark = dark_init }

pub powered_up-IsCoupled : (t : ℕ) → IsCoupled (powered_up t)
unfolding state_init dark_init
powered_up-IsCoupled t = ground arith

pub step-IsCoupled : (p : Pair) (a : Action) (now : ℕ) → IsCoupled p → IsCoupled (step p a now)
unfolding step act
step-IsCoupled p (event e t u) now c = ground arith
step-IsCoupled p (tick t) now c = ground arith

pub run-IsCoupled : (p : Pair) (steps : List (Action × ℕ)) → IsCoupled p → IsCoupled (run p steps)
unfolding run
run-IsCoupled p [] c = c
run-IsCoupled p ((a, now) ∷ rest) c = run-IsCoupled (step p a now) rest (step-IsCoupled p a now c)

-- From power-up, after any steps: with an ACTIVE engine packets are not suppressed, with a
-- DEGRADED or FAILSAFE one they are, in the plain dark mode, with a locked one they are, in the
-- hard mode, and in INIT the hard mode is not on.
pub suppression_follows :
    (t : ℕ) (steps : List (Action × ℕ))
    → let p = run (powered_up t) steps in
      let s = p.engine.current in
      let suppressed = (dark_should_suppress p.dark).0 in
      ((s ≡ active) × (suppressed ≡ false) × (p.dark.mode ≡ off))
      ⊎ (((s ≡ degraded) ⊎ (s ≡ failsafe)) × (suppressed ≡ true) × (p.dark.mode ≡ on))
      ⊎ ((s ≡ lockout) × (suppressed ≡ true) × (p.dark.mode ≡ hard))
      ⊎ ((s ≡ init) × (p.dark.mode ≢ hard))
unfolding dark_should_suppress
suppression_follows t steps =
    let c = run-IsCoupled _ steps (powered_up-IsCoupled t) in ground (arith, c)
