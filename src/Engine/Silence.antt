-- ===== src/Engine/Silence.antt =====
-- state_engine.c: what missed heartbeats lead to.
use gate.Base.{ℕ, zero, suc, ◌+◌, ◌^◌, ◌≤◌, ◌<◌, ◌≡◌, ltb, if◌then◌else◌, arith}
use gate.Engine.{
  ControllerState, StateEngine, active, degraded, failsafe, lockout, heartbeat_ok, heartbeat_miss,
  state_event, state_tick,
}

-- `n` heartbeats missed in a row, on a clock that reads `t`.
pub misses : ℕ → StateEngine → ℕ → StateEngine
misses zero s t = s
misses (suc n) s t = misses n (state_event s heartbeat_miss t t) t

-- The state that a count of misses stands for, in a controller that was active.
abbrev pub level : ℕ → ControllerState
level n = if ltb n 3 then active else if ltb n 6 then degraded else failsafe

record AtLevel (n : ℕ) (s : StateEngine) : Type 0 where
  unlocked : s.lockout_hard ≡ 0
  counted : s.heartbeat_misses ≡ n
  at_level : s.current ≡ level n

miss-AtLevel :
    (n t : ℕ) (s : StateEngine)
    → n + 1 < 2 ^ 32
    → AtLevel n s
    → AtLevel (n + 1) (state_event s heartbeat_miss t t)
unfolding state_event
miss-AtLevel n t s h v = ground arith

misses-AtLevel :
    (k n m t : ℕ) (s : StateEngine)
    → n + k ≡ m
    → m < 2 ^ 32
    → AtLevel n s
    → AtLevel m (misses k s t)
unfolding misses
misses-AtLevel zero n m t s e h v = let e' : n ≡ m = omega arith in rw (← e') v
misses-AtLevel (suc k) n m t s e h v =
    misses-AtLevel k (n + 1) m t (state_event s heartbeat_miss t t) (omega arith) h
      (miss-AtLevel n t s (omega arith) v)

-- An active controller that is not locked and has no misses counted, and then misses `n`
-- heartbeats in a row, stays ACTIVE up to 2, is DEGRADED from 3 and in FAILSAFE from 6; a tick
-- after them puts it in LOCKOUT from 10 on, and leaves its state before. `n` is a 32-bit number.
pub silence_levels :
    (n t u : ℕ) (s : StateEngine)
    → s.current ≡ active
    → s.heartbeat_misses ≡ 0
    → s.lockout_hard ≡ 0
    → n < 2 ^ 32
    → let s' = misses n s t in
      (s'.current ≡ level n) × ((state_tick s' u).current ≡ (if ltb n 10 then level n else lockout))
unfolding state_tick
silence_levels n t u s a z f h = ground (arith, misses-AtLevel n 0 n t s (omega arith) h)

-- A miss can raise a controller out of FAILSAFE: after its count was cleared by heartbeats, which do
-- not leave FAILSAFE, the third to fifth miss puts it in DEGRADED, from where one heartbeat
-- makes it ACTIVE.
pub failsafe_relaxes :
    (s : StateEngine) (t u : ℕ)
    → s.lockout_hard ≡ 0
    → s.current ≡ failsafe
    → 2 ≤ s.heartbeat_misses
    → s.heartbeat_misses < 5
    → let s' = state_event s heartbeat_miss t u in
      (s'.current ≡ degraded) × ((state_event s' heartbeat_ok t u).current ≡ active)
unfolding state_event
failsafe_relaxes s t u f c lo hi = ground arith
