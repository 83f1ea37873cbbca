-- ===== src/Pending/Examples.antt =====
-- pending_state.c: calls at concrete values.
use gate.Base.{◌≡◌, refl, Bytes, [], ◌∷◌, replicate, arith}
use gate.Pending.{
  outcomes, refused, PendingState, pending, sets, confirms, checks, step, run, ps_init,
  ps_set_pending, ps_confirm, ps_expire_check,
}
use gate.Pending.Exclusive.{SetThenConfirmed, run_blocked, confirmed_needs_set}

abbrev device : Bytes
device = replicate 32 1

abbrev waiting : PendingState
waiting = record {
  sequence = 8;
  issued_ns = 100;
  expiry_ns = 200;
  status = pending;
  device_id = device;
}

run_blocked_example :
    (run waiting (sets 9 300 device 150 ∷ checks 160 ∷ []) ≡ waiting)
    × (outcomes waiting (sets 9 300 device 150 ∷ checks 160 ∷ []) ≡ replicate 2 refused)
run_blocked_example =
    run_blocked waiting (sets 9 300 device 150 ∷ checks 160 ∷ []) refl
      ((omega arith, λ t e. ground arith), ((omega arith, λ t e. ground arith), tt))

confirmed_needs_set_example : SetThenConfirmed 8 (sets 8 200 device 100 ∷ confirms 8 150 ∷ [])
unfolding run step ps_init ps_set_pending ps_expire_check ps_confirm
confirmed_needs_set_example = confirmed_needs_set (sets 8 200 device 100 ∷ confirms 8 150 ∷ []) refl
