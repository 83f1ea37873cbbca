-- ===== src/Pending.antt =====
-- pending_state.c: one command awaiting confirmation. The clock is an argument, read once by the
-- expiry check (`t`) and once by the write of a new command (`u`).
pub mod Exclusive
mod Examples
use gate.Base.{
  ℕ, Bool, ◌&&◌, List, [], ◌∷◌, Option, none, some, Bytes, ltb, ◌==◌, replicate, take,
  if◌then◌else◌,
}

pub data PendingStatus : Type 0 where
  idle pending confirmed expired : PendingStatus

pub record PendingState : Type 0 where
  pub sequence : ℕ
  pub issued_ns : ℕ
  pub expiry_ns : ℕ
  pub status : PendingStatus
  pub device_id : Bytes

-- The C results 0 and -1.
pub data Outcome : Type 0 where
  done refused : Outcome

abbrev pub is_pending : PendingStatus → Bool
is_pending pending = Bool.true
is_pending _ = Bool.false

unfoldable pub ps_init : PendingState
ps_init = record {
  sequence = 0;
  issued_ns = 0;
  expiry_ns = 0;
  status = idle;
  device_id = replicate 32 0;
}

unfoldable pub ps_expire_check : PendingState → ℕ → PendingState
ps_expire_check ps t =
    if is_pending ps.status && ltb ps.expiry_ns t then record ps { status = expired } else ps

unfoldable pub ps_set_pending : PendingState → ℕ → ℕ → Bytes → ℕ → ℕ → Outcome × PendingState
unfolding ps_expire_check
ps_set_pending ps seq expiry_ns dev_id t u =
    let checked = ps_expire_check ps t in
    if is_pending checked.status then (refused, checked) else (
      done,
      record {
        sequence = seq;
        issued_ns = u;
        expiry_ns = expiry_ns;
        status = pending;
        device_id = take 32 dev_id;
      },
    )

unfoldable pub ps_confirm : PendingState → ℕ → Outcome × PendingState
ps_confirm ps seq =
    if is_pending ps.status && ps.sequence == seq
    then (done, record ps { status = confirmed })
    else (refused, ps)

unfoldable pub ps_check_safe : PendingState → ℕ → Outcome × PendingState
unfolding ps_expire_check
ps_check_safe ps t =
    let checked = ps_expire_check ps t in
    if is_pending checked.status then (refused, checked) else (done, checked)

-- The calls of the interface, with the clock that each reads.
pub data Call : Type 0 where
  sets : ℕ → ℕ → Bytes → ℕ → Call
  confirms : ℕ → ℕ → Call
  checks : ℕ → Call

-- The clock of a call. `ps_confirm` reads none; `confirms seq t` says when it is called.
abbrev pub clock : Call → ℕ
clock (sets seq expiry_ns dev_id t) = t
clock (confirms seq t) = t
clock (checks t) = t

unfoldable pub step : PendingState → Call → Outcome × PendingState
unfolding ps_set_pending ps_confirm ps_check_safe
step ps (sets seq expiry_ns dev_id t) = ps_set_pending ps seq expiry_ns dev_id t t
step ps (confirms seq t) = ps_confirm ps seq
step ps (checks t) = ps_check_safe ps t

pub run : PendingState → List Call → PendingState
run ps [] = ps
run ps (c ∷ rest) = run (step ps c).1 rest

-- What each of the calls returns.
pub outcomes : PendingState → List Call → List Outcome
outcomes ps [] = []
outcomes ps (c ∷ rest) = let done_by = step ps c in done_by.0 ∷ outcomes done_by.1 rest
