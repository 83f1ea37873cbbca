-- ===== src/Core/Interlocks.antt =====
-- src/core.c after src/interlocks.c.
use gate.Base.{ℕ, ◌≡◌, ◌≢◌, refl, false, arith}
use gate.Command.{
  interlock_tripped, SignedCommand, SenderRecord, SafetyInterlocks, tripped, check_interlocks,
  Verify,
}
use gate.Core.{evaluate_command}

check_interlocks-clear : (il : SafetyInterlocks) → tripped (check_interlocks il) ≡ false
unfolding tripped check_interlocks
check_interlocks-clear il = refl

module _ (verify : Verify) where
  -- `check_interlocks` clears the interlocks: no command that comes after it is refused for one, whichever were
  -- set before.
  pub evaluate-check_interlocks :
      (cmd : SignedCommand) (s : SenderRecord) (il : SafetyInterlocks) (now : ℕ)
      → (evaluate_command verify cmd s (check_interlocks il) now).0 ≢ interlock_tripped
  unfolding evaluate_command
  evaluate-check_interlocks cmd s il now h =
      let clear = check_interlocks-clear il in ground (arith, clear, h)
