-- ===== src/Legacy.antt =====
-- evidence/g0_integration_pass/core.c and gate0.h: the gate as it was at the recorded integration pass, built
-- without GATE0_SIMULATION. The signature check is a parameter.
pub mod Series
mod Examples
use gate.Base.{
  ℕ, ◌+◌, Bool, true, ◌||◌, List, [], ◌∷◌, ◌++◌, Bytes, ltb, leb, truthy, if◌then◌else◌, take,
  le_bytes,
}
use gate.Command.{
  GateResult, ok, signature_invalid, expired, sequence_invalid, interlock_tripped, SenderRecord,
  Verify,
}

-- `DeviceInfo`
pub record DeviceInfo : Type 0 where
  pub os_name : Bytes
  pub os_release : Bytes
  pub machine_arch : Bytes
  pub hostname : Bytes

pub record OldEnvelope : Type 0 where
  pub version : ℕ
  pub sequence : ℕ
  pub issued_at_ns : ℕ
  pub expires_at_ns : ℕ
  pub payload : Bytes
  pub required_authority : ℕ
  pub device : DeviceInfo

pub record OldCommand : Type 0 where
  pub signature : Bytes
  pub envelope : OldEnvelope

pub record OldInterlocks : Type 0 where
  pub estop : Bool
  pub overspeed : Bool
  pub overtemp : Bool
  pub overvoltage : Bool

-- The packed structs in memory.
unfoldable pub device_bytes : DeviceInfo → Bytes
device_bytes d = d.os_name ++ (d.os_release ++ (d.machine_arch ++ d.hostname))

unfoldable pub envelope_bytes : OldEnvelope → Bytes
envelope_bytes e =
    le_bytes 4 e.version
    ++ (le_bytes 8 e.sequence
        ++ (le_bytes 8 e.issued_at_ns
            ++ (le_bytes 8 e.expires_at_ns
                ++ (e.payload ++ (le_bytes 4 e.required_authority ++ device_bytes e.device)))))

abbrev pub any_tripped : OldInterlocks → Bool
any_tripped il = il.estop || il.overspeed || il.overtemp || il.overvoltage

-- The `if (!sender->used)` block.
unfoldable pub enrol : OldCommand → SenderRecord → SenderRecord
enrol cmd s =
    if s.used
    then s
    else record { public_key = take 32 cmd.envelope.payload; last_sequence = 0; used = true }

module _ (verify : Verify) where
  -- The checks after it.
  pub admit : OldCommand → SenderRecord → ℕ → GateResult × SenderRecord
  admit cmd s now =
      if leb cmd.envelope.sequence s.last_sequence
      then (sequence_invalid, s)
      else if ltb now cmd.envelope.issued_at_ns || ltb cmd.envelope.expires_at_ns now
      then (expired, s)
      else if verify cmd.signature (envelope_bytes cmd.envelope) s.public_key
      then (ok, record s { last_sequence = cmd.envelope.sequence })
      else (signature_invalid, s)

  pub evaluate_command : OldCommand → SenderRecord → OldInterlocks → ℕ → GateResult × SenderRecord
  unfolding admit
  evaluate_command cmd s il now =
      if any_tripped il then (interlock_tripped, s) else admit cmd (enrol cmd s) now

-- One call: the command, the interlocks and the clock.
pub record OldCall : Type 0 where
  pub command : OldCommand
  pub interlocks : OldInterlocks
  pub now : ℕ

module _ (verify : Verify) where
  abbrev pub evaluate : SenderRecord → OldCall → GateResult × SenderRecord
  evaluate s c = evaluate_command verify c.command s c.interlocks c.now

  -- The commands that a series of calls accepts, and the record after it.
  pub accepted : SenderRecord → List OldCall → List OldCall × SenderRecord
  accepted s [] = ([], s)
  accepted s (c ∷ calls) =
      let done = evaluate s c in
      let rest = accepted done.1 calls in elim done.0 [ ok ↦ (c ∷ rest.0, rest.1) | _ ↦ rest ]
