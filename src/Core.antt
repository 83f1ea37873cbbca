-- ===== src/Core.antt =====
-- src/core.c, built without GATE0_SIMULATION as the Makefile does: one sender record, enrolled on
-- first contact, and the check of one command against it.
pub mod Accept
pub mod Replay
pub mod Enrolment
pub mod Interlocks
pub mod Suite
mod Examples
use gate.Base.{
  ℕ, ◌+◌, Bool, ◌||◌, List, [], ◌∷◌, Option, none, some, Bytes, ltb, ◌==◌, if◌then◌else◌, u64, take,
  drop, of_le,
}
use gate.Command.{
  GateResult, ok, signature_invalid, expired, sequence_invalid, sender_not_found, interlock_tripped,
  SignedCommand, SenderRecord, SafetyInterlocks, tripped, Verify, encode_envelope,
}

-- The word at the start of the payload that asks for enrolment.
abbrev pub bootstrap_magic : ℕ
bootstrap_magic = 0xDEADBEEF

abbrev pub payload_word : SignedCommand → ℕ
payload_word cmd = of_le (take 4 cmd.envelope.payload)

abbrev pub payload_key : SignedCommand → Bytes
payload_key cmd = take 32 (drop 4 cmd.envelope.payload)

-- The `if (!sender->used)` block; `none` is its early return.
pub enrol : SignedCommand → SenderRecord → Option SenderRecord
enrol cmd sender =
    if sender.used
    then some sender
    else if payload_word cmd == bootstrap_magic
    then some (record { public_key = payload_key cmd; last_sequence = 0; used = Bool.true })
    else none

module _ (verify : Verify) where
  -- The checks after enrolment.
  pub admit : SignedCommand → SenderRecord → ℕ → GateResult × SenderRecord
  admit cmd sender now =
      if cmd.envelope.sequence == u64 (sender.last_sequence + 1)
      then if ltb now cmd.envelope.issued_at_ns || ltb cmd.envelope.expires_at_ns now
        then (expired, sender)
        else if verify cmd.signature (encode_envelope cmd.envelope) sender.public_key
        then (ok, record sender { last_sequence = cmd.envelope.sequence })
        else (signature_invalid, sender)
      else (sequence_invalid, sender)

  unfoldable pub evaluate_command :
      SignedCommand → SenderRecord → SafetyInterlocks → ℕ → GateResult × SenderRecord
  unfolding enrol admit
  evaluate_command cmd sender il now =
      if tripped il
      then (interlock_tripped, sender)
      else elim (enrol cmd sender) [ none ↦ (sender_not_found, sender) | some s ↦ admit cmd s now ]

-- One call of `evaluate_command`: the command, the interlocks and the clock at that moment.
pub record Arrival : Type 0 where
  pub command : SignedCommand
  pub interlocks : SafetyInterlocks
  pub now : ℕ

module _ (verify : Verify) where
  abbrev pub evaluate : SenderRecord → Arrival → GateResult × SenderRecord
  evaluate s a = evaluate_command verify a.command s a.interlocks a.now

  -- The sender record after a series of calls.
  unfoldable pub serve : SenderRecord → List Arrival → SenderRecord
  serve s [] = s
  serve s (a ∷ calls) = serve (evaluate s a).1 calls

  -- The sequence numbers of the commands that a series of calls accepts.
  pub accepted : SenderRecord → List Arrival → List ℕ
  accepted s [] = []
  accepted s (a ∷ calls) =
      let (result, s') = evaluate s a in
      let rest = accepted s' calls in
      elim result [ ok ↦ a.command.envelope.sequence ∷ rest | _ ↦ rest ]
