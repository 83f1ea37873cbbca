-- ===== src/Strict/Accept.antt =====
-- src/gate0_core.c: exactly which commands are accepted, and what a first contact decides.
use Prim.Native.Nat.{bit_and}
use gate.Base.{
  ℕ, ◌+◌, ◌^◌, ◌≤◌, ◌<◌, ◌≡◌, ◌≢◌, ◌↔◌, ◌⊎◌, inl, inr, true, false, Bytes, bytes_eq→eq,
  bytes_eq_refl, u64, arith,
}
use gate.Command.{SafetyInterlocks, tripped, Verify}
use gate.Strict.{
  ok, StrictEnvelope, StrictCommand, StrictSender, cmd_type_safe_state, max_skew_ns, check,
  admit_sender, evaluate_command,
}

-- What the checks ask of a command against its sender's record.
pub record Passes (cmd : StrictCommand) (s : StrictSender) (il : SafetyInterlocks) (now : ℕ)
    : Type 0 where
  pub unexpired : now ≤ cmd.envelope.expires_at_ns
  pub not_future : cmd.envelope.issued_at_ns ≤ u64 (now + max_skew_ns)
  pub node : bit_and s.allowed_nodes cmd.envelope.node_id ≢ 0
  pub authority : cmd.envelope.required_authority ≤ s.authority
  pub next : cmd.envelope.sequence_number ≡ s.current_sequence + 1
  pub no_wrap : s.current_sequence + 1 < 2 ^ 64
  pub unblocked : (cmd.envelope.command_type < 0xF0) ⊎ (0xF7 < cmd.envelope.command_type)
  pub safe : (tripped il ≡ false) ⊎ (cmd.envelope.command_type ≡ cmd_type_safe_state)

check-ok :
    (cmd : StrictCommand) (s : StrictSender) (il : SafetyInterlocks) (now : ℕ)
    → Passes cmd s il now
    → check cmd s il now ≡ ok
unfolding check
check-ok cmd s il now p = ground arith

pub ok-Passes :
    (cmd : StrictCommand) (s : StrictSender) (il : SafetyInterlocks) (now : ℕ)
    → check cmd s il now ≡ ok
    → Passes cmd s il now
unfolding check
ok-Passes cmd s il now p = ground arith

-- The record that a first contact makes.
abbrev pub fresh_from : StrictCommand → StrictSender
fresh_from cmd = record {
  used = true;
  public_key = cmd.sender_pubkey;
  current_sequence = 0;
  allowed_nodes = cmd.envelope.node_id;
  authority = cmd.envelope.required_authority;
}

module _ (verify : Verify) (bytes_of : StrictEnvelope → Bytes) where
  abbrev pub IsSigned : StrictCommand → Type 0
  IsSigned cmd = verify cmd.signature (bytes_of cmd.envelope) cmd.sender_pubkey ≡ true

  -- Accepted, and the record that it leaves.
  abbrev pub Accepts : StrictCommand → StrictSender → SafetyInterlocks → ℕ → StrictSender → Type 0
  Accepts cmd s il now s' =
      (IsSigned cmd)
      × (((s.used ≡ true)
            × (s.public_key ≡ cmd.sender_pubkey)
            × Passes cmd s il now
            × (s' ≡ record s { current_sequence = cmd.envelope.sequence_number }))
          ⊎ ((s.used ≡ false)
              × (cmd.envelope.sequence_number ≡ 1)
              × Passes cmd (fresh_from cmd) il now
              × (s' ≡ record (fresh_from cmd) { current_sequence = 1 })))

  Accepts-ok :
      (cmd : StrictCommand) (s : StrictSender) (il : SafetyInterlocks) (now : ℕ) (s' : StrictSender)
      → Accepts cmd s il now s'
      → evaluate_command verify bytes_of cmd s il now ≡ (ok, s')
  unfolding evaluate_command admit_sender
  Accepts-ok cmd s il now s' (v, inl (u, k, p, e)) =
      ground (arith, check-ok cmd s il now p, bytes_eq_refl cmd.sender_pubkey)
  Accepts-ok cmd s il now s' (v, inr (u, q, p, e)) =
      ground (arith, check-ok cmd (fresh_from cmd) il now p)

  ok-Accepts :
      (cmd : StrictCommand) (s : StrictSender) (il : SafetyInterlocks) (now : ℕ) (s' : StrictSender)
      → evaluate_command verify bytes_of cmd s il now ≡ (ok, s')
      → Accepts cmd s il now s'
  unfolding evaluate_command admit_sender
  ok-Accepts cmd s il now s' h = ground (
    arith,
    ok-Passes cmd s il now,
    ok-Passes cmd (fresh_from cmd) il now,
    bytes_eq→eq s.public_key cmd.sender_pubkey,
  )

  -- A command is accepted, and leaves a given record, exactly when it is signed by the key it names,
  -- passes every check (not expired, not from more than half a second ahead, for an allowed node,
  -- within the sender's authority, the next in sequence, not a blocked type, and a safe-state
  -- command if an interlock is set) against its enrolled sender or, with number 1, against the
  -- record that it makes itself, and the record differs in its sequence number alone.
  pub evaluate_command-ok_iff :
      (cmd : StrictCommand) (s : StrictSender) (il : SafetyInterlocks) (now : ℕ) (s' : StrictSender)
      → (evaluate_command verify bytes_of cmd s il now ≡ (ok, s')) ↔ Accepts cmd s il now s'
  evaluate_command-ok_iff cmd s il now s' = (ok-Accepts cmd s il now s', Accepts-ok cmd s il now s')
