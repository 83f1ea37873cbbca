-- ===== src/Core/Accept.antt =====
-- src/core.c: exactly which commands are accepted, and what each verdict leaves behind.
use gate.Base.{ℕ, ◌+◌, ◌≤◌, ◌≡◌, ◌≢◌, ◌↔◌, ◌⊎◌, inl, inr, true, false, u64, arith, Bytes}
use gate.Command.{
  ok, SignedCommand, SenderRecord, SafetyInterlocks, tripped, Verify, encode_envelope,
}
use gate.Core.{bootstrap_magic, payload_word, payload_key, evaluate_command}

-- Within the window of the command, ends included.
pub record InWindow (cmd : SignedCommand) (now : ℕ) : Type 0 where
  pub issued : cmd.envelope.issued_at_ns ≤ now
  pub fresh : now ≤ cmd.envelope.expires_at_ns

-- No interlock is set.
pub record IsClear (il : SafetyInterlocks) : Type 0 where
  pub estop : il.estop ≡ 0
  pub overspeed : il.overspeed ≡ 0
  pub overtemp : il.overtemp ≡ 0
  pub overvoltage : il.overvoltage ≡ 0

module _ (verify : Verify) (cmd : SignedCommand) (s : SenderRecord) (il : SafetyInterlocks) where
  abbrev SignedBy : Bytes → Type 0
  SignedBy key = verify cmd.signature (encode_envelope cmd.envelope) key ≡ true

  -- The two ways to be authorised: as the enrolled sender, or as the first contact, which names
  -- the key that it is checked against.
  pub data Authorised (now : ℕ) : Type 0 where
    enrolled :
        IsClear il
        → s.used ≡ true
        → cmd.envelope.sequence ≡ u64 (s.last_sequence + 1)
        → InWindow cmd now
        → SignedBy s.public_key
        → Authorised now
    first_contact :
        IsClear il
        → s.used ≡ false
        → payload_word cmd ≡ bootstrap_magic
        → cmd.envelope.sequence ≡ 1
        → InWindow cmd now
        → SignedBy (payload_key cmd)
        → Authorised now

  pub evaluate-ok : (now : ℕ) → Authorised now → (evaluate_command verify cmd s il now).0 ≡ ok
  unfolding evaluate_command tripped
  evaluate-ok now (enrolled c u q w v) = ground arith
  evaluate-ok now (first_contact c u m q w v) = ground arith

  abbrev Cases : ℕ → Type 0
  Cases now =
      IsClear il
      × InWindow cmd now
      × (((s.used ≡ true)
            × (cmd.envelope.sequence ≡ u64 (s.last_sequence + 1))
            × SignedBy s.public_key)
          ⊎ ((s.used ≡ false)
              × (payload_word cmd ≡ bootstrap_magic)
              × (cmd.envelope.sequence ≡ 1)
              × SignedBy (payload_key cmd)))

  evaluate_ok-Cases : (now : ℕ) → (evaluate_command verify cmd s il now).0 ≡ ok → Cases now
  unfolding evaluate_command tripped
  evaluate_ok-Cases now h = ground arith

  authorised_of_cases : (now : ℕ) → Cases now → Authorised now
  authorised_of_cases now (c, w, inl (u, q, v)) = enrolled c u q w v
  authorised_of_cases now (c, w, inr (u, m, q, v)) = first_contact c u m q w v

  -- A command is accepted exactly when it is authorised: no interlock set, inside its window, with
  -- the next sequence number, and signed by the enrolled key or, on first contact with the
  -- bootstrap word and number 1, by the key in its own payload.
  pub evaluate-ok_iff : (now : ℕ) → ((evaluate_command verify cmd s il now).0 ≡ ok) ↔ Authorised now
  evaluate-ok_iff now = (λ h. authorised_of_cases now (evaluate_ok-Cases now h), evaluate-ok now)

  -- The record after a call: an accepted command moves only the sequence number of the enrolled
  -- sender, a rejected one leaves the enrolled sender as it was.
  pub evaluate-record :
      (now : ℕ)
      → s.used ≡ true
      → let (result, s') = evaluate_command verify cmd s il now in
        ((result ≡ ok) × (s' ≡ record s { last_sequence = cmd.envelope.sequence }))
        ⊎ ((result ≢ ok) × (s' ≡ s))
  unfolding evaluate_command
  evaluate-record now u = ground arith
