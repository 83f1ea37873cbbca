-- ===== src/Strict/Harness/Trials.antt =====
-- tests/gate0_adversarial.c: each kind of trial passes its assertions.
use gate.Base.{
  ℕ, ◌+◌, ◌%◌, ◌≤◌, ◌<◌, ◌^◌, ◌≡◌, ◌≢◌, ◌⊎◌, inl, inr, refl, true, false, some, Bytes,
  bytes_eq_refl, arith,
}
use native.Mathlib.Nat.{mod-eq_of_lt}
use gate.Command.{Verify, tripped}
use gate.Strict.{
  ok, signature_invalid, unknown_sender, expired, future_timestamp, wrong_node,
  insufficient_authority, sequence_replay, sequence_gap, blocked_command, interlock_unsafe,
  StrictEnvelope, StrictSender, StrictResult, check, is_blocked_command, admit_sender,
  evaluate_command,
}
use gate.Strict.Harness.{
  base_time, no_interlock, flip_first, test_envelope, judged, signed, tampered, evaluate_now,
  fuzz_command, trial,
}

-- The sender's record when `number` is the last number accepted.
abbrev pub known : Bytes → ℕ → ℕ → StrictSender
known pk auth number = record {
  used = true;
  public_key = pk;
  current_sequence = number;
  allowed_nodes = 0x01;
  authority = auth;
}

residue : (i : ℕ) → (i % 5 ≡ 0) ⊎ ((i % 5 ≡ 1) ⊎ ((i % 5 ≡ 2) ⊎ ((i % 5 ≡ 3) ⊎ (i % 5 ≡ 4))))
residue i = omega arith

-- What the assertions make of a refusal and of an acceptance.
judged-refusal :
    (pk : Bytes) (auth n b m : ℕ) (r : StrictResult)
    → r ≢ ok
    → judged
        (known pk auth n)
        b
        (elim r [ ok ↦ (ok, known pk auth m) | refusal ↦ (refusal, known pk auth n) ])
      ≡ some (known pk auth n, b)
judged-refusal pk auth n b m ok refused = absurd (refused refl)
judged-refusal pk auth n b m signature_invalid refused = ground arith
judged-refusal pk auth n b m unknown_sender refused = ground arith
judged-refusal pk auth n b m expired refused = ground arith
judged-refusal pk auth n b m future_timestamp refused = ground arith
judged-refusal pk auth n b m wrong_node refused = ground arith
judged-refusal pk auth n b m insufficient_authority refused = ground arith
judged-refusal pk auth n b m sequence_replay refused = ground arith
judged-refusal pk auth n b m sequence_gap refused = ground arith
judged-refusal pk auth n b m blocked_command refused = ground arith
judged-refusal pk auth n b m interlock_unsafe refused = ground arith

judged-ok :
    (pk : Bytes) (auth n b : ℕ)
    → n + 1 < 2 ^ 64
    → judged (known pk auth n) b (ok, known pk auth (n + 1)) ≡ some (known pk auth (n + 1), n + 1)
judged-ok pk auth n b lt = ground arith

module _ (verify : Verify) (bytes_of : StrictEnvelope → Bytes) (sign : Bytes → Bytes → Bytes)
    (auth : ℕ) (pk sk : Bytes) (signs : (m : Bytes) → verify (sign m sk) m pk ≡ true) where
  -- The gate on a signed command of the known sender.
  pub evaluate-signed :
      (e : StrictEnvelope) (n : ℕ)
      → evaluate_now verify bytes_of (signed bytes_of sign auth pk sk e) (known pk auth n)
        ≡ elim (check
            (signed bytes_of sign auth pk sk e)
            (known pk auth n)
            no_interlock
            base_time) [
              | ok ↦ (ok, known pk auth e.sequence_number)
              | refusal ↦ (refusal, known pk auth n)
            ]
  unfolding evaluate_command admit_sender
  evaluate-signed e n = rw (signs (bytes_of e), bytes_eq_refl pk) refl

  -- A command of the tests with another number than the next one is refused, and so is a blocked one.
  pub check-number :
      (seq n : ℕ)
      → seq ≢ n + 1
      → check
          (signed bytes_of sign auth pk sk (test_envelope auth seq))
          (known pk auth n)
          no_interlock
          base_time
        ≢ ok
  unfolding check
  check-number seq n other h = ground (arith, other, h)

  check-blocked :
      (e : StrictEnvelope) (n : ℕ)
      → e.command_type ≡ 0xF0
      → check (signed bytes_of sign auth pk sk e) (known pk auth n) no_interlock base_time ≢ ok
  unfolding check is_blocked_command
  check-blocked e n blocked h = ground (arith, blocked, h)

  pub check-next :
      (n : ℕ)
      → n + 1 < 2 ^ 64
      → check
          (signed bytes_of sign auth pk sk (test_envelope auth (n + 1)))
          (known pk auth n)
          no_interlock
          base_time
        ≡ ok
  unfolding check is_blocked_command tripped
  check-next n lt = ground arith

  refused_trial :
      (e : StrictEnvelope) (n b : ℕ)
      → check (signed bytes_of sign auth pk sk e) (known pk auth n) no_interlock base_time ≢ ok
      → judged
          (known pk auth n)
          b
          (evaluate_now verify bytes_of (signed bytes_of sign auth pk sk e) (known pk auth n))
        ≡ some (known pk auth n, b)
  refused_trial e n b refused =
      rw (evaluate-signed e n) (judged-refusal pk auth n b e.sequence_number _ refused)

  accepted_trial :
      (n b : ℕ)
      → n + 1 < 2 ^ 64
      → judged (known pk auth n) b (
          evaluate_now verify bytes_of
            (signed bytes_of sign auth pk sk (test_envelope auth (n + 1)))
            (known pk auth n))
        ≡ some (known pk auth (n + 1), n + 1)
  accepted_trial n b lt =
      rw (evaluate-signed (test_envelope auth (n + 1)) n, check-next n lt)
        (judged-ok pk auth n b lt)

  tampered_trial :
      (n b : ℕ)
      → verify
          (flip_first (sign (bytes_of (test_envelope auth 4)) sk))
          (bytes_of (test_envelope auth 4))
          pk
        ≡ false
      → judged (known pk auth n) b (
          evaluate_now verify bytes_of
            (tampered bytes_of sign auth pk sk (test_envelope auth 4))
            (known pk auth n))
        ≡ some (known pk auth n, b)
  unfolding evaluate_command
  tampered_trial n b caught = rw caught (ground arith)

  -- Trial `i` passes its assertions and takes the sender's number, and `seq_before`, from `n` to `m`.
  abbrev pub Leads : ℕ → ℕ → ℕ → Type 0
  Leads i n m =
      trial verify bytes_of sign auth pk sk i (known pk auth n) n ≡ some (known pk auth m, m)

  -- All kinds of trials but the fifth, and trial 4980.
  pub kept :
      (i n : ℕ)
      → verify
          (flip_first (sign (bytes_of (test_envelope auth 4)) sk))
          (bytes_of (test_envelope auth 4))
          pk
        ≡ false
      → 2 ≤ n
      → (i % 5 ≡ 0 → n ≢ 998)
      → i % 5 ≢ 4
      → Leads i n n
  unfolding trial fuzz_command
  kept i n caught two no_gap not_last = elim (residue i) [
    | inl zeroth ↦ rw zeroth (
        refused_trial (test_envelope auth 999) n n
          (check-number 999 n (omega (arith, no_gap zeroth))))
    | inr (inl first) ↦
        rw first (refused_trial (test_envelope auth 2) n n (check-number 2 n (omega arith)))
    | inr (inr (inl second)) ↦ rw second (
        refused_trial (record (test_envelope auth 4) { command_type = 0xF0 }) n n
          (check-blocked (record (test_envelope auth 4) { command_type = 0xF0 }) n refl))
    | inr (inr (inr (inl third))) ↦ rw third (tampered_trial n n caught)
    | inr (inr (inr (inr last))) ↦ absurd (not_last last)
  ]

  pub moved : (i n : ℕ) → n + 1 < 2 ^ 64 → i % 5 ≡ 4 → Leads i n (n + 1)
  unfolding trial fuzz_command
  moved i n lt last = rw (last, mod-eq_of_lt lt) (accepted_trial n n lt)

  pub lucky : Leads 4980 998 999
  unfolding trial fuzz_command
  lucky = accepted_trial 998 998 (omega arith)
