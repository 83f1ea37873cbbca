-- ===== src/Strict/Harness/Passes.antt =====
-- tests/gate0_adversarial.c: no assertion of the harness fails, and what the gate has accepted at its end.
use gate.Base.{
  ℕ, zero, suc, ◌+◌, ◌%◌, ◌/◌, ◌<◌, ◌≡◌, ◌≢◌, ◌⊎◌, inl, inr, refl, ap, sym, subst, ◌∙◌, true, false,
  bytes_eq_refl, some, Bytes, leb, if◌then◌else◌, arith,
}
use gate.Command.{Verify, tripped}
use gate.Strict.{
  ok, sequence_replay, sequence_gap, StrictEnvelope, check, admit_sender, evaluate_command,
  is_blocked_command,
}
use gate.Strict.Harness.{
  flip_first, test_envelope, first_test, trials, campaign, harness_main, no_sender,
}
use gate.Strict.Harness.Trials.{known, Leads, kept, moved, lucky}

-- The number of the last command accepted before trial `i`: one trial in five carries the next number, and
-- trial 4980, meant to leave a gap, finds 998 there.
abbrev pub accepted_before : ℕ → ℕ
accepted_before i = (if leb i 4980 then 2 else 3) + i / 5

stays : (i : ℕ) → i % 5 ≢ 4 → i ≢ 4980 → accepted_before (suc i) ≡ accepted_before i
stays i a b = ground arith

last_of : (i : ℕ) → (i % 5 ≡ 4) ⊎ ((i ≡ 4980) ⊎ ((i % 5 ≢ 4) × (i ≢ 4980)))
last_of i = omega arith

grows : (i : ℕ) → i % 5 ≡ 4 → accepted_before (suc i) ≡ accepted_before i + 1
grows i a = ground arith

module _ (verify : Verify) (bytes_of : StrictEnvelope → Bytes) (sign : Bytes → Bytes → Bytes)
    (auth : ℕ) (pk sk : Bytes) (signs : (m : Bytes) → verify (sign m sk) m pk ≡ true)
    (caught : verify
        (flip_first (sign (bytes_of (test_envelope auth 4)) sk))
        (bytes_of (test_envelope auth 4))
        pk
      ≡ false) where
  trial_lem :
      (i : ℕ)
      → i < 100000
      → Leads verify bytes_of sign auth pk sk signs i (accepted_before i) (accepted_before (suc i))
  trial_lem i lt = elim (last_of i) [
    | inl last ↦
        subst (Leads verify bytes_of sign auth pk sk signs i (accepted_before i))
          (sym (grows i last))
          (moved verify bytes_of sign auth pk sk signs i (accepted_before i) (ground arith) last)
    | inr (inl there) ↦
        subst
          (λ j.
            Leads verify bytes_of sign auth pk sk signs j (accepted_before j)
              (accepted_before (suc j)))
          (sym there) (lucky verify bytes_of sign auth pk sk signs)
    | inr (inr (other, early)) ↦
        subst (Leads verify bytes_of sign auth pk sk signs i (accepted_before i))
          (sym (stays i other early))
          (kept verify bytes_of sign auth pk sk signs i (accepted_before i) caught (ground arith)
            (λ zeroth. ground (arith, zeroth)) other)
  ]

  trials_lem :
      (left i : ℕ)
      → i + left ≡ 100000
      → trials verify bytes_of sign auth pk sk left i
          (known pk auth (accepted_before i))
          (accepted_before i)
        ≡ some (known pk auth 20003)
  unfolding trials
  trials_lem zero i sum = ap (λ j. some (known pk auth (accepted_before j))) (sum' i sum)
    where
      sum' : (i : ℕ) → i + 0 ≡ 100000 → i ≡ 100000
      sum' i h = omega arith
  trials_lem (suc left) i sum =
      rw (trial_lem i (omega arith)) (trials_lem left (suc i) (omega arith))

  bootstrap : first_test verify bytes_of sign auth pk sk 1 ok 1 no_sender ≡ some (known pk auth 1)
  unfolding first_test evaluate_command admit_sender check is_blocked_command tripped
  bootstrap = rw signs (ground arith)

  second_number :
      first_test verify bytes_of sign auth pk sk 2 ok 2 (known pk auth 1) ≡ some (known pk auth 2)
  unfolding first_test evaluate_command admit_sender check is_blocked_command tripped
  second_number = rw (signs, bytes_eq_refl pk) (ground arith)

  replayed :
      first_test verify bytes_of sign auth pk sk 2 sequence_replay 2 (known pk auth 2)
      ≡ some (known pk auth 2)
  unfolding first_test evaluate_command admit_sender check is_blocked_command tripped
  replayed = rw (signs, bytes_eq_refl pk) (ground arith)

  gap :
      first_test verify bytes_of sign auth pk sk 4 sequence_gap 2 (known pk auth 2)
      ≡ some (known pk auth 2)
  unfolding first_test evaluate_command admit_sender check is_blocked_command tripped
  gap = rw (signs, bytes_eq_refl pk) (ground arith)

  campaign_lem :
      (count : ℕ)
      → campaign verify bytes_of sign auth pk sk count
        ≡ trials verify bytes_of sign auth pk sk count 0 (known pk auth 2) 2
  unfolding campaign
  campaign_lem count = rw (bootstrap, second_number, replayed, gap) refl

  -- If signing and verification agree and the tampered signature is refused, every assertion of the harness
  -- holds, those of the first four tests and of each of the 100000 trials, and at its end the gate
  -- has accepted 20003 commands of the one key: of two tests, of a fifth of the trials, and number 999,
  -- that was meant to be out of sequence.
  pub harness_main-passes :
      harness_main verify bytes_of sign auth pk sk ≡ some (known pk auth 20003)
  unfolding harness_main
  harness_main-passes = campaign_lem 100000 ∙ trials_lem 100000 0 refl
