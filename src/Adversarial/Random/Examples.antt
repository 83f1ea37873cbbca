-- ===== src/Adversarial/Random/Examples.antt =====
-- gate0_adversarial.c: the first numbers of the generator, and the tests run with them.
use gate.Base.{◌+◌, ◌≡◌, ◌≢◌, refl, [], replicate, bytes_eq, arith}
use gate.Adversarial.{
  Gate, gate_evaluate, check_known, check_unknown, bootstrap_sender, find_sender, free_slot,
  nonce_seen, nonce_record, command_is_blocked, interlocks_safe, no_sender, verdict_code,
}
use gate.Adversarial.Random.{
  rng_seed, rng_next, nonce_bytes, make_nonce, command_make, expect, trials, run_trials,
}
use gate.Adversarial.Random.Cycle.{rng_states, rng_next-cycle}

-- `memset(&gate,0,sizeof(gate))`
abbrev zero_gate : Gate
zero_gate = record {
  senders = replicate 32 no_sender;
  nonces = [];
  interlocks = record { estop = 0; overspeed = 0; overtemp = 0; overvoltage = 0 };
}

first_number : rng_next rng_seed ≡ 0x9ad446aeaf65b2eb
unfolding rng_next
first_number = refl

-- All the tests that the file holds pass.
trials_pass :
    run_trials trials zero_gate rng_seed (record { tests_run = 0; tests_passed = 0 })
    ≡ record { tests_run = 12; tests_passed = 12 }
unfolding run_trials command_make make_nonce nonce_bytes rng_next expect verdict_code gate_evaluate
    check_known check_unknown bootstrap_sender find_sender free_slot nonce_seen nonce_record
    command_is_blocked interlocks_safe bytes_eq
trials_pass = refl

rng_next-cycle_example :
    (rng_states 2 rng_seed ≢ 0) × (rng_states (2 + 1) rng_seed ≢ rng_states 2 rng_seed)
unfolding rng_states rng_next
rng_next-cycle_example = rng_next-cycle 2 1 rng_seed (omega arith) (omega arith) (omega arith)
