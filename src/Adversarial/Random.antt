-- ===== src/Adversarial/Random.antt =====
-- gate0_adversarial.c: the generator of the tests, the commands that they make of it, and the tests as far as
-- the file goes. It ends in the middle of `run_deterministic_tests`.
pub mod Cycle
mod Examples
use gate.Base.{
  ℕ, zero, suc, ◌+◌, ◌-◌, ◌*◌, ◌/◌, ◌%◌, ◌^◌, Bool, true, false, List, [], ◌∷◌, Bytes, bit_xor, u32,
  u64, sub64, if◌then◌else◌, ◌==◌,
}
use gate.Adversarial.{
  GateVerdict, accept, sequence_replay, sequence_gap, wrong_node, authority_insufficient,
  command_blocked, expired, future_timestamp, payload_corrupt, GateCommand, Gate, clock_skew_ns,
  gate_evaluate, verdict_code,
}

abbrev pub rng_seed : ℕ
rng_seed = 0xC0FFEE123456789A

-- The three shifts of `rng_next`, each joined to what it shifts.
abbrev pub shift_left : ℕ → ℕ → ℕ
shift_left k x = bit_xor x (u64 (x * 2 ^ k))

abbrev pub shift_right : ℕ → ℕ → ℕ
shift_right k x = bit_xor x (x / 2 ^ k)

-- What it returns is the new state.
unfoldable pub rng_next : ℕ → ℕ
rng_next x = shift_left 17 (shift_right 7 (shift_left 13 x))

-- `n` more bytes of a nonce, and the state behind them.
pub nonce_bytes : ℕ → ℕ → Bytes × ℕ
nonce_bytes zero state = ([], state)
nonce_bytes (suc n) state =
    let next = rng_next state in let rest = nonce_bytes n next in (next % 256 ∷ rest.0, rest.1)

pub make_nonce : ℕ → Bytes × ℕ
make_nonce state = nonce_bytes 16 state

-- The state of the generator is given and returned.
pub command_make : ℕ → ℕ → ℕ → ℕ → ℕ → GateCommand × ℕ
command_make sender node seq now state =
    let made = make_nonce state in
    (
      record {
        sender_id = sender;
        node_id = node;
        sequence = seq;
        issued_at_ns = now;
        expires_at_ns = u64 (now + 10000000000);
        nonce = made.0;
        command_type = 0x02;
        sender_authority = 2;
        required_authority = 1;
        payload_hash_expected = 0xAABBCCDD;
        payload_hash_actual = 0xAABBCCDD;
      },
      made.1,
    )

-- `tests_run` and `tests_passed`.
pub record Tally : Type 0 where
  pub tests_run : ℕ
  pub tests_passed : ℕ

pub expect : Tally → GateVerdict → GateVerdict → Tally
expect tally actual wanted = record {
  tests_run = u32 (tally.tests_run + 1);
  tests_passed =
      if verdict_code actual == verdict_code wanted
      then u32 (tally.tests_passed + 1)
      else tally.tests_passed;
}

-- One command made, changed and judged.
pub record Trial : Type 0 where
  pub node : ℕ
  pub seq : ℕ
  pub change : GateCommand → GateCommand
  pub wanted : GateVerdict

abbrev pub unchanged : GateCommand → GateCommand
unchanged cmd = cmd

abbrev pub tests_now : ℕ
tests_now = 100000000000

-- The twelve calls of `expect`, all of sender 100.
abbrev pub trials : List Trial
trials =
    record { node = 7; seq = 1; change = unchanged; wanted = accept }
    ∷ record { node = 7; seq = 2; change = unchanged; wanted = accept }
    ∷ record { node = 7; seq = 2; change = unchanged; wanted = sequence_replay }
    ∷ record { node = 7; seq = 4; change = unchanged; wanted = sequence_gap }
    ∷ record { node = 7; seq = 3; change = unchanged; wanted = accept }
    ∷ record { node = 7; seq = 4; change = unchanged; wanted = accept }
    ∷ record { node = 999; seq = 5; change = unchanged; wanted = wrong_node }
    ∷ record {
      node = 7;
      seq = 5;
      change = λ cmd. record cmd { required_authority = 3 };
      wanted = authority_insufficient;
    }
    ∷ record {
      node = 7;
      seq = 5;
      change = λ cmd. record cmd { command_type = 0xF5 };
      wanted = command_blocked;
    }
    ∷ record {
      node = 7;
      seq = 5;
      change = λ cmd. record cmd { expires_at_ns = sub64 tests_now 1 };
      wanted = expired;
    }
    ∷ record {
      node = 7;
      seq = 5;
      change = λ cmd. record cmd { issued_at_ns = u64 (tests_now + clock_skew_ns + 1) };
      wanted = future_timestamp;
    }
    ∷ record {
      node = 7;
      seq = 5;
      change = λ cmd. record cmd { payload_hash_actual = bit_xor cmd.payload_hash_actual 1 };
      wanted = payload_corrupt;
    }
    ∷ []

pub run_trials : List Trial → Gate → ℕ → Tally → Tally
run_trials [] gate state tally = tally
run_trials (t ∷ rest) gate state tally =
    let made = command_make 100 t.node t.seq tests_now state in
    let judged = gate_evaluate gate (t.change made.0) tests_now in
    run_trials rest judged.1 made.1 (expect tally judged.0 t.wanted)
