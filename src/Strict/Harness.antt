-- ===== src/Strict/Harness.antt =====
-- tests/gate0_adversarial.c: the harness of 100000 trials against the gate. libsodium's signatures are
-- parameters, and so is AUTH_OPERATOR, which no header of the repository declares; `sodium_init` has
-- succeeded. An assertion that fails ends the program, which is `none`.
pub mod Trials
pub mod Passes
mod Examples
use gate.Base.{
  ℕ, zero, suc, ◌+◌, ◌%◌, Bool, ◌&&◌, List, [], ◌∷◌, Option, none, some, Bytes, ◌==◌, bit_xor,
  replicate, if◌then◌else◌, u64,
}
use gate.Command.{SafetyInterlocks, Verify}
use gate.Strict.{
  StrictResult, ok, sequence_replay, sequence_gap, StrictEnvelope, StrictCommand, StrictSender,
  evaluate_command,
}

infixl 5 ◌>>=◌
-- Nothing is done behind an assertion that failed.
abbrev pub ◌>>=◌ {ℓ ℓ'} : {A : Type ℓ} → {B : Type ℓ'} → Option A → (A → Option B) → Option B
none >>= k = none
some x >>= k = k x

abbrev pub base_time : ℕ
base_time = 1750000000000000

-- `SafetyInterlocks interlocks = {0}` and `SenderRecord sender = {0}`.
abbrev pub no_interlock : SafetyInterlocks
no_interlock = record {
  estop = 0;
  overspeed = 0;
  overtemp = 0;
  overvoltage = 0;
  interlock_mask = 0;
  last_trip_ns = 0;
  trip_count = 0;
}

abbrev pub no_sender : StrictSender
no_sender = record {
  used = Bool.false;
  public_key = replicate 32 0;
  current_sequence = 0;
  allowed_nodes = 0;
  authority = 0;
}

-- `signature[0] ^= 0xFF`
abbrev pub flip_first : Bytes → Bytes
flip_first [] = []
flip_first (b ∷ rest) = bit_xor b 0xFF ∷ rest

abbrev pub same_result : StrictResult → StrictResult → Bool
same_result ok ok = Bool.true
same_result sequence_replay sequence_replay = Bool.true
same_result sequence_gap sequence_gap = Bool.true
same_result _ _ = Bool.false

-- The envelope of the tests, with this number.
abbrev pub test_envelope : ℕ → ℕ → StrictEnvelope
test_envelope auth_operator seq = record {
  protocol_version = 0x01;
  command_id = 100;
  node_id = 0x01;
  sequence_number = seq;
  issued_at_ns = base_time;
  expires_at_ns = u64 (base_time + 1000000000);
  command_type = 0x01;
  required_authority = auth_operator;
}

-- The assertions behind a trial, on what the gate gave: the sender's record and `seq_before` after them.
abbrev pub judged : StrictSender → ℕ → StrictResult × StrictSender → Option (StrictSender × ℕ)
judged s seq_before (ok, s') =
    if s'.current_sequence == u64 (s.current_sequence + 1)
    then some (s', s'.current_sequence)
    else none
judged s seq_before (_, s') =
    if s'.current_sequence == s.current_sequence then some (s', seq_before) else none

module _ (verify : Verify) (bytes_of : StrictEnvelope → Bytes) where
  abbrev pub evaluate_now : StrictCommand → StrictSender → StrictResult × StrictSender
  evaluate_now cmd s = evaluate_command verify bytes_of cmd s no_interlock base_time

module _ (bytes_of : StrictEnvelope → Bytes) (sign : Bytes → Bytes → Bytes) (auth_operator : ℕ)
    (pk sk : Bytes) where
  abbrev pub signed : StrictEnvelope → StrictCommand
  signed e = record { envelope = e; signature = sign (bytes_of e) sk; sender_pubkey = pk }

  abbrev pub tampered : StrictEnvelope → StrictCommand
  tampered e = record (signed e) { signature = flip_first (signed e).signature }

  -- The command of trial `i`. The one that the trials start from is that of the last test, number 4.
  pub fuzz_command : ℕ → ℕ → StrictCommand
  fuzz_command i seq_before =
      let e = test_envelope auth_operator 4 in
      if i % 5 == 0
      then signed (record e { sequence_number = 999 })
      else if i % 5 == 1
      then signed (record e { sequence_number = 2 })
      else if i % 5 == 2
      then signed (record e { command_type = 0xF0 })
      else if i % 5 == 3
      then tampered e
      else signed (record e { sequence_number = u64 (seq_before + 1) })

module _ (verify : Verify) (bytes_of : StrictEnvelope → Bytes) (sign : Bytes → Bytes → Bytes)
    (auth_operator : ℕ) (pk sk : Bytes) where
  -- One of the first tests: a command of this number, and the two assertions on it.
  pub first_test : ℕ → StrictResult → ℕ → StrictSender → Option StrictSender
  first_test seq wanted number s =
      let cmd = signed bytes_of sign auth_operator pk sk (test_envelope auth_operator seq) in
      let (res, s') = evaluate_now verify bytes_of cmd s in
      if same_result res wanted && (s'.current_sequence == number) then some s' else none

  -- One trial: the sender's record and `seq_before` after it.
  pub trial : ℕ → StrictSender → ℕ → Option (StrictSender × ℕ)
  trial i s seq_before =
      judged s seq_before (
        evaluate_now verify bytes_of (fuzz_command bytes_of sign auth_operator pk sk i seq_before)
          s)

  -- `left` trials from trial `i` on.
  pub trials : ℕ → ℕ → StrictSender → ℕ → Option StrictSender
  trials zero i s seq_before = some s
  trials (suc left) i s seq_before = do
    (s', before) ← trial i s seq_before
    trials left (suc i) s' before

  -- The four tests and this many trials.
  pub campaign : ℕ → Option StrictSender
  unfolding first_test trials
  campaign count = do
    one ← first_test 1 ok 1 no_sender
    two ← first_test 2 ok 2 one
    three ← first_test 2 sequence_replay 2 two
    four ← first_test 4 sequence_gap 2 three
    trials count 0 four four.current_sequence

  -- The sender's record at the end of `main`.
  pub harness_main : Option StrictSender
  harness_main = campaign 100000
