-- ===== src/Core/Suite.antt =====
-- tests/test_gate0.c: its four tests against src/core.c and src/interlocks.c. It writes the results' names with
-- a digit where src/gate0.h has a letter. libsodium's signatures are parameters, and `sodium_init` has
-- succeeded.
use gate.Base.{ℕ, ◌≡◌, refl, Bool, Bytes, replicate, if◌then◌else◌, ◌==◌}
use gate.Command.{
  GateResult, ok, sequence_invalid, expired, interlock_tripped, result_code, CommandEnvelope,
  SignedCommand, SenderRecord, SafetyInterlocks, tripped, check_interlocks, Verify, encode_envelope,
}
use gate.Core.{evaluate_command, enrol, admit}

-- How `main` ends: at its end, or at the assertion on this line.
pub data Ending : Type 0 where
  finished : Ending
  aborted : ℕ → Ending

abbrev pub test_envelope : ℕ → CommandEnvelope
test_envelope seq = record {
  version = 1;
  command_id = 0;
  sequence = seq;
  timestamp_ns = 0;
  sender_id = replicate 32 0;
  payload = replicate 256 0;
  payload_len = 0;
  issued_at_ns = 1000;
  expires_at_ns = 5000;
}

abbrev pub test_sender : Bytes → SenderRecord
test_sender pk = record { public_key = pk; last_sequence = 10; used = Bool.true }

abbrev pub clear : SafetyInterlocks
clear = record {
  estop = 0;
  overspeed = 0;
  overtemp = 0;
  overvoltage = 0;
  interlock_mask = 0;
  last_trip_ns = 0;
  trip_count = 0;
}

-- `assert(res == wanted)` on line `line`, and what follows it.
abbrev pub expecting : GateResult → GateResult → ℕ → Ending → Ending
expecting res wanted line rest =
    if result_code res == result_code wanted then rest else aborted line

module _ (verify : Verify) (sign : Bytes → Bytes → Bytes) (pk sk : Bytes) where
  abbrev pub signed : CommandEnvelope → SignedCommand
  signed e = record { envelope = e; signature = sign (encode_envelope e) sk }

  pub test_main : Ending
  test_main =
      let first = signed (test_envelope 11) in
      let second = signed (test_envelope 12) in
      let (res_a, sender_a) = evaluate_command verify first (test_sender pk) clear 2000 in
      let (res_b, sender_b) = evaluate_command verify first sender_a clear 2000 in
      let (res_c, sender_c) = evaluate_command verify second sender_b clear 6000 in
      let stopped = record clear { estop = 1 } in
      let (res_d, sender_d) =
        evaluate_command verify second sender_c (check_interlocks stopped) 2000 in
      expecting res_a ok 44 (
        expecting res_b sequence_invalid 48
          (expecting res_c expired 54 (expecting res_d interlock_tripped 60 finished)))

  -- If signing and verification agree, the program never gets to its end: the first three tests pass, and the
  -- last assertion fails, as `check_interlocks` has cleared the stop and the command is accepted.
  pub test_main-aborts :
      ((m : Bytes) → verify (sign m sk) m pk ≡ Bool.true) → test_main ≡ aborted 60
  unfolding test_main evaluate_command enrol admit check_interlocks tripped result_code
  test_main-aborts signs =
      rw (signs (encode_envelope (test_envelope 11)), signs (encode_envelope (test_envelope 12)))
        refl
