-- ===== src/Core/Examples.antt =====
-- src/core.c: calls at concrete values. The stand-in for the verification of signatures compares the
-- first byte of the signature with the first byte of the key.
use gate.Base.{
  ℕ, ◌≡◌, ◌≢◌, ◌↔◌, refl, true, false, [], ◌∷◌, ◌++◌, Bytes, get_or, replicate, ◌==◌, le_bytes,
  of_le, Consecutive, arith,
}
use gate.Command.{
  ok, sequence_invalid, expired, interlock_tripped, SignedCommand, SenderRecord, SafetyInterlocks,
  tripped, Verify, encode_envelope,
}
use gate.Core.{Arrival, bootstrap_magic, evaluate_command, evaluate, serve, accepted, payload_key}
use gate.Core.Accept.{Authorised, evaluate-ok_iff}
use gate.Core.Replay.{accepted-Consecutive, no_replay, counted_from}
use gate.Core.Enrolment.{first_contact_owns}

abbrev toy : Verify
toy signature message key = get_or signature 0 0 == get_or key 0 1

abbrev clear : SafetyInterlocks
clear = record {
  estop = 0;
  overspeed = 0;
  overtemp = 0;
  overvoltage = 0;
  interlock_mask = 0;
  last_trip_ns = 0;
  trip_count = 0;
}

abbrev command : ℕ → ℕ → Bytes → SignedCommand
command byte seq payload = record {
  envelope = record {
    version = 1;
    command_id = 3;
    sequence = seq;
    timestamp_ns = 100;
    sender_id = replicate 32 7;
    payload = payload;
    payload_len = 36;
    issued_at_ns = 100;
    expires_at_ns = 200;
  };
  signature = replicate 64 byte;
}

abbrev arrival : ℕ → ℕ → Bytes → Arrival
arrival byte seq payload = record {
  command = command byte seq payload;
  interlocks = clear;
  now = 150;
}

abbrev owner : SenderRecord
owner = record { public_key = replicate 32 7; last_sequence = 4; used = true }

abbrev fresh : SenderRecord
fresh = record { public_key = replicate 32 0; last_sequence = 0; used = false }

-- A payload that asks for the enrolment of a key of nines.
abbrev bootstrap : Bytes
bootstrap = le_bytes 4 bootstrap_magic ++ replicate 32 9

accepts_next : (evaluate toy owner (arrival 7 5 [])).0 ≡ ok
unfolding evaluate_command tripped
accepts_next = refl

rejects_gap : (evaluate toy owner (arrival 7 6 [])).0 ≡ sequence_invalid
unfolding evaluate_command tripped
rejects_gap = refl

rejects_late : (evaluate_command toy (command 7 5 []) owner clear 201).0 ≡ expired
unfolding evaluate_command tripped
rejects_late = refl

rejects_estop :
    (evaluate_command toy (command 7 5 []) owner (record clear { estop = 1 }) 150).0
    ≡ interlock_tripped
unfolding evaluate_command tripped
rejects_estop = refl

evaluate-ok_iff_example :
    ((evaluate_command toy (command 7 5 []) owner clear 150).0 ≡ ok)
    ↔ Authorised toy (command 7 5 []) owner clear 150
evaluate-ok_iff_example = evaluate-ok_iff toy (command 7 5 []) owner clear 150

accepted-Consecutive_example :
    Consecutive (counted_from owner) (accepted toy owner (arrival 7 5 [] ∷ arrival 7 5 [] ∷ []))
accepted-Consecutive_example = accepted-Consecutive toy owner (arrival 7 5 [] ∷ arrival 7 5 [] ∷ [])

no_replay_example :
    (evaluate toy
      (serve toy (evaluate toy owner (arrival 7 5 [])).1 (arrival 7 6 [] ∷ []))
      (arrival 7 5 [])).0
    ≢ ok
unfolding evaluate_command tripped
no_replay_example =
    no_replay toy owner (arrival 7 5 []) (arrival 7 5 []) (arrival 7 6 [] ∷ []) refl refl
      (omega arith)

first_contact_owns_example :
    toy
      (replicate 64 9)
      (encode_envelope (command 9 1 []).envelope)
      (payload_key (command 0 1 bootstrap))
    ≡ true
unfolding evaluate_command serve le_bytes of_le tripped
first_contact_owns_example =
    first_contact_owns toy fresh (arrival 0 1 bootstrap) (arrival 9 1 []) [] refl refl refl refl
