-- ===== src/Strict/Examples.antt =====
-- src/gate0_core.c: calls at concrete values, with a stand-in for the verification of signatures that
-- compares first bytes.
use gate.Base.{
  ℕ, ◌≡◌, ◌↔◌, refl, true, false, [], ◌∷◌, Bytes, get_or, replicate, ◌==◌, All, Consecutive, map,
}
use gate.Command.{SafetyInterlocks, tripped, Verify}
use gate.Strict.{
  ok, sequence_gap, blocked_command, interlock_unsafe, StrictEnvelope, StrictCommand, StrictSender,
  Call, check, evaluate_command, evaluate, serve, accepted,
}
use gate.Strict.Accept.{Accepts, evaluate_command-ok_iff, fresh_from}
use gate.Strict.Series.{IsSafe, SameRights, counted_from, accepted-IsSafe, first_contact_rights}

abbrev toy : Verify
toy signature message key = get_or signature 0 0 == get_or key 0 1

abbrev bytes_of : StrictEnvelope → Bytes
bytes_of e = e.command_type ∷ []

abbrev clear : SafetyInterlocks
clear = record {
  estop = 0;
  overspeed = 0;
  overtemp = 0;
  overvoltage = 0;
  interlock_mask = 0;
  last_trip_ns = 0;
  trip_count = 0;
}

abbrev command : ℕ → ℕ → StrictCommand
command seq type = record {
  envelope = record {
    protocol_version = 1;
    command_id = 1;
    node_id = 1;
    sequence_number = seq;
    issued_at_ns = 100;
    expires_at_ns = 200;
    command_type = type;
    required_authority = 2;
  };
  signature = replicate 64 7;
  sender_pubkey = replicate 32 7;
}

abbrev sender : StrictSender
sender = record {
  used = true;
  public_key = replicate 32 7;
  current_sequence = 4;
  allowed_nodes = 3;
  authority = 2;
}

abbrev fresh : StrictSender
fresh = record {
  used = false;
  public_key = replicate 32 0;
  current_sequence = 0;
  allowed_nodes = 0;
  authority = 0;
}

abbrev call : ℕ → ℕ → Call
call seq type = record { command = command seq type; interlocks = clear; now = 150 }

check_next : check (command 5 0x10) sender clear 150 ≡ ok
unfolding check tripped
check_next = refl

check_gap : check (command 6 0x10) sender clear 150 ≡ sequence_gap
unfolding check tripped
check_gap = refl

check_blocked : check (command 5 0xF0) sender clear 150 ≡ blocked_command
unfolding check tripped
check_blocked = refl

check_unsafe : check (command 5 0x10) sender (record clear { overtemp = 1 }) 150 ≡ interlock_unsafe
unfolding check tripped
check_unsafe = refl

check_safe_state : check (command 5 0xFF) sender (record clear { overtemp = 1 }) 150 ≡ ok
unfolding check tripped
check_safe_state = refl

evaluate_command-ok_iff_example :
    (evaluate_command toy bytes_of (command 5 0x10) sender clear 150
      ≡ (ok, record sender { current_sequence = 5 }))
    ↔ Accepts toy bytes_of
        (command 5 0x10)
        sender
        clear
        150
        (record sender { current_sequence = 5 })
evaluate_command-ok_iff_example =
    evaluate_command-ok_iff toy bytes_of (command 5 0x10) sender clear 150
      (record sender { current_sequence = 5 })

accepted-IsSafe_example :
    All (IsSafe toy bytes_of) (accepted toy bytes_of sender (call 5 0x10 ∷ call 6 0xF0 ∷ []))
    × Consecutive (counted_from sender) (
        map
          (λ c. c.command.envelope.sequence_number)
          (accepted toy bytes_of sender (call 5 0x10 ∷ call 6 0xF0 ∷ [])))
accepted-IsSafe_example = accepted-IsSafe toy bytes_of sender (call 5 0x10 ∷ call 6 0xF0 ∷ [])

first_contact_rights_example :
    SameRights toy bytes_of
      (fresh_from (command 1 0x10))
      (serve toy bytes_of (evaluate toy bytes_of fresh (call 1 0x10)).1 (call 2 0x10 ∷ []))
first_contact_rights_example =
    first_contact_rights toy bytes_of fresh (call 1 0x10) (call 2 0x10 ∷ []) refl refl refl
