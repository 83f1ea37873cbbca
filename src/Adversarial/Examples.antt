-- ===== src/Adversarial/Examples.antt =====
-- gate0_adversarial.c: commands at concrete values.
use gate.Base.{ℕ, List, ◌≡◌, ◌≢◌, ◌⊎◌, refl, [], ◌∷◌, replicate, bytes_eq, arith}
use gate.Adversarial.{
  accept, command_blocked, SenderState, GateCommand, Gate, Attempt, gate_evaluate, check_known,
  check_unknown, bootstrap_sender, attempt, serve, accepted_count, find_sender, free_slot,
  nonce_seen, nonce_record, command_is_blocked, interlocks_safe, no_sender,
}
use gate.Adversarial.Refusal.{Accepted, gate_evaluate-Accepted}
use gate.Adversarial.Lookup.{sender_of}
use gate.Adversarial.Senders.{Leads, accepted_from, accepted_from-Successive}
use gate.Adversarial.Nonces.{nonce_once}

abbrev command : ℕ → ℕ → ℕ → ℕ → GateCommand
command sender seq byte type = record {
  sender_id = sender;
  node_id = 7;
  sequence = seq;
  issued_at_ns = 100;
  expires_at_ns = 200;
  nonce = replicate 16 byte;
  command_type = type;
  sender_authority = 2;
  required_authority = 1;
  payload_hash_expected = 5;
  payload_hash_actual = 5;
}

abbrev at : GateCommand → Attempt
at cmd = record { command = cmd; now = 150 }

-- `memset(&gate,0,sizeof(gate))`
abbrev empty : Gate
empty = record {
  senders = replicate 32 no_sender;
  nonces = [];
  interlocks = record { estop = 0; overspeed = 0; overtemp = 0; overvoltage = 0 };
}

-- The gate after the first command of sender 100.
abbrev one : Gate
one = (attempt empty (at (command 100 1 1 2))).1

second_command : (attempt one (at (command 100 2 2 2))).0 ≡ accept
unfolding gate_evaluate check_known check_unknown bootstrap_sender find_sender free_slot nonce_seen
    nonce_record command_is_blocked interlocks_safe bytes_eq
second_command = refl

bypass_command : (attempt one (at (command 100 2 2 0xF5))).0 ≡ command_blocked
unfolding gate_evaluate check_known check_unknown bootstrap_sender find_sender free_slot nonce_seen
    nonce_record command_is_blocked interlocks_safe bytes_eq
bypass_command = refl

gate_evaluate-Accepted_example :
    let done = gate_evaluate empty (command 100 1 1 2) 150 in
    ((done.0 ≡ accept) × Accepted empty (command 100 1 1 2) 150 done.1)
    ⊎ ((done.0 ≢ accept) × (done.1 ≡ empty))
gate_evaluate-Accepted_example = gate_evaluate-Accepted empty (command 100 1 1 2) 150

nonce_once_example :
    (attempt (serve one (at (command 100 2 2 2) ∷ [])) (at (command 200 1 1 2))).0 ≢ accept
unfolding gate_evaluate check_known check_unknown bootstrap_sender find_sender free_slot nonce_seen
    nonce_record command_is_blocked interlocks_safe bytes_eq accepted_count
nonce_once_example =
    nonce_once empty (at (command 100 1 1 2)) (at (command 200 1 1 2)) (at (command 100 2 2 2) ∷ [])
      (omega arith) refl refl (omega arith)

abbrev operator : SenderState
operator = record { used = 1; sender_id = 100; allowed_node = 7; current_seq = 4; authority = 2 }

abbrev enrolled : Gate
enrolled = record empty { senders = operator ∷ replicate 31 no_sender }

-- The operator's next command, one of another sender, and one that skips a number.
abbrev mixed : List Attempt
mixed = at (command 100 5 1 2) ∷ at (command 200 1 2 2) ∷ at (command 100 7 3 2) ∷ []

accepted_from-Successive_example :
    Leads 100 operator (serve enrolled mixed) (accepted_from 100 enrolled mixed)
unfolding sender_of
accepted_from-Successive_example = accepted_from-Successive 100 operator enrolled mixed refl
