-- ===== src/Multi/Examples.antt =====
-- src/core_multiclient.c: calls at concrete values, with a stand-in for the verification of signatures
-- that compares first bytes.
use gate.Base.{
  ℕ, ◌≡◌, ◌≢◌, refl, true, false, List, [], ◌∷◌, get_or, replicate, ◌==◌, bytes_eq, Increasing,
}
use gate.Command.{ok, sender_not_found, SenderRecord, SafetyInterlocks, tripped, Verify}
use gate.Multi.{
  KeyedCommand, Call, find_sender, find_free, evaluate_command_multiclient, evaluate, serve,
  accepted_under,
}
use gate.Multi.Lookup.{last_of}
use gate.Multi.Isolation.{Refines, multiclient-Refines}
use gate.Multi.Series.{accepted_under-Increasing}
use gate.Multi.Slots.{free_count, flood_locks_out}

abbrev toy : Verify
toy signature message key = get_or signature 0 0 == get_or key 0 1

abbrev clear : SafetyInterlocks
clear = record {
  estop = 0;
  overspeed = 0;
  overtemp = 0;
  overvoltage = 0;
  interlock_mask = 0;
  last_trip_ns = 0;
  trip_count = 0;
}

-- A command under the key of `key` bytes, signed by that of `signer`.
abbrev request : ℕ → ℕ → ℕ → KeyedCommand
request key signer seq = record {
  command = record {
    envelope = record {
      version = 1;
      command_id = 3;
      sequence = seq;
      timestamp_ns = 100;
      sender_id = replicate 32 7;
      payload = replicate 256 0;
      payload_len = 0;
      issued_at_ns = 100;
      expires_at_ns = 200;
    };
    signature = replicate 64 signer;
  };
  sender_pubkey = replicate 32 key;
}

abbrev call : ℕ → ℕ → ℕ → Call
call key signer seq = record { request = request key signer seq; interlocks = clear; now = 150 }

abbrev known : SenderRecord
known = record { public_key = replicate 32 7; last_sequence = 4; used = true }

abbrev free : SenderRecord
free = record { public_key = replicate 32 0; last_sequence = 0; used = false }

abbrev table : List SenderRecord
table = known ∷ free ∷ []

accepts_known : (evaluate toy table (call 7 7 9)).0 ≡ ok
unfolding evaluate_command_multiclient find_sender bytes_eq tripped
accepts_known = refl

-- A command that is not accepted has taken the last record.
rejects_third : (evaluate toy (evaluate toy table (call 1 0 1)).1 (call 2 2 1)).0 ≡ sender_not_found
unfolding evaluate_command_multiclient find_sender find_free bytes_eq tripped
rejects_third = refl

multiclient-Refines_example :
    Refines toy
      (request 7 7 9)
      150
      table
      (evaluate_command_multiclient toy table (request 7 7 9) clear 150)
unfolding tripped
multiclient-Refines_example = multiclient-Refines toy table (request 7 7 9) clear 150 refl

accepted_under-Increasing_example :
    Increasing 4
      (accepted_under toy (replicate 32 7) table (call 7 7 9 ∷ call 1 1 1 ∷ call 7 7 8 ∷ []))
unfolding last_of bytes_eq
accepted_under-Increasing_example =
    accepted_under-Increasing toy (replicate 32 7) table (call 7 7 9 ∷ call 1 1 1 ∷ call 7 7 8 ∷ [])

flood_locks_out_example :
    let full = serve toy table (call 1 0 1 ∷ []) in
    ((evaluate toy full (call 2 2 1)).0 ≢ ok) × ((evaluate toy full (call 2 2 1)).1 ≡ full)
unfolding evaluate_command_multiclient serve find_sender find_free bytes_eq tripped free_count
flood_locks_out_example =
    flood_locks_out toy table (call 1 0 1 ∷ []) (call 2 2 1) (refl, refl, tt) refl refl
