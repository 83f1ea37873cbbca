-- ===== src/Client/Examples.antt =====
-- src/gate0_client.c: two runs, with signatures that are the key and the message.
use gate.Base.{
  ℕ, ◌≡◌, ◌≢◌, refl, true, false, [], ◌∷◌, ◌++◌, some, none, Bytes, bytes_eq, bytes_eq_refl,
  replicate, map, le_bytes, of_le, get_or, ap, arith,
}
use gate.Command.{SafetyInterlocks, Verify, tripped}
use gate.Sockets.{opened, sent, received, closed}
use gate.Strict.{StrictEnvelope, StrictSender, accepted}
use gate.Client.{client_main, probe_main}
use gate.Client.Runs.{ClientRun, call_of, client_runs-once}

abbrev toy : Verify
toy signature message key = bytes_eq signature (key ++ message)

abbrev toy_sign : Bytes → Bytes → Bytes
toy_sign message key = key ++ message

abbrev bytes_of : StrictEnvelope → Bytes
bytes_of e = e.command_type ∷ []

abbrev clear : SafetyInterlocks
clear = record {
  estop = 0;
  overspeed = 0;
  overtemp = 0;
  overvoltage = 0;
  interlock_mask = 0;
  last_trip_ns = 0;
  trip_count = 0;
}

abbrev fresh : StrictSender
fresh = record {
  used = false;
  public_key = replicate 32 0;
  current_sequence = 0;
  allowed_nodes = 0;
  authority = 0;
}

abbrev run : ℕ → ClientRun
run n = record { pk = n ∷ []; sk = n ∷ []; interlocks = clear; now = 1750000000000000 }

-- A run whose command is accepted, and a probe that finds nobody.
answered :
    (client_main bytes_of toy_sign 1
      (λ c. 9 ∷ [])
      []
      []
      (record { descriptor = some 3; connects = true; reply = some (le_bytes 4 0) }))
    ≡ record {
      exit = 0;
      printed = some 0;
      effects = opened 3 ∷ sent 3 (9 ∷ []) ∷ received 3 (le_bytes 4 0) ∷ closed 3 ∷ [];
    }
unfolding client_main le_bytes of_le
answered = refl

offline :
    probe_main (record { descriptor = some 3; connects = false; reply = none })
    ≡ record { exit = 0; printed = some 0; effects = opened 3 ∷ [] }
unfolding probe_main
offline = refl

apart : (run 1).pk ≢ (run 2).pk
apart h = omega (arith, ap (λ b. get_or b 0 0) h)

client_runs-once_example :
    accepted toy bytes_of fresh (map (call_of toy bytes_of toy_sign 1) (run 1 ∷ run 2 ∷ []))
    ≡ call_of toy bytes_of toy_sign 1 (run 1) ∷ []
unfolding tripped
client_runs-once_example =
    client_runs-once toy bytes_of toy_sign 1 fresh (run 1) (run 2 ∷ []) (λ m. bytes_eq_refl (1 ∷ m))
      refl refl (omega arith) (omega arith) ((λ m. bytes_eq_refl (2 ∷ m), apart), tt)
