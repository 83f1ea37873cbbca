-- ===== src/Executive/Examples.antt =====
-- src/executive.c and src/gate0_daemon.c: clients at concrete values, with a stand-in for the verification
-- of signatures that compares first bytes.
use gate.Base.{
  ℕ, ◌≢◌, of_le, List, All, ◌≡◌, ◌↔◌, refl, true, [], ◌∷◌, Bytes, get_or, some, length, replicate,
  ◌==◌, le_bytes, arith,
}
use gate.Command.{
  result_code, tripped, SignedCommand, SenderRecord, Verify, IsEncodable, encode_envelope,
  encode_command, decode_command,
}
use gate.Core.{Arrival, serve, evaluate_command}
use gate.Sockets.{sent_bytes}
use gate.Sockets.Setup.{Socket}
use gate.Executive.ReadExact.{Read, got, Exact, read_exact, IsExact, stream, read_exact-total}
use gate.Executive.Replay.{replayed_bytes-refused}
use gate.Executive.Program.{open_server, executive_main, dummy_main}
use gate.Executive.Program.Descriptors.{Ending}
use gate.Executive.Program.Replies.{
  all_accepts, replies_if, executive_main-Ending, dummy_main-accepts,
}
use gate.Executive.{
  answer, Accept, failed, no_sender, interrupted, connected, no_interlock, executive, serve_once,
}
use gate.Executive.Serve.{Sends, verdicts, replies, executive-serve}
use gate.Executive.Once.{IsBootstrap, serve_once_iff}

abbrev toy : Verify
toy signature message key = get_or signature 0 0 == get_or key 0 1

abbrev signed : SignedCommand
signed = record {
  envelope = record {
    version = 1;
    command_id = 3;
    sequence = 5;
    timestamp_ns = 100;
    sender_id = replicate 32 7;
    payload = replicate 256 0;
    payload_len = 0;
    issued_at_ns = 100;
    expires_at_ns = 200;
  };
  signature = replicate 64 7;
}

abbrev owner : SenderRecord
owner = record { public_key = replicate 32 7; last_sequence = 4; used = true }

abbrev arrival : Arrival
arrival = record { command = signed; interlocks = no_interlock; now = 150 }

signed-IsEncodable : IsEncodable signed.envelope
signed-IsEncodable = record {
  version_u8 = omega arith;
  command_id_u8 = omega arith;
  sequence_u64 = omega arith;
  timestamp_u64 = omega arith;
  sender_32 = refl;
  payload_256 = refl;
  payload_len_u32 = omega arith;
  issued_u64 = omega arith;
  expires_u64 = omega arith;
}

sent_whole : Sends (encode_command signed) [] signed
unfolding encode_command encode_envelope le_bytes
sent_whole = record {
  some_bytes = omega arith;
  rest = [];
  bytes = refl;
  encodable = signed-IsEncodable;
  signature_64 = refl;
}

executive-serve_example :
    executive toy owner (interrupted ∷ connected (encode_command signed) [] 150 ∷ [])
    ≡ (replies toy (verdicts toy owner (arrival ∷ [])), serve toy owner (arrival ∷ []))
executive-serve_example =
    executive-serve toy owner (interrupted ∷ connected (encode_command signed) [] 150 ∷ [])
      (arrival ∷ []) (sent_whole, refl, refl, tt)

abbrev zeros : Bytes
zeros = replicate 390 0

serve_once_iff_example :
    (serve_once toy zeros ≡ some (replicate 4 0))
    ↔ ((length zeros ≡ 390) × IsBootstrap toy (decode_command zeros))
serve_once_iff_example = serve_once_iff toy zeros

-- A server that starts, one client, and an `accept` that fails.
abbrev starting : Socket
starting = record { descriptor = some 3; binds = true; listens = true }

abbrev accepts : List (ℕ × Accept)
accepts = (4, connected (encode_command signed) [] 150) ∷ (0, failed) ∷ []

executive_main-Ending_example :
    Ending (executive_main toy true starting accepts)
    × (sent_bytes (executive_main toy true starting accepts).1
        ≡ replies_if
            (open_server true starting).0
            (executive toy no_sender (all_accepts accepts)).0)
executive_main-Ending_example = executive_main-Ending toy true starting accepts

dummy_main-accepts_example :
    All (λ b. b ≡ replicate 4 0) (sent_bytes (dummy_main true starting accepts).1)
dummy_main-accepts_example = dummy_main-accepts true starting accepts

-- Four bytes in two pieces with an interruption between them, and more behind.
abbrev pieces : List Read
pieces = got (1 ∷ 2 ∷ 3 ∷ []) ∷ Read.interrupted ∷ got (4 ∷ []) ∷ got [] ∷ got [] ∷ []

read_exact-total_example :
    (r : Exact) × (read_exact 4 pieces ≡ some r) × IsExact 4 (stream pieces) pieces r
read_exact-total_example = read_exact-total 4 pieces (omega arith) (omega arith)

-- The accepted command, and the same one again after an interruption.
replayed_bytes-refused_example :
    (answer toy
      (executive toy (answer toy owner (encode_command signed) [] 150).1 (interrupted ∷ [])).1
      (encode_command signed)
      []
      160).0
    ≢ replicate 4 0
unfolding answer evaluate_command decode_command encode_command encode_envelope no_interlock
    result_code le_bytes of_le tripped
replayed_bytes-refused_example =
    replayed_bytes-refused toy owner (encode_command signed) [] (encode_command signed) [] 150 160
      (interrupted ∷ []) refl refl (omega arith)
