-- ===== src/Command/Examples.antt =====
-- src/gate0.h: an envelope and a command, for the theorems on the layout.
use gate.Base.{ℕ, ◌≡◌, refl, ◌++◌, replicate, arith}
use gate.Command.{CommandEnvelope, SignedCommand, IsEncodable, encode_command, decode_command}
use gate.Command.Encoding.{decode-encode_command}

abbrev envelope_of : ℕ → CommandEnvelope
envelope_of seq = record {
  version = 1;
  command_id = 3;
  sequence = seq;
  timestamp_ns = 100;
  sender_id = replicate 32 7;
  payload = replicate 256 0;
  payload_len = 0;
  issued_at_ns = 100;
  expires_at_ns = 200;
}

abbrev signed : SignedCommand
signed = record { envelope = envelope_of 5; signature = replicate 64 9 }

envelope_of-IsEncodable : IsEncodable (envelope_of 5)
envelope_of-IsEncodable = record {
  version_u8 = omega arith;
  command_id_u8 = omega arith;
  sequence_u64 = omega arith;
  timestamp_u64 = omega arith;
  sender_32 = refl;
  payload_256 = refl;
  payload_len_u32 = omega arith;
  issued_u64 = omega arith;
  expires_u64 = omega arith;
}

decode-encode_command_example : decode_command (encode_command signed ++ replicate 122 0) ≡ signed
decode-encode_command_example =
    decode-encode_command signed (replicate 122 0) envelope_of-IsEncodable refl
