-- ===== src/Command.antt =====
-- src/gate0.h: the command envelope and what `evaluate_command` reads and writes, and
-- src/interlocks.c. Structs are packed, so a struct in memory is its fields' bytes in order.
pub mod Encoding
mod Examples
use gate.Base.{
  ℕ, ◌^◌, ◌<◌, ◌≡◌, Bool, ◌||◌, ◌++◌, Bytes, truthy, length, take, drop, le_bytes, of_le,
}

-- `enum GateOResult_tag`.
pub data GateResult : Type 0 where
  ok signature_invalid expired sequence_invalid invalid_version sender_not_found : GateResult
  interlock_tripped heartbeat_ok heartbeat_missed heartbeat_invalid : GateResult

-- The value that a client receives.
unfoldable pub result_code : GateResult → ℕ
result_code ok = 0
result_code signature_invalid = 1
result_code expired = 2
result_code sequence_invalid = 3
result_code invalid_version = 4
result_code sender_not_found = 5
result_code interlock_tripped = 6
result_code heartbeat_ok = 9
result_code heartbeat_missed = 10
result_code heartbeat_invalid = 11

pub record CommandEnvelope : Type 0 where
  pub version : ℕ
  pub command_id : ℕ
  pub sequence : ℕ
  pub timestamp_ns : ℕ
  pub sender_id : Bytes
  pub payload : Bytes
  pub payload_len : ℕ
  pub issued_at_ns : ℕ
  pub expires_at_ns : ℕ

pub record SignedCommand : Type 0 where
  pub envelope : CommandEnvelope
  pub signature : Bytes

pub record SenderRecord : Type 0 where
  pub public_key : Bytes
  pub last_sequence : ℕ
  pub used : Bool

pub record SafetyInterlocks : Type 0 where
  pub estop : ℕ
  pub overspeed : ℕ
  pub overtemp : ℕ
  pub overvoltage : ℕ
  pub interlock_mask : ℕ
  pub last_trip_ns : ℕ
  pub trip_count : ℕ

-- `il->estop||il->overspeed||il->overtemp||il->overvoltage`
unfoldable pub tripped : SafetyInterlocks → Bool
tripped il = truthy il.estop || truthy il.overspeed || truthy il.overtemp || truthy il.overvoltage

unfoldable pub check_interlocks : SafetyInterlocks → SafetyInterlocks
check_interlocks il = record il { estop = 0; overspeed = 0; overtemp = 0; overvoltage = 0 }

-- Verification of a detached signature: signature, message, public key. It is libsodium's
-- `crypto_sign_verify_detached(...) == 0`.
abbrev pub Verify : Type 0
Verify = Bytes → Bytes → Bytes → Bool

-- The bytes of the packed struct, which are what a signature is made over.
unfoldable pub encode_envelope : CommandEnvelope → Bytes
encode_envelope e =
    le_bytes 1 e.version
    ++ (le_bytes 1 e.command_id
        ++ (le_bytes 8 e.sequence
            ++ (le_bytes 8 e.timestamp_ns
                ++ (e.sender_id
                    ++ (e.payload
                        ++ (le_bytes 4 e.payload_len
                            ++ (le_bytes 8 e.issued_at_ns ++ le_bytes 8 e.expires_at_ns)))))))

unfoldable pub encode_command : SignedCommand → Bytes
encode_command c = encode_envelope c.envelope ++ c.signature

-- `(SignedCommand *)buffer`: the fields at their offsets, 326 bytes of envelope first.
pub decode_envelope : Bytes → CommandEnvelope
decode_envelope b0 =
    let b1 = drop 1 b0 in
    let b2 = drop 1 b1 in
    let b3 = drop 8 b2 in
    let b4 = drop 8 b3 in
    let b5 = drop 32 b4 in
    let b6 = drop 256 b5 in
    let b7 = drop 4 b6 in
    let b8 = drop 8 b7 in
    record {
      version = of_le (take 1 b0);
      command_id = of_le (take 1 b1);
      sequence = of_le (take 8 b2);
      timestamp_ns = of_le (take 8 b3);
      sender_id = take 32 b4;
      payload = take 256 b5;
      payload_len = of_le (take 4 b6);
      issued_at_ns = of_le (take 8 b7);
      expires_at_ns = of_le (take 8 b8);
    }

unfoldable pub decode_command : Bytes → SignedCommand
unfolding decode_envelope
decode_command b = record { envelope = decode_envelope b; signature = take 64 (drop 326 b) }

-- Every field fits the width that the struct gives it.
pub record IsEncodable (e : CommandEnvelope) : Type 0 where
  pub version_u8 : e.version < 2 ^ 8
  pub command_id_u8 : e.command_id < 2 ^ 8
  pub sequence_u64 : e.sequence < 2 ^ 64
  pub timestamp_u64 : e.timestamp_ns < 2 ^ 64
  pub sender_32 : length e.sender_id ≡ 32
  pub payload_256 : length e.payload ≡ 256
  pub payload_len_u32 : e.payload_len < 2 ^ 32
  pub issued_u64 : e.issued_at_ns < 2 ^ 64
  pub expires_u64 : e.expires_at_ns < 2 ^ 64
