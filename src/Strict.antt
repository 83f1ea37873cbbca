-- ===== src/Strict.antt =====
-- src/gate0_core.c, and src/pure_core.c, which is the same text but for one `inline`: the evaluator
-- with nodes, authority levels and blocked command types. The structs that these files use are not
-- declared under src/; their fields here are the ones that the code and tests/gate0_adversarial.c
-- name, and the bytes that a signature covers are a parameter.
pub mod Accept
pub mod Series
pub mod Harness
mod Examples
use Prim.Native.Nat.{bit_and}
use gate.Base.{
  ℕ, ◌+◌, Bool, ◌&&◌, ◌||◌, List, [], ◌∷◌, Option, none, some, Bytes, ltb, leb, ◌==◌, bytes_eq, not,
  if◌then◌else◌, u64,
}
use gate.Command.{SafetyInterlocks, tripped, Verify}

pub data StrictResult : Type 0 where
  ok signature_invalid unknown_sender expired future_timestamp wrong_node : StrictResult
  insufficient_authority sequence_replay sequence_gap blocked_command interlock_unsafe :
      StrictResult

pub record StrictEnvelope : Type 0 where
  pub protocol_version : ℕ
  pub command_id : ℕ
  pub node_id : ℕ
  pub sequence_number : ℕ
  pub issued_at_ns : ℕ
  pub expires_at_ns : ℕ
  pub command_type : ℕ
  pub required_authority : ℕ

pub record StrictCommand : Type 0 where
  pub envelope : StrictEnvelope
  pub signature : Bytes
  pub sender_pubkey : Bytes

pub record StrictSender : Type 0 where
  pub used : Bool
  pub public_key : Bytes
  pub current_sequence : ℕ
  pub allowed_nodes : ℕ
  pub authority : ℕ

abbrev pub cmd_type_safe_state : ℕ
cmd_type_safe_state = 0xFF

abbrev pub max_skew_ns : ℕ
max_skew_ns = 500000000

unfoldable pub is_blocked_command : ℕ → Bool
is_blocked_command cmd_type = leb 0xF0 cmd_type && leb cmd_type 0xF7

-- The `if (!sender->used)` statement; `none` is a return of G0_UNKNOWN_SENDER.
unfoldable pub admit_sender : StrictCommand → StrictSender → Option StrictSender
admit_sender cmd sender =
    if not sender.used
    then if cmd.envelope.sequence_number == 1
      then some (record {
        used = Bool.true;
        public_key = cmd.sender_pubkey;
        current_sequence = 0;
        allowed_nodes = cmd.envelope.node_id;
        authority = cmd.envelope.required_authority;
      })
      else none
    else if bytes_eq sender.public_key cmd.sender_pubkey
    then some sender
    else none

-- The checks after it, in order; `ok` is the fall-through to the last two lines.
unfoldable pub check : StrictCommand → StrictSender → SafetyInterlocks → ℕ → StrictResult
unfolding is_blocked_command
check cmd sender il now =
    let e = cmd.envelope in
    if ltb e.expires_at_ns now
    then expired
    else if ltb (u64 (now + max_skew_ns)) e.issued_at_ns
    then future_timestamp
    else if bit_and sender.allowed_nodes e.node_id == 0
    then wrong_node
    else if ltb sender.authority e.required_authority
    then insufficient_authority
    else if leb e.sequence_number sender.current_sequence
    then sequence_replay
    else if ltb (u64 (sender.current_sequence + 1)) e.sequence_number
    then sequence_gap
    else if is_blocked_command e.command_type
    then blocked_command
    else if tripped il && not (e.command_type == cmd_type_safe_state)
    then interlock_unsafe
    else ok

module _ (verify : Verify) (bytes_of : StrictEnvelope → Bytes) where
  unfoldable pub evaluate_command :
      StrictCommand → StrictSender → SafetyInterlocks → ℕ → StrictResult × StrictSender
  unfolding admit_sender check
  evaluate_command cmd sender il now =
      if not (verify cmd.signature (bytes_of cmd.envelope) cmd.sender_pubkey)
      then (signature_invalid, sender)
      else elim (admit_sender cmd sender) [
        | none ↦ (unknown_sender, sender)
        | some s ↦ elim (check cmd s il now) [
          | ok ↦ (ok, record s { current_sequence = cmd.envelope.sequence_number })
          | refusal ↦ (refusal, s)
        ]
      ]

-- One call: the command, the interlocks and the clock at that moment.
pub record Call : Type 0 where
  pub command : StrictCommand
  pub interlocks : SafetyInterlocks
  pub now : ℕ

module _ (verify : Verify) (bytes_of : StrictEnvelope → Bytes) where
  abbrev pub evaluate : StrictSender → Call → StrictResult × StrictSender
  evaluate s c = evaluate_command verify bytes_of c.command s c.interlocks c.now

  pub serve : StrictSender → List Call → StrictSender
  serve s [] = s
  serve s (c ∷ rest) = serve (evaluate s c).1 rest

  -- The commands that a series of calls accepts, with the interlocks of the moment.
  unfoldable pub accepted : StrictSender → List Call → List Call
  accepted s [] = []
  accepted s (c ∷ rest) =
      let (result, s') = evaluate s c in
      let others = accepted s' rest in elim result [ ok ↦ c ∷ others | _ ↦ others ]
