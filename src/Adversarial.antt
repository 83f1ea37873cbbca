-- ===== src/Adversarial.antt =====
-- gate0_adversarial.c: a self-contained gate with a window of nonces and 32 sender slots. Random
-- is the generator of nonces and the tests that the file goes on with.
pub mod Nonces
pub mod Refusal
pub mod Lookup
pub mod Senders
pub mod Random
mod Examples
use gate.Base.{
  ℕ, zero, suc, ◌+◌, Bool, true, false, not, ◌&&◌, ◌||◌, List, [], ◌∷◌, ◌++◌, Option, none, some,
  Bytes, ltb, leb, ◌==◌, bytes_eq, get_or, set, length, drop, truthy, if◌then◌else◌, u64,
}

abbrev pub max_nonces : ℕ
max_nonces = 256

abbrev pub clock_skew_ns : ℕ
clock_skew_ns = 5000000000

-- The command types that the gate compares with.
abbrev pub cmd_enter_safe_state : ℕ
cmd_enter_safe_state = 0x03

abbrev pub cmd_estop_bypass : ℕ
cmd_estop_bypass = 0xF0

abbrev pub cmd_ignore_interlock : ℕ
cmd_ignore_interlock = 0xF7

pub data GateVerdict : Type 0 where
  accept unknown_sender bootstrap_invalid expired future_timestamp nonce_replay : GateVerdict
  sequence_replay sequence_gap wrong_node authority_insufficient command_blocked : GateVerdict
  interlock_unsafe payload_corrupt : GateVerdict

pub verdict_code : GateVerdict → ℕ
verdict_code accept = 0x0000
verdict_code unknown_sender = 0x0101
verdict_code bootstrap_invalid = 0x0102
verdict_code expired = 0x0201
verdict_code future_timestamp = 0x0202
verdict_code nonce_replay = 0x0301
verdict_code sequence_replay = 0x0401
verdict_code sequence_gap = 0x0402
verdict_code wrong_node = 0x0501
verdict_code authority_insufficient = 0x0601
verdict_code command_blocked = 0x0701
verdict_code interlock_unsafe = 0x0801
verdict_code payload_corrupt = 0x0901

pub record GateCommand : Type 0 where
  pub sender_id : ℕ
  pub node_id : ℕ
  pub sequence : ℕ
  pub issued_at_ns : ℕ
  pub expires_at_ns : ℕ
  pub nonce : Bytes
  pub command_type : ℕ
  pub sender_authority : ℕ
  pub required_authority : ℕ
  pub payload_hash_expected : ℕ
  pub payload_hash_actual : ℕ

pub record SenderState : Type 0 where
  pub used : ℕ
  pub sender_id : ℕ
  pub allowed_node : ℕ
  pub current_seq : ℕ
  pub authority : ℕ

pub record Interlocks : Type 0 where
  pub estop : ℕ
  pub overspeed : ℕ
  pub overtemp : ℕ
  pub overvoltage : ℕ

-- `nonces` is the part of the array in use, `nonces[0 .. nonce_count)`.
pub record Gate : Type 0 where
  pub senders : List SenderState
  pub nonces : List Bytes
  pub interlocks : Interlocks

pub nonce_seen : List Bytes → Bytes → Bool
nonce_seen [] nonce = false
nonce_seen (n ∷ rest) nonce =
    let others = nonce_seen rest nonce in if bytes_eq n nonce then true else others

unfoldable pub nonce_record : List Bytes → Bytes → List Bytes
nonce_record nonces nonce =
    if ltb (length nonces) max_nonces then nonces ++ (nonce ∷ []) else drop 1 nonces ++ (nonce ∷ [])

abbrev pub next_index : Option ℕ → Option ℕ
next_index none = none
next_index (some i) = some (suc i)

-- The index of the sender; `none` is NULL.
pub find_sender : ℕ → List SenderState → Option ℕ
find_sender id [] = none
find_sender id (s ∷ rest) =
    if truthy s.used && (s.sender_id == id) then some 0 else next_index (find_sender id rest)

pub free_slot : List SenderState → Option ℕ
free_slot [] = none
free_slot (s ∷ rest) = if not (truthy s.used) then some 0 else next_index (free_slot rest)

abbrev pub new_sender : GateCommand → SenderState
new_sender cmd = record {
  used = 1;
  sender_id = cmd.sender_id;
  allowed_node = cmd.node_id;
  current_seq = 1;
  authority = cmd.sender_authority;
}

pub bootstrap_sender : List SenderState → GateCommand → Option (List SenderState)
bootstrap_sender senders cmd = elim (free_slot senders) [
  | none ↦ none
  | some i ↦ some (set senders i (new_sender cmd))
]

unfoldable pub command_is_blocked : ℕ → Bool
command_is_blocked t = leb cmd_estop_bypass t && leb t cmd_ignore_interlock

unfoldable pub interlocks_safe : Interlocks → ℕ → Bool
interlocks_safe il t =
    if t == cmd_enter_safe_state
    then true
    else not (truthy il.estop || truthy il.overspeed || truthy il.overtemp || truthy il.overvoltage)

-- What a read out of range would give; every index below comes from a search.
abbrev pub no_sender : SenderState
no_sender = record { used = 0; sender_id = 0; allowed_node = 0; current_seq = 0; authority = 0 }

-- The checks against a sender that is known, at index `i`.
pub check_known : Gate → GateCommand → ℕ → GateVerdict × Gate
check_known gate cmd i =
    let s = get_or gate.senders i no_sender in
    if not (cmd.node_id == s.allowed_node)
    then (wrong_node, gate)
    else if ltb s.authority cmd.required_authority
    then (authority_insufficient, gate)
    else if leb cmd.sequence s.current_seq
    then (sequence_replay, gate)
    else if ltb (u64 (s.current_seq + 1)) cmd.sequence
    then (sequence_gap, gate)
    else (
      accept,
      record gate {
        senders = set gate.senders i (record s { current_seq = cmd.sequence });
        nonces = nonce_record gate.nonces cmd.nonce;
      },
    )

-- The `if (sender == NULL)` block.
pub check_unknown : Gate → GateCommand → GateVerdict × Gate
unfolding bootstrap_sender
check_unknown gate cmd =
    if not (cmd.sequence == 1)
    then (bootstrap_invalid, gate)
    else elim (bootstrap_sender gate.senders cmd) [
      | none ↦ (unknown_sender, gate)
      | some senders ↦
          (accept, record gate { senders = senders; nonces = nonce_record gate.nonces cmd.nonce })
    ]

pub gate_evaluate : Gate → GateCommand → ℕ → GateVerdict × Gate
unfolding check_known check_unknown command_is_blocked interlocks_safe
gate_evaluate gate cmd now =
    if not (cmd.payload_hash_expected == cmd.payload_hash_actual)
    then (payload_corrupt, gate)
    else if ltb cmd.expires_at_ns now
    then (expired, gate)
    else if ltb (u64 (now + clock_skew_ns)) cmd.issued_at_ns
    then (future_timestamp, gate)
    else if command_is_blocked cmd.command_type
    then (command_blocked, gate)
    else if not (interlocks_safe gate.interlocks cmd.command_type)
    then (interlock_unsafe, gate)
    else if nonce_seen gate.nonces cmd.nonce
    then (nonce_replay, gate)
    else elim (find_sender cmd.sender_id gate.senders) [
      | none ↦ check_unknown gate cmd
      | some i ↦ check_known gate cmd i
    ]

-- A command and the time when it comes.
pub record Attempt : Type 0 where
  pub command : GateCommand
  pub now : ℕ

abbrev pub attempt : Gate → Attempt → GateVerdict × Gate
attempt gate a = gate_evaluate gate a.command a.now

pub serve : Gate → List Attempt → Gate
serve gate [] = gate
serve gate (a ∷ rest) = serve (attempt gate a).1 rest

-- How many of the commands are accepted.
pub accepted_count : Gate → List Attempt → ℕ
accepted_count gate [] = 0
accepted_count gate (a ∷ rest) =
    let done = attempt gate a in
    let others = accepted_count done.1 rest in elim done.0 [ accept ↦ suc others | _ ↦ others ]
