-- ===== src/Adversarial/Refusal.antt =====
-- gate0_adversarial.c: what an accepted command satisfies, and what a refused one leaves behind.
use gate.Base.{
  ℕ, ◌+◌, ◌≤◌, ◌<◌, ◌≡◌, ◌≢◌, ◌⊎◌, inl, inr, false, none, some, get_or, set, u64, Option-cases,
  arith,
}
use gate.Adversarial.{
  accept, GateCommand, Interlocks, Gate, nonce_seen, nonce_record, find_sender, bootstrap_sender,
  no_sender, check_known, check_unknown, command_is_blocked, interlocks_safe, gate_evaluate,
  cmd_enter_safe_state, clock_skew_ns,
}

abbrev pub IsQuiet : Interlocks → Type 0
IsQuiet il = (il.estop ≡ 0) × (il.overspeed ≡ 0) × (il.overtemp ≡ 0) × (il.overvoltage ≡ 0)

-- The command is the next one of its sender, or the first of a sender that gets a slot.
abbrev pub IsNext : Gate → GateCommand → Gate → Type 0
IsNext gate cmd gate' = elim (find_sender cmd.sender_id gate.senders) [
  | some i ↦
      let s = get_or gate.senders i no_sender in
      (cmd.node_id ≡ s.allowed_node)
      × (cmd.required_authority ≤ s.authority)
      × (cmd.sequence ≡ s.current_seq + 1)
      × (gate'.senders ≡ set gate.senders i (record s { current_seq = cmd.sequence }))
  | none ↦ (cmd.sequence ≡ 1) × (bootstrap_sender gate.senders cmd ≡ some gate'.senders)
]

-- What is shown of an accepted command.
pub record Accepted (gate : Gate) (cmd : GateCommand) (now : ℕ) (gate' : Gate) : Type 0 where
  pub intact : cmd.payload_hash_expected ≡ cmd.payload_hash_actual
  pub unexpired : now ≤ cmd.expires_at_ns
  pub not_future : cmd.issued_at_ns ≤ u64 (now + clock_skew_ns)
  pub unblocked : (cmd.command_type < 0xF0) ⊎ (0xF7 < cmd.command_type)
  pub safe : (cmd.command_type ≡ cmd_enter_safe_state) ⊎ IsQuiet gate.interlocks
  pub new_nonce : nonce_seen gate.nonces cmd.nonce ≡ false
  pub noted : gate'.nonces ≡ nonce_record gate.nonces cmd.nonce
  pub same_interlocks : gate'.interlocks ≡ gate.interlocks
  pub next : IsNext gate cmd gate'

-- An accepted command is intact, in time, of no blocked type, safe under the interlocks, with a nonce
-- that is not in the window, and next in its sender's sequence with the node and the authority of the
-- sender, or number 1 of a sender that is given a slot; it moves that sender and the window alone. A
-- refused command leaves the whole gate as it was.
pub gate_evaluate-Accepted :
    (gate : Gate) (cmd : GateCommand) (now : ℕ)
    → let done = gate_evaluate gate cmd now in
      ((done.0 ≡ accept) × Accepted gate cmd now done.1) ⊎ ((done.0 ≢ accept) × (done.1 ≡ gate))
unfolding gate_evaluate check_known check_unknown command_is_blocked interlocks_safe
gate_evaluate-Accepted gate cmd now = elim (Option-cases (find_sender cmd.sender_id gate.senders)) [
  | inl e ↦ ground (arith, e)
  | inr (i, e) ↦ ground (arith, e)
]
