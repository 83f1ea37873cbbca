-- ===== src/Multi.antt =====
-- src/core_multiclient.c: a table of senders, each found by its public key or enrolled on the spot.
-- `SignedCommand` there has a field `sender_pubkey`, which src/gate0.h does not declare.
pub mod Lookup
pub mod Isolation
pub mod Series
pub mod Slots
mod Examples
use gate.Base.{
  ℕ, zero, suc, Bool, true, false, ◌&&◌, ◌||◌, List, [], ◌∷◌, Option, none, some, Bytes, ltb, leb,
  not, bytes_eq, get_or, set, if◌then◌else◌,
}
use gate.Command.{
  GateResult, ok, signature_invalid, expired, sequence_invalid, sender_not_found, interlock_tripped,
  SignedCommand, SenderRecord, SafetyInterlocks, tripped, Verify, encode_envelope,
}

pub record KeyedCommand : Type 0 where
  pub command : SignedCommand
  pub open command use *
  pub sender_pubkey : Bytes

-- `next_index` of a search in the rest of an array.
abbrev pub next_index : Option ℕ → Option ℕ
next_index none = none
next_index (some i) = some (suc i)

-- The first loop: the first used record with the key.
pub find_sender : Bytes → List SenderRecord → Option ℕ
find_sender key [] = none
find_sender key (s ∷ rest) =
    if s.used && bytes_eq s.public_key key then some 0 else next_index (find_sender key rest)

-- The second loop: the first unused record.
pub find_free : List SenderRecord → Option ℕ
find_free [] = none
find_free (s ∷ rest) = if not s.used then some 0 else next_index (find_free rest)

-- What a read out of range would give; every index below comes from a search.
abbrev pub blank : SenderRecord
blank = record { public_key = []; last_sequence = 0; used = false }

abbrev pub enrolled : Bytes → SenderRecord
enrolled key = record { public_key = key; last_sequence = 0; used = true }

-- `matched_sender` and the array after both loops; `none` is a null pointer.
pub match_sender : Bytes → List SenderRecord → Option (ℕ × List SenderRecord)
match_sender key senders = elim (find_sender key senders) [
  | some i ↦ some (i, senders)
  | none ↦ elim (find_free senders) [
    | some i ↦ some (i, set senders i (enrolled key))
    | none ↦ none
  ]
]

module _ (verify : Verify) where
  -- The checks against the matched sender, at index `i`.
  pub admit : KeyedCommand → List SenderRecord → ℕ → ℕ → GateResult × List SenderRecord
  admit cmd senders i now =
      let s = get_or senders i blank in
      if leb cmd.envelope.sequence s.last_sequence
      then (sequence_invalid, senders)
      else if ltb now cmd.envelope.issued_at_ns || ltb cmd.envelope.expires_at_ns now
      then (expired, senders)
      else if verify cmd.signature (encode_envelope cmd.envelope) s.public_key
      then (ok, set senders i (record s { last_sequence = cmd.envelope.sequence }))
      else (signature_invalid, senders)

  pub evaluate_command_multiclient :
      List SenderRecord → KeyedCommand → SafetyInterlocks → ℕ → GateResult × List SenderRecord
  unfolding match_sender admit
  evaluate_command_multiclient senders cmd il now =
      if tripped il
      then (interlock_tripped, senders)
      else elim (match_sender cmd.sender_pubkey senders) [
        | none ↦ (sender_not_found, senders)
        | some (i, senders') ↦ admit cmd senders' i now
      ]

-- One call: the command, the interlocks and the clock at that moment.
pub record Call : Type 0 where
  pub request : KeyedCommand
  pub interlocks : SafetyInterlocks
  pub now : ℕ

module _ (verify : Verify) where
  abbrev pub evaluate : List SenderRecord → Call → GateResult × List SenderRecord
  evaluate senders c = evaluate_command_multiclient verify senders c.request c.interlocks c.now

  pub serve : List SenderRecord → List Call → List SenderRecord
  serve senders [] = senders
  serve senders (c ∷ rest) = serve (evaluate senders c).1 rest

  -- The sequence numbers accepted under one key.
  pub accepted_under : Bytes → List SenderRecord → List Call → List ℕ
  accepted_under key senders [] = []
  accepted_under key senders (c ∷ rest) =
      let (result, senders') = evaluate senders c in
      let others = accepted_under key senders' rest in
      elim result [
        | ok ↦
            if bytes_eq c.request.sender_pubkey key
            then c.request.envelope.sequence ∷ others
            else others
        | _ ↦ others
      ]
