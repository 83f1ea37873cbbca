-- ===== src/Multi/Series.antt =====
-- src/core_multiclient.c over a series of calls from many senders.
use gate.Base.{
  ℕ, ◌<◌, ◌≡◌, ◌≢◌, inl, inr, true, false, List, [], ◌∷◌, Option, none, some, Bytes, bytes_eq,
  bytes_eq→eq, Increasing, Bool-cases, arith,
}
use gate.Command.{ok, SenderRecord, tripped, Verify}
use gate.Multi.{Call, evaluate_command_multiclient, evaluate, accepted_under}
use gate.Multi.Lookup.{last_of}
use gate.Multi.Isolation.{multiclient-Refines}

-- The number that a key's next command must exceed.
abbrev pub floor_of : Option ℕ → ℕ
floor_of none = 0
floor_of (some n) = n

module _ (verify : Verify) (key : Bytes) where
  -- What one call, from this sender or another, means for one key.
  record Moves (senders : List SenderRecord) (c : Call) : Type 0 where
    mine_ok :
        bytes_eq c.request.sender_pubkey key ≡ true
        → (evaluate verify senders c).0 ≡ ok
        → (floor_of (last_of key senders) < c.request.envelope.sequence)
          × (floor_of (last_of key (evaluate verify senders c).1) ≡ c.request.envelope.sequence)
    mine_rejected :
        (evaluate verify senders c).0 ≢ ok
        → floor_of (last_of key (evaluate verify senders c).1) ≡ floor_of (last_of key senders)
    other :
        bytes_eq c.request.sender_pubkey key ≡ false
        → last_of key (evaluate verify senders c).1 ≡ last_of key senders

  tripped-Moves :
      (senders : List SenderRecord) (c : Call) → tripped c.interlocks ≡ true → Moves senders c
  unfolding evaluate_command_multiclient
  tripped-Moves senders c t = ground arith

  clear-Moves :
      (senders : List SenderRecord) (c : Call) → tripped c.interlocks ≡ false → Moves senders c
  clear-Moves senders c t =
      let key_eq = bytes_eq→eq c.request.sender_pubkey key in
      let r = multiclient-Refines verify senders c.request c.interlocks c.now t in
      let after = r.1 key in
      record {
        mine_ok = λ same h. ground (arith, key_eq, r.0, after);
        mine_rejected = λ h. ground (arith, key_eq, r.0, after);
        other = λ ne. ground (arith, after);
      }

  evaluate-Moves : (senders : List SenderRecord) (c : Call) → Moves senders c
  evaluate-Moves senders c = elim (Bool-cases (tripped c.interlocks)) [
    | inl t ↦ tripped-Moves senders c t
    | inr t ↦ clear-Moves senders c t
  ]

  -- Whatever other senders send in between, the sequence numbers accepted under one key only grow.
  pub accepted_under-Increasing :
      (senders : List SenderRecord) (calls : List Call)
      → Increasing (floor_of (last_of key senders)) (accepted_under verify key senders calls)
  unfolding accepted_under
  accepted_under-Increasing senders [] = tt
  accepted_under-Increasing senders (c ∷ rest) =
      let senders' = (evaluate verify senders c).1 in
      ground (arith, evaluate-Moves senders c, accepted_under-Increasing senders' rest)
