-- ===== src/Strict/Series.antt =====
-- src/gate0_core.c over a series of calls.
use gate.Base.{
  ℕ, ◌+◌, ◌^◌, ◌<◌, ◌≡◌, ◌≢◌, refl, ◌⊎◌, true, false, List, [], ◌∷◌, Bytes, All, map, Consecutive,
  if◌then◌else◌, arith,
}
use gate.Command.{tripped, Verify}
use gate.Strict.{
  ok, StrictEnvelope, StrictSender, Call, cmd_type_safe_state, admit_sender, evaluate_command,
  evaluate, serve, accepted,
}
use gate.Strict.Accept.{fresh_from, IsSigned, ok-Passes}

abbrev pub counted_from : StrictSender → ℕ
counted_from s = if s.used then s.current_sequence else 0

module _ (verify : Verify) (bytes_of : StrictEnvelope → Bytes) where
  -- What holds of every accepted command.
  pub record IsSafe (c : Call) : Type 0 where
    pub signed : IsSigned verify bytes_of c.command
    pub unblocked :
        (c.command.envelope.command_type < 0xF0) ⊎ (0xF7 < c.command.envelope.command_type)
    pub interlocked :
        (tripped c.interlocks ≡ false) ⊎ (c.command.envelope.command_type ≡ cmd_type_safe_state)

  evaluate-step :
      (s : StrictSender) (c : Call)
      → let (result, s') = evaluate verify bytes_of s c in
        ((result ≡ ok)
          × IsSafe c
          × (c.command.envelope.sequence_number ≡ counted_from s + 1)
          × (counted_from s + 1 < 2 ^ 64)
          × (counted_from s' ≡ c.command.envelope.sequence_number))
        ⊎ ((result ≢ ok) × (counted_from s' ≡ counted_from s))
  unfolding evaluate_command admit_sender
  evaluate-step s c =
      let cmd = c.command in
      ground (
        arith,
        ok-Passes cmd s c.interlocks c.now,
        ok-Passes cmd (fresh_from cmd) c.interlocks c.now,
      )

  -- Over any series of calls, every accepted command is signed by the key it names, is no blocked type,
  -- and is the safe-state command if an interlock was set when it came; and the accepted sequence
  -- numbers are consecutive.
  pub accepted-IsSafe :
      (s : StrictSender) (calls : List Call)
      → All IsSafe (accepted verify bytes_of s calls)
        × Consecutive
            (counted_from s)
            (map (λ c. c.command.envelope.sequence_number) (accepted verify bytes_of s calls))
  unfolding accepted
  accepted-IsSafe s [] = (tt, tt)
  accepted-IsSafe s (c ∷ rest) =
      let s' = (evaluate verify bytes_of s c).1 in
      ground (arith, evaluate-step s c, accepted-IsSafe s' rest)

  -- The identity and the rights of a sender record.
  abbrev pub SameRights : StrictSender → StrictSender → Type 0
  SameRights s s' =
      (s'.used ≡ true)
      × (s'.public_key ≡ s.public_key)
      × (s'.allowed_nodes ≡ s.allowed_nodes)
      × (s'.authority ≡ s.authority)

  evaluate-rights :
      (s : StrictSender) (c : Call) → s.used ≡ true → SameRights s (evaluate verify bytes_of s c).1
  unfolding evaluate_command admit_sender
  evaluate-rights s c u = ground arith

  serve-rights :
      (s : StrictSender) (calls : List Call)
      → s.used ≡ true
      → SameRights s (serve verify bytes_of s calls)
  unfolding serve
  serve-rights s [] u = (u, refl, refl, refl)
  serve-rights s (c ∷ rest) u =
      let s' = (evaluate verify bytes_of s c).1 in
      ground (arith, evaluate-rights s c u, serve-rights s' rest)

  first_contact-record :
      (s : StrictSender) (c : Call)
      → s.used ≡ false
      → IsSigned verify bytes_of c.command
      → c.command.envelope.sequence_number ≡ 1
      → SameRights (fresh_from c.command) (evaluate verify bytes_of s c).1
  unfolding evaluate_command admit_sender
  first_contact-record s c u v q = ground arith

  -- A first contact names its own rights, and keeps them: a signed command with number 1 on a fresh
  -- record enrols its key with the node and the authority that the command itself asks for, on every
  -- verdict, and no later series of calls changes key, nodes or authority.
  pub first_contact_rights :
      (s : StrictSender) (c : Call) (calls : List Call)
      → s.used ≡ false
      → IsSigned verify bytes_of c.command
      → c.command.envelope.sequence_number ≡ 1
      → SameRights
          (fresh_from c.command)
          (serve verify bytes_of (evaluate verify bytes_of s c).1 calls)
  first_contact_rights s c calls u v q =
      let s' = (evaluate verify bytes_of s c).1 in
      let first = first_contact-record s c u v q in
      ground (arith, first, serve-rights s' calls first.0)
