-- ===== src/Client/Runs.antt =====
-- src/gate0_client.c with the gate of src/gate0_core.c: what becomes of the runs of the client.
use gate.Base.{
  ℕ, ◌≤◌, ◌≡◌, ◌≢◌, ◌∙◌, refl, true, false, Bool-cases, Option-cases, All, map, ap, List, inl, inr,
  [], ◌∷◌, Bytes, bytes_eq, bytes_eq→eq, arith,
}
use gate.Command.{SafetyInterlocks, tripped, Verify}
use gate.Sockets.{open_fds, remove_fd_head}
use gate.Strict.{
  StrictResult, ok, unknown_sender, Call, evaluate, accepted, StrictEnvelope, StrictCommand,
  StrictSender, is_blocked_command, check, admit_sender, evaluate_command,
}
use gate.Strict.Accept.{fresh_from}
use gate.Client.{Calls, client_envelope, client_command, client_main}

module _ (verify : Verify) (bytes_of : StrictEnvelope → Bytes) (sign : Bytes → Bytes → Bytes)
    (auth_operator : ℕ) where
  -- The record of a sender that this key's command number 1 has made.
  abbrev pub enrolled : Bytes → Bytes → StrictSender
  enrolled pk sk = record (fresh_from (client_command bytes_of sign auth_operator pk sk)) {
    current_sequence = 1;
  }

  first_run :
      (pk sk : Bytes) (s : StrictSender) (il : SafetyInterlocks) (now : ℕ)
      → ((m : Bytes) → verify (sign m sk) m pk ≡ true)
      → s.used ≡ false
      → tripped il ≡ false
      → 1749999500000000 ≤ now
      → now ≤ 1750000001000000
      → evaluate_command verify bytes_of (client_command bytes_of sign auth_operator pk sk) s il now
        ≡ (ok, enrolled pk sk)
  unfolding evaluate_command admit_sender check is_blocked_command
  first_run pk sk s il now signs fresh clear early late = rw (signs, fresh) (ground (arith, clear))

  -- The gate takes a later command of another key for one of an unknown sender.
  other_key-refused :
      (pk sk pk' sk' : Bytes) (il : SafetyInterlocks) (now : ℕ)
      → verify
          (sign (bytes_of (client_envelope bytes_of sign auth_operator)) sk')
          (bytes_of (client_envelope bytes_of sign auth_operator))
          pk'
        ≡ true
      → pk ≢ pk'
      → evaluate_command verify bytes_of
          (client_command bytes_of sign auth_operator pk' sk')
          (enrolled pk sk)
          il
          now
        ≡ (unknown_sender, enrolled pk sk)
  unfolding evaluate_command admit_sender
  other_key-refused pk sk pk' sk' il now signs other = elim (Bool-cases (bytes_eq pk pk')) [
    | inl same ↦ absurd (other (bytes_eq→eq pk pk' same))
    | inr differs ↦ rw (signs, differs) refl
  ]

-- A run of the client: the key pair that it makes, and the gate's interlocks and clock when the command
-- arrives.
pub record ClientRun : Type 0 where
  pub pk : Bytes
  pub sk : Bytes
  pub interlocks : SafetyInterlocks
  pub now : ℕ

module _ (verify : Verify) (bytes_of : StrictEnvelope → Bytes) (sign : Bytes → Bytes → Bytes)
    (auth_operator : ℕ) where
  abbrev pub call_of : ClientRun → Call
  call_of r = record {
    command = client_command bytes_of sign auth_operator r.pk r.sk;
    interlocks = r.interlocks;
    now = r.now;
  }

  -- The key pair works: what is signed with it verifies.
  abbrev pub Signs : ClientRun → Type 0
  Signs r = (m : Bytes) → verify (sign m r.sk) m r.pk ≡ true

  -- What a call with this result adds to the accepted ones.
  abbrev collected : StrictResult → Call → List Call → List Call
  collected r c others = elim r [ ok ↦ c ∷ others | _ ↦ others ]

  accepted-call :
      (s s' : StrictSender) (r : StrictResult) (c : Call) (calls : List Call)
      → evaluate verify bytes_of s c ≡ (r, s')
      → accepted verify bytes_of s (c ∷ calls) ≡ collected r c (accepted verify bytes_of s' calls)
  unfolding accepted
  accepted-call s s' r c calls h = ap (λ p. collected p.0 c (accepted verify bytes_of p.1 calls)) h

  later_runs :
      (r : ClientRun) (rest : List ClientRun)
      → All (λ q. Signs q × (r.pk ≢ q.pk)) rest
      → accepted verify bytes_of
          (enrolled verify bytes_of sign auth_operator r.pk r.sk)
          (map call_of rest)
        ≡ []
  unfolding accepted
  later_runs r [] h = refl
  later_runs r (q ∷ rest) h =
      let known = enrolled verify bytes_of sign auth_operator r.pk r.sk in
      let message = bytes_of (client_envelope bytes_of sign auth_operator) in
      accepted-call known known unknown_sender (call_of q) (map call_of rest) (
        other_key-refused verify bytes_of sign auth_operator r.pk r.sk q.pk q.sk q.interlocks q.now
          (h.0.0 message) h.0.1)
      ∙ later_runs r rest h.1

  -- From a sender record that is not in use, with no interlock set and the clock at most half a second before the
  -- command's window and not behind it: of all runs of the client, each with a key pair of its own, the
  -- gate accepts the first and no other, whenever they come and whatever the interlocks are then.
  pub client_runs-once :
      (s : StrictSender) (r : ClientRun) (rest : List ClientRun)
      → Signs r
      → s.used ≡ false
      → tripped r.interlocks ≡ false
      → 1749999500000000 ≤ r.now
      → r.now ≤ 1750000001000000
      → All (λ q. Signs q × (r.pk ≢ q.pk)) rest
      → accepted verify bytes_of s (map call_of (r ∷ rest)) ≡ call_of r ∷ []
  client_runs-once s r rest signs fresh clear early late others =
      accepted-call s (enrolled verify bytes_of sign auth_operator r.pk r.sk) ok (call_of r)
        (map call_of rest)
        (first_run verify bytes_of sign auth_operator r.pk r.sk s r.interlocks r.now signs fresh
          clear early late)
      ∙ ap (λ l. call_of r ∷ l) (later_runs r rest others)

-- However its calls end, the client closes its socket.
pub client_main-closes :
    (bytes_of : StrictEnvelope → Bytes) (sign : Bytes → Bytes → Bytes) (auth_operator : ℕ)
    (command_bytes : StrictCommand → Bytes) (pk sk : Bytes) (o : Calls)
    → open_fds [] (client_main bytes_of sign auth_operator command_bytes pk sk o).effects ≡ []
unfolding client_main
client_main-closes bytes_of sign auth_operator command_bytes pk sk o =
    elim (Option-cases o.descriptor) [
      | inl e ↦ rw e refl
      | inr (fd, e) ↦ elim (Bool-cases o.connects) [
        | inr no_daemon ↦ rw (e, no_daemon) (remove_fd_head fd [])
        | inl there ↦ elim (Option-cases o.reply) [
          | inl silent ↦ rw (e, there, silent) (remove_fd_head fd [])
          | inr (bytes, answers) ↦ rw (e, there, answers) (remove_fd_head fd [])
        ]
      ]
    ]
