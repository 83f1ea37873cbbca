-- ===== src/Core/Enrolment.antt =====
-- src/core.c: the key that a sender record holds, once and for all.
use gate.Base.{◌≡◌, refl, subst, ◌∙◌, true, false, List, [], ◌∷◌, arith}
use gate.Command.{ok, SenderRecord, Verify, tripped, encode_envelope}
use gate.Core.{
  Arrival, bootstrap_magic, payload_word, payload_key, evaluate_command, evaluate, serve,
}

module _ (verify : Verify) where
  evaluate-key :
      (s : SenderRecord) (a : Arrival)
      → s.used ≡ true
      → let s' = (evaluate verify s a).1 in (s'.used ≡ true) × (s'.public_key ≡ s.public_key)
  unfolding evaluate_command
  evaluate-key s a u = ground arith

  -- No series of calls replaces the key of an enrolled sender.
  pub serve-key :
      (s : SenderRecord) (calls : List Arrival)
      → s.used ≡ true
      → let s' = serve verify s calls in (s'.used ≡ true) × (s'.public_key ≡ s.public_key)
  unfolding serve
  serve-key s [] u = (u, refl)
  serve-key s (a ∷ calls) u =
      let s' = (evaluate verify s a).1 in ground (arith, evaluate-key s a u, serve-key s' calls)

  -- With no interlock set, a first command with the bootstrap word enrols the key in its payload on
  -- every verdict, a bad signature and a wrong sequence number included.
  first_contact-key :
      (s : SenderRecord) (a : Arrival)
      → tripped a.interlocks ≡ false
      → s.used ≡ false
      → payload_word a.command ≡ bootstrap_magic
      → let s' = (evaluate verify s a).1 in
        (s'.used ≡ true) × (s'.public_key ≡ payload_key a.command)
  unfolding evaluate_command
  first_contact-key s a c u m = ground arith

  accepted-signed :
      (s : SenderRecord) (a : Arrival)
      → s.used ≡ true
      → (evaluate verify s a).0 ≡ ok
      → verify a.command.signature (encode_envelope a.command.envelope) s.public_key ≡ true
  unfolding evaluate_command
  accepted-signed s a u h = ground arith

  -- Whoever reaches a fresh record first with the bootstrap word and no interlock set, signed or
  -- not, decides for good which key commands are checked against: every command accepted later
  -- verifies under the key planted by that first one.
  pub first_contact_owns :
      (s : SenderRecord) (a b : Arrival) (calls : List Arrival)
      → tripped a.interlocks ≡ false
      → s.used ≡ false
      → payload_word a.command ≡ bootstrap_magic
      → (evaluate verify (serve verify (evaluate verify s a).1 calls) b).0 ≡ ok
      → verify b.command.signature (encode_envelope b.command.envelope) (payload_key a.command)
        ≡ true
  first_contact_owns s a b calls c u m h =
      let s' = (evaluate verify s a).1 in
      let (planted, key) = first_contact-key s a c u m in
      let (used, same) = serve-key s' calls planted in
      subst (λ k. verify b.command.signature (encode_envelope b.command.envelope) k ≡ true)
        (same ∙ key) (accepted-signed (serve verify s' calls) b used h)
