-- ===== src/Multi/Isolation.antt =====
-- src/core_multiclient.c refines a map from keys to last sequence numbers, and what follows for a
-- series of calls.
use gate.Base.{
  ℕ, ◌≡◌, ◌≢◌, refl, ap, sym, subst, ◌⊎◌, inl, inr, Bool, true, false, ◌||◌, List, Option, none,
  some, Bytes, ltb, leb, bytes_eq, bytes_eq→eq, get_or, set, set-set, get_or-set_self,
  if◌then◌else◌, Option-cases, arith,
}
use gate.Command.{
  GateResult, ok, signature_invalid, expired, sequence_invalid, sender_not_found, SafetyInterlocks,
  SenderRecord, tripped, Verify, encode_envelope,
}
use gate.Multi.{
  KeyedCommand, find_sender, find_free, blank, enrolled, match_sender, admit,
  evaluate_command_multiclient,
}
use gate.Multi.Lookup.{
  last_of, find_sender-some, find_sender-none, last_of-set_found, last_of-set_free, find_free-some,
}

abbrev pub is_some {ℓ} : {A : Type ℓ} → Option A → Bool
is_some none = false
is_some (some a) = true

module _ (verify : Verify) (cmd : KeyedCommand) (now : ℕ) where
  -- The verdict on a command whose sender was last at `n`, by its claimed key alone.
  abbrev pub judge : ℕ → GateResult
  judge n =
      if leb cmd.envelope.sequence n
      then sequence_invalid
      else if ltb now cmd.envelope.issued_at_ns || ltb cmd.envelope.expires_at_ns now
      then expired
      else if verify cmd.signature (encode_envelope cmd.envelope) cmd.sender_pubkey
      then ok
      else signature_invalid

  -- The abstract table: an unknown key starts at 0 where there is room, and an accepted command moves
  -- its own key to its number.
  abbrev pub verdict : Option ℕ → Bool → GateResult
  verdict (some n) room = judge n
  verdict none true = judge 0
  verdict none false = sender_not_found

  abbrev pub entry_after : GateResult → Option ℕ → Bool → Option ℕ
  entry_after ok known room = some cmd.envelope.sequence
  entry_after _ (some n) room = some n
  entry_after _ none true = some 0
  entry_after _ none false = none

module _ (verify : Verify) where
  admit_refines :
      (cmd : KeyedCommand) (senders : List SenderRecord) (i n now : ℕ)
      → (get_or senders i blank).public_key ≡ cmd.sender_pubkey
      → (get_or senders i blank).last_sequence ≡ n
      → let (result, senders') = admit verify cmd senders i now in
        (result ≡ judge verify cmd now n)
        × (((result ≡ ok)
              × (senders'
                  ≡ set senders i
                      (record (get_or senders i blank) { last_sequence = cmd.envelope.sequence })))
            ⊎ ((result ≢ ok) × (senders' ≡ senders)))
  unfolding admit
  admit_refines cmd senders i n now e l = ground arith

  -- The refinement, of one call that no interlock stops.
  abbrev pub Refines :
      KeyedCommand → ℕ → List SenderRecord → GateResult × List SenderRecord → Type 0
  Refines cmd now senders (result, senders') =
      let known = last_of cmd.sender_pubkey senders in
      let room = is_some (find_free senders) in
      (result ≡ verdict verify cmd now known room)
      × ((k : Bytes)
          → last_of k senders' ≡ (
              if bytes_eq cmd.sender_pubkey k
              then entry_after verify cmd now result known room
              else last_of k senders))

  found-Refines :
      (cmd : KeyedCommand) (senders : List SenderRecord) (i now : ℕ)
      → find_sender cmd.sender_pubkey senders ≡ some i
      → Refines cmd now senders (admit verify cmd senders i now)
  found-Refines cmd senders i now f =
      let s = get_or senders i blank in
      let found = find_sender-some cmd.sender_pubkey senders i f in
      let adm = admit_refines cmd senders i s.last_sequence now found.key_same refl in
      (
        ground (arith, found, adm),
        λ k. ground (
          arith,
          found,
          adm,
          bytes_eq→eq cmd.sender_pubkey k,
          last_of-set_found cmd.sender_pubkey k senders i cmd.envelope.sequence f,
        ),
      )

  free-Refines :
      (cmd : KeyedCommand) (senders : List SenderRecord) (i now : ℕ)
      → find_sender cmd.sender_pubkey senders ≡ none
      → find_free senders ≡ some i
      → Refines cmd now senders
          (admit verify cmd (set senders i (enrolled cmd.sender_pubkey)) i now)
  free-Refines cmd senders i now f g =
      let key = cmd.sender_pubkey in
      let written = get_or-set_self senders i (enrolled key) blank (find_free-some senders i g) in
      let unknown = find_sender-none key senders f in
      let adm =
        admit_refines cmd (set senders i (enrolled key)) i 0 now (ap (λ r. r.public_key) written)
          (ap (λ r. r.last_sequence) written) in
      (
        ground (arith, unknown, adm),
        λ k. ground (
          arith,
          unknown,
          adm,
          written,
          set-set senders i (enrolled key)
              (record (enrolled key) { last_sequence = cmd.envelope.sequence }),
          last_of-set_free key k senders i cmd.envelope.sequence f g,
          last_of-set_free key k senders i 0 f g,
        ),
      )

  -- One call, with no interlock set, does to the table what the abstract map says: the verdict depends
  -- on the sender's own entry and on whether there is room, an accepted command moves that entry to
  -- its number, an unknown sender is enrolled at 0 even if its command is rejected, and every
  -- other sender keeps its entry.
  pub multiclient-Refines :
      (senders : List SenderRecord) (cmd : KeyedCommand) (il : SafetyInterlocks) (now : ℕ)
      → tripped il ≡ false
      → Refines cmd now senders (evaluate_command_multiclient verify senders cmd il now)
  unfolding evaluate_command_multiclient match_sender
  multiclient-Refines senders cmd il now c =
      let key = cmd.sender_pubkey in
      elim (Option-cases (find_sender key senders)) [
        | inr (i, f) ↦ rw (c, f) (found-Refines cmd senders i now f)
        | inl f ↦ elim (Option-cases (find_free senders)) [
          | inr (i, g) ↦
              let called : evaluate_command_multiclient verify senders cmd il now
                  ≡ admit verify cmd (set senders i (enrolled key)) i now =
                rw (c, f, g) in
              subst (Refines cmd now senders) (sym called) (free-Refines cmd senders i now f g)
          | inl g ↦
              rw (c, f, g)
                (
                  ground (arith, find_sender-none key senders f),
                  λ k. ground (arith, find_sender-none key senders f, bytes_eq→eq key k),
                )
        ]
      ]
