-- ===== src/Multi/Slots.antt =====
-- src/core_multiclient.c: how the slots of the sender table are used up.
use gate.Base.{
  ℕ, zero, suc, ◌+◌, ◌≤◌, ◌<◌, ◌≡◌, ◌≢◌, refl, ap, inl, inr, true, false, List, [], ◌∷◌, none, some,
  get_or, get_or-set_self, set, length, if◌then◌else◌, Option-cases, arith,
}
use gate.Command.{ok, SenderRecord, tripped, Verify}
use gate.Multi.{
  KeyedCommand, Call, find_sender, find_free, blank, enrolled, match_sender, admit,
  evaluate_command_multiclient, evaluate, serve,
}
use gate.Multi.Lookup.{find_free-some}

-- The records that no sender has yet.
unfoldable pub free_count : List SenderRecord → ℕ
free_count [] = 0
free_count (s ∷ rest) = (if s.used then 0 else 1) + free_count rest

free_count-set_free :
    (senders : List SenderRecord) (i : ℕ) (r : SenderRecord)
    → find_free senders ≡ some i
    → r.used ≡ true
    → free_count (set senders i r) + 1 ≡ free_count senders
unfolding free_count find_free
free_count-set_free [] i r f u = cc
free_count-set_free (s ∷ rest) zero r f u = ground arith
free_count-set_free (s ∷ rest) (suc i) r f u = ground (arith, free_count-set_free rest i r)

free_count-set_used :
    (senders : List SenderRecord) (i : ℕ) (r : SenderRecord)
    → (get_or senders i blank).used ≡ true
    → r.used ≡ true
    → free_count (set senders i r) ≡ free_count senders
unfolding free_count
free_count-set_used [] i r g u = refl
free_count-set_used (s ∷ rest) zero r g u = ground arith
free_count-set_used (s ∷ rest) (suc i) r g u = ground (arith, free_count-set_used rest i r g u)

find_free-none : (senders : List SenderRecord) → free_count senders ≡ 0 → find_free senders ≡ none
unfolding free_count find_free
find_free-none [] h = refl
find_free-none (s ∷ rest) h = ground (arith, find_free-none rest)

free_count-none : (senders : List SenderRecord) → find_free senders ≡ none → free_count senders ≡ 0
unfolding free_count find_free
free_count-none [] h = refl
free_count-none (s ∷ rest) h = ground (arith, free_count-none rest)

module _ (verify : Verify) where
  free_count-admit :
      (cmd : KeyedCommand) (senders : List SenderRecord) (i now : ℕ)
      → (get_or senders i blank).used ≡ true
      → free_count (admit verify cmd senders i now).1 ≡ free_count senders
  unfolding admit
  free_count-admit cmd senders i now g =
      let s = get_or senders i blank in
      ground (
        arith,
        free_count-set_used senders i (record s { last_sequence = cmd.envelope.sequence }) g,
      )

  -- A command from an unknown key takes a slot for good, whatever the verdict on it: the signature need
  -- not be valid.
  unknown_takes_slot :
      (senders : List SenderRecord) (c : Call)
      → tripped c.interlocks ≡ false
      → find_sender c.request.sender_pubkey senders ≡ none
      → 0 < free_count senders
      → free_count (evaluate verify senders c).1 + 1 ≡ free_count senders
  unfolding evaluate_command_multiclient match_sender
  unknown_takes_slot senders c t f pos = elim (Option-cases (find_free senders)) [
    | inl g ↦ absurd (omega (arith, free_count-none senders g))
    | inr (i, g) ↦
        let key = c.request.sender_pubkey in
        let written = get_or-set_self senders i (enrolled key) blank (find_free-some senders i g) in
        rw (t, f, g)
          (omega (
            arith,
            free_count-admit c.request (set senders i (enrolled key)) i c.now
                (ap (λ r. r.used) written),
            free_count-set_free senders i (enrolled key) g refl,
          ))
  ]

  full_rejects :
      (senders : List SenderRecord) (c : Call)
      → find_free senders ≡ none
      → find_sender c.request.sender_pubkey senders ≡ none
      → ((evaluate verify senders c).0 ≢ ok) × ((evaluate verify senders c).1 ≡ senders)
  unfolding evaluate_command_multiclient match_sender
  full_rejects senders c g f = ground (arith, g, f)

  -- Each call, when it comes, is not stopped by an interlock and names a key that is not in the table.
  abbrev pub AllUnknown : List SenderRecord → List Call → Type 0
  AllUnknown senders [] = Unit {0}
  AllUnknown senders (c ∷ rest) =
      (tripped c.interlocks ≡ false)
      × (find_sender c.request.sender_pubkey senders ≡ none)
      × AllUnknown (evaluate verify senders c).1 rest

  serve_takes_slots :
      (senders : List SenderRecord) (calls : List Call)
      → AllUnknown senders calls
      → length calls ≤ free_count senders
      → free_count (serve verify senders calls) + length calls ≡ free_count senders
  unfolding serve
  serve_takes_slots senders [] u h = omega arith
  serve_takes_slots senders (c ∷ rest) u h =
      let first = unknown_takes_slot senders c u.0 u.1 (omega arith) in
      omega (arith, first, serve_takes_slots (evaluate verify senders c).1 rest u.2 (omega arith))

  -- As many calls from unknown keys as there are free records, none of them stopped by an
  -- interlock, with signatures valid or not, fill the table: after them no command of a sender
  -- outside it is accepted, and none changes the table.
  pub flood_locks_out :
      (senders : List SenderRecord) (calls : List Call) (c : Call)
      → AllUnknown senders calls
      → length calls ≡ free_count senders
      → find_sender c.request.sender_pubkey (serve verify senders calls) ≡ none
      → let full = serve verify senders calls in
        ((evaluate verify full c).0 ≢ ok) × ((evaluate verify full c).1 ≡ full)
  flood_locks_out senders calls c u h f =
      let full = serve verify senders calls in
      let filled = serve_takes_slots senders calls u (omega arith) in
      full_rejects full c (find_free-none full (omega arith)) f
