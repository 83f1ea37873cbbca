-- ===== src/Legacy/Series.antt =====
-- evidence/g0_integration_pass/core.c over a series of calls.
use gate.Base.{
  ℕ, ◌≤◌, ◌<◌, ◌≡◌, ◌≢◌, ◌⊎◌, refl, subst, sym, true, false, List, [], ◌∷◌, Bytes, inl, inr,
  Increasing, arith,
}
use gate.Command.{GateResult, ok, SenderRecord, Verify}
use gate.Legacy.{OldCall, any_tripped, envelope_bytes, enrol, evaluate_command, evaluate, accepted}

abbrev pub sequences : List OldCall → List ℕ
sequences [] = []
sequences (c ∷ calls) = c.command.envelope.sequence ∷ sequences calls

-- What each accepted command is: without an interlock, in time, and signed by this key.
abbrev pub Vouched : Verify → Bytes → List OldCall → Type 0
Vouched verify key [] = Unit {0}
Vouched verify key (c ∷ calls) =
    ((any_tripped c.interlocks ≡ false)
      × (c.command.envelope.issued_at_ns ≤ c.now)
      × (c.now ≤ c.command.envelope.expires_at_ns)
      × (verify c.command.signature (envelope_bytes c.command.envelope) key ≡ true))
    × Vouched verify key calls

module _ (verify : Verify) where
  -- One call from a record in use: the key stays, and the count moves only to an accepted command's.
  record Keeps (s : SenderRecord) (c : OldCall) (r : GateResult × SenderRecord) : Type 0 where
    pub key : r.1.public_key ≡ s.public_key
    pub used : r.1.used ≡ true

  evaluate-Keeps :
      (s : SenderRecord) (c : OldCall) → s.used ≡ true → Keeps s c (evaluate verify s c)
  unfolding evaluate_command enrol
  evaluate-Keeps s c u = record { key = ground arith; used = ground arith }

  evaluate-step :
      (s : SenderRecord) (c : OldCall)
      → s.used ≡ true
      → let r = evaluate verify s c in
        ((r.0 ≡ ok)
          × (s.last_sequence < c.command.envelope.sequence)
          × (r.1.last_sequence ≡ c.command.envelope.sequence)
          × ((any_tripped c.interlocks ≡ false)
              × (c.command.envelope.issued_at_ns ≤ c.now)
              × (c.now ≤ c.command.envelope.expires_at_ns)
              × (verify c.command.signature (envelope_bytes c.command.envelope) s.public_key
                  ≡ true)))
        ⊎ ((r.0 ≢ ok) × (r.1.last_sequence ≡ s.last_sequence))
  unfolding evaluate_command enrol
  evaluate-step s c u = ground arith

  accepted-ok :
      (s : SenderRecord) (c : OldCall) (calls : List OldCall)
      → (evaluate verify s c).0 ≡ ok
      → let rest = accepted verify (evaluate verify s c).1 calls in
        accepted verify s (c ∷ calls) ≡ (c ∷ rest.0, rest.1)
  unfolding accepted
  accepted-ok s c calls h = ground (arith, h)

  accepted-refused :
      (s : SenderRecord) (c : OldCall) (calls : List OldCall)
      → (evaluate verify s c).0 ≢ ok
      → accepted verify s (c ∷ calls) ≡ accepted verify (evaluate verify s c).1 calls
  unfolding accepted
  accepted-refused s c calls h = ground (arith, h)

  -- Growing numbers from `last`, all signed by this key, which is still the one enrolled.
  abbrev pub IsGood : ℕ → Bytes → List OldCall × SenderRecord → Type 0
  IsGood last key (taken, s) =
      Increasing last (sequences taken) × Vouched verify key taken × (s.public_key ≡ key)

  -- Once a key is enrolled it stays, and over any series of calls the accepted commands have growing sequence
  -- numbers, though numbers may be skipped, and each came without an interlock, in its window, and
  -- signed by that key.
  pub old_accepted-IsGood :
      (s : SenderRecord) (calls : List OldCall)
      → s.used ≡ true
      → IsGood s.last_sequence s.public_key (accepted verify s calls)
  unfolding accepted
  old_accepted-IsGood s [] u = (tt, tt, refl)
  old_accepted-IsGood s (c ∷ calls) u =
      let k = evaluate-Keeps s c u in
      let after = (evaluate verify s c).1 in
      let rest = accepted verify after calls in
      let ih =
        subst (λ key. IsGood after.last_sequence key rest) k.key
          (old_accepted-IsGood after calls k.used) in
      elim (evaluate-step s c u) [
        | inl (good, grows, moved, vouched) ↦
            let later = subst (λ n. IsGood n s.public_key rest) moved ih in
            subst (IsGood s.last_sequence s.public_key) (sym (accepted-ok s c calls good))
              ((grows, later.0), (vouched, later.1), later.2)
        | inr (bad, kept) ↦
            subst (IsGood s.last_sequence s.public_key) (sym (accepted-refused s c calls bad))
              (subst (λ n. IsGood n s.public_key rest) kept ih)
      ]
