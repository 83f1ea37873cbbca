-- ===== src/Wal/Verify.antt =====
-- src/wal.c: what `wal_verify_integrity` does and does not notice.
use mathlib.Core.List.{append_cancel_left}
use gate.Base.{
  Collision, equal_or_collide, if◌then◌else◌, ltb, ℕ, zero, suc, ◌+◌, ◌≤◌, ◌<◌, ◌≡◌, refl, sym, ◌∙◌,
  ◌⊎◌, inl, inr, true, List, [], ◌∷◌, ◌++◌, Bytes, bytes_eq→eq, take, length, replicate, le_bytes,
  arith,
}
use gate.Wal.{
  Sha, WalRecord, Wal, Entry, wal_capacity, zero_sha, zero_record, wal_init, hashed_part, filled,
  write_entry, wal_append, append_all, verify_from, wal_verify_integrity,
}

module _ (sha : Sha) (agent code result : ℕ → ℕ) where
  -- The records with other agents, action codes and results in place of theirs.
  abbrev pub retagged : (ℕ → WalRecord) → ℕ → WalRecord
  retagged slot i = record (slot i) { agent_id = agent i; action_code = code i; result = result i }

  verify_from-retagged :
      (n i : ℕ) (expected_prev : Bytes) (slot : ℕ → WalRecord)
      → verify_from sha n i expected_prev (retagged slot) ≡ verify_from sha n i expected_prev slot
  unfolding verify_from hashed_part
  verify_from-retagged zero i expected_prev slot = refl
  verify_from-retagged (suc n) i expected_prev slot =
      rw (verify_from-retagged n (i + 1) (slot i).entry_hash slot)

  -- Tampering goes unnoticed where it matters: with any agents, action codes and results written into
  -- the records of a log, the verdict of the integrity check is the same.
  pub wal_verify-retagged :
      (w : Wal)
      → wal_verify_integrity sha (record w { slot = retagged w.slot }) ≡ wal_verify_integrity sha w
  unfolding wal_verify_integrity
  wal_verify-retagged w =
      let rest : _ =
        verify_from-retagged (if ltb w.head wal_capacity then w.head else wal_capacity) 0 zero_sha
          w.slot in
      ground (arith, rest)

prefix-cancel : (p q r a b : Bytes) → p ++ (q ++ (r ++ a)) ≡ p ++ (q ++ (r ++ b)) → a ≡ b
prefix-cancel p q r a b e = append_cancel_left r a b (
    append_cancel_left q (r ++ a) (r ++ b) (append_cancel_left p (q ++ (r ++ a)) (q ++ (r ++ b)) e))

module _ (sha : Sha) where
  -- Later appends leave the first record alone until the buffer wraps.
  append_all-first :
      (w : Wal) (es : List Entry)
      → w.initialized ≡ true
      → 0 < w.head
      → w.head + length es ≤ wal_capacity
      → ((append_all sha w es).slot 0 ≡ w.slot 0)
        × ((append_all sha w es).head ≡ w.head + length es)
  unfolding append_all
  append_all-first w [] i pos le = ground arith
  append_all-first w (e ∷ es) i pos le =
      let w' : Wal = write_entry sha w e in
      let head' : w'.head ≡ w.head + 1 = unfold write_entry in omega arith in
      let init' : w'.initialized ≡ true = unfold write_entry in i in
      let kept : w'.slot 0 ≡ w.slot 0 = unfold write_entry in ground arith in
      let ih : _ = append_all-first w' es init' (omega (arith, head')) (omega (arith, head')) in
      let next : wal_append sha w e ≡ w' = unfold wal_append in rw i refl in
      rw (next, append_all) (ih.0 ∙ kept, omega (arith, ih.1, head'))

  verify_from-first :
      (n : ℕ) (prev : Bytes) (slot : ℕ → WalRecord)
      → 0 < n
      → verify_from sha n 0 prev slot ≡ true
      → (slot 0).entry_hash ≡ sha (hashed_part (slot 0))
  unfolding verify_from
  verify_from-first zero prev slot pos ok = ground arith
  verify_from-first (suc n) prev slot pos ok =
      ground (arith, bytes_eq→eq (slot 0).entry_hash (sha (hashed_part (slot 0))))

  -- A log that verifies has a first record whose hash is that of the same fields over its own bytes.
  verified-first :
      (w : Wal)
      → 0 < w.head
      → wal_verify_integrity sha w ≡ true
      → (w.slot 0).entry_hash ≡ sha (hashed_part (w.slot 0))
  unfolding wal_verify_integrity
  verified-first w pos ok = ground (
    arith,
    verify_from-first w.head zero_sha w.slot,
    verify_from-first wal_capacity zero_sha w.slot,
  )

  -- A hash taken over zeros and equal to the hash over itself.
  self_hash :
      (r : WalRecord)
      → r.entry_hash ≡ sha (hashed_part (record r { entry_hash = zero_sha }))
      → r.entry_hash ≡ sha (hashed_part r)
      → (take 16 r.entry_hash ≡ replicate 16 0) ⊎ Collision sha
  unfolding hashed_part zero_sha
  self_hash r written checked =
      let fresh : WalRecord = record r { entry_hash = zero_sha } in
      elim (equal_or_collide sha (hashed_part r) (hashed_part fresh) (sym checked ∙ written)) [
        | inl same ↦ inl (
            prefix-cancel (le_bytes 8 r.sequence) (le_bytes 8 r.timestamp_ns) r.prev_hash
              (take 16 r.entry_hash) (replicate 16 0) same)
        | inr c ↦ inr c
      ]

  -- If a log that the code wrote, of one or more entries and not yet wrapped, passes
  -- `wal_verify_integrity`, then its first entry hash begins with 16 zero bytes, or a collision of
  -- SHA-256 is at hand.
  pub wal_verify-needs_zeros :
      (e : Entry) (es : List Entry)
      → length es < wal_capacity
      → let w = append_all sha wal_init (e ∷ es) in
        wal_verify_integrity sha w ≡ true
        → (take 16 (w.slot 0).entry_hash ≡ replicate 16 0) ⊎ Collision sha
  unfolding append_all
  wal_verify-needs_zeros e es lt ok =
      let w : Wal = wal_append sha wal_init e in
      let head1 : w.head ≡ 1 = unfold wal_append write_entry wal_init in refl in
      let init1 : w.initialized ≡ true = unfold wal_append write_entry wal_init in refl in
      let written : (w.slot 0).entry_hash
          ≡ sha (hashed_part (record (w.slot 0) { entry_hash = zero_sha })) =
        unfold wal_append write_entry wal_init filled zero_record in refl in
      let first : _ = append_all-first w es init1 (omega (arith, head1)) (omega (arith, head1)) in
      let checked : _ = verified-first (append_all sha w es) (omega (arith, first.1, head1)) ok in
      self_hash ((append_all sha w es).slot 0) (rw first.0 written) checked
