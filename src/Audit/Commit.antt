-- ===== src/Audit/Commit.antt =====
-- src/audit_log.c: what the last hash commits to.
use mathlib.Core.List.{append_cancel_right}
use gate.Base.{
  Collision, equal_or_collide, ◌≡◌, refl, ap₂, sym, ◌∙◌, ◌⊎◌, inl, inr, List, [], ◌∷◌, ◌++◌, Bytes,
  length, replicate, All, arith,
}
use gate.Audit.{Sha, Event, Disk, zero_hash, fresh_log, event_bytes, event_hash, audit_all}
use gate.Audit.Chain.{opened, chain_hash, audit_all-hash}
use gate.Audit.Layout.{IsEvent, event_bytes-injective}

module _ (sha : Sha) where
  chain_hash-binds :
      (p q : Bytes) (ds es : List Event)
      → All IsEvent ds
      → All IsEvent es
      → length ds ≡ length es
      → chain_hash sha p ds ≡ chain_hash sha q es
      → ((ds ≡ es) × (p ≡ q)) ⊎ Collision sha
  unfolding chain_hash
  chain_hash-binds p q [] [] v w l h = inl (refl, h)
  chain_hash-binds p q [] (e ∷ es) v w l h = absurd (omega (arith, l))
  chain_hash-binds p q (d ∷ ds) [] v w l h = absurd (omega (arith, l))
  chain_hash-binds p q (d ∷ ds) (e ∷ es) v w l h =
      elim (chain_hash-binds (event_hash sha d p) (event_hash sha e q) ds es v.1 w.1 (omega arith)
        h) [
          | inr c ↦ inr c
          | inl (rest, hashes) ↦
              elim (equal_or_collide sha (event_bytes d p ++ replicate 4 0)
                (event_bytes e q ++ replicate 4 0) hashes) [
                  | inr c ↦ inr c
                  | inl bytes ↦
                      let both : (d ≡ e) × (p ≡ q) = event_bytes-injective d e p q v.0 w.0 (
                        append_cancel_right (event_bytes d p) (event_bytes e q) (replicate 4 0)
                          bytes) in
                      inl (ap₂ (λ x xs. x ∷ xs) both.0 rest, both.1)
                ]
        ]

  -- The last hash commits to the history: if two runs from a start opened the file equally often, for
  -- events whose fields fit the record, and end with the same last hash, then they logged the same
  -- events in the same order, or a collision of SHA-256 is at hand.
  pub audit_all-binds :
      (steps others : List (Event × Disk))
      → All IsEvent (opened steps)
      → All IsEvent (opened others)
      → length (opened steps) ≡ length (opened others)
      → (audit_all sha fresh_log steps).last_hash ≡ (audit_all sha fresh_log others).last_hash
      → (opened steps ≡ opened others) ⊎ Collision sha
  unfolding fresh_log
  audit_all-binds steps others v w l h =
      elim (chain_hash-binds zero_hash zero_hash (opened steps) (opened others) v w l (
        sym (audit_all-hash sha fresh_log steps refl)
        ∙ (h ∙ audit_all-hash sha fresh_log others refl))) [ inl both ↦ inl both.0 | inr c ↦ inr c ]
