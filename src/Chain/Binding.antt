-- ===== src/Chain/Binding.antt =====
-- gate0_chain.c: what the last hash commits to.
use gate.Base.{
  ◌≡◌, refl, ap, ap₂, sym, ◌∙◌, ◌⊎◌, inl, inr, List, [], ◌∷◌, ◌++◌, Bytes, length, take, drop,
  take-append_of, drop-append_of, replicate, Collision, equal_or_collide, arith,
}
use gate.Chain.{compute_hash, chain_rounds, chain_main}

module _ (sha256 : Bytes → Bytes) (hash_32 : (input : Bytes) → length (sha256 input) ≡ 32) where
  rounds-bind :
      (p q : Bytes) (ds es : List Bytes)
      → length p ≡ 32
      → length q ≡ 32
      → length ds ≡ length es
      → (chain_rounds sha256 p ds).1 ≡ (chain_rounds sha256 q es).1
      → ((ds ≡ es) × (p ≡ q)) ⊎ Collision sha256
  unfolding chain_rounds compute_hash
  rounds-bind p q [] [] a b l h = inl (refl, h)
  rounds-bind p q [] (e ∷ es) a b l h = absurd (omega (arith, l))
  rounds-bind p q (d ∷ ds) [] a b l h = absurd (omega (arith, l))
  rounds-bind p q (d ∷ ds) (e ∷ es) a b l h =
      elim (rounds-bind (sha256 (p ++ d)) (sha256 (q ++ e)) ds es (hash_32 (p ++ d))
        (hash_32 (q ++ e)) (omega arith) h) [
          | inr c ↦ inr c
          | inl (rest, hashes) ↦ elim (equal_or_collide sha256 (p ++ d) (q ++ e) hashes) [
            | inr c ↦ inr c
            | inl same ↦ inl (
              ap₂ (λ x xs. x ∷ xs)
                  (sym (drop-append_of p d a) ∙ ap (drop 32) same ∙ drop-append_of q e b) rest,
              sym (take-append_of p d a) ∙ ap (take 32) same ∙ take-append_of q e b,
            )
          ]
        ]

  -- For a hash of 32 bytes: if two logs of equally many entries end with the same hash, then they have the same
  -- entries in the same order, whatever their lengths, or a collision of SHA-256 is at hand.
  pub chain_main-binds :
      (ds es : List Bytes)
      → length ds ≡ length es
      → (chain_main sha256 ds).1 ≡ (chain_main sha256 es).1
      → (ds ≡ es) ⊎ Collision sha256
  unfolding chain_main
  chain_main-binds ds es l h =
      elim (rounds-bind (replicate 32 0) (replicate 32 0) ds es refl refl l h) [
        | inl both ↦ inl both.0
        | inr c ↦ inr c
      ]
