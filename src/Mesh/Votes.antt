-- ===== src/Mesh/Votes.antt =====
-- src/mesh.c: what the check of a vote looks at.
use gate.Base.{ℕ, ◌≡◌, ◌↔◌, refl, true, Bytes, bytes_eq→eq, bytes_eq_refl, arith}
use gate.Command.{Verify}
use gate.Mesh.{ConsensusVote, mesh_verify_vote}

module _ (verify : Verify) (vote : ConsensusVote) (public_key proposal_hash : Bytes) where
  -- A vote passes exactly when it is on this proposal's hash and signed by this key.
  pub mesh_verify_vote_iff : (mesh_verify_vote verify vote public_key proposal_hash ≡ true) ↔ (
      (vote.proposal_hash ≡ proposal_hash)
      × (verify vote.signature proposal_hash public_key ≡ true))
  unfolding mesh_verify_vote
  mesh_verify_vote_iff = (
    λ h. ground (arith, bytes_eq→eq vote.proposal_hash proposal_hash),
    λ h. ground (arith, bytes_eq_refl proposal_hash),
  )

  -- The signature does not bind the decision: with any other voter and decision in it the vote passes, or
  -- fails, as before.
  pub mesh_verify_vote_undecided :
      (voter decision : ℕ)
      → mesh_verify_vote verify
          (record vote { voter_node_id = voter; decision = decision })
          public_key
          proposal_hash
        ≡ mesh_verify_vote verify vote public_key proposal_hash
  unfolding mesh_verify_vote
  mesh_verify_vote_undecided voter decision = refl
