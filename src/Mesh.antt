-- ===== src/Mesh.antt =====
-- src/mesh.c and src/mesh.h: proposals and votes. Signing and verification are parameters. A proposal in
-- memory is its fields' bytes in order, 116 of them, padded to 120; what the padding holds is an argument.
pub mod Votes
use gate.Base.{
  ℕ, Bool, true, false, List, [], ◌∷◌, ◌++◌, Bytes, bytes_eq, replicate, if◌then◌else◌, le_bytes,
}
use gate.Command.{Verify}

abbrev pub mesh_max_peers : ℕ
mesh_max_peers = 4

pub record ConsensusProposal : Type 0 where
  pub sequence : ℕ
  pub command_hash : Bytes
  pub merkle_root_before : Bytes
  pub merkle_root_after : Bytes
  pub timestamp : ℕ
  pub sender_node_id : ℕ

pub record ConsensusVote : Type 0 where
  pub voter_node_id : ℕ
  pub proposal_hash : Bytes
  pub signature : Bytes
  pub decision : ℕ

pub record PeerNode : Type 0 where
  pub node_id : ℕ
  pub public_key : Bytes
  pub active : ℕ

pub record MeshCluster : Type 0 where
  pub peers : List PeerNode
  pub peer_count : ℕ
  pub threshold : ℕ

-- `local_id` is not used.
unfoldable pub mesh_init_cluster : ℕ → ℕ → MeshCluster
mesh_init_cluster local_id threshold = record {
  peers =
      replicate mesh_max_peers (record { node_id = 0; public_key = replicate 32 0; active = 0 });
  peer_count = 0;
  threshold = threshold;
}

unfoldable pub proposal_bytes : ConsensusProposal → Bytes → Bytes
proposal_bytes p padding =
    le_bytes 8 p.sequence
    ++ (p.command_hash
        ++ (p.merkle_root_before
            ++ (p.merkle_root_after
                ++ (le_bytes 8 p.timestamp ++ (le_bytes 4 p.sender_node_id ++ padding)))))

-- `sign` takes the message and the secret key.
unfoldable pub mesh_sign_proposal :
    (Bytes → Bytes → Bytes) → ConsensusProposal → Bytes → Bytes → Bytes
mesh_sign_proposal sign proposal padding secret_key =
    sign (proposal_bytes proposal padding) secret_key

-- True for the result 0.
unfoldable pub mesh_verify_vote : Verify → ConsensusVote → Bytes → Bytes → Bool
mesh_verify_vote verify vote public_key proposal_hash =
    if bytes_eq vote.proposal_hash proposal_hash
    then verify vote.signature vote.proposal_hash public_key
    else false
