-- ===== src/Merkle.antt =====
-- src/tree.h and src/tree.c: the audit tree, kept as a frontier of at most one subtree for each of
-- eight levels. The hash, libsodium's `crypto_generichash`, is a parameter.
pub mod Forest
pub mod Append
pub mod Root
pub mod Binding
mod Examples
use gate.Base.{
  ℕ, zero, suc, ◌+◌, ◌/◌, ◌%◌, ◌^◌, Bool, true, false, List, [], ◌∷◌, ◌++◌, Bytes, ◌==◌, get_or,
  set, replicate, if◌then◌else◌, u64,
}

abbrev pub merkle_max_depth : ℕ
merkle_max_depth = 8

-- `crypto_generichash_BYTES`
abbrev pub hash_bytes : ℕ
hash_bytes = 32

abbrev pub Hash : Type 0
Hash = Bytes → Bytes

pub record MerkleTree : Type 0 where
  pub frontier : List Bytes
  pub leaf_count : ℕ

abbrev pub zero_hash : Bytes
zero_hash = replicate hash_bytes 0

unfoldable pub merkle_init : MerkleTree
merkle_init = record { frontier = replicate merkle_max_depth zero_hash; leaf_count = 0 }

-- `(n & (1ULL << i)) != 0`
abbrev pub bit : ℕ → ℕ → Bool
bit n i = n / 2 ^ i % 2 == 1

module _ (hash : Hash) where
  -- The loop of `merkle_append` from level `i`, with `rounds` levels to go.
  pub carry : ℕ → ℕ → ℕ → List Bytes → Bytes → List Bytes
  carry zero i idx frontier current = frontier
  carry (suc rounds) i idx frontier current =
      let placed = set frontier i current in
      let up = carry rounds (i + 1) idx frontier (hash (get_or frontier i [] ++ current)) in
      if bit idx i then up else placed

  unfoldable pub merkle_append : MerkleTree → Bytes → MerkleTree
  unfolding carry
  merkle_append tree entry = record {
    frontier = carry merkle_max_depth 0 tree.leaf_count tree.frontier (hash entry);
    leaf_count = u64 (tree.leaf_count + 1);
  }

  -- The loop of `merkle_get_root`.
  pub fold_root : ℕ → ℕ → ℕ → List Bytes → Bool → Bytes → Bytes
  fold_root zero i count frontier active current = current
  fold_root (suc rounds) i count frontier active current =
      let node = get_or frontier i [] in
      let joined = if active then hash (node ++ current) else node in
      fold_root rounds (i + 1) count frontier (if bit count i then true else active)
        (if bit count i then joined else current)

  unfoldable pub merkle_get_root : MerkleTree → Bytes
  unfolding fold_root
  merkle_get_root tree = fold_root merkle_max_depth 0 tree.leaf_count tree.frontier false zero_hash

  pub append_all : MerkleTree → List Bytes → MerkleTree
  append_all tree [] = tree
  append_all tree (d ∷ ds) = append_all (merkle_append tree d) ds
