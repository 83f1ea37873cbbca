-- ===== src/Merkle/Examples.antt =====
-- src/tree.c: logs at concrete values, with a stand-in of 32 bytes for the hash.
use gate.Base.{
  Collision, ℕ, ◌≡◌, ◌⊎◌, refl, [], ◌∷◌, List, Bytes, length, replicate, length-replicate, ◌+◌, ◌*◌,
  ◌%◌, arith,
}
use gate.Merkle.{Hash, merkle_init, merkle_get_root, append_all, zero_hash}
use gate.Merkle.Forest.{Tree, leaves, digest}
use gate.Merkle.Root.{get_root-leaves, get_root_blank}
use gate.Merkle.Binding.{get_root-binds}

abbrev sum : Bytes → ℕ
sum [] = 7
sum (b ∷ rest) = (b + 3 * sum rest) % 256

abbrev toy : Hash
toy b = replicate 32 (sum b)

length-toy : (b : Bytes) → length (toy b) ≡ 32
length-toy b = length-replicate 32 (sum b)

abbrev three : List Bytes
three = (1 ∷ []) ∷ (2 ∷ []) ∷ (3 ∷ []) ∷ []

get_root-leaves_example :
    (t : Tree) × (leaves t ≡ three)
    × (merkle_get_root toy (append_all toy merkle_init three) ≡ digest toy t)
get_root-leaves_example = get_root-leaves toy three (omega arith) (omega arith)

get_root-binds_example : (three ≡ three) ⊎ Collision toy
get_root-binds_example = get_root-binds toy length-toy three three refl (omega arith) refl

abbrev full : List Bytes
full = replicate 256 (1 ∷ [])

get_root_blank_example : merkle_get_root toy (append_all toy merkle_init full) ≡ zero_hash
get_root_blank_example = get_root_blank toy full refl (omega arith)
