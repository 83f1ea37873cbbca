-- ===== src/Chain.antt =====
-- gate0_chain.c: a log whose entries are chained by their hashes. SHA-256 is a parameter; `main` chains three
-- entries of its own; its loop is here on any.
pub mod Binding
mod Examples
use gate.Base.{
  ℕ, ◌+◌, ◌-◌, ◌/◌, ◌%◌, List, [], ◌∷◌, ◌++◌, Bytes, codes, ltb, take, replicate, if◌then◌else◌,
}

-- `%02x` of a byte.
hex_digit : ℕ → ℕ
hex_digit d = if ltb d 10 then b'0' + d else b'a' + (d - 10)

unfoldable pub print_hex : Bytes → Bytes
unfolding hex_digit
print_hex [] = []
print_hex (b ∷ bs) = hex_digit (b / 16) ∷ hex_digit (b % 16) ∷ print_hex bs

-- The entries of `main`.
unfoldable pub boot_entries : List Bytes
boot_entries =
    codes "gate0_init: system boot"
    ∷ codes "auth_success: client connected"
    ∷ codes "state_transition: active mode"
    ∷ []

module _ (sha256 : Bytes → Bytes) where
  unfoldable pub compute_hash : Bytes → Bytes
  compute_hash input = sha256 input

  -- The rounds of the `for`: what each prints of its hash, and the last hash.
  pub chain_rounds : Bytes → List Bytes → List Bytes × Bytes
  chain_rounds prev [] = ([], prev)
  chain_rounds prev (entry ∷ entries) =
      let current = compute_hash (prev ++ entry) in
      let later = chain_rounds current entries in (print_hex (take 16 current) ∷ later.0, later.1)

  unfoldable pub chain_main : List Bytes → List Bytes × Bytes
  unfolding chain_rounds
  chain_main entries = chain_rounds (replicate 32 0) entries
