-- ===== src/Chain/Examples.antt =====
-- gate0_chain.c with a stand-in for SHA-256 that repeats the first byte of an entry.
use gate.Base.{◌≡◌, refl, ◌⊎◌, [], ◌∷◌, Bytes, get_or, replicate, length-replicate, Collision}
use gate.Chain.{boot_entries, print_hex}
use gate.Chain.Binding.{chain_main-binds}

abbrev toy : Bytes → Bytes
toy input = replicate 32 (get_or input 32 0)

printed : print_hex (0xAB ∷ 9 ∷ []) ≡ b'a' ∷ b'b' ∷ b'0' ∷ b'9' ∷ []
unfolding print_hex
printed = refl

chain_main-binds_example : (boot_entries ≡ boot_entries) ⊎ Collision toy
chain_main-binds_example =
    chain_main-binds toy (λ input. length-replicate 32 (get_or input 32 0)) boot_entries
      boot_entries refl refl
