-- ===== src/Aead.antt =====
-- gate0_crypto.c: one message is encrypted and decrypted again. libsodium's cipher and its random key and nonce
-- are parameters; a write past the end of an array is a fault, `none`.
pub mod Overrun
mod Examples
use gate.Base.{
  ℕ, ◌+◌, Bool, List, [], ◌∷◌, ◌++◌, Option, none, some, Bytes, codes, c_string, ltb, drop, length,
  set, replicate, if◌then◌else◌,
}

-- `crypto_aead_chacha20poly1305_ietf_encrypt` and `_decrypt`: message or ciphertext, nonce, key. A ciphertext that
-- is not genuine has no message.
pub record Aead : Type 0 where
  pub encrypt : Bytes → Bytes → Bytes → Bytes
  pub decrypt : Bytes → Bytes → Bytes → Option Bytes

unfoldable pub message : Bytes
message = codes "gate0 secure payload"

-- `array[i] = v`
pub store : Bytes → ℕ → ℕ → Option Bytes
store array i v = if ltb i (length array) then some (set array i v) else none

-- `main`: the exit code and what is printed, for a message. `stack` is what the array `decrypted`, as long
-- as the message, held before.
pub aead_main : Aead → Bool → Bytes → Bytes → Bytes → Bytes → Option (ℕ × Option Bytes)
unfolding store
aead_main a sodium key nonce msg stack =
    if sodium
    then elim (a.decrypt (a.encrypt msg nonce key) nonce key) [
      | none ↦ some (1, none)
      | some plain ↦ elim (store (plain ++ drop (length plain) stack) (length plain) 0) [
        | none ↦ none
        | some decrypted ↦ some (0, some (c_string decrypted))
      ]
    ]
    else some (1, none)
