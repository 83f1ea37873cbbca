-- ===== src/Aead/Examples.antt =====
-- gate0_crypto.c with a stand-in for the cipher that adds one byte.
use gate.Base.{◌≡◌, refl, true, [], ◌∷◌, Option, none, some, Bytes, replicate}
use gate.Aead.{Aead, message, aead_main}
use gate.Aead.Overrun.{aead_main-overruns}

abbrev without_tag : Bytes → Option Bytes
without_tag [] = none
without_tag (tag ∷ msg) = some msg

abbrev toy : Aead
toy = record { encrypt = λ msg nonce key. 9 ∷ msg; decrypt = λ c nonce key. without_tag c }

forged :
    aead_main (record toy { decrypt = λ c nonce key. none }) true [] [] message (replicate 20 0)
    ≡ some (1, none)
unfolding aead_main
forged = refl

aead_main-overruns_example : aead_main toy true [] [] message (replicate 20 0) ≡ none
unfolding message
aead_main-overruns_example = aead_main-overruns toy [] [] message (replicate 20 0) refl refl
