-- ===== src/Strict/Harness/Examples.antt =====
-- tests/gate0_adversarial.c: the harness with signatures that are the message itself.
use gate.Base.{◌≡◌, refl, [], ◌∷◌, some, Bytes, bytes_eq, bytes_eq_refl, replicate}
use gate.Command.{Verify, tripped}
use gate.Strict.{StrictEnvelope, check, admit_sender, evaluate_command}
use gate.Strict.Harness.{trial, fuzz_command, harness_main}
use gate.Strict.Harness.Trials.{known}
use gate.Strict.Harness.Passes.{harness_main-passes}

abbrev toy : Verify
toy signature message key = bytes_eq signature message

abbrev toy_sign : Bytes → Bytes → Bytes
toy_sign message key = message

abbrev bytes_of : StrictEnvelope → Bytes
bytes_of e = e.sequence_number ∷ e.command_type ∷ []

abbrev key : Bytes
key = replicate 32 7

-- Trial 4980 is accepted.
lucky_trial :
    trial toy bytes_of toy_sign 1 key [] 4980 (known key 1 998) 998 ≡ some (known key 1 999, 999)
unfolding trial fuzz_command evaluate_command admit_sender check bytes_eq tripped
lucky_trial = refl

harness_main-passes_example : harness_main toy bytes_of toy_sign 1 key [] ≡ some (known key 1 20003)
unfolding bytes_eq
harness_main-passes_example =
    harness_main-passes toy bytes_of toy_sign 1 key [] (λ m. bytes_eq_refl m) refl
