-- ===== src/Mtk/Examples.antt =====
-- mtk.c: verifications at concrete values. The stand-in for the hash is the same for every input.
use gate.Base.{ℕ, ◌≡◌, refl, [], none, replicate, bytes_eq, Collision, arith}
use gate.Mtk.{KeyHash, MtkState, mtk_verify, mtk_rotate, mtk_derive, mtk_init, mtk_hazard_acquire}
use gate.Mtk.Readers.{Shared, idle, scanning, Run, here, onward, count, pass, spin}
use gate.Mtk.Readers.Protection.{Holding, NotPast, held_key-stays}
use gate.Mtk.Rotation.{verify_all, mtk_verify-once, mtk_verify-waits}

abbrev toy : KeyHash
toy b = replicate 32 7

-- A state after `n` verifications, `good` of them with the right key.
abbrev at : ℕ → ℕ → ℕ → MtkState
at n good now = record {
  seed = replicate 32 1;
  current_key = replicate 32 7;
  counter = n;
  last_rotation_ns = now;
  access_attempts = n;
  legitimate_accesses = good;
  hazard = replicate 8 0;
}

fresh : mtk_init toy (replicate 32 1) 5 ≡ at 0 0 5
unfolding mtk_init mtk_derive
fresh = refl

abbrev next : MtkState → ℕ → MtkState
next m now = record m {
  counter = 1;
  last_rotation_ns = now;
  access_attempts = 2;
  legitimate_accesses = 1;
}

abbrev last : MtkState → ℕ → MtkState
last m now = record m {
  counter = 2;
  last_rotation_ns = now;
  access_attempts = 4;
  legitimate_accesses = 2;
}

mtk_verify-once_example : Collision toy
unfolding mtk_verify mtk_rotate mtk_derive verify_all bytes_eq
mtk_verify-once_example =
    mtk_verify-once toy (at 0 0 5) (next (at 0 0 5) 6) (next (at 0 0 5) 6) (last (at 0 0 5) 7)
      (replicate 32 7) 6 7 [] refl (omega arith) refl refl refl

mtk_verify-waits_example :
    mtk_verify toy (mtk_hazard_acquire (at 0 0 5) 2 99) (replicate 32 7) 6 ≡ none
mtk_verify-waits_example =
    mtk_verify-waits toy (at 0 0 5) 2 99 6 (replicate 32 7) (omega arith) (omega arith)

-- Slot 2 is set before a rotation begins.
abbrev guarded : Shared
guarded = record { state = mtk_hazard_acquire (at 0 0 5) 2 99; rotator = idle }

-- The rotation waits for it.
abbrev waiting : Shared
waiting = record {
  state = record guarded.state { counter = 1; access_attempts = 1; last_rotation_ns = 6 };
  rotator = scanning 2;
}

guarded-waiting : Run toy (Holding 2) guarded waiting
unfolding mtk_hazard_acquire
guarded-waiting =
    onward
      (onward
        (onward (onward (here (omega arith)) (count 6 refl) (omega arith))
          (pass 0 refl (omega arith) refl) (omega arith))
        (pass 1 refl (omega arith) refl) (omega arith))
      (spin 2 refl (omega arith) (omega arith)) (omega arith)

held_key-stays_example :
    (waiting.state.current_key ≡ guarded.state.current_key) × NotPast 2 waiting.rotator
held_key-stays_example = held_key-stays toy 2 guarded waiting (omega arith) tt guarded-waiting
