-- ===== src/Legacy/Examples.antt =====
-- evidence/g0_integration_pass/core.c with a stand-in for signatures that compares first bytes.
use gate.Base.{ℕ, ◌≡◌, refl, true, false, List, [], ◌∷◌, get_or, replicate, ◌==◌}
use gate.Command.{ok, SenderRecord, Verify}
use gate.Legacy.{OldCall, evaluate, evaluate_command, enrol, accepted}
use gate.Legacy.Series.{IsGood, old_accepted-IsGood}

abbrev toy : Verify
toy signature bytes key = get_or signature 0 0 == get_or key 0 1

-- A command with this number, signed by the key 7.
abbrev call : ℕ → OldCall
call n = record {
  command = record {
    signature = replicate 64 7;
    envelope = record {
      version = 1;
      sequence = n;
      issued_at_ns = 100;
      expires_at_ns = 200;
      payload = replicate 256 0;
      required_authority = 0;
      device = record {
        os_name = replicate 32 0;
        os_release = replicate 32 0;
        machine_arch = replicate 32 0;
        hostname = replicate 64 0;
      };
    };
  };
  interlocks = record { estop = false; overspeed = false; overtemp = false; overvoltage = false };
  now = 150;
}

abbrev owner : SenderRecord
owner = record { public_key = replicate 32 7; last_sequence = 4; used = true }

-- Numbers may be skipped.
skipping : (evaluate toy owner (call 9)).0 ≡ ok
unfolding evaluate_command enrol
skipping = refl

abbrev calls : List OldCall
calls = call 9 ∷ call 5 ∷ call 12 ∷ []

old_accepted-IsGood_example : IsGood toy 4 (replicate 32 7) (accepted toy owner calls)
old_accepted-IsGood_example = old_accepted-IsGood toy owner calls refl
