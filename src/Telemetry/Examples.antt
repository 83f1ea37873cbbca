-- ===== src/Telemetry/Examples.antt =====
-- src/telemetry.c: pushes at concrete values.
use gate.Base.{◌≡◌, refl, [], ◌∷◌, List}
use gate.Command.{ok, expired}
use gate.Telemetry.{Sample, telemetry_buffer, telemetry_push, push_all}
use gate.Telemetry.Latest.{Keeps, push_all-latest}

abbrev samples : List Sample
samples =
    record { timestamp_ns = 5; result = ok } ∷ record { timestamp_ns = 6; result = expired } ∷ []

second_slot : (push_all telemetry_buffer samples).results 1 ≡ expired
unfolding push_all telemetry_push telemetry_buffer
second_slot = refl

push_all-latest_example : Keeps (push_all telemetry_buffer samples) samples
push_all-latest_example = push_all-latest samples
