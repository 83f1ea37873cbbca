-- ===== src/Telemetry.antt =====
-- src/telemetry.c: the ring of the latest verdicts.
pub mod Latest
mod Examples
use gate.Base.{ℕ, ◌+◌, ◌%◌, ◌^◌, Bool, true, false, List, [], ◌∷◌, ◌==◌, if◌then◌else◌, u32}
use gate.Command.{GateResult, ok}

abbrev pub telemetry_ring_size : ℕ
telemetry_ring_size = 1024

-- The two arrays are functions of the index.
pub record TelemetryRing : Type 0 where
  pub timestamps : ℕ → ℕ
  pub results : ℕ → GateResult
  pub head : ℕ
  pub tail : ℕ
  pub full : Bool

-- `static TelemetryRing telemetry_buffer = {0};`
unfoldable pub telemetry_buffer : TelemetryRing
telemetry_buffer = record {
  timestamps = λ i. 0;
  results = λ i. ok;
  head = 0;
  tail = 0;
  full = false;
}

abbrev pub next_slot : ℕ → ℕ
next_slot n = u32 (n + 1) % telemetry_ring_size

unfoldable pub telemetry_push : TelemetryRing → ℕ → GateResult → TelemetryRing
telemetry_push r timestamp_ns result =
    let tail = if r.full then next_slot r.tail else r.tail in
    let head = next_slot r.head in
    record {
      timestamps = λ i. if r.head == i then timestamp_ns else r.timestamps i;
      results = λ i. if r.head == i then result else r.results i;
      head = head;
      tail = tail;
      full = if head == tail then true else r.full;
    }

-- One push's arguments.
pub record Sample : Type 0 where
  pub timestamp_ns : ℕ
  pub result : GateResult

unfoldable pub push_all : TelemetryRing → List Sample → TelemetryRing
push_all r [] = r
push_all r (s ∷ rest) = push_all (telemetry_push r s.timestamp_ns s.result) rest
