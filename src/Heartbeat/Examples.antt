-- ===== src/Heartbeat/Examples.antt =====
-- src/heartbeat.c: packets at concrete values.
use gate.Base.{ℕ, ◌+◌, ◌*◌, ◌<◌, ◌≡◌, ◌⊎◌, ◌↔◌, refl, some, [], ◌∷◌, replicate, Increasing, arith}
use gate.Command.{heartbeat_ok, heartbeat_missed}
use gate.Heartbeat.{
  HeartbeatPacket, HeartbeatState, verify_packet, heartbeat_verify, Beat, listen, heard,
  heartbeat_init, skew,
}
use gate.Heartbeat.Verdict.{
  IsCurrent, IsFirst, IsPunctual, verify_packet_iff, heartbeat_verify-unsigned,
}
use gate.Heartbeat.Series.{heard-Increasing, missed_forever}

abbrev packet : ℕ → HeartbeatPacket
packet seq = record {
  node_id = replicate 32 1;
  sequence = seq;
  timestamp_ns = 9000000000;
  interval_ms = 1000;
  signature = replicate 64 0;
}

abbrev state : HeartbeatState
state = record { last_seen_ns = 8000000000; sequence = 4; miss_count = 0 }

abbrev beat : ℕ → ℕ → Beat
beat seq now = record { packet = packet seq; now = now }

first_packet : (verify_packet (packet 1) heartbeat_init 9000000000).0 ≡ heartbeat_ok
unfolding verify_packet skew heartbeat_init
first_packet = refl

late_packet : (verify_packet (packet 5) state 10500000000).0 ≡ heartbeat_missed
unfolding verify_packet skew
late_packet = refl

verify_packet_iff_example :
    let result = (verify_packet (packet 5) state 9000000000).0 in
    ((result ≡ heartbeat_ok) ↔ (
      IsCurrent (packet 5) 9000000000
      × (IsFirst state ⊎ ((4 < 5) × IsPunctual (packet 5) state 9000000000))))
    × ((result ≡ heartbeat_missed) ↔ (
        IsCurrent (packet 5) 9000000000
        × (0 < 8000000000)
        × (4 < 5)
        × (8000000000 + 2 * 1000 * 1000000 < 9000000000)))
verify_packet_iff_example = verify_packet_iff (packet 5) state 9000000000 (record {
  clock = omega arith;
  stamp = omega arith;
  interval = omega arith;
  seen_before = omega arith;
})

heartbeat_verify-unsigned_example :
    heartbeat_verify
      (some (record (packet 5) { node_id = replicate 32 9; signature = replicate 64 9 }))
      (some state)
      9000000000
    ≡ heartbeat_verify (some (packet 5)) (some state) 9000000000
heartbeat_verify-unsigned_example =
    heartbeat_verify-unsigned (packet 5) state 9000000000 (replicate 32 9) (replicate 64 9)

heard-Increasing_example :
    Increasing 4 (heard state (beat 5 9000000000 ∷ beat 5 9100000000 ∷ beat 7 9200000000 ∷ []))
heard-Increasing_example =
    heard-Increasing state (beat 5 9000000000 ∷ beat 5 9100000000 ∷ beat 7 9200000000 ∷ [])
      (omega arith, (omega arith, (omega arith, tt))) (omega arith)

missed_forever_example :
    (heard state (beat 6 10500000000 ∷ []) ≡ [])
    × ((listen state (beat 6 10500000000 ∷ [])).last_seen_ns ≡ 8000000000)
missed_forever_example =
    missed_forever state 10500000000 1000 (beat 6 10500000000 ∷ [])
      (record { later = omega arith; clock = omega arith; interval = omega arith }, tt)
      (omega arith) (omega arith) (omega arith)
