-- ===== src/Heartbeat/Series.antt =====
-- src/heartbeat.c over a series of packets.
use gate.Base.{
  ℕ, ◌+◌, ◌*◌, ◌^◌, ◌≤◌, ◌<◌, ◌≡◌, ◌≢◌, refl, ◌⊎◌, List, [], ◌∷◌, All, Increasing, arith,
}
use gate.Command.{heartbeat_ok}
use gate.Heartbeat.{HeartbeatState, verify_packet, Beat, listen, heard}

-- A live clock never reads 0.
abbrev pub IsLive : Beat → Type 0
IsLive b = 0 < b.now

verify-step :
    (state : HeartbeatState) (b : Beat)
    → IsLive b
    → 0 < state.last_seen_ns
    → let (result, state') = verify_packet b.packet state b.now in
      (0 < state'.last_seen_ns)
      × (((result ≡ heartbeat_ok)
            × (state.sequence < b.packet.sequence)
            × (state'.sequence ≡ b.packet.sequence))
          ⊎ ((result ≢ heartbeat_ok) × (state'.sequence ≡ state.sequence)))
unfolding verify_packet
verify-step state b l h = ground arith

-- On a clock that never reads 0, once a packet has been accepted the sequence numbers of the
-- packets accepted after it only grow.
pub heard-Increasing :
    (state : HeartbeatState) (beats : List Beat)
    → All IsLive beats
    → 0 < state.last_seen_ns
    → Increasing state.sequence (heard state beats)
unfolding heard
heard-Increasing state [] l h = tt
heard-Increasing state (b ∷ rest) l h = ground (
  arith,
  verify-step state b l.0 h,
  heard-Increasing (verify_packet b.packet state b.now).1 rest l.1,
)

-- A beat no earlier than `t`, on a clock that has not wrapped, that announces an interval of at most
-- `i` milliseconds.
pub record IsAfter (t i : ℕ) (b : Beat) : Type 0 where
  pub later : t ≤ b.now
  pub clock : b.now < 2 ^ 64
  pub interval : b.packet.interval_ms ≤ i

late-step :
    (state : HeartbeatState) (t i : ℕ) (b : Beat)
    → IsAfter t i b
    → 0 < state.last_seen_ns
    → i < 2 ^ 32
    → state.last_seen_ns + 2 * i * 1000000 < t
    → let (result, state') = verify_packet b.packet state b.now in
      (result ≢ heartbeat_ok) × (state'.last_seen_ns ≡ state.last_seen_ns)
unfolding verify_packet
late-step state t i b v h k g = ground arith

-- On a clock that has not wrapped: when more than two intervals have passed since the last
-- accepted packet, no later packet that announces an interval that short is accepted, and the time
-- of the last accepted packet stays what it was.
pub missed_forever :
    (state : HeartbeatState) (t i : ℕ) (beats : List Beat)
    → All (IsAfter t i) beats
    → 0 < state.last_seen_ns
    → i < 2 ^ 32
    → state.last_seen_ns + 2 * i * 1000000 < t
    → (heard state beats ≡ []) × ((listen state beats).last_seen_ns ≡ state.last_seen_ns)
unfolding heard listen
missed_forever state t i [] v h k g = (refl, refl)
missed_forever state t i (b ∷ rest) v h k g = ground (
  arith,
  late-step state t i b v.0 h k g,
  missed_forever (verify_packet b.packet state b.now).1 t i rest v.1,
)
