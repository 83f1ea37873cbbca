-- ===== src/Heartbeat/Verdict.antt =====
-- src/heartbeat.c: which packets are accepted, and which are counted as missed.
use gate.Base.{ℕ, ◌+◌, ◌*◌, ◌^◌, ◌≤◌, ◌<◌, ◌≡◌, ◌↔◌, ◌⊎◌, refl, Bytes, some, arith}
use gate.Command.{heartbeat_ok, heartbeat_missed}
use gate.Heartbeat.{HeartbeatPacket, HeartbeatState, hb_window_ns, verify_packet, heartbeat_verify}

-- The clock values of a packet and a state are ones that the signed difference can represent, and the
-- interval is a uint32_t.
pub record InRange (pkt : HeartbeatPacket) (state : HeartbeatState) (now : ℕ) : Type 0 where
  pub clock : now < 2 ^ 63
  pub stamp : pkt.timestamp_ns < 2 ^ 63
  pub interval : pkt.interval_ms < 2 ^ 32
  pub seen_before : state.last_seen_ns ≤ now

-- The packet's time is within the window of the clock, either side.
abbrev pub IsCurrent : HeartbeatPacket → ℕ → Type 0
IsCurrent pkt now =
    (pkt.timestamp_ns ≤ now + hb_window_ns) × (now ≤ pkt.timestamp_ns + hb_window_ns)

-- A state that has accepted no packet yet.
abbrev pub IsFirst : HeartbeatState → Type 0
IsFirst state = state.last_seen_ns ≡ 0

-- No more than two of the packet's own intervals have gone by since the last accepted packet.
abbrev pub IsPunctual : HeartbeatPacket → HeartbeatState → ℕ → Type 0
IsPunctual pkt state now = now ≤ state.last_seen_ns + 2 * pkt.interval_ms * 1000000

-- For times below 2^63, a 32-bit interval and a clock that is not behind the last accepted packet:
-- a packet is accepted exactly when its time is within five seconds of the clock and it is the
-- first one, or is newer than the last and punctual; it is a miss exactly when it is current and
-- newer than the last but not punctual.
pub verify_packet_iff :
    (pkt : HeartbeatPacket) (state : HeartbeatState) (now : ℕ)
    → InRange pkt state now
    → let result = (verify_packet pkt state now).0 in
      ((result ≡ heartbeat_ok) ↔ (
        IsCurrent pkt now
        × (IsFirst state ⊎ ((state.sequence < pkt.sequence) × IsPunctual pkt state now))))
      × ((result ≡ heartbeat_missed) ↔ (
          IsCurrent pkt now
          × (0 < state.last_seen_ns)
          × (state.sequence < pkt.sequence)
          × (state.last_seen_ns + 2 * pkt.interval_ms * 1000000 < now)))
unfolding verify_packet
verify_packet_iff pkt state now r =
    ((λ h. ground arith, λ h. ground arith), (λ h. ground arith, λ h. ground arith))

-- The signature and the node id of a packet are never looked at: with any others in their place the
-- verdict and the new state are the same.
pub heartbeat_verify-unsigned :
    (pkt : HeartbeatPacket) (state : HeartbeatState) (now : ℕ) (node sig : Bytes)
    → heartbeat_verify (some (record pkt { node_id = node; signature = sig })) (some state) now
      ≡ heartbeat_verify (some pkt) (some state) now
unfolding heartbeat_verify verify_packet
heartbeat_verify-unsigned pkt state now node sig = refl
