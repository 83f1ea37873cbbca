-- ===== src/Heartbeat.antt =====
-- src/heartbeat.c and src/heartbeat.h. Signed differences are the two's complement ones: for clock
-- values from 2^63 on the C expression overflows, and the wrapped value is taken.
pub mod Verdict
pub mod Series
mod Examples
use gate.Base.{
  ℕ, ◌+◌, ◌-◌, ◌*◌, ◌^◌, Bool, ◌&&◌, List, [], ◌∷◌, Option, none, some, Bytes, ltb, leb, truthy,
  if◌then◌else◌, u32, u64, sub64,
}
use gate.Command.{
  GateResult, expired, sequence_invalid, heartbeat_ok, heartbeat_missed, heartbeat_invalid,
}

abbrev pub hb_miss_limit : ℕ
hb_miss_limit = 2

abbrev pub hb_window_ns : ℕ
hb_window_ns = 5000000000

pub record HeartbeatPacket : Type 0 where
  pub node_id : Bytes
  pub sequence : ℕ
  pub timestamp_ns : ℕ
  pub interval_ms : ℕ
  pub signature : Bytes

pub record HeartbeatState : Type 0 where
  pub last_seen_ns : ℕ
  pub sequence : ℕ
  pub miss_count : ℕ

unfoldable pub heartbeat_init : HeartbeatState
heartbeat_init = record { last_seen_ns = 0; sequence = 0; miss_count = 0 }

-- `delta`, after `if (delta < 0) delta = -delta`, as the uint64_t that it is compared as.
pub skew : ℕ → ℕ → ℕ
skew now stamp = let d = sub64 now stamp in if ltb d (2 ^ 63) then d else 2 ^ 64 - d

abbrev pub miss_window : ℕ → ℕ
miss_window interval_ms = u64 (hb_miss_limit * interval_ms * 1000000)

-- `heartbeat_verify` past its null check.
unfoldable pub verify_packet : HeartbeatPacket → HeartbeatState → ℕ → GateResult × HeartbeatState
unfolding skew
verify_packet pkt state now =
    if ltb hb_window_ns (skew now pkt.timestamp_ns)
    then (expired, state)
    else if truthy state.last_seen_ns && leb pkt.sequence state.sequence
    then (sequence_invalid, state)
    else if truthy state.last_seen_ns
        && ltb (miss_window pkt.interval_ms) (sub64 now state.last_seen_ns)
    then (heartbeat_missed, record state { miss_count = u32 (state.miss_count + 1) })
    else (heartbeat_ok, record { last_seen_ns = now; sequence = pkt.sequence; miss_count = 0 })

-- A null pointer is `none`.
unfoldable pub heartbeat_verify :
    Option HeartbeatPacket → Option HeartbeatState → ℕ → GateResult × Option HeartbeatState
heartbeat_verify none state now = (heartbeat_invalid, state)
heartbeat_verify (some pkt) none now = (heartbeat_invalid, none)
heartbeat_verify (some pkt) (some state) now =
    let (result, state') = verify_packet pkt state now in (result, some state')

-- A heartbeat packet and the clock when it is verified.
pub record Beat : Type 0 where
  pub packet : HeartbeatPacket
  pub now : ℕ

pub listen : HeartbeatState → List Beat → HeartbeatState
listen state [] = state
listen state (b ∷ rest) = listen (verify_packet b.packet state b.now).1 rest

-- The sequence numbers of the accepted packets.
pub heard : HeartbeatState → List Beat → List ℕ
heard state [] = []
heard state (b ∷ rest) =
    let (result, state') = verify_packet b.packet state b.now in
    let others = heard state' rest in
    elim result [ heartbeat_ok ↦ b.packet.sequence ∷ others | _ ↦ others ]
