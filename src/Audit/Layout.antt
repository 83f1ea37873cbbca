-- ===== src/Audit/Layout.antt =====
-- src/audit_log.c: the bytes of a record, read back.
use mathlib.Core.List.{append_cancel_left}
use gate.Base.{
  ℕ, ◌<◌, ◌^◌, ◌≡◌, ap, sym, ◌∙◌, ◌++◌, Bytes, take, drop, length-le_bytes, take-append_of,
  drop-append_of, le_bytes, of_le, of_le-le_bytes, pow256,
}
use gate.Audit.{Event, event_bytes}

-- Every field fits the width that the struct gives it.
pub record IsEvent (e : Event) : Type 0 where
  pub command_id_u32 : e.command_id < 2 ^ 32
  pub node_id_u32 : e.node_id < 2 ^ 32
  pub sequence_u64 : e.sequence < 2 ^ 64
  pub command_type_u8 : e.command_type < 2 ^ 8
  pub decision_code_u16 : e.decision_code < 2 ^ 16
  pub timestamp_u64 : e.timestamp_ns < 2 ^ 64

-- Two numbers of the same width in front of two lists of bytes.
number-cancel :
    (w : ℕ) {m n : ℕ} {a b : Bytes}
    → m < pow256 w
    → n < pow256 w
    → le_bytes w m ++ a ≡ le_bytes w n ++ b
    → (m ≡ n) × (a ≡ b)
number-cancel w {m} {n} {a} {b} lt lt' h =
    let heads : take w (le_bytes w m ++ a) ≡ take w (le_bytes w n ++ b) = ap (take w) h in
    let tails : drop w (le_bytes w m ++ a) ≡ drop w (le_bytes w n ++ b) = ap (drop w) h in
    let same : le_bytes w m ≡ le_bytes w n =
      sym (take-append_of (le_bytes w m) a (length-le_bytes w m))
      ∙ (heads ∙ take-append_of (le_bytes w n) b (length-le_bytes w n)) in
    (
      sym (of_le-le_bytes w m lt) ∙ (ap of_le same ∙ of_le-le_bytes w n lt'),
      sym (drop-append_of (le_bytes w m) a (length-le_bytes w m))
          ∙ (tails ∙ drop-append_of (le_bytes w n) b (length-le_bytes w n)),
    )

-- The bytes that are hashed determine the event and the hash before it.
pub event_bytes-injective :
    (d e : Event) (p q : Bytes)
    → IsEvent d
    → IsEvent e
    → event_bytes d p ≡ event_bytes e q
    → (d ≡ e) × (p ≡ q)
unfolding event_bytes
event_bytes-injective d e p q v w h =
    let t : _ = number-cancel 8 v.timestamp_u64 w.timestamp_u64 h in
    let c : _ = number-cancel 4 v.command_id_u32 w.command_id_u32 t.1 in
    let n : _ = number-cancel 4 v.node_id_u32 w.node_id_u32 c.1 in
    let s : _ = number-cancel 8 v.sequence_u64 w.sequence_u64 n.1 in
    let y : _ = number-cancel 1 v.command_type_u8 w.command_type_u8 s.1 in
    let z : _ =
      append_cancel_left (le_bytes 1 0) (le_bytes 2 d.decision_code ++ p)
        (le_bytes 2 e.decision_code ++ q) y.1 in
    let k : _ = number-cancel 2 v.decision_code_u16 w.decision_code_u16 z in
    (
      λ i. record {
        command_id = c.0 i;
        node_id = n.0 i;
        sequence = s.0 i;
        command_type = y.0 i;
        decision_code = k.0 i;
        timestamp_ns = t.0 i;
      },
      k.1,
    )
