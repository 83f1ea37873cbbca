-- ===== src/Wal.antt =====
-- src/wal.c: the hash-chained log in memory. SHA-256 is a parameter. `WalRecord` is laid out as on a
-- 64-bit target: its fields take 92 bytes, padded to 96, so that the 64 bytes that are hashed are
-- the sequence, the time, the previous hash and the first half of the entry hash itself.
pub mod Chain
pub mod Verify
mod Examples
use gate.Base.{
  ℕ, zero, suc, ◌+◌, ◌%◌, ◌<◌, Bool, true, false, not, List, [], ◌∷◌, ◌++◌, Bytes, ltb, ◌==◌,
  bytes_eq, take, replicate, if◌then◌else◌, u64, le_bytes,
}

abbrev pub wal_capacity : ℕ
wal_capacity = 65536

abbrev pub sha_bytes : ℕ
sha_bytes = 32

abbrev pub Sha : Type 0
Sha = Bytes → Bytes

-- `result`, an int32_t, is kept as its bit pattern.
pub record WalRecord : Type 0 where
  pub sequence : ℕ
  pub timestamp_ns : ℕ
  pub prev_hash : Bytes
  pub entry_hash : Bytes
  pub agent_id : ℕ
  pub action_code : ℕ
  pub result : ℕ

-- The static variables; the buffer is a function of the index.
pub record Wal : Type 0 where
  pub slot : ℕ → WalRecord
  pub head : ℕ
  pub latest : Bytes
  pub initialized : Bool

unfoldable pub zero_sha : Bytes
zero_sha = replicate sha_bytes 0

unfoldable pub zero_record : WalRecord
zero_record = record {
  sequence = 0;
  timestamp_ns = 0;
  prev_hash = zero_sha;
  entry_hash = zero_sha;
  agent_id = 0;
  action_code = 0;
  result = 0;
}

unfoldable pub wal_init : Wal
wal_init = record { slot = λ i. zero_record; head = 0; latest = zero_sha; initialized = true }

-- The first `sizeof(WalRecord) - 32` bytes of a record.
unfoldable pub hashed_part : WalRecord → Bytes
hashed_part r =
    le_bytes 8 r.sequence ++ (le_bytes 8 r.timestamp_ns ++ (r.prev_hash ++ take 16 r.entry_hash))

abbrev pub update : (ℕ → WalRecord) → ℕ → WalRecord → ℕ → WalRecord
update slot i r j = if i == j then r else slot j

-- One call's arguments.
pub record Entry : Type 0 where
  pub agent_id : ℕ
  pub action_code : ℕ
  pub result : ℕ
  pub timestamp_ns : ℕ

module _ (sha : Sha) where
  -- The record written over `old`, which the slot held before.
  unfoldable pub filled : WalRecord → ℕ → Bytes → Entry → WalRecord
  filled old head latest e =
      let r : WalRecord = record {
        sequence = head;
        timestamp_ns = e.timestamp_ns;
        prev_hash = latest;
        entry_hash = old.entry_hash;
        agent_id = e.agent_id;
        action_code = e.action_code;
        result = e.result;
      } in
      record r { entry_hash = sha (hashed_part r) }

  unfoldable pub write_entry : Wal → Entry → Wal
  unfolding filled
  write_entry w e =
      let idx = w.head % wal_capacity in
      let r = filled (w.slot idx) w.head w.latest e in
      record {
        slot = update w.slot idx r;
        head = u64 (w.head + 1);
        latest = r.entry_hash;
        initialized = w.initialized;
      }

  unfoldable pub wal_append : Wal → Entry → Wal
  unfolding write_entry wal_init
  wal_append w e = if w.initialized then write_entry w e else write_entry wal_init e

  -- The loop of `wal_verify_integrity` from index `i`, with `rounds` records to go.
  pub verify_from : ℕ → ℕ → Bytes → (ℕ → WalRecord) → Bool
  verify_from zero i expected_prev slot = true
  verify_from (suc rounds) i expected_prev slot =
      let r = slot i in
      let rest = verify_from rounds (i + 1) r.entry_hash slot in
      if not (bytes_eq r.prev_hash expected_prev)
      then false
      else if not (bytes_eq r.entry_hash (sha (hashed_part r)))
      then false
      else rest

  unfoldable pub wal_verify_integrity : Wal → Bool
  wal_verify_integrity w =
      if w.head == 0
      then true
      else verify_from (if ltb w.head wal_capacity then w.head else wal_capacity) 0 zero_sha w.slot

  pub append_all : Wal → List Entry → Wal
  append_all w [] = w
  append_all w (e ∷ rest) = append_all (wal_append w e) rest
