-- ===== src/Audit.antt =====
-- src/audit_log.c: the hash-chained audit file. SHA-256 is a parameter, and so is what `open` and
-- `write` do. `AuditRecord` is laid out as on a 64-bit target: its fields take 92 bytes, one byte of
-- padding before `decision_code`, padded to 96, so the 64 bytes that are hashed end with the first
-- four bytes of the event hash, which are zero at that moment.
pub mod Layout
pub mod Chain
pub mod Commit
mod Examples
use gate.Base.{
  ℕ, zero, suc, ◌+◌, Bool, true, false, List, [], ◌∷◌, ◌++◌, Bytes, take, drop, replicate,
  if◌then◌else◌, le_bytes,
}

abbrev pub Sha : Type 0
Sha = Bytes → Bytes

abbrev pub sha_bytes : ℕ
sha_bytes = 32

-- The arguments of `audit_log_event`.
pub record Event : Type 0 where
  pub command_id : ℕ
  pub node_id : ℕ
  pub sequence : ℕ
  pub command_type : ℕ
  pub decision_code : ℕ
  pub timestamp_ns : ℕ

-- What the file system does in one call: whether `open` gives a descriptor, and how many bytes
-- `write` puts into the file.
pub record Disk : Type 0 where
  pub opens : Bool
  pub written : ℕ

-- The two static variables, and the file.
pub record AuditLog : Type 0 where
  pub last_hash : Bytes
  pub initialized : Bool
  pub file : Bytes

unfoldable pub zero_hash : Bytes
zero_hash = replicate sha_bytes 0

unfoldable pub fresh_log : AuditLog
fresh_log = record { last_hash = zero_hash; initialized = false; file = [] }

-- The record in memory up to its event hash: 60 bytes.
pub event_bytes : Event → Bytes → Bytes
event_bytes e previous_hash =
    le_bytes 8 e.timestamp_ns
    ++ (le_bytes 4 e.command_id
        ++ (le_bytes 4 e.node_id
            ++ (le_bytes 8 e.sequence
                ++ (le_bytes 1 e.command_type
                    ++ (le_bytes 1 0 ++ (le_bytes 2 e.decision_code ++ previous_hash))))))

module _ (sha : Sha) where
  abbrev pub event_hash : Event → Bytes → Bytes
  event_hash e previous_hash = sha (event_bytes e previous_hash ++ replicate 4 0)

  -- The 96 bytes that are written.
  abbrev pub record_bytes : Event → Bytes → Bytes
  record_bytes e previous_hash =
      event_bytes e previous_hash ++ (event_hash e previous_hash ++ replicate 4 0)

  unfoldable pub audit_log_event : AuditLog → Event → Disk → AuditLog
  audit_log_event log e disk =
      if disk.opens
      then (let previous = if log.initialized then log.last_hash else zero_hash in
          record {
            last_hash = event_hash e previous;
            initialized = true;
            file = log.file ++ take disk.written (record_bytes e previous);
          })
      else log

  pub audit_all : AuditLog → List (Event × Disk) → AuditLog
  audit_all log [] = log
  audit_all log ((e, disk) ∷ rest) = audit_all (audit_log_event log e disk) rest
