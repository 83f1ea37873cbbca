-- ===== src/Audit/Examples.antt =====
-- src/audit_log.c: events at concrete values, with a stand-in of 32 bytes for the hash.
use gate.Base.{
  Collision, ℕ, ◌≡◌, ◌⊎◌, refl, true, false, [], ◌∷◌, List, Bytes, length, replicate,
  length-replicate, arith,
}
use gate.Audit.{Sha, Event, Disk, fresh_log, zero_hash, audit_log_event, audit_all}
use gate.Audit.Chain.{opened, chain_file, audit_all-file}
use gate.Audit.Layout.{IsEvent}
use gate.Audit.Commit.{audit_all-binds}

abbrev toy : Sha
toy b = replicate 32 (length b)

length-toy : (b : Bytes) → length (toy b) ≡ 32
length-toy b = length-replicate 32 (length b)

abbrev event : ℕ → Event
event n = record {
  command_id = n;
  node_id = 1;
  sequence = n;
  command_type = 2;
  decision_code = 0;
  timestamp_ns = 100;
}

event-IsEvent : IsEvent (event 1)
event-IsEvent = record {
  command_id_u32 = omega arith;
  node_id_u32 = omega arith;
  sequence_u64 = omega arith;
  command_type_u8 = omega arith;
  decision_code_u16 = omega arith;
  timestamp_u64 = omega arith;
}

abbrev good : Disk
good = record { opens = true; written = 96 }

abbrev broken : Disk
broken = record { opens = false; written = 0 }

abbrev steps : List (Event × Disk)
steps = (event 1, good) ∷ (event 2, broken) ∷ []

audit_all-file_example :
    (audit_all toy fresh_log steps).file ≡ chain_file toy zero_hash (opened steps)
audit_all-file_example =
    audit_all-file toy length-toy steps ((λ e. refl), ((λ e. ground arith), tt))

audit_all-binds_example : (opened steps ≡ opened ((event 1, good) ∷ [])) ⊎ Collision toy
unfolding opened audit_all audit_log_event fresh_log
audit_all-binds_example =
    audit_all-binds toy steps ((event 1, good) ∷ []) (event-IsEvent, tt) (event-IsEvent, tt) refl
      refl
