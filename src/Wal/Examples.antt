-- ===== src/Wal/Examples.antt =====
-- src/wal.c: logs at concrete values, with stand-ins for the hash.
use gate.Base.{
  Collision, ℕ, ◌≡◌, ◌⊎◌, ◌+◌, refl, [], ◌∷◌, ◌++◌, List, take, replicate, bytes_eq, length, arith,
}
use gate.Wal.{
  Sha, Entry, zero_sha, wal_init, wal_append, write_entry, filled, hashed_part, append_all,
  verify_from, wal_verify_integrity,
}
use gate.Wal.Chain.{Linked, last_hash, append_all-Linked}
use gate.Wal.Verify.{retagged, wal_verify-retagged, wal_verify-needs_zeros}

abbrev toy : Sha
toy b = replicate 32 (length b)

-- Its outputs begin with 16 zeros.
abbrev lucky : Sha
lucky b = replicate 16 0 ++ replicate 16 1

abbrev entry : ℕ → Entry
entry n = record { agent_id = n; action_code = 2; result = 0; timestamp_ns = 100 + n }

abbrev entries : List Entry
entries = entry 1 ∷ entry 2 ∷ []

append_all-Linked_example :
    let w = append_all toy wal_init entries in
    Linked toy w.slot 0 zero_sha entries
    × (w.head ≡ 2)
    × (w.latest ≡ last_hash w.slot 0 zero_sha entries)
append_all-Linked_example = append_all-Linked toy entries (omega arith)

wal_verify-retagged_example :
    let w = append_all toy wal_init entries in
    wal_verify_integrity toy (record w { slot = retagged toy (λ i. 9) (λ i. 9) (λ i. 9) w.slot })
    ≡ wal_verify_integrity toy w
wal_verify-retagged_example =
    wal_verify-retagged toy (λ i. 9) (λ i. 9) (λ i. 9) (append_all toy wal_init entries)

wal_verify-needs_zeros_example :
    let w = append_all lucky wal_init (entry 1 ∷ []) in
    (take 16 (w.slot 0).entry_hash ≡ replicate 16 0) ⊎ Collision lucky
unfolding append_all wal_append write_entry filled wal_init wal_verify_integrity verify_from
    zero_sha hashed_part bytes_eq
wal_verify-needs_zeros_example = wal_verify-needs_zeros lucky (entry 1) [] (omega arith) refl
