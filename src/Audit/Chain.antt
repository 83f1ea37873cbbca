-- ===== src/Audit/Chain.antt =====
-- src/audit_log.c: what the file holds.
use mathlib.Core.List.{append_assoc, append-nil}
use gate.Base.{
  sizes, ℕ, ◌≡◌, refl, sym, subst, ◌∙◌, inl, inr, true, false, List, [], ◌∷◌, ◌++◌, Bytes,
  Bool-cases, take, length, take-append_of, All, if◌then◌else◌,
}
use gate.Audit.{
  Sha, Event, Disk, AuditLog, zero_hash, fresh_log, event_bytes, event_hash, record_bytes,
  audit_log_event, audit_all,
}

-- The `write` of a call, if there is one, puts the whole record into the file.
abbrev pub WritesAll : Event × Disk → Type 0
WritesAll step = step.1.opens ≡ true → step.1.written ≡ 96

-- The events whose `open` succeeded.
unfoldable pub opened : List (Event × Disk) → List Event
opened [] = []
opened ((e, disk) ∷ rest) = let others = opened rest in if disk.opens then e ∷ others else others

module _ (sha : Sha) where
  -- The records of these events, each with the hash of the one before it, the first with `previous`.
  pub chain_file : Bytes → List Event → Bytes
  chain_file previous [] = []
  chain_file previous (e ∷ es) =
      record_bytes sha e previous ++ chain_file (event_hash sha e previous) es

  unfoldable pub chain_hash : Bytes → List Event → Bytes
  chain_hash previous [] = previous
  chain_hash previous (e ∷ es) = chain_hash (event_hash sha e previous) es

  -- The previous hash of the next record.
  abbrev previous_of : AuditLog → Bytes
  previous_of log = if log.initialized then log.last_hash else zero_hash

  abbrev grown : AuditLog → Event → Disk → AuditLog
  grown log e disk = record {
    last_hash = event_hash sha e log.last_hash;
    initialized = true;
    file = log.file ++ take disk.written (record_bytes sha e log.last_hash);
  }

  audit_log_event-opened :
      (log : AuditLog) (e : Event) (disk : Disk)
      → previous_of log ≡ log.last_hash
      → disk.opens ≡ true
      → audit_log_event sha log e disk ≡ grown log e disk
  unfolding audit_log_event
  audit_log_event-opened log e disk ready done = rw done (λ i. record {
    last_hash = event_hash sha e (ready i);
    initialized = true;
    file = log.file ++ take disk.written (record_bytes sha e (ready i));
  })

  audit_log_event-shut :
      (log : AuditLog) (e : Event) (disk : Disk)
      → disk.opens ≡ false
      → audit_log_event sha log e disk ≡ log
  unfolding audit_log_event
  audit_log_event-shut log e disk shut = rw shut refl

  opened-open :
      (e : Event) (disk : Disk) (rest : List (Event × Disk))
      → disk.opens ≡ true
      → opened ((e, disk) ∷ rest) ≡ e ∷ opened rest
  unfolding opened
  opened-open e disk rest done = rw done refl

  opened-shut :
      (e : Event) (disk : Disk) (rest : List (Event × Disk))
      → disk.opens ≡ false
      → opened ((e, disk) ∷ rest) ≡ opened rest
  unfolding opened
  opened-shut e disk rest shut = rw shut refl

  pub audit_all-hash :
      (log : AuditLog) (steps : List (Event × Disk))
      → previous_of log ≡ log.last_hash
      → (audit_all sha log steps).last_hash ≡ chain_hash log.last_hash (opened steps)
  unfolding audit_all opened chain_hash
  audit_all-hash log [] ready = refl
  audit_all-hash log ((e, disk) ∷ rest) ready = elim (Bool-cases disk.opens) [
    | inl done ↦
        rw (audit_log_event-opened log e disk ready done, audit_all, opened-open e disk rest done)
          (audit_all-hash (grown log e disk) rest refl)
    | inr shut ↦
        rw (audit_log_event-shut log e disk shut, audit_all, opened-shut e disk rest shut)
          (audit_all-hash log rest ready)
  ]

  module _ (sha_length : (b : Bytes) → length (sha b) ≡ 32) where
    length-record_bytes :
        (e : Event) (previous : Bytes)
        → length previous ≡ 32
        → length (record_bytes sha e previous) ≡ 96
    unfolding event_bytes
    length-record_bytes e previous l = simp (sizes, sha_length, l)

    take_record :
        (e : Event) (previous : Bytes) (n : ℕ)
        → length previous ≡ 32
        → n ≡ 96
        → take n (record_bytes sha e previous) ≡ record_bytes sha e previous
    take_record e previous n l w =
        subst (λ b. take n b ≡ record_bytes sha e previous)
          (append-nil (record_bytes sha e previous))
          (take-append_of (record_bytes sha e previous) []
            (length-record_bytes e previous l ∙ sym w))

    audit_all-grows :
        (log : AuditLog) (steps : List (Event × Disk))
        → previous_of log ≡ log.last_hash
        → length log.last_hash ≡ 32
        → All WritesAll steps
        → (audit_all sha log steps).file ≡ log.file ++ chain_file log.last_hash (opened steps)
    unfolding audit_all opened chain_file
    audit_all-grows log [] ready l w = sym (append-nil log.file)
    audit_all-grows log ((e, disk) ∷ rest) ready l w = elim (Bool-cases disk.opens) [
      | inl done ↦
          rw (audit_log_event-opened log e disk ready done, audit_all, opened-open e disk rest done)
            (audit_all-grows (grown log e disk) rest refl (sha_length _) w.1
              ∙ rw (take_record e log.last_hash disk.written l (w.0 done)) (
                  append_assoc log.file (record_bytes sha e log.last_hash)
                    (chain_file (event_hash sha e log.last_hash) (opened rest))))
      | inr shut ↦
          rw (audit_log_event-shut log e disk shut, audit_all, opened-shut e disk rest shut)
            (audit_all-grows log rest ready l w.1)
    ]

    -- From a start, with a hash of 32 bytes and no short write, the file holds exactly the events whose
    -- `open` succeeded, in order, each record chained to the one before it by that record's hash, the
    -- first to zeros; an event whose `open` failed leaves no trace and does not break the chain.
    pub audit_all-file :
        (steps : List (Event × Disk))
        → All WritesAll steps
        → (audit_all sha fresh_log steps).file ≡ chain_file zero_hash (opened steps)
    unfolding fresh_log
    audit_all-file steps w = audit_all-grows fresh_log steps refl (unfold zero_hash in refl) w
