-- ===== src/Wal/Chain.antt =====
-- src/wal.c: what a series of appends leaves in the buffer.
use mathlib.Core.List.{append_assoc, append-nil}
use gate.Base.{
  ℕ, ◌+◌, ◌%◌, ◌≤◌, ◌<◌, ◌≡◌, refl, ap, ap₂, sym, subst, ◌∙◌, true, List, [], ◌∷◌, ◌++◌, Bytes,
  length, length-append, le_bytes, replicate, take, arith,
}
use gate.Wal.{
  Sha, WalRecord, Wal, Entry, wal_capacity, zero_sha, wal_init, filled, wal_append, append_all,
  update, zero_record, hashed_part,
}

-- The hash of a record that is written over a blank one: of its number, its time, the hash before it and the 16
-- zeros that stand where the first half of its own hash comes to stand.
abbrev pub blank_hash : Sha → ℕ → ℕ → Bytes → Bytes
blank_hash sha i time prev = sha (le_bytes 8 i ++ (le_bytes 8 time ++ (prev ++ replicate 16 0)))

-- From index `i` on the records hold these entries, numbered in order, each linked by its `prev_hash`
-- to the record before it, the first to `prev`, and with its hash.
abbrev pub Linked : Sha → (ℕ → WalRecord) → ℕ → Bytes → List Entry → Type 0
Linked sha slot i prev [] = Unit {0}
Linked sha slot i prev (e ∷ rest) =
    ((slot i).sequence ≡ i)
    × ((slot i).timestamp_ns ≡ e.timestamp_ns)
    × ((slot i).agent_id ≡ e.agent_id)
    × ((slot i).action_code ≡ e.action_code)
    × ((slot i).result ≡ e.result)
    × ((slot i).prev_hash ≡ prev)
    × ((slot i).entry_hash ≡ blank_hash sha i e.timestamp_ns prev)
    × Linked sha slot (i + 1) (slot i).entry_hash rest

-- The entry hash of the last of these records.
abbrev pub last_hash : (ℕ → WalRecord) → ℕ → Bytes → List Entry → Bytes
last_hash slot i prev [] = prev
last_hash slot i prev (e ∷ rest) = last_hash slot (i + 1) (slot i).entry_hash rest

Linked-snoc :
    (sha : Sha) (slot : ℕ → WalRecord) (i : ℕ) (prev : Bytes) (es : List Entry) (r : WalRecord)
    (e : Entry) (k : ℕ)
    → Linked sha slot i prev es
    → k ≡ i + length es
    → r.sequence ≡ k
    → r.timestamp_ns ≡ e.timestamp_ns
    → r.agent_id ≡ e.agent_id
    → r.action_code ≡ e.action_code
    → r.result ≡ e.result
    → r.prev_hash ≡ last_hash slot i prev es
    → r.entry_hash ≡ blank_hash sha k e.timestamp_ns (last_hash slot i prev es)
    → Linked sha (update slot k r) i prev (es ++ (e ∷ []))
      × (last_hash (update slot k r) i prev (es ++ (e ∷ [])) ≡ r.entry_hash)
Linked-snoc sha slot i prev [] r e k l q s t a c z p h = ground arith
Linked-snoc sha slot i prev (x ∷ es) r e k l q s t a c z p h =
    ground (arith, Linked-snoc sha slot (i + 1) (slot i).entry_hash es r e k)

update-other : (slot : ℕ → WalRecord) (i j : ℕ) (r : WalRecord) → i < j → update slot i r j ≡ slot j
update-other slot i j r lt = ground arith

module _ (sha : Sha) where
  filled_lem :
      (old : WalRecord) (head : ℕ) (latest : Bytes) (e : Entry)
      → old.entry_hash ≡ zero_sha
      → (filled sha old head latest e).entry_hash ≡ blank_hash sha head e.timestamp_ns latest
  unfolding filled hashed_part zero_sha
  filled_lem old head latest e blank =
      ap (λ h. sha (le_bytes 8 head ++ (le_bytes 8 e.timestamp_ns ++ (latest ++ take 16 h)))) blank

  -- A log of these entries that has not gone round the buffer.
  pub record IsLog (w : Wal) (es : List Entry) : Type 0 where
    pub ready : w.initialized ≡ true
    pub counted : w.head ≡ length es
    pub linked : Linked sha w.slot 0 zero_sha es
    pub unused : (i : ℕ) → length es ≤ i → (w.slot i).entry_hash ≡ zero_sha
    pub ends : w.latest ≡ last_hash w.slot 0 zero_sha es

  pub wal_init-IsLog : IsLog wal_init []
  unfolding wal_init zero_record
  wal_init-IsLog = record {
    ready = refl;
    counted = refl;
    linked = tt;
    unused = λ i le. refl;
    ends = refl;
  }

  wal_append-IsLog :
      (w : Wal) (es : List Entry) (e : Entry)
      → IsLog w es
      → length es < wal_capacity
      → IsLog (wal_append sha w e) (es ++ (e ∷ []))
  unfolding wal_append
  wal_append-IsLog w es e v lt =
      let idx = w.head % wal_capacity in
      let r = filled sha (w.slot idx) w.head w.latest e in
      let at : idx ≡ length es = omega (arith, v.counted) in
      let hashed = filled_lem (w.slot idx) w.head w.latest e (v.unused idx (omega (arith, at))) in
      let next =
        Linked-snoc sha w.slot 0 zero_sha es r e idx v.linked (omega (arith, at))
          (unfold filled in (v.counted ∙ sym at)) (unfold filled in refl) (unfold filled in refl)
          (unfold filled in refl) (unfold filled in refl) (unfold filled in v.ends)
          (hashed
            ∙ ap₂ (λ k prev. blank_hash sha k e.timestamp_ns prev) (v.counted ∙ sym at) v.ends) in
      rw v.ready (record {
        ready = refl;
        counted = omega (arith, v.counted, length-append es (e ∷ []));
        linked = next.0;
        unused = λ i le.
            let later : idx < i = omega (arith, at, length-append es (e ∷ []), le) in
            ap (λ q. q.entry_hash) (update-other w.slot idx i r later)
            ∙ v.unused i (omega (arith, at, later));
        ends = sym next.1;
      })

  append_all-IsLog :
      (w : Wal) (es rest : List Entry)
      → IsLog w es
      → length es + length rest ≤ wal_capacity
      → IsLog (append_all sha w rest) (es ++ rest)
  unfolding append_all
  append_all-IsLog w es [] v lt = rw append-nil v
  append_all-IsLog w es (e ∷ rest) v lt =
      subst (IsLog (append_all sha (wal_append sha w e) rest)) (append_assoc es (e ∷ []) rest) (
        append_all-IsLog (wal_append sha w e) (es ++ (e ∷ [])) rest
          (wal_append-IsLog w es e v (omega arith)) (omega (arith, length-append es (e ∷ []))))

  -- Up to the capacity of 65536, the log holds exactly the entries appended, numbered from 0 in order,
  -- each with its arguments, and each linked to the record before it by that record's hash, the
  -- first to 32 zero bytes; and that hash is SHA-256 of the record's number, its time, the hash
  -- before it and 16 zero bytes.
  pub append_all-Linked :
      (es : List Entry)
      → length es ≤ wal_capacity
      → let w = append_all sha wal_init es in
        Linked sha w.slot 0 zero_sha es
        × (w.head ≡ length es)
        × (w.latest ≡ last_hash w.slot 0 zero_sha es)
  append_all-Linked es lt =
      let v = append_all-IsLog wal_init [] es wal_init-IsLog (omega arith) in
      (v.linked, v.counted, v.ends)
