-- ===== src/Telemetry/Latest.antt =====
-- src/telemetry.c: which samples the ring holds.
use mathlib.Core.List.{append_assoc, append-nil}
use gate.Base.{
  ℕ, zero, suc, ◌+◌, ◌%◌, ◌≤◌, ◌<◌, ◌≡◌, ◌≢◌, refl, sym, subst, ◌⊎◌, inl, inr, true, false, List,
  [], ◌∷◌, ◌++◌, get_or, length, length-append, leb, ◌==◌, if◌then◌else◌, arith,
}
use gate.Command.{ok}
use gate.Telemetry.{
  TelemetryRing, Sample, telemetry_ring_size, telemetry_buffer, telemetry_push, push_all,
}

abbrev pub no_sample : Sample
no_sample = record { timestamp_ns = 0; result = ok }

-- The ring after these samples: each of the latest 1024 is in its slot, and from `tail` to `head` the
-- ring reads as many as there are.
pub record Keeps (r : TelemetryRing) (xs : List Sample) : Type 0 where
  pub head_at : r.head ≡ length xs % telemetry_ring_size
  pub full_at : r.full ≡ leb telemetry_ring_size (length xs)
  pub tail_at :
      r.tail ≡ (if leb telemetry_ring_size (length xs) then length xs % telemetry_ring_size else 0)
  pub timestamp_at :
      (i : ℕ)
      → i < length xs
      → length xs ≤ i + telemetry_ring_size
      → r.timestamps (i % telemetry_ring_size) ≡ (get_or xs i no_sample).timestamp_ns
  pub result_at :
      (i : ℕ)
      → i < length xs
      → length xs ≤ i + telemetry_ring_size
      → r.results (i % telemetry_ring_size) ≡ (get_or xs i no_sample).result

get_or-snoc_old :
    (xs : List Sample) (x : Sample) (i : ℕ)
    → i < length xs
    → get_or (xs ++ (x ∷ [])) i no_sample ≡ get_or xs i no_sample
get_or-snoc_old [] x i lt = absurd (omega arith)
get_or-snoc_old (y ∷ xs) x zero lt = refl
get_or-snoc_old (y ∷ xs) x (suc i) lt = get_or-snoc_old xs x i (omega arith)

get_or-snoc_new :
    (xs : List Sample) (x : Sample) (i : ℕ)
    → i ≡ length xs
    → get_or (xs ++ (x ∷ [])) i no_sample ≡ x
get_or-snoc_new [] x zero e = refl
get_or-snoc_new [] x (suc i) e = absurd (omega (arith, e))
get_or-snoc_new (y ∷ xs) x zero e = absurd (omega (arith, e))
get_or-snoc_new (y ∷ xs) x (suc i) e = get_or-snoc_new xs x i (omega (arith, e))

-- The slots of two of the latest samples differ.
slot_apart :
    (n i : ℕ)
    → i < n
    → n + 1 ≤ i + telemetry_ring_size
    → n % telemetry_ring_size ≢ i % telemetry_ring_size
slot_apart n i lt near = omega arith

newest_or_older : (n i : ℕ) → i < n + 1 → (i ≡ n) ⊎ (i < n)
newest_or_older n i lt = omega arith

module _ (r : TelemetryRing) (xs : List Sample) (x : Sample) (v : Keeps r xs) where
  abbrev after : TelemetryRing
  after = telemetry_push r x.timestamp_ns x.result

  Pushed : ℕ → Type 0
  Pushed i =
      (after.timestamps (i % telemetry_ring_size)
        ≡ (get_or (xs ++ (x ∷ [])) i no_sample).timestamp_ns)
      × (after.results (i % telemetry_ring_size) ≡ (get_or (xs ++ (x ∷ [])) i no_sample).result)

  Pushed-new : (i : ℕ) → i ≡ length xs → Pushed i
  unfolding Pushed telemetry_push
  Pushed-new i e =
      let here : (r.head == i % telemetry_ring_size) ≡ true = ground (arith, v.head_at) in
      rw (here, get_or-snoc_new xs x i e) (refl, refl)

  Pushed-old : (i : ℕ) → i < length xs → length xs + 1 ≤ i + telemetry_ring_size → Pushed i
  unfolding Pushed telemetry_push
  Pushed-old i lt near =
      let elsewhere : (r.head == i % telemetry_ring_size) ≡ false =
        ground (arith, v.head_at, slot_apart (length xs) i lt near) in
      rw (elsewhere, get_or-snoc_old xs x i lt)
        (v.timestamp_at i lt (omega arith), v.result_at i lt (omega arith))

  Pushed-each : (i : ℕ) → i < length xs + 1 → length xs + 1 ≤ i + telemetry_ring_size → Pushed i
  Pushed-each i lt near = elim (newest_or_older (length xs) i lt) [
    | inl e ↦ Pushed-new i e
    | inr older ↦ Pushed-old i older near
  ]

  telemetry_push-Keeps : Keeps after (xs ++ (x ∷ []))
  unfolding Pushed telemetry_push
  telemetry_push-Keeps =
      let size : length (xs ++ (x ∷ [])) ≡ length xs + 1 = length-append xs (x ∷ []) in
      record {
        head_at = omega (arith, size, v.head_at);
        full_at = ground (arith, size, v.head_at, v.full_at, v.tail_at);
        tail_at = ground (arith, size, v.head_at, v.full_at, v.tail_at);
        timestamp_at = λ i lt near. (Pushed-each i (omega (arith, size)) (omega (arith, size))).0;
        result_at = λ i lt near. (Pushed-each i (omega (arith, size)) (omega (arith, size))).1;
      }

push_all-Keeps :
    (r : TelemetryRing) (xs ys : List Sample) → Keeps r xs → Keeps (push_all r ys) (xs ++ ys)
unfolding push_all
push_all-Keeps r xs [] v = subst (Keeps r) (sym (append-nil xs)) v
push_all-Keeps r xs (y ∷ ys) v =
    subst (Keeps (push_all (telemetry_push r y.timestamp_ns y.result) ys))
      (append_assoc xs (y ∷ []) ys)
      (push_all-Keeps (telemetry_push r y.timestamp_ns y.result) (xs ++ (y ∷ [])) ys
        (telemetry_push-Keeps r xs y v))

-- After any series of pushes the ring holds the latest 1024 samples, or all of them while they are fewer,
-- each in the slot of its number; `full` says whether 1024 have come, `head` is the slot of the next one
-- and `tail` that of the oldest one held.
pub push_all-latest : (xs : List Sample) → Keeps (push_all telemetry_buffer xs) xs
unfolding telemetry_buffer
push_all-latest xs = push_all-Keeps telemetry_buffer [] xs (record {
  head_at = refl;
  full_at = refl;
  tail_at = refl;
  timestamp_at = λ i lt near. absurd (omega arith);
  result_at = λ i lt near. absurd (omega arith);
})
