-- ===== src/Ring/Refine.antt =====
-- src/mesh_sync.c: the ring beside a bounded first-in first-out queue.
use gate.Base.{
  ℕ, ◌+◌, ◌%◌, ◌≤◌, ◌<◌, ◌≡◌, ◌≢◌, refl, ap, Bool, true, false, not, inl, inr, Bool-cases, List, [],
  ◌∷◌, ◌++◌, length, length-append, ltb, ◌==◌, if◌then◌else◌, arith,
}
use gate.Ring.{
  RingMsg, RingPool, RingCall, push, pop, ring_capacity, advance, store, ring_init, ring_push,
  ring_pop, ring_call, ring_calls,
}

-- The queue: at most one message less than the capacity.
unfoldable pub queue_call : List RingMsg → RingCall → (Bool × RingMsg) × List RingMsg
queue_call q (push msg) =
    if ltb (length q) 1023 then ((true, msg), q ++ (msg ∷ [])) else ((false, msg), q)
queue_call [] (pop msg) = ((false, msg), [])
queue_call (x ∷ q) (pop msg) = ((true, x), q)

pub queue_calls : List RingMsg → List RingCall → List (Bool × RingMsg)
queue_calls q [] = []
queue_calls q (c ∷ cs) = let done = queue_call q c in done.0 ∷ queue_calls done.1 cs

-- From index `i` on the buffer holds these messages, and the index after them is `end`.
abbrev pub Holds : (ℕ → RingMsg) → ℕ → List RingMsg → ℕ → Type 0
Holds buffer i [] end = i ≡ end
Holds buffer i (x ∷ q) end = (buffer i ≡ x) × Holds buffer (advance i) q end

pub record Models (pool : RingPool) (q : List RingMsg) : Type 0 where
  pub head_small : pool.head < ring_capacity
  pub tail_small : pool.tail < ring_capacity
  pub short : length q ≤ 1023
  pub holds : Holds pool.buffer pool.tail q pool.head

-- The end of a window, counted.
pub Holds-end :
    (buffer : ℕ → RingMsg) (i : ℕ) (q : List RingMsg) (end : ℕ)
    → i < ring_capacity
    → Holds buffer i q end
    → end ≡ (i + length q) % ring_capacity
Holds-end buffer i [] end lt h = omega (arith, h)
Holds-end buffer i (x ∷ q) end lt h =
    let rest : _ = Holds-end buffer (advance i) q end (omega arith) h.1 in omega (arith, rest)

-- A message stored at the end of a window that does not fill the ring lies behind it.
Holds-snoc :
    (buffer : ℕ → RingMsg) (i : ℕ) (q : List RingMsg) (end : ℕ) (msg : RingMsg)
    → i < ring_capacity
    → length q < ring_capacity
    → Holds buffer i q end
    → Holds (store buffer end msg) i (q ++ (msg ∷ [])) (advance end)
Holds-snoc buffer i [] end msg lt small h = ground arith
Holds-snoc buffer i (x ∷ q) end msg lt small h =
    let at : _ = Holds-end buffer (advance i) q end (omega arith) h.1 in
    let apart : end ≢ i = omega (arith, at) in
    let rest : _ = Holds-snoc buffer (advance i) q end msg (omega arith) (omega arith) h.1 in
    (ground arith, rest)

-- The ring is full when 1023 messages are in it.
full_iff :
    (pool : RingPool) (q : List RingMsg)
    → Models pool q
    → (advance pool.head == pool.tail) ≡ not (ltb (length q) 1023)
full_iff pool q v =
    let at : _ = Holds-end pool.buffer pool.tail q pool.head v.tail_small v.holds in
    let le : _ = v.short in ground (arith, at, le)

ring_push-Models :
    (pool : RingPool) (q : List RingMsg) (msg : RingMsg)
    → Models pool q
    → length q < 1023
    → Models
        (record pool { buffer = store pool.buffer pool.head msg; head = advance pool.head })
        (q ++ (msg ∷ []))
ring_push-Models pool q msg v lt = record {
  head_small = omega arith;
  tail_small = v.tail_small;
  short = omega (arith, length-append q (msg ∷ []));
  holds = Holds-snoc pool.buffer pool.tail q pool.head msg v.tail_small (omega arith) v.holds;
}

ring_call-Models :
    (pool : RingPool) (q : List RingMsg) (c : RingCall)
    → Models pool q
    → ((ring_call pool c).0 ≡ (queue_call q c).0) × Models (ring_call pool c).1 (queue_call q c).1
unfolding ring_call queue_call ring_push ring_pop
ring_call-Models pool q (push msg) v = elim (Bool-cases (ltb (length q) 1023)) [
  | inl room ↦ rw (full_iff pool q v, room) (refl, ring_push-Models pool q msg v (ground arith))
  | inr full ↦ rw (full_iff pool q v, full) (refl, v)
]
ring_call-Models pool [] (pop msg) v =
    let e : pool.tail ≡ pool.head = v.holds in
    let t : (pool.tail == pool.head) ≡ true = ground arith in rw t (refl, v)
ring_call-Models pool (x ∷ q) (pop msg) v =
    let at : _ = Holds-end pool.buffer pool.tail (x ∷ q) pool.head v.tail_small v.holds in
    let le : _ = v.short in
    let t : (pool.tail == pool.head) ≡ false = ground (arith, at, le) in
    rw t (
      ap (λ m. (true, m)) v.holds.0,
      record {
        head_small = v.head_small;
        tail_small = omega arith;
        short = omega (arith, le);
        holds = v.holds.1;
      },
    )

ring_calls-Models :
    (pool : RingPool) (q : List RingMsg) (cs : List RingCall)
    → Models pool q
    → ring_calls pool cs ≡ queue_calls q cs
unfolding ring_calls queue_calls
ring_calls-Models pool q [] v = refl
ring_calls-Models pool q (c ∷ cs) v =
    let first : _ = ring_call-Models pool q c v in
    let rest : _ = ring_calls-Models (ring_call pool c).1 (queue_call q c).1 cs first.1 in
    rw (first.0, rest) refl

-- From `ring_init`, whatever the buffer held, every series of pushes and pops gives the answers and the
-- messages that a first-in first-out queue of 1023 places gives.
pub ring_calls-queue :
    (pool : RingPool) (cs : List RingCall) → ring_calls (ring_init pool) cs ≡ queue_calls [] cs
ring_calls-queue pool cs = ring_calls-Models (ring_init pool) [] cs (
    unfold ring_init in
    record {
      head_small = omega arith;
      tail_small = omega arith;
      short = omega arith;
      holds = refl;
    })
