-- ===== src/Ring/Threads/Order.antt =====
-- src/mesh_sync.c: whatever the order of the steps, messages come out as they went in, and the two threads never
-- touch one slot at once.
use mathlib.Core.List.{append_assoc}
use gate.Base.{
  ℕ, ◌≤◌, ◌<◌, ◌≡◌, ◌≢◌, ◌↔◌, Option, none, some, refl, ap, sym, subst, ◌∙◌, List, [], ◌∷◌, ◌++◌,
  length, length-append, arith,
}
use gate.Ring.{RingMsg, RingPool, ring_capacity, advance, store, ring_init}
use gate.Ring.Refine.{Holds}
use gate.Ring.Threads.Invariant.{
  ProducerSees, First, ConsumerSees, Inv, Holds-store, Holds-grow, ConsumerSees-grow,
  ProducerSees-shrink, First-held, window_end, room_left, some_left,
}
use gate.Ring.Threads.{
  Producer, resting, called, writing, written, Consumer, waiting, reading, copied, System, Step,
  call_push, push_full, push_room, write_slot, write_head, pop_empty, pop_found, read_slot,
  write_tail, begin, Reach, start, later,
}

-- The consumer's last step takes the first message away.
take-Inv :
    (s : System) (msg : RingMsg) (q : List RingMsg)
    → s.sent ≡ s.taken ++ q
    → s.pool.head < ring_capacity
    → length q ≤ 1023
    → Holds s.pool.buffer s.pool.tail q s.pool.head
    → ProducerSees s.pool q s.producer
    → First q msg
    → Inv (record s {
      pool = record s.pool { tail = advance s.pool.tail };
      consumer = waiting;
      taken = s.taken ++ msg ∷ [];
    })
take-Inv s msg [] order hs short holds p first = absurd first
take-Inv s msg (x ∷ q) order hs short holds p first = record {
  between = q;
  order = order ∙ ap (λ m. s.taken ++ m ∷ q) first ∙ sym (append_assoc s.taken (msg ∷ []) q);
  head_small = hs;
  tail_small = omega arith;
  short = omega arith;
  holds = holds.1;
  producer = ProducerSees-shrink s.pool (advance s.pool.tail) x q s.producer p;
  consumer = tt;
}

store-at : (buffer : ℕ → RingMsg) (i : ℕ) (msg : RingMsg) → store buffer i msg i ≡ msg
store-at buffer i msg = ground arith

Step-Inv : {s t : System} → Step s t → Inv s → Inv t
Step-Inv (call_push msg e) v = record {
  between = v.between;
  order = v.order;
  head_small = v.head_small;
  tail_small = v.tail_small;
  short = v.short;
  holds = v.holds;
  producer = tt;
  consumer = v.consumer;
}
Step-Inv (push_full msg e full) v = record {
  between = v.between;
  order = v.order;
  head_small = v.head_small;
  tail_small = v.tail_small;
  short = v.short;
  holds = v.holds;
  producer = tt;
  consumer = v.consumer;
}
Step-Inv (push_room msg e room) v = record {
  between = v.between;
  order = v.order;
  head_small = v.head_small;
  tail_small = v.tail_small;
  short = v.short;
  holds = v.holds;
  producer = room_left v room;
  consumer = v.consumer;
}
Step-Inv {s} (write_slot msg e) v =
    let room = subst (ProducerSees s.pool v.between) e v.producer in
    record {
      between = v.between;
      order = v.order;
      head_small = v.head_small;
      tail_small = v.tail_small;
      short = v.short;
      holds =
          Holds-store s.pool.buffer s.pool.tail v.between s.pool.head msg v.tail_small (omega arith)
            v.holds;
      producer = (room, store-at s.pool.buffer s.pool.head msg);
      consumer = v.consumer;
    }
Step-Inv {s} (write_head msg e) v =
    let ready = subst (ProducerSees s.pool v.between) e v.producer in
    record {
      between = v.between ++ msg ∷ [];
      order = ap (λ l. l ++ msg ∷ []) v.order ∙ append_assoc s.taken v.between (msg ∷ []);
      head_small = omega arith;
      tail_small = v.tail_small;
      short = omega (arith, length-append v.between (msg ∷ []), ready.0);
      holds = Holds-grow s.pool.buffer s.pool.tail v.between s.pool.head msg v.holds ready.1;
      producer = tt;
      consumer = ConsumerSees-grow v.between msg s.consumer v.consumer;
    }
Step-Inv (pop_empty e empty) v = v
Step-Inv (pop_found e found) v = record {
  between = v.between;
  order = v.order;
  head_small = v.head_small;
  tail_small = v.tail_small;
  short = v.short;
  holds = v.holds;
  producer = v.producer;
  consumer = some_left v found;
}
Step-Inv {s} (read_slot e) v =
    let some = subst (ConsumerSees v.between) e v.consumer in
    record {
      between = v.between;
      order = v.order;
      head_small = v.head_small;
      tail_small = v.tail_small;
      short = v.short;
      holds = v.holds;
      producer = v.producer;
      consumer = First-held s.pool.buffer s.pool.tail v.between s.pool.head v.holds some;
    }
Step-Inv {s} (write_tail msg e) v =
    take-Inv s msg v.between v.order v.head_small v.short v.holds v.producer
      (subst (ConsumerSees v.between) e v.consumer)

begin-Inv : (pool : RingPool) → Inv (begin pool)
unfolding ring_init
begin-Inv pool = record {
  between = [];
  order = refl;
  head_small = omega arith;
  tail_small = omega arith;
  short = omega arith;
  holds = refl;
  producer = tt;
  consumer = tt;
}

pub Reach-Inv : {pool : RingPool} {s : System} → Reach pool s → Inv s
Reach-Inv {pool} start = begin-Inv pool
Reach-Inv (later r step) = Step-Inv step (Reach-Inv r)

-- The slot that a thread is about to touch.
abbrev pub writes_slot : System → Producer → Option ℕ
writes_slot s (writing msg) = some s.pool.head
writes_slot s _ = none

abbrev pub reads_slot : System → Consumer → Option ℕ
reads_slot s reading = some s.pool.tail
reads_slot s _ = none

abbrev pub Apart : Option ℕ → Option ℕ → Type 0
Apart (some i) (some j) = i ≢ j
Apart _ _ = Unit {0}

slots-Apart :
    {s : System} (p : Producer) (c : Consumer) (v : Inv s)
    → ProducerSees s.pool v.between p
    → ConsumerSees v.between c
    → Apart (writes_slot s p) (reads_slot s c)
slots-Apart (writing msg) reading v room left = omega (arith, window_end v, v.tail_small)
slots-Apart (writing msg) waiting v room left = tt
slots-Apart (writing msg) (copied m) v room left = tt
slots-Apart resting c v room left = tt
slots-Apart (called msg) c v room left = tt
slots-Apart (written msg) c v room left = tt

-- In every order of the steps of one producer and one consumer, at every moment: the messages taken are the
-- first of those sent, in the same order, none lost, doubled or changed, with at most 1023 between; the
-- test for an empty ring holds exactly when there are none between, and that for a full ring exactly
-- when there are 1023; and the slot that the producer is about to write is never the one that the
-- consumer is about to read.
pub reached-InOrder :
    (pool : RingPool) (s : System)
    → Reach pool s
    → (between : List RingMsg) × (s.sent ≡ s.taken ++ between)
      × (length between ≤ 1023)
      × ((s.pool.tail ≡ s.pool.head) ↔ (length between ≡ 0))
      × ((advance s.pool.head ≡ s.pool.tail) ↔ (length between ≡ 1023))
      × Apart (writes_slot s s.producer) (reads_slot s s.consumer)
reached-InOrder pool s r =
    let v = Reach-Inv r in
    let at = window_end v in
    let le = v.short in
    let lt = v.tail_small in
    (
      v.between,
      v.order,
      v.short,
      (λ h. omega (arith, at, le, lt, h), λ h. omega (arith, at, lt, h)),
      (λ h. omega (arith, at, le, lt, h), λ h. omega (arith, at, lt, h)),
      slots-Apart s.producer s.consumer v v.producer v.consumer,
    )
