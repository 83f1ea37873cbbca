-- ===== src/Ring.antt =====
-- src/mesh_sync.c: the ring of messages between a producer and a consumer.
pub mod Refine
pub mod Threads
mod Examples
use gate.Base.{
  ℕ, zero, suc, ◌+◌, ◌%◌, ◌^◌, Bool, true, false, Bytes, ◌==◌, if◌then◌else◌, u32, List, [], ◌∷◌,
}

abbrev pub ring_capacity : ℕ
ring_capacity = 1024

-- `ring_msg_t`; `size` is its field `length`.
pub record RingMsg : Type 0 where
  pub id : ℕ
  pub size : ℕ
  pub data_bytes : Bytes

-- `ring_pool_t`; the buffer is a function of the index.
pub record RingPool : Type 0 where
  pub head : ℕ
  pub tail : ℕ
  pub buffer : ℕ → RingMsg

-- (n + 1) & (RING_CAPACITY - 1) on a uint32_t: the capacity is a power of two.
abbrev pub advance : ℕ → ℕ
advance n = u32 (n + 1) % ring_capacity

-- The buffer is left as it was.
unfoldable pub ring_init : RingPool → RingPool
ring_init pool = record pool { head = 0; tail = 0 }

abbrev pub store : (ℕ → RingMsg) → ℕ → RingMsg → ℕ → RingMsg
store buffer i m j = if i == j then m else buffer j

unfoldable pub ring_push : RingPool → RingMsg → Bool × RingPool
ring_push pool msg =
    let next_head = advance pool.head in
    if next_head == pool.tail
    then (false, pool)
    else (true, record pool { buffer = store pool.buffer pool.head msg; head = next_head })

-- The second part is what `*msg` holds afterwards, `msg` being what it held before.
unfoldable pub ring_pop : RingPool → RingMsg → Bool × RingMsg × RingPool
ring_pop pool msg =
    if pool.tail == pool.head
    then (false, msg, pool)
    else (true, pool.buffer pool.tail, record pool { tail = advance pool.tail })

-- One call: a push of a message, or a pop into a message.
pub data RingCall : Type 0 where
  push : RingMsg → RingCall
  pop : RingMsg → RingCall

-- What a caller sees: what the call returned, and what `*msg` holds.
unfoldable pub ring_call : RingPool → RingCall → (Bool × RingMsg) × RingPool
ring_call pool (push msg) = let done = ring_push pool msg in ((done.0, msg), done.1)
ring_call pool (pop msg) = let done = ring_pop pool msg in ((done.0, done.1), done.2)

pub ring_calls : RingPool → List RingCall → List (Bool × RingMsg)
ring_calls pool [] = []
ring_calls pool (c ∷ cs) = let done = ring_call pool c in done.0 ∷ ring_calls done.1 cs
