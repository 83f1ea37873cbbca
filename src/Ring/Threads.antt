-- ===== src/Ring/Threads.antt =====
-- src/mesh_sync.c with a producer and a consumer that run at the same time: each access to what they share is a
-- step, and the steps of the two come in any order. The accesses of a thread happen in the order of
-- its program; each index is written by one thread only, so that a thread's reads of its own index give
-- what it holds.
pub mod Invariant
pub mod Order
use gate.Base.{ℕ, ◌+◌, ◌≡◌, ◌≢◌, List, [], ◌∷◌, ◌++◌}
use gate.Ring.{RingMsg, RingPool, advance, store, ring_init}

-- Where the producer stands in `ring_push`.
pub data Producer : Type 0 where
  resting : Producer
  called : RingMsg → Producer  -- before it reads `tail`
  writing : RingMsg → Producer  -- before it writes the slot
  written : RingMsg → Producer  -- before it writes `head`

-- Where the consumer stands in `ring_pop`.
pub data Consumer : Type 0 where
  waiting : Consumer  -- before it reads `head`
  reading : Consumer  -- before it reads the slot
  copied : RingMsg → Consumer  -- before it writes `tail`

-- `sent` are the messages whose push has succeeded, `taken` those that a pop has given, in order.
pub record System : Type 0 where
  pub pool : RingPool
  pub producer : Producer
  pub consumer : Consumer
  pub sent : List RingMsg
  pub taken : List RingMsg

pub data Step (s : System) : System → Type 0 where
  call_push : (msg : RingMsg) → s.producer ≡ resting → Step s (record s { producer = called msg })
  push_full :
      (msg : RingMsg)
      → s.producer ≡ called msg
      → advance s.pool.head ≡ s.pool.tail
      → Step s (record s { producer = resting })
  push_room :
      (msg : RingMsg)
      → s.producer ≡ called msg
      → advance s.pool.head ≢ s.pool.tail
      → Step s (record s { producer = writing msg })
  write_slot :
      (msg : RingMsg)
      → s.producer ≡ writing msg
      → Step s (record s {
        pool = record s.pool { buffer = store s.pool.buffer s.pool.head msg };
        producer = written msg;
      })
  write_head :
      (msg : RingMsg)
      → s.producer ≡ written msg
      → Step s (record s {
        pool = record s.pool { head = advance s.pool.head };
        producer = resting;
        sent = s.sent ++ msg ∷ [];
      })
  pop_empty : s.consumer ≡ waiting → s.pool.tail ≡ s.pool.head → Step s s
  pop_found :
      s.consumer ≡ waiting → s.pool.tail ≢ s.pool.head → Step s (record s { consumer = reading })
  read_slot :
      s.consumer ≡ reading → Step s (record s { consumer = copied (s.pool.buffer s.pool.tail) })
  write_tail :
      (msg : RingMsg)
      → s.consumer ≡ copied msg
      → Step s (record s {
        pool = record s.pool { tail = advance s.pool.tail };
        consumer = waiting;
        taken = s.taken ++ msg ∷ [];
      })

-- After `ring_init`, with any buffer.
abbrev pub begin : RingPool → System
begin pool = record {
  pool = ring_init pool;
  producer = resting;
  consumer = waiting;
  sent = [];
  taken = [];
}

pub data Reach (pool : RingPool) : System → Type 0 where
  start : Reach pool (begin pool)
  later : {s t : System} → Reach pool s → Step s t → Reach pool t
