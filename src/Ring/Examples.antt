-- ===== src/Ring/Examples.antt =====
-- src/mesh_sync.c: calls at concrete values.
use gate.Base.{ℕ, ◌≡◌, ◌≤◌, ◌↔◌, ◌++◌, length, refl, arith, [], ◌∷◌, List}
use gate.Ring.Threads.{
  System, called, copied, Reach, start, later, call_push, push_room, write_slot, write_head,
  pop_empty, pop_found, read_slot,
}
use gate.Ring.Threads.Order.{Apart, writes_slot, reads_slot, reached-InOrder}
use gate.Ring.{advance, store, RingMsg, RingPool, RingCall, push, pop, ring_init, ring_calls}
use gate.Ring.Refine.{queue_calls, ring_calls-queue}

abbrev msg : ℕ → RingMsg
msg n = record { id = n; size = 2; data_bytes = n ∷ n ∷ [] }

abbrev pool : RingPool
pool = record { head = 9; tail = 4; buffer = λ i. msg 0 }

abbrev calls : List RingCall
calls = push (msg 1) ∷ push (msg 2) ∷ pop (msg 0) ∷ pop (msg 0) ∷ pop (msg 0) ∷ []

ring_calls-queue_example : ring_calls (ring_init pool) calls ≡ queue_calls [] calls
ring_calls-queue_example = ring_calls-queue pool calls

-- One message sent, while the consumer has tried once in vain and is now about to take it.
abbrev halfway : System
halfway = record {
  pool = record { head = 1; tail = 0; buffer = store pool.buffer 0 (msg 1) };
  producer = called (msg 2);
  consumer = copied (msg 1);
  sent = msg 1 ∷ [];
  taken = [];
}

halfway-Reach : Reach pool halfway
unfolding ring_init
halfway-Reach =
    later
      (later
        (later
          (later
            (later
              (later
                (later (later start (call_push (msg 1) refl))
                  (push_room (msg 1) refl (omega arith)))
                (pop_empty refl refl))
              (write_slot (msg 1) refl))
            (write_head (msg 1) refl))
          (pop_found refl (omega arith)))
        (call_push (msg 2) refl))
      (read_slot refl)

reached-InOrder_example :
    (between : List RingMsg) × (halfway.sent ≡ halfway.taken ++ between)
    × (length between ≤ 1023)
    × ((halfway.pool.tail ≡ halfway.pool.head) ↔ (length between ≡ 0))
    × ((advance halfway.pool.head ≡ halfway.pool.tail) ↔ (length between ≡ 1023))
    × Apart (writes_slot halfway halfway.producer) (reads_slot halfway halfway.consumer)
reached-InOrder_example = reached-InOrder pool halfway halfway-Reach
