-- ===== src/Ring/Threads/Invariant.antt =====
-- src/mesh_sync.c: what holds between any two steps, and what each thread may rely on while the other moves.
use gate.Base.{
  ℕ, ◌+◌, ◌%◌, ◌≤◌, ◌<◌, ◌≡◌, ◌≢◌, ap, sym, ◌∙◌, List, [], ◌∷◌, ◌++◌, length, length-append, arith,
}
use gate.Ring.{RingMsg, RingPool, ring_capacity, advance, store}
use gate.Ring.Refine.{Holds, Holds-end}
use gate.Ring.Threads.{
  Producer, resting, called, writing, written, Consumer, waiting, reading, copied, System,
}

-- What each thread may rely on, of the messages `q` between them.
abbrev pub ProducerSees : RingPool → List RingMsg → Producer → Type 0
ProducerSees pool q resting = Unit {0}
ProducerSees pool q (called msg) = Unit {0}
ProducerSees pool q (writing msg) = length q < 1023
ProducerSees pool q (written msg) = (length q < 1023) × (pool.buffer pool.head ≡ msg)

abbrev pub First : List RingMsg → RingMsg → Type 0
First [] m = ⊥
First (x ∷ q) m = x ≡ m

abbrev pub ConsumerSees : List RingMsg → Consumer → Type 0
ConsumerSees q waiting = Unit {0}
ConsumerSees q reading = 0 < length q
ConsumerSees q (copied msg) = First q msg

pub record Inv (s : System) : Type 0 where
  pub between : List RingMsg
  pub order : s.sent ≡ s.taken ++ between
  pub head_small : s.pool.head < ring_capacity
  pub tail_small : s.pool.tail < ring_capacity
  pub short : length between ≤ 1023
  pub holds : Holds s.pool.buffer s.pool.tail between s.pool.head
  pub producer : ProducerSees s.pool between s.producer
  pub consumer : ConsumerSees between s.consumer

-- A store behind a window that does not fill the ring leaves it.
pub Holds-store :
    (buffer : ℕ → RingMsg) (i : ℕ) (q : List RingMsg) (end : ℕ) (msg : RingMsg)
    → i < ring_capacity
    → length q < ring_capacity
    → Holds buffer i q end
    → Holds (store buffer end msg) i q end
Holds-store buffer i [] end msg lt small h = h
Holds-store buffer i (x ∷ q) end msg lt small h =
    let at : _ = Holds-end buffer (advance i) q end (omega arith) h.1 in
    let apart : end ≢ i = omega (arith, at) in
    let rest : _ = Holds-store buffer (advance i) q end msg (omega arith) (omega arith) h.1 in
    (ground arith, rest)

-- The window grows by the slot at its end.
pub Holds-grow :
    (buffer : ℕ → RingMsg) (i : ℕ) (q : List RingMsg) (end : ℕ) (msg : RingMsg)
    → Holds buffer i q end
    → buffer end ≡ msg
    → Holds buffer i (q ++ msg ∷ []) (advance end)
Holds-grow buffer i [] end msg h e = (ap buffer h ∙ e, ap advance h)
Holds-grow buffer i (x ∷ q) end msg h e = (h.0, Holds-grow buffer (advance i) q end msg h.1 e)

module _ {s : System} (v : Inv s) where
  pub window_end : s.pool.head ≡ (s.pool.tail + length v.between) % ring_capacity
  window_end = Holds-end s.pool.buffer s.pool.tail v.between s.pool.head v.tail_small v.holds

  pub room_left : advance s.pool.head ≢ s.pool.tail → length v.between < 1023
  room_left h = let le = v.short in omega (arith, window_end, h)

  pub some_left : s.pool.tail ≢ s.pool.head → 0 < length v.between
  some_left h = let le = v.short in omega (arith, window_end, h)

-- What a thread relies on stays when the other one moves.
pub ConsumerSees-grow :
    (q : List RingMsg) (msg : RingMsg) (c : Consumer)
    → ConsumerSees q c
    → ConsumerSees (q ++ msg ∷ []) c
ConsumerSees-grow q msg waiting h = tt
ConsumerSees-grow q msg reading h = omega (arith, length-append q (msg ∷ []))
ConsumerSees-grow [] msg (copied m) h = absurd h
ConsumerSees-grow (x ∷ q) msg (copied m) h = h

pub ProducerSees-shrink :
    (pool : RingPool) (tail : ℕ) (x : RingMsg) (q : List RingMsg) (p : Producer)
    → ProducerSees pool (x ∷ q) p
    → ProducerSees (record pool { tail = tail }) q p
ProducerSees-shrink pool tail x q resting h = tt
ProducerSees-shrink pool tail x q (called msg) h = tt
ProducerSees-shrink pool tail x q (writing msg) h = omega arith
ProducerSees-shrink pool tail x q (written msg) h = (omega (arith, h.0), h.1)

pub First-held :
    (buffer : ℕ → RingMsg) (i : ℕ) (q : List RingMsg) (end : ℕ)
    → Holds buffer i q end
    → 0 < length q
    → First q (buffer i)
First-held buffer i [] end h pos = absurd (omega arith)
First-held buffer i (x ∷ q) end h pos = sym h.0
