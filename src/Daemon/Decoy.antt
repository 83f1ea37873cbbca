-- ===== src/Daemon/Decoy.antt =====
-- gate0_daemon.c: what clients that send no complete command get, and what the table keeps of them.
use gate.Base.{
  ℕ, ◌+◌, ◌<◌, ◌≡◌, refl, inl, inr, List, [], ◌∷◌, Option, none, some, Bytes, get_or, length, All,
  u32, Bool-cases, if◌then◌else◌, sub64, leb, arith,
}
use gate.Shadow.{
  SockAddr, ShadowEntry, Table, AttackPattern, malformed, blank, decoy_bytes, new_entry,
  shadow_lookup, shadow_register, shadow_feed_decoy, shadow_evict_expired,
}
use gate.Shadow.Evict.{shadow_evict_expired-one}
use gate.Daemon.{
  Evaluate, Client, Loop, Ready, tcp, tcp_failed, unix, signed_command_len, evict_interval_ns,
  answer, decoy_client, decoy_reply, handle_tcp_client, serve_ready, round, rounds,
}

-- The daemon's table: empty, or one active entry.
abbrev pub IsSingle : Table → Type 0
IsSingle [] = Unit {0}
IsSingle (e ∷ []) = e.shadow_active ≡ 1
IsSingle (e ∷ f ∷ rest) = ⊥

-- Less than a whole command was received, or `recv` failed.
abbrev pub IsShort : Client → Type 0
IsShort c = elim c.received [ none ↦ Unit | some buf ↦ length buf < signed_command_len ]

decoy_client-Single :
    (t : Table) (peer : SockAddr) (p : AttackPattern) (now : ℕ)
    → IsSingle t
    → let r = decoy_client t peer p now in IsSingle r.1 × (decoy_reply r ≡ some decoy_bytes)
unfolding decoy_client decoy_reply shadow_lookup shadow_register shadow_feed_decoy new_entry
decoy_client-Single [] peer p now h = (refl, refl)
decoy_client-Single (e ∷ []) peer p now h = ground arith
decoy_client-Single (e ∷ f ∷ rest) peer p now h = absurd h

evict-Single : (t : Table) (now : ℕ) → IsSingle t → IsSingle (shadow_evict_expired t now)
unfolding shadow_evict_expired
evict-Single [] now h = tt
evict-Single (e ∷ []) now h = ground (arith, shadow_evict_expired-one e now)
evict-Single (e ∷ f ∷ rest) now h = absurd h

module _ (evaluate : Evaluate) (stale : Bytes) where
  answer-short :
      (t : Table) (peer : SockAddr) (buf : Bytes) (now : ℕ)
      → IsSingle t
      → length buf < signed_command_len
      → answer evaluate stale t peer buf now
        ≡ some (decoy_bytes, (decoy_client t peer malformed now).1)
  unfolding answer
  answer-short t peer buf now h short = ground (arith, decoy_client-Single t peer malformed now h)

  handle-short :
      (t : Table) (peer : SockAddr) (received : Option Bytes) (now : ℕ)
      → IsSingle t
      → IsShort (record { peer = peer; received = received })
      → handle_tcp_client evaluate stale t (record { peer = peer; received = received }) now
        ≡ some (decoy_bytes, (decoy_client t peer malformed now).1)
  unfolding handle_tcp_client
  handle-short t peer none now h short = answer-short t peer [] now h (omega arith)
  handle-short t peer (some buf) now h short = answer-short t peer buf now h short

  -- A connection that brings no complete command.
  abbrev pub IsShortReady : Ready → Type 0
  IsShortReady (tcp c now) = IsShort c
  IsShortReady tcp_failed = Unit {0}
  IsShortReady unix = Unit {0}

  -- The decoys that a list of connections is sent.
  abbrev pub decoys_for : List Ready → List Bytes
  decoys_for [] = []
  decoys_for (tcp c now ∷ rest) = decoy_bytes ∷ decoys_for rest
  decoys_for (tcp_failed ∷ rest) = decoys_for rest
  decoys_for (unix ∷ rest) = decoys_for rest

  serve_ready-short :
      (t : Table) (ready : List Ready)
      → IsSingle t
      → All IsShortReady ready
      → (t' : Table) × (serve_ready evaluate stale t ready ≡ some (decoys_for ready, t'))
        × IsSingle t'
  unfolding serve_ready
  serve_ready-short t [] h a = (t, refl, h)
  serve_ready-short t (tcp c now ∷ rest) h a =
      let t1 = (decoy_client t c.peer malformed now).1 in
      let (t2, e, h2) =
        serve_ready-short t1 rest (decoy_client-Single t c.peer malformed now h).0 a.1 in
      (t2, ground (arith, handle-short t c.peer c.received now h a.0, e), h2)
  serve_ready-short t (tcp_failed ∷ rest) h a = serve_ready-short t rest h a.1
  serve_ready-short t (unix ∷ rest) h a = serve_ready-short t rest h a.1

  -- One round in which no client brings a complete command: it does not fault, every TCP client is sent
  -- the decoy, and the table keeps at most one entry.
  round-short :
      (l : Loop) (now : ℕ) (ready : List Ready)
      → IsSingle l.table
      → All IsShortReady ready
      → (l' : Loop) × (round evaluate stale l now ready ≡ some (decoys_for ready, l'))
        × IsSingle l'.table
  unfolding round
  round-short l now ready h a =
      let due = leb evict_interval_ns (sub64 now l.last_evict) in
      let t = if due then shadow_evict_expired l.table now else l.table in
      let last = if due then now else l.last_evict in
      let single : IsSingle t = elim (Bool-cases due) [
        | inl d ↦ rw d (evict-Single l.table now h)
        | inr d ↦ rw d h
      ] in
      let (t', e, h') = serve_ready-short t ready single a in
      (record { table = t'; last_evict = last }, rw e, h')

  abbrev pub AllShort : List (ℕ × List Ready) → Type 0
  AllShort [] = Unit {0}
  AllShort ((now, ready) ∷ rest) = All IsShortReady ready × AllShort rest

  -- From a table of at most one active entry, as long as no client brings a complete command the
  -- daemon runs on, whatever connections come and when: no round faults, and the table of 256
  -- entries holds one at most.
  pub rounds-short :
      (l : Loop) (rs : List (ℕ × List Ready))
      → IsSingle l.table
      → AllShort rs
      → (l' : Loop) × (rounds evaluate stale l rs ≡ some l') × IsSingle l'.table
  unfolding rounds
  rounds-short l [] h a = (l, refl, h)
  rounds-short l ((now, ready) ∷ rest) h a =
      let (l1, e1, h1) = round-short l now ready h a.0 in
      let (l2, e2, h2) = rounds-short l1 rest h1 a.1 in (l2, ground (arith, e1, e2), h2)

-- So attackers are not told apart: once the table holds an entry, a bad client from any other address
-- is counted as one more attempt of that entry's address, and gets no entry of its own.
pub decoy_client-blames_first :
    (e : ShadowEntry) (rest : Table) (peer : SockAddr) (p : AttackPattern) (now : ℕ)
    → let (se, t') = decoy_client (e ∷ rest) peer p now in
      let first = get_or t' 0 blank in
      (se ≡ some 0)
      × (length t' ≡ length (e ∷ rest))
      × (first.attacker_addr ≡ e.attacker_addr)
      × (first.pattern ≡ e.pattern)
      × (first.attempt_count ≡ u32 (e.attempt_count + 1))
unfolding decoy_client shadow_lookup shadow_feed_decoy
decoy_client-blames_first e rest peer p now = ground arith
