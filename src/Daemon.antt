-- ===== src/Daemon.antt =====
-- gate0_daemon.c: the TCP side of the daemon and its main loop. Sockets are the inputs and outputs of
-- the functions; the UNIX side only accepts and closes. A null pointer that is read through is a
-- fault, `none`.
pub mod Decoy
pub mod Crash
mod Examples
use mathlib.Core.Option
use gate.Base.{
  ℕ, ◌+◌, ◌*◌, Bool, true, false, List, [], ◌∷◌, ◌++◌, Option, none, some, Bytes, ltb, leb, get_or,
  set, length, take, drop, if◌then◌else◌, u32, sub64,
}
use gate.Command
use gate.Command.{
  GateResult, ok, signature_invalid, sequence_invalid, SignedCommand, SenderRecord,
  SafetyInterlocks, result_code, Verify, decode_command,
}
use gate.Core
use gate.Shadow.{
  SockAddr, ShadowEntry, Table, AttackPattern, malformed, replay, sig_flood, blank, envelope_len,
  shadow_init, shadow_lookup, shadow_register, shadow_feed_decoy, shadow_evict_expired,
}

abbrev pub evict_interval_ns : ℕ
evict_interval_ns = 2000000000

-- `sizeof(SignedCommand)`
abbrev pub signed_command_len : ℕ
signed_command_len = 390

-- `evaluate_command` as the daemon calls it: on pointers, with the clock; `none` is a fault.
abbrev pub Evaluate : Type 0
Evaluate = SignedCommand → Option SenderRecord → Option SafetyInterlocks → ℕ → Option GateResult

-- src/core.c on pointers: its first statement reads the interlocks, the second one the sender.
unfoldable pub core_evaluate : Verify → Evaluate
core_evaluate verify cmd sender none now = none
core_evaluate verify cmd none (some il) now =
    if Command.tripped il then some Command.interlock_tripped else none
core_evaluate verify cmd (some s) (some il) now = some (Core.evaluate_command verify cmd s il now).0

-- `else se->attempt_count++`
abbrev pub count_attempt : ShadowEntry → ShadowEntry
count_attempt e = record e { attempt_count = u32 (e.attempt_count + 1) }

-- `if (!se) se = shadow_register(...); else se->attempt_count++;` after the look-up.
register_or_count : Option ℕ × Table → SockAddr → AttackPattern → ℕ → Option ℕ × Table
register_or_count (some i, t) peer p now = (some i, set t i (count_attempt (get_or t i blank)))
register_or_count (none, t) peer p now = shadow_register t peer p now

-- `if (se) shadow_feed_decoy(se);`
feed : Option ℕ × Table → ℕ → Option ℕ × Table
feed (some i, t) now = (some i, set t i (shadow_feed_decoy (get_or t i blank) now))
feed (none, t) now = (none, t)

-- The block that each bad client goes through. The index is `none` where `se` is null.
unfoldable pub decoy_client : Table → SockAddr → AttackPattern → ℕ → Option ℕ × Table
unfolding register_or_count feed
decoy_client t peer p now = feed (register_or_count (shadow_lookup t peer) peer p now) now

-- What a client is sent.
unfoldable pub decoy_reply : Option ℕ × Table → Option Bytes
decoy_reply (some i, t) = some (get_or t i blank).shadow_envelope
decoy_reply (none, t) = none

-- One TCP client: its address and what `recv` gave, `none` for an error.
pub record Client : Type 0 where
  pub peer : SockAddr
  pub received : Option Bytes

-- The reply and the table after one client; `none` is a fault. `stale` is the rest of the buffer.
module _ (evaluate : Evaluate) where
  answer : Bytes → Table → SockAddr → Bytes → ℕ → Option (Bytes × Table)
  answer stale t peer buf now =
      let malformed_client = decoy_client t peer malformed now in
      let replay_client = decoy_client t peer replay now in
      let flood_client = decoy_client t peer sig_flood now in
      if ltb (length buf) signed_command_len
      then elim (decoy_reply malformed_client) [
        | some reply ↦ some (reply, malformed_client.1)
        | none ↦ some (take envelope_len (buf ++ drop (length buf) stale), malformed_client.1)
      ]
      else elim (evaluate (decode_command buf) none none now) [
        | none ↦ none
        | some sequence_invalid ↦ Option.map (λ r. (r, replay_client.1)) (decoy_reply replay_client)
        | some signature_invalid ↦ Option.map (λ r. (r, flood_client.1)) (decoy_reply flood_client)
        | some _ ↦ some (result_code ok ∷ [], t)
      ]

  unfoldable pub handle_tcp_client : Bytes → Table → Client → ℕ → Option (Bytes × Table)
  unfolding answer
  handle_tcp_client stale t c now = elim c.received [
    | none ↦ answer stale t c.peer [] now
    | some buf ↦ answer stale t c.peer buf now
  ]

-- What `epoll_wait` reports ready: a TCP client with the clock when it is handled, a TCP connection that
-- cannot be accepted, or a UNIX client, which is closed at once.
pub data Ready : Type 0 where
  tcp : Client → ℕ → Ready
  tcp_failed : Ready
  unix : Ready

-- The table and the time of the last eviction.
pub record Loop : Type 0 where
  pub table : Table
  pub last_evict : ℕ

module _ (evaluate : Evaluate) (stale : Bytes) where
  -- The inner `for`: the replies sent, and the table after them.
  pub serve_ready : Table → List Ready → Option (List Bytes × Table)
  serve_ready t [] = some ([], t)
  serve_ready t (tcp c now ∷ rest) = elim (handle_tcp_client evaluate stale t c now) [
    | none ↦ none
    | some (reply, t') ↦ Option.map (λ r. (reply ∷ r.0, r.1)) (serve_ready t' rest)
  ]
  serve_ready t (tcp_failed ∷ rest) = serve_ready t rest
  serve_ready t (unix ∷ rest) = serve_ready t rest

  -- One round of the `while`, at time `now`.
  unfoldable pub round : Loop → ℕ → List Ready → Option (List Bytes × Loop)
  round l now ready =
      let due = leb evict_interval_ns (sub64 now l.last_evict) in
      let t = if due then shadow_evict_expired l.table now else l.table in
      let last = if due then now else l.last_evict in
      Option.map (λ r. (r.0, record { table = r.1; last_evict = last })) (serve_ready t ready)

  -- Any number of rounds.
  pub rounds : Loop → List (ℕ × List Ready) → Option Loop
  rounds l [] = some l
  rounds l ((now, ready) ∷ rest) = elim (round l now ready) [
    | none ↦ none
    | some (replies, l') ↦ rounds l' rest
  ]
