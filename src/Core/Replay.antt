-- ===== src/Core/Replay.antt =====
-- src/core.c over a series of calls: the accepted sequence numbers are consecutive, so a command
-- is accepted once.
use gate.Base.{
  ℕ, ◌+◌, ◌^◌, ◌≤◌, ◌<◌, ◌≡◌, ◌≢◌, ◌⊎◌, List, [], ◌∷◌, u64, length, Consecutive, arith,
  if◌then◌else◌,
}
use gate.Command.{ok, SenderRecord, Verify}
use gate.Core.{Arrival, evaluate_command, evaluate, serve, accepted}

-- Where the number is next counted from.
abbrev pub counted_from : SenderRecord → ℕ
counted_from s = if s.used then s.last_sequence else 0

module _ (verify : Verify) where
  -- One call either accepts the next number and counts from it, or leaves the count.
  evaluate-count :
      (s : SenderRecord) (a : Arrival)
      → let (result, s') = evaluate verify s a in
        ((result ≡ ok)
          × (a.command.envelope.sequence ≡ u64 (counted_from s + 1))
          × (counted_from s' ≡ a.command.envelope.sequence))
        ⊎ ((result ≢ ok) × (counted_from s' ≡ counted_from s))
  unfolding evaluate_command
  evaluate-count s a = ground arith

  -- Over any series of calls the accepted sequence numbers are consecutive 64-bit numbers: none is
  -- skipped, repeated or taken out of order.
  pub accepted-Consecutive :
      (s : SenderRecord) (calls : List Arrival)
      → Consecutive (counted_from s) (accepted verify s calls)
  unfolding accepted
  accepted-Consecutive s [] = tt
  accepted-Consecutive s (a ∷ calls) =
      let (result, s') = evaluate verify s a in
      ground (arith, evaluate-count s a, accepted-Consecutive s' calls)

  -- The count grows by at most one a call, and does not wrap while it stays below 2^64.
  serve_count :
      (s : SenderRecord) (calls : List Arrival)
      → counted_from s + length calls < 2 ^ 64
      → (counted_from s ≤ counted_from (serve verify s calls))
        × (counted_from (serve verify s calls) ≤ counted_from s + length calls)
  unfolding serve
  serve_count s [] h = omega arith
  serve_count s (a ∷ calls) h =
      let (result, s') = evaluate verify s a in
      ground (arith, evaluate-count s a, serve_count s' calls)

  -- An accepted command is never accepted again, however many calls come in between, as long as the
  -- 64-bit sequence number cannot have wrapped.
  pub no_replay :
      (s : SenderRecord) (a b : Arrival) (calls : List Arrival)
      → (evaluate verify s a).0 ≡ ok
      → b.command ≡ a.command
      → a.command.envelope.sequence + length calls + 1 < 2 ^ 64
      → (evaluate verify (serve verify (evaluate verify s a).1 calls) b).0 ≢ ok
  no_replay s a b calls h e lt again =
      let s' = (evaluate verify s a).1 in
      let t = serve verify s' calls in
      ground (arith, evaluate-count s a, evaluate-count t b, serve_count s' calls)
