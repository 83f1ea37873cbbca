-- ===== src/Executive/Replay.antt =====
-- src/executive.c with src/core.c: a command that the program has answered with GO_OK is not answered so again.
use gate.Base.{
  ℕ, ◌+◌, ◌^◌, ◌≤◌, ◌<◌, ◌≡◌, ◌≢◌, refl, ap, sym, ◌∙◌, List, [], ◌∷◌, Bytes, length, ◌==◌,
  Bool-cases, inl, inr, if◌then◌else◌, replicate, arith,
}
use gate.Command.{SenderRecord, Verify, decode_command}
use gate.Core.{Arrival, evaluate, serve}
use gate.Core.Replay.{no_replay}
use gate.Executive.{Accept, interrupted, failed, connected, filled, no_interlock, answer, executive}
use gate.Executive.Once.{code-ok}

-- The call of the evaluator that a client's bytes lead to.
abbrev pub call_of : Bytes → Bytes → ℕ → Arrival
call_of bytes stale now = record {
  command = decode_command (filled bytes stale);
  interlocks = no_interlock;
  now = now;
}

-- The calls that the loop makes.
unfoldable pub calls_of : List Accept → List Arrival
calls_of [] = []
calls_of (interrupted ∷ rest) = calls_of rest
calls_of (failed ∷ rest) = []
calls_of (connected bytes stale now ∷ rest) =
    let later = calls_of rest in
    if length bytes == 0 then later else call_of bytes stale now ∷ later

length-calls_of : (accepts : List Accept) → length (calls_of accepts) ≤ length accepts
unfolding calls_of
length-calls_of [] = omega arith
length-calls_of (interrupted ∷ rest) = omega (arith, length-calls_of rest)
length-calls_of (failed ∷ rest) = omega arith
length-calls_of (connected bytes stale now ∷ rest) = ground (arith, length-calls_of rest)

module _ (verify : Verify) where
  -- The sender record after the loop is that after these calls.
  executive-serve_calls :
      (s : SenderRecord) (accepts : List Accept)
      → (executive verify s accepts).1 ≡ serve verify s (calls_of accepts)
  unfolding executive serve answer calls_of
  executive-serve_calls s [] = refl
  executive-serve_calls s (interrupted ∷ rest) = executive-serve_calls s rest
  executive-serve_calls s (failed ∷ rest) = refl
  executive-serve_calls s (connected bytes stale now ∷ rest) =
      elim (Bool-cases (length bytes == 0)) [
        | inl silent ↦ rw silent (executive-serve_calls s rest)
        | inr heard ↦ rw heard (executive-serve_calls (answer verify s bytes stale now).1 rest)
      ]

  -- A command that was answered with GO_OK is never answered with it again, to whatever bytes it comes in: after
  -- any further calls of `accept`, every buffer that reads as the same command is refused, as long
  -- as the 64-bit sequence number cannot have wrapped.
  pub replayed_bytes-refused :
      (s : SenderRecord) (bytes stale again old : Bytes) (now later : ℕ) (accepts : List Accept)
      → let first = answer verify s bytes stale now in
        first.0 ≡ replicate 4 0
        → decode_command (filled again old) ≡ decode_command (filled bytes stale)
        → (decode_command (filled bytes stale)).envelope.sequence + length accepts + 1 < 2 ^ 64
        → (answer verify (executive verify first.1 accepts).1 again old later).0 ≢ replicate 4 0
  unfolding answer
  replayed_bytes-refused s bytes stale again old now later accepts accepted same fits repeated =
      let a = call_of bytes stale now in
      let b = call_of again old later in
      let after = (evaluate verify s a).1 in
      let state = executive-serve_calls after accepts in
      no_replay verify s a b (calls_of accepts) (code-ok (evaluate verify s a).0 accepted) same
        (omega (arith, length-calls_of accepts, fits))
        (ap (λ t. (evaluate verify t b).0) (sym state)
          ∙ code-ok (evaluate verify (executive verify after accepts).1 b).0 repeated)
