-- ===== src/Executive/Serve.antt =====
-- src/executive.c: what clients that send whole commands are answered.
use gate.Base.{
  ◌<◌, ◌≡◌, refl, ap, sym, ◌∙◌, false, List, [], ◌∷◌, ◌++◌, map, Bytes, length, ◌==◌, le_bytes,
  arith,
}
use gate.Command.{
  GateResult, SignedCommand, SenderRecord, Verify, result_code, encode_command, decode_command,
  IsEncodable,
}
use gate.Command.Encoding.{decode-encode_command}
use gate.Core.{Arrival, evaluate, serve}
use gate.Executive.{Accept, interrupted, failed, connected, filled, no_interlock, answer, executive}

-- The buffer begins with this command, which is well formed.
pub record Sends (received stale : Bytes) (c : SignedCommand) : Type 0 where
  pub some_bytes : 0 < length received
  pub rest : Bytes
  pub bytes : filled received stale ≡ encode_command c ++ rest
  pub encodable : IsEncodable c.envelope
  pub signature_64 : length c.signature ≡ 64

-- Each client sent one of these commands, at its time and with no interlock; calls of `accept` may have
-- been interrupted, none failed.
abbrev pub Served : List Accept → List Arrival → Type 0
Served [] [] = Unit {0}
Served [] (c ∷ calls) = ⊥
Served (interrupted ∷ accepts) calls = Served accepts calls
Served (failed ∷ accepts) calls = ⊥
Served (connected received stale now ∷ accepts) [] = ⊥
Served (connected received stale now ∷ accepts) (c ∷ calls) =
    Sends received stale c.command
    × (c.interlocks ≡ no_interlock)
    × (c.now ≡ now)
    × Served accepts calls

module _ (verify : Verify) where
  -- The verdicts of a series of calls.
  unfoldable pub verdicts : SenderRecord → List Arrival → List GateResult
  verdicts s [] = []
  verdicts s (c ∷ calls) = let done = evaluate verify s c in done.0 ∷ verdicts done.1 calls

  abbrev pub replies : List GateResult → List Bytes
  replies = map (λ r. le_bytes 4 (result_code r))

  answer-Sends :
      (s : SenderRecord) (received stale : Bytes) (c : Arrival)
      → Sends received stale c.command
      → c.interlocks ≡ no_interlock
      → answer verify s received stale c.now
        ≡ (le_bytes 4 (result_code (evaluate verify s c).0), (evaluate verify s c).1)
  unfolding answer
  answer-Sends s received stale c v i =
      let read : decode_command (filled received stale) ≡ c.command =
        ap decode_command v.bytes
        ∙ decode-encode_command c.command v.rest v.encodable v.signature_64 in
      rw (read, i) refl

  -- If no `accept` fails for good and every client sends a whole, well-formed command, in a buffer
  -- with anything behind it, then each is sent the verdict that the evaluator gives in the series
  -- of all commands, and the sender record ends where that series takes it; interrupted calls of
  -- `accept` change nothing.
  pub executive-serve :
      (s : SenderRecord) (accepts : List Accept) (calls : List Arrival)
      → Served accepts calls
      → executive verify s accepts ≡ (replies (verdicts s calls), serve verify s calls)
  unfolding executive verdicts serve
  executive-serve s [] [] v = refl
  executive-serve s [] (c ∷ calls) v = absurd v
  executive-serve s (interrupted ∷ accepts) calls v = executive-serve s accepts calls v
  executive-serve s (failed ∷ accepts) calls v = absurd v
  executive-serve s (connected received stale now ∷ accepts) [] v = absurd v
  executive-serve s (connected received stale now ∷ accepts) (c ∷ calls) v =
      let (sends, clear, at, rest) = v in
      let heard : (length received == 0) ≡ false = ground (arith, sends.some_bytes) in
      let step : answer verify s received stale now
          ≡ (le_bytes 4 (result_code (evaluate verify s c).0), (evaluate verify s c).1) =
        ap (λ t. answer verify s received stale t) (sym at)
        ∙ answer-Sends s received stale c sends clear in
      let after = executive-serve (evaluate verify s c).1 accepts calls rest in
      rw (heard, step, after) refl
