-- ===== src/Executive/Program.antt =====
-- src/executive.c, and its earlier copy evidence/g0_integration_pass/executive.c: `main` whole, from the set-up of
-- the socket to its end, with the descriptors that it opens and closes.
pub mod Descriptors
pub mod Replies
use gate.Base.{
  ℕ, ◌+◌, ◌≡◌, refl, ap, sym, ◌∙◌, Bool, true, false, List, [], ◌∷◌, ◌++◌, map, Option, none, some,
  Option-cases, Bool-cases, inl, inr, Bytes, length, ◌==◌, if◌then◌else◌, le_bytes, arith,
  replicate,
}
use gate.Command.{SenderRecord, Verify}
use gate.Sockets.{
  Effect, locked, unlinked, secured, opened, bound, listening, closed, received, sent, open_fds,
  sent_bytes, holding, remove_fd, remove_fd_head,
}
use gate.Sockets.Setup.{Socket}
use gate.Executive.{Accept, interrupted, failed, connected, filled, no_sender, answer, executive}

-- The server's descriptor if all calls succeed, and what took effect, `start` before it.
pub open_after : List Effect → Socket → Option ℕ × List Effect
open_after start o = elim o.descriptor [
  | none ↦ (none, start)
  | some fd ↦
      if o.binds
      then if o.listens
        then (some fd, start ++ opened fd ∷ bound fd ∷ secured ∷ listening fd ∷ [])
        else (none, start ++ opened fd ∷ bound fd ∷ secured ∷ closed fd ∷ [])
      else (none, start ++ opened fd ∷ closed fd ∷ [])
]

-- The start of `main`. `locks` is whether `mlockall` succeeds, which is only reported.
pub open_server : Bool → Socket → Option ℕ × List Effect
open_server locks o =
    if locks then open_after (locked ∷ unlinked ∷ []) o else open_after (unlinked ∷ []) o

-- What is answered to bytes, over what the buffer held, at a time, from a state.
abbrev pub Reply : Type 0 → Type 0
Reply S = S → Bytes → Bytes → ℕ → Bytes × S

module _ {S : Type 0} (reply : Reply S) where
  -- The loop: the exit code, none while it runs, and what took effect. With each `accept` goes the
  -- client's descriptor.
  pub serve_loop : ℕ → S → List (ℕ × Accept) → Option ℕ × List Effect
  serve_loop server s [] = (none, [])
  serve_loop server s ((client, interrupted) ∷ rest) = serve_loop server s rest
  serve_loop server s ((client, failed) ∷ rest) = (some 0, closed server ∷ unlinked ∷ [])
  serve_loop server s ((client, connected bytes stale now) ∷ rest) =
      let done = reply s bytes stale now in
      let after = serve_loop server done.1 rest in
      let silent = serve_loop server s rest in
      if length bytes == 0 then (silent.0, opened client ∷ closed client ∷ silent.1) else (
        after.0,
        opened client ∷ received client bytes ∷ sent client done.0 ∷ closed client ∷ after.1,
      )

  pub serve_main : S → Bool → Socket → List (ℕ × Accept) → Option ℕ × List Effect
  serve_main s locks o accepts =
      let start = open_server locks o in
      elim start.0 [
        | none ↦ (some 1, start.1)
        | some server ↦ let served = serve_loop server s accepts in (served.0, start.1 ++ served.1)
      ]

-- src/executive.c.
unfoldable pub executive_main : Verify → Bool → Socket → List (ℕ × Accept) → Option ℕ × List Effect
executive_main verify = serve_main (answer verify) no_sender

-- The earlier copy: four zero bytes, whatever is read.
unfoldable pub dummy_reply : Reply (Unit {0})
dummy_reply s bytes stale now = (le_bytes 4 0, s)

unfoldable pub dummy_main : Bool → Socket → List (ℕ × Accept) → Option ℕ × List Effect
dummy_main = serve_main dummy_reply tt
