-- ===== src/Executive/Program/Replies.antt =====
-- src/executive.c and its earlier copy: what the whole program sends.
use mathlib.Core.List.{append-nil}
use gate.Base.{
  ℕ, ◌≡◌, refl, ap, sym, ◌∙◌, Bool, List, [], ◌∷◌, Option, none, some, Option-cases, Bool-cases,
  inl, inr, Bytes, length, ◌==◌, if◌then◌else◌, le_bytes, replicate, All, subst,
}
use gate.Command.{SenderRecord, Verify}
use gate.Sockets.{sent_bytes}
use gate.Sockets.Setup.{Socket}
use gate.Executive.{Accept, interrupted, failed, connected, no_sender, answer, executive}
use gate.Executive.Program.{
  open_server, Reply, serve_loop, serve_main, executive_main, dummy_reply, dummy_main,
}
use gate.Executive.Program.Descriptors.{
  Ending, open_server-Opened, main-fails, main-serves, main-Ending,
}

abbrev pub all_accepts : List (ℕ × Accept) → List Accept
all_accepts [] = []
all_accepts ((client, a) ∷ rest) = a ∷ all_accepts rest

-- Replies go out only if the server could be opened.
abbrev pub replies_if : Option ℕ → List Bytes → List Bytes
replies_if none replies = []
replies_if (some server) replies = replies

module _ {S : Type 0} (reply : Reply S) where
  -- What the loop sends.
  unfoldable pub replies_to : S → List Accept → List Bytes
  replies_to s [] = []
  replies_to s (interrupted ∷ rest) = replies_to s rest
  replies_to s (failed ∷ rest) = []
  replies_to s (connected bytes stale now ∷ rest) =
      let done = reply s bytes stale now in
      let after = replies_to done.1 rest in
      let silent = replies_to s rest in if length bytes == 0 then silent else done.0 ∷ after

  loop-sent :
      (server : ℕ) (s : S) (accepts : List (ℕ × Accept))
      → sent_bytes (serve_loop reply server s accepts).1 ≡ replies_to s (all_accepts accepts)
  unfolding serve_loop replies_to
  loop-sent server s [] = refl
  loop-sent server s ((client, interrupted) ∷ rest) = loop-sent server s rest
  loop-sent server s ((client, failed) ∷ rest) = refl
  loop-sent server s ((client, connected bytes stale now) ∷ rest) =
      elim (Bool-cases (length bytes == 0)) [
        | inl none_read ↦ rw none_read (loop-sent server s rest)
        | inr some_read ↦ rw some_read (
            ap (λ x. (reply s bytes stale now).0 ∷ x)
              (loop-sent server (reply s bytes stale now).1 rest))
      ]

  pub main-sent :
      (s : S) (locks : Bool) (o : Socket) (accepts : List (ℕ × Accept))
      → sent_bytes (serve_main reply s locks o accepts).1
        ≡ replies_if (open_server locks o).0 (replies_to s (all_accepts accepts))
  main-sent s locks o accepts =
      let start = open_server-Opened locks o in
      elim (Option-cases (open_server locks o).0) [
        | inl e ↦
            ap (λ r. sent_bytes r.1) (main-fails reply s locks o accepts e)
            ∙ ap sent_bytes (sym (append-nil (open_server locks o).1))
            ∙ start.silent []
            ∙ rw e refl
        | inr (server, e) ↦
            ap (λ r. sent_bytes r.1) (main-serves reply s locks o accepts server e)
            ∙ start.silent (serve_loop reply server s accepts).1
            ∙ loop-sent server s accepts
            ∙ rw e refl
      ]

executive-replies :
    (verify : Verify) (s : SenderRecord) (accepts : List Accept)
    → replies_to (answer verify) s accepts ≡ (executive verify s accepts).0
unfolding replies_to executive
executive-replies verify s [] = refl
executive-replies verify s (interrupted ∷ rest) = executive-replies verify s rest
executive-replies verify s (failed ∷ rest) = refl
executive-replies verify s (connected bytes stale now ∷ rest) =
    elim (Bool-cases (length bytes == 0)) [
      | inl none_read ↦ rw none_read (executive-replies verify s rest)
      | inr some_read ↦ rw some_read (
          ap (λ x. (answer verify s bytes stale now).0 ∷ x)
            (executive-replies verify (answer verify s bytes stale now).1 rest))
    ]

-- The whole program, on every outcome of its calls: while it runs it holds the descriptor of the server alone,
-- each client's being closed, and when it has ended it holds none; and it sends nothing if the server
-- could not be opened, and else the replies of the loop that evaluates commands.
pub executive_main-Ending :
    (verify : Verify) (locks : Bool) (o : Socket) (accepts : List (ℕ × Accept))
    → Ending (executive_main verify locks o accepts)
      × (sent_bytes (executive_main verify locks o accepts).1
          ≡ replies_if (open_server locks o).0 (executive verify no_sender (all_accepts accepts)).0)
unfolding executive_main
executive_main-Ending verify locks o accepts = (
  main-Ending (answer verify) no_sender locks o accepts,
  main-sent (answer verify) no_sender locks o accepts
      ∙ ap (replies_if (open_server locks o).0)
          (executive-replies verify no_sender (all_accepts accepts)),
)

dummy-accepts :
    (s : Unit {0}) (accepts : List Accept)
    → All (λ b. b ≡ replicate 4 0) (replies_to dummy_reply s accepts)
unfolding replies_to dummy_reply le_bytes
dummy-accepts s [] = tt
dummy-accepts s (interrupted ∷ rest) = dummy-accepts s rest
dummy-accepts s (failed ∷ rest) = tt
dummy-accepts s (connected bytes stale now ∷ rest) = elim (Bool-cases (length bytes == 0)) [
  | inl none_read ↦ rw none_read (dummy-accepts s rest)
  | inr some_read ↦ rw some_read (refl, dummy-accepts s rest)
]

-- The earlier copy answers every client that sends anything with GO_OK, and evaluates nothing.
pub dummy_main-accepts :
    (locks : Bool) (o : Socket) (accepts : List (ℕ × Accept))
    → All (λ b. b ≡ replicate 4 0) (sent_bytes (dummy_main locks o accepts).1)
unfolding dummy_main
dummy_main-accepts locks o accepts =
    subst (All (λ b. b ≡ replicate 4 0)) (sym (main-sent dummy_reply tt locks o accepts))
      (if_opened (open_server locks o).0 _ (dummy-accepts tt (all_accepts accepts)))
  where
    if_opened :
        (held : Option ℕ) (replies : List Bytes)
        → All (λ b. b ≡ replicate 4 0) replies
        → All (λ b. b ≡ replicate 4 0) (replies_if held replies)
    if_opened none replies h = tt
    if_opened (some fd) replies h = h
