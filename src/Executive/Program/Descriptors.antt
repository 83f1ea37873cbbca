-- ===== src/Executive/Program/Descriptors.antt =====
-- src/executive.c: the whole program closes what it opens.
use mathlib.Core.List.{append_assoc}
use gate.Base.{
  ℕ, ◌≡◌, refl, ap, sym, ◌∙◌, Bool, true, false, List, [], ◌∷◌, ◌++◌, Option, none, some,
  Option-cases, Bool-cases, inl, inr, length, ◌==◌, arith, subst,
}
use gate.Sockets.{
  Effect, locked, unlinked, secured, opened, bound, listening, closed, open_fds, sent_bytes,
  holding, remove_fd_head, open_fds-append,
}
use gate.Sockets.Setup.{Socket}
use gate.Executive.{Accept, interrupted, failed, connected}
use gate.Executive.Program.{open_after, open_server, Reply, serve_loop, serve_main}

-- While the program runs it holds the server's descriptor alone; when it has ended, none.
pub data Ending : Option ℕ × List Effect → Type 0 where
  running :
      (server : ℕ) (effects : List Effect)
      → open_fds [] effects ≡ server ∷ []
      → Ending (none, effects)
  ended :
      (code : ℕ) (effects : List Effect) → open_fds [] effects ≡ [] → Ending (some code, effects)

-- The start sends nothing, and holds the server's descriptor exactly if it gives it.
pub record Opened (r : Option ℕ × List Effect) : Type 0 where
  pub holds : open_fds [] r.1 ≡ holding r.0 []
  pub silent : (b : List Effect) → sent_bytes (r.1 ++ b) ≡ sent_bytes b

open_after-Opened :
    (start : List Effect) (o : Socket)
    → open_fds [] start ≡ []
    → ((b : List Effect) → sent_bytes (start ++ b) ≡ sent_bytes b)
    → Opened (open_after start o)
unfolding open_after
open_after-Opened start o quiet silent = elim (Option-cases o.descriptor) [
  | inl e ↦ rw e (record { holds = quiet; silent = silent })
  | inr (fd, e) ↦ elim (Bool-cases o.binds) [
    | inr no_bind ↦
        rw (e, no_bind)
          (then_effects none (opened fd ∷ closed fd ∷ []) (remove_fd_head fd []) (λ b. refl))
    | inl binds ↦ elim (Bool-cases o.listens) [
      | inl listens ↦
          rw (e, binds, listens)
            (then_effects (some fd) (opened fd ∷ bound fd ∷ secured ∷ listening fd ∷ []) refl
              (λ b. refl))
      | inr no_listen ↦
          rw (e, binds, no_listen)
            (then_effects none (opened fd ∷ bound fd ∷ secured ∷ closed fd ∷ [])
              (remove_fd_head fd []) (λ b. refl))
    ]
  ]
]
  where
    then_effects :
        (held : Option ℕ) (more : List Effect)
        → open_fds [] more ≡ holding held []
        → ((b : List Effect) → sent_bytes (more ++ b) ≡ sent_bytes b)
        → Opened (held, start ++ more)
    then_effects held more h k = record {
      holds = open_fds-append [] start more ∙ ap (λ fds. open_fds fds more) quiet ∙ h;
      silent = λ b. ap sent_bytes (append_assoc start more b) ∙ silent (more ++ b) ∙ k b;
    }

pub open_server-Opened : (locks : Bool) (o : Socket) → Opened (open_server locks o)
unfolding open_server
open_server-Opened true o = open_after-Opened (locked ∷ unlinked ∷ []) o refl (λ b. refl)
open_server-Opened false o = open_after-Opened (unlinked ∷ []) o refl (λ b. refl)

-- What the loop may end with.
abbrev held_by : Option ℕ → ℕ → List ℕ
held_by none server = server ∷ []
held_by (some code) server = []

Ending-of :
    (code : Option ℕ) (effects : List Effect) (server : ℕ)
    → open_fds [] effects ≡ held_by code server
    → Ending (code, effects)
Ending-of none effects server h = running server effects h
Ending-of (some code) effects server h = ended code effects h

module _ {S : Type 0} (reply : Reply S) where
  -- Whatever was open before it besides the server, the loop leaves open.
  loop-open :
      (server : ℕ) (s : S) (accepts : List (ℕ × Accept))
      → open_fds (server ∷ []) (serve_loop reply server s accepts).1
        ≡ held_by (serve_loop reply server s accepts).0 server
  unfolding serve_loop
  loop-open server s [] = refl
  loop-open server s ((client, interrupted) ∷ rest) = loop-open server s rest
  loop-open server s ((client, failed) ∷ rest) = remove_fd_head server []
  loop-open server s ((client, connected bytes stale now) ∷ rest) =
      elim (Bool-cases (length bytes == 0)) [
        | inl none_read ↦ rw none_read (
            ap (λ fds. open_fds fds (serve_loop reply server s rest).1)
              (remove_fd_head client (server ∷ []))
            ∙ loop-open server s rest)
        | inr some_read ↦ rw some_read (
            ap (λ fds. open_fds fds (serve_loop reply server (reply s bytes stale now).1 rest).1)
              (remove_fd_head client (server ∷ []))
            ∙ loop-open server (reply s bytes stale now).1 rest)
      ]

  pub main-fails :
      (s : S) (locks : Bool) (o : Socket) (accepts : List (ℕ × Accept))
      → (open_server locks o).0 ≡ none
      → serve_main reply s locks o accepts ≡ (some 1, (open_server locks o).1)
  unfolding serve_main
  main-fails s locks o accepts e = ground (arith, e)

  pub main-serves :
      (s : S) (locks : Bool) (o : Socket) (accepts : List (ℕ × Accept)) (server : ℕ)
      → (open_server locks o).0 ≡ some server
      → let served = serve_loop reply server s accepts in
        serve_main reply s locks o accepts ≡ (served.0, (open_server locks o).1 ++ served.1)
  unfolding serve_main
  main-serves s locks o accepts server e = ground (arith, e)

  pub main-Ending :
      (s : S) (locks : Bool) (o : Socket) (accepts : List (ℕ × Accept))
      → Ending (serve_main reply s locks o accepts)
  main-Ending s locks o accepts =
      let start = open_server-Opened locks o in
      elim (Option-cases (open_server locks o).0) [
        | inl e ↦
            subst Ending (sym (main-fails s locks o accepts e))
              (ended 1 (open_server locks o).1 (start.holds ∙ rw e refl))
        | inr (server, e) ↦
            let served = serve_loop reply server s accepts in
            subst Ending (sym (main-serves s locks o accepts server e)) (
              Ending-of served.0 ((open_server locks o).1 ++ served.1) server (
                open_fds-append [] (open_server locks o).1 served.1
                ∙ ap (λ fds. open_fds fds served.1) (start.holds ∙ rw e refl)
                ∙ loop-open server s accepts))
      ]
