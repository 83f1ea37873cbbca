-- ===== src/Executive/OneShot.antt =====
-- src/gate0_daemon.c: `main` whole, with the descriptors that it opens and closes.
use gate.Base.{
  ℕ, ◌≡◌, refl, ap, ◌∙◌, Bool-cases, Option-cases, inl, inr, List, [], ◌∷◌, ◌++◌, Option, none,
  some, Bytes, if◌then◌else◌,
}
use gate.Command.{Verify}
use gate.Sockets.{
  Effect, unlinked, opened, bound, listening, closed, received, sent, open_fds, remove_fd_head,
}
use gate.Sockets.Setup.{Socket}
use gate.Executive.{serve_once}

-- What `accept` gives, none for an error: the client's descriptor, and what `read` gives of it, none for an
-- error.
abbrev pub Client : Type 0
Client = Option (ℕ × Option Bytes)

-- The reply of `serve_once`, sent to this client.
abbrev pub send_to : ℕ → Option Bytes → List Effect
send_to client none = []
send_to client (some reply) = sent client reply ∷ []

module _ (verify : Verify) where
  unfoldable pub once_client : Client → List Effect
  once_client none = []
  once_client (some (client, none)) = opened client ∷ closed client ∷ []
  once_client (some (client, some bytes)) =
      opened client
      ∷ received client bytes
      ∷ (send_to client (serve_once verify bytes) ++ closed client ∷ [])

  -- The exit code and what took effect.
  pub once_main : Socket → Client → ℕ × List Effect
  once_main o client = elim o.descriptor [
    | none ↦ (1, unlinked ∷ [])
    | some fd ↦
        if o.binds
        then if o.listens
          then (
            0,
            unlinked
                ∷ opened fd
                ∷ bound fd
                ∷ listening fd
                ∷ (once_client client ++ closed fd ∷ unlinked ∷ []),
          )
          else (1, unlinked ∷ opened fd ∷ bound fd ∷ closed fd ∷ [])
        else (1, unlinked ∷ opened fd ∷ closed fd ∷ [])
  ]

  -- One client is opened, answered and closed.
  client_open :
      (fd : ℕ) (client : Client) (rest : List Effect)
      → open_fds (fd ∷ []) (once_client client ++ rest) ≡ open_fds (fd ∷ []) rest
  unfolding once_client
  client_open fd none rest = refl
  client_open fd (some (c, none)) rest = ap (λ fds. open_fds fds rest) (remove_fd_head c (fd ∷ []))
  client_open fd (some (c, some bytes)) rest = elim (Option-cases (serve_once verify bytes)) [
    | inl silent ↦ rw silent (ap (λ fds. open_fds fds rest) (remove_fd_head c (fd ∷ [])))
    | inr (reply, answers) ↦ rw answers (ap (λ fds. open_fds fds rest) (remove_fd_head c (fd ∷ [])))
  ]

  -- However its calls end, the program closes every descriptor that it opened.
  pub once_main-closes : (o : Socket) (client : Client) → open_fds [] (once_main o client).1 ≡ []
  unfolding once_main
  once_main-closes o client = elim (Option-cases o.descriptor) [
    | inl e ↦ rw e refl
    | inr (fd, e) ↦ elim (Bool-cases o.binds) [
      | inr no_bind ↦ rw (e, no_bind) (remove_fd_head fd [])
      | inl binds ↦ elim (Bool-cases o.listens) [
        | inr no_listen ↦ rw (e, binds, no_listen) (remove_fd_head fd [])
        | inl listens ↦
            rw (e, binds, listens)
              (client_open fd client (closed fd ∷ unlinked ∷ []) ∙ remove_fd_head fd [])
      ]
    ]
  ]
