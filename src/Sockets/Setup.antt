-- ===== src/Sockets/Setup.antt =====
-- src/transport.c, src/gate0_daemon.c and gate0_daemon.c: how the sockets are set up. What the calls
-- of the system give is an argument.
use gate.Base.{
  ℕ, ◌≡◌, refl, Bool, true, false, List, [], ◌∷◌, ◌++◌, Option, none, some, Option-cases,
  Bool-cases, inl, inr, if◌then◌else◌,
}
use gate.Sockets.{
  Effect, made_dir, unlinked, opened, reusable, bound, listening, closed, open_fds, holding,
  remove_fd_head,
}

-- `socket`: a descriptor or -1; `bind` and `listen`: whether they succeed.
pub record Socket : Type 0 where
  pub descriptor : Option ℕ
  pub binds : Bool
  pub listens : Bool

-- src/transport.c: the descriptor, or -1, and what took effect.
unfoldable pub init_socket_server : Socket → Option ℕ × List Effect
init_socket_server o = elim o.descriptor [
  | none ↦ (none, made_dir ∷ [])
  | some fd ↦
      let made = made_dir ∷ opened fd ∷ unlinked ∷ [] in
      if o.binds
      then if o.listens
        then (some fd, made ++ bound fd ∷ listening fd ∷ [])
        else (none, made ++ bound fd ∷ closed fd ∷ [])
      else (none, made ++ closed fd ∷ [])
]

unfoldable pub init_uart_stream : Option ℕ
init_uart_stream = none

-- gate0_daemon.c: the descriptor as the static variable holds it, whether 0 is returned, and what
-- took effect.
unfoldable pub init_unix_socket : Socket → Option ℕ × Bool × List Effect
init_unix_socket o = elim o.descriptor [
  | none ↦ (none, false, unlinked ∷ [])
  | some fd ↦
      let made = unlinked ∷ opened fd ∷ [] in
      if o.binds
      then if o.listens
        then (some fd, true, made ++ bound fd ∷ listening fd ∷ [])
        else (some fd, false, made ++ bound fd ∷ [])
      else (some fd, false, made)
]

unfoldable pub init_tcp_socket : Socket → Option ℕ × Bool × List Effect
init_tcp_socket o = elim o.descriptor [
  | none ↦ (none, false, [])
  | some fd ↦
      let made = opened fd ∷ reusable fd ∷ [] in
      if o.binds
      then if o.listens
        then (some fd, true, made ++ bound fd ∷ listening fd ∷ [])
        else (some fd, false, made ++ bound fd ∷ [])
      else (some fd, false, made)
]

-- The start of `main`: the exit code if it ends before its loop, and what took effect. `epoll` is what
-- `epoll_create1` gives.
unfoldable pub daemon_start : Socket → Socket → Option ℕ → Option ℕ × List Effect
daemon_start unix tcp epoll =
    let first = init_unix_socket unix in
    let second = init_tcp_socket tcp in
    if first.1
    then if second.1
      then elim epoll [
        | none ↦ (some 1, first.2 ++ second.2)
        | some fd ↦ (none, first.2 ++ (second.2 ++ opened fd ∷ []))
      ]
      else (some 1, first.2 ++ second.2)
    else (some 1, first.2)

-- The server socket of src/transport.c is open exactly when it is returned: every way that it fails closes
-- what it opened.
pub init_socket_server-open :
    (o : Socket) (fds : List ℕ)
    → open_fds fds (init_socket_server o).1 ≡ holding (init_socket_server o).0 fds
unfolding init_socket_server
init_socket_server-open o fds = elim (Option-cases o.descriptor) [
  | inl e ↦ rw e refl
  | inr (fd, e) ↦ elim (Bool-cases o.binds) [
    | inr no_bind ↦ rw (e, no_bind) (remove_fd_head fd fds)
    | inl binds ↦ elim (Bool-cases o.listens) [
      | inl listens ↦ rw (e, binds, listens) refl
      | inr no_listen ↦ rw (e, binds, no_listen) (remove_fd_head fd fds)
    ]
  ]
]
