-- ===== src/Trap/Examples.antt =====
-- src/main.c with one client that says something and one that does not.
use gate.Base.{◌<◌, ◌≡◌, All, length, refl, true, List, [], ◌∷◌, none, some}
use gate.Sockets.{open_fds, sent_bytes}
use gate.Trap.{Calls, Arrived, would_block, client, trap_main}
use gate.Trap.Sealed.{heard_from, logged_bytes, received_bytes, trap_main-seals}

abbrev working : Calls
working = record {
  socket = some 3;
  setsockopt = true;
  bind = true;
  listen = true;
  set_nonblocking = true;
}

abbrev arrivals : List Arrived
arrivals =
    would_block ∷ client 4 true (some (b'h' ∷ b'i' ∷ 0 ∷ b'x' ∷ [])) ∷ client 4 true none ∷ []

running : (trap_main working []).0 ≡ none
unfolding trap_main
running = refl

trap_main-seals_example :
    let r = trap_main working arrivals in
    (r.0 ≡ none)
    × (open_fds [] r.1 ≡ 3 ∷ [])
    × (sent_bytes r.1 ≡ [])
    × (logged_bytes r.1 ≡ heard_from arrivals)
    × All (λ bytes. length bytes < 512) (received_bytes r.1)
trap_main-seals_example = trap_main-seals working arrivals 3 refl running
