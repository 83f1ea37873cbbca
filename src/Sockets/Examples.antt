-- ===== src/Sockets/Examples.antt =====
-- src/transport.c at concrete outcomes.
use gate.Base.{◌≡◌, refl, true, false, [], ◌∷◌, some, none}
use gate.Sockets.{open_fds, holding}
use gate.Sockets.Setup.{
  Socket, init_socket_server, init_socket_server-open, daemon_start, init_unix_socket,
  init_tcp_socket,
}

abbrev refused : Socket
refused = record { descriptor = some 3; binds = true; listens = false }

nothing_given : (init_socket_server refused).0 ≡ none
unfolding init_socket_server
nothing_given = refl

init_socket_server-open_example :
    open_fds (1 ∷ []) (init_socket_server refused).1
    ≡ holding (init_socket_server refused).0 (1 ∷ [])
init_socket_server-open_example = init_socket_server-open refused (1 ∷ [])

abbrev accepted : Socket
accepted = record { descriptor = some 4; binds = true; listens = true }

three_open :
    open_fds [] (daemon_start accepted (record accepted { descriptor = some 5 }) (some 6)).1
    ≡ 6 ∷ 5 ∷ 4 ∷ []
unfolding daemon_start init_unix_socket init_tcp_socket
three_open = refl
