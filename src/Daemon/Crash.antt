-- ===== src/Daemon/Crash.antt =====
-- gate0_daemon.c with src/core.c: the null interlocks that the daemon passes.
use gate.Base.{ℕ, ◌≤◌, ◌≡◌, none, some, Bytes, length, arith}
use gate.Command.{Verify}
use gate.Shadow.{SockAddr, Table}
use gate.Daemon.{signed_command_len, core_evaluate, handle_tcp_client}

-- Every client that brings a complete command, of whatever content, makes the daemon read through the
-- null interlocks.
pub complete_command-faults :
    (verify : Verify) (stale : Bytes) (t : Table) (peer : SockAddr) (buf : Bytes) (now : ℕ)
    → signed_command_len ≤ length buf
    → handle_tcp_client
        (core_evaluate verify)
        stale
        t
        (record { peer = peer; received = some buf })
        now
      ≡ none
unfolding handle_tcp_client core_evaluate
complete_command-faults verify stale t peer buf now h = ground arith
