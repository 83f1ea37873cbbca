-- ===== src/Executive.antt =====
-- src/executive.c: the loop that serves one client after another on the UNIX socket, with the evaluator
-- of src/core.c; and src/gate0_daemon.c, which serves one client at a fixed time. Sockets are the
-- inputs and outputs of the functions.
pub mod Serve
pub mod Once
pub mod OneShot
pub mod ReadExact
pub mod Program
pub mod Replay
mod Examples
use gate.Base.{
  ℕ, ◌≡◌, Bool, List, [], ◌∷◌, ◌++◌, Option, none, some, Bytes, length, drop, replicate, truthy,
  ◌==◌, if◌then◌else◌, le_bytes,
}
use gate.Command.{SenderRecord, SafetyInterlocks, Verify, result_code, decode_command}
use gate.Core.{evaluate_command}

-- `SafetyInterlocks interlocks = {0}`
unfoldable pub no_interlock : SafetyInterlocks
no_interlock = record {
  estop = 0;
  overspeed = 0;
  overtemp = 0;
  overvoltage = 0;
  interlock_mask = 0;
  last_trip_ns = 0;
  trip_count = 0;
}

-- `SenderRecord sender = {0}`
unfoldable pub no_sender : SenderRecord
no_sender = record { public_key = replicate 32 0; last_sequence = 0; used = Bool.false }

-- What one `accept` leads to: EINTR, another error, or a client. Of a client: the bytes that `read`
-- gave, none when it failed or the client had closed; what the buffer held before; and the clock.
pub data Accept : Type 0 where
  interrupted failed : Accept
  connected : Bytes → Bytes → ℕ → Accept

-- The buffer after `read`.
abbrev pub filled : Bytes → Bytes → Bytes
filled received stale = received ++ drop (length received) stale

module _ (verify : Verify) where
  -- One client that sent something: the reply and the sender record after it.
  pub answer : SenderRecord → Bytes → Bytes → ℕ → Bytes × SenderRecord
  answer sender received stale now =
      let done =
        evaluate_command verify (decode_command (filled received stale)) sender no_interlock now in
      (le_bytes 4 (result_code done.0), done.1)

  -- The `while` loop: the replies, in order, and the sender record.
  pub executive : SenderRecord → List Accept → List Bytes × SenderRecord
  executive sender [] = ([], sender)
  executive sender (interrupted ∷ rest) = executive sender rest
  executive sender (failed ∷ rest) = ([], sender)
  executive sender (connected received stale now ∷ rest) =
      let done = answer sender received stale now in
      let after = executive done.1 rest in
      let silent = executive sender rest in
      if length received == 0 then silent else (done.0 ∷ after.0, after.1)

-- The time that src/gate0_daemon.c passes.
abbrev pub fixed_now : ℕ
fixed_now = 1750000000000000

module _ (verify : Verify) where
  -- The one client of src/gate0_daemon.c, whole commands only; `none` is no reply.
  unfoldable pub serve_once : Bytes → Option Bytes
  serve_once received =
      if length received == 390
      then some (
          le_bytes 4 (
            result_code
              (evaluate_command verify (decode_command received) no_sender no_interlock
                fixed_now).0))
      else none
