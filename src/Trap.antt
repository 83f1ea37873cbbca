-- ===== src/Trap.antt =====
-- src/main.c: the trap, which takes connections, keeps what they say and closes them. What the calls of the
-- system give is an argument; printing is left out, but for the record of what a client sent.
pub mod Sealed
mod Examples
use gate.Base.{
  c_string, ℕ, suc, ◌+◌, ◌-◌, ◌≡◌, refl, Bool, true, false, List, [], ◌∷◌, ◌++◌, Option, none, some,
  Bytes, length, take, ◌==◌, if◌then◌else◌,
}
use gate.Sockets.{
  Effect, opened, reusable, bound, listening, nonblocking, shut, closed, received, logged,
}

abbrev pub buffer_size : ℕ
buffer_size = 512

pub fort_knox_seal : ℕ → List Effect
fort_knox_seal fd = shut fd ∷ closed fd ∷ []

-- How the calls of the set-up end. `socket` gives a descriptor or -1.
pub record Calls : Type 0 where
  pub socket : Option ℕ
  pub setsockopt : Bool
  pub bind : Bool
  pub listen : Bool
  pub set_nonblocking : Bool

-- What one `accept` of the loop gives: none ready, another error, or a client: its descriptor, whether
-- it can be made non-blocking, and what there is to read of it, none for an error. Of a client that
-- closes at once there are no bytes.
pub data Arrived : Type 0 where
  would_block accept_error : Arrived
  client : ℕ → Bool → Option Bytes → Arrived

-- The text in the buffer, `buffer[bytes_read] = '\0'` behind what was read, as `%s` shows it.
pub extracted : Bytes → Bytes
extracted bytes = c_string (bytes ++ 0 ∷ [])

-- `read(client_fd, buffer, BUFFER_SIZE - 1)` and what follows it: bytes that do not fit are not read.
unfoldable pub read_client : ℕ → Bytes → List Effect
unfolding extracted
read_client fd [] = []
read_client fd (b ∷ bs) =
    let bytes_read = take (buffer_size - 1) (b ∷ bs) in
    received fd bytes_read ∷ logged (extracted bytes_read) ∷ []

-- One round of the loop.
unfoldable pub trap_round : Arrived → List Effect
unfolding fort_knox_seal read_client
trap_round would_block = []
trap_round accept_error = []
trap_round (client fd false waiting) = opened fd ∷ fort_knox_seal fd
trap_round (client fd true none) = opened fd ∷ nonblocking fd ∷ fort_knox_seal fd
trap_round (client fd true (some waiting)) =
    opened fd ∷ nonblocking fd ∷ (read_client fd waiting ++ fort_knox_seal fd)

pub trap_loop : List Arrived → List Effect
trap_loop [] = []
trap_loop (a ∷ rest) = trap_round a ++ trap_loop rest

-- `fd == 0`, on a descriptor or -1.
abbrev pub is_zero : Option ℕ → Bool
is_zero none = false
is_zero (some fd) = fd == 0

abbrev pub on_fd : Option ℕ → (ℕ → Effect) → List Effect
on_fd none e = []
on_fd (some fd) e = e fd ∷ []

-- `main`: the exit code, none while it runs, and what took effect.
unfoldable pub trap_main : Calls → List Arrived → Option ℕ × List Effect
unfolding trap_loop
trap_main c arrivals =
    let made = on_fd c.socket opened in
    let shared = made ++ on_fd c.socket reusable in
    let named = shared ++ on_fd c.socket bound in
    let heard = named ++ on_fd c.socket listening in
    if is_zero c.socket
    then (some 1, made)
    else if c.setsockopt
    then if c.bind
      then if c.listen
        then if c.set_nonblocking
          then (none, (heard ++ on_fd c.socket nonblocking) ++ trap_loop arrivals)
          else (some 1, heard)
        else (some 1, named)
      else (some 1, shared)
    else (some 1, made)
