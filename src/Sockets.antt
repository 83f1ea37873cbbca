-- ===== src/Sockets.antt =====
-- What the programs do with sockets, as the list of what took effect: src/transport.c, and the set-ups of
-- src/executive.c, src/gate0_daemon.c and gate0_daemon.c use it.
pub mod Setup
mod Examples
use gate.Base.{
  ℕ, ◌≡◌, refl, List, [], ◌∷◌, ◌++◌, Bytes, ◌==◌, if◌then◌else◌, arith, Option, none, some,
}

-- A call that had its effect, with the descriptor that it was about. `opened` is `socket`, `accept` or
-- `epoll_create1`; `secured` is `chmod` to 0600.
pub data Effect : Type 0 where
  locked made_dir unlinked secured : Effect
  opened reusable bound listening nonblocking shut closed : ℕ → Effect
  received sent : ℕ → Bytes → Effect
  logged : Bytes → Effect

pub remove_fd : ℕ → List ℕ → List ℕ
remove_fd fd [] = []
remove_fd fd (x ∷ xs) = let rest = remove_fd fd xs in if x == fd then xs else x ∷ rest

-- The open descriptors after these effects, the latest first.
abbrev pub open_fds : List ℕ → List Effect → List ℕ
open_fds fds [] = fds
open_fds fds (opened fd ∷ rest) = open_fds (fd ∷ fds) rest
open_fds fds (closed fd ∷ rest) = open_fds (remove_fd fd fds) rest
open_fds fds (_ ∷ rest) = open_fds fds rest

-- What was sent, in order.
abbrev pub sent_bytes : List Effect → List Bytes
sent_bytes [] = []
sent_bytes (sent fd bytes ∷ rest) = bytes ∷ sent_bytes rest
sent_bytes (_ ∷ rest) = sent_bytes rest

pub remove_fd_head : (fd : ℕ) (fds : List ℕ) → remove_fd fd (fd ∷ fds) ≡ fds
unfolding remove_fd
remove_fd_head fd fds = ground arith

-- With the descriptor that is held, if there is one.
abbrev pub holding : Option ℕ → List ℕ → List ℕ
holding none fds = fds
holding (some fd) fds = fd ∷ fds

pub open_fds-append :
    (fds : List ℕ) (a b : List Effect) → open_fds fds (a ++ b) ≡ open_fds (open_fds fds a) b
open_fds-append fds [] b = refl
open_fds-append fds (opened fd ∷ a) b = open_fds-append (fd ∷ fds) a b
open_fds-append fds (closed fd ∷ a) b = open_fds-append (remove_fd fd fds) a b
open_fds-append fds (locked ∷ a) b = open_fds-append fds a b
open_fds-append fds (made_dir ∷ a) b = open_fds-append fds a b
open_fds-append fds (unlinked ∷ a) b = open_fds-append fds a b
open_fds-append fds (secured ∷ a) b = open_fds-append fds a b
open_fds-append fds (reusable fd ∷ a) b = open_fds-append fds a b
open_fds-append fds (bound fd ∷ a) b = open_fds-append fds a b
open_fds-append fds (listening fd ∷ a) b = open_fds-append fds a b
open_fds-append fds (nonblocking fd ∷ a) b = open_fds-append fds a b
open_fds-append fds (shut fd ∷ a) b = open_fds-append fds a b
open_fds-append fds (received fd x ∷ a) b = open_fds-append fds a b
open_fds-append fds (sent fd x ∷ a) b = open_fds-append fds a b
open_fds-append fds (logged x ∷ a) b = open_fds-append fds a b
