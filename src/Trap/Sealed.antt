-- ===== src/Trap/Sealed.antt =====
-- src/main.c: every client is sealed, none is answered.
use gate.Base.{
  ℕ, ◌≡◌, refl, ap, ◌∙◌, true, false, List, [], ◌∷◌, ◌++◌, none, some, Bytes, ◌==◌, All, c_string,
  take, length, length-take_le, ◌<◌, arith,
}
use gate.Sockets.{
  Effect, opened, nonblocking, shut, closed, received, logged, sent_bytes, open_fds, remove_fd_head,
  open_fds-append,
}
use gate.Trap.{
  Arrived, would_block, accept_error, client, read_client, fort_knox_seal, trap_round, trap_loop,
  Calls, trap_main, extracted,
}

-- What is kept of the clients: of each that could be read from, the first 511 bytes of what there was to read, up
-- to a NUL.
abbrev pub heard_from : List Arrived → List Bytes
heard_from [] = []
heard_from (client fd true (some (b ∷ bs)) ∷ rest) = c_string (take 511 (b ∷ bs)) ∷ heard_from rest
heard_from (_ ∷ rest) = heard_from rest

abbrev pub logged_bytes : List Effect → List Bytes
logged_bytes [] = []
logged_bytes (logged text ∷ rest) = text ∷ logged_bytes rest
logged_bytes (_ ∷ rest) = logged_bytes rest

-- What each read gave.
abbrev pub received_bytes : List Effect → List Bytes
received_bytes [] = []
received_bytes (received fd bytes ∷ rest) = bytes ∷ received_bytes rest
received_bytes (_ ∷ rest) = received_bytes rest

loop-short :
    (arrivals : List Arrived)
    → All (λ bytes. length bytes < 512) (received_bytes (trap_loop arrivals))
unfolding trap_loop trap_round read_client fort_knox_seal
loop-short [] = tt
loop-short (would_block ∷ rest) = loop-short rest
loop-short (accept_error ∷ rest) = loop-short rest
loop-short (client fd false waiting ∷ rest) = loop-short rest
loop-short (client fd true none ∷ rest) = loop-short rest
loop-short (client fd true (some []) ∷ rest) = loop-short rest
loop-short (client fd true (some (b ∷ bs)) ∷ rest) =
    (omega (arith, length-take_le 511 (b ∷ bs)), loop-short rest)

-- The terminator behind what was read ends the text where it ends by itself.
extracted_lem : (bytes : Bytes) → extracted bytes ≡ c_string bytes
unfolding extracted c_string
extracted_lem [] = refl
extracted_lem (b ∷ bs) = ground (arith, extracted_lem bs)

-- What holds of a trace: these descriptors are open at its end, nothing was sent, these texts were kept.
record Seals (fds : List ℕ) (texts : List Bytes) (effects : List Effect) : Type 0 where
  pub open_at_end : open_fds fds effects ≡ fds
  pub silent : sent_bytes effects ≡ []
  pub kept : logged_bytes effects ≡ texts

-- Effects that close what they open, in front.
Seals-before :
    (fds : List ℕ) (texts more : List Bytes) (front effects : List Effect)
    → open_fds fds front ≡ fds
    → sent_bytes (front ++ effects) ≡ sent_bytes effects
    → logged_bytes (front ++ effects) ≡ more ++ logged_bytes effects
    → Seals fds texts effects
    → Seals fds (more ++ texts) (front ++ effects)
Seals-before fds texts more front effects o s k rest = record {
  open_at_end =
      open_fds-append fds front effects ∙ ap (λ x. open_fds x effects) o ∙ rest.open_at_end;
  silent = s ∙ rest.silent;
  kept = k ∙ ap (λ x. more ++ x) rest.kept;
}

loop-Seals :
    (fds : List ℕ) (arrivals : List Arrived) → Seals fds (heard_from arrivals) (trap_loop arrivals)
unfolding trap_loop trap_round read_client fort_knox_seal
loop-Seals fds [] = record { open_at_end = refl; silent = refl; kept = refl }
loop-Seals fds (would_block ∷ rest) = loop-Seals fds rest
loop-Seals fds (accept_error ∷ rest) = loop-Seals fds rest
loop-Seals fds (client fd false heard ∷ rest) =
    Seals-before fds (heard_from rest) [] (opened fd ∷ shut fd ∷ closed fd ∷ []) (trap_loop rest)
      (remove_fd_head fd fds) refl refl (loop-Seals fds rest)
loop-Seals fds (client fd true none ∷ rest) =
    Seals-before fds (heard_from rest) [] (opened fd ∷ nonblocking fd ∷ shut fd ∷ closed fd ∷ [])
      (trap_loop rest) (remove_fd_head fd fds) refl refl (loop-Seals fds rest)
loop-Seals fds (client fd true (some []) ∷ rest) =
    Seals-before fds (heard_from rest) [] (opened fd ∷ nonblocking fd ∷ shut fd ∷ closed fd ∷ [])
      (trap_loop rest) (remove_fd_head fd fds) refl refl (loop-Seals fds rest)
loop-Seals fds (client fd true (some (b ∷ bs)) ∷ rest) =
    let bytes = take 511 (b ∷ bs) in
    Seals-before fds (heard_from rest) (c_string bytes ∷ [])
      (opened fd
        ∷ nonblocking fd
        ∷ received fd bytes
        ∷ logged (extracted bytes)
        ∷ shut fd
        ∷ closed fd
        ∷ [])
      (trap_loop rest) (remove_fd_head fd fds) refl
      (ap (λ t. t ∷ logged_bytes (trap_loop rest)) (extracted_lem bytes)) (loop-Seals fds rest)

-- Once the trap runs it never ends, sends nothing to anyone, whatever comes in, and after every round has the
-- server's descriptor open and no client's; and of each client that could be read from it has kept,
-- in order, what it had sent by then, the first 511 bytes of it, up to a NUL. No read gives more than
-- leaves room for a terminator in the buffer of 512.
pub trap_main-seals :
    (c : Calls) (arrivals : List Arrived) (fd : ℕ)
    → c.socket ≡ some fd
    → (trap_main c []).0 ≡ none
    → let r = trap_main c arrivals in
      (r.0 ≡ none)
      × (open_fds [] r.1 ≡ fd ∷ [])
      × (sent_bytes r.1 ≡ [])
      × (logged_bytes r.1 ≡ heard_from arrivals)
      × All (λ bytes. length bytes < 512) (received_bytes r.1)
unfolding trap_main
trap_main-seals c arrivals fd e runs =
    let s = loop-Seals (fd ∷ []) arrivals in
    let good : ((fd == 0) ≡ false)
        × (c.setsockopt ≡ true)
        × (c.bind ≡ true)
        × (c.listen ≡ true)
        × (c.set_nonblocking ≡ true) =
      ground arith in
    rw (e, good.0, good.1, good.2, good.3, good.4)
      (refl, s.open_at_end, s.silent, s.kept, loop-short arrivals)
