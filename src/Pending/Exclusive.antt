-- ===== src/Pending/Exclusive.antt =====
-- pending_state.c: a command that awaits confirmation keeps every other one out.
use gate.Base.{
  replicate, length, ℕ, ◌≤◌, ◌<◌, ◌≡◌, ◌≢◌, refl, ap, sym, ◌⊎◌, inl, List, [], ◌∷◌, Bytes, All,
  arith,
}
use gate.Pending.{
  PendingState, pending, confirmed, expired, done, refused, Call, ps_init, sets, confirms, checks,
  clock, step, run, outcomes, ps_set_pending, ps_check_safe,
}

-- A call while `seq` is pending that neither confirms it nor comes after its expiry.
abbrev pub IsBefore : ℕ → ℕ → Call → Type 0
IsBefore seq expiry c = (clock c ≤ expiry) × ((t : ℕ) → c ≢ confirms seq t)

step-blocked :
    (ps : PendingState) (c : Call)
    → ps.status ≡ pending
    → IsBefore ps.sequence ps.expiry_ns c
    → step ps c ≡ (refused, ps)
unfolding step
step-blocked ps (sets seq expiry_ns dev_id t) p b = ground arith
step-blocked ps (confirms seq t) p b =
    let other : ps.sequence ≢ seq = λ e. b.1 t (ap (λ n. confirms n t) (sym e)) in ground arith
step-blocked ps (checks t) p b = ground arith

-- Until it is confirmed by its own number or its expiry has passed, a pending command makes every
-- call be refused and stays as it was.
pub run_blocked :
    (ps : PendingState) (calls : List Call)
    → ps.status ≡ pending
    → All (IsBefore ps.sequence ps.expiry_ns) calls
    → (run ps calls ≡ ps) × (outcomes ps calls ≡ replicate (length calls) refused)
unfolding run outcomes
run_blocked ps [] p b = (refl, refl)
run_blocked ps (c ∷ rest) p b =
    let first = step-blocked ps c p b.0 in
    let later = run_blocked ps rest p b.1 in (rw first later.0, rw (first, later.1) refl)

-- Once its expiry has passed without a confirmation, the pending command holds nothing up: the check
-- for a new command passes, and a new command takes its place.
pub expired_yields :
    (ps : PendingState) (seq expiry_ns t u : ℕ) (dev_id : Bytes)
    → ps.status ≡ pending
    → ps.expiry_ns < t
    → let (checked, ps') = ps_check_safe ps t in
      let (set, ps'') = ps_set_pending ps seq expiry_ns dev_id t u in
      (checked ≡ done)
      × (ps'.status ≡ expired)
      × (set ≡ done)
      × (ps''.status ≡ pending)
      × (ps''.sequence ≡ seq)
unfolding ps_check_safe ps_set_pending
expired_yields ps seq expiry_ns t u dev_id p lt = ground arith

-- A confirmation of `seq` is among the calls.
abbrev pub ConfirmedIn : ℕ → List Call → Type 0
ConfirmedIn seq [] = ⊥
ConfirmedIn seq (confirms n t ∷ rest) = (n ≡ seq) ⊎ ConfirmedIn seq rest
ConfirmedIn seq (sets n e d t ∷ rest) = ConfirmedIn seq rest
ConfirmedIn seq (checks t ∷ rest) = ConfirmedIn seq rest

-- `seq` is set by one of the calls and confirmed by a later one.
abbrev pub SetThenConfirmed : ℕ → List Call → Type 0
SetThenConfirmed seq [] = ⊥
SetThenConfirmed seq (sets n e d t ∷ rest) =
    ((n ≡ seq) × ConfirmedIn seq rest) ⊎ SetThenConfirmed seq rest
SetThenConfirmed seq (confirms n t ∷ rest) = SetThenConfirmed seq rest
SetThenConfirmed seq (checks t ∷ rest) = SetThenConfirmed seq rest

-- How a state comes to be confirmed: it was from the start, its pending command was confirmed, or a
-- later command was set and then confirmed.
abbrev Origin : PendingState → List Call → ℕ → Type 0
Origin ps calls seq =
    ((ps.status ≡ confirmed) × (seq ≡ ps.sequence))
    ⊎ ((ps.status ≡ pending) × (seq ≡ ps.sequence) × ConfirmedIn seq calls)
    ⊎ SetThenConfirmed seq calls

run-Origin :
    (ps : PendingState) (calls : List Call)
    → (run ps calls).status ≡ confirmed
    → Origin ps calls (run ps calls).sequence
unfolding run step
run-Origin ps [] h = inl (h, refl)
run-Origin ps (sets n e d t ∷ rest) h = ground (arith, run-Origin (step ps (sets n e d t)).1 rest h)
run-Origin ps (confirms n t ∷ rest) h = ground (arith, run-Origin (step ps (confirms n t)).1 rest h)
run-Origin ps (checks t ∷ rest) h = ground (arith, run-Origin (step ps (checks t)).1 rest h)

-- From the initial state, a command counts as confirmed only if it was set as pending and, by a later
-- call, confirmed under its own sequence number.
pub confirmed_needs_set :
    (calls : List Call)
    → (run ps_init calls).status ≡ confirmed
    → SetThenConfirmed (run ps_init calls).sequence calls
unfolding ps_init
confirmed_needs_set calls h = ground (arith, run-Origin ps_init calls h)
