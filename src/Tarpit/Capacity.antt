-- ===== src/Tarpit/Capacity.antt =====
-- tarpit_sim.c: the table of sessions never holds a fingerprint twice, fills up and is never emptied.
use gate.Base.{
  ℕ, suc, ◌≤◌, ◌≡◌, Bool, refl, ap, ap₂, inl, inr, ◌∙◌, false, List, [], ◌∷◌, ◌++◌, none, Bytes,
  bytes_eq, bytes_eq→eq, bytes_eq_refl, length, length-append, arith, Bool-cases,
}
use gate.Tarpit.{
  Floats, tarpit_init, new_session, tarpit_engage, advance, tick_session, tarpit_tick_all,
  TarpitCall, engage, tick_all, tarpit_step, tarpit_run,
}
use gate.Tarpit.Sessions.{
  Session, session_of, Engaged, known, full, added, engage-Engaged, session_of-append_new,
  session_of-tick_all,
}

module _ (F : Floats) where
  -- No fingerprint stands twice.
  pub Distinct : List (Session F) → Type 0
  Distinct [] = Unit {0}
  Distinct (s ∷ rest) = (session_of F s.fingerprint rest ≡ none) × Distinct rest

  Distinct-append :
      (t : List (Session F)) (s : Session F)
      → Distinct t
      → session_of F s.fingerprint t ≡ none
      → Distinct (t ++ s ∷ [])
  unfolding Distinct session_of
  Distinct-append [] s d h = (refl, tt)
  Distinct-append (x ∷ t) s d h =
      let apart : bytes_eq s.fingerprint x.fingerprint ≡ false =
        elim (Bool-cases (bytes_eq s.fingerprint x.fingerprint)) [
          | inr no_match ↦ no_match
          | inl same ↦
              ground
                (arith, bytes_eq→eq s.fingerprint x.fingerprint same, bytes_eq_refl s.fingerprint)
        ] in
      (
        session_of-append_new F x.fingerprint t s d.0 ∙ rw apart refl,
        Distinct-append t s d.1 (ground arith),
      )

  tick-same_fingerprint : (s : Session F) → (tick_session F s).fingerprint ≡ s.fingerprint
  unfolding tick_session advance
  tick-same_fingerprint s = ground arith

  session_of-tick_none :
      (fp : Bytes) (t : List (Session F))
      → session_of F fp t ≡ none
      → session_of F fp (tarpit_tick_all F t) ≡ none
  session_of-tick_none fp t h = session_of-tick_all F fp t ∙ rw h refl

  Distinct-tick : (t : List (Session F)) → Distinct t → Distinct (tarpit_tick_all F t)
  unfolding Distinct tarpit_tick_all
  Distinct-tick [] d = tt
  Distinct-tick (s ∷ t) d =
      (rw (tick-same_fingerprint s) (session_of-tick_none s.fingerprint t d.0), Distinct-tick t d.1)

  length-tick : (t : List (Session F)) → length (tarpit_tick_all F t) ≡ length t
  unfolding tarpit_tick_all
  length-tick [] = refl
  length-tick (s ∷ t) = ap suc (length-tick t)

  -- A table that the code can have made.
  pub record IsTable (t : List (Session F)) : Type 0 where
    pub distinct : Distinct t
    pub within : length t ≤ 64

  Engaged-IsTable :
      {t : List (Session F)} {fp : Bytes} {now : ℕ} {r : Bool × List (Session F)}
      → Engaged F t fp now r
      → IsTable t
      → IsTable r.1
  unfolding new_session
  Engaged-IsTable (known s p) v = v
  Engaged-IsTable (full p l) v = v
  Engaged-IsTable {t} {fp} {now} (added p l) v = record {
    distinct = Distinct-append t (new_session F fp now) v.distinct p;
    within = omega (arith, length-append t (new_session F fp now ∷ []));
  }

  run-IsTable :
      (t : List (Session F)) (calls : List (TarpitCall F))
      → IsTable t
      → IsTable (tarpit_run F t calls)
  unfolding tarpit_run tarpit_step
  run-IsTable t [] v = v
  run-IsTable t (engage fp now ∷ calls) v =
      run-IsTable (tarpit_engage F t fp now).1 calls (Engaged-IsTable (engage-Engaged F t fp now) v)
  run-IsTable t (tick_all ∷ calls) v = run-IsTable (tarpit_tick_all F t) calls (record {
    distinct = Distinct-tick t v.distinct;
    within = omega (arith, length-tick t, v.within);
  })

  Engaged-refused :
      {t : List (Session F)} {fp : Bytes} {now : ℕ} {r : Bool × List (Session F)}
      → Engaged F t fp now r
      → length t ≡ 64
      → (r.1 ≡ t) × (session_of F fp t ≡ none → r.0 ≡ false)
  Engaged-refused (known s p) n = (refl, λ h. absurd (cc))
  Engaged-refused (full p l) n = (refl, λ h. refl)
  Engaged-refused (added p l) n = absurd (omega arith)

  run-full :
      (t : List (Session F)) (calls : List (TarpitCall F)) (fp : Bytes)
      → length t ≡ 64
      → session_of F fp t ≡ none
      → (length (tarpit_run F t calls) ≡ 64) × (session_of F fp (tarpit_run F t calls) ≡ none)
  unfolding tarpit_run tarpit_step
  run-full t [] fp n h = (n, h)
  run-full t (engage g now ∷ calls) fp n h =
      rw ((Engaged-refused (engage-Engaged F t g now) n).0) (run-full t calls fp n h)
  run-full t (tick_all ∷ calls) fp n h =
      run-full (tarpit_tick_all F t) calls fp (length-tick t ∙ n) (session_of-tick_none fp t h)

  -- Once calls from `tarpit_init` have brought 64 sessions into use, an attacker that is not among them is
  -- refused for good, whatever is called later, with the table left as it is: no session is ever
  -- given back. The table has at most 64 sessions, no two of one fingerprint, throughout.
  pub full_forever :
      (calls later : List (TarpitCall F)) (fp : Bytes) (now : ℕ)
      → length (tarpit_run F (tarpit_init F) calls) ≡ 64
      → session_of F fp (tarpit_run F (tarpit_init F) calls) ≡ none
      → let t = tarpit_run F (tarpit_run F (tarpit_init F) calls) later in
        (tarpit_engage F t fp now ≡ (false, t)) × IsTable t
  unfolding Distinct
  full_forever calls later fp now n h =
      let t = tarpit_run F (tarpit_init F) calls in
      let (still, absent) = run-full t later fp n h in
      let (same, refused) =
        Engaged-refused (engage-Engaged F (tarpit_run F t later) fp now) still in
      (
        ap₂ (λ b x. (b, x)) (refused absent) same,
        run-IsTable t later (
            run-IsTable (tarpit_init F) calls
              (unfold tarpit_init in record { distinct = tt; within = omega arith })),
      )
