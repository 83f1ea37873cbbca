-- ===== src/Tarpit/Sessions.antt =====
-- tarpit_sim.c: one session to a fingerprint, and what becomes of it.
use mathlib.Core.Option
use gate.Base.{
  ℕ, zero, suc, ◌≤◌, ◌<◌, ◌≡◌, Bool, refl, ap, sym, subst, ◌∙◌, true, false, List, [], ◌∷◌, ◌++◌,
  Option, none, some, Bytes, bytes_eq, leb, get_elem?, length, Bool-cases, Option-cases,
  if◌then◌else◌, arith, inl, inr,
}
use gate.Tarpit.{
  Floats, TarpitSession, find_session, new_session, tarpit_engage, advance, tick_session,
  tarpit_tick_all, TarpitCall, engage, tick_all, tarpit_step, tarpit_run,
}

module _ (F : Floats) where
  abbrev pub Session : Type 0
  Session = TarpitSession F

  -- The session of a fingerprint.
  unfoldable pub session_of : Bytes → List Session → Option Session
  session_of fp [] = none
  session_of fp (s ∷ rest) = if bytes_eq s.fingerprint fp then some s else session_of fp rest

  find_session-none :
      (t : List Session) (fp : Bytes) → session_of fp t ≡ none → find_session F t fp ≡ none
  unfolding find_session session_of
  find_session-none [] fp h = refl
  find_session-none (s ∷ rest) fp h = ground (arith, find_session-none rest fp)

  pub find_session-some :
      (t : List Session) (fp : Bytes) (s : Session)
      → session_of fp t ≡ some s
      → (i : ℕ) × (find_session F t fp ≡ some i) × (get_elem? t i ≡ some s)
  unfolding find_session session_of
  find_session-some [] fp s h = absurd (cc)
  find_session-some (r ∷ rest) fp s h = elim (Bool-cases (bytes_eq r.fingerprint fp)) [
    | inl same ↦ (0, rw same refl, ground (arith, same))
    | inr differs ↦
        let (i, found, at) = find_session-some rest fp s (ground (arith, differs)) in
        (suc i, rw (differs, found) refl, at)
  ]

  -- The same session after `n` ticks.
  unfoldable pub ticked : ℕ → Session → Session
  ticked zero s = s
  ticked (suc n) s = ticked n (tick_session F s)

  abbrev pub ticks : List (TarpitCall F) → ℕ
  ticks [] = 0
  ticks (engage fp now ∷ calls) = ticks calls
  ticks (tick_all ∷ calls) = suc (ticks calls)

  tick-fingerprint : (s : Session) → (tick_session F s).fingerprint ≡ s.fingerprint
  unfolding tick_session advance
  tick-fingerprint s = ground arith

  -- A tick of all sessions is a tick of each.
  pub session_of-tick_all :
      (fp : Bytes) (t : List Session)
      → session_of fp (tarpit_tick_all F t) ≡ Option.map (tick_session F) (session_of fp t)
  unfolding session_of tarpit_tick_all tick_session
  session_of-tick_all fp [] = refl
  session_of-tick_all fp (s ∷ rest) = elim (Bool-cases (bytes_eq s.fingerprint fp)) [
    | inl same ↦ rw (tick-fingerprint s, same) refl
    | inr differs ↦ rw (tick-fingerprint s, differs) (session_of-tick_all fp rest)
  ]

  session_of-append :
      (fp : Bytes) (t : List Session) (s r : Session)
      → session_of fp t ≡ some r
      → session_of fp (t ++ s ∷ []) ≡ some r
  unfolding session_of
  session_of-append fp [] s r h = cc
  session_of-append fp (x ∷ t) s r h = ground (arith, session_of-append fp t s r)

  pub session_of-append_new :
      (fp : Bytes) (t : List Session) (s : Session)
      → session_of fp t ≡ none
      → session_of fp (t ++ s ∷ []) ≡ (if bytes_eq s.fingerprint fp then some s else none)
  unfolding session_of
  session_of-append_new fp [] s h = refl
  session_of-append_new fp (x ∷ t) s h = ground (arith, session_of-append_new fp t s)

  -- What a call of `tarpit_engage` does.
  pub data Engaged (t : List Session) (fp : Bytes) (now : ℕ) : Bool × List Session → Type 0 where
    known : (s : Session) → session_of fp t ≡ some s → Engaged t fp now (true, t)
    full : session_of fp t ≡ none → 64 ≤ length t → Engaged t fp now (false, t)
    added :
        session_of fp t ≡ none
        → length t < 64
        → Engaged t fp now (true, t ++ new_session F fp now ∷ [])

  pub engage-Engaged :
      (t : List Session) (fp : Bytes) (now : ℕ) → Engaged t fp now (tarpit_engage F t fp now)
  unfolding tarpit_engage
  engage-Engaged t fp now = elim (Option-cases (session_of fp t)) [
    | inr (s, present) ↦
        let (i, found, at) = find_session-some t fp s present in
        let e : tarpit_engage F t fp now ≡ (true, t) = ground (arith, found) in
        subst (Engaged t fp now) (sym e) (known s present)
    | inl absent ↦
        let missing = find_session-none t fp absent in
        elim (Bool-cases (leb 64 (length t))) [
          | inl no_room ↦
              let e : tarpit_engage F t fp now ≡ (false, t) = ground (arith, missing) in
              subst (Engaged t fp now) (sym e) (full absent (ground arith))
          | inr room ↦
              let e : tarpit_engage F t fp now ≡ (true, t ++ new_session F fp now ∷ []) =
                ground (arith, missing) in
              subst (Engaged t fp now) (sym e) (added absent (ground arith))
        ]
  ]

  Engaged-session :
      {t : List Session} {g : Bytes} {now : ℕ} {r : Bool × List Session} (fp : Bytes) (s : Session)
      → Engaged t g now r
      → session_of fp t ≡ some s
      → session_of fp r.1 ≡ some s
  Engaged-session fp s (known r p) h = h
  Engaged-session fp s (full p l) h = h
  Engaged-session {t} {g} {now} fp s (added p l) h =
      session_of-append fp t (new_session F g now) s h

  -- A session is never lost, and only ticks change it.
  pub run-session :
      (fp : Bytes) (t : List Session) (s : Session) (calls : List (TarpitCall F))
      → session_of fp t ≡ some s
      → session_of fp (tarpit_run F t calls) ≡ some (ticked (ticks calls) s)
  unfolding tarpit_run tarpit_step ticked
  run-session fp t s [] h = h
  run-session fp t s (engage g now ∷ calls) h =
      run-session fp (tarpit_engage F t g now).1 s calls
        (Engaged-session fp s (engage-Engaged t g now) h)
  run-session fp t s (tick_all ∷ calls) h =
      run-session fp (tarpit_tick_all F t) (tick_session F s) calls
        (session_of-tick_all fp t ∙ ap (Option.map (tick_session F)) h)
