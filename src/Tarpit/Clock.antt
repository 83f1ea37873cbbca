-- ===== src/Tarpit/Clock.antt =====
-- tarpit_sim.c: the life of one session, from its engagement to what the attacker is answered.
use native.Mathlib.Decide.{dec_lt}
use gate.Base.{
  ℕ, zero, suc, ◌+◌, ◌≤◌, ◌<◌, ◌≡◌, Bool, refl, ap, sym, subst, ◌∙◌, List, ◌∷◌, ◌++◌, none, some,
  Bytes, bytes_eq_refl, leb, min, length, take, drop, if◌then◌else◌, arith,
}
use gate.Tarpit.{
  Floats, running, stalled, new_session, tarpit_engage, advance, tick_session, response_text,
  tarpit_response, TarpitCall, tarpit_run,
}
use gate.Tarpit.Sessions.{
  Session, session_of, ticked, ticks, find_session-some, Engaged, known, full, added,
  engage-Engaged, run-session, session_of-append_new,
}

module _ (F : Floats) where
  tick-stalled : (s : Session F) → s.state ≡ stalled → tick_session F s ≡ s
  unfolding tick_session
  tick-stalled s h = ground arith

  tick-running : (s : Session F) → s.state ≡ running → tick_session F s ≡ advance F s
  unfolding tick_session
  tick-running s h = ground arith

  ticked-stalled : (n : ℕ) (s : Session F) → s.state ≡ stalled → ticked F n s ≡ s
  unfolding ticked
  ticked-stalled zero s h = refl
  ticked-stalled (suc n) s h = ap (ticked F n) (tick-stalled s h) ∙ ticked-stalled n s h

  -- What time `k` of a session means.
  pub record RunsAt (k : ℕ) (s r : Session F) : Type 0 where
    pub clock : r.tick ≡ min k 501
    pub runs : r.state ≡ (if leb k 500 then running else stalled)
    pub owner : r.fingerprint ≡ s.fingerprint
    pub since : r.last_update_ns ≡ s.last_update_ns

  advance-RunsAt :
      (k : ℕ) (s : Session F)
      → k ≤ 500
      → s.tick ≡ k
      → s.state ≡ running
      → RunsAt (k + 1) s (advance F s)
  unfolding advance
  advance-RunsAt k s le e h = record {
    clock = ground arith;
    runs = ground arith;
    owner = refl;
    since = refl;
  }

  -- A session runs for 500 ticks, and stops at the 501st.
  ticked-RunsAt :
      (n k : ℕ) (s : Session F)
      → k ≤ 500
      → s.tick ≡ k
      → s.state ≡ running
      → RunsAt (k + n) s (ticked F n s)
  unfolding ticked
  ticked-RunsAt zero k s le e h = record {
    clock = ground arith;
    runs = ground arith;
    owner = refl;
    since = refl;
  }
  ticked-RunsAt (suc n) k s le e h =
      let next = advance-RunsAt k s le e h in
      elim (dec_lt k 500) [
        | yes more ↦
            let later =
              ticked-RunsAt n (k + 1) (advance F s) (omega arith) (ground (arith, next.clock))
                (ground (arith, next.runs)) in
            rw (tick-running s h) (record {
              clock = ground (arith, later.clock);
              runs = ground (arith, later.runs);
              owner = later.owner ∙ next.owner;
              since = later.since ∙ next.since;
            })
        | no last ↦
            let stops : ticked F n (tick_session F s) ≡ advance F s =
              ap (ticked F n) (tick-running s h)
              ∙ ticked-stalled n (advance F s) (ground (arith, next.runs)) in
            subst (RunsAt (k + suc n) s) (sym stops) (record {
              clock = ground (arith, next.clock);
              runs = ground (arith, next.runs);
              owner = next.owner;
              since = next.since;
            })
      ]

  engage-new :
      (t : List (Session F)) (fp : Bytes) (now : ℕ)
      → session_of F fp t ≡ none
      → length t < 64
      → session_of F fp (tarpit_engage F t fp now).1 ≡ some (new_session F fp now)
  unfolding new_session
  engage-new t fp now new room = go (engage-Engaged F t fp now)
    where
      go :
          {r : Bool × List (Session F)}
          → Engaged F t fp now r
          → session_of F fp r.1 ≡ some (new_session F fp now)
      go (known s present) = absurd (cc)
      go (full absent no_room) = absurd (omega arith)
      go (added absent _) =
          session_of-append_new F fp t (new_session F fp now) absent ∙ rw (bytes_eq_refl fp) refl

  -- An attacker that is engaged while it is unknown and there is room keeps its session whatever is called
  -- for others: after `n` calls of `tarpit_tick_all` its clock shows `n`, up to 501, the session runs
  -- up to 500 and is stalled from then on, and it is answered the first 127 characters of the text
  -- of that session, a NUL behind them, with the length of the whole text.
  pub engaged-response :
      (t : List (Session F)) (fp : Bytes) (now : ℕ) (calls : List (TarpitCall F)) (buf : Bytes)
      → session_of F fp t ≡ none
      → length t < 64
      → let after = tarpit_run F (tarpit_engage F t fp now).1 calls in
        (s : Session F) × RunsAt (ticks F calls) (new_session F fp now) s
        × (session_of F fp after ≡ some s)
        × (tarpit_response F after fp buf ≡ (
            let text = response_text F s in
            let kept = take 127 text in some (kept ++ 0 ∷ drop (length kept + 1) buf, length text)))
  unfolding tarpit_response new_session
  engaged-response t fp now calls buf new room =
      let s = ticked F (ticks F calls) (new_session F fp now) in
      let at =
        run-session F fp (tarpit_engage F t fp now).1 (new_session F fp now) calls
          (engage-new t fp now new room) in
      let after = tarpit_run F (tarpit_engage F t fp now).1 calls in
      let (i, found, here) = find_session-some F after fp s at in
      (
        s,
        subst (λ k. RunsAt k (new_session F fp now) s) (omega arith)
            (ticked-RunsAt (ticks F calls) 0 (new_session F fp now) (omega arith) refl refl),
        at,
        ground (arith, found, here),
      )
