-- ===== src/Tarpit/Examples.antt =====
-- tarpit_sim.c at concrete values, with natural numbers for floating-point ones.
use gate.Base.{
  ℕ, zero, suc, ◌+◌, ◌-◌, ◌*◌, ◌≡◌, refl, false, List, [], ◌∷◌, ◌++◌, some, Bytes, bytes_eq, length,
  take, drop, replicate, arith,
}
use gate.Tarpit.{
  Floats, tarpit_init, new_session, tarpit_engage, find_session, response_text, tarpit_response,
  TarpitCall, engage, tick_all, tarpit_tick_all, tarpit_step, tarpit_run, decimal, tick_session,
  advance,
}
use gate.Tarpit.Sessions.{Session, session_of}
use gate.Tarpit.Clock.{RunsAt, engaged-response}
use gate.Tarpit.Capacity.{IsTable, full_forever}

abbrev whole : Floats
whole = record {
  Float = ℕ;
  literal = λ digits places. digits;
  of_int = λ n. n;
  plus = λ a b. a + b;
  minus = λ a b. a - b;
  times = λ a b. a * b;
  fixed = λ places a. a ∷ [];
}

abbrev attacker : Bytes
attacker = replicate 32 7

abbrev calls : List (TarpitCall whole)
calls = tick_all ∷ engage (replicate 32 8) 6 ∷ tick_all ∷ []

printed : decimal 501 ≡ b'5' ∷ b'0' ∷ b'1' ∷ []
unfolding decimal
printed = refl

engaged-response_example :
    let after = tarpit_run whole (tarpit_engage whole [] attacker 5).1 calls in
    (s : Session whole) × RunsAt whole 2 (new_session whole attacker 5) s
    × (session_of whole attacker after ≡ some s)
    × (tarpit_response whole after attacker (replicate 128 0) ≡ (
        let text = response_text whole s in
        let kept = take 127 text in
        some (kept ++ 0 ∷ drop (length kept + 1) (replicate 128 0), length text)))
unfolding session_of
engaged-response_example =
    engaged-response whole [] attacker 5 calls (replicate 128 0) refl (omega arith)

-- 64 attackers.
abbrev crowd : ℕ → List (TarpitCall whole)
crowd zero = []
crowd (suc n) = engage (replicate 32 n) 1 ∷ crowd n

full_forever_example :
    let t = tarpit_run whole (tarpit_run whole (tarpit_init whole) (crowd 64)) calls in
    (tarpit_engage whole t (replicate 32 99) 2 ≡ (false, t)) × IsTable whole t
unfolding tarpit_run tarpit_step tarpit_engage find_session bytes_eq tarpit_init new_session
    session_of tarpit_tick_all tick_session advance
full_forever_example = full_forever whole (crowd 64) calls (replicate 32 99) 2 refl refl
