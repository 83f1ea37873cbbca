-- ===== src/Executive/Once.antt =====
-- src/gate0_daemon.c: which commands the one-shot daemon accepts.
use gate.Base.{
  ◌≤◌, ◌<◌, ◌≡◌, ◌↔◌, refl, ap, sym, ◌∙◌, some, Bytes, length, replicate, le_bytes, of_le,
  of_le-le_bytes, pow256, ◌==◌, true, arith, Bool,
}
use gate.Command.{
  GateResult, ok, SignedCommand, Verify, result_code, decode_command, encode_envelope,
}
use gate.Core.{evaluate_command, payload_word, payload_key, bootstrap_magic}
use gate.Core.Accept.{Authorised, enrolled, first_contact, evaluate-ok_iff}
use gate.Executive.{no_sender, no_interlock, fixed_now, serve_once}

-- What the one command must be.
pub record IsBootstrap (verify : Verify) (cmd : SignedCommand) : Type 0 where
  pub word : payload_word cmd ≡ bootstrap_magic
  pub first : cmd.envelope.sequence ≡ 1
  pub issued : cmd.envelope.issued_at_ns ≤ fixed_now
  pub fresh : fixed_now ≤ cmd.envelope.expires_at_ns
  pub signed : verify cmd.signature (encode_envelope cmd.envelope) (payload_key cmd) ≡ Bool.true

code_small : (r : GateResult) → result_code r < pow256 4
unfolding result_code
code_small r = ground arith

code_zero : (r : GateResult) → result_code r ≡ 0 → r ≡ ok
unfolding result_code
code_zero r h = ground arith

pub code-ok : (r : GateResult) → le_bytes 4 (result_code r) ≡ replicate 4 0 → r ≡ ok
code-ok r h =
    let zero_word : of_le (le_bytes 4 (result_code r)) ≡ 0 = ap of_le h ∙ unfold of_le in refl in
    code_zero r (sym (of_le-le_bytes 4 (result_code r) (code_small r)) ∙ zero_word)

IsBootstrap-cases :
    (verify : Verify) (cmd : SignedCommand)
    → Authorised verify cmd no_sender no_interlock fixed_now
    → IsBootstrap verify cmd
unfolding no_sender
IsBootstrap-cases verify cmd (enrolled c u q w v) = cc
IsBootstrap-cases verify cmd (first_contact c u m q w v) = record {
  word = m;
  first = q;
  issued = w.issued;
  fresh = w.fresh;
  signed = v;
}

bootstrap-Authorised :
    (verify : Verify) (cmd : SignedCommand)
    → IsBootstrap verify cmd
    → Authorised verify cmd no_sender no_interlock fixed_now
unfolding no_sender no_interlock
bootstrap-Authorised verify cmd b =
    first_contact (record { estop = refl; overspeed = refl; overtemp = refl; overvoltage = refl })
      refl b.word b.first (record { issued = b.issued; fresh = b.fresh }) b.signed

-- The one client is answered GO_OK exactly when it sends 390 bytes that enrol it: the bootstrap word,
-- sequence number 1, a window that contains the moment 1750000000000000, and a signature by the key in
-- the payload. No command that means anything else is ever accepted.
pub serve_once_iff :
    (verify : Verify) (received : Bytes)
    → (serve_once verify received ≡ some (replicate 4 0))
      ↔ ((length received ≡ 390) × IsBootstrap verify (decode_command received))
unfolding serve_once
serve_once_iff verify received =
    let cmd = decode_command received in
    let verdict = (evaluate_command verify cmd no_sender no_interlock fixed_now).0 in
    let accepts = evaluate-ok_iff verify cmd no_sender no_interlock fixed_now in
    (
      λ h.
          let heard : (length received ≡ 390) × (verdict ≡ ok) = ground (arith, code-ok verdict) in
          (heard.0, IsBootstrap-cases verify cmd (accepts.0 heard.1)),
      λ b.
          let whole : (length received == 390) ≡ true = ground (arith, b.0) in
          let said : le_bytes 4 (result_code verdict) ≡ replicate 4 0 =
            ap (λ r. le_bytes 4 (result_code r)) (accepts.1 (bootstrap-Authorised verify cmd b.1))
            ∙ unfold le_bytes result_code in refl in
          rw (whole, said) refl,
    )
