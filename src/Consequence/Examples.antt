-- ===== src/Consequence/Examples.antt =====
-- consequence_state.c and gate0_signer.c at concrete values, with natural numbers for floating-point ones.
use gate.Base.{
  c_string, ℕ, ◌+◌, ◌≡◌, ◌≢◌, ◌↔◌, ◌⊎◌, refl, true, List, [], ◌∷◌, ◌++◌, some, none, Bytes, ltb,
  bytes_eq, replicate, zero, suc, All, map, arith, u64, codes, ◌-◌, ◌^◌,
}
use gate.Consequence.{
  Doubles, ProcessVar, ConsequenceState, no_path, opened, not_opened, cs_update_from_wal,
  cs_evaluate_token_request, cs_authorized, cs_denied_suspend, cs_denied_unsafe, any_unsafe,
  read_line, read_lines, signer_main, default_message,
}
use gate.Text.{newline, strtoull, split, file_lines}
use gate.Consequence.Limits.{Respects, evaluate_token_iff}
use gate.Consequence.Authority.{
  init, update, suspend, changes, evaluate-after_init, signer_main-signs,
}
use gate.Text.Numbers.{Numeral, unsigned, IsNumeral}
use gate.Text.Lines.{IsLine, unended, written}
use gate.Consequence.Entries.{Entry, executed, text, IsEntry, last_number, count_executed}
use gate.Consequence.Replay.{update-entries, update-forged}

abbrev whole : Doubles
whole = record { Double = ℕ; less = ltb; zeroed = 0 }

-- One variable in use, "p", safe from 10 to 20.
abbrev pressure : ProcessVar whole
pressure = record {
  name = b'p' ∷ 0 ∷ [];
  value = 12;
  min_safe = 10;
  max_safe = 20;
  in_violation = 0;
}

abbrev running : ConsequenceState whole
running = record {
  last_sequence = 3;
  commands_executed = 2;
  last_update = 0;
  var_count = 1;
  vars = pressure ∷ [];
  authority_suspended = 0;
  suspension_reason = [];
}

too_high : cs_evaluate_token_request whole (some running) [] (b'p' ∷ []) 21 ≡ cs_denied_unsafe
unfolding cs_evaluate_token_request any_unsafe c_string bytes_eq
too_high = refl

evaluate_token_iff_example :
    let code = cs_evaluate_token_request whole (some running) [] (b'p' ∷ []) 21 in
    ((code ≡ cs_authorized)
      ↔ ((running.authority_suspended ≡ 0) × All (Respects whole (b'p' ∷ []) 21) (pressure ∷ [])))
    × ((code ≡ cs_denied_suspend) ↔ (running.authority_suspended ≢ 0))
    × ((code ≡ cs_authorized) ⊎ ((code ≡ cs_denied_suspend) ⊎ (code ≡ cs_denied_unsafe)))
evaluate_token_iff_example = evaluate_token_iff whole running [] (b'p' ∷ []) 21

evaluate-after_init_example :
    cs_evaluate_token_request whole
      (changes whole (some running) (init 5 ∷ suspend (b'x' ∷ []) ∷ update no_path 6 ∷ []))
      []
      (b'p' ∷ [])
      99
    ≡ cs_denied_suspend
evaluate-after_init_example =
    evaluate-after_init whole running 5 (suspend (b'x' ∷ []) ∷ update no_path 6 ∷ []) [] (b'p' ∷ [])
      99

-- A stand-in for signing.
abbrev toy_sign : Bytes → Bytes
toy_sign m = 7 ∷ m

signer_main-signs_example :
    (signer_main whole toy_sign true running not_opened (some (b'm' ∷ [])) 1 2
      ≡ (0, some (toy_sign (b'm' ∷ []))))
    × (signer_main whole toy_sign true running not_opened none 1 2
        ≡ (0, some (toy_sign default_message)))
signer_main-signs_example = signer_main-signs whole toy_sign running not_opened 1 2 (b'm' ∷ [])

abbrev lines : List Bytes
lines = codes "SEQ:7 on" ∷ codes "# x" ∷ []

-- With no newline behind it.
abbrev last : Bytes
last = codes "SEQ: -5"

lines-IsLine : All IsLine lines
lines-IsLine = (
  record { one_line = omega arith; fits = omega arith },
  (record { one_line = omega arith; fits = omega arith }, tt),
)

last-IsLine : IsLine last
last-IsLine = record { one_line = omega arith; fits = omega arith }

update-entries_example :
    (es : List Entry) × (map text es ≡ lines ++ unended last)
    × All IsEntry es
    × (cs_update_from_wal whole (some running) (opened (written lines ++ last)) 9 ≡ (
      cs_authorized,
      some (record running {
        last_sequence = last_number 3 es;
        commands_executed = u64 (2 + count_executed es);
        last_update = 9;
      }),
    ))
update-entries_example =
    update-entries whole running lines last 9 lines-IsLine last-IsLine (omega arith)

-- The last number is taken from 2^64.
counted_down : cs_update_from_wal whole (some running) (opened (written lines ++ last)) 9 ≡ (
  cs_authorized,
  some (record running { last_sequence = 2 ^ 64 - 5; commands_executed = 4; last_update = 9 }),
)
unfolding cs_update_from_wal written file_lines split read_lines read_line strtoull bytes_eq
counted_down = refl

numbers : (strtoull (b' ' ∷ b'-' ∷ b'1' ∷ []) ≡ 18446744073709551615) × (strtoull (b'x' ∷ []) ≡ 0)
unfolding strtoull
numbers = (refl, refl)

not_newline : (n : ℕ) → All (λ b. b ≢ newline) (replicate n b'a')
not_newline zero = tt
not_newline (suc n) = (omega arith, not_newline n)

abbrev seven : Numeral
seven = record { spaces = []; sign = unsigned; digits = b'7' ∷ []; note = codes " on" }

seven-IsNumeral : IsNumeral seven
seven-IsNumeral = record {
  blank = tt;
  decimal = (omega arith, tt);
  stops = λ d. absurd (omega (arith, d.0));
}

update-forged_example :
    cs_update_from_wal whole
      (some running)
      (opened (replicate 511 b'a' ++ written (text (executed seven) ∷ [])))
      9
    ≡ (
      cs_authorized,
      some (record running { last_sequence = 7; commands_executed = u64 (2 + 1); last_update = 9 }),
    )
unfolding bytes_eq
update-forged_example =
    update-forged whole running (replicate 511 b'a') seven 9 (not_newline 511) refl refl
      (lines-IsLine.0) seven-IsNumeral
