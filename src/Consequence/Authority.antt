-- ===== src/Consequence/Authority.antt =====
-- consequence_state.c and gate0_signer.c: what a series of calls does to the authority, and that
-- the signer is never denied.
use gate.Base.{
  ℕ, ◌≡◌, refl, Bool, true, false, List, [], ◌∷◌, Option, none, some, Bytes, truthy, if◌then◌else◌,
  arith,
}
use gate.Consequence.{
  Doubles, ConsequenceState, WalFile, no_path, not_opened, opened, cs_init, cs_update_from_wal,
  cs_evaluate_token_request, cs_suspend_authority, cs_authorized, cs_denied_suspend, cleared,
  read_line, read_lines, any_unsafe, signer_main, default_message,
}
use gate.Text.{file_lines}

-- A call that changes the state.
pub data Change : Type 0 where
  init : ℕ → Change
  update : WalFile → ℕ → Change
  suspend : Bytes → Change

-- Is the authority suspended after these calls, if it is (or is not) before them?
abbrev pub suspended_by : Bool → List Change → Bool
suspended_by b [] = b
suspended_by b (init now ∷ calls) = suspended_by false calls
suspended_by b (update wal now ∷ calls) = suspended_by b calls
suspended_by b (suspend reason ∷ calls) = suspended_by true calls

module _ (F : Doubles) where
  -- A state in which no variable is in use.
  pub record Stands (b : Bool) (cs : ConsequenceState F) : Type 0 where
    pub no_vars : cs.var_count ≡ 0
    pub authority : truthy cs.authority_suspended ≡ b

  unfoldable pub change : Option (ConsequenceState F) → Change → Option (ConsequenceState F)
  change cs (init now) = (cs_init F cs now).1
  change cs (update wal now) = (cs_update_from_wal F cs wal now).1
  change cs (suspend reason) = cs_suspend_authority F cs reason

  unfoldable pub changes : Option (ConsequenceState F) → List Change → Option (ConsequenceState F)
  changes cs [] = cs
  changes cs (c ∷ calls) = changes (change cs c) calls

  read_lines-Stands :
      {b : Bool} (cs : ConsequenceState F) (lines : List Bytes)
      → Stands b cs
      → Stands b (read_lines F cs lines)
  unfolding read_lines read_line
  read_lines-Stands cs [] s = s
  read_lines-Stands cs (line ∷ lines) s =
      read_lines-Stands (read_line F cs line) lines (ground arith)

  -- The answer in such a state.
  answer : Bool → ℕ
  answer b = if b then cs_denied_suspend else cs_authorized

  evaluate-Stands :
      (b : Bool) (cs : ConsequenceState F) (cap var : Bytes) (val : F.Double)
      → Stands b cs
      → cs_evaluate_token_request F (some cs) cap var val ≡ answer b
  unfolding cs_evaluate_token_request answer any_unsafe
  evaluate-Stands true cs cap var val s = rw s.authority refl
  evaluate-Stands false cs cap var val s = rw (s.authority, s.no_vars) refl

  changes-answer :
      (b : Bool) (cs : ConsequenceState F) (calls : List Change) (cap var : Bytes) (val : F.Double)
      → Stands b cs
      → cs_evaluate_token_request F (changes (some cs) calls) cap var val
        ≡ answer (suspended_by b calls)
  unfolding changes change cs_init cs_update_from_wal cs_suspend_authority cleared
  changes-answer b cs [] cap var val s = evaluate-Stands b cs cap var val s
  changes-answer b cs (init now ∷ calls) cap var val s =
      changes-answer false (cleared F now) calls cap var val
        (record { no_vars = refl; authority = refl })
  changes-answer b cs (update no_path now ∷ calls) cap var val s =
      changes-answer b cs calls cap var val s
  changes-answer b cs (update not_opened now ∷ calls) cap var val s =
      changes-answer b cs calls cap var val s
  changes-answer b cs (update (opened file) now ∷ calls) cap var val s =
      let r = read_lines-Stands cs (file_lines file) s in
      changes-answer b _ calls cap var val (record { no_vars = r.no_vars; authority = r.authority })
  changes-answer b cs (suspend reason ∷ calls) cap var val s =
      changes-answer true _ calls cap var val (record { no_vars = s.no_vars; authority = refl })

  -- After `cs_init`, whatever the state held before it, and any further calls, every request, for any
  -- variable and value, is denied as suspended if the authority was suspended after the last
  -- `cs_init`, and is authorised if it was not: no log lifts a suspension or brings one about,
  -- and the limits are never applied.
  pub evaluate-after_init :
      (cs : ConsequenceState F) (now : ℕ) (calls : List Change) (cap var : Bytes) (val : F.Double)
      → cs_evaluate_token_request F (changes (some cs) (init now ∷ calls)) cap var val
        ≡ (if suspended_by false calls then cs_denied_suspend else cs_authorized)
  unfolding changes change cs_init answer cleared
  evaluate-after_init cs now calls cap var val =
      changes-answer false (cleared F now) calls cap var val
        (record { no_vars = refl; authority = refl })

  signer-authorized :
      (stack : ConsequenceState F) (wal : WalFile) (now later : ℕ) (cap var : Bytes)
      (val : F.Double)
      → cs_evaluate_token_request F
          (cs_update_from_wal F (cs_init F (some stack) now).1 wal later).1
          cap
          var
          val
        ≡ cs_authorized
  unfolding changes change
  signer-authorized stack wal now later = evaluate-after_init stack now (update wal later ∷ [])

  -- The signer is never denied: once libsodium has started, it signs the message it is given, or the
  -- default one, and exits with 0, whatever the log holds, and also when the log cannot be opened.
  pub signer_main-signs :
      (sign : Bytes → Bytes) (stack : ConsequenceState F) (wal : WalFile) (now later : ℕ)
      (message : Bytes)
      → (signer_main F sign true stack wal (some message) now later ≡ (0, some (sign message)))
        × (signer_main F sign true stack wal none now later ≡ (0, some (sign default_message)))
  unfolding signer_main
  signer_main-signs sign stack wal now later message =
      let open_gate = signer-authorized stack wal now later in
      (rw open_gate refl, rw open_gate refl)
