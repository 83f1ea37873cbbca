-- ===== src/Consequence/Replay.antt =====
-- consequence_state.c: what the state holds after a log has been read.
use mathlib.Core.List.{append-nil}
use gate.Base.{
  ℕ, ◌+◌, ◌^◌, ◌<◌, ◌≡◌, ◌≢◌, refl, ap, ap₂, sym, subst, ◌∙◌, false, List, [], ◌∷◌, ◌++◌, map, some,
  Bytes, bytes_eq, length, take, u64, All, arith,
}
use gate.Text.{line_room, newline, file_lines}
use gate.Text.Numbers.{
  Numeral, numeral_text, numeral_value, IsNumeral, End, bare, closed, end_text, strtoull-numeral,
}
use gate.Text.Lines.{
  IsLine, written, ended, unended, file_lines-file, file_lines-written, file_lines-cut,
}
use gate.Consequence.{
  Doubles, ConsequenceState, opened, seq_mark, read_line, read_lines, cs_update_from_wal,
  cs_authorized,
}
use gate.Consequence.Entries.{
  Entry, executed, other, text, IsEntry, last_number, count_executed, mark-end, entry_of,
}

module _ (F : Doubles) where
  -- The state with these two counts.
  abbrev counts : ConsequenceState F → ℕ → ℕ → ConsequenceState F
  counts cs last commands = record cs { last_sequence = last; commands_executed = commands }

  read_line-executed :
      (cs : ConsequenceState F) (m : Numeral) (k : End)
      → IsNumeral m
      → read_line F cs ((seq_mark ++ numeral_text m) ++ end_text k)
        ≡ counts cs (numeral_value m) (u64 (cs.commands_executed + 1))
  unfolding read_line bytes_eq
  read_line-executed cs m k v = rw (strtoull-numeral m k v) refl

  read_line-other :
      (cs : ConsequenceState F) (t : Bytes) (k : End)
      → bytes_eq (take 4 t) seq_mark ≡ false
      → read_line F cs (t ++ end_text k) ≡ cs
  unfolding read_line
  read_line-other cs t k h = rw (mark-end t k h) refl

  -- The state after one entry.
  abbrev step : ConsequenceState F → Entry → ConsequenceState F
  step cs (executed m) = counts cs (numeral_value m) (u64 (cs.commands_executed + 1))
  step cs (other t) = cs

  read_line-step :
      (cs : ConsequenceState F) (e : Entry) (k : End)
      → IsEntry e
      → read_line F cs (text e ++ end_text k) ≡ step cs e
  read_line-step cs (executed m) k v = read_line-executed cs m k v
  read_line-step cs (other t) k v = read_line-other cs t k v

  -- The state after these entries.
  abbrev after : ConsequenceState F → List Entry → ConsequenceState F
  after cs es =
      counts cs (last_number cs.last_sequence es) (u64 (cs.commands_executed + count_executed es))

  after-step :
      (cs : ConsequenceState F) (e : Entry) (es : List Entry)
      → after (step cs e) es ≡ after cs (e ∷ es)
  after-step cs (executed m) es = ap (counts cs (last_number (numeral_value m) es)) (omega arith)
  after-step cs (other t) es = refl

  step-lt :
      (cs : ConsequenceState F) (e : Entry)
      → cs.commands_executed < 2 ^ 64
      → (step cs e).commands_executed < 2 ^ 64
  step-lt cs (executed m) lt = omega arith
  step-lt cs (other t) lt = lt

  -- The entries of these lines, and the state that they lead to.
  abbrev Reads : ConsequenceState F → List Bytes → List Bytes → Type 0
  Reads cs lines given =
      (es : List Entry) × (map text es ≡ lines)
      × All IsEntry es
      × (read_lines F cs given ≡ after cs es)

  Reads-line :
      (cs : ConsequenceState F) (l : Bytes) (k : End) (lines given : List Bytes)
      → ((c : ConsequenceState F) → c.commands_executed < 2 ^ 64 → Reads c lines given)
      → cs.commands_executed < 2 ^ 64
      → Reads cs (l ∷ lines) ((l ++ end_text k) ∷ given)
  unfolding read_lines
  Reads-line cs l k lines given rest lt =
      let (e, same, v) = entry_of l in
      let (es, others, vs, reads) = rest (step cs e) (step-lt cs e lt) in
      let line : read_line F cs (l ++ end_text k) ≡ step cs e =
        ap (λ t. read_line F cs (t ++ end_text k)) (sym same) ∙ read_line-step cs e k v in
      (
        e ∷ es,
        ap₂ ◌∷◌ same others,
        (v, vs),
        ap (λ c. read_lines F c given) line ∙ reads ∙ after-step cs e es,
      )

  Reads-none : (cs : ConsequenceState F) → cs.commands_executed < 2 ^ 64 → Reads cs [] []
  unfolding read_lines
  Reads-none cs lt = ([], refl, tt, ground arith)

  Reads-file :
      (ls : List Bytes) (last : Bytes) (cs : ConsequenceState F)
      → cs.commands_executed < 2 ^ 64
      → Reads cs (ls ++ unended last) (ended ls ++ unended last)
  Reads-file [] [] cs lt = Reads-none cs lt
  Reads-file [] (b ∷ bs) cs lt =
      subst (λ t. Reads cs ((b ∷ bs) ∷ []) (t ∷ [])) (append-nil (b ∷ bs))
        (Reads-line cs (b ∷ bs) bare [] [] Reads-none lt)
  Reads-file (l ∷ ls) last cs lt =
      Reads-line cs l closed (ls ++ unended last) (ended ls ++ unended last) (Reads-file ls last) lt

  -- From any file whose lines have fewer than 511 characters each, the last of them with or without its newline: the
  -- lines are, in order, entries of which those that begin with `SEQ:` go on with spaces, a sign and
  -- digits, each of which may be missing, and a note. The state takes the number of the last `SEQ:`
  -- line, or keeps its number if there is none. That is the number that the digits spell, 0 if there
  -- are none, and up to ULLONG_MAX; behind a minus sign, unless it is too large, it is taken from
  -- 2^64. The state counts these lines modulo 2^64 and changes nothing else but the time. Numbers
  -- are taken as they come, whether they grow or not.
  pub update-entries :
      (cs : ConsequenceState F) (ls : List Bytes) (last : Bytes) (now : ℕ)
      → All IsLine ls
      → IsLine last
      → cs.commands_executed < 2 ^ 64
      → (es : List Entry) × (map text es ≡ ls ++ unended last)
        × All IsEntry es
        × (cs_update_from_wal F (some cs) (opened (written ls ++ last)) now ≡ (
          cs_authorized,
          some (record cs {
            last_sequence = last_number cs.last_sequence es;
            commands_executed = u64 (cs.commands_executed + count_executed es);
            last_update = now;
          }),
        ))
  unfolding cs_update_from_wal
  update-entries cs ls last now h v fits =
      let (es, same, vs, reads) = Reads-file ls last cs fits in
      (es, same, vs, rw (file_lines-file ls last h v, reads) refl)

  -- One line can hold a second record: if a line of 511 characters or more does not begin with `SEQ:` but
  -- has `SEQ:` at its 512th character, then the log counts one command and takes the number behind it.
  pub update-forged :
      (cs : ConsequenceState F) (front : Bytes) (m : Numeral) (now : ℕ)
      → All (λ b. b ≢ newline) front
      → length front ≡ line_room
      → bytes_eq (take 4 front) seq_mark ≡ false
      → IsLine (text (executed m))
      → IsNumeral m
      → cs_update_from_wal F (some cs) (opened (front ++ written (text (executed m) ∷ []))) now ≡ (
        cs_authorized,
        some (record cs {
          last_sequence = numeral_value m;
          commands_executed = u64 (cs.commands_executed + 1);
          last_update = now;
        }),
      )
  unfolding cs_update_from_wal read_lines
  update-forged cs front m now one n plain line v =
      let mark = text (executed m) ∷ [] in
      let lines : file_lines (front ++ written mark) ≡ front ∷ ended mark =
        file_lines-cut front (written mark) one n
        ∙ ap (λ ls. front ∷ ls) (file_lines-written mark (line, tt)) in
      let same : read_line F cs front ≡ cs = unfold read_line in rw plain refl in
      rw (lines, same, read_line-executed cs m closed v) refl
