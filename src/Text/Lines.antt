-- ===== src/Text/Lines.antt =====
-- How `fgets` cuts a file into lines.
use mathlib.Core.List.{append_assoc, append-nil}
use gate.Base.{
  ℕ, ◌-◌, ◌<◌, ◌≡◌, ◌≢◌, refl, ap, sym, ◌∙◌, List, [], ◌∷◌, ◌++◌, Bytes, length, All, arith,
}
use gate.Text.{line_room, newline, join, split, file_lines}

-- A line with no newline in it and room for one.
pub record IsLine (l : Bytes) : Type 0 where
  pub one_line : All (λ b. b ≢ newline) l
  pub fits : length l < line_room

abbrev pub with_newline : Bytes → Bytes
with_newline l = l ++ newline ∷ []

-- A file of such lines.
unfoldable pub written : List Bytes → Bytes
written [] = []
written (l ∷ ls) = l ++ newline ∷ written ls

-- The lines as `fgets` gives them.
abbrev pub ended : List Bytes → List Bytes
ended [] = []
ended (l ∷ ls) = with_newline l ∷ ended ls

split-line :
    (room : ℕ) (l rest : Bytes)
    → All (λ b. b ≢ newline) l
    → length l < room
    → split room (l ++ newline ∷ rest) ≡ (with_newline l, file_lines rest)
unfolding split file_lines
split-line room [] rest h fits = refl
split-line room (b ∷ l) rest h fits =
    ground (arith, split-line (room - 1) l rest h.1 (omega arith), h.0)

file_lines-line :
    (l rest : Bytes)
    → IsLine l
    → file_lines (l ++ newline ∷ rest) ≡ with_newline l ∷ file_lines rest
unfolding file_lines
file_lines-line [] rest v = ap join (split-line line_room [] rest v.one_line v.fits)
file_lines-line (b ∷ l) rest v = ap join (split-line line_room (b ∷ l) rest v.one_line v.fits)

-- What stands behind the last newline, if anything does.
abbrev pub unended : Bytes → List Bytes
unended [] = []
unended (b ∷ bs) = (b ∷ bs) ∷ []

split-rest :
    (room : ℕ) (l : Bytes) → All (λ b. b ≢ newline) l → length l < room → split room l ≡ (l, [])
unfolding split
split-rest room [] h fits = refl
split-rest room (b ∷ l) h fits = ground (arith, split-rest (room - 1) l h.1 (omega arith), h.0)

-- The lines of any file whose lines have fewer than 511 characters.
pub file_lines-file :
    (ls : List Bytes) (last : Bytes)
    → All IsLine ls
    → IsLine last
    → file_lines (written ls ++ last) ≡ ended ls ++ unended last
unfolding written file_lines
file_lines-file [] [] h v = unfold split in refl
file_lines-file [] (b ∷ bs) h v = ap join (split-rest line_room (b ∷ bs) v.one_line v.fits)
file_lines-file (l ∷ ls) last h v =
    ap file_lines (append_assoc l (newline ∷ written ls) last)
    ∙ file_lines-line l (written ls ++ last) h.0
    ∙ ap (λ r. with_newline l ∷ r) (file_lines-file ls last h.1 v)

-- `fgets` gives back the lines of a file, each with its newline, as long as they have fewer than 511
-- characters.
pub file_lines-written : (ls : List Bytes) → All IsLine ls → file_lines (written ls) ≡ ended ls
file_lines-written ls h =
    ap file_lines (sym (append-nil (written ls)))
    ∙ file_lines-file ls [] h (record { one_line = tt; fits = omega arith })
    ∙ append-nil (ended ls)

split-long :
    (l rest : Bytes)
    → All (λ b. b ≢ newline) l
    → 0 < length l
    → split (length l) (l ++ rest) ≡ (l, file_lines rest)
unfolding split file_lines
split-long [] rest h pos = absurd (omega arith)
split-long (b ∷ []) rest h pos = ground (arith, h.0)
split-long (b ∷ c ∷ l) rest h pos = ground (arith, split-long (c ∷ l) rest h.1 (omega arith), h.0)

-- A line of 511 characters or more is cut: what follows the 511th starts a line of its own.
pub file_lines-cut :
    (l rest : Bytes)
    → All (λ b. b ≢ newline) l
    → length l ≡ line_room
    → file_lines (l ++ rest) ≡ l ∷ file_lines rest
unfolding file_lines
file_lines-cut [] rest h n = absurd (omega (arith, n))
file_lines-cut (b ∷ l) rest h n =
    ap join (ap (λ r. split r (b ∷ l ++ rest)) (sym n) ∙ split-long (b ∷ l) rest h (omega arith))
