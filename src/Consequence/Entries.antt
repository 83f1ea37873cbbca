-- ===== src/Consequence/Entries.antt =====
-- consequence_state.c: the lines of a log, as its reader takes them.
use gate.Base.{
  ℕ, zero, suc, ◌+◌, ◌≡◌, refl, ap, sym, ◌∙◌, true, false, Bool-cases, inl, inr, List, [], ◌∷◌,
  ◌++◌, Bytes, bytes_eq, bytes_eq→eq, take, drop, arith,
}
use gate.Text.Numbers.{Numeral, numeral_text, numeral_value, IsNumeral, End, bare, closed, end_text}
use gate.Text.Numerals.{numeral_of}
use gate.Consequence.{seq_mark}

-- A line of the log: an executed command with its number and a note behind it, or any other line.
pub data Entry : Type 0 where
  executed : Numeral → Entry
  other : Bytes → Entry

abbrev pub text : Entry → Bytes
text (executed m) = seq_mark ++ numeral_text m
text (other t) = t

abbrev pub IsEntry : Entry → Type 0
IsEntry (executed m) = IsNumeral m
IsEntry (other t) = bytes_eq (take 4 t) seq_mark ≡ false

abbrev pub last_number : ℕ → List Entry → ℕ
last_number n [] = n
last_number n (executed m ∷ es) = last_number (numeral_value m) es
last_number n (other t ∷ es) = last_number n es

abbrev pub count_executed : List Entry → ℕ
count_executed [] = 0
count_executed (executed m ∷ es) = count_executed es + 1
count_executed (other t ∷ es) = count_executed es

-- The newline behind a line does not make it one of those.
pub mark-end :
    (t : Bytes) (k : End)
    → bytes_eq (take 4 t) seq_mark ≡ false
    → bytes_eq (take 4 (t ++ end_text k)) seq_mark ≡ false
unfolding bytes_eq
mark-end [] bare h = refl
mark-end [] closed h = refl
mark-end (a ∷ []) bare h = h
mark-end (a ∷ []) closed h = ground arith
mark-end (a ∷ b ∷ []) bare h = h
mark-end (a ∷ b ∷ []) closed h = ground arith
mark-end (a ∷ b ∷ c ∷ []) bare h = h
mark-end (a ∷ b ∷ c ∷ []) closed h = ground arith
mark-end (a ∷ b ∷ c ∷ d ∷ t) k h = h

take-drop : (n : ℕ) (t : Bytes) → take n t ++ drop n t ≡ t
take-drop zero t = refl
take-drop (suc n) [] = refl
take-drop (suc n) (c ∷ cs) = ap (λ r. c ∷ r) (take-drop n cs)

-- What begins with the mark goes on with a numeral.
marked : (t : Bytes) → bytes_eq (take 4 t) seq_mark ≡ true → seq_mark ++ drop 4 t ≡ t
marked t h =
    ap (λ front. front ++ drop 4 t) (sym (bytes_eq→eq (take 4 t) seq_mark h)) ∙ take-drop 4 t

-- Every line is an entry.
pub entry_of : (t : Bytes) → (e : Entry) × (text e ≡ t) × IsEntry e
entry_of t = elim (Bool-cases (bytes_eq (take 4 t) seq_mark)) [
  | inr unmarked ↦ (other t, refl, unmarked)
  | inl mark ↦
      let (m, same, v) = numeral_of (drop 4 t) in
      (executed m, ap (λ r. seq_mark ++ r) same ∙ marked t mark, v)
]
