-- ===== src/Text/Numerals.antt =====
-- What `strtoull` reads: every text is spaces, a sign, digits and the rest.
use gate.Base.{ℕ, ◌≡◌, ◌≢◌, ◌⊎◌, inl, inr, refl, ap, ◌∙◌, [], ◌∷◌, ◌++◌, Bytes, All, arith}
use gate.Text.Numbers.{
  IsDigit, IsSpace, NoDigitFirst, Sign, unsigned, plus, minus, sign_text, Numeral, numeral_text,
  Stops, IsNumeral,
}

digit_or : (c : ℕ) → IsDigit c ⊎ (IsDigit c → ⊥)
digit_or c = ground arith

space_or : (c : ℕ) → IsSpace c ⊎ (IsSpace c → ⊥)
space_or c = ground arith

-- The longest front of a text that is digits.
digits_of : (t : Bytes) → (ds note : Bytes) × (ds ++ note ≡ t) × All IsDigit ds × NoDigitFirst note
digits_of [] = ([], [], refl, tt, tt)
digits_of (c ∷ cs) = elim (digit_or c) [
  | inl digit ↦
      let (ds, note, whole, all, stops) = digits_of cs in
      (c ∷ ds, note, ap (λ r. c ∷ r) whole, (digit, all), stops)
  | inr not_digit ↦ ([], c ∷ cs, refl, tt, not_digit)
]

abbrev NoSpaceFirst : Bytes → Type 0
NoSpaceFirst [] = Unit {0}
NoSpaceFirst (c ∷ cs) = IsSpace c → ⊥

spaces_of : (t : Bytes) → (s rest : Bytes) × (s ++ rest ≡ t) × All IsSpace s × NoSpaceFirst rest
spaces_of [] = ([], [], refl, tt, tt)
spaces_of (c ∷ cs) = elim (space_or c) [
  | inl space ↦
      let (s, rest, whole, all, stops) = spaces_of cs in
      (c ∷ s, rest, ap (λ r. c ∷ r) whole, (space, all), stops)
  | inr not_space ↦ ([], c ∷ cs, refl, tt, not_space)
]

Stops-plus : (ds note : Bytes) → NoDigitFirst note → Stops plus ds note
Stops-plus ds [] h = tt
Stops-plus ds (c ∷ cs) h = h

Stops-minus : (ds note : Bytes) → NoDigitFirst note → Stops minus ds note
Stops-minus ds [] h = tt
Stops-minus ds (c ∷ cs) h = h

Stops-digits : (d : ℕ) (ds note : Bytes) → NoDigitFirst note → Stops unsigned (d ∷ ds) note
Stops-digits d ds [] h = tt
Stops-digits d ds (c ∷ cs) h = h

-- The kind of the first character behind the spaces.
kind : (c : ℕ) → (c ≡ b'+') ⊎ ((c ≡ b'-') ⊎ ((c ≢ b'+') × (c ≢ b'-')))
kind c = omega arith

-- A text that does not begin with a space.
abbrev Signed : Bytes → Type 0
Signed t =
    (sign : Sign) × (ds note : Bytes) × (sign_text sign ++ (ds ++ note) ≡ t)
    × All IsDigit ds
    × Stops sign ds note

sign_and_rest : (t : Bytes) → NoSpaceFirst t → Signed t
sign_and_rest [] h = (unsigned, [], [], refl, tt, tt)
sign_and_rest (c ∷ cs) h =
    let (ds, note, whole, all, stops) = digits_of cs in
    elim (kind c) [
      | inl is_plus ↦
          (plus, ds, note, rw is_plus (ap (λ r. b'+' ∷ r) whole), all, Stops-plus ds note stops)
      | inr (inl is_minus) ↦
          (minus, ds, note, rw is_minus (ap (λ r. b'-' ∷ r) whole), all, Stops-minus ds note stops)
      | inr (inr neither) ↦ elim (digit_or c) [
        | inl digit ↦ (
          unsigned,
          c ∷ ds,
          note,
          ap (λ r. c ∷ r) whole,
          (digit, all),
          Stops-digits c ds note stops,
        )
        | inr not_digit ↦ (unsigned, [], c ∷ cs, refl, tt, (not_digit, h, neither.0, neither.1))
      ]
    ]

pub numeral_of : (t : Bytes) → (m : Numeral) × (numeral_text m ≡ t) × IsNumeral m
numeral_of t =
    let (s, rest, whole, blank, no_space) = spaces_of t in
    let (sign, ds, note, behind, decimal, stops) = sign_and_rest rest no_space in
    (
      record { spaces = s; sign = sign; digits = ds; note = note },
      ap (λ r. s ++ r) behind ∙ whole,
      record { blank = blank; decimal = decimal; stops = stops },
    )
