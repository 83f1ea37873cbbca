-- ===== src/Text/Numbers.antt =====
-- What `strtoull` makes of a text: spaces, a sign and digits, each of which may be missing, and the rest.
use mathlib.Core.List.{append_assoc}
use gate.Base.{
  ℕ, ◌+◌, ◌-◌, ◌*◌, ◌^◌, ◌%◌, ◌≤◌, ◌<◌, ◌≡◌, ◌≢◌, ◌⊎◌, refl, ap, ◌∙◌, [], ◌∷◌, ◌++◌, Bytes, ltb,
  All, if◌then◌else◌, arith,
}
use gate.Text.{
  digits_value, signed_value, after_sign, is_digit, is_space, skip_space, strtoull, ullong_max,
  newline,
}

abbrev pub IsDigit : ℕ → Type 0
IsDigit c = (b'0' ≤ c) × (c < b'0' + 10)

-- A blank, or one of the five controls from tab to carriage return.
abbrev pub IsSpace : ℕ → Type 0
IsSpace c = (c ≡ 32) ⊎ ((9 ≤ c) × (c < 14))

-- The number that digits spell behind `n`.
abbrev pub spelled : ℕ → Bytes → ℕ
spelled n [] = n
spelled n (c ∷ cs) = spelled (n * 10 + (c - b'0')) cs

pub data Sign : Type 0 where
  unsigned plus minus : Sign

abbrev pub sign_text : Sign → Bytes
sign_text unsigned = []
sign_text plus = b'+' ∷ []
sign_text minus = b'-' ∷ []

-- A number in text, and what stands behind it.
pub record Numeral : Type 0 where
  pub spaces : Bytes
  pub sign : Sign
  pub digits : Bytes
  pub note : Bytes

abbrev pub numeral_text : Numeral → Bytes
numeral_text m = m.spaces ++ (sign_text m.sign ++ (m.digits ++ m.note))

-- Its value: that of the digits, none of them being 0, or ULLONG_MAX if they spell more; behind a minus, what is
-- not too large counts down from 2^64.
abbrev pub numeral_value : Numeral → ℕ
numeral_value m =
    let n = spelled 0 m.digits in
    if ltb ullong_max n then ullong_max else elim m.sign [ minus ↦ (2 ^ 64 - n) % 2 ^ 64 | _ ↦ n ]

-- The digits go on to the note. With no digits and no sign it begins with neither a sign nor a space, as that would
-- belong to the number.
abbrev pub Stops : Sign → Bytes → Bytes → Type 0
Stops sign digits [] = Unit {0}
Stops unsigned [] (c ∷ cs) = (IsDigit c → ⊥) × (IsSpace c → ⊥) × (c ≢ b'+') × (c ≢ b'-')
Stops _ digits (c ∷ cs) = IsDigit c → ⊥

pub record IsNumeral (m : Numeral) : Type 0 where
  pub blank : All IsSpace m.spaces
  pub decimal : All IsDigit m.digits
  pub stops : Stops m.sign m.digits m.note

skip_space-append : (s t : Bytes) → All IsSpace s → skip_space (s ++ t) ≡ skip_space t
unfolding skip_space is_space
skip_space-append [] t h = refl
skip_space-append (c ∷ cs) t h = ground (arith, skip_space-append cs t h.1, h.0)

-- What stands behind digits that end there.
abbrev pub NoDigitFirst : Bytes → Type 0
NoDigitFirst [] = Unit {0}
NoDigitFirst (c ∷ cs) = IsDigit c → ⊥

-- What stands behind the text of a line: its newline, or nothing in a last line that has none.
pub data End : Type 0 where
  bare closed : End

abbrev pub end_text : End → Bytes
end_text bare = []
end_text closed = newline ∷ []

NoDigitFirst-end :
    (sign : Sign) (ds note : Bytes) (k : End)
    → Stops sign ds note
    → NoDigitFirst (note ++ end_text k)
NoDigitFirst-end sign ds [] bare h = tt
NoDigitFirst-end sign ds [] closed h = λ d. absurd (omega (arith, d.0))
NoDigitFirst-end unsigned [] (c ∷ cs) k h = h.0
NoDigitFirst-end unsigned (d ∷ ds) (c ∷ cs) k h = h
NoDigitFirst-end plus ds (c ∷ cs) k h = h
NoDigitFirst-end minus ds (c ∷ cs) k h = h

digits_value-append :
    (n : ℕ) (ds note : Bytes)
    → All IsDigit ds
    → NoDigitFirst note
    → digits_value n (ds ++ note) ≡ spelled n ds
unfolding digits_value is_digit
digits_value-append n [] [] h k = refl
digits_value-append n [] (c ∷ cs) h k = ground arith
digits_value-append n (d ∷ ds) note h k =
    ground (arith, digits_value-append (n * 10 + (d - b'0')) ds note h.1 k, h.0)

digits_value-end :
    (sign : Sign) (ds note : Bytes) (k : End)
    → All IsDigit ds
    → Stops sign ds note
    → digits_value 0 (ds ++ (note ++ end_text k)) ≡ spelled 0 ds
digits_value-end sign ds note k h stops =
    digits_value-append 0 ds (note ++ end_text k) h (NoDigitFirst-end sign ds note k stops)

-- Behind the spaces.
after_sign-numeral :
    (sign : Sign) (ds note : Bytes) (k : End)
    → All IsDigit ds
    → Stops sign ds note
    → after_sign (skip_space (sign_text sign ++ (ds ++ (note ++ end_text k))))
      ≡ numeral_value (record { spaces = []; sign = sign; digits = ds; note = note })
unfolding after_sign skip_space is_space signed_value
after_sign-numeral plus ds note k h stops = ground (arith, digits_value-end plus ds note k h stops)
after_sign-numeral minus ds note k h stops =
    ground (arith, digits_value-end minus ds note k h stops)
after_sign-numeral unsigned (d ∷ ds) note k h stops =
    ground (arith, digits_value-end unsigned (d ∷ ds) note k h stops, h.0)
after_sign-numeral unsigned [] [] bare h stops = refl
after_sign-numeral unsigned [] [] closed h stops = refl
after_sign-numeral unsigned [] (c ∷ cs) k h stops =
    ground (arith, digits_value-end unsigned [] (c ∷ cs) k tt stops, stops.1)

-- Every numeral is read as its value.
pub strtoull-numeral :
    (m : Numeral) (k : End)
    → IsNumeral m
    → strtoull (numeral_text m ++ end_text k) ≡ numeral_value m
unfolding strtoull
strtoull-numeral m k v =
    let behind : Bytes = sign_text m.sign ++ (m.digits ++ (m.note ++ end_text k)) in
    let grouped : numeral_text m ++ end_text k ≡ m.spaces ++ behind = simp append_assoc in
    ap (λ s. after_sign (skip_space s)) grouped
    ∙ ap after_sign (skip_space-append m.spaces behind v.blank)
    ∙ after_sign-numeral m.sign m.digits m.note k v.decimal v.stops
