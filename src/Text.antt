-- ===== src/Text.antt =====
-- What the programs use of C's input and numbers in text: `fgets` on a buffer of 512 characters, and `strtoull`
-- in base ten.
pub mod Lines
pub mod Numbers
pub mod Numerals
use gate.Base.{
  ℕ, zero, suc, ◌+◌, ◌-◌, ◌*◌, ◌^◌, ◌%◌, Bool, true, false, ◌||◌, ◌&&◌, List, [], ◌∷◌, ◌++◌, Option,
  none, some, Bytes, bytes_eq, codes, c_string, truthy, ltb, leb, ◌==◌, if◌then◌else◌, u64, take,
  drop, replicate,
}

-- The longest line that `fgets` puts into `char line[512]`.
abbrev pub line_room : ℕ
line_room = 511

abbrev pub newline : ℕ
newline = 10

-- A line in progress and the lines after it, put together.
abbrev pub join : Bytes × List Bytes → List Bytes
join ([], later) = later
join (c ∷ cs, later) = (c ∷ cs) ∷ later

-- What is left of the line that has `room` bytes to go, and the lines after it: `fgets` stops after a
-- newline or when there is no room.
unfoldable pub split : ℕ → Bytes → Bytes × List Bytes
split room [] = ([], [])
split room (b ∷ bs) =
    let ends = b == newline || room == 1 in
    let rest = split (if ends then line_room else room - 1) bs in
    if ends then (b ∷ [], join rest) else (b ∷ rest.0, rest.1)

-- The successive results of `fgets` on a file.
unfoldable pub file_lines : Bytes → List Bytes
file_lines file = join (split line_room file)

-- `isspace` in the C locale.
is_space : ℕ → Bool
is_space c = c == 32 || (leb 9 c && leb c 13)

is_digit : ℕ → Bool
is_digit c = leb b'0' c && leb c b'9'

skip_space : Bytes → Bytes
skip_space [] = []
skip_space (c ∷ cs) = let rest = skip_space cs in if is_space c then rest else c ∷ cs

-- The number that the digits at the front spell behind `n`, with no bound.
pub digits_value : ℕ → Bytes → ℕ
digits_value n [] = n
digits_value n (c ∷ cs) =
    let more = digits_value (n * 10 + (c - b'0')) cs in if is_digit c then more else n

abbrev pub ullong_max : ℕ
ullong_max = 2 ^ 64 - 1

-- Too large a number is ULLONG_MAX; a minus sign negates in uint64_t what is not.
pub signed_value : Bool → Bytes → ℕ
signed_value minus s =
    let n = digits_value 0 s in
    if ltb ullong_max n then ullong_max else if minus then (2 ^ 64 - n) % 2 ^ 64 else n

after_sign : Bytes → ℕ
after_sign [] = 0
after_sign (c ∷ cs) =
    if c == b'-'
    then signed_value true cs
    else if c == b'+'
    then signed_value false cs
    else signed_value false (c ∷ cs)

-- `strtoull(s, NULL, 10)`
unfoldable pub strtoull : Bytes → ℕ
unfolding skip_space is_space after_sign signed_value digits_value is_digit
strtoull s = after_sign (skip_space s)
