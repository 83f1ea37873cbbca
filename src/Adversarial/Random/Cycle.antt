-- ===== src/Adversarial/Random/Cycle.antt =====
-- gate0_adversarial.c: the states that `rng_next` goes through.
use gate.Base.{
  ℕ, zero, suc, ◌+◌, ◌*◌, ◌/◌, ◌%◌, ◌^◌, ◌≤◌, ◌<◌, ◌≡◌, ◌≢◌, refl, ap, ap₂, sym, ◌∙◌, u64, bit_xor,
  bit_xor_cancel, bit_xor-div, bit_xor-mod, arith,
}
use gate.Adversarial.Random.{rng_next, shift_left, shift_right}

-- `n` bounds the numbers; what is shifted is the same by induction.
shift_right_below : (n x y : ℕ) → x ≤ n → y ≤ n → shift_right 7 x ≡ shift_right 7 y → x ≡ y
shift_right_below zero x y p q h = omega arith
shift_right_below (suc n) x y p q h =
    let high : x / 2 ^ 7 ≡ y / 2 ^ 7 =
      shift_right_below n (x / 2 ^ 7) (y / 2 ^ 7) (omega arith) (omega arith)
        (sym (bit_xor-div 7 x (x / 2 ^ 7)) ∙ ap (λ z. z / 2 ^ 7) h ∙ bit_xor-div 7 y (y / 2 ^ 7)) in
    bit_xor_cancel x y (x / 2 ^ 7) (h ∙ ap (bit_xor y) (sym high))

-- Numbers whose exclusive ors with `s` and `t` are the same agree in their low digits where `s` and `t` do.
low_digits :
    (w x y s t : ℕ) → bit_xor x s ≡ bit_xor y t → s % 2 ^ w ≡ t % 2 ^ w → x % 2 ^ w ≡ y % 2 ^ w
low_digits w x y s t h same = bit_xor_cancel (x % 2 ^ w) (y % 2 ^ w) (s % 2 ^ w) (
    sym (bit_xor-mod w x s)
    ∙ ap (λ z. z % 2 ^ w) h
    ∙ bit_xor-mod w y t
    ∙ ap (bit_xor (y % 2 ^ w)) (sym same))

shift_left_13 : (x y : ℕ) → x < 2 ^ 64 → y < 2 ^ 64 → shift_left 13 x ≡ shift_left 13 y → x ≡ y
shift_left_13 x y p q h =
    let low = λ (w : ℕ). low_digits w x y (u64 (x * 2 ^ 13)) (u64 (y * 2 ^ 13)) h in
    let at13 : x % 2 ^ 13 ≡ y % 2 ^ 13 = low 13 (omega arith) in
    let at26 : x % 2 ^ 26 ≡ y % 2 ^ 26 = low 26 (omega arith) in
    let at39 : x % 2 ^ 39 ≡ y % 2 ^ 39 = low 39 (omega arith) in
    let at52 : x % 2 ^ 52 ≡ y % 2 ^ 52 = low 52 (omega arith) in
    let at64 : x % 2 ^ 64 ≡ y % 2 ^ 64 = low 64 (omega arith) in omega arith

shift_left_17 : (x y : ℕ) → x < 2 ^ 64 → y < 2 ^ 64 → shift_left 17 x ≡ shift_left 17 y → x ≡ y
shift_left_17 x y p q h =
    let low = λ (w : ℕ). low_digits w x y (u64 (x * 2 ^ 17)) (u64 (y * 2 ^ 17)) h in
    let at17 : x % 2 ^ 17 ≡ y % 2 ^ 17 = low 17 (omega arith) in
    let at34 : x % 2 ^ 34 ≡ y % 2 ^ 34 = low 34 (omega arith) in
    let at51 : x % 2 ^ 51 ≡ y % 2 ^ 51 = low 51 (omega arith) in
    let at64 : x % 2 ^ 64 ≡ y % 2 ^ 64 = low 64 (omega arith) in omega arith

none_above : (x : ℕ) → x < 2 ^ 64 → x / 2 ^ 64 ≡ 0
none_above x lt = omega arith

bit_xor-lt : (x y : ℕ) → x < 2 ^ 64 → y < 2 ^ 64 → bit_xor x y < 2 ^ 64
bit_xor-lt x y p q =
    let high : bit_xor x y / 2 ^ 64 ≡ 0 =
      bit_xor-div 64 x y ∙ ap₂ bit_xor (none_above x p) (none_above y q) in
    omega arith

rng_next-lt : (x : ℕ) → x < 2 ^ 64 → rng_next x < 2 ^ 64
unfolding rng_next
rng_next-lt x lt =
    let a = bit_xor-lt x (u64 (x * 2 ^ 13)) lt (omega arith) in
    let b = bit_xor-lt (shift_left 13 x) (shift_left 13 x / 2 ^ 7) a (omega arith) in
    bit_xor-lt (shift_right 7 (shift_left 13 x)) (u64 (shift_right 7 (shift_left 13 x) * 2 ^ 17)) b
      (omega arith)

-- No two states lead to the same.
rng_next-injective : (x y : ℕ) → x < 2 ^ 64 → y < 2 ^ 64 → rng_next x ≡ rng_next y → x ≡ y
unfolding rng_next
rng_next-injective x y p q h =
    let ax = bit_xor-lt x (u64 (x * 2 ^ 13)) p (omega arith) in
    let ay = bit_xor-lt y (u64 (y * 2 ^ 13)) q (omega arith) in
    let bx = bit_xor-lt (shift_left 13 x) (shift_left 13 x / 2 ^ 7) ax (omega arith) in
    let by = bit_xor-lt (shift_left 13 y) (shift_left 13 y / 2 ^ 7) ay (omega arith) in
    let b =
      shift_left_17 (shift_right 7 (shift_left 13 x)) (shift_right 7 (shift_left 13 y)) bx by h in
    let a =
      shift_right_below (shift_left 13 x + shift_left 13 y) (shift_left 13 x) (shift_left 13 y)
        (omega arith) (omega arith) b in
    shift_left_13 x y p q a

-- The state after `n` numbers.
unfoldable pub rng_states : ℕ → ℕ → ℕ
rng_states zero s = s
rng_states (suc n) s = rng_next (rng_states n s)

rng_states-lt : (n s : ℕ) → s < 2 ^ 64 → rng_states n s < 2 ^ 64
unfolding rng_states
rng_states-lt zero s lt = lt
rng_states-lt (suc n) s lt = rng_next-lt (rng_states n s) (rng_states-lt n s lt)

rng_states-nonzero : (n s : ℕ) → s < 2 ^ 64 → s ≢ 0 → rng_states n s ≢ 0
unfolding rng_states
rng_states-nonzero zero s lt start h = start h
rng_states-nonzero (suc n) s lt start h = rng_states-nonzero n s lt start (
    rng_next-injective (rng_states n s) 0 (rng_states-lt n s lt) (omega arith)
      (h ∙ unfold rng_next in refl))

rng_states-injective :
    (n s t : ℕ) → s < 2 ^ 64 → t < 2 ^ 64 → rng_states n s ≡ rng_states n t → s ≡ t
unfolding rng_states
rng_states-injective zero s t p q h = h
rng_states-injective (suc n) s t p q h = rng_states-injective n s t p q (
    rng_next-injective (rng_states n s) (rng_states n t) (rng_states-lt n s p) (rng_states-lt n t q)
      h)

rng_states-add : (i n s : ℕ) → rng_states (i + n) s ≡ rng_states i (rng_states n s)
unfolding rng_states
rng_states-add zero n s = ap (λ k. rng_states k s) (omega arith)
rng_states-add (suc i) n s =
    ap (λ k. rng_states k s) (suc_add i n) ∙ ap rng_next (rng_states-add i n s)
  where
    suc_add : (i n : ℕ) → suc i + n ≡ suc (i + n)
    suc_add i n = omega arith

-- From a 64-bit state that is not zero the generator never comes to zero; and if its state after `n` numbers is not
-- the one that it began with, no two of its states that are `n` numbers apart are the same.
pub rng_next-cycle :
    (i n s : ℕ)
    → s < 2 ^ 64
    → s ≢ 0
    → rng_states n s ≢ s
    → (rng_states i s ≢ 0) × (rng_states (i + n) s ≢ rng_states i s)
rng_next-cycle i n s lt start apart = (
  rng_states-nonzero i s lt start,
  λ h. apart (
      rng_states-injective i (rng_states n s) s (rng_states-lt n s lt) lt
        (sym (rng_states-add i n s) ∙ h)),
)
