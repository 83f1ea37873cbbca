-- ===== src/Base/Xor.antt =====
-- Exclusive or of numbers, digit by digit: its laws at variables, and what it does to quotients and remainders
-- by powers of 2.
use Prim.Native.Nat.{
  ℕ, zero, suc, ◌+◌, ◌*◌, ◌/◌, ◌%◌, ◌^◌, ◌≤◌, ◌<◌, bit_xor, digits, differ, bit_xor-bitwise,
}
use mathlib.Core.Path.{◌≡◌, refl, ap, ap₂, sym, subst, ◌∙◌}
use native.Mathlib.Nat.{
  pow-suc, div-one, mod-one, div-div-eq-div-mul, mul_comm, mul_assoc, div-add-mod,
}
use native.Mathlib.Omega.{arith}

abbrev xor_digits : ℕ → ℕ → ℕ → ℕ
xor_digits n a b = digits (λ y. y) differ n a b

-- With enough digits to go, their count does not matter.
xor_digits_lem : (m n a b : ℕ) → a ≤ m → a ≤ n → xor_digits m a b ≡ xor_digits n a b
xor_digits_lem zero zero a b p q = refl
xor_digits_lem (suc m) zero zero b p q = refl
xor_digits_lem (suc m) zero (suc a) b p q = absurd (omega arith)
xor_digits_lem zero (suc n) zero b p q = refl
xor_digits_lem zero (suc n) (suc a) b p q = absurd (omega arith)
xor_digits_lem (suc m) (suc n) zero b p q = refl
xor_digits_lem (suc m) (suc n) (suc a) b p q =
    omega (arith, xor_digits_lem m n (suc a / 2) (b / 2) (omega arith) (omega arith))

differ_lem : (a b : ℕ) → a < 2 → b < 2 → differ a b ≡ (a + b) % 2
differ_lem zero b p q = omega arith
differ_lem (suc a) zero p q = omega arith
differ_lem (suc a) (suc b) p q = omega (arith, differ_lem a b (omega arith) (omega arith))

pub bit_xor_step : (a b : ℕ) → bit_xor a b ≡ bit_xor (a / 2) (b / 2) * 2 + (a + b) % 2
bit_xor_step zero b = omega (arith, bit_xor-bitwise 0 b, bit_xor-bitwise 0 (b / 2))
bit_xor_step (suc a) b = omega (
  arith,
  bit_xor-bitwise (suc a) b,
  bit_xor-bitwise (suc a / 2) (b / 2),
  xor_digits_lem a (suc a / 2) (suc a / 2) (b / 2) (omega arith) (omega arith),
  differ_lem (suc a % 2) (b % 2) (omega arith) (omega arith),
)

-- `n` bounds the numbers, which are halved.
xor_cancel_below : (n a b c : ℕ) → a ≤ n → b ≤ n → bit_xor a c ≡ bit_xor b c → a ≡ b
xor_cancel_below zero a b c p q h = omega arith
xor_cancel_below (suc n) a b c p q h =
    let half =
      xor_cancel_below n (a / 2) (b / 2) (c / 2) (omega arith) (omega arith)
        (omega (arith, h, bit_xor_step a c, bit_xor_step b c)) in
    omega (arith, half, h, bit_xor_step a c, bit_xor_step b c)

pub bit_xor_cancel : (a b c : ℕ) → bit_xor a c ≡ bit_xor b c → a ≡ b
bit_xor_cancel a b c = xor_cancel_below (a + b) a b c (omega arith) (omega arith)

bit_xor-half : (a b : ℕ) → bit_xor a b / 2 ≡ bit_xor (a / 2) (b / 2)
bit_xor-half a b = omega (arith, bit_xor_step a b)

div-double : (a k : ℕ) → a / 2 ^ suc k ≡ a / 2 / 2 ^ k
div-double a k =
    ap (λ p. a / p) (pow-suc 2 k ∙ mul_comm (2 ^ k) 2) ∙ sym (div-div-eq-div-mul a 2 (2 ^ k))

-- The high digits of an exclusive or.
pub bit_xor-div : (k a b : ℕ) → bit_xor a b / 2 ^ k ≡ bit_xor (a / 2 ^ k) (b / 2 ^ k)
bit_xor-div zero a b = rw (div-one a, div-one b, div-one (bit_xor a b)) refl
bit_xor-div (suc k) a b =
    rw (div-double a k, div-double b k, div-double (bit_xor a b) k, bit_xor-half a b)
      (bit_xor-div k (a / 2) (b / 2))

mod-double : (a k : ℕ) → a % 2 ^ suc k ≡ a / 2 % 2 ^ k * 2 + a % 2
mod-double a k =
    let p = 2 ^ k in
    let twice : 2 ^ suc k * (a / 2 / p) ≡ 2 * (p * (a / 2 / p)) =
      ap (λ t. t * (a / 2 / p)) (pow-suc 2 k ∙ mul_comm p 2) ∙ mul_assoc 2 p (a / 2 / p) in
    let whole : 2 ^ suc k * (a / 2 / p) + a % 2 ^ suc k ≡ a =
      subst (λ q. 2 ^ suc k * q + a % 2 ^ suc k ≡ a) (div-double a k) (div-add-mod a (2 ^ suc k)) in
    omega (arith, twice, whole, div-add-mod (a / 2) p)

-- The low digits of an exclusive or.
pub bit_xor-mod : (k a b : ℕ) → bit_xor a b % 2 ^ k ≡ bit_xor (a % 2 ^ k) (b % 2 ^ k)
bit_xor-mod zero a b = rw (mod-one a, mod-one b, mod-one (bit_xor a b)) refl
bit_xor-mod (suc k) a b =
    let half_a : a % 2 ^ suc k / 2 ≡ a / 2 % 2 ^ k = omega (arith, mod-double a k) in
    let half_b : b % 2 ^ suc k / 2 ≡ b / 2 % 2 ^ k = omega (arith, mod-double b k) in
    let high =
      ap (λ n. n % 2 ^ k) (bit_xor-half a b)
      ∙ bit_xor-mod k (a / 2) (b / 2)
      ∙ ap₂ bit_xor (sym half_a) (sym half_b) in
    omega (
      arith,
      high,
      mod-double (bit_xor a b) k,
      mod-double a k,
      mod-double b k,
      bit_xor_step a b,
      bit_xor_step (a % 2 ^ suc k) (b % 2 ^ suc k),
    )
