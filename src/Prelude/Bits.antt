-- ===== src/Prelude/Bits.antt =====
-- Masks: `x & ~(2^k - 1)` and `x & (2^k - 1)` as division and remainder, from the digit recursion
-- that `bit_and` stands for.
use Prim.Native.Nat.{
  ℕ, zero, suc, ◌+◌, ◌-◌, ◌*◌, ◌/◌, ◌%◌, ◌^◌, ◌≤◌, ◌<◌, min, bit_and, digits, bit_and-bitwise,
}
use mathlib.Core.Path.{◌≡◌, refl, ap}
use native.Mathlib.Nat.{pow-suc}
use native.Mathlib.Omega.{arith}

-- Fuel beyond the first number's value adds nothing.
enough_rounds :
    (f g x y : ℕ) → x ≤ f → x ≤ g → digits (λ _. zero) min f x y ≡ digits (λ _. zero) min g x y
enough_rounds zero zero x y p q = refl
enough_rounds zero (suc g) zero y p q = refl
enough_rounds zero (suc g) (suc x) y p q = absurd (omega arith)
enough_rounds (suc f) zero zero y p q = refl
enough_rounds (suc f) zero (suc x) y p q = absurd (omega arith)
enough_rounds (suc f) (suc g) zero y p q = refl
enough_rounds (suc f) (suc g) (suc x) y p q =
    omega (arith, enough_rounds f g (suc x / 2) (y / 2) (omega arith) (omega arith))

pub bit_and-zero_left : (y : ℕ) → bit_and 0 y ≡ 0
bit_and-zero_left y = bit_and-bitwise 0 y

-- One binary digit of `&`.
pub bit_and_digit : (x y : ℕ) → bit_and x y ≡ 2 * bit_and (x / 2) (y / 2) + min (x % 2) (y % 2)
bit_and_digit zero y = omega (arith, bit_and-zero_left y, bit_and-zero_left (y / 2))
bit_and_digit (suc x) y = omega (
  arith,
  bit_and-bitwise (suc x) y,
  bit_and-bitwise (suc x / 2) (y / 2),
  enough_rounds x (suc x / 2) (suc x / 2) (y / 2) (omega arith) (omega arith),
)

-- A zero at the bottom of the mask shifts both sides.
pub bit_and_even : (x y : ℕ) → bit_and x (2 * y) ≡ 2 * bit_and (x / 2) y
bit_and_even x y =
    let low : min (x % 2) ((2 * y) % 2) ≡ 0 = omega arith in
    let half : (2 * y) / 2 ≡ y = omega arith in
    let step : bit_and x (2 * y) ≡ 2 * bit_and (x / 2) ((2 * y) / 2) + 0 =
      omega (arith, bit_and_digit x (2 * y)) in
    let e : 2 * bit_and (x / 2) ((2 * y) / 2) + 0 ≡ 2 * bit_and (x / 2) y = rw half (omega arith) in
    omega arith

-- A mask of ones keeps what is below it.
pub bit_and_ones : (k x m : ℕ) → m + 1 ≡ 2 ^ k → x ≤ m → bit_and x m ≡ x
bit_and_ones zero x m e h = let z : x ≡ 0 = omega arith in rw z (bit_and-zero_left m)
bit_and_ones (suc k) x m e h =
    let pow : 2 ^ suc k ≡ 2 * 2 ^ k = omega (arith, pow-suc 2 k) in
    omega (arith, bit_and_digit x m, bit_and_ones k (x / 2) (m / 2) (omega arith) (omega arith))

bit_and_even_four : (x y : ℕ) → bit_and x (16 * y) ≡ 16 * bit_and (x / 16) y
bit_and_even_four x y =
    let regroup : 16 * y ≡ 2 * (2 * (2 * (2 * y))) = omega arith in
    rw regroup (
      omega (
        arith,
        bit_and_even x (2 * (2 * (2 * y))),
        bit_and_even (x / 2) (2 * (2 * y)),
        bit_and_even (x / 2 / 2) (2 * y),
        bit_and_even (x / 2 / 2 / 2) y,
        ap (λ n. bit_and n y) quarter,
      ))
  where
    quarter : x / 2 / 2 / 2 / 2 ≡ x / 16
    quarter = omega arith

-- `x & ~(2^4 - 1)` and `x & ~(2^12 - 1)` on a 64-bit `x` round down to a multiple.
pub bit_and_sixteen : (x : ℕ) → x < 2 ^ 64 → bit_and x (2 ^ 64 - 16) ≡ x / 16 * 16
bit_and_sixteen x h = omega (
  arith,
  bit_and_even_four x (2 ^ 60 - 1),
  bit_and_ones 60 (x / 16) (2 ^ 60 - 1) refl (omega arith),
)

pub bit_and_page : (x : ℕ) → x < 2 ^ 64 → bit_and x (2 ^ 64 - 4096) ≡ x / 4096 * 4096
bit_and_page x h = omega (
  arith,
  bit_and_even_four x (2 ^ 60 - 256),
  bit_and_even_four (x / 16) (2 ^ 56 - 16),
  bit_and_even_four (x / 16 / 16) (2 ^ 52 - 1),
  bit_and_ones 52 (x / 16 / 16 / 16) (2 ^ 52 - 1) refl (omega arith),
)
