-- ===== src/Prelude/Split.antt =====
-- `&` and `|` on numbers that are put together from a low and a high part, and the masks that follow.
use Prim.Native.Nat.{
  ℕ, zero, suc, ◌+◌, ◌*◌, ◌/◌, ◌%◌, ◌^◌, ◌≤◌, ◌<◌, min, max, bit_and, bit_or, digits,
  bit_or-bitwise,
}
use mathlib.Core.Path.{◌≡◌, refl, ap, ◌∙◌}
use native.Mathlib.Nat.{pow-suc, mul_assoc, mod-add-div, mod-lt, mul-zero}
use native.Mathlib.Omega.{arith}
use jmos.Prelude.Bits.{bit_and_digit, bit_and-zero_left, bit_and_ones}

or_rounds : (f g x y : ℕ) → x ≤ f → x ≤ g → digits (λ b. b) max f x y ≡ digits (λ b. b) max g x y
or_rounds zero zero x y p q = refl
or_rounds zero (suc g) zero y p q = refl
or_rounds zero (suc g) (suc x) y p q = absurd (omega arith)
or_rounds (suc f) zero zero y p q = refl
or_rounds (suc f) zero (suc x) y p q = absurd (omega arith)
or_rounds (suc f) (suc g) zero y p q = refl
or_rounds (suc f) (suc g) (suc x) y p q =
    omega (arith, or_rounds f g (suc x / 2) (y / 2) (omega arith) (omega arith))

pub bit_or-zero_left : (y : ℕ) → bit_or 0 y ≡ y
bit_or-zero_left y = bit_or-bitwise 0 y

pub bit_or_digit : (x y : ℕ) → bit_or x y ≡ 2 * bit_or (x / 2) (y / 2) + max (x % 2) (y % 2)
bit_or_digit zero y = omega (arith, bit_or-zero_left y, bit_or-zero_left (y / 2))
bit_or_digit (suc x) y = omega (
  arith,
  bit_or-bitwise (suc x) y,
  bit_or-bitwise (suc x / 2) (y / 2),
  or_rounds x (suc x / 2) (suc x / 2) (y / 2) (omega arith) (omega arith),
)

-- An operation that works digit by digit works on the parts.
module _ (op g : ℕ → ℕ → ℕ) (none : op 0 0 ≡ 0)
    (digit : (x y : ℕ) → op x y ≡ 2 * op (x / 2) (y / 2) + g (x % 2) (y % 2)) where
  split :
      (k a b c d : ℕ)
      → a < 2 ^ k
      → c < 2 ^ k
      → op (a + 2 ^ k * b) (c + 2 ^ k * d) ≡ op a c + 2 ^ k * op b d
  split zero a b c d p q =
      let a0 : a ≡ 0 = omega arith in
      let c0 : c ≡ 0 = omega arith in
      let left : 0 + 2 ^ 0 * b ≡ b = omega arith in
      let right : 0 + 2 ^ 0 * d ≡ d = omega arith in rw (a0, c0, left, right, none) (omega arith)
  split (suc k) a b c d p q =
      let pow : 2 ^ suc k ≡ 2 * 2 ^ k = omega (arith, pow-suc 2 k) in
      let t : ℕ = 2 ^ k * b in
      let u : ℕ = 2 ^ k * d in
      let left : a + 2 ^ suc k * b ≡ a + 2 * t =
        ap (λ q. a + q) (ap (λ q. q * b) pow ∙ mul_assoc 2 (2 ^ k) b) in
      let right : c + 2 ^ suc k * d ≡ c + 2 * u =
        ap (λ q. c + q) (ap (λ q. q * d) pow ∙ mul_assoc 2 (2 ^ k) d) in
      let out : 2 ^ suc k * op b d ≡ 2 * (2 ^ k * op b d) =
        ap (λ q. q * op b d) pow ∙ mul_assoc 2 (2 ^ k) (op b d) in
      let x2 : (a + 2 * t) / 2 ≡ a / 2 + t = omega arith in
      let y2 : (c + 2 * u) / 2 ≡ c / 2 + u = omega arith in
      let x1 : (a + 2 * t) % 2 ≡ a % 2 = omega arith in
      let y1 : (c + 2 * u) % 2 ≡ c % 2 = omega arith in
      let step : op (a / 2 + t) (c / 2 + u) ≡ op (a / 2) (c / 2) + 2 ^ k * op b d =
        split k (a / 2) b (c / 2) d (omega (arith, pow)) (omega (arith, pow)) in
      let whole : op (a + 2 * t) (c + 2 * u) ≡ 2 * op (a / 2 + t) (c / 2 + u) + g (a % 2) (c % 2) =
        rw (x2, y2, x1, y1) at (digit (a + 2 * t) (c + 2 * u)) in
      rw (left, right) (omega (arith, whole, step, out, digit a c))

pub bit_and_split :
    (k a b c d : ℕ)
    → a < 2 ^ k
    → c < 2 ^ k
    → bit_and (a + 2 ^ k * b) (c + 2 ^ k * d) ≡ bit_and a c + 2 ^ k * bit_and b d
bit_and_split = split bit_and min refl bit_and_digit

pub bit_or_split :
    (k a b c d : ℕ)
    → a < 2 ^ k
    → c < 2 ^ k
    → bit_or (a + 2 ^ k * b) (c + 2 ^ k * d) ≡ bit_or a c + 2 ^ k * bit_or b d
bit_or_split = split bit_or max refl bit_or_digit

-- A value against itself as a fuel: `&` and `|` with zero on the right.
zero_right : (n x : ℕ) → x ≤ n → (bit_and x 0 ≡ 0) × (bit_or x 0 ≡ x)
zero_right zero x h = let z : x ≡ 0 = omega arith in rw z (bit_and-zero_left 0, bit_or-zero_left 0)
zero_right (suc n) zero h = (bit_and-zero_left 0, bit_or-zero_left 0)
zero_right (suc n) (suc x) h =
    omega (
      arith,
      bit_and_digit (suc x) 0,
      bit_or_digit (suc x) 0,
      zero_right n (suc x / 2) (omega arith),
    )

pub bit_and-zero_right : (x : ℕ) → bit_and x 0 ≡ 0
bit_and-zero_right x = (zero_right x x (omega arith)).0

pub bit_or-zero_right : (x : ℕ) → bit_or x 0 ≡ x
bit_or-zero_right x = (zero_right x x (omega arith)).1

-- A mask of `k` ones keeps the remainder.
pub bit_and_low : (k x m : ℕ) → m + 1 ≡ 2 ^ k → bit_and x m ≡ x % 2 ^ k
bit_and_low k x m e =
    let r : ℕ = x % 2 ^ k in
    let q : ℕ = x / 2 ^ k in
    let cut : x ≡ r + 2 ^ k * q = omega (arith, mod-add-div x (2 ^ k)) in
    let small : r < 2 ^ k = mod-lt x (omega (arith, e)) in
    let mask : m ≡ m + 2 ^ k * 0 = omega (arith, mul-zero (2 ^ k)) in
    let parts = bit_and_split k r q m 0 small (omega (arith, e)) in
    let low = bit_and_ones k r m e (omega (arith, e)) in
    ap (λ t. bit_and t m) cut
    ∙ ap (λ t. bit_and (r + 2 ^ k * q) t) mask
    ∙ parts
    ∙ rw (bit_and-zero_right q) (omega (arith, low, mul-zero (2 ^ k)))
