-- ===== src/Cstdlib/Parse.antt =====
-- What the readers of numbers make of a sign and digits.
use native.Mathlib.Nat.{mul-suc}
use jmos.Prelude.{
  ℕ, zero, suc, ◌+◌, ◌*◌, ◌^◌, ◌≤◌, ◌<◌, ◌≡◌, refl, List, [], ◌∷◌, arith, length, if◌then◌else◌,
  Bool, true, false, some,
}
use jmos.Cstring.{Mem}
use jmos.Cstring.Repr.{IsString}
use jmos.Cstdlib.{
  digit_char, digit_value, next_digit, signed_loop, decimal_loop, decimal, skip_space, take_sign,
  take_prefix, signed, stored, strtol, atoi, long_limit, int_limit,
}
use jmos.Cstdlib.Digits.{AllBelow, value_from, value, characters}

read_digit : (d : ℕ) → d < 36 → digit_value (digit_char d) ≡ some d
read_digit d h = ground arith

-- A number does not get smaller by more digits.
value_grows : (b a : ℕ) (ds : List ℕ) → 0 < b → a ≤ value_from b a ds
value_grows b a [] bz = omega arith
value_grows (suc b) a (d ∷ ds) bz =
    let more : a ≤ a * suc b + d = omega (arith, mul-suc a b) in
    omega (arith, value_grows (suc b) (a * suc b + d) ds bz, more)
value_grows zero a (d ∷ ds) bz = absurd (omega arith)

-- The loops read all digits of a string of digits.
pub signed_loop-value :
    (g limit : ℕ) (m : Mem) (b p a : ℕ) (ds : List ℕ)
    → 0 < b
    → b ≤ 36
    → AllBelow b ds
    → IsString m p (characters ds)
    → value_from b a ds < limit
    → length ds < g
    → signed_loop g limit m b p a ≡ some (value_from b a ds, p + length ds)
unfolding signed_loop
signed_loop-value zero limit m b p a ds bz le all s fits fuel = absurd (omega arith)
signed_loop-value (suc g) limit m b p a [] bz le all s fits fuel = ground (arith, s)
signed_loop-value (suc g) limit m b p a (d ∷ ds) bz le all s fits fuel =
    let rest =
      signed_loop-value g limit m b (p + 1) (a * b + d) ds bz le all.1 s.2 fits (omega arith) in
    let small : a * b + d < limit = omega (arith, value_grows b (a * b + d) ds bz) in
    let digit : next_digit m b p ≡ some d = ground (arith, s.0, read_digit d, all.0) in
    ground (arith, rest, small, digit)

pub decimal_loop-value :
    (g limit : ℕ) (m : Mem) (p a : ℕ) (ds : List ℕ)
    → AllBelow 10 ds
    → IsString m p (characters ds)
    → value_from 10 a ds < limit
    → length ds < g
    → decimal_loop g limit m p a ≡ some (value_from 10 a ds)
unfolding decimal_loop
decimal_loop-value zero limit m p a ds all s fits fuel = absurd (omega arith)
decimal_loop-value (suc g) limit m p a [] all s fits fuel = ground (arith, s)
decimal_loop-value (suc g) limit m p a (d ∷ ds) all s fits fuel =
    let rest = decimal_loop-value g limit m (p + 1) (a * 10 + d) ds all.1 s.2 fits (omega arith) in
    let small : a * 10 + d < limit = omega (arith, value_grows 10 (a * 10 + d) ds (omega arith)) in
    let digit : m p ≡ 48 + d = ground (arith, s.0, all.0) in ground (arith, rest, small, digit)

-- The characters of an optional minus and digits.
abbrev pub text : Bool → List ℕ → List ℕ
text negative ds = if negative then 45 ∷ characters ds else characters ds

digit_printable : (d : ℕ) → d < 36 → (48 ≤ digit_char d) × (digit_char d < 123)
digit_printable d h = ground arith

-- `atoi` of an optional minus and decimal digits, the NUL behind them, is their value, where it is below
-- 2^31, with fuel above the number of digits.
pub atoi-value :
    (g : ℕ) (m : Mem) (p : ℕ) (negative : Bool) (d : ℕ) (ds : List ℕ)
    → AllBelow 10 (d ∷ ds)
    → IsString m p (text negative (d ∷ ds))
    → value 10 (d ∷ ds) < 2 ^ 31
    → suc (length ds) < g
    → atoi g m p ≡ some (signed negative (value 10 (d ∷ ds)))
unfolding atoi decimal skip_space take_sign
atoi-value zero m p negative d ds below s fits fuel = absurd (omega arith)
atoi-value (suc g) m p true d ds below s fits fuel =
    let r = decimal_loop-value (suc g) int_limit m (p + 1) 0 (d ∷ ds) below s.2 fits fuel in
    ground (arith, s.0, r)
atoi-value (suc g) m p false d ds below s fits fuel =
    let r = decimal_loop-value (suc g) int_limit m p 0 (d ∷ ds) below s fits fuel in
    ground (arith, s.0, digit_printable d, below.0, r)

pub length-characters : (ds : List ℕ) → length (characters ds) ≡ length ds
length-characters [] = refl
length-characters (d ∷ ds) = omega (arith, length-characters ds)

-- Digits below the base do not begin with a prefix.
no_prefix :
    (m : Mem) (b p d : ℕ) (ds : List ℕ)
    → 0 < b
    → b ≤ 36
    → AllBelow b (d ∷ ds)
    → IsString m p (characters (d ∷ ds))
    → take_prefix m b p ≡ (b, p)
unfolding take_prefix
no_prefix m b p d [] bz le below s = ground (arith, s.2)
no_prefix m b p d (e ∷ ds) bz le below s = ground (arith, s.2.0, below.1.0)

-- `strtol` of an optional minus and digits of a base from 1 to 36, the NUL behind them, is their value
-- with the sign, where it is below 2^63; the place that it stores is that of the NUL.
pub strtol-value :
    (g : ℕ) (m : Mem) (p endptr b : ℕ) (negative : Bool) (d : ℕ) (ds : List ℕ)
    → 0 < b
    → b ≤ 36
    → AllBelow b (d ∷ ds)
    → IsString m p (text negative (d ∷ ds))
    → value b (d ∷ ds) < 2 ^ 63
    → suc (length ds) < g
    → strtol g m p endptr b
      ≡ some
          (signed negative (value b (d ∷ ds)), stored endptr (p + length (text negative (d ∷ ds))))
unfolding strtol
strtol-value zero m p endptr b negative d ds bz le below s fits fuel = absurd (omega arith)
strtol-value (suc g) m p endptr b true d ds bz le below s fits fuel =
    let r = signed_loop-value (suc g) long_limit m b (p + 1) 0 (d ∷ ds) bz le below s.2 fits fuel in
    let skip : skip_space (suc g) m p ≡ some p = unfold skip_space in ground (arith, s.0) in
    let sign : take_sign m p ≡ (true, p + 1) = unfold take_sign in ground (arith, s.0) in
    let end : p + length (text true (d ∷ ds)) ≡ p + 1 + length (d ∷ ds) =
      omega (arith, length-characters ds) in
    rw (strtol, skip, sign, no_prefix m b (p + 1) d ds bz le below s.2, r, end, sign) refl
strtol-value (suc g) m p endptr b false d ds bz le below s fits fuel =
    let r = signed_loop-value (suc g) long_limit m b p 0 (d ∷ ds) bz le below s fits fuel in
    let high = digit_printable d (omega (arith, below.0)) in
    let skip : skip_space (suc g) m p ≡ some p = unfold skip_space in ground (arith, s.0, high) in
    let sign : take_sign m p ≡ (false, p) = unfold take_sign in ground (arith, s.0, high) in
    let end : p + length (text false (d ∷ ds)) ≡ p + length (d ∷ ds) =
      omega (arith, length-characters ds) in
    rw (strtol, skip, sign, no_prefix m b p d ds bz le below s, r, end, sign) refl
