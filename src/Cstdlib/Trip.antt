-- ===== src/Cstdlib/Trip.antt =====
-- The numbers that `itoa` writes are read back.
use jmos.Prelude.{
  ℕ, zero, suc, ◌+◌, ◌^◌, ◌≤◌, ◌<◌, ◌≡◌, refl, ◌∷◌, arith, length, ◌==◌, if◌then◌else◌, false, some,
  ◌∙◌, subst, Bool-cases, inl, inr, ap,
}
use jmos.Prelude.Int.{ℤ, pos, negsuc}
use jmos.Cstring.{Mem}
use jmos.Cstring.Repr.{IsString-end}
use jmos.Cstdlib.{signed, itoa, atoi, strtol, stored}
use jmos.Cstdlib.Parse.{text, atoi-value, strtol-value}
use jmos.Cstdlib.Itoa.{IsInt, minus, number, itoa-text}

-- The number is small enough for the readers, but for the least `int`.
abbrev NotLeast : ℤ → Type 0
NotLeast (pos n) = Unit
NotLeast (negsuc n) = n + 1 < 2 ^ 31

signed-number : (v : ℤ) → signed (minus v 10) (number v 10) ≡ v
signed-number (pos zero) = refl
signed-number (pos (suc n)) = refl
signed-number (negsuc n) = ground arith

number_bounds :
    (v : ℤ) (b : ℕ) → IsInt v → (number v b < 2 ^ 63) × (NotLeast v → number v 10 < 2 ^ 31)
number_bounds (pos n) b int = (omega (arith, int), λ _. int)
number_bounds (negsuc n) b int = (ground (arith, int), λ small. small)

-- With fuel above 2^32 + 1, what `itoa` writes in base 10 is read back by `atoi` as the same number, for
-- every `int` but the least one.
pub atoi-itoa :
    (g : ℕ) (v : ℤ) (m : Mem) (p : ℕ)
    → IsInt v
    → NotLeast v
    → 2 ^ 32 + 1 < g
    → (m' : Mem) × (itoa g v m p 10 ≡ some (p, m')) × (atoi g m' p ≡ some v)
atoi-itoa g v m p int small fuel =
    let (d, ds, m', e, below, val, s, len, kept) =
      itoa-text g v m p 10 (omega arith) (omega arith) int fuel in
    let r =
      atoi-value g m' p (minus v 10) d ds below s (rw val ((number_bounds v 10 int).1 small)) len in
    (m', e, r ∙ ap (λ q. some (signed (minus v 10) q)) val ∙ ap some (signed-number v))

read_sign :
    (v : ℤ) (b : ℕ)
    → signed (minus v b) (number v b) ≡ (if b == 10 then v else signed false (number v b))
read_sign v b = elim (Bool-cases (b == 10)) [
  | inl ten ↦
      subst
        (λ q. signed (minus v q) (number v q) ≡ (if q == 10 then v else signed false (number v q)))
        (ground (arith, ten)) (signed-number v)
  | inr other ↦ rw other refl
]

-- With fuel above 2^32 + 1, what `itoa` writes in base 10 is read back by `strtol` as the same number, for
-- every `int`; in another base from 2 to 36, as the value modulo 2^32. `strtol` reads all of it.
pub strtol-itoa :
    (g : ℕ) (v : ℤ) (m : Mem) (p endptr b : ℕ)
    → 2 ≤ b
    → b ≤ 36
    → IsInt v
    → 2 ^ 32 + 1 < g
    → (m' : Mem) × (end : ℕ) × (itoa g v m p b ≡ some (p, m'))
      × (m' end ≡ 0)
      × (strtol g m' p endptr b
          ≡ some (if b == 10 then v else signed false (number v b), stored endptr end))
strtol-itoa g v m p endptr b two most int fuel =
    let (d, ds, m', e, below, val, s, len, kept) = itoa-text g v m p b two most int fuel in
    let r =
      strtol-value g m' p endptr b (minus v b) d ds (omega arith) most below s
        (rw val ((number_bounds v b int).0)) len in
    (
      m',
      p + length (text (minus v b) (d ∷ ds)),
      e,
      IsString-end m' p _ s,
      r
          ∙ ap (λ q. some (q, stored endptr (p + length (text (minus v b) (d ∷ ds)))))
              (ap (λ q. signed (minus v b) q) val ∙ read_sign v b),
    )
