-- ===== src/Cstring/Repr.antt =====
-- What a NUL-terminated string in memory is.
use native.Mathlib.Nat.{add-zero}
use jmos.Prelude.{ℕ, suc, ◌+◌, ◌≤◌, ◌<◌, ◌≡◌, ◌≢◌, ◌∙◌, List, [], ◌∷◌, ◌++◌, arith, length}
use jmos.Cstring.{Mem}

-- The bytes from `p` on are `xs`, none of them NUL, and then a NUL.
abbrev pub IsString : Mem → ℕ → List ℕ → Type 0
IsString m p [] = m p ≡ 0
IsString m p (x ∷ xs) = (m p ≡ x) × (x ≢ 0) × IsString m (p + 1) xs

-- A string is where its bytes and its NUL are found again.
pub IsString-copy :
    (m m' : Mem) (p q : ℕ) (xs : List ℕ)
    → IsString m p xs
    → ((i : ℕ) → i ≤ length xs → m' (q + i) ≡ m (p + i))
    → IsString m' q xs
IsString-copy m m' p q [] h same = simp add-zero at (same 0 (omega arith)) ∙ h
IsString-copy m m' p q (x ∷ xs) h same = (
  simp add-zero at (same 0 (omega arith)) ∙ h.0,
  h.1,
  IsString-copy m m' (p + 1) (q + 1) xs h.2 λ i le.
      let a : q + suc i ≡ q + 1 + i = omega arith in
      let b : p + suc i ≡ p + 1 + i = omega arith in rw (a, b) at (same (suc i) (omega arith)),
)

-- The byte behind the first `length xs` ones is the NUL.
pub IsString-end : (m : Mem) (p : ℕ) (xs : List ℕ) → IsString m p xs → m (p + length xs) ≡ 0
IsString-end m p [] h = simp add-zero h
IsString-end m p (x ∷ xs) h =
    let a : p + suc (length xs) ≡ p + 1 + length xs = omega arith in
    rw a (IsString-end m (p + 1) xs h.2)

-- A string whose NUL is overwritten by another string.
pub IsString-append :
    (m m' : Mem) (p : ℕ) (xs ys : List ℕ)
    → IsString m p xs
    → ((i : ℕ) → i < length xs → m' (p + i) ≡ m (p + i))
    → IsString m' (p + length xs) ys
    → IsString m' p (xs ++ ys)
IsString-append m m' p [] ys h same t = simp add-zero at t
IsString-append m m' p (x ∷ xs) ys h same t = (
  simp add-zero at (same 0 (omega arith)) ∙ h.0,
  h.1,
  IsString-append m m' (p + 1) xs ys h.2
      (λ i lt. let a : p + suc i ≡ p + 1 + i = omega arith in rw a at (same (suc i) (omega arith)))
      (let a : p + suc (length xs) ≡ p + 1 + length xs = omega arith in rw a at t),
)
