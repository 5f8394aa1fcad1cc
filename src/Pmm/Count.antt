-- ===== src/Pmm/Count.antt =====
-- The number of free frames, and how one changed bit changes it.
use jmos.Prelude.{
  ℕ, zero, suc, ◌+◌, ◌≤◌, ◌<◌, ◌≡◌, refl, inl, inr, true, false, arith, if◌then◌else◌, eq_or_ne,
}
use jmos.Pmm.{Bytes, bm_set, bm_clear, bm_test}
use jmos.Pmm.Bitmap.{IsBytes, bm_test-set, bm_test-clear}

-- How many frames below a bound have a clear bit.
unfoldable pub free_below : Bytes → ℕ → ℕ
free_below bm zero = 0
free_below bm (suc n) = (if bm_test bm n then 0 else 1) + free_below bm n

pub free_below-le : (bm : Bytes) (n : ℕ) → free_below bm n ≤ n
unfolding free_below
free_below-le bm zero = omega arith
free_below-le bm (suc n) = ground (arith, free_below-le bm n)

-- Only the tests below the bound matter.
pub free_below_same :
    (bm bm' : Bytes) (n : ℕ)
    → ((j : ℕ) → j < n → bm_test bm j ≡ bm_test bm' j)
    → free_below bm n ≡ free_below bm' n
unfolding free_below
free_below_same bm bm' zero h = refl
free_below_same bm bm' (suc n) h =
    ground (arith, h n, free_below_same bm bm' n (λ j lt. h j (omega arith)))

pub free_below-pos : (bm : Bytes) (i n : ℕ) → i < n → bm_test bm i ≡ false → 0 < free_below bm n
unfolding free_below
free_below-pos bm i zero lt free = absurd (omega arith)
free_below-pos bm i (suc n) lt free = elim (eq_or_ne i n) [
  | inl e ↦ ground (arith, e)
  | inr ne ↦ ground (arith, free_below-pos bm i n)
]

-- No free frame below the bound: the count is zero.
pub free_below-none :
    (bm : Bytes) (n : ℕ) → ((j : ℕ) → j < n → bm_test bm j ≡ true) → free_below bm n ≡ 0
unfolding free_below
free_below-none bm zero h = refl
free_below-none bm (suc n) h = ground (arith, h n, free_below-none bm n (λ j lt. h j (omega arith)))

pub free_below-set :
    (bm : Bytes) (i n : ℕ)
    → IsBytes bm
    → i < n
    → bm_test bm i ≡ false
    → free_below (bm_set bm i) n + 1 ≡ free_below bm n
unfolding free_below
free_below-set bm i zero b lt free = absurd (omega arith)
free_below-set bm i (suc n) b lt free = elim (eq_or_ne i n) [
  | inl e ↦ ground (
    arith,
    e,
    bm_test-set bm i n,
    free_below_same (bm_set bm i) bm n (λ j below. ground (arith, bm_test-set bm i j)),
  )
  | inr ne ↦ ground (arith, bm_test-set bm i n, free_below-set bm i n)
]

pub free_below-clear :
    (bm : Bytes) (i n : ℕ)
    → IsBytes bm
    → i < n
    → bm_test bm i ≡ true
    → free_below (bm_clear bm i) n ≡ free_below bm n + 1
unfolding free_below
free_below-clear bm i zero b lt used = absurd (omega arith)
free_below-clear bm i (suc n) b lt used = elim (eq_or_ne i n) [
  | inl e ↦ ground (
    arith,
    e,
    bm_test-clear bm i n,
    free_below_same (bm_clear bm i) bm n (λ j below. ground (arith, bm_test-clear bm i j)),
  )
  | inr ne ↦ ground (arith, bm_test-clear bm i n, free_below-clear bm i n)
]

-- Clearing more bits frees no fewer frames.
pub free_below_mono :
    (bm bm' : Bytes) (n : ℕ)
    → ((j : ℕ) → j < n → bm_test bm j ≡ false → bm_test bm' j ≡ false)
    → free_below bm n ≤ free_below bm' n
unfolding free_below
free_below_mono bm bm' zero h = omega arith
free_below_mono bm bm' (suc n) h =
    ground (arith, h n, free_below_mono bm bm' n (λ j lt. h j (omega arith)))

-- A used frame is not counted.
pub free_below-lt : (bm : Bytes) (i n : ℕ) → i < n → bm_test bm i ≡ true → free_below bm n < n
unfolding free_below
free_below-lt bm i zero lt used = absurd (omega arith)
free_below-lt bm i (suc n) lt used = elim (eq_or_ne i n) [
  | inl e ↦ ground (arith, e, free_below-le bm n)
  | inr ne ↦ ground (arith, free_below-lt bm i n)
]
