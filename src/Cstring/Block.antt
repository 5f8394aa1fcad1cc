-- ===== src/Cstring/Block.antt =====
-- `memset`, `memcpy`, `memmove`, `memcmp`, `memchr`: blocks of a given length.
use jmos.Prelude.{
  ℕ, zero, suc, ◌+◌, ◌-◌, ◌%◌, ◌≤◌, ◌<◌, ◌≡◌, refl, ◌≢◌, ◌⊎◌, inl, inr, ◌↔◌, Bool, ◌&&◌, arith, ltb,
  leb, ◌==◌, if◌then◌else◌, update, Bool-cases, eq_or_ne, lt_or_le, ap, subst, ==→eq, ==→ne,
}
use native.Mathlib.Nat.{add-zero}
use jmos.Prelude.Int.{pos, sub_ℕ}
use jmos.Cstring.{
  Mem, null, memset_loop, memset, forward, backward, memcpy, memmove, memcmp_loop, memcmp,
  memchr_loop, memchr,
}

-- The address lies in the block of `n` bytes at `p`.
abbrev pub inside : ℕ → ℕ → ℕ → Bool
inside p n a = leb p a && ltb a (p + n)

memset_loop_lem :
    (n : ℕ) (m : Mem) (p v a : ℕ) → memset_loop n m p v a ≡ (if inside p n a then v else m a)
unfolding memset_loop
memset_loop_lem zero m p v a = ground arith
memset_loop_lem (suc n) m p v a = ground (arith, memset_loop_lem n (update m p v) (p + 1) v a)

-- `memset` returns its pointer, writes the value's low byte to the whole block, and leaves every
-- other address alone.
pub memset_lem :
    (m : Mem) (p v n a : ℕ)
    → ((memset m p v n).0 ≡ p) × ((memset m p v n).1 a ≡ (if inside p n a then v % 256 else m a))
unfolding memset
memset_lem m p v n a = (refl, memset_loop_lem n m p (v % 256) a)

-- Copying upwards is right where the target starts below the source, or ends before it begins.
pub forward_lem :
    (n : ℕ) (m : Mem) (d s a : ℕ)
    → (d ≤ s) ⊎ (s + n ≤ d)
    → forward n m d s a ≡ (if inside d n a then m (s + (a - d)) else m a)
unfolding forward
forward_lem zero m d s a h = ground arith
forward_lem (suc n) m d s a h =
    let ih = forward_lem n (update m d (m s)) (d + 1) (s + 1) a (omega arith) in
    elim (lt_or_le d a) [
      | inl above ↦ ground (arith, ih, h, ap m (shift above))
      | inr low ↦ elim (eq_or_ne a d) [
        | inl e ↦ ground (arith, ih, e, ap m (start e))
        | inr ne ↦ ground (arith, ih)
      ]
    ]
  where
    shift : d < a → s + 1 + (a - (d + 1)) ≡ s + (a - d)
    shift above = omega arith

    start : a ≡ d → s + (a - d) ≡ s
    start e = omega arith

backward_lem :
    (n : ℕ) (m : Mem) (d s a : ℕ)
    → s ≤ d
    → backward n m d s a ≡ (if inside d n a then m (s + (a - d)) else m a)
unfolding backward
backward_lem zero m d s a h = ground arith
backward_lem (suc n) m d s a h =
    let ih = backward_lem n (update m (d + n) (m (s + n))) d s a h in
    elim (eq_or_ne a (d + n)) [
      | inl e ↦ ground (arith, ih, e, ap m (last e))
      | inr ne ↦ ground (arith, ih)
    ]
  where
    last : a ≡ d + n → s + (a - d) ≡ s + n
    last e = omega arith

-- `memcpy` between blocks that do not overlap returns its target, copies every byte of the source
-- to its place, and changes nothing else.
pub memcpy_lem :
    (m : Mem) (d s n a : ℕ)
    → (d + n ≤ s) ⊎ (s + n ≤ d)
    → ((memcpy m d s n).0 ≡ d)
      × ((memcpy m d s n).1 a ≡ (if inside d n a then m (s + (a - d)) else m a))
unfolding memcpy
memcpy_lem m d s n a h = (refl, forward_lem n m d s a (omega arith))

-- `memmove` does the same whatever the overlap: every target byte is the source byte from before
-- the call.
pub memmove_lem :
    (m : Mem) (d s n a : ℕ)
    → ((memmove m d s n).0 ≡ d)
      × ((memmove m d s n).1 a ≡ (if inside d n a then m (s + (a - d)) else m a))
unfolding memmove
memmove_lem m d s n a = elim (Bool-cases (ltb d s)) [
  | inl up ↦ rw up (refl, forward_lem n m d s a (inl (ground arith)))
  | inr down ↦ rw down (refl, backward_lem n m d s a (ground arith))
]

sub-ne : (a b : ℕ) → a ≢ b → sub_ℕ a b ≢ pos 0
sub-ne a b h = ground arith

memcmp_loop-zero :
    (n : ℕ) (m : Mem) (p q : ℕ)
    → (memcmp_loop n m p q ≡ pos 0) ↔ ((i : ℕ) → i < n → m (p + i) ≡ m (q + i))
unfolding memcmp_loop
memcmp_loop-zero zero m p q = ((λ e i lt. absurd (omega arith)), (λ h. refl))
memcmp_loop-zero (suc n) m p q = elim (Bool-cases (m p == m q)) [
  | inl same ↦
      let ih = memcmp_loop-zero n m (p + 1) (q + 1) in
      let here : m p ≡ m q = ==→eq _ _ same in
      rw (same, memcmp_loop)
        (
          (λ e i lt. elim (eq_or_ne i 0) [
            | inl z ↦ rw z (simp add-zero here)
            | inr nz ↦ next i nz (ih.0 e (i - 1) (omega arith))
          ]),
          (λ h. ih.1 (λ i lt. step i (h (suc i) (omega arith)))),
        )
  | inr other ↦
      rw (other, memcmp_loop)
        (
          (λ e. absurd (sub-ne _ _ (==→ne _ _ other) e)),
          (λ h. absurd (==→ne _ _ other (simp add-zero at (h 0 (omega arith))))),
        )
]
  where
    next : (i : ℕ) → i ≢ 0 → m (p + 1 + (i - 1)) ≡ m (q + 1 + (i - 1)) → m (p + i) ≡ m (q + i)
    next i nz e =
        let a : p + 1 + (i - 1) ≡ p + i = omega arith in
        let b : q + 1 + (i - 1) ≡ q + i = omega arith in rw (a, b) at e

    step : (i : ℕ) → m (p + suc i) ≡ m (q + suc i) → m (p + 1 + i) ≡ m (q + 1 + i)
    step i e =
        let a : p + suc i ≡ p + 1 + i = omega arith in
        let b : q + suc i ≡ q + 1 + i = omega arith in rw (a, b) at e

-- `memcmp` returns 0 exactly when the two blocks hold the same bytes.
pub memcmp-zero :
    (m : Mem) (p q n : ℕ) → (memcmp m p q n ≡ pos 0) ↔ ((i : ℕ) → i < n → m (p + i) ≡ m (q + i))
unfolding memcmp
memcmp-zero m p q n = memcmp_loop-zero n m p q

-- The first byte of a block that equals `c`, by its pointer; NULL if there is none.
abbrev pub FirstByte : Mem → ℕ → ℕ → ℕ → ℕ → Type 0
FirstByte m p n c r =
    ((r ≡ null) × ((i : ℕ) → i < n → m (p + i) ≢ c))
    ⊎ ((i : ℕ) × (i < n) × (r ≡ p + i) × (m (p + i) ≡ c) × ((j : ℕ) → j < i → m (p + j) ≢ c))

-- A byte that is not `c` in front of a block.
pub FirstByte-cons :
    (m : Mem) (p n c : ℕ) {r : ℕ} → m p ≢ c → FirstByte m (p + 1) n c r → FirstByte m p (suc n) c r
FirstByte-cons m p n c here (inl gone) = inl (gone.0, λ i lt. before i (omega arith))
  where
    before : (j : ℕ) → j < suc n → m (p + j) ≢ c
    before j lt = elim (eq_or_ne j 0) [
      | inl z ↦ λ e. here (subst (λ k. m k ≡ c) (omega arith) e)
      | inr nz ↦ λ e. gone.1 (j - 1) (omega arith) (subst (λ k. m k ≡ c) (omega arith) e)
    ]
FirstByte-cons m p n c here (inr (i, lt, e, hit, none_before)) =
    inr (suc i, omega arith, omega arith, subst (λ k. m k ≡ c) (omega arith) hit, before)
  where
    before : (j : ℕ) → j < suc i → m (p + j) ≢ c
    before j l = elim (eq_or_ne j 0) [
      | inl z ↦ λ e'. here (subst (λ k. m k ≡ c) (omega arith) e')
      | inr nz ↦ λ e'. none_before (j - 1) (omega arith) (subst (λ k. m k ≡ c) (omega arith) e')
    ]

pub FirstByte-here : (m : Mem) (p n c : ℕ) → m p ≡ c → FirstByte m p (suc n) c p
FirstByte-here m p n c hit =
    inr (0, omega arith, omega arith, simp add-zero hit, λ j lt. absurd (omega arith))

pub FirstByte-nil : (m : Mem) (p c : ℕ) → FirstByte m p 0 c null
FirstByte-nil m p c = inl (refl, λ i lt. absurd (omega arith))

memchr_loop-FirstByte : (n : ℕ) (m : Mem) (p c : ℕ) → FirstByte m p n c (memchr_loop n m p c)
unfolding memchr_loop
memchr_loop-FirstByte zero m p c = FirstByte-nil m p c
memchr_loop-FirstByte (suc n) m p c = elim (Bool-cases (m p == c)) [
  | inl hit ↦ rw (hit, memchr_loop) (FirstByte-here m p n c (==→eq _ _ hit))
  | inr miss ↦
      rw (miss, memchr_loop)
        (FirstByte-cons m p n c (==→ne _ _ miss) (memchr_loop-FirstByte n m (p + 1) c))
]

-- `memchr` returns the pointer to the first byte of the block that equals the low byte of its
-- argument, and NULL where there is none.
pub memchr-FirstByte : (m : Mem) (p ch n : ℕ) → FirstByte m p n (ch % 256) (memchr m p ch n)
unfolding memchr
memchr-FirstByte m p ch n = memchr_loop-FirstByte n m p (ch % 256)
