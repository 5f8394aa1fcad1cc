-- ===== src/Cstring/Search.antt =====
-- `strchr`, `strrchr`, `strcspn`, `strspn`, `strpbrk`.
use native.Mathlib.Nat.{add-zero}
use jmos.Prelude.{
  ℕ, zero, suc, ◌+◌, ◌-◌, ◌%◌, ◌≤◌, ◌<◌, ◌≡◌, refl, ◌≢◌, ◌⊎◌, inl, inr, Bool, true, false, not,
  ◌||◌, List, [], ◌∷◌, some, arith, ◌==◌, if◌then◌else◌, length, Bool-cases, eq_or_ne, ne→==, ==→eq,
  ==→ne, ==_refl, ap, ◌∙◌, sym, subst,
}
use jmos.Cstring.{
  Mem, null, strchr_loop, strchr, strrchr_loop, strrchr, among, span_loop, strcspn, strspn, strpbrk,
}
use jmos.Cstring.Repr.{IsString, IsString-end}
use jmos.Cstring.Block.{FirstByte, FirstByte-cons, FirstByte-here, FirstByte-nil}

strchr_loop-FirstByte :
    (f : ℕ) (m : Mem) (p c : ℕ) (xs : List ℕ)
    → IsString m p xs
    → length xs < f
    → (r : ℕ) × (strchr_loop f m p c ≡ some r) × FirstByte m p (length xs) c r
unfolding strchr_loop
strchr_loop-FirstByte zero m p c xs h lt = absurd (omega arith)
strchr_loop-FirstByte (suc f) m p c [] h lt = (null, rw (h, strchr_loop), FirstByte-nil m p c)
strchr_loop-FirstByte (suc f) m p c (x ∷ xs) h lt =
    let go : (m p == 0) ≡ false = ne→== _ _ (λ z. h.1 (sym h.0 ∙ z)) in
    elim (Bool-cases (m p == c)) [
      | inl hit ↦ (p, rw (go, hit, strchr_loop), FirstByte-here m p (length xs) c (==→eq _ _ hit))
      | inr miss ↦
          let (r, e, first) = strchr_loop-FirstByte f m (p + 1) c xs h.2 (omega arith) in
          (r, rw (go, miss, strchr_loop) e, FirstByte-cons m p (length xs) c (==→ne _ _ miss) first)
    ]

-- With fuel above the string's length `strchr` ends, and returns the pointer to the first byte of
-- the string that equals the low byte of its argument, and NULL where there is none. The NUL is not
-- searched: looking for 0 gives NULL.
pub strchr-FirstByte :
    (f : ℕ) (m : Mem) (p c : ℕ) (xs : List ℕ)
    → IsString m p xs
    → length xs < f
    → (r : ℕ) × (strchr f m p c ≡ some r) × FirstByte m p (length xs) (c % 256) r
unfolding strchr
strchr-FirstByte f m p c xs h lt = strchr_loop-FirstByte f m p (c % 256) xs h lt

-- The last byte that equals `c`; `old` if there is none.
abbrev pub LastByte : Mem → ℕ → ℕ → ℕ → ℕ → ℕ → Type 0
LastByte m p n c old r =
    ((r ≡ old) × ((i : ℕ) → i < n → m (p + i) ≢ c))
    ⊎ ((i : ℕ) × (i < n)
        × (r ≡ p + i)
        × (m (p + i) ≡ c)
        × ((j : ℕ) → i < j → j < n → m (p + j) ≢ c))

LastByte-cons :
    (m : Mem) (p n c old : ℕ) {r : ℕ}
    → LastByte m (p + 1) n c (if m p == c then p else old) r
    → LastByte m p (suc n) c old r
LastByte-cons m p n c old (inl gone) = elim (Bool-cases (m p == c)) [
  | inl hit ↦ inr (
    0,
    omega arith,
    ground (arith, gone.0),
    simp add-zero (==→eq _ _ hit),
    λ j lo hi e. gone.1 (j - 1) (omega arith) (subst (λ k. m k ≡ c) (omega arith) e),
  )
  | inr miss ↦ inl (
    ground (arith, gone.0),
    λ i lt e. elim (eq_or_ne i 0) [
      | inl z ↦ ==→ne _ _ miss (subst (λ k. m k ≡ c) (omega arith) e)
      | inr nz ↦ gone.1 (i - 1) (omega arith) (subst (λ k. m k ≡ c) (omega arith) e)
    ],
  )
]
LastByte-cons m p n c old (inr (i, lt, e, hit, later)) = inr (
  suc i,
  omega arith,
  omega arith,
  subst (λ k. m k ≡ c) (omega arith) hit,
  λ j lo hi e'. later (j - 1) (omega arith) (omega arith) (subst (λ k. m k ≡ c) (omega arith) e'),
)

strrchr_loop-LastByte :
    (f : ℕ) (m : Mem) (p c old : ℕ) (xs : List ℕ)
    → IsString m p xs
    → length xs < f
    → (r : ℕ) × (strrchr_loop f m p c old ≡ some r) × LastByte m p (length xs) c old r
unfolding strrchr_loop
strrchr_loop-LastByte zero m p c old xs h lt = absurd (omega arith)
strrchr_loop-LastByte (suc f) m p c old [] h lt =
    (old, rw (h, strrchr_loop), inl (refl, λ i l. absurd (omega arith)))
strrchr_loop-LastByte (suc f) m p c old (x ∷ xs) h lt =
    let go : (m p == 0) ≡ false = ne→== _ _ (λ z. h.1 (sym h.0 ∙ z)) in
    let (r, e, last) =
      strrchr_loop-LastByte f m (p + 1) c (if m p == c then p else old) xs h.2 (omega arith) in
    (r, rw (go, strrchr_loop) e, LastByte-cons m p (length xs) c old last)

-- With fuel above the string's length `strrchr` ends, and returns the pointer to the last byte of
-- the string that equals the low byte of its argument, and NULL where there is none.
pub strrchr-LastByte :
    (f : ℕ) (m : Mem) (p c : ℕ) (xs : List ℕ)
    → IsString m p xs
    → length xs < f
    → (r : ℕ) × (strrchr f m p c ≡ some r) × LastByte m p (length xs) (c % 256) null r
unfolding strrchr
strrchr-LastByte f m p c xs h lt = strrchr_loop-LastByte f m p (c % 256) null xs h lt

-- Membership, and how many bytes at the front of a list pass a test.
unfoldable pub contains : List ℕ → ℕ → Bool
contains [] c = false
contains (x ∷ xs) c = (c == x) || contains xs c

unfoldable pub leading : (ℕ → Bool) → List ℕ → ℕ
leading f [] = 0
leading f (x ∷ xs) = if f x then suc (leading f xs) else 0

among-contains :
    (f : ℕ) (m : Mem) (r c : ℕ) (ys : List ℕ)
    → IsString m r ys
    → length ys < f
    → among f m r c ≡ some (contains ys c)
unfolding among contains
among-contains zero m r c ys h lt = absurd (omega arith)
among-contains (suc f) m r c [] h lt = ground arith
among-contains (suc f) m r c (y ∷ ys) h lt =
    ground (arith, among-contains f m (r + 1) c ys h.2 (omega arith))

-- The bytes over which the outer loop runs on.
abbrev pub passes : Bool → List ℕ → ℕ → Bool
passes stop ys c = if stop then not (contains ys c) else contains ys c

pub span_loop-leading :
    (g f : ℕ) (stop : Bool) (m : Mem) (p r : ℕ) (xs ys : List ℕ)
    → IsString m p xs
    → IsString m r ys
    → length ys < g
    → length xs < f
    → span_loop g f stop m p r ≡ some (p + leading (passes stop ys) xs)
unfolding span_loop leading
span_loop-leading g zero stop m p r xs ys h k lg lf = absurd (omega arith)
span_loop-leading g (suc f) stop m p r [] ys h k lg lf = ground arith
span_loop-leading g (suc f) stop m p r (x ∷ xs) ys h k lg lf = ground (
  arith,
  among-contains g m r x ys k lg,
  span_loop-leading g f stop m (p + 1) r xs ys h.2 k lg (omega arith),
)

-- With fuel above both lengths, `strcspn` counts the bytes in front of the first one that is among
-- the rejected ones, and `strspn` the bytes in front of the first one that is not among the accepted.
pub strcspn-strspn :
    (f : ℕ) (m : Mem) (p r : ℕ) (xs ys : List ℕ)
    → IsString m p xs
    → IsString m r ys
    → length xs < f
    → length ys < f
    → (strcspn f m p r ≡ some (leading (λ c. not (contains ys c)) xs))
      × (strspn f m p r ≡ some (leading (contains ys) xs))
unfolding strcspn strspn
strcspn-strspn f m p r xs ys h k lx ly = (
  rw (span_loop-leading f f true m p r xs ys h k ly lx) (ap some (omega arith)),
  rw (span_loop-leading f f false m p r xs ys h k ly lx) (ap some (omega arith)),
)

leading-le : (g : ℕ → Bool) (xs : List ℕ) → leading g xs ≤ length xs
unfolding leading
leading-le g [] = omega arith
leading-le g (x ∷ xs) = ground (arith, leading-le g xs)

byte_ne_zero : (m : Mem) (p i : ℕ) (xs : List ℕ) → IsString m p xs → i < length xs → m (p + i) ≢ 0
byte_ne_zero m p i [] h lt = absurd (omega arith)
byte_ne_zero m p zero (x ∷ xs) h lt = λ z. h.1 (sym h.0 ∙ simp add-zero at z)
byte_ne_zero m p (suc i) (x ∷ xs) h lt =
    let a : p + suc i ≡ p + 1 + i = omega arith in
    rw a (byte_ne_zero m (p + 1) i xs h.2 (omega arith))

-- With fuel above both lengths, `strpbrk` returns the pointer to the first byte that is among the
-- accepted ones, and NULL where the string has none.
pub strpbrk-leading :
    (f : ℕ) (m : Mem) (p r : ℕ) (xs ys : List ℕ)
    → IsString m p xs
    → IsString m r ys
    → length xs < f
    → length ys < f
    → let k = leading (λ c. not (contains ys c)) xs in
      strpbrk f m p r ≡ some (if k == length xs then null else p + k)
unfolding strpbrk
strpbrk-leading f m p r xs ys h k lx ly =
    rw (span_loop-leading f f true m p r xs ys h k ly lx) (elim (eq_or_ne n (length xs)) [
      | inl e ↦ rw e (rw (IsString-end m p xs h, ==_refl))
      | inr ne ↦ rw (
        ne→== _ _ ne,
        ne→== _ _ (byte_ne_zero m p n xs h (omega (arith, leading-le (passes true ys) xs))),
      )
    ])
  where
    n : ℕ
    n = leading (passes true ys) xs
