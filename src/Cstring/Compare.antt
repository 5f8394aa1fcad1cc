-- ===== src/Cstring/Compare.antt =====
-- `strcmp` and `strncmp` against the comparison of two lists of bytes.
use mathlib.Core.List
use jmos.Prelude.{
  ℕ, zero, suc, ◌+◌, ◌<◌, ◌≡◌, refl, ◌≢◌, ◌↔◌, inl, inr, true, false, List, [], ◌∷◌, some, arith,
  ◌==◌, length, take, Bool-cases, ==→eq, ==→ne, ap, sym,
}
use jmos.Prelude.Int.{ℤ, pos, sub_ℕ}
use jmos.Cstring.{Mem, strcmp, strncmp}
use jmos.Cstring.Repr.{IsString}

-- The difference of the first bytes that differ, where a list that has ended counts as 0.
unfoldable pub difference : List ℕ → List ℕ → ℤ
difference [] [] = pos 0
difference [] (y ∷ ys) = sub_ℕ 0 y
difference (x ∷ xs) [] = sub_ℕ x 0
difference (x ∷ xs) (y ∷ ys) = elim (x == y) [ true ↦ difference xs ys | false ↦ sub_ℕ x y ]

abbrev NoNul : List ℕ → Type 0
NoNul [] = Unit
NoNul (x ∷ xs) = (x ≢ 0) × NoNul xs

IsString-NoNul : (m : Mem) (p : ℕ) (xs : List ℕ) → IsString m p xs → NoNul xs
IsString-NoNul m p [] h = tt
IsString-NoNul m p (x ∷ xs) h = (h.1, IsString-NoNul m (p + 1) xs h.2)

cons_ne_nil : {x : ℕ} {xs : List ℕ} → x ∷ xs ≢ []
cons_ne_nil e = absurd (cc)

-- Among lists without NUL only equal ones have difference 0.
difference-zero : (xs ys : List ℕ) → NoNul xs → NoNul ys → (difference xs ys ≡ pos 0) ↔ (xs ≡ ys)
unfolding difference
difference-zero [] [] h k = ((λ _. refl), (λ _. refl))
difference-zero [] (y ∷ ys) h k =
    ((λ e. absurd (ground (arith, k.0))), (λ e. absurd (cons_ne_nil (sym e))))
difference-zero (x ∷ xs) [] h k =
    ((λ e. absurd (ground (arith, h.0))), (λ e. absurd (cons_ne_nil e)))
difference-zero (x ∷ xs) (y ∷ ys) h k = elim (Bool-cases (x == y)) [
  | inl same ↦
      let ih = difference-zero xs ys h.1 k.1 in
      let e : x ≡ y = ==→eq _ _ same in
      rw (same, difference) ((λ z. let t = ih.0 z in cc), (λ p. ih.1 (ap List.tail p)))
  | inr other ↦
      rw (other, difference) ((λ z. absurd (ground arith)), (λ p. absurd (==→ne _ _ other (cc))))
]

-- With fuel above the first string's length, `strcmp` gives the difference of the two strings.
strcmp-difference :
    (f : ℕ) (m : Mem) (p q : ℕ) (xs ys : List ℕ)
    → IsString m p xs
    → IsString m q ys
    → length xs < f
    → strcmp f m p q ≡ some (difference xs ys)
unfolding strcmp difference
strcmp-difference zero m p q xs ys h k lt = absurd (omega arith)
strcmp-difference (suc f) m p q [] [] h k lt = ground arith
strcmp-difference (suc f) m p q [] (y ∷ ys) h k lt = ground arith
strcmp-difference (suc f) m p q (x ∷ xs) [] h k lt = ground arith
strcmp-difference (suc f) m p q (x ∷ xs) (y ∷ ys) h k lt =
    ground (arith, strcmp-difference f m (p + 1) (q + 1) xs ys h.2 k.2 (omega arith))

-- `strncmp` gives the difference of the first `n` bytes of the two strings.
pub strncmp-difference :
    (m : Mem) (p q n : ℕ) (xs ys : List ℕ)
    → IsString m p xs
    → IsString m q ys
    → strncmp m p q n ≡ difference (take n xs) (take n ys)
unfolding strncmp difference
strncmp-difference m p q zero xs ys h k = refl
strncmp-difference m p q (suc n) [] [] h k = ground arith
strncmp-difference m p q (suc n) [] (y ∷ ys) h k = ground arith
strncmp-difference m p q (suc n) (x ∷ xs) [] h k = ground arith
strncmp-difference m p q (suc n) (x ∷ xs) (y ∷ ys) h k =
    ground (arith, strncmp-difference m (p + 1) (q + 1) n xs ys h.2 k.2)

-- With fuel above the first string's length `strcmp` ends: it returns the difference of the first
-- bytes that differ, and 0 exactly when the two strings are equal.
pub strcmp-eq :
    (f : ℕ) (m : Mem) (p q : ℕ) (xs ys : List ℕ)
    → IsString m p xs
    → IsString m q ys
    → length xs < f
    → (strcmp f m p q ≡ some (difference xs ys)) × (difference xs ys ≡ pos 0 ↔ xs ≡ ys)
strcmp-eq f m p q xs ys h k lt = (
  strcmp-difference f m p q xs ys h k lt,
  difference-zero xs ys (IsString-NoNul m p xs h) (IsString-NoNul m q ys k),
)
