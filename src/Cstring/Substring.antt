-- ===== src/Cstring/Substring.antt =====
-- `strstr`.
use jmos.Prelude.{
  ℕ, zero, suc, ◌+◌, ◌≤◌, ◌<◌, ◌≡◌, refl, ◌⊎◌, inl, inr, Bool, true, false, ◌&&◌, List, [], ◌∷◌,
  some, arith, ◌==◌, length, drop, Bool-cases, ne→==, ◌∙◌, sym,
}
use jmos.Cstring.{Mem, null, prefix_loop, strstr_loop, strstr}
use jmos.Cstring.Repr.{IsString}

unfoldable pub is_prefix : List ℕ → List ℕ → Bool
is_prefix [] hs = true
is_prefix (n ∷ ns) [] = false
is_prefix (n ∷ ns) (h ∷ hs) = (h == n) && is_prefix ns hs

prefix_loop-is_prefix :
    (f : ℕ) (m : Mem) (h n : ℕ) (hs ns : List ℕ)
    → IsString m h hs
    → IsString m n ns
    → length ns < f
    → prefix_loop f m h n ≡ some (is_prefix ns hs)
unfolding prefix_loop is_prefix
prefix_loop-is_prefix zero m h n hs ns ph pn lt = absurd (omega arith)
prefix_loop-is_prefix (suc f) m h n hs [] ph pn lt = ground arith
prefix_loop-is_prefix (suc f) m h n [] (y ∷ ns) ph pn lt = ground arith
prefix_loop-is_prefix (suc f) m h n (x ∷ hs) (y ∷ ns) ph pn lt =
    ground (arith, prefix_loop-is_prefix f m (h + 1) (n + 1) hs ns ph.2 pn.2 (omega arith))

-- The first place where `ns` stands in the string `hs` at `p`, by its pointer; NULL if there is none.
abbrev pub FirstMatch : ℕ → List ℕ → List ℕ → ℕ → Type 0
FirstMatch p hs ns r =
    ((r ≡ null) × ((i : ℕ) → i ≤ length hs → is_prefix ns (drop i hs) ≡ false))
    ⊎ ((i : ℕ) × (i ≤ length hs)
        × (r ≡ p + i)
        × (is_prefix ns (drop i hs) ≡ true)
        × ((j : ℕ) → j < i → is_prefix ns (drop j hs) ≡ false))

FirstMatch-cons :
    (p x : ℕ) (hs ns : List ℕ) {r : ℕ}
    → is_prefix ns (x ∷ hs) ≡ false
    → FirstMatch (p + 1) hs ns r
    → FirstMatch p (x ∷ hs) ns r
FirstMatch-cons p x hs ns miss (inl gone) = inl (gone.0, all)
  where
    all : (i : ℕ) → i ≤ suc (length hs) → is_prefix ns (drop i (x ∷ hs)) ≡ false
    all zero le = miss
    all (suc i) le = gone.1 i (omega arith)
FirstMatch-cons p x hs ns miss (inr (i, le, e, hit, before)) =
    inr (suc i, omega arith, omega arith, hit, all)
  where
    all : (j : ℕ) → j < suc i → is_prefix ns (drop j (x ∷ hs)) ≡ false
    all zero lt = miss
    all (suc j) lt = before j (omega arith)

strstr_loop-FirstMatch :
    (g f : ℕ) (m : Mem) (p n y : ℕ) (hs ns : List ℕ)
    → IsString m p hs
    → IsString m n (y ∷ ns)
    → suc (length ns) < g
    → length hs < f
    → (r : ℕ) × (strstr_loop g f m p n ≡ some r) × FirstMatch p hs (y ∷ ns) r
unfolding strstr_loop
strstr_loop-FirstMatch g zero m p n y hs ns ph pn lg lf = absurd (omega arith)
strstr_loop-FirstMatch g (suc f) m p n y [] ns ph pn lg lf =
    (null, rw (ph, strstr_loop), inl (refl, nothing))
  where
    nothing : (i : ℕ) → i ≤ 0 → is_prefix (y ∷ ns) (drop i []) ≡ false
    nothing zero le = unfold is_prefix in refl
    nothing (suc i) le = absurd (omega arith)
strstr_loop-FirstMatch g (suc f) m p n y (x ∷ hs) ns ph pn lg lf =
    let go : (m p == 0) ≡ false = ne→== _ _ (λ z. ph.1 (sym ph.0 ∙ z)) in
    let test = prefix_loop-is_prefix g m p n (x ∷ hs) (y ∷ ns) ph pn lg in
    elim (Bool-cases (is_prefix (y ∷ ns) (x ∷ hs))) [
      | inl hit ↦ (
        p,
        rw (go, test, hit, strstr_loop),
        inr (0, omega arith, omega arith, hit, λ j lt. absurd (omega arith)),
      )
      | inr miss ↦
          let (r, e, first) =
            strstr_loop-FirstMatch g f m (p + 1) n y hs ns ph.2 pn lg (omega arith) in
          (r, rw (go, test, miss, strstr_loop) e, FirstMatch-cons p x hs (y ∷ ns) miss first)
    ]

-- With fuel above both lengths `strstr` ends, and returns the pointer to the first place where the
-- needle stands in the haystack, and NULL where there is none; an empty needle stands at the start.
pub strstr-FirstMatch :
    (f : ℕ) (m : Mem) (p n : ℕ) (hs ns : List ℕ)
    → IsString m p hs
    → IsString m n ns
    → length hs < f
    → length ns < f
    → (r : ℕ) × (strstr f m p n ≡ some r) × FirstMatch p hs ns r
unfolding strstr
strstr-FirstMatch f m p n hs [] ph pn lh ln = (
  p,
  rw (pn, strstr),
  inr (0, omega arith, omega arith, unfold is_prefix in refl, λ j lt. absurd (omega arith)),
)
strstr-FirstMatch f m p n hs (y ∷ ns) ph pn lh ln =
    let go : (m n == 0) ≡ false = ne→== _ _ (λ z. pn.1 (sym pn.0 ∙ z)) in
    let (r, e, first) = strstr_loop-FirstMatch f f m p n y hs ns ph pn ln lh in
    (r, rw (go, strstr) e, first)
