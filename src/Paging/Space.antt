-- ===== src/Paging/Space.antt =====
-- An address space: which table stands at which path of indices.
use jmos.Prelude.{
  ℕ, ◌+◌, ◌*◌, ◌/◌, ◌%◌, ◌^◌, ◌≤◌, ◌<◌, ◌≡◌, refl, ◌≢◌, ◌⊎◌, inl, inr, Bool, true, false, ◌&&◌,
  List, [], ◌∷◌, arith, ◌==◌, bit_and, length, ap, subst, Bool-cases,
}
use jmos.Pmm.{bm_test}
use jmos.Pmm.Inv.{IsValid}
use jmos.Paging.Walk.{is_large}
use jmos.Paging.{Vmm, p2v, slot, is_present, page_addr_mask}

abbrev pub same : List ℕ → List ℕ → Bool
same [] [] = true
same [] (y ∷ ys) = false
same (x ∷ xs) [] = false
same (x ∷ xs) (y ∷ ys) = x == y && same xs ys

pub same→eq : (xs ys : List ℕ) → same xs ys ≡ true → xs ≡ ys
same→eq [] [] h = refl
same→eq [] (y ∷ ys) h = absurd (cc)
same→eq (x ∷ xs) [] h = absurd (cc)
same→eq (x ∷ xs) (y ∷ ys) h = ground (arith, same→eq xs ys)

pub same_refl : (xs : List ℕ) → same xs xs ≡ true
same_refl [] = refl
same_refl (x ∷ xs) = ground (arith, same_refl xs)

pub eq→same : (xs ys : List ℕ) → xs ≡ ys → same xs ys ≡ true
eq→same xs ys e = subst (λ z. same xs z ≡ true) e (same_refl xs)

-- A path is not the path that continues it.
pub same-cons : (xs : List ℕ) (i : ℕ) → same xs (i ∷ xs) ≡ false
same-cons xs i = elim (Bool-cases (same xs (i ∷ xs))) [
  | inl e ↦ absurd (omega (arith, ap (λ q. length q) (same→eq xs (i ∷ xs) e)))
  | inr ne ↦ ne
]

pub same_or_ne : (xs ys : List ℕ) → (xs ≡ ys) ⊎ (same xs ys ≡ false)
same_or_ne xs ys = elim (Bool-cases (same xs ys)) [ inl e ↦ inl (same→eq xs ys e) | inr e ↦ inr e ]

-- The physical address of the table at each path, the last index first; 0 where there is no table.
abbrev pub Tables : Type 0
Tables = List ℕ → ℕ

-- The entry of a table.
abbrev pub entry_at : Vmm → ℕ → ℕ → ℕ
entry_at s t i = s.words (slot (t + s.hhdm_off) i)

-- The tables lie in frames of their own that the frame allocator has handed out, within the 52 bits of
-- an entry's address and within the direct map. Above the last level, an entry is present exactly where
-- there is a table at the path that it continues, and it holds that table's address and does not map a
-- large page.
pub record Space (s : Vmm) (tab : Tables) : Type 0 where
  pub pmm : IsValid s.pmm
  pub few : s.pmm.frame_count ≤ 2 ^ 40
  pub mapped : s.hhdm_off + s.pmm.frame_count * 4096 < 2 ^ 64
  pub top : tab [] ≢ 0
  pub frame :
      (ps : List ℕ)
      → tab ps ≢ 0
      → (tab ps % 4096 ≡ 0)
        × (tab ps / 4096 < s.pmm.frame_count)
        × (bm_test s.pmm.bytes (tab ps / 4096) ≡ true)
  pub apart : (ps qs : List ℕ) → tab ps ≢ 0 → tab ps ≡ tab qs → ps ≡ qs
  pub closed : (ps : List ℕ) (i : ℕ) → tab ps ≡ 0 → tab (i ∷ ps) ≡ 0
  pub there :
      (ps : List ℕ) (i : ℕ)
      → length ps < 3
      → i < 512
      → tab ps ≢ 0
      → is_present (entry_at s (tab ps) i) ≡ true
      → (bit_and (entry_at s (tab ps) i) page_addr_mask ≡ tab (i ∷ ps)) × (tab (i ∷ ps) ≢ 0)
  pub no_large :
      (ps : List ℕ) (i : ℕ)
      → length ps < 3
      → i < 512
      → tab ps ≢ 0
      → is_present (entry_at s (tab ps) i) ≡ true
      → is_large (entry_at s (tab ps) i) ≡ false
  pub gone :
      (ps : List ℕ) (i : ℕ)
      → length ps < 3
      → i < 512
      → tab ps ≢ 0
      → is_present (entry_at s (tab ps) i) ≡ false
      → tab (i ∷ ps) ≡ 0

-- The pointer to a table does not wrap.
pub p2v-table :
    {s : Vmm} {tab : Tables} (v : Space s tab) (ps : List ℕ)
    → tab ps ≢ 0
    → (p2v s (tab ps) ≡ tab ps + s.hhdm_off) × (p2v s (tab ps) ≢ 0)
p2v-table v ps nz = omega (arith, v.frame ps nz, v.mapped)
