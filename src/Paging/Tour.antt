-- ===== src/Paging/Tour.antt =====
-- The steps of a walk between the tables of an address space.
use jmos.Prelude.{
  ℕ, ◌<◌, ◌≡◌, refl, ◌≢◌, inl, inr, Bool, true, false, ◌&&◌, List, [], ◌∷◌, Option, none, some,
  arith, if◌then◌else◌, bit_and, length, ap, ◌∙◌, Bool-cases, ltb,
}
use jmos.Paging.{Vmm, p2v, slot, is_present, page_addr_mask}
use jmos.Paging.Walk.{walk, is_large, indices}
use jmos.Paging.Space.{Tables, Space, entry_at, p2v-table}

abbrev pub below : List ℕ → Bool
below [] = true
below (i ∷ is) = ltb i 512 && below is

pub below_indices : (va : ℕ) → below (indices va) ≡ true
below_indices va = ground arith

-- The steps of a walk.
walk_last :
    (s : Vmm) (t i : ℕ)
    → walk s t (i ∷ [])
      ≡ (if is_present (s.words (slot t i)) then some (s.words (slot t i)) else none)
unfolding walk
walk_last s t i = elim (Bool-cases (is_present (s.words (slot t i)))) [
  | inl p ↦ rw (walk, p) refl
  | inr a ↦ rw (walk, a) refl
]

walk_absent :
    (s : Vmm) (t i : ℕ) (is : List ℕ)
    → is_present (s.words (slot t i)) ≡ false
    → walk s t (i ∷ is) ≡ none
unfolding walk
walk_absent s t i [] a = rw (walk, a) refl
walk_absent s t i (j ∷ is) a = rw (walk, a) refl

walk_down :
    (s : Vmm) (t i j : ℕ) (is : List ℕ)
    → is_present (s.words (slot t i)) ≡ true
    → is_large (s.words (slot t i)) ≡ false
    → walk s t (i ∷ j ∷ is) ≡ walk s (p2v s (bit_and (s.words (slot t i)) page_addr_mask)) (j ∷ is)
unfolding walk
walk_down s t i j is a small = rw (walk, a, small) refl

-- What a walk finds in its last table.
abbrev pub found : ℕ → Option ℕ
found e = if is_present e then some e else none

module _ {s : Vmm} {tab : Tables} (v : Space s tab) where
  -- The walk from the table at a path.
  abbrev pub tour : List ℕ → List ℕ → Option ℕ
  tour qs is = walk s (p2v s (tab qs)) is

  pub tour_empty : (qs : List ℕ) → tour qs [] ≡ none
  unfolding walk
  tour_empty qs = refl

  entry :
      (qs : List ℕ) (j : ℕ) → tab qs ≢ 0 → s.words (slot (p2v s (tab qs)) j) ≡ entry_at s (tab qs) j
  entry qs j n = ap (λ t. s.words (slot t j)) (p2v-table v qs n).0

  pub tour_last :
      (qs : List ℕ) (j : ℕ) → tab qs ≢ 0 → tour qs (j ∷ []) ≡ found (entry_at s (tab qs) j)
  tour_last qs j n = walk_last s (p2v s (tab qs)) j ∙ ap found (entry qs j n)

  pub tour_absent :
      (qs : List ℕ) (j : ℕ) (is : List ℕ)
      → tab qs ≢ 0
      → is_present (entry_at s (tab qs) j) ≡ false
      → tour qs (j ∷ is) ≡ none
  tour_absent qs j is n a = walk_absent s (p2v s (tab qs)) j is (ap is_present (entry qs j n) ∙ a)

  pub tour_down :
      (qs : List ℕ) (j k : ℕ) (is : List ℕ)
      → tab qs ≢ 0
      → length qs < 3
      → j < 512
      → is_present (entry_at s (tab qs) j) ≡ true
      → tour qs (j ∷ k ∷ is) ≡ tour (j ∷ qs) (k ∷ is)
  tour_down qs j k is n d lt a =
      walk_down s (p2v s (tab qs)) j k is (ap is_present (entry qs j n) ∙ a)
        (ap is_large (entry qs j n) ∙ v.no_large qs j d lt n a)
      ∙ ap (λ e. walk s (p2v s (bit_and e page_addr_mask)) (k ∷ is)) (entry qs j n)
      ∙ ap (λ t. walk s (p2v s t) (k ∷ is)) (v.there qs j d lt n a).0
