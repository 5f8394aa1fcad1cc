-- ===== src/Paging/Grow.antt =====
-- An address space that has grown by one table, and the walks through it.
use jmos.Prelude.{
  ℕ, ◌+◌, ◌<◌, ◌≡◌, ◌≢◌, inl, inr, Bool, true, false, List, [], ◌∷◌, arith, length, ap, ◌∙◌, sym,
  Bool-cases,
}
use jmos.Paging.{Vmm, is_present}
use jmos.Paging.Tour.{below, found, tour, tour_last, tour_empty, tour_absent, tour_down}
use jmos.Paging.Space.{Tables, Space, same, same_or_ne, entry_at}

-- One table more, at the path `i ∷ ps`: it is empty, the entry for it was absent and leads there now,
-- and no other entry of a table that was there changes.
pub record Grown (s : Vmm) (tab : Tables) (s' : Vmm) (tab' : Tables) (i : ℕ) (ps : List ℕ)
    : Type 0 where
  pub space : Space s' tab'
  pub base : s'.hhdm_off ≡ s.hhdm_off
  pub quiet : s'.flushed ≡ s.flushed
  pub was : is_present (entry_at s (tab ps) i) ≡ false
  pub kept : (qs : List ℕ) → tab qs ≢ 0 → tab' qs ≡ tab qs
  pub new : tab' (i ∷ ps) ≢ 0
  pub empty : (j : ℕ) → j < 512 → is_present (entry_at s' (tab' (i ∷ ps)) j) ≡ false
  pub leads : is_present (entry_at s' (tab ps) i) ≡ true
  pub others :
      (qs : List ℕ) (j : ℕ)
      → tab qs ≢ 0
      → j < 512
      → same (j ∷ qs) (i ∷ ps) ≡ false
      → entry_at s' (tab qs) j ≡ entry_at s (tab qs) j

module _ (s : Vmm) (tab : Tables) (s' : Vmm) (tab' : Tables) (i : ℕ) (ps : List ℕ)
    (deep : length ps < 3) (v : Space s tab) (g : Grown s tab s' tab' i ps) where
  abbrev at_new : List ℕ → ℕ → Bool
  at_new qs j = same (j ∷ qs) (i ∷ ps)

  entry_kept :
      (qs : List ℕ) (j : ℕ)
      → tab qs ≢ 0
      → j < 512
      → at_new qs j ≡ false
      → entry_at s' (tab' qs) j ≡ entry_at s (tab qs) j
  entry_kept qs j n lt ne = ap (λ t. entry_at s' t j) (g.kept qs n) ∙ g.others qs j n lt ne

  still : (qs : List ℕ) → tab qs ≢ 0 → tab' qs ≢ 0
  still qs n z = n (sym (g.kept qs n) ∙ z)

  -- The entry that leads to the table at a path.
  abbrev leading : Vmm → Tables → List ℕ → Bool
  leading u t [] = false
  leading u t (j ∷ qs) = is_present (entry_at u (t qs) j)

  not_last : (qs : List ℕ) (j : ℕ) → length qs ≡ 3 → at_new qs j ≡ false
  not_last qs j l = elim (same_or_ne (j ∷ qs) (i ∷ ps)) [
    | inl e ↦ absurd (omega (arith, ap (λ q. length q) e, l, deep))
    | inr ne ↦ ne
  ]

  -- A walk that takes the entry of the new table found it absent, and finds the new table empty.
  walk_new :
      (qs : List ℕ) (j k : ℕ) (is : List ℕ)
      → tab qs ≢ 0
      → length qs < 3
      → j < 512
      → k < 512
      → j ∷ qs ≡ i ∷ ps
      → tour g.space qs (j ∷ k ∷ is) ≡ tour v qs (j ∷ k ∷ is)
  walk_new qs j k is n short lt lk e =
      let leads : is_present (entry_at s' (tab' qs) j) ≡ true =
        ap (λ t. is_present (entry_at s' t j)) (g.kept qs n) ∙ ap (leading s' tab) e ∙ g.leads in
      let empty = ap (λ q. is_present (entry_at s' (tab' q) k)) e ∙ g.empty k lk in
      tour_down g.space qs j k is (still qs n) short lt leads
      ∙ tour_absent g.space (j ∷ qs) k is (λ z. g.new (sym (ap tab' e) ∙ z)) empty
      ∙ sym (tour_absent v qs j (k ∷ is) n (ap (leading s tab) e ∙ g.was))

  -- No walk ends elsewhere than before.
  pub walk-Grown :
      (qs is : List ℕ)
      → tab qs ≢ 0
      → length qs + length is ≡ 4
      → below is ≡ true
      → tour g.space qs is ≡ tour v qs is
  walk-Grown qs [] n d b = tour_empty g.space qs ∙ sym (tour_empty v qs)
  walk-Grown qs (j ∷ []) n d b =
      let lt : j < 512 = ground arith in
      tour_last g.space qs j (still qs n)
      ∙ ap found (entry_kept qs j n lt (not_last qs j (omega (arith, d))))
      ∙ sym (tour_last v qs j n)
  walk-Grown qs (j ∷ k ∷ is) n d b = elim (same_or_ne (j ∷ qs) (i ∷ ps)) [
    | inl e ↦ walk_new qs j k is n (ground arith) (ground arith) (ground arith) e
    | inr ne ↦
        let lt : j < 512 = ground arith in
        let short : length qs < 3 = ground arith in
        let eq = entry_kept qs j n lt ne in
        elim (Bool-cases (is_present (entry_at s (tab qs) j))) [
          | inl p ↦
              let child = v.there qs j short lt n p in
              tour_down g.space qs j k is (still qs n) short lt (ap is_present eq ∙ p)
              ∙ walk-Grown (j ∷ qs) (k ∷ is) child.1 (omega (arith, d)) (ground arith)
              ∙ sym (tour_down v qs j k is n short lt p)
          | inr a ↦
              tour_absent g.space qs j (k ∷ is) (still qs n) (ap is_present eq ∙ a)
              ∙ sym (tour_absent v qs j (k ∷ is) n a)
        ]
  ]
