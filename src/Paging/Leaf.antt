-- ===== src/Paging/Leaf.antt =====
-- The write of an entry of a last table.
use jmos.Prelude.{
  ℕ, ◌+◌, ◌<◌, ◌≡◌, ◌≢◌, inl, inr, true, false, List, [], ◌∷◌, arith, if◌then◌else◌, bit_and,
  length, ap, ◌∙◌, subst, sym, Bool-cases, eq_or_ne, update,
}
use jmos.Paging.{Vmm, slot, is_present, page_addr_mask}
use jmos.Paging.Tour.{below, found, tour, tour_last, tour_absent, tour_down}
use jmos.Paging.Walk.{is_large}
use jmos.Paging.Space.{Tables, Space, same, same_or_ne, eq→same, entry_at}

-- The path that a walk continues to.
abbrev pub onto : List ℕ → List ℕ → List ℕ
onto [] rs = rs
onto (j ∷ is) rs = onto is (j ∷ rs)

abbrev parent : List ℕ → List ℕ
parent [] = []
parent (j ∷ rs) = rs

-- Where there is no table, none is further on.
parent-onto :
    {s : Vmm} {tab : Tables} (v : Space s tab) (j : ℕ) (is rs : List ℕ)
    → tab rs ≡ 0
    → tab (parent (onto (j ∷ is) rs)) ≡ 0
parent-onto v j [] rs z = z
parent-onto v j (k ∷ is) rs z = parent-onto v k is (j ∷ rs) (v.closed rs j z)

module _ {s : Vmm} {tab : Tables} (v : Space s tab) (qs : List ℕ) (i e : ℕ) (fl : List ℕ)
    (deep : length qs ≡ 3) (lt : i < 512) (nz : tab qs ≢ 0) where
  abbrev pub written : Vmm
  written = record s { words = update s.words (slot (tab qs + s.hhdm_off) i) e; flushed = fl }

  here : entry_at written (tab qs) i ≡ e
  here = ground arith

  others :
      (rs : List ℕ) (j : ℕ)
      → tab rs ≢ 0
      → j < 512
      → same (j ∷ rs) (i ∷ qs) ≡ false
      → entry_at written (tab rs) j ≡ entry_at s (tab rs) j
  others rs j n b ne = elim (eq_or_ne (tab rs) (tab qs)) [
    | inl eq ↦
        let same_path : rs ≡ qs = v.apart rs qs n eq in
        let eqs = eq→same rs qs same_path in
        let dif : j ≢ i = ground arith in ground (arith, eq, dif)
    | inr d ↦ ground (arith, d, v.frame rs n, v.frame qs nz)
  ]

  upper : (rs : List ℕ) (j : ℕ) → length rs < 3 → same (j ∷ rs) (i ∷ qs) ≡ false
  upper rs j l = elim (same_or_ne (j ∷ rs) (i ∷ qs)) [
    | inl eq ↦ absurd (omega (arith, ap (λ q. length q) eq, l, deep))
    | inr ne ↦ ne
  ]

  unchanged :
      (rs : List ℕ) (j : ℕ)
      → length rs < 3
      → j < 512
      → tab rs ≢ 0
      → entry_at s (tab rs) j ≡ entry_at written (tab rs) j
  unchanged rs j l b n = sym (others rs j n b (upper rs j l))

  pub written-Space : Space written tab
  written-Space = record {
    pmm = v.pmm;
    few = v.few;
    mapped = v.mapped;
    top = v.top;
    frame = v.frame;
    apart = v.apart;
    closed = v.closed;
    there = λ rs j l b n.
        subst
          (λ x.
            is_present x ≡ true → (bit_and x page_addr_mask ≡ tab (j ∷ rs)) × (tab (j ∷ rs) ≢ 0))
          (unchanged rs j l b n) (v.there rs j l b n);
    no_large = λ rs j l b n.
        subst (λ x. is_present x ≡ true → is_large x ≡ false) (unchanged rs j l b n)
          (v.no_large rs j l b n);
    gone = λ rs j l b n.
        subst (λ x. is_present x ≡ false → tab (j ∷ rs) ≡ 0) (unchanged rs j l b n)
          (v.gone rs j l b n);
  }

  -- The entry that a path leads through.
  abbrev at : List ℕ → ℕ
  at [] = 0
  at (j ∷ rs) = entry_at written (tab rs) j

  tour_last-written :
      (rs : List ℕ) (j : ℕ)
      → tab rs ≢ 0
      → j < 512
      → tour written-Space rs (j ∷ [])
        ≡ (if same (j ∷ rs) (i ∷ qs) then found e else tour v rs (j ∷ []))
  tour_last-written rs j n lj = elim (same_or_ne (j ∷ rs) (i ∷ qs)) [
    | inl eq ↦
        rw (eq→same (j ∷ rs) (i ∷ qs) eq)
          (tour_last written-Space rs j n ∙ ap found (ap at eq ∙ here))
    | inr ne ↦
        rw ne (
          tour_last written-Space rs j n
          ∙ ap found (others rs j n lj ne)
          ∙ sym (tour_last v rs j n))
  ]

  -- An entry that is absent does not lead to the table.
  not_through :
      (rs : List ℕ) (j k : ℕ) (is : List ℕ)
      → length rs < 3
      → j < 512
      → tab rs ≢ 0
      → is_present (entry_at s (tab rs) j) ≡ false
      → same (onto (k ∷ is) (j ∷ rs)) (i ∷ qs) ≡ false
  not_through rs j k is l lj n a = elim (same_or_ne (onto (k ∷ is) (j ∷ rs)) (i ∷ qs)) [
    | inl eq ↦ absurd (
        nz (sym (ap (λ p. tab (parent p)) eq) ∙ parent-onto v k is (j ∷ rs) (v.gone rs j l lj n a)))
    | inr ne ↦ ne
  ]

  -- Only the walk to the entry ends elsewhere.
  pub tour-written :
      (is rs : List ℕ)
      → tab rs ≢ 0
      → length rs < 4
      → length rs + length is ≡ 4
      → below is ≡ true
      → tour written-Space rs is ≡ (if same (onto is rs) (i ∷ qs) then found e else tour v rs is)
  tour-written [] rs n d l b = absurd (omega (arith, d, l))
  tour-written (j ∷ []) rs n d l b = tour_last-written rs j n (ground arith)
  tour-written (j ∷ k ∷ is) rs n d l b =
      let lj : j < 512 = ground arith in
      let short : length rs < 3 = omega (arith, l) in
      let eq = others rs j n lj (upper rs j short) in
      elim (Bool-cases (is_present (entry_at s (tab rs) j))) [
        | inl p ↦
            let child = v.there rs j short lj n p in
            tour_down written-Space rs j k is n short lj (ap is_present eq ∙ p)
            ∙ tour-written (k ∷ is) (j ∷ rs) child.1 (omega (arith, short)) (omega (arith, l))
                (ground arith)
            ∙ ap (λ t. if same (onto (k ∷ is) (j ∷ rs)) (i ∷ qs) then found e else t)
                (sym (tour_down v rs j k is n short lj p))
        | inr a ↦ rw (not_through rs j k is short lj n a) (
            tour_absent written-Space rs j (k ∷ is) n (ap is_present eq ∙ a)
            ∙ sym (tour_absent v rs j (k ∷ is) n a))
      ]
