-- ===== src/Paging/Next.antt =====
-- `next_level`.
use jmos.Prelude.{
  ℕ, ◌+◌, ◌/◌, ◌%◌, ◌<◌, ◌≡◌, refl, ◌≢◌, inl, inr, true, false, ◌&&◌, List, [], ◌∷◌, arith, ◌==◌,
  if◌then◌else◌, bit_and, bit_or, length, ap, ◌∙◌, sym, eq_or_ne, ltb, leb,
}
use jmos.Prelude.Words.{add64}
use jmos.Pmm.{Pmm, bm_test}
use jmos.Pmm.Inv.{IsValid}
use jmos.Pmm.Alloc.{Granted}
use jmos.Paging.{Vmm, slot, is_present, page_addr_mask, add_level}
use jmos.Paging.Entry.{table_entry, present_bit}
use jmos.Paging.Grow.{Grown}
use jmos.Paging.Walk.{is_large}
use jmos.Paging.Space.{Tables, Space, same, same_refl, same_or_ne, eq→same, entry_at}

-- One more table at a path.
abbrev pub with_table : Tables → List ℕ → ℕ → Tables
with_table tab ps f qs = if same qs ps then f else tab qs

cons_eq : {i j : ℕ} {ps qs : List ℕ} → i ≡ j → ps ≡ qs → i ∷ ps ≡ j ∷ qs
cons_eq e d = cc (e, d)

cons_inj : {i j : ℕ} {ps qs : List ℕ} → i ∷ ps ≡ j ∷ qs → (i ≡ j) × (ps ≡ qs)
cons_inj e = (cc (e), cc (e))

module _ (s : Vmm) (tab : Tables) (v : Space s tab) (ps : List ℕ) (i : ℕ) (deep : length ps < 3)
    (in_table : i < 512) (nz : tab ps ≢ 0) (absent : is_present (entry_at s (tab ps) i) ≡ false)
    (f : ℕ) (pmm' : Pmm) (g : Granted s.pmm f pmm') (fz : f ≢ 0) (v' : IsValid pmm')
    (fc : pmm'.frame_count ≡ s.pmm.frame_count) where
  abbrev s' : Vmm
  s' = (add_level (tab ps + s.hhdm_off) i f (record s { pmm = pmm' })).1

  abbrev tab' : Tables
  tab' = with_table tab (i ∷ ps) f

  new_entry : ℕ
  new_entry = bit_or (bit_or f 1) 2

  at_frame : add64 f s.hhdm_off ≡ f + s.hhdm_off
  at_frame = omega (arith, g.managed, v.mapped)

  -- The memory after the step.
  words' :
      (a : ℕ)
      → s'.words a ≡ (
          if a == slot (tab ps + s.hhdm_off) i
          then bit_or (bit_or f 1) 2
          else if leb (f + s.hhdm_off) a && ltb a (f + s.hhdm_off + 4096)
          then 0
          else s.words a)
  unfolding add_level
  words' a = ground (arith, at_frame)

  fresh : (qs : List ℕ) → tab qs ≢ f
  fresh qs e = elim (eq_or_ne (tab qs) 0) [
    | inl z ↦ fz (sym e ∙ z)
    | inr n ↦ absurd (cc (ap (λ t. bm_test s.pmm.bytes (t / 4096)) e, (v.frame qs n).2, g.was_free))
  ]

  -- What the step leaves of the entries.
  new_empty : (j : ℕ) → j < 512 → s'.words (slot (f + s.hhdm_off) j) ≡ 0
  new_empty j lt =
      ground (arith, words' (slot (f + s.hhdm_off) j), fresh ps, v.frame ps nz, g.aligned)

  linked : s'.words (slot (tab ps + s.hhdm_off) i) ≡ bit_or (bit_or f 1) 2
  linked = ground (arith, words' (slot (tab ps + s.hhdm_off) i))

  others :
      (qs : List ℕ) (j : ℕ)
      → tab qs ≢ 0
      → j < 512
      → same (j ∷ qs) (i ∷ ps) ≡ false
      → s'.words (slot (tab qs + s.hhdm_off) j) ≡ s.words (slot (tab qs + s.hhdm_off) j)
  others qs j n lt ne = elim (eq_or_ne (tab qs) (tab ps)) [
    | inl e ↦
        let eqs : qs ≡ ps = v.apart qs ps n e in
        let dif : j ≢ i = λ d. absurd (cc (ne, eq→same (j ∷ qs) (i ∷ ps) (cons_eq d eqs))) in
        ground
          (arith, words' (slot (tab qs + s.hhdm_off) j), fresh qs, v.frame qs n, g.aligned, e, dif)
    | inr d ↦ ground (
      arith,
      words' (slot (tab qs + s.hhdm_off) j),
      fresh qs,
      v.frame qs n,
      v.frame ps nz,
      g.aligned,
      d,
    )
  ]

  none_yet : tab (i ∷ ps) ≡ 0
  none_yet = v.gone ps i deep in_table nz absent

  kept : (qs : List ℕ) → tab qs ≢ 0 → tab' qs ≡ tab qs
  kept qs n = elim (same_or_ne qs (i ∷ ps)) [
    | inl e ↦ absurd (n (ap tab e ∙ none_yet))
    | inr ne ↦ rw ne
  ]

  at_new : tab' (i ∷ ps) ≡ f
  at_new = rw (same_refl (i ∷ ps))

  same_pmm : (s'.pmm ≡ pmm') × (s'.hhdm_off ≡ s.hhdm_off)
  unfolding add_level
  same_pmm = (refl, refl)

  frame' :
      (qs : List ℕ)
      → tab' qs ≢ 0
      → (tab' qs % 4096 ≡ 0)
        × (tab' qs / 4096 < pmm'.frame_count)
        × (bm_test pmm'.bytes (tab' qs / 4096) ≡ true)
  frame' qs n = elim (same_or_ne qs (i ∷ ps)) [
    | inl e ↦
        let w = eq→same qs (i ∷ ps) e in
        rw w (g.aligned, omega (arith, g.managed, fc), ground (arith, g.bits (f / 4096)))
    | inr ne ↦
        let o = v.frame qs (rw ne at n) in
        rw ne (o.0, omega (arith, o.1, fc), ground (arith, g.bits (tab qs / 4096), o.2))
  ]

  apart' : (qs rs : List ℕ) → tab' qs ≢ 0 → tab' qs ≡ tab' rs → qs ≡ rs
  apart' qs rs n e = elim (same_or_ne qs (i ∷ ps)) [
    | inl a ↦ elim (same_or_ne rs (i ∷ ps)) [
      | inl b ↦ a ∙ sym b
      | inr b ↦ absurd (fresh rs (rw (b, eq→same qs (i ∷ ps) a) at (sym e)))
    ]
    | inr a ↦ elim (same_or_ne rs (i ∷ ps)) [
      | inl b ↦ absurd (fresh qs (rw (a, eq→same rs (i ∷ ps) b) at e))
      | inr b ↦ v.apart qs rs (rw a at n) (rw (a, b) at e)
    ]
  ]

  closed' : (qs : List ℕ) (j : ℕ) → tab' qs ≡ 0 → tab' (j ∷ qs) ≡ 0
  closed' qs j z = elim (same_or_ne qs (i ∷ ps)) [
    | inl a ↦ absurd (fz (rw (eq→same qs (i ∷ ps) a) at z))
    | inr a ↦
        let old : tab qs ≡ 0 = rw a at z in
        elim (same_or_ne (j ∷ qs) (i ∷ ps)) [
          | inl b ↦ absurd (nz (ap tab (sym (cons_inj b).1) ∙ old))
          | inr b ↦ rw b (v.closed qs j old)
        ]
  ]

  empty_entry : is_present 0 ≡ false
  empty_entry = ground (arith, present_bit 0)

  closed_new : (qs : List ℕ) (j : ℕ) → qs ≡ i ∷ ps → tab' (j ∷ qs) ≡ 0
  closed_new qs j a = elim (same_or_ne (j ∷ qs) (i ∷ ps)) [
    | inl b ↦ absurd (omega (arith, ap (λ q. length q) a, ap (λ q. length q) b))
    | inr b ↦ rw b (v.closed qs j (ap tab a ∙ none_yet))
  ]

  -- The entry of a table of the space, before and after.
  data Slot (qs : List ℕ) (j : ℕ) : Type 0 where
    in_new : qs ≡ i ∷ ps → entry_at s' (tab' qs) j ≡ 0 → Slot qs j
    here : j ∷ qs ≡ i ∷ ps → entry_at s' (tab' qs) j ≡ bit_or (bit_or f 1) 2 → Slot qs j
    elsewhere :
        same (j ∷ qs) (i ∷ ps) ≡ false
        → tab qs ≢ 0
        → entry_at s' (tab' qs) j ≡ entry_at s (tab qs) j
        → Slot qs j

  Slot-cases : (qs : List ℕ) (j : ℕ) → tab' qs ≢ 0 → j < 512 → Slot qs j
  unfolding add_level
  Slot-cases qs j n lt = elim (same_or_ne qs (i ∷ ps)) [
    | inl a ↦ in_new a (rw (eq→same qs (i ∷ ps) a) (new_empty j lt))
    | inr a ↦ elim (same_or_ne (j ∷ qs) (i ∷ ps)) [
      | inl b ↦ here b (
          rw a (
            ap (λ q. s'.words (slot (tab q + s.hhdm_off) j)) (cons_inj b).1
            ∙ ap (λ k. s'.words (slot (tab ps + s.hhdm_off) k)) (cons_inj b).0
            ∙ linked))
      | inr b ↦ elsewhere b (rw a at n) (rw a (others qs j (rw a at n) lt b))
    ]
  ]

  entry_bits :
      (bit_and (bit_or (bit_or f 1) 2) page_addr_mask ≡ f)
      × (is_present (bit_or (bit_or f 1) 2) ≡ true)
      × (is_large (bit_or (bit_or f 1) 2) ≡ false)
  entry_bits = table_entry f g.aligned (omega (arith, g.managed, v.few))

  there' :
      (qs : List ℕ) (j : ℕ)
      → length qs < 3
      → j < 512
      → tab' qs ≢ 0
      → is_present (entry_at s' (tab' qs) j) ≡ true
      → (bit_and (entry_at s' (tab' qs) j) page_addr_mask ≡ tab' (j ∷ qs)) × (tab' (j ∷ qs) ≢ 0)
  there' qs j d lt n p = elim (Slot-cases qs j n lt) [
    | in_new a z ↦ absurd (cc (sym p, ap is_present z, empty_entry))
    | here b e ↦
        rw (eq→same (j ∷ qs) (i ∷ ps) b) (ap (λ q. bit_and q page_addr_mask) e ∙ entry_bits.0, fz)
    | elsewhere b m e ↦
        let o = v.there qs j d lt m (sym (ap is_present e) ∙ p) in
        rw b (ap (λ q. bit_and q page_addr_mask) e ∙ o.0, o.1)
  ]

  no_large' :
      (qs : List ℕ) (j : ℕ)
      → length qs < 3
      → j < 512
      → tab' qs ≢ 0
      → is_present (entry_at s' (tab' qs) j) ≡ true
      → is_large (entry_at s' (tab' qs) j) ≡ false
  no_large' qs j d lt n p = elim (Slot-cases qs j n lt) [
    | in_new a z ↦ absurd (cc (p, ap is_present z, empty_entry))
    | here b e ↦ ap is_large e ∙ entry_bits.2
    | elsewhere b m e ↦ ap is_large e ∙ v.no_large qs j d lt m (sym (ap is_present e) ∙ p)
  ]

  gone' :
      (qs : List ℕ) (j : ℕ)
      → length qs < 3
      → j < 512
      → tab' qs ≢ 0
      → is_present (entry_at s' (tab' qs) j) ≡ false
      → tab' (j ∷ qs) ≡ 0
  gone' qs j d lt n p = elim (Slot-cases qs j n lt) [
    | in_new a z ↦ closed_new qs j a
    | here b e ↦ absurd (cc (p, ap is_present e, entry_bits.1))
    | elsewhere b m e ↦ rw b (v.gone qs j d lt m (sym (ap is_present e) ∙ p))
  ]

  step-Space : Space s' tab'
  unfolding add_level
  step-Space = record {
    pmm = v';
    few = omega (arith, v.few, fc);
    mapped = ground (arith, v.mapped, fc);
    top = λ z. v.top (sym (kept [] v.top) ∙ z);
    frame = frame';
    apart = apart';
    closed = closed';
    there = there';
    no_large = no_large';
    gone = gone';
  }

  present_new : (j : ℕ) → j < 512 → is_present (entry_at s' (tab' (i ∷ ps)) j) ≡ false
  unfolding add_level
  present_new j lt =
      ap (λ t. is_present (s'.words (slot (t + s.hhdm_off) j))) at_new
      ∙ ap is_present (new_empty j lt)
      ∙ empty_entry

  pub add_level-Grown : Grown s tab s' tab' i ps
  unfolding add_level
  add_level-Grown = record {
    space = step-Space;
    base = refl;
    quiet = refl;
    was = absent;
    kept = kept;
    new = λ z. fz (sym at_new ∙ z);
    empty = present_new;
    leads = ap is_present linked ∙ entry_bits.1;
    others = others;
  }
