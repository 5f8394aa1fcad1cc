-- ===== src/Paging/Level.antt =====
-- `next_level` in an address space.
use jmos.Prelude.{
  ℕ, ◌+◌, ◌≤◌, ◌<◌, ◌≡◌, refl, ◌≢◌, ◌⊎◌, inl, inr, true, false, List, ◌∷◌, arith, ◌==◌, bit_and,
  length, ap, ◌∙◌, subst, sym, Bool-cases, eq_or_ne,
}
use jmos.Pmm.{alloc_frame}
use jmos.Pmm.Alloc.{
  alloc_frame_lowest, alloc_frame-zero, alloc_frame-IsValid, frame_count-alloc_frame,
}
use jmos.Paging.{Vmm, p2v, slot, is_present, page_addr_mask, add_level, next_level}
use jmos.Paging.Tour.{below, tour}
use jmos.Paging.Grow.{Grown, walk-Grown}
use jmos.Paging.Next.{with_table, add_level-Grown}
use jmos.Paging.Space.{Tables, Space, entry_at, p2v-table}

-- What a step keeps: the space, its tables and every walk.
pub record Kept (s : Vmm) (tab : Tables) (v : Space s tab) (s' : Vmm) (tab' : Tables) : Type 0 where
  pub space : Space s' tab'
  pub base : s'.hhdm_off ≡ s.hhdm_off
  pub quiet : s'.flushed ≡ s.flushed
  pub tables : (qs : List ℕ) → tab qs ≢ 0 → tab' qs ≡ tab qs
  pub walks :
      (qs is : List ℕ)
      → tab qs ≢ 0
      → length qs + length is ≡ 4
      → below is ≡ true
      → tour space qs is ≡ tour v qs is

Kept_refl : {s : Vmm} {tab : Tables} (v : Space s tab) → Kept s tab v s tab
Kept_refl v = record {
  space = v;
  base = refl;
  quiet = refl;
  tables = λ qs n. refl;
  walks = λ qs is n l b. refl;
}

pub Kept_trans :
    {s s' s'' : Vmm} {tab tab' tab'' : Tables} {v : Space s tab} (a : Kept s tab v s' tab')
    → Kept s' tab' a.space s'' tab''
    → Kept s tab v s'' tab''
Kept_trans {tab = tab} {tab' = tab'} a b =
    let still : (qs : List ℕ) → tab qs ≢ 0 → tab' qs ≢ 0 = λ qs n z. n (sym (a.tables qs n) ∙ z) in
    record {
      space = b.space;
      base = b.base ∙ a.base;
      quiet = b.quiet ∙ a.quiet;
      tables = λ qs n. b.tables qs (still qs n) ∙ a.tables qs n;
      walks = λ qs is n l w. b.walks qs is (still qs n) l w ∙ a.walks qs is n l w;
    }

Kept-Grown :
    {s s' : Vmm} {tab tab' : Tables} {i : ℕ} {ps : List ℕ} (v : Space s tab)
    → length ps < 3
    → Grown s tab s' tab' i ps
    → Kept s tab v s' tab'
Kept-Grown {s} {s'} {tab} {tab'} {i} {ps} v deep g = record {
  space = g.space;
  base = g.base;
  quiet = g.quiet;
  tables = g.kept;
  walks = walk-Grown s tab s' tab' i ps deep v g;
}

-- The outcome of a step towards the table at a path: a pointer to it, or NULL where no frame is free.
pub record Level (s : Vmm) (tab : Tables) (v : Space s tab) (qs : List ℕ) (r : ℕ × Vmm)
    : Type 0 where
  pub tables : Tables
  pub kept : Kept s tab v r.1 tables
  pub cost : s.pmm.free_frames_n ≤ r.1.pmm.free_frames_n + 1
  pub outcome :
      (r.0 ≡ p2v r.1 (tables qs)) × (tables qs ≢ 0)
      ⊎ (r.0 ≡ 0) × (r.1.pmm.free_frames_n ≡ 0) × (s.pmm.free_frames_n ≡ 0)

-- The branches of `next_level`.
next_present :
    (s : Vmm) (tbl i : ℕ)
    → is_present (s.words (slot tbl i)) ≡ true
    → next_level tbl i s ≡ (p2v s (bit_and (s.words (slot tbl i)) page_addr_mask), s)
unfolding next_level
next_present s tbl i p = rw p refl

next_full :
    (s : Vmm) (tbl i : ℕ)
    → is_present (s.words (slot tbl i)) ≡ false
    → (alloc_frame s.pmm).0 ≡ 0
    → next_level tbl i s ≡ (0, record s { pmm = (alloc_frame s.pmm).1 })
unfolding next_level
next_full s tbl i a z = rw (a, z) refl

next_new :
    (s : Vmm) (tbl i : ℕ)
    → is_present (s.words (slot tbl i)) ≡ false
    → (alloc_frame s.pmm).0 ≢ 0
    → next_level tbl i s
      ≡ add_level tbl i (alloc_frame s.pmm).0 (record s { pmm = (alloc_frame s.pmm).1 })
unfolding next_level
next_new s tbl i a nz =
    let no_null : ((alloc_frame s.pmm).0 == 0) ≡ false = ground arith in rw (a, no_null) refl

add_level_pointer :
    (s : Vmm) (tbl i f : ℕ)
    → (add_level tbl i f s).0
      ≡ p2v
          (add_level tbl i f s).1
          (bit_and ((add_level tbl i f s).1.words (slot tbl i)) page_addr_mask)
unfolding add_level
add_level_pointer s tbl i f = refl

add_level_pmm : (s : Vmm) (tbl i f : ℕ) → (add_level tbl i f s).1.pmm ≡ s.pmm
unfolding add_level
add_level_pmm s tbl i f = refl

Grown-address :
    {s s' : Vmm} {tab tab' : Tables} {i : ℕ} {ps : List ℕ}
    → length ps < 3
    → i < 512
    → tab ps ≢ 0
    → Grown s tab s' tab' i ps
    → bit_and (s'.words (slot (tab ps + s.hhdm_off) i)) page_addr_mask ≡ tab' (i ∷ ps)
Grown-address {s} {s'} {tab} {tab'} {i} {ps} deep lt nz g =
    let child =
      g.space.there ps i deep lt (λ z. nz (sym (g.kept ps nz) ∙ z))
        (ap (λ t. is_present (entry_at s' t i)) (g.kept ps nz) ∙ g.leads) in
    ap (λ h. bit_and (s'.words (slot (tab ps + h) i)) page_addr_mask) (sym g.base)
    ∙ ap (λ t. bit_and (entry_at s' t i) page_addr_mask) (sym (g.kept ps nz))
    ∙ child.0

-- With a frame for it, the table is added.
granted-Level :
    {s : Vmm} {tab : Tables} (v : Space s tab) (ps : List ℕ) (i : ℕ)
    → length ps < 3
    → i < 512
    → tab ps ≢ 0
    → is_present (entry_at s (tab ps) i) ≡ false
    → (alloc_frame s.pmm).0 ≢ 0
    → Level s tab v (i ∷ ps) (
        add_level
          (tab ps + s.hhdm_off)
          i
          (alloc_frame s.pmm).0
          (record s { pmm = (alloc_frame s.pmm).1 }))
granted-Level {s} {tab} v ps i deep lt nz a got =
    let f : ℕ = (alloc_frame s.pmm).0 in
    let t : Vmm = record s { pmm = (alloc_frame s.pmm).1 } in
    let after : Vmm = (add_level (tab ps + s.hhdm_off) i f t).1 in
    let g : Grown s tab after (with_table tab (i ∷ ps) f) i ps =
      add_level-Grown s tab v ps i deep lt nz a f t.pmm (alloc_frame_lowest s.pmm v.pmm got) got
        (alloc_frame-IsValid s.pmm v.pmm) (frame_count-alloc_frame s.pmm v.pmm) in
    let got_it = alloc_frame_lowest s.pmm v.pmm got in
    let pointer =
      add_level_pointer t (tab ps + s.hhdm_off) i f ∙ ap (p2v after) (Grown-address deep lt nz g) in
    record {
      tables = with_table tab (i ∷ ps) f;
      kept = Kept-Grown v deep g;
      cost = omega (
        arith,
        ap (λ q. q.free_frames_n) (add_level_pmm t (tab ps + s.hhdm_off) i f),
        got_it.counts,
      );
      outcome = inl (pointer, g.new);
    }

pub next_level-Level :
    {s : Vmm} {tab : Tables} (v : Space s tab) (ps : List ℕ) (i : ℕ)
    → length ps < 3
    → i < 512
    → tab ps ≢ 0
    → Level s tab v (i ∷ ps) (next_level (p2v s (tab ps)) i s)
unfolding next_level
next_level-Level {s} {tab} v ps i deep lt nz =
    subst (λ t. Level s tab v (i ∷ ps) (next_level t i s)) (sym (p2v-table v ps nz).0)
      (elim (Bool-cases (is_present (entry_at s (tab ps) i))) [
        | inl p ↦
            let child = v.there ps i deep lt nz p in
            subst (Level s tab v (i ∷ ps)) (sym (next_present s (tab ps + s.hhdm_off) i p))
              (record {
                tables = tab;
                kept = Kept_refl v;
                cost = omega (arith);
                outcome = inl (ap (p2v s) child.0, child.1);
              })
        | inr a ↦ elim (eq_or_ne (alloc_frame s.pmm).0 0) [
          | inl z ↦
              let full = alloc_frame-zero s.pmm v.pmm in
              subst (Level s tab v (i ∷ ps))
                (sym (
                  next_full s (tab ps + s.hhdm_off) i a z
                  ∙ ap (λ q. (0, record s { pmm = q })) (full.1 z)))
                (record {
                  tables = tab;
                  kept = Kept_refl v;
                  cost = omega (arith);
                  outcome = inr (refl, full.0.0 z, full.0.0 z);
                })
          | inr got ↦
              subst (Level s tab v (i ∷ ps)) (sym (next_new s (tab ps + s.hhdm_off) i a got))
                (granted-Level v ps i deep lt nz a got)
        ]
      ])
