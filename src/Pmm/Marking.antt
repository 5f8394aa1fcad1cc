-- ===== src/Pmm/Marking.antt =====
-- The loops of `pmm_init` and `pmm_reclaim_bootloader` that mark ranges of frames, bit by bit.
use jmos.Prelude.{
  ℕ, zero, suc, ◌+◌, ◌-◌, ◌/◌, ◌≤◌, ◌<◌, min, ◌≡◌, refl, ◌⊎◌, inl, inr, Bool, true, false, ◌&&◌,
  List, [], ◌∷◌, arith, ltb, leb, ◌==◌, if◌then◌else◌, Bool-cases, eq_or_ne, ap, ◌∙◌, ==→eq, subst,
  sym,
}
use jmos.Prelude.Words.{add64}
use jmos.Bootinfo.{Region, memmap_usable, memmap_bootloader_reclaimable}
use jmos.Pmm.{
  Pmm, page_size, bm_test, align_up, align_down, take_frame, free_region_loop, free_region,
  free_regions, carve_loop, guard_null,
}
use jmos.Pmm.Bitmap.{bm_test-set}
use jmos.Pmm.Ranges.{
  align_up_aligned, align_down_page, IsAligned, AllAligned, in_region, in_kind, Counted,
  take-Counted, Changed, free_step,
}

Changed-bits : {s t : Pmm} {f g : ℕ → Bool} → Changed s t f → ((j : ℕ) → f j ≡ g j) → Changed s t g
Changed-bits c e = record {
  valid = c.valid;
  frames = c.frames;
  total = c.total;
  size = c.size;
  bits = λ j. c.bits j ∙ e j;
}

unchanged : {s : Pmm} → Counted s → Changed s s (bm_test s.bytes)
unchanged v = record { valid = v; frames = refl; total = refl; size = refl; bits = λ j. refl }

-- Two changes in a row.
Changed-trans :
    {s t u : Pmm} {f g h : ℕ → Bool}
    → Changed s t f
    → Changed t u g
    → ((j : ℕ) → bm_test t.bytes j ≡ f j → g j ≡ h j)
    → Changed s u h
Changed-trans c d e = record {
  valid = d.valid;
  frames = d.frames ∙ c.frames;
  total = d.total ∙ c.total;
  size = d.size ∙ c.size;
  bits = λ j. d.bits j ∙ e j (c.bits j);
}

free_region_loop-Changed :
    (n i : ℕ) (s : Pmm)
    → Counted s
    → ((k : ℕ) → k < n → i + k < s.frame_count)
    → Changed s
        (free_region_loop n i s)
        (λ j. if leb i j && ltb j (i + n) then false else bm_test s.bytes j)
unfolding free_region_loop
free_region_loop-Changed zero i s v h = record {
  valid = v;
  frames = refl;
  total = refl;
  size = refl;
  bits = λ j. ground arith;
}
free_region_loop-Changed (suc n) i s v h =
    let c = free_step i v (omega (arith, h 0)) in
    Changed-trans c
      (free_region_loop-Changed n (i + 1) _ c.valid λ k p. omega (arith, h (k + 1), c.frames))
      λ j e. ground (arith, e, eq_or_ne i j)

-- `free_region` on whole pages frees exactly the managed frames of the region.
free_region-Changed :
    (r : Region) (s : Pmm)
    → Counted s
    → IsAligned r
    → Changed s
        (free_region r.base r.length s)
        (λ j. if in_region r j && ltb j s.frame_count then false else bm_test s.bytes j)
unfolding free_region
free_region-Changed r s v al =
    rw (start, end)
      (Changed-bits
        (free_region_loop-Changed (min last s.frame_count - first) first s v (λ k p. omega arith))
        λ j. ground arith)
  where
    first : ℕ
    first = r.base / page_size

    last : ℕ
    last = (r.base + r.length) / page_size

    start : align_up r.base page_size ≡ r.base
    start = align_up_aligned r.base (omega (arith, al.inside)) al.base_aligned

    end : align_down (add64 r.base r.length) page_size ≡ r.base + r.length
    end = omega (
      arith,
      align_down_page (add64 r.base r.length) (omega (arith, al.inside)),
      al.inside,
      al.base_aligned,
      al.length_aligned,
    )

module _ (kind : ℕ) (known : (kind ≡ memmap_usable) ⊎ (kind ≡ memmap_bootloader_reclaimable)) where
  free_region_if-Changed :
      (r : Region) (s : Pmm)
      → Counted s
      → ((r.kind ≡ memmap_usable) ⊎ (r.kind ≡ memmap_bootloader_reclaimable) → IsAligned r)
      → Changed s (if r.kind == kind then free_region r.base r.length s else s) (λ j.
        if (r.kind == kind) && in_region r j && ltb j s.frame_count
        then false
        else bm_test s.bytes j)
  free_region_if-Changed r s v al = elim (Bool-cases (r.kind == kind)) [
    | inl hit ↦ rw hit (
        free_region-Changed r s v (
          al (
            subst (λ k. (k ≡ memmap_usable) ⊎ (k ≡ memmap_bootloader_reclaimable))
              (sym (==→eq _ _ hit)) known)))
    | inr miss ↦ rw miss (unchanged v)
  ]

  -- The loop over the memory map frees the managed frames of the regions of one kind, and no other.
  pub free_regions-Changed :
      (rs : List Region) (s : Pmm)
      → Counted s
      → AllAligned rs
      → Changed s
          (free_regions kind rs s)
          (λ j. if in_kind kind rs j && ltb j s.frame_count then false else bm_test s.bytes j)
  unfolding free_regions in_kind
  free_regions-Changed [] s v al = Changed-bits (unchanged v) (λ j. ground arith)
  free_regions-Changed (r ∷ rs) s v al =
      let c = free_region_if-Changed r s v al.0 in
      Changed-trans c (free_regions-Changed rs _ c.valid al.1) λ j e. ground (arith, e, c.frames)

carve_step :
    {s : Pmm} (i : ℕ)
    → Counted s
    → i < s.frame_count
    → Changed s
        (if bm_test s.bytes i then s else take_frame s i)
        (λ j. if i == j then true else bm_test s.bytes j)
unfolding take_frame
carve_step {s} i v lt = elim (Bool-cases (bm_test s.bytes i)) [
  | inl used ↦
      rw used (Changed-bits (unchanged v) λ j. ground (arith, ap (bm_test s.bytes) {x = i} {y = j}))
  | inr free ↦ rw free (record {
    valid = take-Counted i v lt free;
    frames = refl;
    total = refl;
    size = refl;
    bits = λ j. bm_test-set s.bytes i j v.bytes;
  })
]

-- The bitmap's own frames are taken out of the pool.
pub carve_loop-Changed :
    (n i : ℕ) (s : Pmm)
    → Counted s
    → i + n ≤ s.frame_count
    → Changed s
        (carve_loop n i s)
        (λ j. if leb i j && ltb j (i + n) then true else bm_test s.bytes j)
unfolding carve_loop
carve_loop-Changed zero i s v h = Changed-bits (unchanged v) (λ j. ground arith)
carve_loop-Changed (suc n) i s v h =
    let c = carve_step i v (omega arith) in
    Changed-trans c (carve_loop-Changed n (i + 1) _ c.valid (omega (arith, c.frames)))
      λ j e. ground (arith, e, eq_or_ne i j)

-- The null frame is taken out of the pool, where there are frames.
pub guard_null-Changed :
    (s : Pmm)
    → Counted s
    → Changed s
        (guard_null s)
        (λ j. if (j == 0) && ltb 0 s.frame_count then true else bm_test s.bytes j)
unfolding guard_null
guard_null-Changed s v = elim (Bool-cases (ltb 0 s.frame_count)) [
  | inl some_frames ↦
      rw some_frames (Changed-bits (carve_step 0 v (ground arith)) λ j. ground arith)
  | inr no_frames ↦ rw no_frames (Changed-bits (unchanged v) λ j. ground arith)
]
