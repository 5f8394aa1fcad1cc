-- ===== src/Pmm/Boot.antt =====
-- `pmm_init` and `pmm_reclaim_bootloader` on a memory map that keeps the boot protocol's promise.
use jmos.Prelude.{
  ℕ, ◌+◌, ◌*◌, ◌/◌, ◌%◌, ◌^◌, ◌≤◌, ◌<◌, ◌≡◌, refl, inl, inr, true, false, not, ◌&&◌, List, some,
  arith, ltb, ◌==◌, if◌then◌else◌, eq_or_ne, ap, ◌∙◌,
}
use jmos.Prelude.Words.{add64}
use jmos.Bootinfo.{Region, memmap_bootloader_reclaimable}
use jmos.Pmm.{
  Bytes, Pmm, page_size, bm_test, free_regions, highest_end, find_bitmap, guard_null, frames_of,
  bitmap_size, pmm_init, pmm_reclaim_bootloader, pmm_free_bytes,
}
use jmos.Pmm.Bitmap.{IsBytes}
use jmos.Pmm.Count.{free_below, free_below-le, free_below-lt, free_below_mono}
use jmos.Pmm.Inv.{IsValid}
use jmos.Pmm.Ranges.{align_up_page, align_up_aligned, AllAligned, in_kind, Counted, Changed}
use jmos.Pmm.Marking.{free_regions-Changed, guard_null-Changed}
use jmos.Pmm.Layout.{find_bitmap-Place, highest-aligned}
use jmos.Pmm.Init.{Initialised, pmm_init_at-Initialised}

-- The managed frames reach exactly to the end of the highest usable or reclaimable region.
frames_of_lem :
    (rs : List Region)
    → AllAligned rs
    → (frames_of rs * page_size ≡ highest_end rs 0) × (frames_of rs ≤ 2 ^ 52)
unfolding frames_of
frames_of_lem rs al =
    let h = highest-aligned rs 0 al refl (omega arith) in
    omega (arith, align_up_aligned (highest_end rs 0) h.1 h.0, h.0, h.1)

-- The bitmap is whole pages, and has a bit for every frame.
bitmap_size_lem : (n : ℕ) → n ≤ 2 ^ 52 → (n ≤ bitmap_size n * 8) × (bitmap_size n % page_size ≡ 0)
unfolding bitmap_size
bitmap_size_lem n h =
    let e : add64 n 7 / 8 ≡ (n + 7) / 8 = omega arith in
    rw e (omega (arith, align_up_page ((n + 7) / 8) (omega arith)))

-- On a memory map with aligned usable and reclaimable regions, where a place for the bitmap is
-- found, `pmm_init` establishes the invariant; exactly the frames of usable memory are free, less
-- those of the bitmap and the null frame; and `total_frames` counts the frames of usable memory.
pub pmm_init-Initialised :
    (hhdm_off : ℕ) (rs : List Region) (memory : ℕ → Bytes) (s : Pmm) (phys : ℕ)
    → AllAligned rs
    → ((a : ℕ) → IsBytes (memory a))
    → find_bitmap (bitmap_size (frames_of rs)) rs ≡ some phys
    → Initialised rs phys (pmm_init hhdm_off rs memory s)
      × ((pmm_init hhdm_off rs memory s).frame_count * page_size ≡ highest_end rs 0)
unfolding pmm_init
pmm_init-Initialised hhdm_off rs memory s phys al b found =
    let place = find_bitmap-Place rs 0 (bitmap_size (frames_of rs)) al found in
    let f = frames_of_lem rs al in
    let z = bitmap_size_lem (frames_of rs) (f.1) in
    let out =
      pmm_init_at-Initialised hhdm_off rs (memory (add64 phys hhdm_off)) phys
        (record s { frame_count = frames_of rs; bitmap_bytes = bitmap_size (frames_of rs) }) al
        (b _) f.1 z.0 z.1 place.aligned (omega (arith, place.within, f.0, place.aligned, z.1)) in
    rw (found, pmm_init) (out.0, omega (arith, out.1, f.0))

Counted-IsValid : {s : Pmm} → IsValid s → Counted s
Counted-IsValid v = record { bytes = v.bytes; counted = v.counted; small = v.small }

-- `pmm_reclaim_bootloader` on aligned regions keeps the invariant; of the managed frames exactly
-- those of reclaimable regions become free in addition, the null frame excepted, and
-- `total_frames` grows by as many as the free counter.
pub pmm_reclaim_bootloader_lem :
    (rs : List Region) (s : Pmm)
    → AllAligned rs
    → IsValid s
    → s.total_frames ≤ s.frame_count
    → let s' = pmm_reclaim_bootloader rs s in
      IsValid s'
      × ((j : ℕ)
          → j < s.frame_count
          → bm_test s'.bytes j ≡ (
              if in_kind memmap_bootloader_reclaimable rs j && not (j == 0)
              then false
              else bm_test s.bytes j))
      × (s'.total_frames + s.free_frames_n ≡ s.total_frames + s'.free_frames_n)
unfolding pmm_reclaim_bootloader
pmm_reclaim_bootloader_lem rs s al v t = (
  record {
    bytes = g.valid.bytes;
    counted = g.valid.counted;
    small = g.valid.small;
    hint = omega arith;
    hinted = λ j p. absurd (omega arith);
    null = λ h. ground (arith, g.bits 0, g.frames);
  },
  bits,
  omega (
    arith,
    t,
    g.total,
    c.total,
    g.valid.counted,
    v.counted,
    v.small,
    g.frames,
    c.frames,
    free_below-le (guard_null freed).bytes (guard_null freed).frame_count,
    free_below-le s.bytes s.frame_count,
    free_below_mono s.bytes (guard_null freed).bytes s.frame_count kept,
    ap (free_below (guard_null freed).bytes) (g.frames ∙ c.frames),
  ),
)
  where
    freed : Pmm
    freed = free_regions memmap_bootloader_reclaimable rs s

    c : Changed s freed (λ j.
        if in_kind memmap_bootloader_reclaimable rs j && ltb j s.frame_count
        then false
        else bm_test s.bytes j)
    c = free_regions-Changed memmap_bootloader_reclaimable (inr refl) rs s (Counted-IsValid v) al

    g :
        Changed freed
          (guard_null freed)
          (λ j. if (j == 0) && ltb 0 freed.frame_count then true else bm_test freed.bytes j)
    g = guard_null-Changed freed c.valid

    bits :
        (j : ℕ)
        → j < s.frame_count
        → bm_test (guard_null freed).bytes j ≡ (
            if in_kind memmap_bootloader_reclaimable rs j && not (j == 0)
            then false
            else bm_test s.bytes j)
    bits j h = elim (eq_or_ne j 0) [
      | inl z ↦ ground (arith, z, g.bits j, c.bits j, c.frames, v.null, ap (bm_test s.bytes) z)
      | inr nz ↦ ground (arith, g.bits j, c.bits j, c.frames)
    ]

    kept :
        (j : ℕ)
        → j < s.frame_count
        → bm_test s.bytes j ≡ false
        → bm_test (guard_null freed).bytes j ≡ false
    kept j h free = ground (arith, bits j h)

pub frame_count-pmm_reclaim_bootloader :
    (rs : List Region) (s : Pmm)
    → AllAligned rs
    → IsValid s
    → (pmm_reclaim_bootloader rs s).frame_count ≡ s.frame_count
unfolding pmm_reclaim_bootloader
frame_count-pmm_reclaim_bootloader rs s al v =
    let c =
      free_regions-Changed memmap_bootloader_reclaimable (inr refl) rs s (Counted-IsValid v) al in
    (guard_null-Changed (free_regions memmap_bootloader_reclaimable rs s) c.valid).frames ∙ c.frames

-- In a valid state `pmm_free_bytes` is 4096 times the number of free frames, with no wrap-around.
pub pmm_free_bytes_exact :
    (s : Pmm) → IsValid s → pmm_free_bytes s ≡ free_below s.bytes s.frame_count * page_size
unfolding pmm_free_bytes
pmm_free_bytes_exact s v = elim (eq_or_ne s.frame_count 0) [
  | inl z ↦ omega (arith, v.counted, free_below-le s.bytes s.frame_count)
  | inr nz ↦ omega (
    arith,
    v.counted,
    v.small,
    free_below-lt s.bytes 0 s.frame_count (omega arith) (v.null (omega arith)),
  )
]
