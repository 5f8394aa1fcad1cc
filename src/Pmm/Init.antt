-- ===== src/Pmm/Init.antt =====
-- `pmm_init`: the allocator after the boot loader's memory map has been read.
use jmos.Prelude.{
  ℕ, zero, suc, ◌+◌, ◌*◌, ◌/◌, ◌%◌, ◌^◌, ◌≤◌, ◌<◌, ◌≡◌, refl, inl, Bool, true, false, not, ◌&&◌,
  List, arith, ltb, leb, ◌==◌, if◌then◌else◌, ap, ◌∙◌, sym, lt→ltb,
}
use jmos.Prelude.Words.{add64}
use jmos.Bootinfo.{Region, memmap_usable}
use jmos.Pmm.{
  Bytes, Pmm, page_size, bm_test, free_regions, carve_loop, guard_null, fill, pmm_init_at,
}
use jmos.Pmm.Bitmap.{IsBytes}
use jmos.Pmm.Count.{free_below, free_below-none}
use jmos.Pmm.Inv.{IsValid}
use jmos.Pmm.Ranges.{AllAligned, in_kind, Counted, Changed}
use jmos.Pmm.Marking.{free_regions-Changed, carve_loop-Changed, guard_null-Changed}

-- How many frames below a bound pass a test.
unfoldable pub count_where : (ℕ → Bool) → ℕ → ℕ
count_where f zero = 0
count_where f (suc n) = (if f n then 1 else 0) + count_where f n

pub count_where-le : (f : ℕ → Bool) (n : ℕ) → count_where f n ≤ n
unfolding count_where
count_where-le f zero = omega arith
count_where-le f (suc n) = ground (arith, count_where-le f n)

free_below-count_where :
    (bm : Bytes) (f : ℕ → Bool) (n : ℕ)
    → ((j : ℕ) → j < n → bm_test bm j ≡ not (f j))
    → free_below bm n ≡ count_where f n
unfolding free_below count_where
free_below-count_where bm f zero h = refl
free_below-count_where bm f (suc n) h =
    ground (arith, h n, free_below-count_where bm f n (λ j p. h j (omega arith)))

ones : (k : ℕ) → k < 8 → ((255 / 2 ^ k) % 2 == 1) ≡ true
ones zero h = refl
ones (suc zero) h = refl
ones (suc (suc zero)) h = refl
ones (suc (suc (suc zero))) h = refl
ones (suc (suc (suc (suc zero)))) h = refl
ones (suc (suc (suc (suc (suc zero))))) h = refl
ones (suc (suc (suc (suc (suc (suc zero)))))) h = refl
ones (suc (suc (suc (suc (suc (suc (suc zero))))))) h = refl
ones (suc (suc (suc (suc (suc (suc (suc (suc k)))))))) h = absurd (omega arith)

-- After the fill every frame that the bitmap has room for is used.
fill-test : (n : ℕ) (bm : Bytes) (j : ℕ) → j < n * 8 → bm_test (fill n bm) j ≡ true
unfolding fill bm_test
fill-test n bm j h = rw (lt→ltb (j / 8) n (omega arith)) (ones (j % 8) (omega arith))

fill-IsBytes : (n : ℕ) (bm : Bytes) → IsBytes bm → IsBytes (fill n bm)
unfolding fill
fill-IsBytes n bm h j = ground (arith, h j)

-- Frames that `pmm_init` leaves free: usable memory, less the bitmap's frames and the null frame.
abbrev pub is_free : List Region → ℕ → ℕ → ℕ → Bool
is_free rs phys size j =
    in_kind memmap_usable rs j
    && not (leb (phys / page_size) j && ltb j ((phys + size) / page_size))
    && not (j == 0)

pub record Initialised (rs : List Region) (phys : ℕ) (s : Pmm) : Type 0 where
  pub valid : IsValid s
  pub bits :
      (j : ℕ) → j < s.frame_count → bm_test s.bytes j ≡ not (is_free rs phys s.bitmap_bytes j)
  pub total : s.total_frames ≡ count_where (in_kind memmap_usable rs) s.frame_count

module _ (hhdm_off : ℕ) (rs : List Region) (old : Bytes) (phys : ℕ) (s : Pmm) (al : AllAligned rs)
    (b : IsBytes old) (small : s.frame_count ≤ 2 ^ 52) (room : s.frame_count ≤ s.bitmap_bytes * 8)
    (whole : s.bitmap_bytes % page_size ≡ 0) (start : phys % page_size ≡ 0)
    (within : phys / page_size + s.bitmap_bytes / page_size ≤ s.frame_count) where
  abbrev s1 : Pmm
  s1 = record s {
    bitmap_at = add64 phys hhdm_off;
    bytes = fill s.bitmap_bytes old;
    free_frames_n = 0;
  }

  used : (j : ℕ) → j < s.frame_count → bm_test (fill s.bitmap_bytes old) j ≡ true
  used j h = fill-test s.bitmap_bytes old j (omega arith)

  s1-Counted : Counted s1
  s1-Counted = record {
    bytes = fill-IsBytes s.bitmap_bytes old b;
    counted = sym (free_below-none _ s.frame_count used);
    small = small;
  }

  s2-Changed : Changed s1 (free_regions memmap_usable rs s1) (λ j.
      if in_kind memmap_usable rs j && ltb j s1.frame_count then false else bm_test s1.bytes j)
  s2-Changed = free_regions-Changed memmap_usable (inl refl) rs s1 s1-Counted al

  abbrev s2 : Pmm
  s2 = free_regions memmap_usable rs s1

  abbrev s3 : Pmm
  s3 = record s2 { total_frames = s2.free_frames_n }

  s3-Counted : Counted s3
  s3-Counted =
      let c = s2-Changed.valid in record { bytes = c.bytes; counted = c.counted; small = c.small }

  abbrev s4 : Pmm
  s4 = carve_loop (s.bitmap_bytes / page_size) (phys / page_size) s3

  s4-Changed : Changed s3 s4 (λ j.
      if leb (phys / page_size) j && ltb j (phys / page_size + s.bitmap_bytes / page_size)
      then true
      else bm_test s3.bytes j)
  s4-Changed =
      carve_loop-Changed (s.bitmap_bytes / page_size) (phys / page_size) s3 s3-Counted
        (omega (arith, s2-Changed.frames))

  s5-Changed :
      Changed s4
        (guard_null s4)
        (λ j. if (j == 0) && ltb 0 s4.frame_count then true else bm_test s4.bytes j)
  s5-Changed = guard_null-Changed s4 s4-Changed.valid

  abbrev done : Pmm
  done = record (guard_null s4) { scan_hint = 0 }

  done_frames : done.frame_count ≡ s.frame_count
  done_frames = s5-Changed.frames ∙ s4-Changed.frames ∙ s2-Changed.frames

  done_null : 0 < done.frame_count → bm_test done.bytes 0 ≡ true
  done_null h = ground (arith, s5-Changed.bits 0, s5-Changed.frames)

  done_bits :
      (j : ℕ) → j < s.frame_count → bm_test done.bytes j ≡ not (is_free rs phys s.bitmap_bytes j)
  done_bits j h =
      let split : (phys + s.bitmap_bytes) / page_size
          ≡ phys / page_size + s.bitmap_bytes / page_size =
        omega arith in
      rw split (
        ground (
          arith,
          s5-Changed.bits j,
          s5-Changed.frames,
          done_frames,
          s4-Changed.bits j,
          s2-Changed.bits j,
          used j h,
        ))

  done_total : done.total_frames ≡ count_where (in_kind memmap_usable rs) s.frame_count
  done_total =
      s5-Changed.total
      ∙ s4-Changed.total
      ∙ s2-Changed.valid.counted
      ∙ ap (free_below s2.bytes) s2-Changed.frames
      ∙ free_below-count_where s2.bytes (in_kind memmap_usable rs) s.frame_count
          λ j p. ground (arith, s2-Changed.bits j, used j p)

  done-IsValid : IsValid done
  done-IsValid = record {
    bytes = s5-Changed.valid.bytes;
    counted = s5-Changed.valid.counted;
    small = s5-Changed.valid.small;
    hint = omega arith;
    hinted = λ j p. absurd (omega arith);
    null = done_null;
  }

  done_size : done.bitmap_bytes ≡ s.bitmap_bytes
  done_size = s5-Changed.size ∙ s4-Changed.size ∙ s2-Changed.size

  pub pmm_init_at-Initialised :
      Initialised rs phys (pmm_init_at hhdm_off rs old phys s)
      × ((pmm_init_at hhdm_off rs old phys s).frame_count ≡ s.frame_count)
  unfolding pmm_init_at
  pmm_init_at-Initialised = (
    record {
      valid = done-IsValid;
      bits = λ j h.
          done_bits j (omega (arith, done_frames))
          ∙ ap (λ n. not (is_free rs phys n j)) (sym done_size);
      total = done_total ∙ ap (count_where (in_kind memmap_usable rs)) (sym done_frames);
    },
    done_frames,
  )
