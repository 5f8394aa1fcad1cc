-- ===== src/Pmm.antt =====
-- src/kernel/memory/pmm.c: the physical frame allocator, one bit to a frame of 4096 bytes.
--
-- `Pmm` holds the file's static variables. The bitmap lies behind a pointer of the higher-half map
-- (`bitmap_at`), and `bytes` is what is stored there, by byte index. A function that changes the
-- variables returns the new state. Arithmetic on `uint64_t` is reduced modulo 2^64 where it can
-- wrap; a loop counter that the loop's own test keeps below a `uint64_t` bound is left as it is.
pub mod Bitmap
pub mod Count
pub mod Inv
pub mod Alloc
pub mod Free
pub mod Run
pub mod Frames
pub mod Ranges
pub mod Marking
pub mod Layout
pub mod Init
pub mod Boot
pub mod Calls
pub mod Tests
use jmos.Prelude.{
  ℕ, zero, suc, ◌+◌, ◌-◌, ◌*◌, ◌/◌, ◌%◌, ◌^◌, min, bit_and, bit_or, Bool, true, false, ◌&&◌, ◌||◌,
  List, [], ◌∷◌, Option, none, some, ltb, leb, ◌==◌, if◌then◌else◌, update,
}
use jmos.Prelude.Words.{u64_mod, add64, sub64, mul64}
use jmos.Bootinfo.{Region, memmap_usable, memmap_bootloader_reclaimable}

abbrev pub page_size : ℕ
page_size = 4096

abbrev pub Bytes : Type 0
Bytes = ℕ → ℕ

pub record Pmm : Type 0 where
  pub bitmap_at : ℕ
  pub bytes : Bytes
  pub frame_count : ℕ
  pub bitmap_bytes : ℕ
  pub free_frames_n : ℕ
  pub total_frames : ℕ
  pub scan_hint : ℕ

-- `i >> 3` is `i / 8` and `i & 7` is `i % 8`; `~` is within the byte that the cast leaves.
pub bm_set : Bytes → ℕ → Bytes
bm_set bm i = update bm (i / 8) (bit_or (bm (i / 8)) (2 ^ (i % 8)))

pub bm_clear : Bytes → ℕ → Bytes
bm_clear bm i = update bm (i / 8) (bit_and (bm (i / 8)) (255 - 2 ^ (i % 8)))

pub bm_test : Bytes → ℕ → Bool
bm_test bm i = (bm (i / 8) / 2 ^ (i % 8)) % 2 == 1

-- `~(a - 1)` over 64 bits.
pub align_up : ℕ → ℕ → ℕ
align_up v a = bit_and (sub64 (add64 v a) 1) (u64_mod - 1 - sub64 a 1)

pub align_down : ℕ → ℕ → ℕ
align_down v a = bit_and v (u64_mod - 1 - sub64 a 1)

-- `bm_clear(i); free_frames_n++;`
pub give_frame : Pmm → ℕ → Pmm
give_frame s i = record s { bytes = bm_clear s.bytes i; free_frames_n = add64 s.free_frames_n 1 }

-- `bm_set(i); free_frames_n--;`
pub take_frame : Pmm → ℕ → Pmm
take_frame s i = record s { bytes = bm_set s.bytes i; free_frames_n = sub64 s.free_frames_n 1 }

-- The loop of `free_region`, with the rounds that are left.
pub free_region_loop : ℕ → ℕ → Pmm → Pmm
free_region_loop zero i s = s
free_region_loop (suc n) i s =
    free_region_loop n (i + 1) (if bm_test s.bytes i then give_frame s i else s)

pub free_region : ℕ → ℕ → Pmm → Pmm
free_region base length s =
    let start = align_up base page_size / page_size in
    let end = align_down (add64 base length) page_size / page_size in
    free_region_loop (min end s.frame_count - start) start s

-- `for i: if regions[i].type == type, free_region(...)`
pub free_regions : ℕ → List Region → Pmm → Pmm
free_regions kind [] s = s
free_regions kind (r ∷ rs) s =
    free_regions kind rs (if r.kind == kind then free_region r.base r.length s else s)

-- The first loop of `pmm_init`.
pub highest_end : List Region → ℕ → ℕ
highest_end [] highest = highest
highest_end (r ∷ rs) highest =
    let end = add64 r.base r.length in
    highest_end rs (
      if (r.kind == memmap_usable || r.kind == memmap_bootloader_reclaimable) && ltb highest end
      then end
      else highest)

-- The second loop of `pmm_init`: `none` is `bitmap_found == 0`.
pub find_bitmap : ℕ → List Region → Option ℕ
find_bitmap wanted [] = none
find_bitmap wanted (r ∷ rs) =
    let base = align_up r.base page_size in
    let avail = sub64 (add64 r.base r.length) base in
    if r.kind == memmap_usable && leb wanted avail then some base else find_bitmap wanted rs

-- Marks the frames from `i` on as used, where they are free.
pub carve_loop : ℕ → ℕ → Pmm → Pmm
carve_loop zero i s = s
carve_loop (suc n) i s = carve_loop n (i + 1) (if bm_test s.bytes i then s else take_frame s i)

-- `if (frame_count > 0 && !bm_test(0)) { bm_set(0); free_frames_n--; }`
pub guard_null : Pmm → Pmm
guard_null s = if ltb 0 s.frame_count then (if bm_test s.bytes 0 then s else take_frame s 0) else s

-- `memset(bitmap, 0xFF, bitmap_bytes)`
pub fill : ℕ → Bytes → Bytes
fill n bm j = if ltb j n then 255 else bm j

-- `pmm_init` from `bitmap = ...` on; `phys` is `bitmap_phys`, and `old` what the memory there held.
pub pmm_init_at : ℕ → List Region → Bytes → ℕ → Pmm → Pmm
pmm_init_at hhdm_off regions old phys s =
    let s1 : Pmm = record s {
      bitmap_at = add64 phys hhdm_off;
      bytes = fill s.bitmap_bytes old;
      free_frames_n = 0;
    } in
    let s2 = free_regions memmap_usable regions s1 in
    let s3 : Pmm = record s2 { total_frames = s2.free_frames_n } in
    let s4 = carve_loop (s.bitmap_bytes / page_size) (phys / page_size) s3 in
    record (guard_null s4) { scan_hint = 0 }

-- `frame_count` and `bitmap_bytes`, as `pmm_init` computes them.
pub frames_of : List Region → ℕ
frames_of regions = align_up (highest_end regions 0) page_size / page_size

pub bitmap_size : ℕ → ℕ
bitmap_size frames = align_up (add64 frames 7 / 8) page_size

-- `regions` is what `bootinfo_regions` gives, and `memory` the bytes behind each pointer.
pub pmm_init : ℕ → List Region → (ℕ → Bytes) → Pmm → Pmm
pmm_init hhdm_off regions memory s =
    let count = frames_of regions in
    let bytes_n = bitmap_size count in
    let s' : Pmm = record s { frame_count = count; bitmap_bytes = bytes_n } in
    elim (find_bitmap bytes_n regions) [
      | none ↦ s'
      | some phys ↦ pmm_init_at hhdm_off regions (memory (add64 phys hhdm_off)) phys s'
    ]

-- One pass of `alloc_frame`, with the rounds that are left: the first clear bit is set.
pub alloc_pass : ℕ → ℕ → Pmm → Option (ℕ × Pmm)
alloc_pass zero i s = none
alloc_pass (suc n) i s = elim (bm_test s.bytes i) [
  | true ↦ alloc_pass n (i + 1) s
  | false ↦ some (mul64 i page_size, record (take_frame s i) { scan_hint = i + 1 })
]

pub alloc_frame : Pmm → ℕ × Pmm
alloc_frame s = elim (alloc_pass (s.frame_count - s.scan_hint) s.scan_hint s) [
  | some r ↦ r
  | none ↦ elim (alloc_pass s.scan_hint 0 s) [ some r ↦ r | none ↦ (0, s) ]
]

-- `for (j = i; j < i + n; j++) bm_set(j);`
pub set_bits : ℕ → ℕ → Bytes → Bytes
set_bits zero i bm = bm
set_bits (suc n) i bm = set_bits n (i + 1) (bm_set bm i)

-- The search of `alloc_frames`, with the rounds that are left. `++run` cannot wrap: it is at most
-- the number of rounds made.
pub alloc_run : ℕ → ℕ → ℕ → ℕ → ℕ → Pmm → ℕ × Pmm
alloc_run count zero i run run_start s = (0, s)
alloc_run count (suc n) i run run_start s = elim (bm_test s.bytes i) [
  | true ↦ alloc_run count n (i + 1) 0 run_start s
  | false ↦
      let start = if run == 0 then i else run_start in
      elim (run + 1 == count) [
        | true ↦ (
          mul64 start page_size,
          record s {
            bytes = set_bits count start s.bytes;
            free_frames_n = sub64 s.free_frames_n count;
          },
        )
        | false ↦ alloc_run count n (i + 1) (run + 1) start s
      ]
]

pub alloc_frames : ℕ → Pmm → ℕ × Pmm
alloc_frames count s =
    if count == 0
    then (0, s)
    else if count == 1
    then alloc_frame s
    else alloc_run count s.frame_count 0 0 0 s

pub free_frame : ℕ → Pmm → Pmm
free_frame phys s =
    let i = phys / page_size in
    if i == 0 || leb s.frame_count i
    then s
    else if bm_test s.bytes i
    then record (give_frame s i) { scan_hint = if ltb i s.scan_hint then i else s.scan_hint }
    else s

-- The loop of `free_frames`, with the rounds that are left.
pub free_frames_loop : ℕ → ℕ → ℕ → Pmm → Pmm
free_frames_loop zero i phys s = s
free_frames_loop (suc n) i phys s =
    free_frames_loop n (i + 1) phys (free_frame (add64 phys (mul64 i page_size)) s)

pub free_frames : ℕ → ℕ → Pmm → Pmm
free_frames phys count s = free_frames_loop count 0 phys s

pub pmm_reclaim_bootloader : List Region → Pmm → Pmm
pmm_reclaim_bootloader regions s =
    let s1 = guard_null (free_regions memmap_bootloader_reclaimable regions s) in
    record s1 {
      total_frames = add64 s1.total_frames (sub64 s1.free_frames_n s.free_frames_n);
      scan_hint = 0;
    }

unfoldable pub pmm_total_bytes : Pmm → ℕ
pmm_total_bytes s = mul64 s.total_frames page_size

pub pmm_free_bytes : Pmm → ℕ
pmm_free_bytes s = mul64 s.free_frames_n page_size
