-- ===== src/Pmm/Tests.antt =====
-- Runs of the frame allocator, and its theorems at concrete states.
use jmos.Prelude.{
  ℕ, ◌+◌, ◌*◌, ◌/◌, ◌^◌, ◌≤◌, ◌<◌, ◌≡◌, refl, ◌≢◌, false, not, ◌&&◌, true, List, [], ◌∷◌, some,
  arith, ◌==◌, if◌then◌else◌,
}
use jmos.Prelude.Words.{add64, mul64}
use jmos.Bootinfo.{Region, memmap_usable, memmap_bootloader_reclaimable}
use jmos.Pmm.{
  Pmm, page_size, bm_test, alloc_frame, alloc_pass, alloc_run, alloc_frames, free_frames, align_up,
  highest_end, find_bitmap, frames_of, bitmap_size, pmm_init, pmm_reclaim_bootloader,
}
use jmos.Pmm.Count.{free_below}
use jmos.Pmm.Inv.{IsValid}
use jmos.Pmm.Alloc.{Granted, alloc_frame_lowest}
use jmos.Pmm.Frames.{GrantedRun, alloc_frames_first_fit, free_frames-alloc_frames}
use jmos.Pmm.Ranges.{AllAligned, in_kind}
use jmos.Pmm.Layout.{find_bitmap_underflow}
use jmos.Pmm.Init.{Initialised}
use jmos.Pmm.Boot.{pmm_init-Initialised, pmm_reclaim_bootloader_lem}
use jmos.Pmm.Calls.{
  Call, alloc_one, alloc_many, free_one, free_many, run, run-IsValid, no_double_grant,
}

-- Eight frames, of which 0 and 3 are used.
abbrev pub tiny : Pmm
tiny = record {
  bitmap_at = 0x1000;
  bytes = λ _. 9;
  frame_count = 8;
  bitmap_bytes = 4096;
  free_frames_n = 6;
  total_frames = 7;
  scan_hint = 0;
}

pub tiny-IsValid : IsValid tiny
unfolding free_below bm_test
tiny-IsValid = record {
  bytes = λ j. omega arith;
  counted = refl;
  small = omega arith;
  hint = omega arith;
  hinted = λ j p. absurd (omega arith);
  null = λ _. refl;
}

pub third_used : bm_test tiny.bytes 3 ≡ true
unfolding bm_test
third_used = refl

alloc_first : (alloc_frame tiny).0 ≡ 4096
unfolding alloc_frame alloc_pass bm_test
alloc_first = refl

alloc_three : (alloc_frames 3 tiny).0 ≡ 4 * 4096
unfolding alloc_frames alloc_run bm_test
alloc_three = refl

alloc_five : (alloc_frames 5 tiny).0 ≡ 0
unfolding alloc_frames alloc_run bm_test
alloc_five = refl

got_first : (alloc_frame tiny).0 ≢ 0
got_first e = absurd (omega (arith, alloc_first))

got_three : (alloc_frames 3 tiny).0 ≢ 0
got_three e = absurd (omega (arith, alloc_three))

alloc_frame_lowest_example : Granted tiny (alloc_frame tiny).0 (alloc_frame tiny).1
alloc_frame_lowest_example = alloc_frame_lowest tiny tiny-IsValid got_first

alloc_frames_first_fit_example : GrantedRun tiny 3 (alloc_frames 3 tiny).0 (alloc_frames 3 tiny).1
alloc_frames_first_fit_example = alloc_frames_first_fit tiny 3 tiny-IsValid (omega arith) got_three

free_frames-alloc_frames_example :
    let s' = free_frames (alloc_frames 3 tiny).0 3 (alloc_frames 3 tiny).1 in
    ((j : ℕ) → bm_test s'.bytes j ≡ bm_test tiny.bytes j) × (s'.free_frames_n ≡ 6)
free_frames-alloc_frames_example =
    free_frames-alloc_frames tiny 3 tiny-IsValid (omega arith) got_three

abbrev script : List Call
script = alloc_many 2 ∷ free_one (3 * 4096) ∷ alloc_one ∷ free_many (4 * 4096) 2 ∷ []

run-IsValid_example : IsValid (run script tiny)
run-IsValid_example = run-IsValid script tiny tiny-IsValid

script_spares : (i : ℕ) → i < 2 → add64 (4 * 4096) (mul64 i 4096) / 4096 ≢ 1
script_spares i p = omega arith

no_double_grant_example :
    let k = (alloc_frame tiny).0 / page_size in
    let t = run (free_many (4 * 4096) 2 ∷ []) (alloc_frame tiny).1 in
    ((alloc_frame t).0 ≢ 0 → (alloc_frame t).0 / page_size ≢ k)
    × ((alloc_frames 2 t).0 ≢ 0
        → ¬ (((alloc_frames 2 t).0 / page_size ≤ k) × (k < (alloc_frames 2 t).0 / page_size + 2)))
no_double_grant_example =
    no_double_grant tiny (free_many (4 * 4096) 2 ∷ []) 2 tiny-IsValid got_first
      ((λ i p. omega (arith, alloc_first, script_spares i p)), tt) (omega arith)

-- A memory map: 16 pages of usable memory, two reserved pages, four pages of the boot loader.
abbrev pub low : Region
low = record { base = 0; length = 16 * 4096; kind = memmap_usable }

abbrev pub hole : Region
hole = record { base = 16 * 4096; length = 2 * 4096; kind = 1 }

abbrev pub loader : Region
loader = record { base = 18 * 4096; length = 4 * 4096; kind = memmap_bootloader_reclaimable }

abbrev pub memory_map : List Region
memory_map = low ∷ hole ∷ loader ∷ []

pub map-AllAligned : AllAligned memory_map
map-AllAligned = ((λ _. omega arith), ((λ _. omega arith), ((λ _. omega arith), tt)))

pub bitmap_at_zero : find_bitmap (bitmap_size (frames_of memory_map)) memory_map ≡ some 0
unfolding find_bitmap bitmap_size frames_of highest_end align_up
bitmap_at_zero = refl

abbrev pub booted : Pmm
booted = pmm_init (2 ^ 63) memory_map (λ _ _. 0) tiny

highest_byte : highest_end memory_map 0 ≡ 22 * 4096
unfolding highest_end
highest_byte = refl

-- The map ends with the boot loader's pages.
pub booted_frames : booted.frame_count ≡ 22
booted_frames = omega (
  arith,
  (pmm_init-Initialised (2 ^ 63) memory_map (λ _ _. 0) tiny 0 map-AllAligned (λ a j. omega arith)
      bitmap_at_zero).1,
  highest_byte,
)

pub usable_low : (j : ℕ) → in_kind memmap_usable memory_map j ≡ true → j < 16
unfolding in_kind
usable_low j u = ground (arith, u)

pub loader_high : (j : ℕ) → j < 16 → in_kind memmap_bootloader_reclaimable memory_map j ≡ false
unfolding in_kind
loader_high j lt = ground (arith, lt)

pmm_init-Initialised_example :
    Initialised memory_map 0 booted × (booted.frame_count * page_size ≡ highest_end memory_map 0)
pmm_init-Initialised_example =
    pmm_init-Initialised (2 ^ 63) memory_map (λ _ _. 0) tiny 0 map-AllAligned (λ a j. omega arith)
      bitmap_at_zero

pmm_reclaim_bootloader_lem_example :
    let s' = pmm_reclaim_bootloader memory_map tiny in
    IsValid s'
    × ((j : ℕ)
        → j < 8
        → bm_test s'.bytes j ≡ (
            if in_kind memmap_bootloader_reclaimable memory_map j && not (j == 0)
            then false
            else bm_test tiny.bytes j))
    × (s'.total_frames + 6 ≡ 7 + s'.free_frames_n)
pmm_reclaim_bootloader_lem_example =
    pmm_reclaim_bootloader_lem memory_map tiny map-AllAligned tiny-IsValid (omega arith)

abbrev sliver : Region
sliver = record { base = 0x5010; length = 0x20; kind = memmap_usable }

find_bitmap_underflow_example :
    (find_bitmap 4096 (sliver ∷ low ∷ []) ≡ some (align_up 0x5010 page_size))
    × (0x5030 < align_up 0x5010 page_size)
find_bitmap_underflow_example =
    find_bitmap_underflow sliver (low ∷ []) 4096 refl (omega arith) (omega arith) (omega arith)
      (omega arith)
