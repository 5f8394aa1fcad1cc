-- ===== src/Pmm/Ranges.antt =====
-- Regions of the memory map: alignment, and the loops that free or take a range of frames.
use jmos.Prelude.{
  ℕ, ◌+◌, ◌*◌, ◌/◌, ◌%◌, ◌^◌, ◌≤◌, ◌<◌, ◌≡◌, refl, ◌⊎◌, inl, inr, Bool, true, false, ◌&&◌, ◌||◌,
  List, [], ◌∷◌, arith, ltb, leb, ◌==◌, if◌then◌else◌, Bool-cases, ap,
}
use jmos.Prelude.Bits.{bit_and_page}
use jmos.Prelude.Words.{add64, sub64}
use jmos.Bootinfo.{Region, memmap_usable, memmap_bootloader_reclaimable}
use jmos.Pmm.{Pmm, page_size, bm_test, align_up, align_down, give_frame, take_frame}
use jmos.Pmm.Bitmap.{IsBytes, bm_set-IsBytes, bm_clear-IsBytes, bm_test-clear}
use jmos.Pmm.Count.{free_below, free_below-set, free_below-clear, free_below-le}

-- `align_up` and `align_down` at the page size are arithmetic on multiples of 4096.
pub align_up_page : (v : ℕ) → v + 4095 < 2 ^ 64 → align_up v page_size ≡ (v + 4095) / 4096 * 4096
unfolding align_up
align_up_page v h = omega (arith, bit_and_page (sub64 (add64 v page_size) 1) (omega arith))

pub align_up_aligned : (v : ℕ) → v < 2 ^ 64 → v % page_size ≡ 0 → align_up v page_size ≡ v
unfolding align_up
align_up_aligned v h e = omega (arith, bit_and_page (sub64 (add64 v page_size) 1) (omega arith))

pub align_down_page : (v : ℕ) → v < 2 ^ 64 → align_down v page_size ≡ v / 4096 * 4096
unfolding align_down
align_down_page v h = bit_and_page v h

-- What the Limine protocol promises of usable and reclaimable entries: whole pages, inside the
-- address space.
pub record IsAligned (r : Region) : Type 0 where
  pub base_aligned : r.base % page_size ≡ 0
  pub length_aligned : r.length % page_size ≡ 0
  pub inside : r.base + r.length < 2 ^ 64

abbrev pub AllAligned : List Region → Type 0
AllAligned [] = Unit
AllAligned (r ∷ rs) =
    ((r.kind ≡ memmap_usable) ⊎ (r.kind ≡ memmap_bootloader_reclaimable) → IsAligned r)
    × AllAligned rs

-- Frame `j` lies in the region; in a region of the given kind.
abbrev pub in_region : Region → ℕ → Bool
in_region r j = leb (r.base / page_size) j && ltb j ((r.base + r.length) / page_size)

unfoldable pub in_kind : ℕ → List Region → ℕ → Bool
in_kind kind [] j = false
in_kind kind (r ∷ rs) j = ((r.kind == kind) && in_region r j) || in_kind kind rs j

-- The part of the invariant that holds while the maps are built.
pub record Counted (s : Pmm) : Type 0 where
  pub bytes : IsBytes s.bytes
  pub counted : s.free_frames_n ≡ free_below s.bytes s.frame_count
  pub small : s.frame_count ≤ 2 ^ 52

module _ {s : Pmm} (i : ℕ) (v : Counted s) (lt : i < s.frame_count) where
  give-Counted : bm_test s.bytes i ≡ true → Counted (give_frame s i)
  unfolding give_frame
  give-Counted used = record {
    bytes = bm_clear-IsBytes s.bytes i v.bytes;
    counted = omega (
      arith,
      v.counted,
      v.small,
      free_below-clear s.bytes i s.frame_count v.bytes lt used,
      free_below-le s.bytes s.frame_count,
    );
    small = v.small;
  }

  pub take-Counted : bm_test s.bytes i ≡ false → Counted (take_frame s i)
  unfolding take_frame
  take-Counted free = record {
    bytes = bm_set-IsBytes s.bytes i v.bytes;
    counted = omega (
      arith,
      v.counted,
      v.small,
      free_below-set s.bytes i s.frame_count v.bytes lt free,
      free_below-le s.bytes s.frame_count,
    );
    small = v.small;
  }

-- What stands between two states of one build: the counter is kept right, the frame count and the
-- variables that only `pmm_init` writes stay, and the bits are those of `f`.
pub record Changed (s s' : Pmm) (f : ℕ → Bool) : Type 0 where
  pub valid : Counted s'
  pub frames : s'.frame_count ≡ s.frame_count
  pub total : s'.total_frames ≡ s.total_frames
  pub size : s'.bitmap_bytes ≡ s.bitmap_bytes
  pub bits : (j : ℕ) → bm_test s'.bytes j ≡ f j

pub free_step :
    {s : Pmm} (i : ℕ)
    → Counted s
    → i < s.frame_count
    → Changed s
        (if bm_test s.bytes i then give_frame s i else s)
        (λ j. if i == j then false else bm_test s.bytes j)
unfolding give_frame
free_step {s} i v lt = elim (Bool-cases (bm_test s.bytes i)) [
  | inl used ↦ rw used (record {
    valid = give-Counted i v lt used;
    frames = refl;
    total = refl;
    size = refl;
    bits = λ j. bm_test-clear s.bytes i j v.bytes;
  })
  | inr free ↦ rw free (record {
    valid = v;
    frames = refl;
    total = refl;
    size = refl;
    bits = λ j. ground (arith, ap (bm_test s.bytes) {x = i} {y = j});
  })
]
