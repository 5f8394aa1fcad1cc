-- ===== src/Pmm/Inv.antt =====
-- The invariant of the allocator's variables.
use jmos.Prelude.{ℕ, ◌^◌, ◌≤◌, ◌<◌, ◌≡◌, true}
use jmos.Pmm.{Pmm, bm_test}
use jmos.Pmm.Bitmap.{IsBytes}
use jmos.Pmm.Count.{free_below}

-- The counter is the number of clear bits, no frame below the scan hint is free, and the null frame
-- is never free. `small` says that physical addresses have 64 bits.
pub record IsValid (s : Pmm) : Type 0 where
  pub bytes : IsBytes s.bytes
  pub counted : s.free_frames_n ≡ free_below s.bytes s.frame_count
  pub small : s.frame_count ≤ 2 ^ 52
  pub hint : s.scan_hint ≤ s.frame_count
  pub hinted : (j : ℕ) → j < s.scan_hint → bm_test s.bytes j ≡ true
  pub null : 0 < s.frame_count → bm_test s.bytes 0 ≡ true
