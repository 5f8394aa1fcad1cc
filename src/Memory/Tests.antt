-- ===== src/Memory/Tests.antt =====
-- The start of memory management on a small memory map.
use jmos.Prelude.{◌*◌, ◌^◌, ◌≡◌, refl, false, [], none, some}
use jmos.Bootinfo.{Framebuffer, bootinfo_capture, entries_of, copy_loop, region_at}
use jmos.Pmm.Tests.{tiny, memory_map, booted}
use jmos.Paging.Tree.{Tree}
use jmos.Kalloc.Blocks.{Blocks}
use jmos.Memory.{Memory, start_frames}

abbrev no_framebuffer : Framebuffer
no_framebuffer = record {
  address = 0;
  width = 0;
  height = 0;
  pitch = 0;
  bpp = 0;
  red_shift = 0;
  green_shift = 0;
  blue_shift = 0;
  present = false;
}

-- The boot loader's table, empty, is in the first of its own frames.
abbrev at_reset : Memory
at_reset = record {
  boot = record { hhdm_off = 0; regions = []; framebuffer = no_framebuffer };
  vmm = record { words = λ _. 0; hhdm_off = 0; pmm = tiny; cr3 = 18 * 4096; flushed = [] };
  heap = record {
    free_head = 0;
    size = λ _. 0;
    next = λ _. 0;
    bytes = λ _. 0;
    hhdm_off = 0;
    pmm = tiny;
  };
}

abbrev handed_over : Memory
handed_over = start_frames (some memory_map) (some (2 ^ 63)) none (λ _ _. 0) at_reset

handed_over_pmm : handed_over.vmm.pmm ≡ booted
unfolding start_frames bootinfo_capture entries_of copy_loop region_at
handed_over_pmm = refl

handed_over_map : (handed_over.boot.regions ≡ memory_map) × (handed_over.vmm.hhdm_off ≡ 2 ^ 63)
unfolding start_frames bootinfo_capture entries_of copy_loop region_at
handed_over_map = (refl, refl)
