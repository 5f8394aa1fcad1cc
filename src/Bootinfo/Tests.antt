-- ===== src/Bootinfo/Tests.antt =====
-- A capture at a concrete memory map.
use jmos.Prelude.{ℕ, ◌<◌, min, get_elem?, ◌≡◌, List, [], ◌∷◌, none, some, false, length}
use jmos.Bootinfo.{Region, Bootinfo, max_regions, bootinfo_capture, bootinfo_regions}
use jmos.Bootinfo.Capture.{capture_regions_first}

abbrev empty : Bootinfo
empty = record {
  hhdm_off = 0;
  regions = [];
  framebuffer = record {
    address = 0;
    width = 0;
    height = 0;
    pitch = 0;
    bpp = 0;
    red_shift = 0;
    green_shift = 0;
    blue_shift = 0;
    present = false;
  };
}

abbrev entries : List Region
entries =
    record { base = 0x1000; length = 0x9000; kind = 0 }
    ∷ record { base = 0xa000; length = 0x1000; kind = 5 }
    ∷ []

capture_regions_first_example :
    let kept = bootinfo_regions (bootinfo_capture (some entries) (some 0x8000) none empty) in
    (length kept ≡ min 2 max_regions)
    × ((i : ℕ) → i < length kept → get_elem? kept i ≡ get_elem? entries i)
capture_regions_first_example = capture_regions_first entries (some 0x8000) none empty
