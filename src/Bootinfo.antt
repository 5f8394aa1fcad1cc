-- ===== src/Bootinfo.antt =====
-- include/memory/bootinfo.h and src/kernel/memory/bootinfo.c: what the boot loader reports, copied
-- into the kernel's own tables. The responses are structures of limine.h, which the boot loader
-- fills: they enter as arguments, and a null pointer as `none`.
pub mod Capture
mod Tests
use jmos.Prelude.{
  ℕ, zero, suc, ◌+◌, Bool, true, false, List, [], ◌∷◌, Option, none, some, length, ltb,
  if◌then◌else◌, update,
}

-- `mem_region_t`, and `struct limine_memmap_entry`, which has the same three fields.
pub record Region : Type 0 where
  pub base : ℕ
  pub length : ℕ
  pub kind : ℕ

-- LIMINE_MEMMAP_USABLE and LIMINE_MEMMAP_BOOTLOADER_RECLAIMABLE of limine.h.
abbrev pub memmap_usable : ℕ
memmap_usable = 0

abbrev pub memmap_bootloader_reclaimable : ℕ
memmap_bootloader_reclaimable = 5

-- The fields of `struct limine_framebuffer` that the kernel reads.
pub record LimineFramebuffer : Type 0 where
  pub address : ℕ
  pub width : ℕ
  pub height : ℕ
  pub pitch : ℕ
  pub bpp : ℕ
  pub red_mask_shift : ℕ
  pub green_mask_shift : ℕ
  pub blue_mask_shift : ℕ

-- `framebuffer_t`.
pub record Framebuffer : Type 0 where
  pub address : ℕ
  pub width : ℕ
  pub height : ℕ
  pub pitch : ℕ
  pub bpp : ℕ
  pub red_shift : ℕ
  pub green_shift : ℕ
  pub blue_shift : ℕ
  pub present : Bool

-- The file's static variables. `regions` is the first `region_count` entries of the array, and
-- `region_count` its length: entries behind those are never read.
pub record Bootinfo : Type 0 where
  pub hhdm_off : ℕ
  pub regions : List Region
  pub framebuffer : Framebuffer

abbrev pub max_regions : ℕ
max_regions = 256

pub capture_hhdm : Option ℕ → ℕ
capture_hhdm none = 0
capture_hhdm (some offset) = offset

-- `*memmap->entries[i]`; a place behind the entries is not read.
abbrev pub no_region : Region
no_region = record { base = 0; length = 0; kind = 0 }

unfoldable pub region_at : List Region → ℕ → Region
region_at [] i = no_region
region_at (e ∷ entries) zero = e
region_at (e ∷ entries) (suc i) = region_at entries i

abbrev pub clamp : ℕ → ℕ
clamp n = if ltb max_regions n then max_regions else n

-- The loop over the entries, with `left` to go.
unfoldable pub copy_loop : ℕ → ℕ → List Region → (ℕ → Region) → ℕ → Region
copy_loop zero i entries regions = regions
copy_loop (suc left) i entries regions =
    copy_loop left (i + 1) entries (update regions i (region_at entries i))

-- `n` entries of the array from place `i` on.
unfoldable pub entries_of : ℕ → ℕ → (ℕ → Region) → List Region
entries_of zero i regions = []
entries_of (suc n) i regions = regions i ∷ entries_of n (i + 1) regions

-- `region_count` ends as 0 with no memory map. What the array held before is not read again.
pub capture_regions : Option (List Region) → List Region
capture_regions none = []
capture_regions (some entries) =
    let n = clamp (length entries) in entries_of n 0 (copy_loop n 0 entries (λ _. no_region))

pub capture_framebuffer : Option LimineFramebuffer → Framebuffer → Framebuffer
capture_framebuffer none old = record old { present = false }
capture_framebuffer (some fb) old = record {
  address = fb.address;
  width = fb.width;
  height = fb.height;
  pitch = fb.pitch;
  bpp = fb.bpp;
  red_shift = fb.red_mask_shift;
  green_shift = fb.green_mask_shift;
  blue_shift = fb.blue_mask_shift;
  present = true;
}

unfoldable pub bootinfo_capture :
    Option (List Region) → Option ℕ → Option LimineFramebuffer → Bootinfo → Bootinfo
unfolding capture_hhdm capture_regions capture_framebuffer
bootinfo_capture memmap hhdm fb b = record {
  hhdm_off = capture_hhdm hhdm;
  regions = capture_regions memmap;
  framebuffer = capture_framebuffer fb b.framebuffer;
}

unfoldable pub bootinfo_regions : Bootinfo → List Region
bootinfo_regions b = b.regions

unfoldable pub bootinfo_framebuffer : Bootinfo → Framebuffer
bootinfo_framebuffer b = b.framebuffer
