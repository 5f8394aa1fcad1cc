-- ===== src/Gdt/Pack.antt =====
-- What the descriptors hold.
use jmos.Prelude.{ℕ, ◌+◌, ◌*◌, ◌/◌, ◌%◌, ◌^◌, ◌<◌, ◌≡◌, ◌≢◌, arith}
use jmos.Gdt.{Entry, Gdt, entry, gdt_set_gate}

abbrev pub base_of : Entry → ℕ
base_of e = e.base_low + 2 ^ 16 * e.base_middle + 2 ^ 24 * e.base_high

abbrev pub limit_of : Entry → ℕ
limit_of e = e.limit_low + 2 ^ 16 * (e.granularity % 16)

abbrev pub flags_of : Entry → ℕ
flags_of e = e.granularity / 16

-- The entry that `gdt_set_gate` makes holds the 32-bit base, the low 20 bits of the limit, the access
-- byte, and the high four bits of the granularity as its flags; the other entries stay.
pub gdt_set_gate_lem :
    (n base limit access gran k : ℕ) (g : Gdt)
    → base < 2 ^ 32
    → gran < 2 ^ 8
    → let g' = gdt_set_gate n base limit access gran g in
      (base_of (g'.entries n) ≡ base)
      × (limit_of (g'.entries n) ≡ limit % 2 ^ 20)
      × ((g'.entries n).access ≡ access)
      × (flags_of (g'.entries n) ≡ gran / 16)
      × (k ≢ n → g'.entries k ≡ g.entries k)
unfolding gdt_set_gate entry
gdt_set_gate_lem n base limit access gran k g b small =
    (ground arith, ground arith, ground arith, ground arith, λ ne. ground arith)
