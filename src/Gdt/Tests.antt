-- ===== src/Gdt/Tests.antt =====
-- The theorem on descriptors at a kernel data segment.
use jmos.Prelude.{ℕ, ◌≡◌, ◌≢◌, arith, ◌%◌, ◌^◌}
use jmos.Gdt.{Gdt, gdt_set_gate}
use jmos.Gdt.Pack.{base_of, limit_of, flags_of, gdt_set_gate_lem}

abbrev cleared : Gdt
cleared = record {
  entries = λ _. record {
    limit_low = 0;
    base_low = 0;
    base_middle = 0;
    access = 0;
    granularity = 0;
    base_high = 0;
  };
  ptr_limit = 0;
}

abbrev set : Gdt
set = gdt_set_gate 2 0x12345678 0xFFFFFFFF 0x92 0xA0 cleared

gdt_set_gate_lem_example :
    (base_of (set.entries 2) ≡ 0x12345678)
    × (limit_of (set.entries 2) ≡ 0xFFFFFFFF % 2 ^ 20)
    × ((set.entries 2).access ≡ 0x92)
    × (flags_of (set.entries 2) ≡ 0xA)
    × (◌≢◌ {A = ℕ} 1 2 → set.entries 1 ≡ cleared.entries 1)
gdt_set_gate_lem_example =
    gdt_set_gate_lem 2 0x12345678 0xFFFFFFFF 0x92 0xA0 1 cleared (omega arith) (omega arith)
