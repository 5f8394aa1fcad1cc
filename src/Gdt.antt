-- ===== src/Gdt.antt =====
-- src/kernel/memory/gdt.c: the segment descriptors.
--
-- Masks of low bits are written as remainders, shifts as quotients. The two halves of the granularity
-- byte have no bit in common, so that their `|` is their sum.
pub mod Pack
mod Tests
use jmos.Prelude.{ℕ, ◌+◌, ◌-◌, ◌*◌, ◌/◌, ◌%◌, ◌^◌, ◌==◌, if◌then◌else◌}

pub record Entry : Type 0 where
  pub limit_low : ℕ
  pub base_low : ℕ
  pub base_middle : ℕ
  pub access : ℕ
  pub granularity : ℕ
  pub base_high : ℕ

pub record Gdt : Type 0 where
  pub entries : ℕ → Entry
  pub ptr_limit : ℕ

pub entry : ℕ → ℕ → ℕ → ℕ → Entry
entry base limit access gran = record {
  base_low = base % 2 ^ 16;
  base_middle = base / 2 ^ 16 % 2 ^ 8;
  base_high = base / 2 ^ 24 % 2 ^ 8;
  limit_low = limit % 2 ^ 16;
  granularity = limit / 2 ^ 16 % 16 + gran / 16 % 16 * 16;
  access = access;
}

pub gdt_set_gate : ℕ → ℕ → ℕ → ℕ → ℕ → Gdt → Gdt
gdt_set_gate n base limit access gran g = record g {
  entries = λ k. if k == n then entry base limit access gran else g.entries k;
}

-- The null entry, code and data of kernel and user, and the task state, whose structure has 10 bytes.
pub init_gdt : Gdt → Gdt
init_gdt g = gdt_set_gate 5 0 10 0x89 0x00 (
    gdt_set_gate 4 0 0xFFFFFFFF 0xF2 0xA0 (
      gdt_set_gate 3 0 0xFFFFFFFF 0xFA 0xA0 (
        gdt_set_gate 2 0 0xFFFFFFFF 0x92 0xA0 (
          gdt_set_gate 1 0 0xFFFFFFFF 0x9A 0xA0
            (gdt_set_gate 0 0 0 0 0 (record g { ptr_limit = 8 * 6 - 1 }))))))
