-- ===== src/Memory.antt =====
-- src/kernel/memory/memory.c: the start of memory management, in the order of its calls.
--
-- `vmm.pmm` is the one state of the frame allocator; the heap's model takes it over for `kheap_init`.
-- `memory` is what the bytes of the bitmap hold before `pmm_init`. The lines of the log are left out.
pub mod Start
mod Tests
use jmos.Prelude.{ℕ, ◌==◌, Bool, true, false, List, Option, none, some, if◌then◌else◌}
use jmos.Bootinfo.{Region, LimineFramebuffer, Bootinfo, bootinfo_capture}
use jmos.Pmm.{Bytes, pmm_init, pmm_reclaim_bootloader}
use jmos.Paging.{Vmm, vmm_clone_kernel_space, vmm_load_space}
use jmos.Kalloc.{Kheap, kheap_init}

pub record Memory : Type 0 where
  pub boot : Bootinfo
  pub vmm : Vmm
  pub heap : Kheap

-- The frame allocator is there, with what the boot loader reported.
pub start_frames :
    Option (List Region) → Option ℕ → Option LimineFramebuffer → (ℕ → Bytes) → Memory → Memory
start_frames memmap hhdm fb memory m =
    let b = bootinfo_capture memmap hhdm fb m.boot in
    record m {
      boot = b;
      vmm = record m.vmm {
        hhdm_off = b.hhdm_off;
        pmm = pmm_init b.hhdm_off b.regions memory m.vmm.pmm;
      };
    }

-- `if (new_pml4 != 0)`, behind the clone.
pub switch_space : List Region → Vmm → Vmm
switch_space regions s =
    let (new_pml4, s') = vmm_clone_kernel_space s in
    let s'' = vmm_load_space new_pml4 s' in
    if new_pml4 == 0 then s' else record s'' { pmm = pmm_reclaim_bootloader regions s''.pmm }

-- The state behind `kheap_init`.
abbrev pub with_heap : Memory → Vmm → Option (Bool × Kheap) → Option Memory
with_heap m s o = elim o [
  | none ↦ none
  | some r ↦ some (record m { vmm = record s { pmm = r.1.pmm }; heap = r.1 })
]

pub memory_init :
    ℕ
    → Option (List Region)
    → Option ℕ
    → Option LimineFramebuffer
    → (ℕ → Bytes)
    → Memory
    → Option Memory
memory_init g memmap hhdm fb memory m =
    let m1 = start_frames memmap hhdm fb memory m in
    let s = switch_space m1.boot.regions m1.vmm in
    with_heap m1 s (kheap_init g (record m1.heap { pmm = s.pmm; hhdm_off = s.hhdm_off }))
