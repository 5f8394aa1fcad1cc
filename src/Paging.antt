-- ===== src/Paging.antt =====
-- src/kernel/memory/paging.c: page tables of four levels, in frames of the frame allocator.
--
-- `words` is the memory as the page tables use it: the 64-bit word at an address of the direct map.
-- `pmm` is the frame allocator's state, `cr3` the register that names the table in use, and `flushed`
-- lists the addresses that `invlpg` was called for, the last first. A pointer to a table is the address
-- of its first word, NULL is 0. `clone_table` calls itself with a smaller level, at most four deep.
pub mod Entry
pub mod Walk
pub mod Space
pub mod Tour
pub mod Grow
pub mod Next
pub mod Level
pub mod Leaf
pub mod Map
pub mod Moved
pub mod Tree
pub mod Held
pub mod Round
pub mod Loop
pub mod Clone
mod Tests
use jmos.Prelude.{
  ℕ, zero, suc, ◌+◌, ◌-◌, ◌*◌, ◌/◌, ◌%◌, ◌^◌, bit_and, bit_or, Bool, true, false, not, ◌&&◌, ◌||◌,
  List, [], ◌∷◌, ltb, leb, ◌==◌, if◌then◌else◌, update,
}
use jmos.Prelude.Words.{u64_mod, add64}
use jmos.Pmm.{Pmm, alloc_frame}

abbrev pub page_present : ℕ
page_present = 1

abbrev pub page_write : ℕ
page_write = 2

abbrev pub page_huge : ℕ
page_huge = 128

abbrev pub page_nx : ℕ
page_nx = 2 ^ 63

abbrev pub page_addr_mask : ℕ
page_addr_mask = 0x000FFFFFFFFFF000

abbrev pub pml4_idx : ℕ → ℕ
pml4_idx v = bit_and (v / 2 ^ 39) 0x1FF

abbrev pub pdpt_idx : ℕ → ℕ
pdpt_idx v = bit_and (v / 2 ^ 30) 0x1FF

abbrev pub pd_idx : ℕ → ℕ
pd_idx v = bit_and (v / 2 ^ 21) 0x1FF

abbrev pub pt_idx : ℕ → ℕ
pt_idx v = bit_and (v / 2 ^ 12) 0x1FF

pub record Vmm : Type 0 where
  pub words : ℕ → ℕ
  pub hhdm_off : ℕ
  pub pmm : Pmm
  pub cr3 : ℕ
  pub flushed : List ℕ

abbrev pub p2v : Vmm → ℕ → ℕ
p2v s phys = add64 phys s.hhdm_off

-- `tbl[i]`, and `tbl[i] = v`.
abbrev pub slot : ℕ → ℕ → ℕ
slot tbl i = tbl + 8 * i

abbrev pub store : Vmm → ℕ → ℕ → Vmm
store s a v = record s { words = update s.words a v }

-- `e & PAGE_PRESENT`
abbrev pub is_present : ℕ → Bool
is_present e = not (bit_and e page_present == 0)

-- `memset(p, 0, 4096)`
abbrev pub clear_page : (ℕ → ℕ) → ℕ → ℕ → ℕ
clear_page words p a = if leb p a && ltb a (p + 4096) then 0 else words a

-- The new table of `next_level`, once it has a frame.
pub add_level : ℕ → ℕ → ℕ → Vmm → ℕ × Vmm
add_level tbl i frame s =
    let s' = record s { words = clear_page s.words (p2v s frame) } in
    let s'' = store s' (slot tbl i) (bit_or (bit_or frame page_present) page_write) in
    (p2v s'' (bit_and (s''.words (slot tbl i)) page_addr_mask), s'')

pub next_level : ℕ → ℕ → Vmm → ℕ × Vmm
next_level tbl i s =
    let e = s.words (slot tbl i) in
    let (frame, pmm') = alloc_frame s.pmm in
    if not (is_present e)
    then if frame == 0
      then (0, record s { pmm = pmm' })
      else add_level tbl i frame (record s { pmm = pmm' })
    else (p2v s (bit_and e page_addr_mask), s)

-- The entry that `map_page` writes.
pub page_entry : ℕ → ℕ → ℕ
page_entry pa flags =
    bit_or (bit_or (bit_and pa page_addr_mask) (bit_and flags 0xFFF)) (bit_and flags page_nx)

-- The write of `map_page`, once it has the last table.
pub set_page : ℕ → ℕ → ℕ → ℕ → Vmm → Vmm
set_page pt va pa flags s =
    let s' = store s (slot pt (pt_idx va)) (page_entry pa flags) in
    record s' { flushed = va ∷ s.flushed }

pub map_page : ℕ → ℕ → ℕ → ℕ → Vmm → Vmm
map_page pml4 va pa flags s =
    let (pdpt, s1) = next_level pml4 (pml4_idx va) s in
    let (pd, s2) = next_level pdpt (pdpt_idx va) s1 in
    let (pt, s3) = next_level pd (pd_idx va) s2 in
    if pdpt == 0
    then s1
    else if pd == 0
    then s2
    else if pt == 0
    then s3
    else set_page pt va pa flags s3

-- Whether `clone_table` copies an entry as it is.
abbrev pub is_leaf : ℕ → ℕ → Bool
is_leaf level e = level == 1 || (level == 2 || level == 3) && not (bit_and e page_huge == 0)

-- The loop of `clone_table` with `left` entries to go, `child` the call for the level below. The test
-- is false where the loop gives up.
pub clone_loop : ℕ → (ℕ → Vmm → ℕ × Vmm) → ℕ → ℕ → ℕ → ℕ → Vmm → Bool × Vmm
clone_loop level child zero i src dst s = (true, s)
clone_loop level child (suc left) i src dst s =
    let e = s.words (slot src i) in
    elim (is_present e) [
      | false ↦ clone_loop level child left (i + 1) src dst (store s (slot dst i) 0)
      | true ↦ elim (is_leaf level e) [
        | true ↦ clone_loop level child left (i + 1) src dst (store s (slot dst i) e)
        | false ↦
            let (c, s') = child (p2v s (bit_and e page_addr_mask)) s in
            elim (c == 0) [
              | true ↦ (false, s')
              | false ↦
                  clone_loop level child left (i + 1) src dst
                    (store s' (slot dst i) (bit_or c (bit_and e (u64_mod - 1 - page_addr_mask))))
            ]
      ]
    ]

pub clone_table : ℕ → ℕ → Vmm → ℕ × Vmm
clone_table zero src s = (0, s)
clone_table (suc l) src s =
    let (frame, pmm') = alloc_frame s.pmm in
    let s' = record s { pmm = pmm' } in
    let (done, s'') = clone_loop (suc l) (clone_table l) 512 0 src (p2v s frame) s' in
    if frame == 0 then (0, s') else if done then (frame, s'') else (0, s'')

abbrev pub vmm_clone_kernel_space : Vmm → ℕ × Vmm
vmm_clone_kernel_space s = clone_table 4 (p2v s (bit_and s.cr3 page_addr_mask)) s

abbrev pub vmm_load_space : ℕ → Vmm → Vmm
vmm_load_space pml4_phys s = record s { cr3 = pml4_phys }
