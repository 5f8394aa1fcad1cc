-- ===== src/Kalloc.antt =====
-- src/kernel/memory/kalloc.c: the kernel heap, a first-fit free list of blocks in address order.
--
-- A block starts with a 16-byte header, and its payload follows. `size` and `next` are the header
-- fields by the block's address, `bytes` the payload bytes by address; NULL is 0. The heap takes its
-- memory from the frame allocator, whose state is a field. `size_t` arithmetic is reduced modulo
-- 2^64; pointer arithmetic inside the address space does not wrap. A walk along the list takes fuel
-- `g`, and the loop of `kmalloc` takes fuel `f`; `none` says that a fuel ran out.
pub mod Blocks
pub mod Link
pub mod Insert
pub mod Take
pub mod Grow
pub mod Malloc
pub mod Live
pub mod Free
pub mod Client
pub mod Realloc
pub mod Edge
pub mod Tests
use jmos.Prelude.{
  ℕ, zero, suc, ◌+◌, ◌-◌, ◌*◌, ◌/◌, bit_and, Bool, true, false, not, ◌&&◌, Option, none, some, ltb,
  leb, ◌==◌, if◌then◌else◌, update,
}
use jmos.Prelude.Words.{u64_mod, add64, sub64, mul64}
use jmos.Cstring.{Mem, memset, memcpy}
use jmos.Pmm.{Pmm, page_size, alloc_frames}

abbrev pub heap_align : ℕ
heap_align = 16

-- `sizeof(block_t)`
abbrev pub header : ℕ
header = 16

abbrev pub min_grow : ℕ
min_grow = 64 * 1024

pub record Kheap : Type 0 where
  pub free_head : ℕ
  pub size : ℕ → ℕ
  pub next : ℕ → ℕ
  pub bytes : Mem
  pub hhdm_off : ℕ
  pub pmm : Pmm

pub align_size : ℕ → ℕ
align_size v = bit_and (sub64 (add64 v heap_align) 1) (u64_mod - 1 - sub64 heap_align 1)

pub block_end : Kheap → ℕ → ℕ
block_end h b = b + header + h.size b

abbrev pub set_size : Kheap → ℕ → ℕ → Kheap
set_size h b v = record h { size = update h.size b v }

abbrev pub set_next : Kheap → ℕ → ℕ → Kheap
set_next h b p = record h { next = update h.next b p }

-- The walk of `free_insert` to the place of `b`: the blocks before and behind it.
pub seek : ℕ → Kheap → ℕ → ℕ → ℕ → Option (ℕ × ℕ)
seek zero h b prev cur = none
seek (suc g) h b prev cur = elim (not (cur == 0) && ltb cur b) [
  | true ↦ seek g h b cur (h.next cur)
  | false ↦ some (prev, cur)
]

pub stitch : Kheap → ℕ → ℕ → ℕ → Kheap
stitch h b prev cur =
    let h' = set_next h b cur in
    if not (prev == 0) then set_next h' prev b else record h' { free_head = b }

pub coalesce_forward : Kheap → ℕ → ℕ → Kheap
coalesce_forward h b cur =
    if not (cur == 0) && block_end h b == cur
    then record h {
      size = update h.size b (add64 (h.size b) (add64 header (h.size cur)));
      next = update h.next b (h.next cur);
    }
    else h

pub coalesce_backward : Kheap → ℕ → ℕ → Kheap
coalesce_backward h b prev =
    if not (prev == 0) && block_end h prev == b
    then record h {
      size = update h.size prev (add64 (h.size prev) (add64 header (h.size b)));
      next = update h.next prev (h.next b);
    }
    else h

-- `free_insert` behind its walk.
pub link : Kheap → ℕ → ℕ → ℕ → Kheap
link h b prev cur = coalesce_backward (coalesce_forward (stitch h b prev cur) b cur) b prev

pub free_insert : ℕ → ℕ → Kheap → Option Kheap
free_insert g b h = elim (seek g h b 0 h.free_head) [
  | none ↦ none
  | some (prev, cur) ↦ some (link h b prev cur)
]

-- The number of frames that `heap_grow` asks for.
pub grow_frames : ℕ → ℕ
grow_frames need =
    let bytes = add64 need header in
    let enough = if ltb bytes min_grow then min_grow else bytes in
    sub64 (add64 enough page_size) 1 / page_size

pub heap_grow : ℕ → ℕ → Kheap → Option (Bool × Kheap)
heap_grow g need h =
    let frames = grow_frames need in
    let (phys, pmm') = alloc_frames frames h.pmm in
    let b = add64 phys h.hhdm_off in
    let fresh : Kheap = record h {
      pmm = pmm';
      size = update h.size b (sub64 (mul64 frames page_size) header);
    } in
    elim (phys == 0) [
      | true ↦ some (false, record h { pmm = pmm' })
      | false ↦ elim (free_insert g b fresh) [ none ↦ none | some h' ↦ some (true, h') ]
    ]

pub kheap_init : ℕ → Kheap → Option (Bool × Kheap)
kheap_init g h = heap_grow g min_grow (record h { free_head = 0 })

-- How a walk for a block of enough bytes ends.
pub data Fit : Type 0 where
  out_of_fuel : Fit
  no_fit : Fit
  fit : ℕ → ℕ → Fit

pub find_fit : ℕ → Kheap → ℕ → ℕ → ℕ → Fit
find_fit zero h size prev b = out_of_fuel
find_fit (suc g) h size prev b = elim (b == 0) [
  | true ↦ no_fit
  | false ↦ elim (ltb (h.size b) size) [
    | true ↦ find_fit g h size b (h.next b)
    | false ↦ fit prev b
  ]
]

-- `if (prev != NULL) prev->next = p; else free_head = p;`
pub relink : Kheap → ℕ → ℕ → Kheap
relink h prev p = if not (prev == 0) then set_next h prev p else record h { free_head = p }

-- What `kmalloc` does with the block that fits.
pub take_block : Kheap → ℕ → ℕ → ℕ → ℕ × Kheap
take_block h size prev b =
    let rest = b + header + size in
    let split : Kheap = record h {
      size = update (update h.size rest (sub64 (sub64 (h.size b) size) header)) b size;
      next = update h.next rest (h.next b);
    } in
    (
      b + header,
      if leb (add64 (add64 size header) heap_align) (h.size b)
          then relink split prev rest
          else relink h prev (h.next b),
    )

-- `for (;;)` of `kmalloc`.
pub kmalloc_loop : ℕ → ℕ → ℕ → Kheap → Option (ℕ × Kheap)
kmalloc_loop g zero size h = none
kmalloc_loop g (suc f) size h = elim (find_fit g h size 0 h.free_head) [
  | out_of_fuel ↦ none
  | fit prev b ↦ some (take_block h size prev b)
  | no_fit ↦ elim (heap_grow g size h) [
    | none ↦ none
    | some (grown, h') ↦ elim grown [ true ↦ kmalloc_loop g f size h' | false ↦ some (0, h') ]
  ]
]

pub kmalloc : ℕ → ℕ → ℕ → Kheap → Option (ℕ × Kheap)
kmalloc g f size h = if size == 0 then some (0, h) else kmalloc_loop g f (align_size size) h

pub kcalloc : ℕ → ℕ → ℕ → ℕ → Kheap → Option (ℕ × Kheap)
kcalloc g f n size h =
    if not (n == 0) && ltb ((u64_mod - 1) / n) size
    then some (0, h)
    else elim (kmalloc g f (mul64 n size) h) [
      | none ↦ none
      | some (p, h') ↦
          some
            (p, if p == 0 then h' else record h' { bytes = (memset h'.bytes p 0 (mul64 n size)).1 })
    ]

pub kfree : ℕ → ℕ → Kheap → Option Kheap
kfree g ptr h = if ptr == 0 then some h else free_insert g (ptr - header) h

-- `krealloc` once the new block is there.
pub move_block : ℕ → ℕ → ℕ → ℕ → Kheap → ℕ → Option (ℕ × Kheap)
move_block g ptr old size h p =
    let copied : Kheap = record h {
      bytes = (memcpy h.bytes p ptr (if ltb old size then old else size)).1;
    } in
    elim (kfree g ptr copied) [ none ↦ none | some h' ↦ some (p, h') ]

pub krealloc : ℕ → ℕ → ℕ → ℕ → Kheap → Option (ℕ × Kheap)
krealloc g f ptr size h =
    let old = h.size (ptr - header) in
    if ptr == 0
    then kmalloc g f size h
    else if size == 0
    then elim (kfree g ptr h) [ none ↦ none | some h' ↦ some (0, h') ]
    else if leb (align_size size) old
    then some (ptr, h)
    else elim (kmalloc g f size h) [
      | none ↦ none
      | some (p, h') ↦ if p == 0 then some (0, h') else move_block g ptr old size h' p
    ]
