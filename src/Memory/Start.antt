-- ===== src/Memory/Start.antt =====
-- The switch to the kernel's own page tables, and `memory_init`.
use jmos.Prelude.Words.{add64}
use jmos.Prelude.{
  ℕ, ◌+◌, ◌*◌, ◌^◌, ◌≤◌, ◌<◌, ◌≡◌, ◌≢◌, ◌⊎◌, refl, inl, inr, true, false, List, Option, some, arith,
  ◌==◌, bit_and, ap, ◌∙◌, subst, sym,
}
use jmos.Bootinfo.{Region, LimineFramebuffer, memmap_usable, memmap_bootloader_reclaimable}
use jmos.Pmm.{Bytes, Pmm, bm_test, pmm_reclaim_bootloader, find_bitmap, bitmap_size, frames_of}
use jmos.Pmm.Bitmap.{IsBytes}
use jmos.Pmm.Inv.{IsValid}
use jmos.Pmm.Ranges.{AllAligned, in_kind}
use jmos.Pmm.Boot.{pmm_reclaim_bootloader_lem, frame_count-pmm_reclaim_bootloader}
use jmos.Paging.{Vmm, p2v, page_addr_mask, vmm_clone_kernel_space, vmm_load_space}
use jmos.Paging.Walk.{indices}
use jmos.Paging.Tour.{below_indices}
use jmos.Paging.Tree.{reach, Tree, Tree-mono, Tree-same, reach_same}
use jmos.Paging.Held.{Off, Held, Fresh, Held-used, Ready, Copy, Cloned, Held-Calm}
use jmos.Paging.Clone.{top, clone_table-Cloned, aligned_address}
use jmos.Kalloc.Blocks.{Blocks}
use jmos.Memory.{Memory, start_frames, switch_space}

-- The tables in use lie in no free frame, and map every address as those in use before did.
pub record Switched (s t : Vmm) : Type 0 where
  pub ready : Ready t
  pub base : t.hhdm_off ≡ s.hhdm_off
  pub tables : Tree (Held t) 4 t (top t)
  pub maps : (va : ℕ) → reach 4 t (top t) (indices va) ≡ reach 4 s (top s) (indices va)

-- The tables in use are new, in frames that were free, and the boot loader's frames are free, but for the
-- null frame; or the tables are those that were in use, and no frame is free.
abbrev pub Renewed : List Region → Vmm → Vmm → Type 0
Renewed rs s t =
    Tree (Fresh s t) 4 t (top t)
      × ((j : ℕ)
          → j < s.pmm.frame_count
          → in_kind memmap_bootloader_reclaimable rs j ≡ true
          → j ≢ 0
          → bm_test t.pmm.bytes j ≡ false)
    ⊎ (t.cr3 ≡ s.cr3) × (t.pmm.free_frames_n ≡ 0)

module _ (rs : List Region) (s : Vmm) (ready : Ready s) (al : AllAligned rs)
    (total : s.pmm.total_frames ≤ s.pmm.frame_count)
    (usable : (j : ℕ)
      → j < s.pmm.frame_count
      → bm_test s.pmm.bytes j ≡ false
      → in_kind memmap_bootloader_reclaimable rs j ≡ false)
    (tree : Tree (Held s) 4 s (top s)) where
  abbrev r : ℕ × Vmm
  r = vmm_clone_kernel_space s

  cloned : Cloned 4 s (top s) r
  cloned = clone_table-Cloned 4 (top s) s (omega arith) ready tree

  -- The clone failed: the tables in use stay in use.
  failed : Switched s r.1
  failed =
      let c = cloned.calm in
      let here : top r.1 ≡ top s =
        ap (λ q. p2v r.1 (bit_and q page_addr_mask)) c.cr3
        ∙ ap (λ h. add64 (bit_and s.cr3 page_addr_mask) h) c.base in
      record {
        ready = c.ready;
        base = c.base;
        tables = subst (Tree (Held r.1) 4 r.1) (sym here) (
            Tree-mono (Held-Calm c) 4 r.1 (top s)
              (Tree-same s r.1 cloned.kept c.base 4 (top s) tree));
        maps = λ va.
            ap (λ t. reach 4 r.1 t (indices va)) here
            ∙ reach_same s r.1 cloned.kept c.base 4 (top s) (indices va) (below_indices va) tree;
      }

  -- The clone is loaded, and the boot loader's memory reclaimed.
  abbrev reclaimed : Pmm
  reclaimed = pmm_reclaim_bootloader rs r.1.pmm

  abbrev loaded : Vmm
  loaded = record (vmm_load_space r.0 r.1) { pmm = reclaimed }

  reclaimed_frames : reclaimed.frame_count ≡ s.pmm.frame_count
  reclaimed_frames =
      frame_count-pmm_reclaim_bootloader rs r.1.pmm al cloned.calm.ready.pmm ∙ cloned.calm.count

  -- A frame taken for the clone stays used.
  still_used :
      (k : ℕ)
      → k < s.pmm.frame_count
      → bm_test s.pmm.bytes k ≡ false
      → bm_test r.1.pmm.bytes k ≡ true
      → bm_test reclaimed.bytes k ≡ true
  still_used k lt was now =
      let c = cloned.calm in
      let bits =
        (pmm_reclaim_bootloader_lem rs r.1.pmm al c.ready.pmm
            (omega (arith, total, c.total, c.count))).1
          k (omega (arith, lt, c.count)) in
      ground (arith, bits, usable k lt was, now)

  Fresh-loaded : (a : ℕ) → Fresh s r.1 a → Held loaded a
  Fresh-loaded a f =
      Held-used loaded f.k a (still_used f.k f.managed f.was_free f.used)
        (omega (arith, f.inside, cloned.calm.base))

  switched : Copy 4 s (top s) r.0 r.1 → Switched s loaded
  switched copy =
      let c = cloned.calm in
      let here : top loaded ≡ p2v r.1 r.0 =
        ap (p2v r.1) (aligned_address r.0 copy.aligned copy.small) in
      let words : (a : ℕ) → Fresh s r.1 a → loaded.words a ≡ r.1.words a = λ a f. refl in
      record {
        ready = record {
          pmm =
              (pmm_reclaim_bootloader_lem rs r.1.pmm al c.ready.pmm
                (omega (arith, total, c.total, c.count))).0;
          few = omega (arith, reclaimed_frames, ready.few);
          mapped = omega (arith, reclaimed_frames, ready.mapped, c.base);
        };
        base = c.base;
        tables = subst (Tree (Held loaded) 4 loaded) (sym here) (
            Tree-mono Fresh-loaded 4 loaded (p2v r.1 r.0)
              (Tree-same r.1 loaded words refl 4 (p2v r.1 r.0) copy.tree));
        maps = λ va.
            ap (λ t. reach 4 loaded t (indices va)) here
            ∙ reach_same r.1 loaded words refl 4 (p2v r.1 r.0) (indices va) (below_indices va)
                copy.tree
            ∙ copy.walks (indices va) refl (below_indices va);
      }

  Fresh-reclaimed : (a : ℕ) → Fresh s r.1 a → Fresh s loaded a
  Fresh-reclaimed a f = record {
    k = f.k;
    managed = f.managed;
    was_free = f.was_free;
    used = still_used f.k f.managed f.was_free f.used;
    inside = f.inside;
  }

  renewed : Copy 4 s (top s) r.0 r.1 → Renewed rs s loaded
  renewed copy =
      let c = cloned.calm in
      let here : top loaded ≡ p2v r.1 r.0 =
        ap (p2v r.1) (aligned_address r.0 copy.aligned copy.small) in
      inl (
        subst (Tree (Fresh s loaded) 4 loaded) (sym here) (
            Tree-mono Fresh-reclaimed 4 loaded (p2v r.1 r.0)
              (Tree-same r.1 loaded (λ a f. refl) refl 4 (p2v r.1 r.0) copy.tree)),
        λ j lt kind real.
            let bits =
              (pmm_reclaim_bootloader_lem rs r.1.pmm al c.ready.pmm
                  (omega (arith, total, c.total, c.count))).1
                j (omega (arith, lt, c.count)) in
            ground (arith, bits, kind, real),
      )

  pub switch_space-Switched : Switched s (switch_space rs s) × Renewed rs s (switch_space rs s)
  unfolding switch_space
  switch_space-Switched = elim cloned.outcome [
    | inl copy ↦
        let got : (r.0 == 0) ≡ false = ground (arith, copy.real) in
        rw got (switched copy, renewed copy)
    | inr full ↦ rw full.0 (failed, inr (cloned.calm.cr3, full.1))
  ]

-- More frames are taken, for the heap.
module _ (s t : Vmm) (w : Switched s t) (p : Pmm) (valid : IsValid p)
    (count : p.frame_count ≡ t.pmm.frame_count)
    (used : (j : ℕ) → bm_test t.pmm.bytes j ≡ true → bm_test p.bytes j ≡ true) where
  abbrev after : Vmm
  after = record t { pmm = p }

-- What the boot loader hands over: an aligned memory map with a place for the bitmap, no frame in it
-- both usable and reclaimable, its frames below 2^52 bytes and within the direct map, and page tables
-- in no usable frame.
pub record Handover (m : Memory) (phys : ℕ) : Type 0 where
  pub aligned : AllAligned m.boot.regions
  pub place : find_bitmap (bitmap_size (frames_of m.boot.regions)) m.boot.regions ≡ some phys
  pub apart :
      (j : ℕ)
      → in_kind memmap_usable m.boot.regions j ≡ true
      → in_kind memmap_bootloader_reclaimable m.boot.regions j ≡ false
  pub few : m.vmm.pmm.frame_count ≤ 2 ^ 40
  pub mapped : m.vmm.hhdm_off + m.vmm.pmm.frame_count * 4096 < 2 ^ 64
  pub tables :
      Tree
        (λ a. (j : ℕ) → in_kind memmap_usable m.boot.regions j ≡ true → Off m.vmm j a)
        4
        m.vmm
        (top m.vmm)

module _ (memmap : Option (List Region)) (hhdm : Option ℕ) (fb : Option LimineFramebuffer)
    (memory : ℕ → Bytes) (m : Memory) (phys : ℕ) (bytes : (a : ℕ) → IsBytes (memory a))
    (o : Handover (start_frames memmap hhdm fb memory m) phys) where
  abbrev m1 : Memory
  m1 = start_frames memmap hhdm fb memory m
