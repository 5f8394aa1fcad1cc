-- ===== src/Kalloc/Tests.antt =====
-- The heap's theorems at a small heap.
use jmos.Prelude.{
  ℕ, ◌+◌, ◌-◌, ◌*◌, ◌%◌, ◌^◌, ◌≤◌, ◌<◌, ◌≡◌, refl, ◌⊎◌, true, not, ◌&&◌, List, [], ◌∷◌, some, arith,
  ◌==◌, if◌then◌else◌, inl, subst,
}
use jmos.Cstring.{Mem}
use jmos.Cstring.Block.{inside}
use jmos.Pmm.{bm_test}
use jmos.Pmm.Tests.{tiny, tiny-IsValid, third_used}
use jmos.Kalloc.{Kheap, header, free_insert, kmalloc, kcalloc, kfree, krealloc}
use jmos.Kalloc.Blocks.{Blocks}
use jmos.Kalloc.Insert.{Inserted, free_insert-Inserted}
use jmos.Kalloc.Grow.{IsHeap, frame_of}
use jmos.Kalloc.Live.{Live}
use jmos.Kalloc.Free.{Freed, kfree-Freed}
use jmos.Kalloc.Client.{Request, allocate, release, serve_all, serve_all-Live}
use jmos.Kalloc.Realloc.{kcalloc-kmalloc, Moved, krealloc-Moved}
use jmos.Kalloc.Edge.{kmalloc_wrapped}

-- One frame: a block of 32 bytes in use, and the rest of the frame free.
abbrev pub small_heap : Kheap
small_heap = record {
  free_head = 0x103030;
  size = λ a. if a == 0x103000 then 32 else if a == 0x103030 then 4032 else 0;
  next = λ _. 0;
  bytes = λ a. a % 256;
  hhdm_off = 0x100000;
  pmm = tiny;
}

abbrev pub free_blocks : Blocks
free_blocks = (0x103030, 4032) ∷ []

abbrev pub used_blocks : Blocks
used_blocks = (0x103000, 32) ∷ []

frame_three :
    (x : ℕ) → 0x103000 ≤ x → x < 0x104000 → bm_test tiny.bytes (frame_of small_heap x) ≡ true
frame_three x lo hi = subst (λ j. bm_test tiny.bytes j ≡ true) (omega arith) third_used

pub small-IsHeap : IsHeap small_heap free_blocks
small-IsHeap = record {
  chain = (refl, refl, refl);
  ordered = omega arith;
  frames = tiny-IsValid;
  mapped = omega arith;
  backed = λ x own.
      let range : (0x103000 ≤ x) × (x < 0x104000) = ground arith in
      (omega (arith, range), frame_three x range.0 range.1);
}

pub small-Live : Live small_heap free_blocks used_blocks
small-Live = (
  omega arith,
  refl,
  omega arith,
  (λ x w.
      let range : (0x103000 ≤ x) × (x < 0x103030) = ground arith in
      (ground arith, refl, omega (arith, range), frame_three x range.0 (omega (arith, range)))),
  tt,
)

free_insert-Inserted_example :
    (h' : Kheap) × (free_insert 9 0x103000 small_heap ≡ some h')
    × Inserted small_heap free_blocks 0x103000 32 h'
free_insert-Inserted_example =
    free_insert-Inserted 9 small_heap 0x103000 32 free_blocks (omega arith) refl (omega arith)
      small-IsHeap.chain small-IsHeap.ordered (λ x w. ground arith) (omega arith)

kmalloc_wrapped_example :
    (h' : Kheap) × (kmalloc 9 2 (2 ^ 64 - 1) small_heap ≡ some (0x103030 + header, h'))
    × (32 ≤ 4032 → h'.size 0x103030 ≡ 0)
kmalloc_wrapped_example =
    kmalloc_wrapped 9 2 small_heap 0x103030 4032 [] (2 ^ 64 - 1) small-IsHeap (omega arith)
      (omega arith) (omega arith) (omega arith)

kfree-Freed_example :
    (h' : Kheap) × (kfree 9 (0x103000 + header) small_heap ≡ some h')
    × Freed small_heap free_blocks used_blocks 0x103000 32 h'
kfree-Freed_example =
    kfree-Freed 9 small_heap free_blocks used_blocks 0x103000 32 small-IsHeap small-Live
      (inl (refl, refl)) (omega arith)

abbrev requests : List Request
requests = allocate 100 ∷ allocate 5000 ∷ release 1 ∷ allocate 24 ∷ []

serve_all-Live_example :
    (h' : Kheap) × (ls' : Blocks) × (bs' : Blocks) × (serve_all 9 requests small_heap used_blocks
      ≡ some (h', ls'))
    × IsHeap h' bs'
    × Live h' bs' ls'
serve_all-Live_example =
    serve_all-Live requests 9 small_heap free_blocks used_blocks small-IsHeap small-Live
      (omega arith) (omega arith)

kcalloc-kmalloc_example :
    (2 ^ 64 ≤ 7 * 20 → kcalloc 9 2 7 20 small_heap ≡ some (0, small_heap))
    × (7 * 20 < 2 ^ 64
        → (p : ℕ) → (h' : Kheap) → kmalloc 9 2 (7 * 20) small_heap ≡ some (p, h')
        → (m : Mem) × (kcalloc 9 2 7 20 small_heap ≡ some (p, record h' { bytes = m }))
          × ((x : ℕ) → m x ≡ (if not (p == 0) && inside p (7 * 20) x then 0 else h'.bytes x)))
kcalloc-kmalloc_example = kcalloc-kmalloc 9 2 7 20 small_heap (omega arith)

krealloc-Moved_example :
    (p : ℕ) × (h' : Kheap) × (krealloc 9 2 (0x103000 + header) 100 small_heap ≡ some (p, h'))
    × (((p ≡ 0x103000 + header) × (h' ≡ small_heap) × (100 ≤ 32))
        ⊎ (((p ≡ 0) × (h' ≡ small_heap))
            ⊎ Moved small_heap free_blocks used_blocks 0x103000 32 100 p h'))
krealloc-Moved_example =
    krealloc-Moved 9 2 small_heap free_blocks used_blocks 0x103000 32 100 small-IsHeap small-Live
      (inl (refl, refl)) (omega arith) (omega arith) (omega arith) (omega arith)
