-- ===== src/Kalloc/Edge.antt =====
-- The ends of the heap's life and of its sizes: `kheap_init`, and requests of almost 2^64 bytes.
use jmos.Prelude.{
  ℕ, zero, suc, ◌+◌, ◌-◌, ◌*◌, ◌^◌, ◌≤◌, ◌<◌, ◌≡◌, refl, ◌⊎◌, Bool, true, false, [], ◌∷◌, some,
  arith, inl, inr, ◌∙◌, subst, bit_and,
}
use jmos.Prelude.Bits.{bit_and_sixteen}
use jmos.Pmm.{page_size, bm_test}
use jmos.Pmm.Inv.{IsValid}
use jmos.Pmm.Run.{UsedIn}
use jmos.Kalloc.{
  Kheap, header, min_grow, align_size, find_fit, relink, take_block, kmalloc_loop, kmalloc,
  grow_frames, kheap_init,
}
use jmos.Kalloc.Blocks.{Blocks, within, owned}
use jmos.Kalloc.Grow.{IsHeap, heap_grow-Grown}

empty-IsHeap :
    (h : Kheap)
    → IsValid h.pmm
    → h.hhdm_off + h.pmm.frame_count * page_size < 2 ^ 64
    → IsHeap (record h { free_head = 0 }) []
empty-IsHeap h v mapped = record {
  chain = refl;
  ordered = tt;
  frames = v;
  mapped = mapped;
  backed = λ x own. absurd (ground (arith, own));
}

-- From a well-formed frame allocator whose frames the direct map reaches, `kheap_init` makes a
-- well-formed heap, whatever the list's head was: one whose free list owns exactly one fresh block of
-- at least 64 KiB; or an empty one, where there is no run of frames for it.
pub kheap_init-IsHeap :
    (g : ℕ) (h : Kheap)
    → IsValid h.pmm
    → h.hhdm_off + h.pmm.frame_count * page_size < 2 ^ 64
    → 0 < g
    → ((h' : Kheap) × (b : ℕ) × (n : ℕ) × (bs : Blocks) × (kheap_init g h ≡ some (true, h'))
        × IsHeap h' bs
        × (min_grow ≤ n)
        × ((x : ℕ) → owned bs x ≡ within b n x))
      ⊎ ((kheap_init g h ≡ some (false, record h { free_head = 0 }))
          × IsHeap (record h { free_head = 0 }) []
          × ((j : ℕ) → j + 17 ≤ h.pmm.frame_count → UsedIn h.pmm.bytes j 17))
unfolding kheap_init grow_frames
kheap_init-IsHeap g h v mapped fuel =
    let empty : IsHeap (record h { free_head = 0 }) [] = empty-IsHeap h v mapped in
    elim (heap_grow-Grown g (record h { free_head = 0 }) [] min_grow empty (omega arith) fuel) [
      | inl (h', e, gr) ↦ inl (h', gr.b, gr.n, gr.bs', e, gr.heap, gr.enough, gr.bytes)
      | inr (e, full) ↦ inr (e, empty, full)
    ]

-- `kheap_init` manages as many frames, of which the used ones stay used.
pub kheap_init-kept :
    (g : ℕ) (h : Kheap)
    → IsValid h.pmm
    → h.hhdm_off + h.pmm.frame_count * page_size < 2 ^ 64
    → 0 < g
    → (ok : Bool) × (h' : Kheap) × (bs : Blocks) × (kheap_init g h ≡ some (ok, h'))
      × IsHeap h' bs
      × (h'.pmm.frame_count ≡ h.pmm.frame_count)
      × ((j : ℕ) → bm_test h.pmm.bytes j ≡ true → bm_test h'.pmm.bytes j ≡ true)
unfolding kheap_init
kheap_init-kept g h v mapped fuel =
    let empty : IsHeap (record h { free_head = 0 }) [] = empty-IsHeap h v mapped in
    elim (heap_grow-Grown g (record h { free_head = 0 }) [] min_grow empty (omega arith) fuel) [
      | inl (h', e, gr) ↦ (true, h', gr.bs', e, gr.heap, gr.managed, gr.kept)
      | inr (e, full) ↦ (false, record h { free_head = 0 }, [], e, empty, refl, λ j u. u)
    ]

-- Rounding up a size above 2^64 - 16 wraps round to 0.
align_size_wrap : (v : ℕ) → 2 ^ 64 - 16 < v → v < 2 ^ 64 → align_size v ≡ 0
unfolding align_size
align_size_wrap v lo hi =
    let w : ℕ = v + 15 - 2 ^ 64 in
    subst (λ w. bit_and w (2 ^ 64 - 16) ≡ 0) (omega arith)
      (bit_and_sixteen w (omega arith) ∙ omega arith)

-- A request of more than 2^64 - 16 bytes is answered with the first free block, if there is one, and
-- where that has at least 32 bytes, the block that is given out has 0 bytes.
pub kmalloc_wrapped :
    (g f : ℕ) (h : Kheap) (b n : ℕ) (bs : Blocks) (size : ℕ)
    → IsHeap h ((b, n) ∷ bs)
    → 2 ^ 64 - 16 < size
    → size < 2 ^ 64
    → 0 < g
    → 0 < f
    → (h' : Kheap) × (kmalloc g f size h ≡ some (b + header, h')) × (32 ≤ n → h'.size b ≡ 0)
unfolding kmalloc kmalloc_loop find_fit take_block relink
kmalloc_wrapped zero f h b n bs size v lo hi g0 f0 = absurd (omega arith)
kmalloc_wrapped (suc g) zero h b n bs size v lo hi g0 f0 = absurd (omega arith)
kmalloc_wrapped (suc g) (suc f) h b n bs size v lo hi g0 f0 = (
  (take_block h 0 0 b).1,
  ground (arith, align_size_wrap size lo hi, v.chain, v.ordered.0),
  λ big. ground (arith, v.chain),
)
