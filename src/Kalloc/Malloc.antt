-- ===== src/Kalloc/Malloc.antt =====
-- `kmalloc`: the block that it gives out, and when it answers NULL.
use jmos.Prelude.{
  ℕ, zero, suc, ◌+◌, ◌-◌, ◌*◌, ◌/◌, ◌^◌, bit_and, ◌≤◌, ◌<◌, ◌≡◌, refl, ◌⊎◌, Bool, true, false, some,
  arith, length, Bool-cases, inl, inr, ◌∙◌, subst, sym,
}
use jmos.Prelude.Bits.{bit_and_sixteen}
use jmos.Pmm.{bm_test}
use jmos.Pmm.Inv.{IsValid}
use jmos.Pmm.Run.{UsedIn}
use jmos.Kalloc.{Kheap, header, align_size, grow_frames, take_block, kmalloc_loop, kmalloc}
use jmos.Kalloc.Blocks.{Blocks, within, owned}
use jmos.Kalloc.Take.{AllSmall, Taken, find_fit-Taken}
use jmos.Kalloc.Grow.{IsHeap, frame_of, run-fits, Grown, heap_grow-Grown}

-- Rounding up to the heap's alignment, for sizes that do not wrap.
pub align_size_up : (v : ℕ) → v + 15 < 2 ^ 64 → align_size v ≡ (v + 15) / 16 * 16
unfolding align_size
align_size_up v h =
    subst (λ w. bit_and w (2 ^ 64 - 16) ≡ (v + 15) / 16 * 16) (omega arith)
      (bit_and_sixteen (v + 15) h)

-- What the caller gets: `p` is the payload of a block of at least `size` bytes, header included taken
-- out of the free blocks or out of frames that were free.
pub record Allocated (h : Kheap) (bs : Blocks) (size p : ℕ) (h' : Kheap) : Type 0 where
  pub bs' : Blocks
  pub heap : IsHeap h' bs'
  pub count : length bs' ≤ suc (length bs)
  pub behind_header : header < p
  pub enough : size ≤ h'.size (p - header)
  pub in_range : p + h'.size (p - header) < 2 ^ 64
  pub source :
      (x : ℕ)
      → within (p - header) (h'.size (p - header)) x ≡ true
      → (h.hhdm_off ≤ x) × ((owned bs x ≡ true) ⊎ (bm_test h.pmm.bytes (frame_of h x) ≡ false))
  pub given :
      (x : ℕ)
      → within (p - header) (h'.size (p - header)) x ≡ true
      → (owned bs' x ≡ false) × (bm_test h'.pmm.bytes (frame_of h' x) ≡ true)
  pub others :
      (x : ℕ)
      → owned bs x ≡ false
      → bm_test h.pmm.bytes (frame_of h x) ≡ true
      → (owned bs' x ≡ false) × (h'.size x ≡ h.size x)
  pub rest :
      (x : ℕ)
      → owned bs x ≡ true
      → within (p - header) (h'.size (p - header)) x ≡ false
      → owned bs' x ≡ true
  pub hhdm : h'.hhdm_off ≡ h.hhdm_off
  pub kept : (j : ℕ) → bm_test h.pmm.bytes j ≡ true → bm_test h'.pmm.bytes j ≡ true
  pub payload : h'.bytes ≡ h.bytes

-- A block that is cut out of a well-formed heap.
module _ (h : Kheap) (bs : Blocks) (size b : ℕ) (h' : Kheap) (v : IsHeap h bs) (pos : 0 < b)
    (t : Taken 0 h 0 bs size b h') where
  abbrev block : ℕ → Bool
  block x = within b t.cut.given x

  still_backed :
      (x : ℕ)
      → owned t.bs' x ≡ true
      → (h.hhdm_off ≤ x) × (bm_test h.pmm.bytes (frame_of h x) ≡ true)
  still_backed x own = v.backed x (ground (arith, t.cut.bytes x))

  taken-IsHeap : IsHeap h' t.bs'
  taken-IsHeap = record {
    chain = t.chain;
    ordered = t.cut.ordered;
    frames = subst (λ q. IsValid q) (sym t.untouched.pmm) v.frames;
    mapped = ground (arith, v.mapped, t.untouched.pmm, t.untouched.hhdm);
    backed = λ x own. ground (arith, still_backed x own, t.untouched.pmm, t.untouched.hhdm);
  }

  taken-Allocated : Allocated h bs size (b + header) h'
  taken-Allocated = record {
    bs' = t.bs';
    heap = taken-IsHeap;
    count = omega (arith, t.cut.count);
    behind_header = omega arith;
    enough = ground (arith, t.cut.header_size, t.cut.enough);
    in_range = ground (arith, t.cut.header_size, t.cut.room);
    source = λ x w. source x (ground (arith, t.cut.header_size));
    given = λ x w. given x (ground (arith, t.cut.header_size));
    others = λ x out used. (ground (arith, t.cut.bytes x), others x out);
    rest = λ x own out. rest x own (ground (arith, out, t.cut.header_size));
    hhdm = t.untouched.hhdm;
    kept = λ j used. ground (arith, t.untouched.pmm);
    payload = t.untouched.payload;
  }
    where
      source :
          (x : ℕ)
          → within b t.cut.given x ≡ true
          → (h.hhdm_off ≤ x) × ((owned bs x ≡ true) ⊎ (bm_test h.pmm.bytes (frame_of h x) ≡ false))
      source x w = let own = t.cut.taken x w in ((v.backed x own).0, inl own)

      given :
          (x : ℕ)
          → within b t.cut.given x ≡ true
          → (owned t.bs' x ≡ false) × (bm_test h'.pmm.bytes (frame_of h' x) ≡ true)
      given x w =
          let own = v.backed x (t.cut.taken x w) in
          (ground (arith, t.cut.bytes x), ground (arith, own, t.untouched.pmm, t.untouched.hhdm))

      rest : (x : ℕ) → owned bs x ≡ true → within b t.cut.given x ≡ false → owned t.bs' x ≡ true
      rest x own out = ground (arith, t.cut.bytes x, own, out)

      others : (x : ℕ) → owned bs x ≡ false → h'.size x ≡ h.size x
      others zero out = t.size_kept
      others (suc x) out = (t.untouched.headers (suc x) (ground arith)).0

-- The same after the heap has grown: what the grown heap gives out, the heap before it had or got.
grown-Allocated :
    (h : Kheap) (bs : Blocks) (need size b : ℕ) (h1 h' : Kheap) (gr : Grown h bs need h1)
    → 0 < b
    → Taken 0 h1 0 gr.bs' size b h'
    → Allocated h bs size (b + header) h'
unfolding taken-Allocated
grown-Allocated h bs need size b h1 h' gr pos t =
    let a = taken-Allocated h1 gr.bs' size b h' gr.heap pos t in
    record {
      bs' = t.bs';
      heap = taken-IsHeap h1 gr.bs' size b h' gr.heap pos t;
      count = omega (arith, t.cut.count, gr.count);
      behind_header = a.behind_header;
      enough = a.enough;
      in_range = a.in_range;
      source = λ x w. source x (ground (arith, t.cut.header_size, t.cut.taken x));
      given = a.given;
      others = λ x out used.
          let quiet = apart x out used in
          let now =
            a.others x (ground (arith, gr.bytes x))
              (ground (arith, gr.kept (frame_of h x) used, gr.hhdm)) in
          (now.0, now.1 ∙ gr.headers x (ground arith));
      rest = λ x own out. a.rest x (ground (arith, gr.bytes x, own)) out;
      hhdm = a.hhdm ∙ gr.hhdm;
      kept = λ j used. a.kept j (gr.kept j used);
      payload = a.payload ∙ gr.payload;
    }
  where
    apart :
        (x : ℕ)
        → owned bs x ≡ false
        → bm_test h.pmm.bytes (frame_of h x) ≡ true
        → within gr.b gr.n x ≡ false
    apart x out used = elim (Bool-cases (within gr.b gr.n x)) [
      | inl w ↦ absurd (cc (used, (gr.fresh x w).1))
      | inr away ↦ away
    ]

    source :
        (x : ℕ)
        → owned gr.bs' x ≡ true
        → (h.hhdm_off ≤ x) × ((owned bs x ≡ true) ⊎ (bm_test h.pmm.bytes (frame_of h x) ≡ false))
    source x own = elim (Bool-cases (within gr.b gr.n x)) [
      | inl w ↦ ((gr.fresh x w).0, inr (gr.fresh x w).1)
      | inr out ↦
          let old : owned bs x ≡ true = ground (arith, gr.bytes x) in
          (ground (arith, (gr.heap.backed x own).0, gr.hhdm), inl old)
    ]

-- What `kmalloc` promises, for a size that is rounded up already: a block of at least that many bytes;
-- or NULL, with nothing changed, where no free block is big enough and no run of frames is left.
abbrev pub Answer : Kheap → Blocks → ℕ → ℕ → Kheap → Type 0
Answer h bs size p h' =
    Allocated h bs size p h'
    ⊎ ((p ≡ 0)
        × (h' ≡ h)
        × AllSmall size bs
        × ((j : ℕ)
            → j + grow_frames size ≤ h.pmm.frame_count
            → UsedIn h.pmm.bytes j (grow_frames size)))

kmalloc_loop-Answer :
    (g f : ℕ) (h : Kheap) (bs : Blocks) (size : ℕ)
    → IsHeap h bs
    → size < 2 ^ 63
    → suc (length bs) < g
    → 2 ≤ f
    → (p : ℕ) × (h' : Kheap) × (kmalloc_loop g f size h ≡ some (p, h')) × Answer h bs size p h'
unfolding kmalloc_loop
kmalloc_loop-Answer g zero h bs size v small fuel two = absurd (omega arith)
kmalloc_loop-Answer g (suc zero) h bs size v small fuel two = absurd (omega arith)
kmalloc_loop-Answer g (suc (suc f)) h bs size v small fuel two =
    elim (find_fit-Taken g 0 h size 0 h.free_head bs (omega arith) (omega arith) refl v.chain
      v.ordered (omega arith)) [
        | inr (a, b, e, pos, t) ↦
            let h' = (take_block h size a b).1 in
            (
              b + header,
              h',
              unfold take_block in ground (arith, e),
              inl (taken-Allocated h bs size b h' v pos t),
            )
        | inl (gone, small_ones) ↦ elim (heap_grow-Grown g h bs size v small (omega arith)) [
          | inr (e, all) ↦ (0, h, ground (arith, gone, e), inr (refl, refl, small_ones, all))
          | inl (h1, e, gr) ↦
              elim (find_fit-Taken g 0 h1 size 0 h1.free_head gr.bs' (omega arith) (omega arith)
                refl gr.heap.chain gr.heap.ordered (omega (arith, gr.count))) [
                  | inl (gone1, small1) ↦ absurd (
                      run-fits 0 gr.bs' size gr.b gr.n gr.heap.ordered small1 gr.enough
                        (λ x w. ground (arith, gr.bytes x)))
                  | inr (a, b, e1, pos, t) ↦
                      let h' = (take_block h1 size a b).1 in
                      (
                        b + header,
                        h',
                        unfold take_block in ground (arith, gone, e, e1),
                        inl (grown-Allocated h bs size size b h1 h' gr pos t),
                      )
                ]
        ]
      ]

pub kmalloc-zero : (g f : ℕ) (h : Kheap) → kmalloc g f 0 h ≡ some (0, h)
unfolding kmalloc
kmalloc-zero g f h = refl

pub kmalloc-Answer :
    (g f : ℕ) (h : Kheap) (bs : Blocks) (size : ℕ)
    → IsHeap h bs
    → 0 < size
    → size ≤ 2 ^ 62
    → suc (length bs) < g
    → 2 ≤ f
    → (p : ℕ) × (h' : Kheap) × (kmalloc g f size h ≡ some (p, h'))
      × Answer h bs ((size + 15) / 16 * 16) p h'
unfolding kmalloc
kmalloc-Answer g f h bs size v pos big fuel two =
    let (p, h', e, a) =
      kmalloc_loop-Answer g f h bs ((size + 15) / 16 * 16) v (omega arith) fuel two in
    (p, h', ground (arith, align_size_up size (omega arith), e), a)
