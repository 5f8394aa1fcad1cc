-- ===== src/Kalloc/Grow.antt =====
-- `heap_grow`, and the heap's invariant over the frame allocator's.
use jmos.Prelude.{
  ℕ, suc, ◌+◌, ◌-◌, ◌*◌, ◌/◌, ◌^◌, ◌≤◌, ◌<◌, ◌≡◌, refl, ◌≢◌, ◌⊎◌, true, false, ◌||◌, [], ◌∷◌, some,
  arith, ltb, length, update, eq_or_ne, lt_or_le, Bool-cases, inl, inr, ◌∙◌, subst, sym, ap,
}
use jmos.Prelude.Words.{add64, sub64, mul64}
use jmos.Pmm.{Pmm, page_size, bm_test, alloc_frames}
use jmos.Pmm.Inv.{IsValid}
use jmos.Pmm.Run.{UsedIn}
use jmos.Pmm.Frames.{
  GrantedRun, alloc_frames-IsValid, alloc_frames_first_fit, alloc_frames-zero,
  frame_count-alloc_frames,
}
use jmos.Kalloc.{Kheap, header, min_grow, free_insert, grow_frames, heap_grow}
use jmos.Kalloc.Blocks.{Blocks, Chain, Ordered, within, owned, owned-below, Chain-same}
use jmos.Kalloc.Insert.{Foreign, Inserted, free_insert-Inserted}
use jmos.Kalloc.Take.{AllSmall}

-- The frame behind an address of the direct map.
abbrev pub frame_of : Kheap → ℕ → ℕ
frame_of h x = (x - h.hhdm_off) / page_size

-- The list of free blocks is well formed, the frame allocator is, the direct map of all frames fits
-- into the address space, and every free byte lies in a frame that the frame allocator has handed out.
pub record IsHeap (h : Kheap) (bs : Blocks) : Type 0 where
  pub chain : Chain h h.free_head bs
  pub ordered : Ordered 0 bs
  pub frames : IsValid h.pmm
  pub mapped : h.hhdm_off + h.pmm.frame_count * page_size < 2 ^ 64
  pub backed :
      (x : ℕ) → owned bs x ≡ true → (h.hhdm_off ≤ x) × (bm_test h.pmm.bytes (frame_of h x) ≡ true)

-- A run of owned bytes lies in one block.
pub run-fits :
    (lo : ℕ) (bs : Blocks) (size b n : ℕ)
    → Ordered lo bs
    → AllSmall size bs
    → size ≤ n
    → ((x : ℕ) → within b n x ≡ true → owned bs x ≡ true)
    → ⊥
run-fits lo [] size b n o small le own = absurd (cc (own b (ground arith)))
run-fits lo ((c, k) ∷ cs) size b n o small le own = elim (Bool-cases (within c k b)) [
  | inl here ↦
      ground (arith, own (c + header + k), owned-below (c + header + k) cs (c + header + k) o.2)
  | inr other ↦ elim (lt_or_le (c + header + k) b) [
    | inl past ↦ run-fits (c + header + k) cs size b n o.2 small.1 le λ x w. ground (arith, own x w)
    | inr low ↦ ground (arith, own b, owned-below (c + header + k) cs b o.2)
  ]
]

-- The frames that are asked for hold the block and its header.
grow_frames_lem :
    (need : ℕ)
    → need < 2 ^ 63
    → (need + header ≤ grow_frames need * page_size)
      × (grow_frames need * page_size < 2 ^ 64)
      × (1 ≤ grow_frames need)
unfolding grow_frames
grow_frames_lem need h = elim (Bool-cases (ltb (add64 need header) min_grow)) [
  | inl little ↦ rw little (ground arith)
  | inr much ↦ rw much (ground arith)
]

-- A block of enough bytes has joined the list, all of it in frames that were free; only bytes of the
-- list and of the block have other headers than before.
pub record Grown (h : Kheap) (bs : Blocks) (need : ℕ) (h' : Kheap) : Type 0 where
  pub bs' : Blocks
  pub b : ℕ
  pub n : ℕ
  pub heap : IsHeap h' bs'
  pub count : length bs' ≤ suc (length bs)
  pub enough : need ≤ n
  pub bytes : (x : ℕ) → owned bs' x ≡ (owned bs x || within b n x)
  pub fresh :
      (x : ℕ)
      → within b n x ≡ true
      → (h.hhdm_off ≤ x) × (bm_test h.pmm.bytes (frame_of h x) ≡ false)
  pub hhdm : h'.hhdm_off ≡ h.hhdm_off
  pub payload : h'.bytes ≡ h.bytes
  pub managed : h'.pmm.frame_count ≡ h.pmm.frame_count
  pub kept : (j : ℕ) → bm_test h.pmm.bytes j ≡ true → bm_test h'.pmm.bytes j ≡ true
  pub headers : (x : ℕ) → (owned bs x || within b n x) ≡ false → h'.size x ≡ h.size x

module _ (g : ℕ) (h : Kheap) (bs : Blocks) (need : ℕ) (v : IsHeap h bs) (small : need < 2 ^ 63)
    (fuel : length bs < g) where
  abbrev frames : ℕ
  frames = grow_frames need

  abbrev phys : ℕ
  phys = (alloc_frames frames h.pmm).0

  abbrev pmm' : Pmm
  pmm' = (alloc_frames frames h.pmm).1

  abbrev b : ℕ
  b = add64 phys h.hhdm_off

  abbrev n : ℕ
  n = sub64 (mul64 frames page_size) header

  abbrev fresh : Kheap
  fresh = record h { pmm = pmm'; size = update h.size b n }

  module _ (got : phys ≢ 0) where
    run : GrantedRun h.pmm frames phys pmm'
    run =
        alloc_frames_first_fit h.pmm frames v.frames (omega (arith, grow_frames_lem need small)) got

    place : (b ≡ h.hhdm_off + phys) × (n + header ≡ frames * page_size) × (b + header + n < 2 ^ 64)
    place = omega (arith, run.managed, run.aligned, v.mapped, grow_frames_lem need small)

    -- The frame of a byte of the new block.
    inside_run :
        (x : ℕ)
        → within b n x ≡ true
        → (h.hhdm_off ≤ x)
          × (phys / page_size ≤ frame_of h x)
          × (frame_of h x < phys / page_size + frames)
    inside_run x w =
        let w' : (b ≤ x) × (x < b + header + n) = ground arith in
        omega (arith, w', place, run.aligned)

    new_bytes :
        (x : ℕ)
        → within b n x ≡ true
        → (h.hhdm_off ≤ x) × (bm_test h.pmm.bytes (frame_of h x) ≡ false)
    new_bytes x w = let i = inside_run x w in (i.0, run.was_free (frame_of h x) i.1 i.2)

    foreign : Foreign bs b n
    foreign x w = elim (Bool-cases (owned bs x)) [
      | inl own ↦ absurd (cc ((v.backed x own).1, (new_bytes x w).1))
      | inr out ↦ out
    ]

    fresh-Chain : Chain fresh h.free_head bs
    fresh-Chain =
        Chain-same h fresh 0 h.free_head bs v.ordered
          (λ x own. (ground (arith, own, foreign b), refl)) v.chain

    kept : (j : ℕ) → bm_test h.pmm.bytes j ≡ true → bm_test pmm'.bytes j ≡ true
    kept j used = ground (arith, run.bits j)

    inserted : (h' : Kheap) × (free_insert g b fresh ≡ some h') × Inserted fresh bs b n h'
    inserted =
        free_insert-Inserted g fresh b n bs (omega (arith, place, got)) (ground arith) place.2
          fresh-Chain v.ordered foreign fuel

    abbrev h' : Kheap
    h' = inserted.0

    abbrev i : Inserted fresh bs b n h'
    i = inserted.2

    managed : h.hhdm_off + pmm'.frame_count * page_size < 2 ^ 64
    managed =
        subst (λ c. h.hhdm_off + c * page_size < 2 ^ 64)
          (sym (
            frame_count-alloc_frames h.pmm frames v.frames
              (omega (arith, grow_frames_lem need small))))
          v.mapped

    now_backed :
        (x : ℕ)
        → owned i.bs' x ≡ true
        → (h.hhdm_off ≤ x) × (bm_test pmm'.bytes (frame_of h x) ≡ true)
    now_backed x own = elim (Bool-cases (owned bs x)) [
      | inl old ↦ ((v.backed x old).0, kept (frame_of h x) (v.backed x old).1)
      | inr other ↦
          let w : within b n x ≡ true = ground (arith, i.bytes x) in
          let r = inside_run x w in (r.0, ground (arith, run.bits (frame_of h x), r))
    ]

    grown-IsHeap : IsHeap h' i.bs'
    grown-IsHeap = record {
      chain = i.chain;
      ordered = i.ordered;
      frames =
          subst (λ q. IsValid q) (sym i.untouched.pmm) (alloc_frames-IsValid h.pmm frames v.frames);
      mapped =
          subst (λ q. h'.hhdm_off + q.frame_count * page_size < 2 ^ 64) (sym i.untouched.pmm)
            (subst (λ o. o + pmm'.frame_count * page_size < 2 ^ 64) (sym i.untouched.hhdm) managed);
      backed = λ x own. ground (arith, now_backed x own, i.untouched.pmm, i.untouched.hhdm);
    }

    grown : Grown h bs need h'
    grown = record {
      bs' = i.bs';
      b = b;
      n = n;
      heap = grown-IsHeap;
      count = i.count;
      enough = omega (arith, place, grow_frames_lem need small);
      bytes = i.bytes;
      fresh = new_bytes;
      hhdm = i.untouched.hhdm;
      payload = i.untouched.payload;
      managed =
          ap (λ q. q.frame_count) i.untouched.pmm
          ∙ frame_count-alloc_frames h.pmm frames v.frames
              (omega (arith, grow_frames_lem need small));
      kept = λ j e. ap (λ q. bm_test q.bytes j) i.untouched.pmm ∙ kept j e;
      headers = λ x out. (i.untouched.headers x out).0 ∙ ground (arith, out);
    }

    grows : heap_grow g need h ≡ some (true, h')
    unfolding heap_grow
    grows = ground (arith, got, inserted.1)

  stays : phys ≡ 0 → heap_grow g need h ≡ some (false, h)
  unfolding heap_grow
  stays e = ground (
    arith,
    e,
    (alloc_frames-zero h.pmm frames v.frames (omega (arith, grow_frames_lem need small))).1 e,
  )

pub heap_grow-Grown :
    (g : ℕ) (h : Kheap) (bs : Blocks) (need : ℕ)
    → IsHeap h bs
    → need < 2 ^ 63
    → length bs < g
    → ((h' : Kheap) × (heap_grow g need h ≡ some (true, h')) × Grown h bs need h')
      ⊎ ((heap_grow g need h ≡ some (false, h))
          × ((j : ℕ)
              → j + grow_frames need ≤ h.pmm.frame_count
              → UsedIn h.pmm.bytes j (grow_frames need)))
heap_grow-Grown g h bs need v small fuel = elim (eq_or_ne (phys g h bs need v small fuel) 0) [
  | inl e ↦ inr (
    stays g h bs need v small fuel e,
    (alloc_frames-zero h.pmm (grow_frames need) v.frames
          (omega (arith, grow_frames_lem need small))).0.0
        e,
  )
  | inr got ↦ inl (
    h' g h bs need v small fuel got,
    grows g h bs need v small fuel got,
    grown g h bs need v small fuel got,
  )
]
