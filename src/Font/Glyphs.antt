-- ===== src/Font/Glyphs.antt =====
-- `load_glyphs` over a well-formed heap.
use jmos.Prelude.{
  Bool, ◌||◌, ℕ, suc, ◌+◌, ◌-◌, ◌*◌, ◌/◌, ◌%◌, ◌^◌, ◌≤◌, ◌<◌, ◌≡◌, refl, ◌≢◌, ◌⊎◌, inl, inr, true,
  false, ◌∷◌, Option, none, some, ◌==◌, leb, arith, if◌then◌else◌, length, ap, ◌∙◌, sym, subst,
  eq_or_ne, lt_or_le, Bool-cases,
}
use native.Mathlib.Nat.{mul-le-mul_right, suc-mul}
use jmos.Prelude.Words.{add64}
use jmos.Pmm.{bm_test}
use jmos.Cstring.{Mem, memcpy}
use jmos.Cstring.Block.{memcpy_lem, inside}
use jmos.Kalloc.{Kheap, header, kmalloc, kfree}
use jmos.Kalloc.Blocks.{Blocks, within, owned}
use jmos.Kalloc.Grow.{IsHeap, frame_of}
use jmos.Kalloc.Malloc.{Allocated, kmalloc-Answer, kmalloc-zero}
use jmos.Kalloc.Live.{Live, without, Allocated-Live}
use jmos.Kalloc.Free.{kfree-Freed}
use jmos.Kalloc.Realloc.{payload-IsHeap, payload-Live}
use jmos.Font.{
  enomem, einval, psf2_magic, Psf2Header, FontState, psf2_get_bitmap_for_glyph, give_up,
  keep_glyphs, load_glyphs,
}

-- An address that the heap does not give out.
abbrev pub Spared : Kheap → Blocks → ℕ → Type 0
Spared h bs a =
    (a < h.hhdm_off) ⊎ (owned bs a ≡ false) × (bm_test h.pmm.bytes (frame_of h a) ≡ true)

abbrev pub glyph_bytes : Psf2Header → ℕ
glyph_bytes r = r.numglyph * r.bytesperglyph

-- The font is there: its header and its glyphs are the file's, in two blocks of the heap.
pub record Loaded (raw : Psf2Header) (memory : Mem) (font_data : ℕ) (ls : Blocks) (s' : FontState)
    : Type 0 where
  pub bs' : Blocks
  pub heap : IsHeap s'.heap bs'
  pub m : ℕ
  pub n : ℕ
  pub live :
      Live s'.heap bs' ((s'.font.glyph_buffer - header, m) ∷ (s'.font.data_at - header, n) ∷ ls)
  pub copied : s'.headers s'.font.data_at ≡ raw
  pub methods : s'.font.methods ≡ true
  pub glyphs :
      (c i : ℕ)
      → c < raw.numglyph
      → i < raw.bytesperglyph
      → s'.heap.bytes (psf2_get_bitmap_for_glyph s' c + i)
        ≡ memory (font_data + raw.headersize + c * raw.bytesperglyph + i)

-- The font is not there, and neither is a block for it: the bytes for which `f` holds are free.
pub record Refused (f : ℕ → Bool) (ls : Blocks) (s' : FontState) : Type 0 where
  pub bs' : Blocks
  pub heap : IsHeap s'.heap bs'
  pub live : Live s'.heap bs' ls
  pub free : (x : ℕ) → f x ≡ true → owned bs' x ≡ true

pub Refused-fewer :
    {f f' : ℕ → Bool} {ls : Blocks} {s' : FontState}
    → ((x : ℕ) → f' x ≡ true → f x ≡ true)
    → Refused f ls s'
    → Refused f' ls s'
Refused-fewer less w = record {
  bs' = w.bs';
  heap = w.heap;
  live = w.live;
  free = λ x e. w.free x (less x e);
}

-- The bytes that are free once the block at `b` is.
abbrev pub with_block : Blocks → ℕ → ℕ → ℕ → Bool
with_block bs b n x = owned bs x || within b n x

abbrev pub Outcome : FontState → ℕ → Blocks → Blocks → Option (ℕ × FontState) → Type 0
Outcome s font_data bs ls o =
    (s' : FontState) × ((o ≡ some (0, s'))
        × ((s.headers font_data).magic ≡ psf2_magic)
        × Loaded (s.headers font_data) s.heap.bytes font_data ls s'
      ⊎ (o ≡ some (enomem, s')) × Refused (owned bs) ls s'
      ⊎ (o ≡ some (einval, s'))
        × ((s.headers font_data).magic ≢ psf2_magic)
        × Refused (owned bs) ls s')

pub give_up-Refused :
    (g psf2 errno n : ℕ) (s : FontState) (bs ls : Blocks)
    → IsHeap s.heap bs
    → header < psf2
    → Live s.heap bs ((psf2 - header, n) ∷ ls)
    → length bs < g
    → (s' : FontState) × (give_up g psf2 errno s ≡ some (errno, s'))
      × Refused (with_block bs (psf2 - header) n) ls s'
give_up-Refused g psf2 errno n s bs ls v behind l fuel =
    let (h, e, fr) =
      kfree-Freed g s.heap bs ((psf2 - header, n) ∷ ls) (psf2 - header) n v l (inl (refl, refl))
        fuel in
    let back : psf2 - header + header ≡ psf2 = omega (arith, behind) in
    let only : without ((psf2 - header, n) ∷ ls) (psf2 - header) ≡ ls = ground arith in
    (
      record s { heap = h },
      ap (λ o. elim o [ none ↦ none | some h ↦ some (errno, record s { heap = h }) ])
          (ap (λ q. kfree g q s.heap) (sym back) ∙ e),
      record {
        bs' = fr.bs';
        heap = fr.heap;
        live = subst (Live h fr.bs') only fr.live;
        free = λ x i. fr.bytes x ∙ i;
      },
    )

pub pair_eq : {q q' : ℕ} {h h' : Kheap} → q ≡ q' → h ≡ h' → ◌≡◌ {A = ℕ × Kheap} (q, h) (q', h')
pair_eq a b = λ i. (a i, b i)

-- Two blocks without a common address lie one behind the other.
apart_blocks :
    (d e n : ℕ)
    → 0 < n
    → ((x : ℕ) → inside d n x ≡ true → inside e n x ≡ false)
    → (d + n ≤ e) ⊎ (e + n ≤ d)
apart_blocks d e n pos h = elim (lt_or_le e (d + n)) [
  | inl l ↦ elim (lt_or_le d (e + n)) [
    | inl k ↦ absurd (ground (arith, h d, h e, pos, l, k))
    | inr k ↦ inr k
  ]
  | inr l ↦ inl l
]

module _ (g f p fd n : ℕ) (s : FontState) (bs ls : Blocks) (v : IsHeap s.heap bs)
    (behind : header < p) (l : Live s.heap bs ((p - header, n) ∷ ls)) (fuel : suc (length bs) < g)
    (two : 2 ≤ f) (fits : glyph_bytes (s.headers p) < 2 ^ 32)
    (room : fd + (s.headers p).headersize + glyph_bytes (s.headers p) < 2 ^ 64)
    (spared : (a : ℕ)
      → inside (fd + (s.headers p).headersize) (glyph_bytes (s.headers p)) a ≡ true
      → Spared s.heap bs a) where
  abbrev r : Psf2Header
  r = s.headers p

  abbrev size : ℕ
  size = glyph_bytes r

  abbrev src : ℕ
  src = fd + r.headersize

  abbrev finish : Option (ℕ × Kheap) → Option (ℕ × FontState)
  finish o = elim o [ none ↦ none | some q ↦ keep_glyphs g p src size s q ]

  load_glyphs-finish : load_glyphs g f p fd s ≡ finish (kmalloc g f size s.heap)
  unfolding load_glyphs
  load_glyphs-finish =
      let whole : r.numglyph * r.bytesperglyph % 2 ^ 32 ≡ size = omega (arith, fits) in
      let start : add64 fd r.headersize ≡ src = omega (arith, room) in
      ap
        (λ z. elim (kmalloc g f z s.heap) [
          | none ↦ none
          | some q ↦ keep_glyphs g p (add64 fd r.headersize) z s q
        ])
        whole
      ∙ ap
          (λ a. elim (kmalloc g f size s.heap) [
            | none ↦ none
            | some q ↦ keep_glyphs g p a size s q
          ])
          start

  abbrev Result : Option (ℕ × FontState) → Type 0
  Result o =
      (s' : FontState) × ((o ≡ some (0, s')) × Loaded r s.heap.bytes fd ls s'
        ⊎ (o ≡ some (enomem, s')) × Refused (with_block bs (p - header) n) ls s')

  -- No memory for the glyphs.
  no_glyphs : Result (finish (some (0, s.heap)))
  unfolding keep_glyphs
  no_glyphs =
      let (s', e, w) =
        give_up-Refused g p enomem n (record s { font = record s.font { glyph_buffer = 0 } }) bs ls
          v behind l (omega (arith, fuel)) in
      (s', inr (e, w))

  module _ (q : ℕ) (h : Kheap) (pos : 0 < size)
      (a : Allocated s.heap bs ((size + 15) / 16 * 16) q h) where
    away : (x : ℕ) → inside q size x ≡ true → inside src size x ≡ false
    away x w = elim (Bool-cases (inside src size x)) [
      | inl file ↦
          let mine : within (q - header) (h.size (q - header)) x ≡ true =
            ground (arith, w, a.enough, a.behind_header) in
          let from = a.source x mine in
          elim (spared x file) [
            | inl low ↦ absurd (omega (arith, low, from.0))
            | inr out ↦ elim from.1 [
              | inl free ↦ absurd (cc (free, out.0))
              | inr free ↦ absurd (cc (free, out.1))
            ]
          ]
      | inr no_file ↦ no_file
    ]

    -- The glyphs' block lies apart from the file.
    apart : (q + size ≤ src) ⊎ (src + size ≤ q)
    apart = apart_blocks q src size pos away

    abbrev copied : FontState
    copied = record s {
      heap = record h { bytes = (memcpy h.bytes q src size).1 };
      font = record { data_at = p; glyph_buffer = q; methods = true };
    }

    finish-copied : finish (some (q, h)) ≡ some (0, copied)
    unfolding keep_glyphs
    finish-copied =
        let got : (q == 0) ≡ false = ground (arith, a.behind_header) in rw (keep_glyphs, got) refl

    glyph_at : (c i : ℕ) → c < r.numglyph → i < r.bytesperglyph → c * r.bytesperglyph + i < size
    glyph_at c i lc li =
        omega (arith, li, mul-le-mul_right r.bytesperglyph lc, suc-mul c r.bytesperglyph)

    glyph_copied :
        (c i : ℕ)
        → c < r.numglyph
        → i < r.bytesperglyph
        → copied.heap.bytes (psf2_get_bitmap_for_glyph copied c + i)
          ≡ s.heap.bytes (src + c * r.bytesperglyph + i)
    unfolding psf2_get_bitmap_for_glyph
    glyph_copied c i lc li =
        let lt = glyph_at c i lc li in
        let known : leb r.numglyph c ≡ false = ground (arith, lc) in
        let place : add64 q (c * r.bytesperglyph % 2 ^ 32) ≡ q + c * r.bytesperglyph =
          omega (arith, lt, fits, a.in_range, a.enough) in
        let x : ℕ = q + c * r.bytesperglyph + i in
        let mine : inside q size x ≡ true = ground (arith, lt) in
        let copy = (memcpy_lem h.bytes q src size x apart).1 in
        rw (known, place)
          (copy
            ∙ ap (λ b. if b then h.bytes (src + (x - q)) else h.bytes x) mine
            ∙ ap h.bytes (omega arith)
            ∙ ap (λ b. b (src + c * r.bytesperglyph + i)) a.payload)

    copied-Loaded : Loaded r s.heap.bytes fd ls copied
    unfolding psf2_get_bitmap_for_glyph
    copied-Loaded = record {
      bs' = a.bs';
      heap = payload-IsHeap h a.bs' (memcpy h.bytes q src size).1 a.heap;
      m = h.size (q - header);
      n = n;
      live =
          payload-Live h a.bs' ((q - header, h.size (q - header)) ∷ (p - header, n) ∷ ls)
            (memcpy h.bytes q src size).1
            (Allocated-Live s.heap bs ((p - header, n) ∷ ls) _ q h a l);
      copied = refl;
      methods = refl;
      glyphs = glyph_copied;
    }

  pub load_glyphs-Result : Result (load_glyphs g f p fd s)
  unfolding keep_glyphs
  load_glyphs-Result = subst Result (sym load_glyphs-finish) (elim (eq_or_ne size 0) [
    | inl z ↦
        subst (λ o. Result (finish o))
          (sym (ap (λ w. kmalloc g f w s.heap) z ∙ kmalloc-zero g f s.heap)) no_glyphs
    | inr nz ↦
        let (q, h, e, answer) =
          kmalloc-Answer g f s.heap bs size v (omega (arith, nz)) (omega (arith, fits)) fuel two in
        subst (λ o. Result (finish o)) (sym e)
          (elim answer [
            | inl a ↦ (
              copied q h (omega (arith, nz)) a,
              inl (
                finish-copied q h (omega (arith, nz)) a,
                copied-Loaded q h (omega (arith, nz)) a,
              ),
            )
            | inr full ↦
                subst (λ k. Result (finish (some k))) (pair_eq (sym full.0) (sym full.1)) no_glyphs
          ])
  ])
