-- ===== src/Kalloc/Realloc.antt =====
-- `kcalloc` and `krealloc`, which write payload bytes.
use jmos.Prelude.{
  ℕ, zero, suc, ◌+◌, ◌-◌, ◌*◌, ◌/◌, ◌^◌, ◌≤◌, ◌<◌, ◌≡◌, refl, ◌⊎◌, Bool, true, false, not, ◌&&◌,
  ◌∷◌, some, arith, ltb, ◌==◌, if◌then◌else◌, length, lt_or_le, Bool-cases, inl, inr, subst, ne→==,
}
use jmos.Prelude.Words.{u64_mod}
use native.Mathlib.Nat.{le-div_iff_mul-le}
use jmos.Cstring.{Mem, memset, memcpy}
use jmos.Cstring.Block.{inside, memset_lem, memcpy_lem}
use jmos.Kalloc.{Kheap, header, kmalloc, kcalloc, move_block, krealloc}
use jmos.Kalloc.Blocks.{owned, Blocks, Chain-same, within}
use jmos.Kalloc.Grow.{IsHeap}
use jmos.Kalloc.Malloc.{Allocated, kmalloc-Answer, align_size_up}
use jmos.Kalloc.Live.{
  Live, Live-used, Live-kept, Listed, Listed-owned, without, Listed-Live, Allocated-Live,
}
use jmos.Kalloc.Free.{kfree-Freed}

-- The test of `kcalloc` is exact.
abbrev too_big : ℕ → ℕ → Bool
too_big n size = not (n == 0) && ltb ((u64_mod - 1) / n) size

test_over : (n size : ℕ) → 2 ^ 64 ≤ n * size → too_big n size ≡ true
test_over zero size over = absurd (omega arith)
test_over (suc n) size over =
    let iff = le-div_iff_mul-le {k = suc n} {x = size} {y = u64_mod - 1} (omega arith) in
    elim (lt_or_le ((u64_mod - 1) / suc n) size) [
      | inl lt ↦ ground arith
      | inr le ↦ ground (arith, iff.0 le)
    ]

test_fits : (n size : ℕ) → n * size < 2 ^ 64 → too_big n size ≡ false
test_fits zero size fits = refl
test_fits (suc n) size fits =
    let iff = le-div_iff_mul-le {k = suc n} {x = size} {y = u64_mod - 1} (omega arith) in
    ground (arith, iff.1 (omega arith))

-- Whether the product fits or not, `kcalloc` is `kmalloc` of it with the payload set to zero: NULL and
-- nothing done where `n * size` is not below 2^64; else the answer of `kmalloc`, and where that is not
-- NULL, exactly the `n * size` bytes behind the pointer become zero.
pub kcalloc-kmalloc :
    (g f n size : ℕ) (h : Kheap)
    → size < 2 ^ 64
    → (2 ^ 64 ≤ n * size → kcalloc g f n size h ≡ some (0, h))
      × (n * size < 2 ^ 64
          → (p : ℕ) → (h' : Kheap) → kmalloc g f (n * size) h ≡ some (p, h')
          → (m : Mem) × (kcalloc g f n size h ≡ some (p, record h' { bytes = m }))
            × ((x : ℕ) → m x ≡ (if not (p == 0) && inside p (n * size) x then 0 else h'.bytes x)))
unfolding kcalloc
kcalloc-kmalloc g f n size h small = (
  (λ over. rw (test_over n size over) refl),
  (λ fits p h' e. (
    (if p == 0 then h'.bytes else (memset h'.bytes p 0 (n * size)).1),
    ground (arith, test_fits n size fits, e),
    λ x. ground (arith, memset_lem h'.bytes p 0 (n * size) x),
  )),
)

-- Payload bytes have no part in the free list or in the blocks in use.
pub payload-IsHeap :
    (h : Kheap) (bs : Blocks) (m : Mem) → IsHeap h bs → IsHeap (record h { bytes = m }) bs
payload-IsHeap h bs m v = record {
  chain =
      Chain-same h (record h { bytes = m }) 0 h.free_head bs v.ordered (λ x own. (refl, refl))
        v.chain;
  ordered = v.ordered;
  frames = v.frames;
  mapped = v.mapped;
  backed = v.backed;
}

pub payload-Live :
    (h : Kheap) (bs ls : Blocks) (m : Mem) → Live h bs ls → Live (record h { bytes = m }) bs ls
payload-Live h bs ls m l =
    Live-kept h (record h { bytes = m }) bs bs ls refl (λ j e. e)
      (λ x own. ((Live-used h bs ls x l own).0, refl)) l

-- The block has moved: another one of at least `size` bytes is in use for it, which starts with the
-- old payload.
pub record Moved (h : Kheap) (bs ls : Blocks) (b n size p : ℕ) (h' : Kheap) : Type 0 where
  pub bs' : Blocks
  pub k : ℕ
  pub heap : IsHeap h' bs'
  pub live : Live h' bs' ((p - header, k) ∷ without ls b)
  pub enough : size ≤ k
  pub contents : (i : ℕ) → i < n → i < size → h'.bytes (p + i) ≡ h.bytes (b + header + i)
  pub released : (x : ℕ) → within b n x ≡ true → owned bs' x ≡ true
  pub rest : (x : ℕ) → owned bs x ≡ true → within (p - header) k x ≡ false → owned bs' x ≡ true
  pub elsewhere : (x : ℕ) → inside p size x ≡ false → h'.bytes x ≡ h.bytes x

module _ (g f : ℕ) (h : Kheap) (bs ls : Blocks) (b n size : ℕ) (v : IsHeap h bs) (l : Live h bs ls)
    (m : Listed ls b n) where
  module _ (r p : ℕ) (h1 : Kheap) (a : Allocated h bs r p h1) (le : size ≤ r)
      (fuel : suc (length bs) < g) where
    abbrev k : ℕ
    k = h1.size (p - header)

    l1 : Live h1 a.bs' ((p - header, k) ∷ ls)
    l1 = Allocated-Live h bs ls r p h1 a l

    -- The old block lies outside the new one.
    apart : (x : ℕ) → within b n x ≡ true → within (p - header) k x ≡ false
    apart x w = ground (arith, Listed-owned ls b n x m w, l1.3 x)

    disjoint : (p + k ≤ b) ⊎ (b + header + n + header ≤ p)
    disjoint = elim (lt_or_le b (p - header)) [
      | inr low ↦ inl (ground (arith, apart b, a.behind_header))
      | inl high ↦ inr (elim (Bool-cases (within b n (p - header))) [
        | inl w ↦ ground (arith, apart (p - header) w)
        | inr out ↦ ground (arith, a.behind_header)
      ])
    ]

    other : (p - header == b) ≡ false
    other = ne→== _ _ (omega (arith, disjoint, a.behind_header))

    abbrev kept : ℕ
    kept = if ltb n size then n else size

    abbrev copied : Kheap
    copied = record h1 { bytes = (memcpy h1.bytes p (b + header) kept).1 }

    kept_le : (kept ≤ n) × (kept ≤ size)
    kept_le = ground arith

    nonoverlap : (p + kept ≤ b + header) ⊎ (b + header + kept ≤ p)
    nonoverlap = omega (arith, disjoint, kept_le, a.enough)

    copy :
        (x : ℕ)
        → copied.bytes x ≡ (if inside p kept x then h.bytes (b + header + (x - p)) else h.bytes x)
    copy x =
        let lem = memcpy_lem h1.bytes p (b + header) kept x nonoverlap in
        ground (arith, lem.1, a.payload)

    rest : without ((p - header, k) ∷ ls) b ≡ (p - header, k) ∷ without ls b
    rest = rw other refl

    moved :
        (h' : Kheap) × (move_block g (b + header) n size h1 p ≡ some (p, h'))
        × Moved h bs ls b n size p h'
    unfolding move_block
    moved =
        let (h', e, fr) =
          kfree-Freed g copied a.bs' ((p - header, k) ∷ ls) b n
            (payload-IsHeap h1 a.bs' copied.bytes a.heap)
            (payload-Live h1 a.bs' ((p - header, k) ∷ ls) copied.bytes l1) (inr m)
            (omega (arith, a.count)) in
        (
          h',
          ground (arith, e),
          record {
            bs' = fr.bs';
            k = k;
            heap = fr.heap;
            live = subst (λ q. Live h' fr.bs' q) rest fr.live;
            enough = omega (arith, a.enough);
            contents = λ i lo hi. ground (arith, fr.payload, copy (p + i));
            released = λ x w. ground (arith, fr.bytes x, w);
            rest = λ x own out. ground (arith, fr.bytes x, a.rest x own out);
            elsewhere = λ x out. ground (arith, fr.payload, copy x, kept_le);
          },
        )

-- In a well-formed heap with enough fuel, `krealloc` of a block in use to a size from 1 to 2^62 ends in
-- one of three ways. The block stays where it is, at least that big; or the answer is NULL, and the
-- heap and the block are as before; or the block moves: the heap is well formed, a block of at least
-- the new size is in use in place of the old one, whose bytes are free, as are all bytes that were free
-- outside the new block; the bytes of the old payload up to the smaller size are copied, and no byte
-- outside the new payload changes.
pub krealloc-Moved :
    (g f : ℕ) (h : Kheap) (bs ls : Blocks) (b n size : ℕ)
    → IsHeap h bs
    → Live h bs ls
    → Listed ls b n
    → 0 < size
    → size ≤ 2 ^ 62
    → suc (length bs) < g
    → 2 ≤ f
    → (p : ℕ) × (h' : Kheap) × (krealloc g f (b + header) size h ≡ some (p, h'))
      × (((p ≡ b + header) × (h' ≡ h) × (size ≤ n))
          ⊎ (((p ≡ 0) × (h' ≡ h)) ⊎ Moved h bs ls b n size p h'))
unfolding krealloc
krealloc-Moved g f h bs ls b n size v l m pos big fuel two =
    let known = Listed-Live h bs ls b n l m in
    let up = align_size_up size (omega arith) in
    elim (lt_or_le n ((size + 15) / 16 * 16)) [
      | inr fits ↦ (b + header, h, ground (arith, up, known.1), inl (refl, refl, omega arith))
      | inl short ↦
          let (p, h1, e, a) = kmalloc-Answer g f h bs size v pos big fuel two in
          elim a [
            | inr (z, same, small_ones, full) ↦
                (0, h, ground (arith, up, known.1, e, z, same), inr (inl (refl, refl)))
            | inl a ↦
                let (h', e', mv) =
                  moved g f h bs ls b n size v l m ((size + 15) / 16 * 16) p h1 a (omega arith)
                    fuel in
                (p, h', ground (arith, up, known.1, e, e', a.behind_header), inr (inr mv))
          ]
    ]
