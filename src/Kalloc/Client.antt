-- ===== src/Kalloc/Client.antt =====
-- A client of the heap: sequences of `kmalloc` and `kfree`.
use jmos.Prelude.{
  ℕ, zero, suc, ◌+◌, ◌-◌, ◌^◌, ◌≤◌, ◌<◌, ◌≡◌, refl, List, [], ◌∷◌, Option, none, some, arith, ◌==◌,
  if◌then◌else◌, length, get_elem?, Option-cases, inl, inr,
}
use jmos.Kalloc.{Kheap, header, kmalloc, kfree}
use jmos.Kalloc.Blocks.{Blocks}
use jmos.Kalloc.Grow.{IsHeap}
use jmos.Kalloc.Malloc.{kmalloc-Answer}
use jmos.Kalloc.Live.{Live, Listed, without, Allocated-Live}
use jmos.Kalloc.Free.{kfree-Freed}

-- A request, or the release of the block at a place in the client's list of blocks.
pub data Request : Type 0 where
  allocate : ℕ → Request
  release : ℕ → Request

-- One request, with the walks' fuel; a place that is not in the client's list is not released.
unfoldable pub serve : ℕ → Request → Kheap → Blocks → Option (Kheap × Blocks)
serve g (allocate size) h ls = elim (kmalloc g 2 size h) [
  | none ↦ none
  | some (p, h') ↦ some (h', if p == 0 then ls else (p - header, h'.size (p - header)) ∷ ls)
]
serve g (release i) h ls = elim (get_elem? ls i) [
  | none ↦ some (h, ls)
  | some (b, n) ↦ elim (kfree g (b + header) h) [ none ↦ none | some h' ↦ some (h', without ls b) ]
]

unfoldable pub serve_all : ℕ → List Request → Kheap → Blocks → Option (Kheap × Blocks)
serve_all g [] h ls = some (h, ls)
serve_all g (r ∷ rs) h ls = elim (serve g r h ls) [
  | none ↦ none
  | some (h', ls') ↦ serve_all g rs h' ls'
]

abbrev pub Modest : List Request → Type 0
Modest [] = Unit
Modest (allocate size ∷ rs) = (size ≤ 2 ^ 62) × Modest rs
Modest (release i ∷ rs) = Modest rs

Modest-split : (r : Request) (rs : List Request) → Modest (r ∷ rs) → Modest (r ∷ []) × Modest rs
Modest-split (allocate size) rs m = ((m.0, tt), m.1)
Modest-split (release i) rs m = (tt, m)

get_elem-Listed : (ls : Blocks) (i b n : ℕ) → get_elem? ls i ≡ some (b, n) → Listed ls b n
get_elem-Listed [] i b n e = absurd (ground (arith, e))
get_elem-Listed ((c, k) ∷ ls) zero b n e = inl (ground (arith, e))
get_elem-Listed ((c, k) ∷ ls) (suc i) b n e = inr (get_elem-Listed ls i b n e)

-- A heap with its client's blocks, after a request.
abbrev Served : ℕ → Option (Kheap × Blocks) → Type 0
Served bound o =
    (h : Kheap) × (ls : Blocks) × (bs : Blocks) × (o ≡ some (h, ls))
    × IsHeap h bs
    × Live h bs ls
    × (length bs ≤ bound)

serve-Served :
    (g : ℕ) (r : Request) (h : Kheap) (bs ls : Blocks)
    → IsHeap h bs
    → Live h bs ls
    → Modest (r ∷ [])
    → suc (length bs) < g
    → Served (suc (length bs)) (serve g r h ls)
unfolding serve kmalloc
serve-Served g (allocate zero) h bs ls v l small fuel = (h, ls, bs, refl, v, l, omega arith)
serve-Served g (allocate (suc k)) h bs ls v l small fuel =
    let (p, h', e, a) =
      kmalloc-Answer g 2 h bs (suc k) v (omega arith) small.0 fuel (omega arith) in
    elim a [
      | inl a ↦ (
        h',
        (p - header, h'.size (p - header)) ∷ ls,
        a.bs',
        ground (arith, e, a.behind_header),
        a.heap,
        Allocated-Live h bs ls _ p h' a l,
        a.count,
      )
      | inr (z, same, small_ones, full) ↦ (h, ls, bs, ground (arith, e, z, same), v, l, omega arith)
    ]
serve-Served g (release i) h bs ls v l small fuel = elim (Option-cases (get_elem? ls i)) [
  | inl nothing ↦ (h, ls, bs, ground (arith, nothing), v, l, omega arith)
  | inr ((b, n), found) ↦
      let (h', e, f) =
        kfree-Freed g h bs ls b n v l (get_elem-Listed ls i b n found) (omega arith) in
      (h', without ls b, f.bs', ground (arith, found, e), f.heap, f.live, f.count)
]

-- Any sequence of requests and releases, of sizes up to 2^62, is answered, with fuel above one more
-- than the number of free blocks and of requests together. It leaves a well-formed heap in which the client's
-- blocks lie in frames that are handed out, outside the free blocks, and do not overlap.
pub serve_all-Live :
    (rs : List Request) (g : ℕ) (h : Kheap) (bs ls : Blocks)
    → IsHeap h bs
    → Live h bs ls
    → Modest rs
    → length bs + length rs + 1 < g
    → (h' : Kheap) × (ls' : Blocks) × (bs' : Blocks) × (serve_all g rs h ls ≡ some (h', ls'))
      × IsHeap h' bs'
      × Live h' bs' ls'
unfolding serve_all
serve_all-Live [] g h bs ls v l small fuel = (h, ls, bs, refl, v, l)
serve_all-Live (r ∷ rs) g h bs ls v l small fuel =
    let modest = Modest-split r rs small in
    let (h1, ls1, bs1, e1, v1, l1, c1) = serve-Served g r h bs ls v l modest.0 (omega arith) in
    let (h2, ls2, bs2, e2, v2, l2) = serve_all-Live rs g h1 bs1 ls1 v1 l1 modest.1 (omega arith) in
    (h2, ls2, bs2, ground (arith, e1, e2), v2, l2)
