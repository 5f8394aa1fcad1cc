-- ===== src/Kalloc/Live.antt =====
-- The blocks in use, and what `kmalloc` and `kfree` do to them.
use jmos.Prelude.{
  ℕ, ◌+◌, ◌-◌, ◌^◌, ◌≤◌, ◌<◌, ◌≡◌, refl, ◌⊎◌, true, false, [], ◌∷◌, arith, ◌==◌, if◌then◌else◌,
  Bool-cases, inl, inr, ◌∙◌,
}
use jmos.Pmm.{bm_test}
use jmos.Kalloc.{Kheap, header}
use jmos.Kalloc.Blocks.{Blocks, within, owned}
use jmos.Kalloc.Grow.{frame_of}
use jmos.Kalloc.Malloc.{Allocated}

-- The blocks in use: each lies in frames that are handed out, outside the free blocks, apart from the
-- other ones, and its header has its size.
abbrev pub Live : Kheap → Blocks → Blocks → Type 0
Live h bs [] = Unit
Live h bs ((b, n) ∷ ls) =
    (0 < b)
    × (h.size b ≡ n)
    × (b + header + n < 2 ^ 64)
    × ((x : ℕ)
        → within b n x ≡ true
        → (owned bs x ≡ false)
          × (owned ls x ≡ false)
          × (h.hhdm_off ≤ x)
          × (bm_test h.pmm.bytes (frame_of h x) ≡ true))
    × Live h bs ls

-- An in-use byte is not free, and its frame is handed out.
pub Live-used :
    (h : Kheap) (bs ls : Blocks) (x : ℕ)
    → Live h bs ls
    → owned ls x ≡ true
    → (owned bs x ≡ false) × (h.hhdm_off ≤ x) × (bm_test h.pmm.bytes (frame_of h x) ≡ true)
Live-used h bs [] x l own = absurd (ground (arith, own))
Live-used h bs ((b, n) ∷ ls) x l own = elim (Bool-cases (within b n x)) [
  | inl w ↦ let u = l.3 x w in (u.0, u.2, u.3)
  | inr out ↦ Live-used h bs ls x l.4 (ground (arith, own))
]

-- Where the heap keeps headers of bytes in use, and does not make them free, they stay in use.
pub Live-kept :
    (h h' : Kheap) (bs bs' ls : Blocks)
    → h'.hhdm_off ≡ h.hhdm_off
    → ((j : ℕ) → bm_test h.pmm.bytes j ≡ true → bm_test h'.pmm.bytes j ≡ true)
    → ((x : ℕ) → owned ls x ≡ true → (owned bs' x ≡ false) × (h'.size x ≡ h.size x))
    → Live h bs ls
    → Live h' bs' ls
Live-kept h h' bs bs' [] off kept same l = tt
Live-kept h h' bs bs' ((b, n) ∷ ls) off kept same l = (
  l.0,
  (same b (ground arith)).1 ∙ l.1,
  l.2,
  (λ x w.
      let u = l.3 x w in
      (
        (same x (ground arith)).0,
        u.1,
        ground (arith, u.2, off),
        ground (arith, kept (frame_of h x) u.3, off),
      )),
  Live-kept h h' bs bs' ls off kept (λ x own. same x (ground arith)) l.4,
)

-- `kmalloc` adds its block to the blocks in use, and leaves the others in use.
pub Allocated-Live :
    (h : Kheap) (bs ls : Blocks) (size p : ℕ) (h' : Kheap) (a : Allocated h bs size p h')
    → Live h bs ls
    → Live h' a.bs' ((p - header, h'.size (p - header)) ∷ ls)
Allocated-Live h bs ls size p h' a l = (
  omega (arith, a.behind_header),
  refl,
  omega (arith, a.in_range, a.behind_header),
  (λ x w. (let u = new x w in ((a.given x w).0, apart x w, u.0, u.1))),
  Live-kept h h' bs a.bs' ls a.hhdm a.kept
      (λ x own. let u = Live-used h bs ls x l own in a.others x u.0 u.2) l,
)
  where
    apart : (x : ℕ) → within (p - header) (h'.size (p - header)) x ≡ true → owned ls x ≡ false
    apart x w = elim (Bool-cases (owned ls x)) [
      | inr out ↦ out
      | inl own ↦
          let u = Live-used h bs ls x l own in
          elim (a.source x w).1 [
            | inl free ↦ absurd (cc (free, u.0))
            | inr free ↦ absurd (cc (free, u.2))
          ]
    ]

    new :
        (x : ℕ)
        → within (p - header) (h'.size (p - header)) x ≡ true
        → (h'.hhdm_off ≤ x) × (bm_test h'.pmm.bytes (frame_of h' x) ≡ true)
    new x w = (ground (arith, a.source x w, a.hhdm), (a.given x w).1)

-- A block in use, and the blocks in use without it.
abbrev pub Listed : Blocks → ℕ → ℕ → Type 0
Listed [] b n = ⊥
Listed ((c, k) ∷ ls) b n = ((c ≡ b) × (k ≡ n)) ⊎ Listed ls b n

abbrev pub without : Blocks → ℕ → Blocks
without [] b = []
without ((c, k) ∷ ls) b = let rest = without ls b in if c == b then ls else (c, k) ∷ rest

pub Listed-owned :
    (ls : Blocks) (b n x : ℕ) → Listed ls b n → within b n x ≡ true → owned ls x ≡ true
Listed-owned [] b n x m w = absurd m
Listed-owned ((c, k) ∷ ls) b n x (inl e) w = ground arith
Listed-owned ((c, k) ∷ ls) b n x (inr m) w = ground (arith, Listed-owned ls b n x m w)

-- What is known of a listed block.
abbrev pub Apart : Kheap → Blocks → Blocks → ℕ → ℕ → Type 0
Apart h bs ls b n =
    (x : ℕ)
    → within b n x ≡ true
    → (owned bs x ≡ false)
      × (owned ls x ≡ false)
      × (h.hhdm_off ≤ x)
      × (bm_test h.pmm.bytes (frame_of h x) ≡ true)

pub Listed-Live :
    (h : Kheap) (bs ls : Blocks) (b n : ℕ)
    → Live h bs ls
    → Listed ls b n
    → (0 < b)
      × (h.size b ≡ n)
      × (b + header + n < 2 ^ 64)
      × Apart h bs (without ls b) b n
      × Live h bs (without ls b)
      × ((x : ℕ) → owned (without ls b) x ≡ true → owned ls x ≡ true)
Listed-Live h bs [] b n l m = absurd m
Listed-Live h bs ((c, k) ∷ ls) b n l (inl (e, q)) =
    let hit : (c == b) ≡ true = ground arith in
    rw hit (
      omega (arith, l.0),
      ground (arith, l.1),
      omega (arith, l.2),
      (λ x w. l.3 x (ground arith)),
      l.4,
      λ x own. ground (arith, own),
    )
Listed-Live h bs ((c, k) ∷ ls) b n l (inr m) =
    let (z, s, r, ap', l', up) = Listed-Live h bs ls b n l.4 m in
    let miss : (c == b) ≡ false = ground (arith, Listed-owned ls b n b m, l.3 b) in
    rw miss (
      z,
      s,
      r,
      (λ x w.
          let u = ap' x w in
          (u.0, ground (arith, u.1, Listed-owned ls b n x m w, l.3 x), u.2, u.3)),
      (l.0, l.1, l.2, (λ x w. let u = l.3 x w in (u.0, ground (arith, u.1, up x), u.2, u.3)), l'),
      λ x own. ground (arith, own, up x),
    )
