-- ===== src/Kalloc/Blocks.antt =====
-- The free list as a list of blocks, and the bytes that it owns.
use jmos.Prelude.{
  ℕ, ◌+◌, ◌^◌, ◌≤◌, ◌<◌, ◌≡◌, refl, Bool, true, false, ◌&&◌, ◌||◌, List, [], ◌∷◌, arith, ltb, leb,
  ◌∙◌, subst, sym,
}
use jmos.Kalloc.{Kheap, header}

-- Address and payload size of each free block.
abbrev pub Blocks : Type 0
Blocks = List (ℕ × ℕ)

-- The pointers from `p` on lead through exactly these blocks to NULL.
abbrev pub Chain : Kheap → ℕ → Blocks → Type 0
Chain h p [] = p ≡ 0
Chain h p ((a, n) ∷ bs) = (p ≡ a) × (h.size a ≡ n) × Chain h (h.next a) bs

-- The blocks lie in address order behind `lo`, with a gap between any two, inside the address space.
abbrev pub Ordered : ℕ → Blocks → Type 0
Ordered lo [] = Unit
Ordered lo ((a, n) ∷ bs) = (lo < a) × (a + header + n < 2 ^ 64) × Ordered (a + header + n) bs

-- The address belongs to the block, header included; to one of the blocks.
abbrev pub within : ℕ → ℕ → ℕ → Bool
within a n x = leb a x && ltb x (a + header + n)

abbrev pub owned : Blocks → ℕ → Bool
owned [] x = false
owned ((a, n) ∷ bs) x = within a n x || owned bs x

-- Nothing is owned below the first block.
pub owned-below : (lo : ℕ) (bs : Blocks) (x : ℕ) → Ordered lo bs → x ≤ lo → owned bs x ≡ false
owned-below lo [] x o le = refl
owned-below lo ((a, n) ∷ bs) x o le =
    ground (arith, owned-below (a + header + n) bs x o.2 (omega arith))

-- Two heaps with the same header at every owned address have the same chain.
pub Chain-same :
    (h h' : Kheap) (lo p : ℕ) (bs : Blocks)
    → Ordered lo bs
    → ((x : ℕ) → owned bs x ≡ true → (h'.size x ≡ h.size x) × (h'.next x ≡ h.next x))
    → Chain h p bs
    → Chain h' p bs
Chain-same h h' lo p [] o same c = c
Chain-same h h' lo p ((a, n) ∷ bs) o same c =
    let here = same a (ground arith) in
    (
      c.0,
      here.0 ∙ c.1,
      subst (λ q. Chain h' q bs) (sym here.1)
          (Chain-same h h' (a + header + n) (h.next a) bs o.2 (λ x e. same x (ground arith)) c.2),
    )
