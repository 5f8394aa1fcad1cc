-- ===== src/Kalloc/Insert.antt =====
-- `free_insert`: the walk, and what the whole function does to the free list.
use jmos.Prelude.{
  ℕ, zero, suc, ◌+◌, ◌^◌, ◌≤◌, ◌<◌, ◌≡◌, refl, ◌≢◌, true, false, ◌||◌, [], ◌∷◌, Option, none, some,
  arith, length, eq_or_ne, lt_or_le, inl, inr, ◌∙◌, subst, sym,
}
use jmos.Kalloc.{
  Kheap, header, block_end, stitch, coalesce_forward, coalesce_backward, link, seek, free_insert,
}
use jmos.Kalloc.Blocks.{Blocks, Chain, Ordered, within, owned, owned-below, Chain-same}
use jmos.Kalloc.Link.{Untouched, Linked, link-headers, link_first-Untouched, link-last, link-front}

-- None of the block's bytes is owned by the free list.
abbrev pub Foreign : Blocks → ℕ → ℕ → Type 0
Foreign bs b n = (x : ℕ) → within b n x ≡ true → owned bs x ≡ false

-- The list after `b` of `n` bytes has been put into it.
pub record Inserted (h : Kheap) (bs : Blocks) (b n : ℕ) (h' : Kheap) : Type 0 where
  pub bs' : Blocks
  pub count : length bs' ≤ suc (length bs)
  pub chain : Chain h' h'.free_head bs'
  pub ordered : Ordered 0 bs'
  pub bytes : (x : ℕ) → owned bs' x ≡ (owned bs x || within b n x)
  pub untouched : Untouched h h' (λ x. owned bs x || within b n x)

abbrev finish : Kheap → ℕ → Option (ℕ × ℕ) → Option Kheap
finish h b o = elim o [ none ↦ none | some (prev, cur) ↦ some (link h b prev cur) ]

-- A change behind the block `c` is a change behind the block in front of it.
Linked-cons :
    {h h' : Kheap} (a m c k : ℕ) (cs : Blocks) (b n : ℕ)
    → h.size a ≡ m
    → h.next a ≡ c
    → a + header + m < c
    → c < b
    → Linked h c k cs b n h'
    → Ordered (c + header + k) cs
    → Linked h a m ((c, k) ∷ cs) b n h'
Linked-cons {h} {h'} a m c k cs b n sa na gap lt l o = record {
  m' = m;
  bs' = (c, l.m') ∷ l.bs';
  count = omega (arith, l.count);
  size = here.0 ∙ sa;
  chain = (here.1 ∙ na, l.size, l.chain);
  room = omega (arith, l.room);
  ordered = (gap, l.room, l.ordered);
  bytes = λ x. ground (arith, l.bytes x);
  head = l.head;
  untouched = record {
    pmm = l.untouched.pmm;
    hhdm = l.untouched.hhdm;
    payload = l.untouched.payload;
    headers = λ x out. l.untouched.headers x (ground arith);
  };
}
  where
    here : (h'.size a ≡ h.size a) × (h'.next a ≡ h.next a)
    here = l.untouched.headers a (ground (arith, owned-below (c + header + k) cs a o (omega arith)))

module _ (h : Kheap) (b n : ℕ) (sb : h.size b ≡ n) (fits : b + header + n < 2 ^ 64) where
  walk-Linked :
      (g a m cur : ℕ) (bs : Blocks)
      → a ≢ 0
      → h.size a ≡ m
      → h.next a ≡ cur
      → a + header + m ≤ b
      → Chain h cur bs
      → Ordered (a + header + m) bs
      → Foreign bs b n
      → length bs < g
      → (h' : Kheap) × (finish h b (seek g h b a cur) ≡ some h') × Linked h a m bs b n h'
  unfolding seek
  walk-Linked zero a m cur bs az sa na le c o f lt = absurd (omega arith)
  walk-Linked (suc g) a m cur [] az sa na le c o f lt =
      (link h b a 0, ground arith, link-last h a m b n az sa sb le fits)
  walk-Linked (suc g) a m cur ((d, k) ∷ cs) az sa na le c o f lt = elim (lt_or_le d b) [
    | inl before ↦
        let apart : d + header + k ≤ b = ground (arith, f b) in
        let (h', e, l) =
          walk-Linked g d k (h.next d) cs (omega arith) c.1 refl apart c.2 o.2
            (λ x w. ground (arith, f x w)) (omega arith) in
        (h', ground (arith, e), Linked-cons a m d k cs b n sa (na ∙ c.0) o.0 before l o.2)
    | inr behind ↦
        let room : b + header + n ≤ d = ground (arith, f d) in
        (
          link h b a d,
          ground arith,
          link-front h a m b n az sa sb le fits d k cs c.1 c.2 room o.1 o.2,
        )
  ]

  -- `b` becomes the first block, in front of `d`.
  module _ (bz : b ≢ 0) (d k : ℕ) (cs : Blocks) (sd : h.size d ≡ k) (rest : Chain h (h.next d) cs)
      (before : b + header + n ≤ d) (end : d + header + k < 2 ^ 64)
      (o : Ordered (d + header + k) cs) where
    first-tail : Chain (link h b 0 d) (h.next d) cs
    first-tail =
        Chain-same h (link h b 0 d) (d + header + k) (h.next d) cs o
          (λ x own. link-headers h b 0 d x (far x own (omega arith)) (far x own (omega arith))) rest
      where
        far : (x : ℕ) {y : ℕ} → owned cs x ≡ true → y ≤ d → x ≢ y
        far x own le e = absurd (cc (own, owned-below (d + header + k) cs x o (omega arith)))

    first-Inserted : Inserted h ((d, k) ∷ cs) b n (link h b 0 d)
    unfolding link stitch coalesce_forward coalesce_backward block_end
    first-Inserted = elim (eq_or_ne (b + header + n) d) [
      | inl touch ↦ record {
        bs' = (b, n + header + k) ∷ cs;
        count = omega arith;
        chain = (
          ground arith,
          ground arith,
          subst (λ q. Chain (link h b 0 d) q cs) (ground arith) first-tail,
        );
        ordered = (omega arith, omega arith, subst (λ q. Ordered q cs) (omega arith) o);
        bytes = λ x. ground arith;
        untouched = link_first-Untouched h b d _ (λ x out. ground arith);
      }
      | inr gap ↦ record {
        bs' = (b, n) ∷ (d, k) ∷ cs;
        count = omega arith;
        chain = (
          ground arith,
          ground arith,
          (
            ground arith,
            ground arith,
            subst (λ q. Chain (link h b 0 d) q cs) (ground arith) first-tail,
          ),
        );
        ordered = (omega arith, omega arith, (omega arith, omega arith, o));
        bytes = λ x. ground arith;
        untouched = link_first-Untouched h b d _ (λ x out. ground arith);
      }
    ]

  -- Where `b` is the only block.
  only-Inserted : b ≢ 0 → Inserted h [] b n (link h b 0 0)
  unfolding link stitch coalesce_forward coalesce_backward block_end
  only-Inserted bz = record {
    bs' = (b, n) ∷ [];
    count = omega arith;
    chain = ground arith;
    ordered = omega arith;
    bytes = λ x. ground arith;
    untouched = link_first-Untouched h b 0 _ (λ x out. ground arith);
  }

  free_insert-from :
      (g p : ℕ) (bs : Blocks)
      → b ≢ 0
      → p ≡ h.free_head
      → Chain h p bs
      → Ordered 0 bs
      → Foreign bs b n
      → length bs < g
      → (h' : Kheap) × (finish h b (seek g h b 0 p) ≡ some h') × Inserted h bs b n h'
  unfolding seek
  free_insert-from zero p bs bz e c o f lt = absurd (omega arith)
  free_insert-from (suc g) p [] bz e c o f lt = (link h b 0 0, ground arith, only-Inserted bz)
  free_insert-from (suc g) p ((d, k) ∷ cs) bz e c o f lt = elim (lt_or_le d b) [
    | inl before ↦
        let apart : d + header + k ≤ b = ground (arith, f b) in
        let (h', e', l) =
          walk-Linked g d k (h.next d) cs (omega arith) c.1 refl apart c.2 o.2
            (λ x w. ground (arith, f x w)) (omega arith) in
        (
          h',
          ground (arith, e'),
          record {
            bs' = (d, l.m') ∷ l.bs';
            count = omega (arith, l.count);
            chain = (l.head ∙ sym e ∙ c.0, l.size, l.chain);
            ordered = (o.0, l.room, l.ordered);
            bytes = l.bytes;
            untouched = l.untouched;
          },
        )
    | inr behind ↦
        let room : b + header + n ≤ d = ground (arith, f d) in
        (link h b 0 d, ground arith, first-Inserted bz d k cs c.1 c.2 room o.1 o.2)
  ]

-- With fuel above the number of free blocks, `free_insert` ends; and given a block of `n` bytes that
-- lies outside the free blocks, it leaves a list in address order, no two blocks of it overlapping or
-- touching, that owns exactly the bytes that it owned before and those of the block. No header
-- outside these bytes changes.
pub free_insert-Inserted :
    (g : ℕ) (h : Kheap) (b n : ℕ) (bs : Blocks)
    → b ≢ 0
    → h.size b ≡ n
    → b + header + n < 2 ^ 64
    → Chain h h.free_head bs
    → Ordered 0 bs
    → Foreign bs b n
    → length bs < g
    → (h' : Kheap) × (free_insert g b h ≡ some h') × Inserted h bs b n h'
unfolding free_insert
free_insert-Inserted g h b n bs bz sb fits c o f lt =
    free_insert-from h b n sb fits g h.free_head bs bz refl c o f lt
