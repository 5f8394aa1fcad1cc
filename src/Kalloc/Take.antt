-- ===== src/Kalloc/Take.antt =====
-- The search of `kmalloc`, and the block that it cuts out of the free list.
use jmos.Prelude.{
  ℕ, zero, suc, ◌+◌, ◌-◌, ◌^◌, ◌≤◌, ◌<◌, ◌≡◌, ◌≢◌, ◌⊎◌, Bool, true, false, not, ◌&&◌, ◌||◌, [], ◌∷◌,
  arith, leb, ◌==◌, if◌then◌else◌, length, lt_or_le, Bool-cases, inl, inr, ◌∙◌, subst, sym, ne→==,
}
use jmos.Kalloc.{Kheap, header, heap_align, no_fit, fit, find_fit, relink, take_block}
use jmos.Kalloc.Blocks.{Blocks, Chain, Ordered, within, owned, owned-below, Chain-same}
use jmos.Kalloc.Link.{Untouched}

-- Every block is smaller than `size`.
abbrev pub AllSmall : ℕ → Blocks → Type 0
AllSmall size [] = Unit
AllSmall size ((a, n) ∷ bs) = (n < size) × AllSmall size bs

-- The list `bs'` is `bs` without the block at `b`, whose header now says `given` bytes.
pub record Cut (lo : ℕ) (h : Kheap) (bs : Blocks) (size b : ℕ) (h' : Kheap) (bs' : Blocks)
    : Type 0 where
  pub given : ℕ
  pub header_size : h'.size b ≡ given
  pub enough : size ≤ given
  pub room : b + header + given < 2 ^ 64
  pub count : length bs' ≤ length bs
  pub ordered : Ordered lo bs'
  pub taken : (x : ℕ) → within b given x ≡ true → owned bs x ≡ true
  pub bytes : (x : ℕ) → owned bs' x ≡ (owned bs x && not (within b given x))

Ordered-weaken : (lo hi : ℕ) (bs : Blocks) → lo ≤ hi → Ordered hi bs → Ordered lo bs
Ordered-weaken lo hi [] le o = tt
Ordered-weaken lo hi ((a, n) ∷ bs) le o = (omega arith, o.1, o.2)

-- The first block is cut, and what is behind it stays.
first-Cut :
    (lo : ℕ) (h : Kheap) (size prev d k : ℕ) (cs : Blocks)
    → size + header + heap_align < 2 ^ 64
    → size ≤ k
    → h.size d ≡ k
    → prev < d
    → Ordered lo ((d, k) ∷ cs)
    → let h' = (take_block h size prev d).1 in
      let rest = d + header + size in
      (leb (size + header + heap_align) k ≡ true
        → (h'.size rest ≡ k - size - header)
          × (h'.next rest ≡ h.next d)
          × Cut lo h ((d, k) ∷ cs) size d h' ((rest, k - size - header) ∷ cs))
      × (leb (size + header + heap_align) k ≡ false → Cut lo h ((d, k) ∷ cs) size d h' cs)
unfolding take_block relink
first-Cut lo h size prev d k cs small fits sd pd o = (
  (λ split. (
    ground arith,
    ground arith,
    record {
      given = size;
      header_size = ground arith;
      enough = omega arith;
      room = omega arith;
      count = omega arith;
      ordered = (omega arith, ground arith, subst (λ q. Ordered q cs) (ground arith) o.2);
      taken = λ x w. ground arith;
      bytes = λ x. ground (arith, owned-below (d + header + k) cs x o.2);
    },
  )),
  (λ whole. record {
    given = k;
    header_size = ground arith;
    enough = fits;
    room = omega arith;
    count = omega arith;
    ordered = Ordered-weaken lo (d + header + k) cs (omega arith) o.2;
    taken = λ x w. ground arith;
    bytes = λ x. ground (arith, owned-below (d + header + k) cs x o.2);
  }),
)

-- Only the two headers of the block that is cut change, and the link to it.
take-Untouched :
    (h : Kheap) (size prev d : ℕ) (f : ℕ → Bool)
    → ((x : ℕ)
        → f x ≡ false
        → (x ≢ d) × (x ≢ prev) × (x ≡ d + header + size → h.size d < size + header + heap_align))
    → size + header + heap_align < 2 ^ 64
    → Untouched h (take_block h size prev d).1 f
unfolding take_block relink
take-Untouched h size prev d f out small = record {
  pmm = ground arith;
  hhdm = ground arith;
  payload = ground arith;
  headers = λ x e. ground (arith, out x);
}

-- The pointer behind a block, or the list's head.
abbrev pub entry : Kheap → ℕ → ℕ
entry h prev = if prev == 0 then h.free_head else h.next prev

-- A block of the list behind `prev` has been cut.
pub record Taken (lo : ℕ) (h : Kheap) (prev : ℕ) (bs : Blocks) (size b : ℕ) (h' : Kheap)
    : Type 0 where
  pub bs' : Blocks
  pub cut : Cut lo h bs size b h' bs'
  pub chain : Chain h' (entry h' prev) bs'
  pub size_kept : h'.size prev ≡ h.size prev
  pub head_kept : prev ≢ 0 → h'.free_head ≡ h.free_head
  pub untouched : Untouched h h' (λ x. owned bs x || prev == x)

module _ (lo : ℕ) (h : Kheap) (size prev d k : ℕ) (cs : Blocks)
    (small : size + header + heap_align < 2 ^ 64) (fits : size ≤ k) (sd : h.size d ≡ k)
    (below : prev ≤ lo) (o : Ordered lo ((d, k) ∷ cs)) (rest : Chain h (h.next d) cs) where
  abbrev after : Kheap
  after = (take_block h size prev d).1

  after-Untouched : Untouched h after (λ x. owned ((d, k) ∷ cs) x || prev == x)
  after-Untouched =
      take-Untouched h size prev d _ (λ x out. (ground arith, ground arith, λ e. ground arith))
        small

  -- The blocks behind `d` are as they were.
  tail-Chain : Chain after (h.next d) cs
  tail-Chain =
      Chain-same h after (d + header + k) (h.next d) cs (o.2) (λ x own. same x (far x own)) rest
    where
      far : (x : ℕ) → owned cs x ≡ true → d + header + k < x
      far x own = elim (lt_or_le (d + header + k) x) [
        | inl p ↦ p
        | inr q ↦ absurd (cc (own, owned-below (d + header + k) cs x o.2 q))
      ]

      same : (x : ℕ) → d + header + k < x → (after.size x ≡ h.size x) × (after.next x ≡ h.next x)
      same x p =
          (take-Untouched h size prev d (λ y. leb y (d + header + k))
              (λ y out. (ground arith, ground arith, λ e. ground arith)) small).headers
            x (ground arith)

  linked : leb (size + header + heap_align) k ≡ false → entry after prev ≡ h.next d
  unfolding take_block relink
  linked whole = ground arith

  first-Taken : Taken lo h prev ((d, k) ∷ cs) size d after
  first-Taken = elim (Bool-cases (leb (size + header + heap_align) k)) [
    | inl split ↦
        let (s1, n1, cut) =
          (first-Cut lo h size prev d k cs small fits sd (omega arith) o).0 split in
        record {
          bs' = (d + header + size, k - size - header) ∷ cs;
          cut = cut;
          chain = (
            unfold take_block relink in ground arith,
            s1,
            subst (λ q. Chain after q cs) (sym n1) tail-Chain,
          );
          size_kept = unfold take_block relink in ground arith;
          head_kept = unfold take_block relink in ground arith;
          untouched = after-Untouched;
        }
    | inr whole ↦ record {
      bs' = cs;
      cut = (first-Cut lo h size prev d k cs small fits sd (omega arith) o).1 whole;
      chain = subst (λ q. Chain after q cs) (sym (linked whole)) tail-Chain;
      size_kept = unfold take_block relink in ground arith;
      head_kept = unfold take_block relink in ground arith;
      untouched = after-Untouched;
    }
  ]

-- A block behind `d` has been cut.
Taken-cons :
    {h h' : Kheap} (lo prev size b d k : ℕ) (cs : Blocks)
    → prev ≤ lo
    → entry h prev ≡ d
    → h.size d ≡ k
    → Ordered lo ((d, k) ∷ cs)
    → Taken (d + header + k) h d cs size b h'
    → Taken lo h prev ((d, k) ∷ cs) size b h'
Taken-cons {h} {h'} lo prev size b d k cs below e sd o t = record {
  bs' = (d, k) ∷ t.bs';
  cut = record {
    given = t.cut.given;
    header_size = t.cut.header_size;
    enough = t.cut.enough;
    room = t.cut.room;
    count = omega (arith, t.cut.count);
    ordered = (o.0, o.1, t.cut.ordered);
    taken = λ x w. ground (arith, t.cut.taken x w);
    bytes =
        λ x. ground (arith, t.cut.bytes x, t.cut.taken x, owned-below (d + header + k) cs x o.2);
  };
  chain = (
    entry_kept,
    t.size_kept ∙ sd,
    subst (λ q. Chain h' q t.bs') (entry_next d (omega arith)) t.chain,
  );
  size_kept = (front (omega arith)).0;
  head_kept = λ _. t.head_kept (omega arith);
  untouched = record {
    pmm = t.untouched.pmm;
    hhdm = t.untouched.hhdm;
    payload = t.untouched.payload;
    headers = λ x out. t.untouched.headers x (ground arith);
  };
}
  where
    front : prev < d → (h'.size prev ≡ h.size prev) × (h'.next prev ≡ h.next prev)
    front lt =
        t.untouched.headers prev
          (ground (arith, owned-below (d + header + k) cs prev o.2 (omega arith)))

    entry_next : (a : ℕ) → a ≢ 0 → entry h' a ≡ h'.next a
    entry_next a nz = ground arith

    entry_kept : entry h' prev ≡ d
    entry_kept = ground (arith, e, t.head_kept, (front (omega arith)).1)

-- The search ends with the first block that is big enough, which is then cut, or finds all of them
-- too small.
pub find_fit-Taken :
    (g lo : ℕ) (h : Kheap) (size prev p : ℕ) (bs : Blocks)
    → size + header + heap_align < 2 ^ 64
    → prev ≤ lo
    → p ≡ entry h prev
    → Chain h p bs
    → Ordered lo bs
    → length bs < g
    → ((find_fit g h size prev p ≡ no_fit) × AllSmall size bs)
      ⊎ ((a : ℕ) × (b : ℕ) × (find_fit g h size prev p ≡ fit a b)
          × (0 < b)
          × Taken lo h prev bs size b (take_block h size a b).1)
unfolding find_fit
find_fit-Taken zero lo h size prev p bs small below e c o lt = absurd (omega arith)
find_fit-Taken (suc g) lo h size prev p [] small below e c o lt = inl (rw (c, find_fit), tt)
find_fit-Taken (suc g) lo h size prev p ((d, k) ∷ cs) small below e c o lt =
    let there : (p == 0) ≡ false = ne→== _ _ (omega (arith, c.0)) in
    elim (lt_or_le k size) [
      | inl short ↦
          elim (find_fit-Taken g (d + header + k) h size d (h.next d) cs small (omega arith)
            (ground arith) c.2 o.2 (omega arith)) [
              | inl gone ↦ inl (ground (arith, gone.0, c.0, c.1), (short, gone.1))
              | inr (a, b, f, pos, t) ↦ inr (
                a,
                b,
                ground (arith, f, c.0, c.1),
                pos,
                Taken-cons lo prev size b d k cs below (sym e ∙ c.0) c.1 o t,
              )
            ]
      | inr fits ↦ inr (
        prev,
        d,
        ground (arith, c.0, c.1),
        omega arith,
        first-Taken lo h size prev d k cs small fits c.1 below o c.2,
      )
    ]
