-- ===== src/Kalloc/Link.antt =====
-- The end of `free_insert`: a block put between its neighbours, and joined to those that it touches.
use jmos.Prelude.{
  ℕ, suc, ◌+◌, ◌^◌, ◌≤◌, ◌<◌, ◌≡◌, ◌≢◌, Bool, true, false, ◌||◌, [], ◌∷◌, arith, length, eq_or_ne,
  inl, inr, subst,
}
use jmos.Kalloc.{Kheap, header, block_end, stitch, coalesce_forward, coalesce_backward, link}
use jmos.Kalloc.Blocks.{Blocks, Chain, Ordered, within, owned, owned-below, Chain-same}

-- What a change of the list leaves alone.
pub record Untouched (h h' : Kheap) (bytes_of : ℕ → Bool) : Type 0 where
  pub pmm : h'.pmm ≡ h.pmm
  pub hhdm : h'.hhdm_off ≡ h.hhdm_off
  pub payload : h'.bytes ≡ h.bytes
  pub headers : (x : ℕ) → bytes_of x ≡ false → (h'.size x ≡ h.size x) × (h'.next x ≡ h.next x)

-- The list behind the block `a` of `m` bytes after `b` of `n` bytes has been put into it.
pub record Linked (h : Kheap) (a m : ℕ) (bs : Blocks) (b n : ℕ) (h' : Kheap) : Type 0 where
  pub m' : ℕ
  pub bs' : Blocks
  pub count : length bs' ≤ suc (length bs)
  pub size : h'.size a ≡ m'
  pub chain : Chain h' (h'.next a) bs'
  pub room : a + header + m' < 2 ^ 64
  pub ordered : Ordered (a + header + m') bs'
  pub bytes :
      (x : ℕ) → (within a m' x || owned bs' x) ≡ ((within a m x || owned bs x) || within b n x)
  pub head : h'.free_head ≡ h.free_head
  pub untouched : Untouched h h' (λ x. (within a m x || owned bs x) || within b n x)

module _ (h : Kheap) (b prev cur : ℕ) where
  pub link-headers :
      (x : ℕ)
      → x ≢ b
      → x ≢ prev
      → ((link h b prev cur).size x ≡ h.size x) × ((link h b prev cur).next x ≡ h.next x)
  unfolding link stitch coalesce_forward coalesce_backward block_end
  link-headers x nb np = ground arith

  link-head : prev ≢ 0 → (link h b prev cur).free_head ≡ h.free_head
  unfolding link stitch coalesce_forward coalesce_backward block_end
  link-head nz = ground arith

  -- The list's heads are the only addresses whose headers change.
  pub link-Untouched :
      (f : ℕ → Bool)
      → ((x : ℕ) → f x ≡ false → (x ≢ b) × (x ≢ prev))
      → Untouched h (link h b prev cur) f
  unfolding link stitch coalesce_forward coalesce_backward block_end
  link-Untouched f outside = record {
    pmm = ground arith;
    hhdm = ground arith;
    payload = ground arith;
    headers = λ x out. link-headers x (outside x out).0 (outside x out).1;
  }

-- With no block in front, only the header of `b` changes.
pub link_first-Untouched :
    (h : Kheap) (b cur : ℕ) (f : ℕ → Bool)
    → ((x : ℕ) → f x ≡ false → x ≢ b)
    → Untouched h (link h b 0 cur) f
unfolding link stitch coalesce_forward coalesce_backward block_end
link_first-Untouched h b cur f outside = record {
  pmm = ground arith;
  hhdm = ground arith;
  payload = ground arith;
  headers = λ x out. ground (arith, outside x);
}

module _ (h : Kheap) (a m b n : ℕ) (az : a ≢ 0) (sa : h.size a ≡ m) (sb : h.size b ≡ n)
    (behind : a + header + m ≤ b) (fits : b + header + n < 2 ^ 64) where
  -- `b` becomes the last block.
  pub link-last : Linked h a m [] b n (link h b a 0)
  unfolding link stitch coalesce_forward coalesce_backward block_end
  link-last = elim (eq_or_ne (a + header + m) b) [
    | inl touch ↦ record {
      m' = m + header + n;
      bs' = [];
      count = omega arith;
      size = ground arith;
      chain = ground arith;
      room = omega arith;
      ordered = tt;
      bytes = λ x. ground arith;
      head = link-head h b a 0 az;
      untouched = link-Untouched h b a 0 _ (λ x out. ground arith);
    }
    | inr apart ↦ record {
      m' = m;
      bs' = (b, n) ∷ [];
      count = omega arith;
      size = ground arith;
      chain = ground arith;
      room = omega arith;
      ordered = omega arith;
      bytes = λ x. ground arith;
      head = link-head h b a 0 az;
      untouched = link-Untouched h b a 0 _ (λ x out. ground arith);
    }
  ]

  -- `b` comes in front of the block `c`.
  module _ (c k : ℕ) (cs : Blocks) (sc : h.size c ≡ k) (rest : Chain h (h.next c) cs)
      (before : b + header + n ≤ c) (end : c + header + k < 2 ^ 64)
      (o : Ordered (c + header + k) cs) where
    -- The blocks behind `c` are as they were.
    tail-Chain : Chain (link h b a c) (h.next c) cs
    tail-Chain =
        Chain-same h (link h b a c) (c + header + k) (h.next c) cs o
          (λ x own. link-headers h b a c x (far x own (omega arith)) (far x own (omega arith))) rest
      where
        far : (x : ℕ) {y : ℕ} → owned cs x ≡ true → y ≤ c → x ≢ y
        far x own le e = absurd (cc (own, owned-below (c + header + k) cs x o (omega arith)))

    pub link-front : Linked h a m ((c, k) ∷ cs) b n (link h b a c)
    unfolding link stitch coalesce_forward coalesce_backward block_end
    link-front = elim (eq_or_ne (b + header + n) c) [
      | inl forward ↦ elim (eq_or_ne (a + header + m) b) [
        | inl backward ↦ record {
          m' = m + header + (n + header + k);
          bs' = cs;
          count = omega arith;
          size = ground arith;
          chain = subst (λ q. Chain (link h b a c) q cs) (ground arith) tail-Chain;
          room = omega arith;
          ordered = subst (λ q. Ordered q cs) (omega arith) o;
          bytes = λ x. ground arith;
          head = link-head h b a c az;
          untouched = link-Untouched h b a c _ (λ x out. ground arith);
        }
        | inr apart ↦ record {
          m' = m;
          bs' = (b, n + header + k) ∷ cs;
          count = omega arith;
          size = ground arith;
          chain = (
            ground arith,
            ground arith,
            subst (λ q. Chain (link h b a c) q cs) (ground arith) tail-Chain,
          );
          room = omega arith;
          ordered = (omega arith, omega arith, subst (λ q. Ordered q cs) (omega arith) o);
          bytes = λ x. ground arith;
          head = link-head h b a c az;
          untouched = link-Untouched h b a c _ (λ x out. ground arith);
        }
      ]
      | inr gap ↦ elim (eq_or_ne (a + header + m) b) [
        | inl backward ↦ record {
          m' = m + header + n;
          bs' = (c, k) ∷ cs;
          count = omega arith;
          size = ground arith;
          chain = (
            ground arith,
            ground arith,
            subst (λ q. Chain (link h b a c) q cs) (ground arith) tail-Chain,
          );
          room = omega arith;
          ordered = (omega arith, omega arith, o);
          bytes = λ x. ground arith;
          head = link-head h b a c az;
          untouched = link-Untouched h b a c _ (λ x out. ground arith);
        }
        | inr apart ↦ record {
          m' = m;
          bs' = (b, n) ∷ (c, k) ∷ cs;
          count = omega arith;
          size = ground arith;
          chain = (
            ground arith,
            ground arith,
            (
              ground arith,
              ground arith,
              subst (λ q. Chain (link h b a c) q cs) (ground arith) tail-Chain,
            ),
          );
          room = omega arith;
          ordered = (omega arith, omega arith, (omega arith, omega arith, o));
          bytes = λ x. ground arith;
          head = link-head h b a c az;
          untouched = link-Untouched h b a c _ (λ x out. ground arith);
        }
      ]
    ]
