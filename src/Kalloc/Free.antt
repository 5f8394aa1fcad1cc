-- ===== src/Kalloc/Free.antt =====
-- `kfree` of a block in use.
use jmos.Prelude.{
  ℕ, suc, ◌+◌, ◌≤◌, ◌<◌, ◌≡◌, true, false, ◌||◌, some, arith, length, Bool-cases, inl, inr, subst,
  sym,
}
use jmos.Pmm.{bm_test}
use jmos.Pmm.Inv.{IsValid}
use jmos.Kalloc.{Kheap, header, kfree}
use jmos.Kalloc.Blocks.{Blocks, within, owned}
use jmos.Kalloc.Insert.{free_insert-Inserted}
use jmos.Kalloc.Grow.{IsHeap, frame_of}
use jmos.Kalloc.Live.{Live, Live-used, Live-kept, Listed, without, Listed-Live}

-- The heap after a block in use has been freed.
pub record Freed (h : Kheap) (bs ls : Blocks) (b n : ℕ) (h' : Kheap) : Type 0 where
  pub bs' : Blocks
  pub heap : IsHeap h' bs'
  pub live : Live h' bs' (without ls b)
  pub count : length bs' ≤ suc (length bs)
  pub bytes : (x : ℕ) → owned bs' x ≡ (owned bs x || within b n x)
  pub payload : h'.bytes ≡ h.bytes
  pub pmm : h'.pmm ≡ h.pmm
  pub headers : (x : ℕ) → owned (without ls b) x ≡ true → h'.size x ≡ h.size x

-- In a well-formed heap, with fuel above the number of free blocks, `kfree` of the payload of a block
-- in use ends and leaves a well-formed heap: the free list owns the bytes of the block besides those
-- that it owned, the other blocks in use stay in use with their headers, and no payload byte and no
-- frame changes.
pub kfree-Freed :
    (g : ℕ) (h : Kheap) (bs ls : Blocks) (b n : ℕ)
    → IsHeap h bs
    → Live h bs ls
    → Listed ls b n
    → length bs < g
    → (h' : Kheap) × (kfree g (b + header) h ≡ some h') × Freed h bs ls b n h'
unfolding kfree
kfree-Freed g h bs ls b n v l m fuel =
    let (pos, sb, room, apart, live, up) = Listed-Live h bs ls b n l m in
    let (h', e, i) =
      free_insert-Inserted g h b n bs (omega (arith, pos)) sb room v.chain v.ordered
        (λ x w. (apart x w).0) fuel in
    let others : (x : ℕ)
        → owned (without ls b) x ≡ true
        → (owned i.bs' x ≡ false) × (h'.size x ≡ h.size x) =
      λ x own.
        let free = (Live-used h bs (without ls b) x live own).0 in
        let out : within b n x ≡ false = ground (arith, apart x) in
        (ground (arith, i.bytes x), (i.untouched.headers x (ground arith)).0) in
    let backed : (x : ℕ)
        → owned i.bs' x ≡ true
        → (h.hhdm_off ≤ x) × (bm_test h.pmm.bytes (frame_of h x) ≡ true) =
      λ x own. elim (Bool-cases (within b n x)) [
        | inl w ↦ ((apart x w).2, (apart x w).3)
        | inr out ↦ v.backed x (ground (arith, i.bytes x))
      ] in
    (
      h',
      ground (arith, e),
      record {
        bs' = i.bs';
        heap = record {
          chain = i.chain;
          ordered = i.ordered;
          frames = subst (λ q. IsValid q) (sym i.untouched.pmm) v.frames;
          mapped = ground (arith, v.mapped, i.untouched.pmm, i.untouched.hhdm);
          backed = λ x own. ground (arith, backed x own, i.untouched.pmm, i.untouched.hhdm);
        };
        live =
            Live-kept h h' bs i.bs' (without ls b) i.untouched.hhdm
              (λ j e. ground (arith, i.untouched.pmm)) others live;
        count = i.count;
        bytes = i.bytes;
        payload = i.untouched.payload;
        pmm = i.untouched.pmm;
        headers = λ x own. (others x own).1;
      },
    )
