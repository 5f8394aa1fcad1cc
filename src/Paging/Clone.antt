-- ===== src/Paging/Clone.antt =====
-- `clone_table` and `vmm_clone_kernel_space`.

use jmos.Paging.Entry.{address_bits}
use jmos.Prelude.Words.{add64}
use jmos.Prelude.{
  ℕ, zero, suc, ◌+◌, ◌*◌, ◌/◌, ◌%◌, ◌^◌, ◌<◌, ◌≡◌, refl, ◌≢◌, inl, inr, Bool, true, false, List, [],
  ◌∷◌, arith, ◌==◌, bit_and, length, ap, ◌∙◌, subst, sym, eq_or_ne,
}
use jmos.Pmm.{bm_test}
use jmos.Paging.Held.{
  Off, Held, Fresh, Ready, Calm, Calm-refl, Calm-trans, Held-Calm, Fresh-earlier, Copy, Cloned,
}
use jmos.Paging.{clone_loop, Vmm, p2v, slot, page_addr_mask}
use jmos.Paging.Tour.{below}
use jmos.Paging.Tree.{reach, Tree, Tree-mono, Tree-same, reach_same}
use jmos.Paging.{clone_table}
use jmos.Paging.Loop.{Says, Looped, clone_loop_lem}
use jmos.Pmm.{alloc_frame}
use jmos.Pmm.Alloc.{
  Granted, alloc_frame_lowest, alloc_frame-zero, alloc_frame-IsValid, frame_count-alloc_frame,
  total_frames-alloc_frame,
}

-- The branches of `clone_table`.
module _ (l src : ℕ) (s : Vmm) where
  abbrev frame : ℕ
  frame = (alloc_frame s.pmm).0

  abbrev allocated : Vmm
  allocated = record s { pmm = (alloc_frame s.pmm).1 }

  abbrev copied : Bool × Vmm
  copied = clone_loop (suc l) (clone_table l) 512 0 src (p2v s frame) allocated

  clone_table_full : frame ≡ 0 → clone_table (suc l) src s ≡ (0, allocated)
  unfolding clone_table
  clone_table_full z = rw (z) refl

  clone_table_done : frame ≢ 0 → copied.0 ≡ true → clone_table (suc l) src s ≡ (frame, copied.1)
  unfolding clone_table
  clone_table_done nz d = let got : (frame == 0) ≡ false = ground (arith, nz) in rw (got, d) refl

  clone_table_gave_up : frame ≢ 0 → copied.0 ≡ false → clone_table (suc l) src s ≡ (0, copied.1)
  unfolding clone_table
  clone_table_gave_up nz d = let got : (frame == 0) ≡ false = ground (arith, nz) in rw (got, d) refl

-- A frame is granted for the table.
module _ (l : ℕ) (s : Vmm) (src : ℕ) (ready : Ready s) (tree : Tree (Held s) (suc l) s src)
    (got : (alloc_frame s.pmm).0 ≢ 0) where
  granted : Granted s.pmm (alloc_frame s.pmm).0 (alloc_frame s.pmm).1
  granted = alloc_frame_lowest s.pmm ready.pmm got

  abbrev s1 : Vmm
  s1 = record s { pmm = (alloc_frame s.pmm).1 }

  abbrev d : ℕ
  d = (alloc_frame s.pmm).0 / 4096

  calm1 : Calm s s1
  calm1 =
      let fc = frame_count-alloc_frame s.pmm ready.pmm in
      record {
        ready = record {
          pmm = alloc_frame-IsValid s.pmm ready.pmm;
          few = omega (arith, ready.few, fc);
          mapped = omega (arith, ready.mapped, fc);
        };
        base = refl;
        cr3 = refl;
        count = fc;
        total = total_frames-alloc_frame s.pmm ready.pmm;
        used = λ k u. ground (arith, granted.bits k, u);
      }

  taken : bm_test s1.pmm.bytes d ≡ true
  taken = ground (arith, granted.bits d)

  at_dst : (b : ℕ) → b ≡ s.hhdm_off → add64 (alloc_frame s.pmm).0 b ≡ d * 4096 + s.hhdm_off
  at_dst b e = omega (arith, e, granted.aligned, granted.managed, ready.mapped)

  source : Tree (λ a. Held s1 a × Off s1 d a) (suc l) s1 src
  source =
      Tree-mono (λ a h. (Held-Calm calm1 a h, h d granted.managed granted.was_free)) (suc l) s1 src
        (Tree-same s s1 (λ a h. refl) refl (suc l) src tree)

  abbrev Result : Bool × Vmm → Type 0
  Result = Looped l s1 src d calm1.ready (omega (arith, granted.managed, calm1.count)) taken source

  abbrev Entry : Vmm → ℕ → ℕ → Type 0
  Entry = Says l s1 src d calm1.ready (omega (arith, granted.managed, calm1.count)) taken source

  abbrev dst : ℕ
  dst = d * 4096 + s.hhdm_off

  abbrev AllCopied : Vmm → Type 0
  AllCopied s' = (j : ℕ) → j < 512 → Entry s' j (s'.words (slot dst j))

  Tree-done : (s' : Vmm) → Calm s1 s' → AllCopied s' → Tree (Fresh s s') (suc l) s' dst
  unfolding Tree
  Tree-done s' c says = λ i lt.
      let own : Fresh s s' (slot dst i) = record {
        k = d;
        managed = granted.managed;
        was_free = granted.was_free;
        used = c.used d taken;
        inside = omega (arith, lt);
      } in
      (own, λ p n. Tree-mono (Fresh-earlier calm1) l s' _ ((says i lt).tree p n))

  walks_done :
      (s' : Vmm)
      → AllCopied s'
      → (is : List ℕ) → length is ≡ suc l
      → below is ≡ true
      → reach (suc l) s' dst is ≡ reach (suc l) s1 src is
  unfolding reach
  walks_done s' says [] len b = refl
  walks_done s' says (i ∷ is) len b =
      (says i (ground (arith, b))).walks is (omega (arith, len)) (ground (arith, b))

  Copy-done : (s' : Vmm) → Calm s1 s' → AllCopied s' → Copy (suc l) s src (alloc_frame s.pmm).0 s'
  Copy-done s' c says =
      let here : p2v s' (alloc_frame s.pmm).0 ≡ dst = at_dst s'.hhdm_off c.base in
      record {
        real = got;
        aligned = granted.aligned;
        small = omega (arith, granted.managed, ready.few);
        tree = subst (Tree (Fresh s s') (suc l) s') (sym here) (Tree-done s' c says);
        walks = λ is len b.
            ap (λ t. reach (suc l) s' t is) here
            ∙ walks_done s' says is len b
            ∙ reach_same s s1 (λ a h. refl) refl (suc l) src is b tree;
      }

  granted-Cloned : Result (copied l src s) → Cloned (suc l) s src (clone_table (suc l) src s)
  granted-Cloned r =
      let kept : (a : ℕ) → Held s a → (copied l src s).1.words a ≡ s.words a =
        λ a h. r.kept a (Held-Calm calm1 a h) (h d granted.managed granted.was_free) in
      elim r.outcome [
        | inl ok ↦ subst (Cloned (suc l) s src) (sym (clone_table_done l src s got ok.0)) (record {
          calm = Calm-trans calm1 r.calm;
          kept = kept;
          outcome = inl (Copy-done (copied l src s).1 r.calm ok.1);
        })
        | inr full ↦
            subst (Cloned (suc l) s src) (sym (clone_table_gave_up l src s got full.0))
              (record { calm = Calm-trans calm1 r.calm; kept = kept; outcome = inr (refl, full.1) })
      ]

-- From tables of at most `l` levels that lie in no free frame, `clone_table` ends one of two ways: it
-- returns the frame of a copy, whose tables all lie in frames taken since, and in which the walk of
-- the processor finds the same mapping entries, large pages' included, through entries with the same
-- flags; or it returns 0 and no frame is free. Either way frames are only taken, and no word outside
-- the frames that were free changes.
pub clone_table-Cloned :
    (l : ℕ) (src : ℕ) (s : Vmm)
    → 0 < l
    → Ready s
    → Tree (Held s) l s src
    → Cloned l s src (clone_table l src s)
clone_table-Cloned zero src s n ready tree = absurd (omega (arith, n))
clone_table-Cloned (suc l) src s n ready tree = elim (eq_or_ne (alloc_frame s.pmm).0 0) [
  | inl z ↦
      let full = alloc_frame-zero s.pmm ready.pmm in
      subst (Cloned (suc l) s src)
        (sym (clone_table_full l src s z ∙ ap (λ q. (0, record s { pmm = q })) (full.1 z)))
        (record { calm = Calm-refl ready; kept = λ a h. refl; outcome = inr (refl, full.0.0 z) })
  | inr got ↦
      let c = calm1 l s src ready tree got in
      let looped =
        clone_loop_lem l (s1 l s src ready tree got) src (d l s src ready tree got) c.ready
          (omega (arith, (granted l s src ready tree got).managed, c.count))
          (taken l s src ready tree got) (source l s src ready tree got) (clone_table l)
          (λ tbl t lt r tr. clone_table-Cloned l tbl t lt r tr) in
      granted-Cloned l s src ready tree got (
        subst
          (λ p.
            Result l s src ready tree got
              (clone_loop (suc l) (clone_table l) 512 0 src p (s1 l s src ready tree got)))
          (sym (at_dst l s src ready tree got s.hhdm_off refl)) looped)
]

-- The table that the register names.
abbrev pub top : Vmm → ℕ
top s = p2v s (bit_and s.cr3 page_addr_mask)

pub aligned_address : (f : ℕ) → f % 4096 ≡ 0 → f < 2 ^ 52 → bit_and f page_addr_mask ≡ f
aligned_address f al small = omega (arith, address_bits f)
