-- ===== src/Paging/Loop.antt =====
-- The loop of `clone_table`.
use mathlib.Core.Option
use jmos.Paging.Entry.{present_bit}
use jmos.Prelude.{
  ℕ, zero, suc, ◌+◌, ◌*◌, ◌≤◌, ◌<◌, ◌≡◌, refl, ◌⊎◌, inl, inr, Bool, true, false, List, ◌∷◌, arith,
  bit_and, bit_or, length, ap, ◌∙◌, subst, sym, Bool-cases, eq_or_ne,
}
use jmos.Pmm.{bm_test}
use jmos.Paging.Moved.{Moved, Moved-entry, other_bits}
use jmos.Paging.Round.{round_absent, round_leaf, round_full, round_moved}
use jmos.Paging.Held.{
  Off, Inside, Held, Fresh, Ready, Calm, Calm-refl, Calm-trans, Calm-store, Held-Calm, Held-used,
  Off-Inside, Fresh-Calm, Fresh-Held, Fresh-earlier, Copy, Cloned,
}
use jmos.Paging.Walk.{maps_here}
use jmos.Paging.{store, clone_loop, Vmm, p2v, slot, is_present}
use jmos.Paging.Tour.{below}
use jmos.Paging.Tree.{
  child_of_same, by_entry_same, by_entry, by_entry_absent, by_entry_leaf, by_entry_down, map_flags,
  child_of, reach, Tree, Tree-mono, Tree-same, reach_same,
}

-- A table at level `suc l` is copied from `src` to the frame `d`, by calls of `child` for its entries.
module _ (l : ℕ) (s1 : Vmm) (src d : ℕ) (ready : Ready s1) (managed : d < s1.pmm.frame_count)
    (taken : bm_test s1.pmm.bytes d ≡ true)
    (source : Tree (λ a. Held s1 a × Off s1 d a) (suc l) s1 src) where
  abbrev pub dst : ℕ
  dst = d * 4096 + s1.hhdm_off

  abbrev at : ℕ → ℕ
  at j = slot dst j

  -- From a state the entry `x` says what the entry `j` of the original says.
  pub record Says (s : Vmm) (j x : ℕ) : Type 0 where
    pub tree :
        is_present x ≡ true → maps_here (suc l) x ≡ false → Tree (Fresh s1 s) l s (child_of s x)
    pub walks :
        (is : List ℕ)
        → length is ≡ l
        → below is ≡ true
        → by_entry (suc l) x (reach l s (child_of s x) is)
          ≡ by_entry
              (suc l)
              (s1.words (slot src j))
              (reach l s1 (child_of s1 (s1.words (slot src j))) is)

  -- The state once the entries below `i` are copied.
  record Loop (i : ℕ) (s : Vmm) : Type 0 where
    calm : Calm s1 s
    kept : (a : ℕ) → Held s1 a → Off s1 d a → s.words a ≡ s1.words a
    done : (j : ℕ) → j < i → Says s j (s.words (at j))

  Fresh-Off : (s : Vmm) (a : ℕ) → Fresh s1 s a → Off s1 d a
  Fresh-Off s a f =
      Off-Inside s1 d f.k a (λ e. absurd (cc (taken, f.was_free, ap (bm_test s1.pmm.bytes) e)))
        f.inside

  dst_Inside : (j : ℕ) → j < 512 → Inside s1 d (at j)
  dst_Inside j lt = omega (arith, lt)

  -- It still says so when only words that are not held, and the table itself, are written.
  Says-kept :
      (s t : Vmm) (j e : ℕ)
      → Calm s1 s
      → Calm s t
      → ((a : ℕ) → Held s a → Off s1 d a → t.words a ≡ s.words a)
      → Says s j e
      → Says t j e
  Says-kept s t j e c c' kept o =
      let fresh : (a : ℕ) → Fresh s1 s a → t.words a ≡ s.words a =
        λ a f. kept a (Fresh-Held c.base a f) (Fresh-Off s a f) in
      let child = child_of_same s t c'.base e in
      record {
        tree = λ p n. Tree-mono (Fresh-Calm c') l t (child_of t e) (
            subst (Tree (Fresh s1 s) l t) (sym child)
              (Tree-same s t fresh c'.base l (child_of s e) (o.tree p n)));
        walks = λ is len b.
            by_entry_same (suc l) e _ _ (λ p n.
              ap (λ c. reach l t c is) child
              ∙ reach_same s t fresh c'.base l (child_of s e) is b (o.tree p n))
            ∙ o.walks is len b;
      }

  -- A call for another table.
  Loop-child :
      (i : ℕ) (s t : Vmm)
      → i ≤ 512
      → Calm s t
      → ((a : ℕ) → Held s a → t.words a ≡ s.words a)
      → Loop i s
      → Loop i t
  Loop-child i s t le c kept o = record {
    calm = Calm-trans o.calm c;
    kept = λ a h f. kept a (Held-Calm o.calm a h) ∙ o.kept a h f;
    done = λ j lt.
        let same_entry =
          kept (at j)
            (Held-used s d (at j) (o.calm.used d taken) (omega (arith, lt, le, o.calm.base))) in
        subst (Says t j) (sym same_entry)
          (Says-kept s t j (s.words (at j)) o.calm c (λ a h f. kept a h) (o.done j lt));
  }

  -- The write of an entry.
  Loop-store :
      (i x : ℕ) (s : Vmm) → i < 512 → Loop i s → Says s i x → Loop (i + 1) (store s (at i) x)
  Loop-store i x s lt o says =
      let t : Vmm = store s (at i) x in
      let c : Calm s t = Calm-store s (at i) x o.calm.ready in
      let off : (a : ℕ) → Held s a → Off s1 d a → t.words a ≡ s.words a =
        λ a h f. ground (arith, f, lt) in
      record {
        calm = Calm-trans o.calm c;
        kept = λ a h f. off a (Held-Calm o.calm a h) f ∙ o.kept a h f;
        done = λ j lj. elim (eq_or_ne j i) [
          | inl e ↦
              subst (λ k. Says t k (t.words (at k))) (sym e)
                (subst (Says t i) (ground arith) (Says-kept s t i x o.calm c off says))
          | inr n ↦
              subst (Says t j) (ground arith)
                (Says-kept s t j (s.words (at j)) o.calm c off (o.done j (omega (arith, lj, n))))
        ];
      }

  -- The three entries that the loop writes.
  Says_absent : (i : ℕ) (s : Vmm) → is_present (s1.words (slot src i)) ≡ false → Says s i 0
  Says_absent i s a =
      let zero_absent : is_present 0 ≡ false = ground (arith, present_bit 0) in
      record {
        tree = λ p n. absurd (cc (p, zero_absent));
        walks = λ is len b.
            by_entry_absent (suc l) 0 _ zero_absent ∙ sym (by_entry_absent (suc l) _ _ a);
      }

  Says_leaf :
      (i : ℕ) (s : Vmm)
      → is_present (s1.words (slot src i)) ≡ true
      → maps_here (suc l) (s1.words (slot src i)) ≡ true
      → Says s i (s1.words (slot src i))
  Says_leaf i s p f = record {
    tree = λ q n. absurd (cc (f, n));
    walks = λ is len b. by_entry_leaf (suc l) _ _ p f ∙ sym (by_entry_leaf (suc l) _ _ p f);
  }

  source_child :
      (i : ℕ)
      → i < 512
      → is_present (s1.words (slot src i)) ≡ true
      → maps_here (suc l) (s1.words (slot src i)) ≡ false
      → Tree (λ a. Held s1 a × Off s1 d a) l s1 (child_of s1 (s1.words (slot src i)))
  unfolding Tree
  source_child i lt p n = (source i lt).1 p n

  source_at : (i : ℕ) → i < 512 → Held s1 (slot src i) × Off s1 d (slot src i)
  unfolding Tree
  source_at i lt = (source i lt).0

  Says_moved :
      (i c x : ℕ) (s s' : Vmm)
      → i < 512
      → Loop i s
      → Calm s s'
      → is_present (s1.words (slot src i)) ≡ true
      → maps_here (suc l) (s1.words (slot src i)) ≡ false
      → Copy l s (child_of s (s1.words (slot src i))) c s'
      → Moved c (s1.words (slot src i)) x
      → Says s' i x
  Says_moved i c x s s' lt o cal p n copy moved =
      let e : ℕ = s1.words (slot src i) in
      let here : child_of s' x ≡ p2v s' c = ap (λ t. p2v s' t) moved.address in
      let child = source_child i lt p n in
      let before : (is : List ℕ)
          → below is ≡ true
          → reach l s (child_of s e) is ≡ reach l s1 (child_of s1 e) is =
        λ is b.
          ap (λ t. reach l s t is) (child_of_same s1 s o.calm.base e)
          ∙ reach_same s1 s (λ a h. o.kept a h.0 h.1) o.calm.base l (child_of s1 e) is b child in
      record {
        tree = λ q m.
            subst (Tree (Fresh s1 s') l s') (sym here)
              (Tree-mono (Fresh-earlier o.calm) l s' (p2v s' c) copy.tree);
        walks = λ is len b.
            by_entry_down (suc l) x _ (moved.present ∙ p) (moved.leaf (suc l) ∙ n)
            ∙ ap (λ f. Option.map (λ r. (f ∷ r.0, r.1)) (reach l s' (child_of s' x) is))
                moved.others
            ∙ ap (map_flags e) (ap (λ t. reach l s' t is) here ∙ copy.walks is len b ∙ before is b)
            ∙ sym (by_entry_down (suc l) e _ p n);
      }

  -- The outcome of the loop: all entries are copied, or it gave up where no frame is free.
  pub record Looped (r : Bool × Vmm) : Type 0 where
    pub calm : Calm s1 r.1
    pub kept : (a : ℕ) → Held s1 a → Off s1 d a → r.1.words a ≡ s1.words a
    pub outcome :
        (r.0 ≡ true) × ((j : ℕ) → j < 512 → Says r.1 j (r.1.words (at j)))
        ⊎ (r.0 ≡ false) × (r.1.pmm.free_frames_n ≡ 0)

  module _ (child : ℕ → Vmm → ℕ × Vmm)
      (child_copies : (tbl : ℕ) (s : Vmm)
        → 0 < l
        → Ready s
        → Tree (Held s) l s tbl
        → Cloned l s tbl (child tbl s)) where
    -- The source's table below an entry, from the state that the loop has reached.
    child_Cloned :
        (i : ℕ) (s : Vmm)
        → i < 512
        → Loop i s
        → is_present (s1.words (slot src i)) ≡ true
        → maps_here (suc l) (s1.words (slot src i)) ≡ false
        → Cloned l s
            (child_of s (s1.words (slot src i)))
            (child (child_of s (s1.words (slot src i))) s)
    child_Cloned i s lt o p n =
        let e : ℕ = s1.words (slot src i) in
        let there : Tree (λ a. Held s1 a × Off s1 d a) l s (child_of s1 e) =
          Tree-same s1 s (λ a h. o.kept a h.0 h.1) o.calm.base l (child_of s1 e)
            (source_child i lt p n) in
        let held : Tree (Held s) l s (child_of s1 e) =
          Tree-mono (λ a h. Held-Calm o.calm a h.0) l s (child_of s1 e) there in
        child_copies (child_of s e) s (ground (arith, n)) o.calm.ready
          (subst (Tree (Held s) l s) (sym (child_of_same s1 s o.calm.base e)) held)

    loop_lem :
        (left i : ℕ) (s : Vmm)
        → i + left ≡ 512
        → Loop i s
        → Looped (clone_loop (suc l) child left i src dst s)
    unfolding clone_loop
    loop_lem zero i s eq o = record {
      calm = o.calm;
      kept = o.kept;
      outcome = inl (refl, λ j lt. o.done j (omega (arith, lt, eq)));
    }
    loop_lem (suc left) i s eq o =
        let lt : i < 512 = omega (arith, eq) in
        let e : ℕ = s1.words (slot src i) in
        let now : s.words (slot src i) ≡ e =
          o.kept (slot src i) (source_at i lt).0 (source_at i lt).1 in
        let go = λ (x : ℕ) (t : Vmm) (ot : Loop i t) (says : Says t i x).
          loop_lem left (i + 1) (store t (at i) x) (omega (arith, eq))
            (Loop-store i x t lt ot says) in
        elim (Bool-cases (is_present e)) [
          | inr a ↦
              subst Looped (sym (round_absent (suc l) child left i src dst s e now a))
                (go 0 s o (Says_absent i s a))
          | inl p ↦ elim (Bool-cases (maps_here (suc l) e)) [
            | inl f ↦
                subst Looped (sym (round_leaf (suc l) child left i src dst s e now p f))
                  (go e s o (Says_leaf i s p f))
            | inr n ↦
                let cl = child_Cloned i s lt o p n in
                let s' : Vmm = (child (child_of s e) s).1 in
                let after : Loop i s' = Loop-child i s s' (omega (arith, lt)) cl.calm cl.kept o in
                elim cl.outcome [
                  | inl copy ↦
                      let c : ℕ = (child (child_of s e) s).0 in
                      subst Looped
                        (sym (round_moved (suc l) child left i src dst s e now p n copy.real))
                        (go (bit_or c (bit_and e other_bits)) s' after (
                          Says_moved i c (bit_or c (bit_and e other_bits)) s s' lt o cl.calm p n
                            copy (Moved-entry c e copy.aligned copy.small)))
                  | inr full ↦
                      subst Looped
                        (sym (round_full (suc l) child left i src dst s e now p n full.0))
                        (record {
                          calm = after.calm;
                          kept = after.kept;
                          outcome = inr (refl, full.1);
                        })
                ]
          ]
        ]

    pub clone_loop_lem : Looped (clone_loop (suc l) child 512 0 src dst s1)
    clone_loop_lem = loop_lem 512 0 s1 refl (record {
      calm = Calm-refl ready;
      kept = λ a h f. refl;
      done = λ j lt. absurd (omega (arith, lt));
    })
