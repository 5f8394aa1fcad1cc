-- ===== src/Paging/Round.antt =====
-- The branches of one round of the loop of `clone_table`.

use jmos.Prelude.{
  ℕ, suc, ◌+◌, ◌≡◌, refl, ◌≢◌, Bool, true, false, arith, ◌==◌, bit_and, bit_or, ap, ◌∙◌, subst,
}
use jmos.Paging.Moved.{other_bits, is_leaf_lem}
use jmos.Paging.Walk.{maps_here}
use jmos.Paging.{store, clone_loop, Vmm, slot, is_present}
use jmos.Paging.Tree.{child_of}

module _ (level : ℕ) (child : ℕ → Vmm → ℕ × Vmm) (left i src dst : ℕ) (s : Vmm) (e : ℕ)
    (now : s.words (slot src i) ≡ e) where
  abbrev rounds : Bool × Vmm
  rounds = clone_loop level child (suc left) i src dst s

  pub round_absent :
      is_present e ≡ false
      → rounds ≡ clone_loop level child left (i + 1) src dst (store s (slot dst i) 0)
  unfolding clone_loop
  round_absent a = rw (clone_loop, ap is_present now ∙ a) refl

  pub round_leaf :
      is_present e ≡ true
      → maps_here level e ≡ true
      → rounds ≡ clone_loop level child left (i + 1) src dst (store s (slot dst i) e)
  unfolding clone_loop
  round_leaf =
      subst
        (λ x.
          is_present x ≡ true
          → maps_here level x ≡ true
          → rounds ≡ clone_loop level child left (i + 1) src dst (store s (slot dst i) x))
        now (λ p f. rw (clone_loop, p, is_leaf_lem level (s.words (slot src i)) ∙ f) refl)

  pub round_full :
      is_present e ≡ true
      → maps_here level e ≡ false
      → (child (child_of s e) s).0 ≡ 0
      → rounds ≡ (false, (child (child_of s e) s).1)
  unfolding clone_loop
  round_full =
      subst
        (λ x.
          is_present x ≡ true
          → maps_here level x ≡ false
          → (child (child_of s x) s).0 ≡ 0
          → rounds ≡ (false, (child (child_of s x) s).1))
        now (λ p n z. rw (clone_loop, p, is_leaf_lem level (s.words (slot src i)) ∙ n, z) refl)

  abbrev moved_state : ℕ → Vmm
  moved_state x =
      store (child (child_of s x) s).1 (slot dst i)
        (bit_or (child (child_of s x) s).0 (bit_and x other_bits))

  pub round_moved :
      is_present e ≡ true
      → maps_here level e ≡ false
      → (child (child_of s e) s).0 ≢ 0
      → rounds ≡ clone_loop level child left (i + 1) src dst (moved_state e)
  unfolding clone_loop
  round_moved =
      subst
        (λ x.
          is_present x ≡ true
          → maps_here level x ≡ false
          → (child (child_of s x) s).0 ≢ 0
          → rounds ≡ clone_loop level child left (i + 1) src dst (moved_state x))
        now
        (λ p n nz.
          let got : ((child (child_of s (s.words (slot src i))) s).0 == 0) ≡ false =
            ground (arith, nz) in
          rw (clone_loop, p, is_leaf_lem level (s.words (slot src i)) ∙ n, got) refl)
