-- ===== src/Paging/Tree.antt =====
-- Page tables as a tree with large pages, and the addresses that it lies at.
use mathlib.Core.Option
use jmos.Prelude.{
  ℕ, zero, suc, ◌+◌, ◌%◌, ◌^◌, ◌<◌, ◌≡◌, refl, inl, inr, true, false, List, [], ◌∷◌, Option, none,
  some, arith, if◌then◌else◌, bit_and, ap, ◌∙◌, subst, sym, Bool-cases,
}
use jmos.Paging.Walk.{maps_here}
use jmos.Paging.{Vmm, p2v, slot, is_present, page_addr_mask}
use jmos.Paging.Moved.{other_bits}
use jmos.Paging.Tour.{below}

-- The table that an entry leads to.
abbrev pub child_of : Vmm → ℕ → ℕ
child_of s e = p2v s (bit_and e page_addr_mask)

abbrev pub Reached : Type 0
Reached = Option (List ℕ × ℕ)

abbrev pub map_flags : ℕ → Reached → Reached
map_flags e o = Option.map (λ r. (bit_and e other_bits ∷ r.0, r.1)) o

-- What an entry of a table of a level says, `below` what is found from the table that it may lead to.
pub by_entry : ℕ → ℕ → Reached → Reached
by_entry level e further =
    if is_present e then if maps_here level e then some ([], e) else map_flags e further else none

-- What the walk of the processor finds from a table of a level: the entry that maps the page, a large
-- page's included, and the bits other than the address in the entries on the way to it.
unfoldable pub reach : ℕ → Vmm → ℕ → List ℕ → Reached
reach zero s tbl is = none
reach (suc l) s tbl [] = none
reach (suc l) s tbl (i ∷ is) =
    by_entry (suc l) (s.words (slot tbl i)) (reach l s (child_of s (s.words (slot tbl i))) is)

-- The tables from `tbl` down lie at addresses for which `P` holds.
unfoldable pub Tree : (ℕ → Type 0) → ℕ → Vmm → ℕ → Type 0
Tree P zero s tbl = tbl ≡ tbl
Tree P (suc l) s tbl =
    (i : ℕ)
    → i < 512
    → P (slot tbl i)
      × (is_present (s.words (slot tbl i)) ≡ true
          → maps_here (suc l) (s.words (slot tbl i)) ≡ false
          → Tree P l s (child_of s (s.words (slot tbl i))))

module _ (level e : ℕ) (further : Reached) where
  pub by_entry_absent : is_present e ≡ false → by_entry level e further ≡ none
  unfolding by_entry
  by_entry_absent a = rw a refl

  pub by_entry_leaf :
      is_present e ≡ true → maps_here level e ≡ true → by_entry level e further ≡ some ([], e)
  unfolding by_entry
  by_entry_leaf p f = rw (p, f) refl

  pub by_entry_down :
      is_present e ≡ true
      → maps_here level e ≡ false
      → by_entry level e further ≡ map_flags e further
  unfolding by_entry
  by_entry_down p f = rw (p, f) refl

pub by_entry_same :
    (level e : ℕ) (a b : Reached)
    → (is_present e ≡ true → maps_here level e ≡ false → a ≡ b)
    → by_entry level e a ≡ by_entry level e b
by_entry_same level e a b h = elim (Bool-cases (is_present e)) [
  | inl p ↦ elim (Bool-cases (maps_here level e)) [
    | inl f ↦ by_entry_leaf level e a p f ∙ sym (by_entry_leaf level e b p f)
    | inr f ↦ ap (by_entry level e) (h p f)
  ]
  | inr n ↦ by_entry_absent level e a n ∙ sym (by_entry_absent level e b n)
]

pub Tree-mono :
    {P Q : ℕ → Type 0}
    → ((a : ℕ) → P a → Q a)
    → (l : ℕ) (s : Vmm) (tbl : ℕ) → Tree P l s tbl
    → Tree Q l s tbl
unfolding Tree
Tree-mono f zero s tbl t = t
Tree-mono f (suc l) s tbl t =
    λ i lt. (f (slot tbl i) (t i lt).0, λ p n. Tree-mono f l s _ ((t i lt).1 p n))

pub child_of_same : (s s' : Vmm) → s'.hhdm_off ≡ s.hhdm_off → (e : ℕ) → child_of s' e ≡ child_of s e
child_of_same s s' base e = ap (λ h. (bit_and e page_addr_mask + h) % 2 ^ 64) base

-- A state with the same words at the addresses of the tables.
module _ {P : ℕ → Type 0} (s s' : Vmm) (same_words : (a : ℕ) → P a → s'.words a ≡ s.words a)
    (base : s'.hhdm_off ≡ s.hhdm_off) where
  pub Tree-same : (l tbl : ℕ) → Tree P l s tbl → Tree P l s' tbl
  unfolding Tree
  Tree-same zero tbl t = t
  Tree-same (suc l) tbl t = λ i lt.
      let e : ℕ = s.words (slot tbl i) in
      let eq = same_words (slot tbl i) (t i lt).0 in
      (
        (t i lt).0,
        subst (λ x. is_present x ≡ true → maps_here (suc l) x ≡ false → Tree P l s' (child_of s' x))
            (sym eq)
            (λ p n.
              subst (Tree P l s') (sym (child_of_same s s' base e))
                (Tree-same l (child_of s e) ((t i lt).1 p n))),
      )

  pub reach_same :
      (l tbl : ℕ) (is : List ℕ)
      → below is ≡ true
      → Tree P l s tbl
      → reach l s' tbl is ≡ reach l s tbl is
  unfolding reach Tree
  reach_same zero tbl is b t = refl
  reach_same (suc l) tbl [] b t = refl
  reach_same (suc l) tbl (i ∷ is) b t =
      let lt : i < 512 = ground arith in
      let e : ℕ = s.words (slot tbl i) in
      ap (λ x. by_entry (suc l) x (reach l s' (child_of s' x) is))
        (same_words (slot tbl i) (t i lt).0)
      ∙ by_entry_same (suc l) e _ _ (λ p n.
        ap (λ c. reach l s' c is) (child_of_same s s' base e)
        ∙ reach_same l (child_of s e) is (ground arith) ((t i lt).1 p n))
