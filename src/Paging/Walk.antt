-- ===== src/Paging/Walk.antt =====
-- The walk that the processor makes through the tables.
use jmos.Prelude.{
  ℕ, ◌+◌, ◌/◌, ◌%◌, ◌^◌, bit_and, ◌==◌, ◌&&◌, ◌||◌, Bool, true, false, List, [], ◌∷◌, Option, none,
  some,
}
use mathlib.Core.Option
use jmos.Paging.{Vmm, p2v, slot, is_present, page_addr_mask}

-- Bit 7, which makes an entry above the last level map a large page.
abbrev pub is_large : ℕ → Bool
is_large e = e / 2 ^ 7 % 2 == 1

-- Whether a present entry of a table of a level ends the walk: at the last level, and at a large page of
-- 2 MiB or 1 GiB.
abbrev pub maps_here : ℕ → ℕ → Bool
maps_here level e = level == 1 || (level == 2 || level == 3) && is_large e

-- The entry for a page of 4 KiB that the indices lead to from the table at `tbl`: the last one's, if all
-- are present and none of those above it maps a large page, where the processor stops.
unfoldable pub walk : Vmm → ℕ → List ℕ → Option ℕ
walk s tbl [] = none
walk s tbl (i ∷ []) = elim (is_present (s.words (slot tbl i))) [
  | true ↦ some (s.words (slot tbl i))
  | false ↦ none
]
walk s tbl (i ∷ j ∷ is) = elim (is_present (s.words (slot tbl i))) [
  | true ↦ elim (is_large (s.words (slot tbl i))) [
    | true ↦ none
    | false ↦ walk s (p2v s (bit_and (s.words (slot tbl i)) page_addr_mask)) (j ∷ is)
  ]
  | false ↦ none
]

-- The indices of an address: bits 47 to 39, 38 to 30, 29 to 21 and 20 to 12.
abbrev pub indices : ℕ → List ℕ
indices va = va / 2 ^ 39 % 512 ∷ va / 2 ^ 30 % 512 ∷ va / 2 ^ 21 % 512 ∷ va / 2 ^ 12 % 512 ∷ []

-- The entry for an address, from the table at physical address `root`.
abbrev pub entry_of : Vmm → ℕ → ℕ → Option ℕ
entry_of s root va = walk s (p2v s root) (indices va)

-- The physical address that an address translates to.
abbrev pub translate : Vmm → ℕ → ℕ → Option ℕ
translate s root va = Option.map (λ e. bit_and e page_addr_mask + va % 4096) (entry_of s root va)
