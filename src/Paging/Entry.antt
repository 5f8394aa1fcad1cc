-- ===== src/Paging/Entry.antt =====
-- The bits of an entry, and the indices of an address.
use jmos.Prelude.{
  ℕ, ◌+◌, ◌-◌, ◌*◌, ◌/◌, ◌%◌, ◌^◌, ◌<◌, ◌≡◌, refl, true, false, ◌==◌, arith, bit_and, bit_or, ap,
  ◌∙◌,
}
use jmos.Prelude.Split.{
  bit_and_split, bit_or_split, bit_and-zero_right, bit_or-zero_right, bit_or-zero_left, bit_and_low,
}
use jmos.Paging.Walk.{is_large}
use jmos.Paging.{page_addr_mask, page_nx, is_present, page_entry}

pub index_low : (x : ℕ) → bit_and x 0x1FF ≡ x % 512
index_low x = bit_and_low 9 x 0x1FF refl

pub present_bit : (e : ℕ) → bit_and e 1 ≡ e % 2
present_bit e = bit_and_low 1 e 1 refl

-- Bits 51 to 12.
pub address_bits : (e : ℕ) → bit_and e page_addr_mask ≡ 2 ^ 12 * (e / 2 ^ 12 % 2 ^ 40)
address_bits e =
    let low : ℕ = e % 2 ^ 12 in
    let high : ℕ = e / 2 ^ 12 in
    let cut : e ≡ low + 2 ^ 12 * high = omega arith in
    let parts : bit_and (low + 2 ^ 12 * high) (0 + 2 ^ 12 * (2 ^ 40 - 1))
        ≡ bit_and low 0 + 2 ^ 12 * bit_and high (2 ^ 40 - 1) =
      bit_and_split 12 low high 0 (2 ^ 40 - 1) (omega arith) (omega arith) in
    ap (λ t. bit_and t page_addr_mask) cut
    ∙ parts
    ∙ omega (arith, bit_and-zero_right low, bit_and_low 40 high (2 ^ 40 - 1) refl)

-- The entry of a new table is the frame's address, present and writable.
pub table_entry :
    (f : ℕ)
    → f % 4096 ≡ 0
    → f < 2 ^ 52
    → (bit_and (bit_or (bit_or f 1) 2) page_addr_mask ≡ f)
      × (is_present (bit_or (bit_or f 1) 2) ≡ true)
      × (is_large (bit_or (bit_or f 1) 2) ≡ false)
table_entry f al small =
    let high : ℕ = f / 2 ^ 12 in
    let cut : f ≡ 0 + 2 ^ 12 * high = omega arith in
    let one : bit_or (0 + 2 ^ 12 * high) (1 + 2 ^ 12 * 0) ≡ bit_or 0 1 + 2 ^ 12 * bit_or high 0 =
      bit_or_split 12 0 high 1 0 (omega arith) (omega arith) in
    let one' : bit_or f 1 ≡ 1 + 2 ^ 12 * high =
      ap (λ t. bit_or t 1) cut ∙ one ∙ omega (arith, bit_or-zero_right high, bit_or-zero_left 1) in
    let two : bit_or (1 + 2 ^ 12 * high) (2 + 2 ^ 12 * 0) ≡ bit_or 1 2 + 2 ^ 12 * bit_or high 0 =
      bit_or_split 12 1 high 2 0 (omega arith) (omega arith) in
    let two' : bit_or (bit_or f 1) 2 ≡ 3 + 2 ^ 12 * high =
      ap (λ t. bit_or t 2) one' ∙ two ∙ omega (arith, bit_or-zero_right high) in
    rw two' (
      omega (arith, address_bits (3 + 2 ^ 12 * high)),
      ground (arith, present_bit (3 + 2 ^ 12 * high)),
      ground arith,
    )

top_bit : (x : ℕ) → bit_and x page_nx ≡ 2 ^ 63 * (x / 2 ^ 63 % 2)
top_bit x =
    let low : ℕ = x % 2 ^ 63 in
    let high : ℕ = x / 2 ^ 63 in
    let cut : x ≡ low + 2 ^ 63 * high = omega arith in
    let parts : bit_and (low + 2 ^ 63 * high) (0 + 2 ^ 63 * 1)
        ≡ bit_and low 0 + 2 ^ 63 * bit_and high 1 =
      bit_and_split 63 low high 0 1 (omega arith) (omega arith) in
    ap (λ t. bit_and t page_nx) cut
    ∙ parts
    ∙ omega (arith, bit_and-zero_right low, bit_and_low 1 high 1 refl)

-- The three parts of the entry that `map_page` writes have no bit in common.
page_entry_sum :
    (pa flags : ℕ)
    → page_entry pa flags
      ≡ flags % 2 ^ 12 + 2 ^ 12 * (pa / 2 ^ 12 % 2 ^ 40) + 2 ^ 63 * (flags / 2 ^ 63 % 2)
unfolding page_entry
page_entry_sum pa flags =
    let a : ℕ = pa / 2 ^ 12 % 2 ^ 40 in
    let l : ℕ = flags % 2 ^ 12 in
    let n : ℕ = flags / 2 ^ 63 % 2 in
    let low : bit_or (0 + 2 ^ 12 * a) (l + 2 ^ 12 * 0) ≡ bit_or 0 l + 2 ^ 12 * bit_or a 0 =
      bit_or_split 12 0 a l 0 (omega arith) (omega arith) in
    let first : bit_or (2 ^ 12 * a) l ≡ l + 2 ^ 12 * a =
      ap (λ t. bit_or t l) (omega arith)
      ∙ ap (λ t. bit_or (0 + 2 ^ 12 * a) t) (omega arith)
      ∙ low
      ∙ omega (arith, bit_or-zero_right a, bit_or-zero_left l) in
    let e : ℕ = l + 2 ^ 12 * a in
    let high : bit_or (e + 2 ^ 63 * 0) (0 + 2 ^ 63 * n) ≡ bit_or e 0 + 2 ^ 63 * bit_or 0 n =
      bit_or_split 63 e 0 0 n (omega arith) (omega arith) in
    let second : bit_or e (2 ^ 63 * n) ≡ e + 2 ^ 63 * n =
      ap (λ t. bit_or t (2 ^ 63 * n)) (omega arith)
      ∙ ap (λ t. bit_or (e + 2 ^ 63 * 0) t) (omega arith)
      ∙ high
      ∙ omega (arith, bit_or-zero_right e, bit_or-zero_left n) in
    rw (address_bits pa, bit_and_low 12 flags 0xFFF refl, top_bit flags, first) second

-- The entry that `map_page` writes holds bits 51 to 12 of the physical address, and it is present
-- exactly where the flags say so.
pub page_entry_bits :
    (pa flags : ℕ)
    → (bit_and (page_entry pa flags) page_addr_mask ≡ bit_and pa page_addr_mask)
      × (is_present (page_entry pa flags) ≡ (flags % 2 == 1))
page_entry_bits pa flags =
    let e = page_entry_sum pa flags in
    (
      omega (arith, address_bits (page_entry pa flags), address_bits pa, e),
      ground (arith, present_bit (page_entry pa flags), e),
    )
