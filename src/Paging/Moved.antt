-- ===== src/Paging/Moved.antt =====
-- The entries that `clone_table` writes: another address, the same other bits.
use jmos.Prelude.{
  ℕ, ◌+◌, ◌-◌, ◌*◌, ◌/◌, ◌%◌, ◌^◌, ◌<◌, ◌≡◌, refl, not, ◌==◌, ◌&&◌, ◌||◌, arith, bit_and, bit_or,
  ap, ◌∙◌,
}
use jmos.Prelude.Split.{
  bit_and_split, bit_or_split, bit_and-zero_right, bit_or-zero_right, bit_or-zero_left, bit_and_low,
}
use jmos.Prelude.Words.{u64_mod}
use jmos.Paging.{page_addr_mask, page_huge, is_present, is_leaf}
use jmos.Paging.Walk.{is_large, maps_here}
use jmos.Paging.Entry.{address_bits, present_bit}

-- `~PAGE_ADDR_MASK`
abbrev pub other_bits : ℕ
other_bits = u64_mod - 1 - page_addr_mask

flag_bits : (e : ℕ) → bit_and e other_bits ≡ e % 2 ^ 12 + 2 ^ 52 * (e / 2 ^ 52 % 2 ^ 12)
flag_bits e =
    let low : ℕ = e % 2 ^ 52 in
    let high : ℕ = e / 2 ^ 52 in
    let cut : e ≡ low + 2 ^ 52 * high = omega arith in
    let parts : bit_and (low + 2 ^ 52 * high) (0xFFF + 2 ^ 52 * 0xFFF)
        ≡ bit_and low 0xFFF + 2 ^ 52 * bit_and high 0xFFF =
      bit_and_split 52 low high 0xFFF 0xFFF (omega arith) (omega arith) in
    ap (λ t. bit_and t other_bits) cut
    ∙ parts
    ∙ omega (arith, bit_and_low 12 low 0xFFF refl, bit_and_low 12 high 0xFFF refl)

moved_sum :
    (c e : ℕ)
    → c % 4096 ≡ 0
    → c < 2 ^ 52
    → bit_or c (bit_and e other_bits) ≡ e % 2 ^ 12 + c + 2 ^ 52 * (e / 2 ^ 52 % 2 ^ 12)
moved_sum c e al small =
    let l : ℕ = e % 2 ^ 12 in
    let h : ℕ = e / 2 ^ 52 % 2 ^ 12 in
    let p : ℕ = c / 2 ^ 12 in
    let outer : bit_or (0 + 2 ^ 12 * p) (l + 2 ^ 12 * (2 ^ 40 * h))
        ≡ bit_or 0 l + 2 ^ 12 * bit_or p (2 ^ 40 * h) =
      bit_or_split 12 0 p l (2 ^ 40 * h) (omega arith) (omega arith) in
    let inner : bit_or (p + 2 ^ 40 * 0) (0 + 2 ^ 40 * h) ≡ bit_or p 0 + 2 ^ 40 * bit_or 0 h =
      bit_or_split 40 p 0 0 h (omega arith) (omega arith) in
    let inner' : bit_or p (2 ^ 40 * h) ≡ p + 2 ^ 40 * h =
      ap (λ t. bit_or t (2 ^ 40 * h)) (omega arith)
      ∙ ap (λ t. bit_or (p + 2 ^ 40 * 0) t) (omega arith)
      ∙ inner
      ∙ omega (arith, bit_or-zero_right p, bit_or-zero_left h) in
    ap (λ t. bit_or c t) (flag_bits e)
    ∙ ap (λ t. bit_or t (l + 2 ^ 52 * h)) (omega arith)
    ∙ ap (λ t. bit_or (0 + 2 ^ 12 * p) t) (omega arith)
    ∙ outer
    ∙ omega (arith, inner', bit_or-zero_left l)

huge_bit : (e : ℕ) → bit_and e page_huge ≡ 2 ^ 7 * (e / 2 ^ 7 % 2)
huge_bit e =
    let low : ℕ = e % 2 ^ 7 in
    let high : ℕ = e / 2 ^ 7 in
    let cut : e ≡ low + 2 ^ 7 * high = omega arith in
    let parts : bit_and (low + 2 ^ 7 * high) (0 + 2 ^ 7 * 1)
        ≡ bit_and low 0 + 2 ^ 7 * bit_and high 1 =
      bit_and_split 7 low high 0 1 (omega arith) (omega arith) in
    ap (λ t. bit_and t page_huge) cut
    ∙ parts
    ∙ omega (arith, bit_and-zero_right low, bit_and_low 1 high 1 refl)

-- The code's test of an entry is the processor's.
pub is_leaf_lem : (level e : ℕ) → is_leaf level e ≡ maps_here level e
is_leaf_lem level e =
    let bit : not (bit_and e page_huge == 0) ≡ is_large e = ground (arith, huge_bit e) in
    ap (λ t. level == 1 || (level == 2 || level == 3) && t) bit

pub record Moved (c e x : ℕ) : Type 0 where
  pub address : bit_and x page_addr_mask ≡ c
  pub others : bit_and x other_bits ≡ bit_and e other_bits
  pub present : is_present x ≡ is_present e
  pub leaf : (level : ℕ) → maps_here level x ≡ maps_here level e

pub Moved-entry :
    (c e : ℕ) → c % 4096 ≡ 0 → c < 2 ^ 52 → Moved c e (bit_or c (bit_and e other_bits))
Moved-entry c e al small =
    let x : ℕ = bit_or c (bit_and e other_bits) in
    let sum = moved_sum c e al small in
    let low : x % 2 ^ 12 ≡ e % 2 ^ 12 = omega (arith, sum) in
    let bit : x / 2 ^ 7 % 2 ≡ e / 2 ^ 7 % 2 = omega (arith, low) in
    record {
      address = omega (arith, address_bits x, sum);
      others = omega (arith, flag_bits x, flag_bits e, sum);
      present = ap (λ t. not (t == 0)) (omega (arith, present_bit x, present_bit e, low));
      leaf = λ level. ap (λ t. level == 1 || (level == 2 || level == 3) && t == 1) bit;
    }
