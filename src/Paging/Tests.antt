-- ===== src/Paging/Tests.antt =====
-- The page-table theorems at a small address space.
use jmos.Prelude.{
  ℕ, ◌/◌, ◌%◌, ◌<◌, ◌≡◌, refl, ◌≢◌, true, false, List, [], ◌∷◌, some, arith, ◌==◌, bit_and, ◌∙◌,
  sym,
}
use jmos.Pmm.{bm_test}
use jmos.Paging.Entry.{present_bit, page_entry_bits}
use jmos.Paging.Tree.{Tree}
use jmos.Paging.Held.{Held, Held-used, Cloned}
use jmos.Paging.Clone.{clone_table-Cloned}
use jmos.Pmm.Tests.{tiny, tiny-IsValid, third_used}
use jmos.Paging.{clone_table, Vmm, slot, is_present, page_addr_mask, map_page, page_entry}
use jmos.Paging.Walk.{translate}
use jmos.Paging.Space.{Tables, Space}
use jmos.Paging.Map.{map_page_succeeds}

-- The top table in frame 3, empty.
abbrev one_table : Tables
one_table [] = 0x3000
one_table (i ∷ ps) = 0

abbrev empty_space : Vmm
empty_space = record { words = λ _. 0; hhdm_off = 0x100000; pmm = tiny; cr3 = 0x3000; flushed = [] }

only_top : (ps : List ℕ) → one_table ps ≢ 0 → ps ≡ []
only_top [] n = refl
only_top (i ∷ ps) n = absurd (n refl)

one_frame :
    (ps : List ℕ)
    → one_table ps ≢ 0
    → (one_table ps % 4096 ≡ 0)
      × (one_table ps / 4096 < 8)
      × (bm_test tiny.bytes (one_table ps / 4096) ≡ true)
one_frame [] n = (refl, omega arith, third_used)
one_frame (i ∷ ps) n = absurd (n refl)

absent_zero : is_present 0 ≡ false
absent_zero = ground (arith, present_bit 0)

empty_space-Space : Space empty_space one_table
empty_space-Space = record {
  pmm = tiny-IsValid;
  few = omega arith;
  mapped = omega arith;
  top = omega arith;
  frame = one_frame;
  apart = λ ps qs n e. only_top ps n ∙ sym (only_top qs (λ z. n (e ∙ z)));
  closed = λ ps i z. refl;
  there = λ ps i l b n p. absurd (cc (p, absent_zero));
  no_large = λ ps i l b n p. absurd (cc (p, absent_zero));
  gone = λ ps i l b n p. refl;
}

-- A page of the kernel's half: three tables are missing.
abbrev kernel_page : ℕ
kernel_page = 0xFFFFFFFF80401000

map_page_succeeds_example :
    translate (map_page 0x103000 kernel_page 0x5000 3 empty_space) 0x3000 kernel_page ≡ some 0x5000
map_page_succeeds_example =
    map_page_succeeds kernel_page 0x5000 3 empty_space-Space (omega arith) refl

top_Held : (i : ℕ) → i < 512 → Held empty_space (slot 0x103000 i)
top_Held i lt = Held-used empty_space 3 (slot 0x103000 i) third_used (omega (arith, lt))

top_Tree : Tree (Held empty_space) 4 empty_space 0x103000
unfolding Tree
top_Tree = λ i lt. (top_Held i lt, λ p n. absurd (cc (p, absent_zero)))

clone_table-Cloned_example : Cloned 4 empty_space 0x103000 (clone_table 4 0x103000 empty_space)
clone_table-Cloned_example =
    clone_table-Cloned 4 0x103000 empty_space (omega arith)
      (record { pmm = tiny-IsValid; few = omega arith; mapped = omega arith }) top_Tree

page_entry_bits_example :
    (bit_and (page_entry 0x5000 3) page_addr_mask ≡ bit_and 0x5000 page_addr_mask)
    × (is_present (page_entry 0x5000 3) ≡ (3 % 2 == 1))
page_entry_bits_example = page_entry_bits 0x5000 3
