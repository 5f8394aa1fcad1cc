-- ===== src/Pmm/Layout.antt =====
-- The first two loops of `pmm_init`: the end of managed memory, and the place of the bitmap.
use jmos.Prelude.{
  ℕ, ◌+◌, ◌-◌, ◌*◌, ◌/◌, ◌%◌, ◌^◌, ◌≤◌, ◌<◌, ◌≡◌, refl, ◌≢◌, ◌↔◌, inl, inr, true, ◌&&◌, ◌||◌, List,
  [], ◌∷◌, none, some, arith, ltb, leb, ◌==◌, Bool-cases, ==→eq, ==→ne,
}
use jmos.Prelude.Words.{add64, sub64}
use jmos.Bootinfo.{Region, memmap_usable, memmap_bootloader_reclaimable}
use jmos.Pmm.{page_size, align_up, highest_end, find_bitmap}
use jmos.Pmm.Ranges.{align_up_page, align_up_aligned, IsAligned, AllAligned, in_kind}

highest-le : (rs : List Region) (h : ℕ) → h ≤ highest_end rs h
unfolding highest_end
highest-le [] h = omega arith
highest-le (r ∷ rs) h = ground (arith, highest-le rs h, highest-le rs (add64 r.base r.length))

-- The end is a whole number of pages inside the address space.
pub highest-aligned :
    (rs : List Region) (h : ℕ)
    → AllAligned rs
    → h % page_size ≡ 0
    → h < 2 ^ 64
    → (highest_end rs h % page_size ≡ 0) × (highest_end rs h < 2 ^ 64)
unfolding highest_end
highest-aligned [] h al e b = (e, b)
highest-aligned (r ∷ rs) h al e b =
    elim (Bool-cases (
      (r.kind == memmap_usable || r.kind == memmap_bootloader_reclaimable)
      && ltb h (add64 r.base r.length))) [
        | inl more ↦ rw more (
            let a = al.0 (ground arith) in
            highest-aligned rs (add64 r.base r.length) al.1
              (omega (arith, a.base_aligned, a.length_aligned, a.inside)) (omega arith))
        | inr same ↦ rw same (highest-aligned rs h al.1 e b)
      ]

-- A usable region ends at or below it.
highest-covers :
    (r : Region) (rs : List Region) (h : ℕ)
    → IsAligned r
    → r.kind ≡ memmap_usable
    → r.base + r.length ≤ highest_end (r ∷ rs) h
unfolding highest_end
highest-covers r rs h a k =
    ground (arith, k, a.inside, highest-le rs h, highest-le rs (add64 r.base r.length))

-- A place for the bitmap starts on a page, ends inside managed memory, and is usable memory.
pub record Place (rs : List Region) (h wanted phys : ℕ) : Type 0 where
  pub aligned : phys % page_size ≡ 0
  pub within : phys + wanted ≤ highest_end rs h
  pub usable :
      (j : ℕ)
      → phys / page_size ≤ j
      → j < (phys + wanted) / page_size
      → in_kind memmap_usable rs j ≡ true

Place-next :
    (r : Region) (rs : List Region) (h wanted : ℕ) {phys : ℕ}
    → ((h' : ℕ) → Place rs h' wanted phys)
    → Place (r ∷ rs) h wanted phys
unfolding highest_end in_kind
Place-next r rs h wanted p = record {
  aligned = (p h).aligned;
  within = ground (arith, (p h).within, (p (add64 r.base r.length)).within);
  usable = λ j lo hi. ground (arith, (p h).usable j lo hi);
}

pub find_bitmap-Place :
    (rs : List Region) (h wanted : ℕ) {phys : ℕ}
    → AllAligned rs
    → find_bitmap wanted rs ≡ some phys
    → Place rs h wanted phys
unfolding find_bitmap
find_bitmap-Place [] h wanted al e = absurd (cc)
find_bitmap-Place (r ∷ rs) h wanted {phys} al e = elim (Bool-cases (r.kind == memmap_usable)) [
  | inr other ↦ Place-next r rs h wanted λ h'. find_bitmap-Place rs h' wanted al.1 (ground arith)
  | inl usable ↦
      let a = al.0 (inl (==→eq _ _ usable)) in
      let start : align_up r.base page_size ≡ r.base =
        align_up_aligned r.base (omega (arith, a.inside)) a.base_aligned in
      elim (Bool-cases (leb wanted (sub64 (add64 r.base r.length) r.base))) [
        | inl fits ↦
            let here : phys ≡ r.base = ground (arith, start) in
            record {
              aligned = omega (arith, a.base_aligned);
              within = ground (arith, highest-covers r rs h a (==→eq _ _ usable), a.inside);
              usable = λ j lo hi. unfold in_kind in ground (arith, a.inside);
            }
        | inr short ↦
            Place-next r rs h wanted
              λ h'. find_bitmap-Place rs h' wanted al.1 (ground (arith, start))
      ]
]

abbrev pub AllShort : ℕ → List Region → Type 0
AllShort wanted [] = Unit
AllShort wanted (r ∷ rs) = (r.kind ≡ memmap_usable → r.length < wanted) × AllShort wanted rs

-- On an aligned memory map the search for the bitmap's storage fails exactly when every usable
-- region is too short.
pub find_bitmap-none :
    (rs : List Region) (wanted : ℕ)
    → AllAligned rs
    → (find_bitmap wanted rs ≡ none ↔ AllShort wanted rs)
unfolding find_bitmap
find_bitmap-none [] wanted al = ((λ _. tt), (λ _. refl))
find_bitmap-none (r ∷ rs) wanted al = elim (Bool-cases (r.kind == memmap_usable)) [
  | inr other ↦
      let ih = find_bitmap-none rs wanted al.1 in
      rw other ((λ e. ((λ k. absurd (==→ne _ _ other k)), ih.0 e)), (λ sh. ih.1 sh.1))
  | inl usable ↦
      let k = ==→eq _ _ usable in
      let ih = find_bitmap-none rs wanted al.1 in
      let a = al.0 (inl k) in
      let start : align_up r.base page_size ≡ r.base =
        align_up_aligned r.base (omega (arith, a.inside)) a.base_aligned in
      let room : sub64 (add64 r.base r.length) r.base ≡ r.length = omega (arith, a.inside) in
      rw (usable, start, room)
        (
          (λ e. ((λ _. ground arith), ih.0 (ground arith))),
          (λ sh. ground (arith, sh.0 k, ih.1 sh.1)),
        )
]

-- A usable region that starts and ends inside one page makes the length left behind the aligned
-- base wrap round: it is taken for the bitmap, at an address past its own end.
pub find_bitmap_underflow :
    (r : Region) (rs : List Region) (wanted : ℕ)
    → r.kind ≡ memmap_usable
    → r.base < 2 ^ 63
    → r.base % page_size ≢ 0
    → r.base % page_size + r.length < page_size
    → wanted ≤ 2 ^ 64 - page_size
    → (find_bitmap wanted (r ∷ rs) ≡ some (align_up r.base page_size))
      × (r.base + r.length < align_up r.base page_size)
unfolding find_bitmap
find_bitmap_underflow r rs wanted k small off inside w =
    let start : align_up r.base page_size ≡ (r.base + 4095) / 4096 * 4096 =
      align_up_page r.base (omega arith) in
    rw (start, k) (ground arith, omega arith)
