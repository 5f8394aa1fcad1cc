-- ===== src/Bootinfo/Capture.antt =====
-- What a capture leaves behind for the memory manager.
use native.Mathlib.Nat.{add-zero}
use jmos.Prelude.{
  ℕ, zero, suc, ◌+◌, ◌≤◌, ◌<◌, ◌≡◌, refl, inl, inr, List, [], ◌∷◌, Option, some, arith, length, min,
  get_elem?, update, update_self, update_ne, eq_or_ne, ap, ◌∙◌, sym,
}
use jmos.Bootinfo.{
  Region, LimineFramebuffer, Bootinfo, max_regions, no_region, region_at, clamp, copy_loop,
  entries_of, bootinfo_capture, bootinfo_regions,
}

copy_loop-before :
    (left i j : ℕ) (entries : List Region) (regions : ℕ → Region)
    → j < i
    → copy_loop left i entries regions j ≡ regions j
unfolding copy_loop
copy_loop-before zero i j entries regions lt = refl
copy_loop-before (suc left) i j entries regions lt =
    copy_loop-before left (i + 1) j entries (update regions i (region_at entries i))
      (omega (arith, lt))
    ∙ update_ne regions i j (region_at entries i) (omega (arith, lt))

copy_loop-region_at :
    (left i j : ℕ) (entries : List Region) (regions : ℕ → Region)
    → i ≤ j
    → j < i + left
    → copy_loop left i entries regions j ≡ region_at entries j
unfolding copy_loop
copy_loop-region_at zero i j entries regions lo hi = absurd (omega (arith, lo, hi))
copy_loop-region_at (suc left) i j entries regions lo hi =
    let stored : ℕ → Region = update regions i (region_at entries i) in
    elim (eq_or_ne i j) [
      | inl e ↦
          ap (λ k. copy_loop left (i + 1) entries stored k) (sym e)
          ∙ copy_loop-before left (i + 1) i entries stored (omega arith)
          ∙ update_self regions i (region_at entries i)
          ∙ ap (region_at entries) e
      | inr ne ↦
          copy_loop-region_at left (i + 1) j entries stored (omega (arith, lo, ne))
            (omega (arith, hi))
    ]

length-entries_of : (n i : ℕ) (regions : ℕ → Region) → length (entries_of n i regions) ≡ n
unfolding entries_of
length-entries_of zero i regions = refl
length-entries_of (suc n) i regions = ap suc (length-entries_of n (i + 1) regions)

get_elem-entries_of :
    (n i k : ℕ) (regions : ℕ → Region)
    → k < n
    → get_elem? (entries_of n i regions) k ≡ some (regions (i + k))
unfolding entries_of
get_elem-entries_of zero i k regions lt = absurd (omega (arith, lt))
get_elem-entries_of (suc n) i zero regions lt = ap (λ j. some (regions j)) (sym (add-zero i))
get_elem-entries_of (suc n) i (suc k) regions lt =
    let e : i + 1 + k ≡ i + suc k = omega arith in
    get_elem-entries_of n (i + 1) k regions (omega (arith, lt)) ∙ ap (λ j. some (regions j)) e

get_elem-region_at :
    (entries : List Region) (k : ℕ)
    → k < length entries
    → get_elem? entries k ≡ some (region_at entries k)
unfolding region_at
get_elem-region_at [] k lt = absurd (omega (arith, lt))
get_elem-region_at (e ∷ entries) zero lt = refl
get_elem-region_at (e ∷ entries) (suc k) lt = get_elem-region_at entries k (omega (arith, lt))

clamp_lem : (n : ℕ) → clamp n ≡ min n max_regions
clamp_lem n = ground arith

-- Whatever the boot loader hands over and whatever was stored before, a memory map of up to 256 entries
-- is kept whole, and of a longer one the first 256 entries: as many regions are kept, and at each place
-- the entry of that place.
pub capture_regions_first :
    (memmap : List Region) (hhdm : Option ℕ) (fb : Option LimineFramebuffer) (b : Bootinfo)
    → let kept = bootinfo_regions (bootinfo_capture (some memmap) hhdm fb b) in
      (length kept ≡ min (length memmap) max_regions)
      × ((i : ℕ) → i < length kept → get_elem? kept i ≡ get_elem? memmap i)
unfolding bootinfo_capture bootinfo_regions
capture_regions_first memmap hhdm fb b =
    let n : ℕ = clamp (length memmap) in
    let regions : ℕ → Region = copy_loop n 0 memmap (λ _. no_region) in
    let count : length (entries_of n 0 regions) ≡ n = length-entries_of n 0 regions in
    (
      count ∙ clamp_lem (length memmap),
      λ i lt.
          let below : i < n = omega (arith, lt, count) in
          let inside : i < length memmap = omega (arith, below, clamp_lem (length memmap)) in
          let first : 0 + i ≡ i = omega arith in
          get_elem-entries_of n 0 i regions below
          ∙ ap (λ j. some (regions j)) first
          ∙ ap some (
              copy_loop-region_at n 0 i memmap (λ _. no_region) (omega arith)
                (omega (arith, below)))
          ∙ sym (get_elem-region_at memmap i inside),
    )
