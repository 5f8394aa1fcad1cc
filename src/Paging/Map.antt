-- ===== src/Paging/Map.antt =====
-- `map_page` in an address space.
use jmos.Prelude.{
  ℕ, suc, ◌+◌, ◌/◌, ◌%◌, ◌^◌, ◌≤◌, ◌<◌, ◌≡◌, refl, ◌≢◌, ◌⊎◌, inl, inr, false, List, [], ◌∷◌, Option,
  none, some, arith, ◌==◌, if◌then◌else◌, bit_and, length, ap, ◌∙◌, subst, sym, update,
}
use jmos.Paging.{
  Vmm, p2v, slot, page_addr_mask, next_level, set_page, map_page, pml4_idx, pdpt_idx, pd_idx,
  pt_idx, page_entry,
}
use jmos.Paging.Entry.{index_low, page_entry_bits}
use jmos.Paging.Walk.{walk, indices, entry_of, translate}
use jmos.Paging.Tour.{below_indices, found, tour}
use jmos.Paging.Space.{Tables, Space, same, same_refl, p2v-table}
use jmos.Paging.Level.{Kept, Level, next_level-Level}
use jmos.Paging.Leaf.{written-Space, tour-written, onto}

-- The walks of the address space lead where they led, but for the walk by the indices `is`, which
-- leads to `entry`; or no frame is free for a table that is missing, after fewer than `n` were, and all
-- lead where they led.
pub record Mapped (s : Vmm) (tab : Tables) (is : List ℕ) (entry : Option ℕ) (va n : ℕ) (s' : Vmm)
    : Type 0 where
  pub tables : Tables
  pub space : Space s' tables
  pub root : tables [] ≡ tab []
  pub maps :
      ((va' : ℕ)
          → entry_of s' (tab []) va'
            ≡ (if same (indices va') is then entry else entry_of s (tab []) va'))
        × (s'.flushed ≡ va ∷ s.flushed)
      ⊎ (s'.pmm.free_frames_n ≡ 0)
        × (s'.flushed ≡ s.flushed)
        × (s.pmm.free_frames_n < n)
        × ((va' : ℕ) → entry_of s' (tab []) va' ≡ entry_of s (tab []) va')

root_walks :
    {s s' : Vmm} {tab tab' : Tables} {v : Space s tab} (k : Kept s tab v s' tab')
    → (va' : ℕ) → entry_of s' (tab []) va' ≡ entry_of s (tab []) va'
root_walks {s} {s'} {tab} {tab'} {v} k va' =
    ap (λ t. walk s' (p2v s' t) (indices va')) (sym (k.tables [] v.top))
    ∙ k.walks [] (indices va') v.top (omega arith) (below_indices va')

module _ {is : List ℕ} {entry : Option ℕ} {va : ℕ} where
  Mapped-after :
      {s s' s'' : Vmm} {tab tab' : Tables} {v : Space s tab} {n : ℕ}
      → Kept s tab v s' tab'
      → s.pmm.free_frames_n ≤ s'.pmm.free_frames_n + 1
      → Mapped s' tab' is entry va n s''
      → Mapped s tab is entry va (suc n) s''
  Mapped-after {s} {s'} {s''} {tab} {tab'} {v} {n} k c m =
      let top = k.tables [] v.top in
      let at_root : (va' : ℕ) → entry_of s'' (tab []) va' ≡ entry_of s'' (tab' []) va' =
        λ va'. ap (λ t. entry_of s'' t va') (sym top) in
      let before : (va' : ℕ) → entry_of s' (tab' []) va' ≡ entry_of s (tab []) va' =
        λ va'. k.walks [] (indices va') v.top (omega arith) (below_indices va') in
      record {
        tables = m.tables;
        space = m.space;
        root = m.root ∙ top;
        maps = elim m.maps [
          | inl done ↦ inl (
            (λ va'.
                at_root va'
                ∙ done.0 va'
                ∙ ap (λ t. if same (indices va') is then entry else t) (before va')),
            done.1 ∙ ap (λ t. va ∷ t) k.quiet,
          )
          | inr full ↦ inr (
            full.0,
            full.1 ∙ k.quiet,
            omega (arith, full.2, c),
            λ va'. at_root va' ∙ full.3 va' ∙ before va',
          )
        ];
      }

  -- A step towards a table, and the rest of the call if there is one.
  Mapped-Level :
      {s : Vmm} {tab : Tables} {v : Space s tab} {n : ℕ} {qs : List ℕ} {r : ℕ × Vmm} {rest : Vmm}
      (l : Level s tab v qs r)
      → (r.0 ≡ p2v r.1 (l.tables qs) → l.tables qs ≢ 0 → Mapped r.1 l.tables is entry va n rest)
      → Mapped s tab is entry va (suc n) (if r.0 == 0 then r.1 else rest)
  Mapped-Level {s} {tab} {v} {n} {qs} {r} {rest} l go = elim l.outcome [
    | inl ok ↦
        let got : (r.0 == 0) ≡ false = ground (arith, ok.0, p2v-table l.kept.space qs ok.1) in
        rw got (Mapped-after l.kept l.cost (go ok.0 ok.1))
    | inr full ↦ rw full.0 (record {
      tables = l.tables;
      space = l.kept.space;
      root = l.kept.tables [] v.top;
      maps = inr (full.1, l.kept.quiet, omega (arith, full.2), root_walks l.kept);
    })
  ]

-- The path by four indices is their reverse.
same-onto :
    (va a b c d : ℕ)
    → same (onto (indices va) []) (d ∷ c ∷ b ∷ a ∷ []) ≡ same (indices va) (a ∷ b ∷ c ∷ d ∷ [])
same-onto va a b c d = ground arith

set_page_writes :
    (s : Vmm) (t pt va pa flags : ℕ)
    → pt ≡ t
    → set_page pt va pa flags s ≡ record s {
      words = update s.words (slot t (va / 2 ^ 12 % 512)) (page_entry pa flags);
      flushed = va ∷ s.flushed;
    }
unfolding set_page
set_page_writes s t pt va pa flags e =
    let at : slot pt (pt_idx va) ≡ slot t (va / 2 ^ 12 % 512) =
      omega (arith, index_low (va / 2 ^ 12)) in
    ap (λ q. record s { words = update s.words q (page_entry pa flags); flushed = va ∷ s.flushed })
      at

-- The write of the entry, once the last table is there.
set_page-Mapped :
    {s : Vmm} {tab : Tables} (v : Space s tab) (a b c pt va pa flags : ℕ)
    → pt ≡ p2v s (tab (c ∷ b ∷ a ∷ []))
    → tab (c ∷ b ∷ a ∷ []) ≢ 0
    → Mapped s tab
        (a ∷ b ∷ c ∷ va / 2 ^ 12 % 512 ∷ [])
        (found (page_entry pa flags))
        va
        0
        (set_page pt va pa flags s)
set_page-Mapped {s} {tab} v a b c pt va pa flags at nz =
    let qs : List ℕ = c ∷ b ∷ a ∷ [] in
    let d : ℕ = va / 2 ^ 12 % 512 in
    let e : ℕ = page_entry pa flags in
    let w = written-Space v qs d e (va ∷ s.flushed) refl (omega arith) nz in
    let walks = λ (va' : ℕ).
      tour-written v qs d e (va ∷ s.flushed) refl (omega arith) nz (indices va') [] v.top
        (omega arith) (omega arith) (below_indices va')
      ∙ ap (λ t. if t then found e else tour v [] (indices va')) (same-onto va' a b c d) in
    subst (Mapped s tab (a ∷ b ∷ c ∷ d ∷ []) (found e) va 0)
      (sym (set_page_writes s (tab qs + s.hhdm_off) pt va pa flags (at ∙ (p2v-table v qs nz).0)))
      (record { tables = tab; space = w; root = refl; maps = inl (walks, refl) })

Level-at :
    {s : Vmm} {tab : Tables} (v : Space s tab) (ps : List ℕ) (i q : ℕ)
    → length ps < 3
    → i < 512
    → q ≡ p2v s (tab ps)
    → tab ps ≢ 0
    → Level s tab v (i ∷ ps) (next_level q i s)
Level-at {s} {tab} v ps i q deep lt at nz =
    subst (λ t. Level s tab v (i ∷ ps) (next_level t i s)) (sym at)
      (next_level-Level v ps i deep lt nz)

-- `map_page` with the indices computed.
map_page_steps :
    {s : Vmm} {tab : Tables} (v : Space s tab) (a b c va pa flags : ℕ)
    → a < 512
    → b < 512
    → c < 512
    → Mapped s tab (a ∷ b ∷ c ∷ va / 2 ^ 12 % 512 ∷ []) (found (page_entry pa flags)) va 3 (
        let (pdpt, s1) = next_level (p2v s (tab [])) a s in
        let (pd, s2) = next_level pdpt b s1 in
        let (pt, s3) = next_level pd c s2 in
        if pdpt == 0
        then s1
        else if pd == 0
        then s2
        else if pt == 0
        then s3
        else set_page pt va pa flags s3)
map_page_steps {s} {tab} v a b c va pa flags la lb lc =
    let l1 = Level-at v [] a (p2v s (tab [])) (omega arith) la refl v.top in
    Mapped-Level l1 (λ p1 n1.
      let l2 = Level-at l1.kept.space (a ∷ []) b _ (omega arith) lb p1 n1 in
      Mapped-Level l2 (λ p2 n2.
        let l3 = Level-at l2.kept.space (b ∷ a ∷ []) c _ (omega arith) lc p2 n2 in
        Mapped-Level l3 (λ p3 n3. set_page-Mapped l3.kept.space a b c _ va pa flags p3 n3)))

found_entry :
    (pa flags : ℕ)
    → found (page_entry pa flags) ≡ (if flags % 2 == 1 then some (page_entry pa flags) else none)
found_entry pa flags =
    ap (λ b. if b then some (page_entry pa flags) else none) (page_entry_bits pa flags).1

index_list : (va : ℕ) → pml4_idx va ∷ pdpt_idx va ∷ pd_idx va ∷ va / 2 ^ 12 % 512 ∷ [] ≡ indices va
index_list va = rw (index_low (va / 2 ^ 39), index_low (va / 2 ^ 30), index_low (va / 2 ^ 21)) refl

pub map_page-Mapped :
    {s : Vmm} {tab : Tables} (va pa flags : ℕ)
    → Space s tab
    → Mapped s tab
        (indices va)
        (if flags % 2 == 1 then some (page_entry pa flags) else none)
        va
        3
        (map_page (p2v s (tab [])) va pa flags s)
unfolding map_page
map_page-Mapped {s} {tab} va pa flags v =
    let steps =
      map_page_steps v (pml4_idx va) (pdpt_idx va) (pd_idx va) va pa flags
        (omega (arith, index_low (va / 2 ^ 39))) (omega (arith, index_low (va / 2 ^ 30)))
        (omega (arith, index_low (va / 2 ^ 21))) in
    subst (λ e. Mapped s tab (indices va) e va 3 (map_page (p2v s (tab [])) va pa flags s))
      (found_entry pa flags)
      (subst
        (λ is.
          Mapped s tab is (found (page_entry pa flags)) va 3
            (map_page (p2v s (tab [])) va pa flags s))
        (index_list va) steps)

-- In an address space with no large page above the last level and with three free frames or more, and
-- for flags with the present bit, after `map_page` the virtual address translates to the physical page,
-- at the address's place in the page.
pub map_page_succeeds :
    {s : Vmm} {tab : Tables} (va pa flags : ℕ)
    → Space s tab
    → 3 ≤ s.pmm.free_frames_n
    → flags % 2 ≡ 1
    → translate (map_page (p2v s (tab [])) va pa flags s) (tab []) va
      ≡ some (bit_and pa page_addr_mask + va % 4096)
map_page_succeeds {s} {tab} va pa flags v enough on = elim (map_page-Mapped va pa flags v).maps [
  | inl done ↦
      let entry : entry_of (map_page (p2v s (tab [])) va pa flags s) (tab []) va
          ≡ some (page_entry pa flags) =
        rw (same_refl (indices va), on) at (done.0 va) in
      rw (entry, (page_entry_bits pa flags).0) refl
  | inr full ↦ absurd (omega (arith, full.2, enough))
]
