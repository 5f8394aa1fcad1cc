-- ===== src/Pmm/Run.antt =====
-- The first-fit search of `alloc_frames` for a run of free frames.
use jmos.Prelude.{
  ℕ, zero, suc, ◌+◌, ◌-◌, ◌≤◌, ◌<◌, ◌≡◌, refl, ◌≢◌, ◌⊎◌, inl, inr, true, false, ◌&&◌, arith, ltb,
  leb, ◌==◌, if◌then◌else◌, Bool-cases, eq_or_ne, lt_or_le, subst, ==→eq, ==→ne,
}
use jmos.Prelude.Words.{sub64, mul64}
use jmos.Pmm.{Bytes, Pmm, page_size, bm_set, bm_test, set_bits, alloc_run}
use jmos.Pmm.Bitmap.{IsBytes, bm_set-IsBytes, bm_test-set}
use jmos.Pmm.Count.{free_below, free_below-set}

-- The `n` frames from `a` on are free; one of them is used.
abbrev pub FreeRun : Bytes → ℕ → ℕ → Type 0
FreeRun bm a n = (j : ℕ) → a ≤ j → j < a + n → bm_test bm j ≡ false

abbrev pub UsedIn : Bytes → ℕ → ℕ → Type 0
UsedIn bm a n = (j : ℕ) × (a ≤ j) × (j < a + n) × (bm_test bm j ≡ true)

pub set_bits-IsBytes : (n a : ℕ) (bm : Bytes) → IsBytes bm → IsBytes (set_bits n a bm)
unfolding set_bits
set_bits-IsBytes zero a bm h = h
set_bits-IsBytes (suc n) a bm h = set_bits-IsBytes n (a + 1) (bm_set bm a) (bm_set-IsBytes bm a h)

pub set_bits-test :
    (n a : ℕ) (bm : Bytes) (j : ℕ)
    → IsBytes bm
    → bm_test (set_bits n a bm) j ≡ (if leb a j && ltb j (a + n) then true else bm_test bm j)
unfolding set_bits
set_bits-test zero a bm j h = ground arith
set_bits-test (suc n) a bm j h =
    ground
      (arith, set_bits-test n (a + 1) (bm_set bm a) j (bm_set-IsBytes bm a h), bm_test-set bm a j h)

pub set_bits-count :
    (n a m : ℕ) (bm : Bytes)
    → IsBytes bm
    → a + n ≤ m
    → FreeRun bm a n
    → free_below (set_bits n a bm) m + n ≡ free_below bm m
unfolding set_bits
set_bits-count zero a m bm b le free = omega arith
set_bits-count (suc n) a m bm b le free = omega (
  arith,
  free_below-set bm a m b (omega arith) (free a (omega arith) (omega arith)),
  set_bits-count n (a + 1) m (bm_set bm a) (bm_set-IsBytes bm a b) (omega arith)
      (λ j p q. ground (arith, bm_test-set bm a j b, free j (omega arith) (omega arith))),
)

abbrev pub placed : Pmm → ℕ → ℕ → Pmm
placed s count a = record s {
  bytes = set_bits count a s.bytes;
  free_frames_n = sub64 s.free_frames_n count;
}

-- How a search over the frames below `m` ends.
pub data Search (s : Pmm) (count m : ℕ) : ℕ × Pmm → Type 0 where
  fits :
      (a : ℕ)
      → a + count ≤ m
      → FreeRun s.bytes a count
      → ((b : ℕ) → b < a → UsedIn s.bytes b count)
      → Search s count m (mul64 a page_size, placed s count a)
  full : ((b : ℕ) → b + count ≤ m → UsedIn s.bytes b count) → Search s count m (0, s)

-- The loop's invariant before frame `i`.
record Scan (s : Pmm) (count i run start : ℕ) : Type 0 where
  short : run < count
  back : run ≤ i
  started : run ≢ 0 → start + run ≡ i
  free : (j : ℕ) → i ≤ j + run → j < i → bm_test s.bytes j ≡ false
  maximal : (run ≡ i) ⊎ (bm_test s.bytes (i - run - 1) ≡ true)
  missed : (b : ℕ) → b + count ≤ i → UsedIn s.bytes b count

module _ {s : Pmm} {count i run start : ℕ} (v : Scan s count i run start) where
  open v use {short, back, started, free, maximal, missed}

  Scan-used : bm_test s.bytes i ≡ true → Scan s count (i + 1) 0 start
  Scan-used used = record {
    short = omega arith;
    back = omega arith;
    started = λ ne. absurd (ne refl);
    free = λ j p q. absurd (omega arith);
    maximal = inr (subst (λ k. bm_test s.bytes k ≡ true) (omega arith) used);
    missed = λ b p. elim (lt_or_le i (b + count)) [
      | inl q ↦ (i, omega arith, omega arith, used)
      | inr q ↦ missed b q
    ];
  }

  -- A run that ends before `i`'s successor and is longer than `run + 1` reaches over the used frame.
  Scan-free :
      (start' : ℕ)
      → bm_test s.bytes i ≡ false
      → start' + run ≡ i
      → run + 1 ≢ count
      → Scan s count (i + 1) (run + 1) start'
  Scan-free start' fr e ne = record {
    short = omega arith;
    back = omega arith;
    started = λ _. omega arith;
    free = λ j p q. elim (eq_or_ne i j) [
      | inl h ↦ subst (λ k. bm_test s.bytes k ≡ false) h fr
      | inr h ↦ free j (omega arith) (omega arith)
    ];
    maximal = elim maximal [
      | inl h ↦ inl (omega arith)
      | inr h ↦ inr (subst (λ k. bm_test s.bytes k ≡ true) (omega arith) h)
    ];
    missed = λ b p. elim (lt_or_le i (b + count)) [
      | inr q ↦ missed b q
      | inl q ↦ elim maximal [
        | inl h ↦ absurd (omega arith)
        | inr h ↦ (i - run - 1, omega arith, omega arith, h)
      ]
    ];
  }

  Search-fits :
      (start' m : ℕ)
      → bm_test s.bytes i ≡ false
      → start' + run ≡ i
      → run + 1 ≡ count
      → i < m
      → Search s count m (mul64 start' page_size, placed s count start')
  Search-fits start' m fr e last lt =
      fits start' (omega arith)
        (λ j p q. elim (eq_or_ne i j) [
          | inl h ↦ subst (λ k. bm_test s.bytes k ≡ false) h fr
          | inr h ↦ free j (omega arith) (omega arith)
        ])
        (λ b p. missed b (omega arith))

  start-run : (if run == 0 then i else start) + run ≡ i
  start-run = ground (arith, started)

alloc_run-Search :
    (s : Pmm) (count n i run start m : ℕ)
    → i + n ≡ m
    → Scan s count i run start
    → Search s count m (alloc_run count n i run start s)
unfolding alloc_run
alloc_run-Search s count zero i run start m e v = full (λ b p. Scan.missed v b (omega arith))
alloc_run-Search s count (suc n) i run start m e v = elim (Bool-cases (bm_test s.bytes i)) [
  | inl used ↦
      rw (used, alloc_run)
        (alloc_run-Search s count n (i + 1) 0 start m (omega arith) (Scan-used v used))
  | inr free ↦ elim (Bool-cases (run + 1 == count)) [
    | inl last ↦
        rw (free, last, alloc_run)
          (Search-fits v _ m free (start-run v) (==→eq _ _ last) (omega arith))
    | inr more ↦
        rw (free, more, alloc_run)
          (alloc_run-Search s count n (i + 1) (run + 1) _ m (omega arith)
            (Scan-free v _ free (start-run v) (==→ne _ _ more)))
  ]
]

-- The whole search.
pub alloc_run_lem :
    (s : Pmm) (count : ℕ)
    → count ≢ 0
    → Search s count s.frame_count (alloc_run count s.frame_count 0 0 0 s)
alloc_run_lem s count ne =
    alloc_run-Search s count s.frame_count 0 0 0 s.frame_count (omega arith) (record {
      short = omega arith;
      back = omega arith;
      started = λ h. absurd (h refl);
      free = λ j p q. absurd (omega arith);
      maximal = inl refl;
      missed = λ b p. absurd (omega arith);
    })
