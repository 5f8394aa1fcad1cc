-- ===== src/Pmm/Frames.antt =====
-- `alloc_frames`, and giving a run of frames back.
use jmos.Prelude.{
  ℕ, zero, suc, ◌+◌, ◌*◌, ◌/◌, ◌%◌, ◌≤◌, ◌<◌, ◌≡◌, refl, ◌≢◌, ◌↔◌, ◌⊎◌, inl, inr, true, false, ◌&&◌,
  arith, ltb, leb, ◌==◌, if◌then◌else◌, Bool-cases, eq_or_ne, subst, sym, ◌∙◌, ne→==, ==→eq,
}
use jmos.Prelude.Words.{mul64}
use jmos.Pmm.{Pmm, page_size, bm_test, alloc_frame, alloc_frames, free_frames_loop, free_frames}
use jmos.Pmm.Count.{free_below-le, free_below-pos}
use jmos.Pmm.Inv.{IsValid}
use jmos.Pmm.Alloc.{Granted, Alloc-cases, alloc_frame-Alloc, frame_count-alloc_frame}
use jmos.Pmm.Run.{
  FreeRun, UsedIn, Search, fits, alloc_run_lem, placed, set_bits-IsBytes, set_bits-test,
  set_bits-count,
}
use jmos.Pmm.Free.{free_frames_loop_bits, free_frames_loop-IsValid, counter_restored}

-- A successful call for `count` frames, by the address that it returns.
pub record GrantedRun (s : Pmm) (count p : ℕ) (s' : Pmm) : Type 0 where
  pub aligned : p % page_size ≡ 0
  pub managed : p / page_size + count ≤ s.frame_count
  pub was_free : FreeRun s.bytes (p / page_size) count
  pub first : (b : ℕ) → b < p / page_size → UsedIn s.bytes b count
  pub bits :
      (j : ℕ)
      → bm_test s'.bytes j ≡ (
          if leb (p / page_size) j && ltb j (p / page_size + count)
          then true
          else bm_test s.bytes j)
  pub counts : s'.free_frames_n + count ≡ s.free_frames_n

-- The outcome of a call.
abbrev Outcome : Pmm → ℕ → ℕ × Pmm → Type 0
Outcome s count (p, s') =
    IsValid s'
    × (s'.frame_count ≡ s.frame_count)
    × (((p ≢ 0) × GrantedRun s count p s')
        ⊎ ((p ≡ 0) × (s' ≡ s) × ((b : ℕ) → b + count ≤ s.frame_count → UsedIn s.bytes b count)))

module _ {s : Pmm} (count : ℕ) (v : IsValid s) (ne : count ≢ 0) (a : ℕ)
    (le : a + count ≤ s.frame_count) (free : FreeRun s.bytes a count) where
  start_pos : 0 < a
  start_pos = elim (eq_or_ne a 0) [
    | inl z ↦ absurd (cc (free 0 (omega arith) (omega arith), v.null (omega arith)))
    | inr nz ↦ omega arith
  ]

  placed_counts : (placed s count a).free_frames_n + count ≡ s.free_frames_n
  placed_counts = omega (
    arith,
    v.counted,
    v.small,
    set_bits-count count a s.frame_count s.bytes v.bytes le free,
    free_below-le s.bytes s.frame_count,
  )

  placed-IsValid : IsValid (placed s count a)
  placed-IsValid = record {
    bytes = set_bits-IsBytes count a s.bytes v.bytes;
    counted = omega (
      arith,
      placed_counts,
      v.counted,
      set_bits-count count a s.frame_count s.bytes v.bytes le free,
    );
    small = v.small;
    hint = v.hint;
    hinted = λ j p. ground (arith, set_bits-test count a s.bytes j v.bytes, v.hinted j);
    null = λ p. ground (arith, set_bits-test count a s.bytes 0 v.bytes, v.null);
  }

  GrantedRun-placed :
      (q : ℕ)
      → q ≡ a
      → ((b : ℕ) → b < a → UsedIn s.bytes b count)
      → (q + count ≤ s.frame_count)
        × FreeRun s.bytes q count
        × ((b : ℕ) → b < q → UsedIn s.bytes b count)
        × ((j : ℕ)
            → bm_test (placed s count a).bytes j
              ≡ (if leb q j && ltb j (q + count) then true else bm_test s.bytes j))
  GrantedRun-placed q e first = rw e (le, free, first, λ j. set_bits-test count a s.bytes j v.bytes)

Search-Outcome :
    {s : Pmm} (count : ℕ) {r : ℕ × Pmm}
    → IsValid s
    → count ≢ 0
    → Search s count s.frame_count r
    → Outcome s count r
Search-Outcome {s} count v ne (fits a le free first) =
    let pos : 0 < a = start_pos count v ne a le free in
    let e : mul64 a page_size ≡ a * page_size = omega (arith, v.small) in
    let parts =
      GrantedRun-placed count v ne a le free (a * page_size / page_size) (omega arith) first in
    rw e (
      placed-IsValid count v ne a le free,
      refl,
      inl (
        omega arith,
        record {
          aligned = omega arith;
          managed = parts.0;
          was_free = parts.1;
          first = parts.2;
          bits = parts.3;
          counts = placed_counts count v ne a le free;
        },
      ),
    )
Search-Outcome count v ne (Search.full used) = (v, refl, inr (refl, refl, used))

-- A frame is a run of length one.
Granted-GrantedRun : {s s' : Pmm} (p : ℕ) → Granted s p s' → GrantedRun s 1 p s'
Granted-GrantedRun {s} p g = record {
  aligned = g.aligned;
  managed = omega (arith, g.managed);
  was_free = λ j p q. subst (λ n. bm_test s.bytes n ≡ false) (omega arith) g.was_free;
  first = λ b p. (b, omega arith, omega arith, g.lowest b p);
  bits = λ j. ground (arith, g.bits j);
  counts = g.counts;
}

alloc_frame-Outcome : (s : Pmm) → IsValid s → Outcome s 1 (alloc_frame s)
alloc_frame-Outcome s v =
    let cases = Alloc-cases v (alloc_frame-Alloc s v) in
    (
      cases.0,
      frame_count-alloc_frame s v,
      elim (cases.1) [
        | inl ok ↦ inl (ok.0, Granted-GrantedRun _ ok.2)
        | inr bad ↦ inr (bad.0, bad.2, λ b p. (b, omega arith, omega arith, used b p bad.1))
      ],
    )
  where
    used : (b : ℕ) → b + 1 ≤ s.frame_count → s.free_frames_n ≡ 0 → bm_test s.bytes b ≡ true
    used b p z = elim (Bool-cases (bm_test s.bytes b)) [
      | inl u ↦ u
      | inr f ↦
          absurd (omega (arith, v.counted, free_below-pos s.bytes b s.frame_count (omega arith) f))
    ]

alloc_frames-Outcome :
    (s : Pmm) (count : ℕ) → IsValid s → count ≢ 0 → Outcome s count (alloc_frames count s)
unfolding alloc_frames
alloc_frames-Outcome s count v ne = elim (Bool-cases (count == 1)) [
  | inl one ↦
      rw (ne→== count 0 ne, one)
        (subst (λ n. Outcome s n (alloc_frame s)) (sym (==→eq count 1 one))
          (alloc_frame-Outcome s v))
  | inr many ↦ rw (ne→== count 0 ne, many) (Search-Outcome count v ne (alloc_run_lem s count ne))
]

-- `alloc_frames` keeps the invariant, for every count.
pub alloc_frames-IsValid : (s : Pmm) (count : ℕ) → IsValid s → IsValid (alloc_frames count s).1
unfolding alloc_frames
alloc_frames-IsValid s zero v = v
alloc_frames-IsValid s (suc n) v = (alloc_frames-Outcome s (suc n) v (omega arith)).0

-- In a valid state a call of `alloc_frames` for at least one frame that does not return 0 returns
-- the address of the first run of that many free frames, marks exactly that run used, and lowers the
-- counter by its length.
pub alloc_frames_first_fit :
    (s : Pmm) (count : ℕ)
    → IsValid s
    → count ≢ 0
    → (alloc_frames count s).0 ≢ 0
    → GrantedRun s count (alloc_frames count s).0 (alloc_frames count s).1
alloc_frames_first_fit s count v ne nz = elim ((alloc_frames-Outcome s count v ne).2) [
  | inl ok ↦ ok.1
  | inr bad ↦ absurd (nz bad.0)
]

-- In a valid state a call for at least one frame returns 0 exactly when every run of that many
-- managed frames has a used one, and then changes nothing.
pub alloc_frames-zero :
    (s : Pmm) (count : ℕ)
    → IsValid s
    → count ≢ 0
    → ((alloc_frames count s).0 ≡ 0
        ↔ ((b : ℕ) → b + count ≤ s.frame_count → UsedIn s.bytes b count))
      × ((alloc_frames count s).0 ≡ 0 → (alloc_frames count s).1 ≡ s)
alloc_frames-zero s count v ne = elim ((alloc_frames-Outcome s count v ne).2) [
  | inl ok ↦ (
    (
      (λ e. absurd (ok.0 e)),
      (λ all.
          let (j, lo, hi, used) = all ((alloc_frames count s).0 / page_size) ok.1.managed in
          absurd (cc (used, ok.1.was_free j lo hi))),
    ),
    λ e. absurd (ok.0 e),
  )
  | inr bad ↦ (((λ e. bad.2), (λ all. bad.0)), λ e. bad.1)
]

-- In a valid state, giving back the run that `alloc_frames` has just returned restores every bit and
-- the free counter.
pub free_frames-alloc_frames :
    (s : Pmm) (count : ℕ)
    → IsValid s
    → count ≢ 0
    → (alloc_frames count s).0 ≢ 0
    → let s' = free_frames (alloc_frames count s).0 count (alloc_frames count s).1 in
      ((j : ℕ) → bm_test s'.bytes j ≡ bm_test s.bytes j) × (s'.free_frames_n ≡ s.free_frames_n)
unfolding free_frames
free_frames-alloc_frames s count v ne ok = (
  bits,
  counter_restored v (free_frames_loop-IsValid count 0 p out.0).0
      ((free_frames_loop-IsValid count 0 p out.0).1 ∙ out.1) bits,
)
  where
    p : ℕ
    p = (alloc_frames count s).0

    s' : Pmm
    s' = (alloc_frames count s).1

    out : Outcome s count (alloc_frames count s)
    out = alloc_frames-Outcome s count v ne

    g : GrantedRun s count p s'
    g = alloc_frames_first_fit s count v ne ok

    a : ℕ
    a = p / page_size

    whole : a * page_size ≡ p
    whole = omega (arith, g.aligned)

    freed :
        (j : ℕ)
        → bm_test (free_frames_loop count 0 p s').bytes j
          ≡ (if leb (a + 0) j && ltb j (a + 0 + count) then false else bm_test s'.bytes j)
    freed j =
        subst
          (λ q.
            bm_test (free_frames_loop count 0 q s').bytes j
            ≡ (if leb (a + 0) j && ltb j (a + 0 + count) then false else bm_test s'.bytes j))
          whole
          (free_frames_loop_bits count 0 a {s = s'} j out.0 (omega (arith, ok, whole))
            (omega (arith, g.managed, out.1)))

    bits : (j : ℕ) → bm_test (free_frames_loop count 0 p s').bytes j ≡ bm_test s.bytes j
    bits j = ground (arith, freed j, g.bits j, g.was_free j)

pub frame_count-alloc_frames :
    (s : Pmm) (count : ℕ)
    → IsValid s
    → count ≢ 0
    → (alloc_frames count s).1.frame_count ≡ s.frame_count
frame_count-alloc_frames s count v ne = (alloc_frames-Outcome s count v ne).1
