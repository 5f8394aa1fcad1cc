-- ===== src/Pmm/Alloc.antt =====
-- `alloc_frame`.
use jmos.Prelude.{
  ℕ, zero, suc, ◌+◌, ◌-◌, ◌*◌, ◌≤◌, ◌<◌, ◌≡◌, refl, ◌≢◌, ◌⊎◌, inl, inr, true, false, Option, none,
  some, arith, ◌==◌, if◌then◌else◌, Bool-cases, eq_or_ne, lt_or_le, subst, ◌/◌, ◌%◌, ◌^◌, ◌↔◌,
}
use jmos.Prelude.Words.{mul64}
use jmos.Pmm.{Pmm, page_size, bm_test, take_frame, alloc_pass, alloc_frame}
use jmos.Pmm.Bitmap.{bm_set-IsBytes, bm_test-set}
use jmos.Pmm.Count.{free_below-set, free_below-pos, free_below-none, free_below-le}
use jmos.Pmm.Inv.{IsValid}

-- The state after frame `i` is handed out.
abbrev pub taken : Pmm → ℕ → Pmm
taken s i = record (take_frame s i) { scan_hint = i + 1 }

-- A pass over `n` frames from `i` on stops at the first free one, or finds none.
data Pass (s : Pmm) (i n : ℕ) : Option (ℕ × Pmm) → Type 0 where
  found :
      (k : ℕ)
      → i ≤ k
      → k < i + n
      → bm_test s.bytes k ≡ false
      → ((j : ℕ) → i ≤ j → j < k → bm_test s.bytes j ≡ true)
      → Pass s i n (some (mul64 k page_size, taken s k))
  nothing : ((j : ℕ) → i ≤ j → j < i + n → bm_test s.bytes j ≡ true) → Pass s i n none

Pass-next :
    {s : Pmm} (i n : ℕ) {r : Option (ℕ × Pmm)}
    → bm_test s.bytes i ≡ true
    → Pass s (i + 1) n r
    → Pass s i (suc n) r
Pass-next {s} i n used (found k lo hi free first) =
    found k (omega arith) (omega arith) free λ j p q. elim (eq_or_ne i j) [
      | inl e ↦ subst (λ x. bm_test s.bytes x ≡ true) e used
      | inr ne ↦ first j (omega arith) q
    ]
Pass-next {s} i n used (nothing all) = nothing λ j p q. elim (eq_or_ne i j) [
  | inl e ↦ subst (λ x. bm_test s.bytes x ≡ true) e used
  | inr ne ↦ all j (omega arith) (omega arith)
]

alloc_pass-Pass : (s : Pmm) (n i : ℕ) → Pass s i n (alloc_pass n i s)
unfolding alloc_pass
alloc_pass-Pass s zero i = nothing (λ j p q. absurd (omega arith))
alloc_pass-Pass s (suc n) i = elim (Bool-cases (bm_test s.bytes i)) [
  | inl used ↦ rw (used, alloc_pass) (Pass-next i n used (alloc_pass-Pass s n (i + 1)))
  | inr free ↦
      rw (free, alloc_pass)
        (found i (omega arith) (omega arith) free (λ j p q. absurd (omega arith)))
]

-- What `alloc_frame` does in a valid state: the lowest free frame is handed out, or none is free.
pub data Alloc (s : Pmm) : ℕ × Pmm → Type 0 where
  got :
      (k : ℕ)
      → 0 < k
      → k < s.frame_count
      → bm_test s.bytes k ≡ false
      → ((j : ℕ) → j < k → bm_test s.bytes j ≡ true)
      → Alloc s (k * page_size, taken s k)
  full : ((j : ℕ) → j < s.frame_count → bm_test s.bytes j ≡ true) → Alloc s (0, s)

abbrev second : (s : Pmm) → Option (ℕ × Pmm) → ℕ × Pmm
second s o = elim o [ some r ↦ r | none ↦ (0, s) ]

abbrev first : (s : Pmm) → Option (ℕ × Pmm) → ℕ × Pmm
first s o = elim o [ some r ↦ r | none ↦ second s (alloc_pass s.scan_hint 0 s) ]

second-Alloc :
    {s : Pmm} {o : Option (ℕ × Pmm)}
    → IsValid s
    → ((j : ℕ) → s.scan_hint ≤ j → j < s.frame_count → bm_test s.bytes j ≡ true)
    → Pass s 0 s.scan_hint o
    → Alloc s (second s o)
second-Alloc v rest (found k lo hi free below) = absurd (cc (v.hinted k (omega arith)))
second-Alloc {s} v rest (nothing all) =
    full λ j h. elim (lt_or_le j s.scan_hint) [ inl p ↦ v.hinted j p | inr p ↦ rest j p h ]

no_wrap : (k : ℕ) → k < 2 ^ 52 → mul64 k page_size ≡ k * page_size
no_wrap k h = omega arith

first-Alloc :
    {s : Pmm} {o : Option (ℕ × Pmm)} {n : ℕ}
    → IsValid s
    → n ≡ s.frame_count - s.scan_hint
    → Pass s s.scan_hint n o
    → Alloc s (first s o)
first-Alloc {s} v e (found k lo hi free below) =
    rw (no_wrap k (omega arith)) (got k pos (omega arith) free lower)
  where
    lower : (j : ℕ) → j < k → bm_test s.bytes j ≡ true
    lower j h = elim (lt_or_le j s.scan_hint) [ inl p ↦ v.hinted j p | inr p ↦ below j p h ]

    pos : 0 < k
    pos = elim (eq_or_ne k 0) [
      | inl z ↦ absurd (cc (subst (λ x. bm_test s.bytes x ≡ false) z free, v.null (omega arith)))
      | inr nz ↦ omega arith
    ]
first-Alloc {s} v e (nothing all) =
    second-Alloc v (λ j p h. all j p (omega arith)) (alloc_pass-Pass s s.scan_hint 0)

pub alloc_frame-Alloc : (s : Pmm) → IsValid s → Alloc s (alloc_frame s)
unfolding alloc_frame
alloc_frame-Alloc s v =
    first-Alloc v refl (alloc_pass-Pass s (s.frame_count - s.scan_hint) s.scan_hint)

-- The frame is counted out, and its bit is the only one that changes.
record Handed (s : Pmm) (k : ℕ) (s' : Pmm) : Type 0 where
  counts : s'.free_frames_n + 1 ≡ s.free_frames_n
  bits : (j : ℕ) → bm_test s'.bytes j ≡ (if k == j then true else bm_test s.bytes j)

taken-Handed :
    {s : Pmm} (k : ℕ)
    → IsValid s
    → k < s.frame_count
    → bm_test s.bytes k ≡ false
    → Handed s k (taken s k)
unfolding take_frame
taken-Handed {s} k v lt free = record {
  counts = omega (
    arith,
    v.counted,
    v.small,
    free_below-pos s.bytes k s.frame_count lt free,
    free_below-le s.bytes s.frame_count,
  );
  bits = λ j. bm_test-set s.bytes k j v.bytes;
}

taken-IsValid :
    {s : Pmm} (k : ℕ)
    → IsValid s
    → k < s.frame_count
    → bm_test s.bytes k ≡ false
    → ((j : ℕ) → j < k → bm_test s.bytes j ≡ true)
    → IsValid (taken s k)
unfolding take_frame
taken-IsValid {s} k v lt free lower = record {
  bytes = bm_set-IsBytes s.bytes k v.bytes;
  counted =
      omega (arith, h.counts, v.counted, free_below-set s.bytes k s.frame_count v.bytes lt free);
  small = v.small;
  hint = omega arith;
  hinted = λ j p. elim (eq_or_ne k j) [
    | inl e ↦ ground (arith, h.bits j)
    | inr ne ↦ ground (arith, h.bits j, lower j)
  ];
  null = λ p. ground (arith, h.bits 0, v.null);
}
  where
    h : Handed s k (taken s k)
    h = taken-Handed k v lt free

-- A successful call, by the address that it returns.
pub record Granted (s : Pmm) (p : ℕ) (s' : Pmm) : Type 0 where
  pub aligned : p % page_size ≡ 0
  pub managed : p / page_size < s.frame_count
  pub was_free : bm_test s.bytes (p / page_size) ≡ false
  pub lowest : (j : ℕ) → j < p / page_size → bm_test s.bytes j ≡ true
  pub bits : (j : ℕ) → bm_test s'.bytes j ≡ (if p / page_size == j then true else bm_test s.bytes j)
  pub counts : s'.free_frames_n + 1 ≡ s.free_frames_n

Granted-taken :
    {s : Pmm} (k q : ℕ)
    → q ≡ k
    → IsValid s
    → k < s.frame_count
    → bm_test s.bytes k ≡ false
    → ((j : ℕ) → j < k → bm_test s.bytes j ≡ true)
    → (q < s.frame_count)
      × (bm_test s.bytes q ≡ false)
      × ((j : ℕ) → j < q → bm_test s.bytes j ≡ true)
      × ((j : ℕ) → bm_test (taken s k).bytes j ≡ (if q == j then true else bm_test s.bytes j))
Granted-taken {s} k q e v lt free lower = rw e (lt, free, lower, (taken-Handed k v lt free).bits)

-- One call of `alloc_frame` by cases.
pub Alloc-cases :
    {s : Pmm} {r : ℕ × Pmm}
    → IsValid s
    → Alloc s r
    → IsValid r.1
      × (((r.0 ≢ 0) × (0 < s.free_frames_n) × Granted s r.0 r.1)
          ⊎ ((r.0 ≡ 0) × (s.free_frames_n ≡ 0) × (r.1 ≡ s)))
Alloc-cases {s} v (got k pos lt free lower) = (
  taken-IsValid k v lt free lower,
  inl (
    omega arith,
    omega (arith, v.counted, free_below-pos s.bytes k s.frame_count lt free),
    granted,
  ),
)
  where
    parts :
        (k * page_size / page_size < s.frame_count)
        × (bm_test s.bytes (k * page_size / page_size) ≡ false)
        × ((j : ℕ) → j < k * page_size / page_size → bm_test s.bytes j ≡ true)
        × ((j : ℕ)
            → bm_test (taken s k).bytes j
              ≡ (if k * page_size / page_size == j then true else bm_test s.bytes j))
    parts = Granted-taken k (k * page_size / page_size) (omega arith) v lt free lower

    granted : Granted s (k * page_size) (taken s k)
    granted = record {
      aligned = omega arith;
      managed = parts.0;
      was_free = parts.1;
      lowest = parts.2;
      bits = parts.3;
      counts = (taken-Handed k v lt free).counts;
    }
Alloc-cases {s} v (full all) =
    (v, inr (refl, omega (arith, v.counted, free_below-none s.bytes s.frame_count all), refl))

pub Alloc-frame_count : {s : Pmm} {r : ℕ × Pmm} → Alloc s r → r.1.frame_count ≡ s.frame_count
unfolding take_frame
Alloc-frame_count (got k pos lt free lower) = refl
Alloc-frame_count (full all) = refl

pub frame_count-alloc_frame : (s : Pmm) → IsValid s → (alloc_frame s).1.frame_count ≡ s.frame_count
frame_count-alloc_frame s v = Alloc-frame_count (alloc_frame-Alloc s v)

Alloc-total_frames : {s : Pmm} {r : ℕ × Pmm} → Alloc s r → r.1.total_frames ≡ s.total_frames
unfolding take_frame
Alloc-total_frames (got k pos lt free lower) = refl
Alloc-total_frames (full all) = refl

pub total_frames-alloc_frame :
    (s : Pmm) → IsValid s → (alloc_frame s).1.total_frames ≡ s.total_frames
total_frames-alloc_frame s v = Alloc-total_frames (alloc_frame-Alloc s v)

-- `alloc_frame` keeps the invariant.
pub alloc_frame-IsValid : (s : Pmm) → IsValid s → IsValid (alloc_frame s).1
alloc_frame-IsValid s v = (Alloc-cases v (alloc_frame-Alloc s v)).0

-- In a valid state a call of `alloc_frame` that does not return 0 returns the page-aligned address
-- of the lowest free frame, marks that frame used and no other, and lowers the counter by one.
pub alloc_frame_lowest :
    (s : Pmm) → IsValid s → (alloc_frame s).0 ≢ 0 → Granted s (alloc_frame s).0 (alloc_frame s).1
alloc_frame_lowest s v ne = elim ((Alloc-cases v (alloc_frame-Alloc s v)).1) [
  | inl ok ↦ ok.2
  | inr bad ↦ absurd (ne bad.0)
]

-- In a valid state `alloc_frame` returns 0 exactly when the free counter is 0, and then changes
-- nothing.
pub alloc_frame-zero :
    (s : Pmm)
    → IsValid s
    → ((alloc_frame s).0 ≡ 0 ↔ s.free_frames_n ≡ 0)
      × ((alloc_frame s).0 ≡ 0 → (alloc_frame s).1 ≡ s)
alloc_frame-zero s v = elim ((Alloc-cases v (alloc_frame-Alloc s v)).1) [
  | inl ok ↦ (((λ e. absurd (ok.0 e)), (λ e. absurd (omega (arith, ok.1)))), λ e. absurd (ok.0 e))
  | inr bad ↦ (((λ e. bad.1), (λ e. bad.0)), λ e. bad.2)
]
