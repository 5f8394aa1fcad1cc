-- ===== src/Pmm/Calls.antt =====
-- Sequences of calls of the frame allocator's interface (pmm.h).
use jmos.Prelude.{
  ℕ, zero, suc, ◌+◌, ◌/◌, ◌≤◌, ◌<◌, ◌≡◌, ◌≢◌, inl, inr, true, List, [], ◌∷◌, arith, eq_or_ne,
}
use jmos.Prelude.Words.{add64, mul64}
use jmos.Pmm.{
  Pmm, page_size, bm_test, alloc_frame, alloc_frames, free_frame, free_frames_loop, free_frames,
}
use jmos.Pmm.Inv.{IsValid}
use jmos.Pmm.Alloc.{alloc_frame-IsValid, alloc_frame_lowest, alloc_frame-zero}
use jmos.Pmm.Free.{free_frame-IsValid, free_frame_bits, free_frames-IsValid}
use jmos.Pmm.Frames.{alloc_frames-IsValid, alloc_frames_first_fit, alloc_frames-zero}

pub data Call : Type 0 where
  alloc_one : Call
  alloc_many : ℕ → Call
  free_one : ℕ → Call
  free_many : ℕ → ℕ → Call

-- The state after one call, and after a sequence of calls.
unfoldable pub after : Call → Pmm → Pmm
after alloc_one s = (alloc_frame s).1
after (alloc_many n) s = (alloc_frames n s).1
after (free_one p) s = free_frame p s
after (free_many p n) s = free_frames p n s

unfoldable pub run : List Call → Pmm → Pmm
run [] s = s
run (c ∷ cs) s = run cs (after c s)

after-IsValid : (c : Call) (s : Pmm) → IsValid s → IsValid (after c s)
unfolding after
after-IsValid alloc_one s v = alloc_frame-IsValid s v
after-IsValid (alloc_many n) s v = alloc_frames-IsValid s n v
after-IsValid (free_one p) s v = free_frame-IsValid p v
after-IsValid (free_many p n) s v = free_frames-IsValid p n v

-- Every sequence of allocations and releases, of any addresses and counts, keeps the invariant: the
-- counter is the number of free frames, and the null frame is never free.
pub run-IsValid : (cs : List Call) (s : Pmm) → IsValid s → IsValid (run cs s)
unfolding run
run-IsValid [] s v = v
run-IsValid (c ∷ cs) s v = run-IsValid cs (after c s) (after-IsValid c s v)

-- The call frees no part of frame `k`.
abbrev pub Spares : ℕ → Call → Type 0
Spares k alloc_one = Unit
Spares k (alloc_many n) = Unit
Spares k (free_one p) = p / page_size ≢ k
Spares k (free_many p n) = (i : ℕ) → i < n → add64 p (mul64 i page_size) / page_size ≢ k

abbrev pub AllSpare : ℕ → List Call → Type 0
AllSpare k [] = Unit
AllSpare k (c ∷ cs) = Spares k c × AllSpare k cs

free_frame-Spares :
    (k p : ℕ) (s : Pmm)
    → IsValid s
    → p / page_size ≢ k
    → bm_test s.bytes k ≡ true
    → bm_test (free_frame p s).bytes k ≡ true
free_frame-Spares k p s v ne used = ground (arith, free_frame_bits p k v)

free_frames_loop-Spares :
    (k n i p : ℕ) (s : Pmm)
    → IsValid s
    → ((m : ℕ) → i ≤ m → m < i + n → add64 p (mul64 m page_size) / page_size ≢ k)
    → bm_test s.bytes k ≡ true
    → bm_test (free_frames_loop n i p s).bytes k ≡ true
unfolding free_frames_loop
free_frames_loop-Spares k zero i p s v h used = used
free_frames_loop-Spares k (suc n) i p s v h used =
    let q : ℕ = add64 p (mul64 i page_size) in
    free_frames_loop-Spares k n (i + 1) p (free_frame q s) (free_frame-IsValid q v)
      (λ m lo hi. h m (omega arith) (omega arith))
      (free_frame-Spares k q s v (h i (omega arith) (omega arith)) used)

-- An allocation leaves a used frame used.
alloc_frame-Spares :
    (k : ℕ) (s : Pmm)
    → IsValid s
    → bm_test s.bytes k ≡ true
    → bm_test (alloc_frame s).1.bytes k ≡ true
alloc_frame-Spares k s v used = elim (eq_or_ne (alloc_frame s).0 0) [
  | inl z ↦ rw ((alloc_frame-zero s v).1 z) used
  | inr ne ↦ ground (arith, (alloc_frame_lowest s v ne).bits k)
]

alloc_frames-Spares :
    (k n : ℕ) (s : Pmm)
    → IsValid s
    → bm_test s.bytes k ≡ true
    → bm_test (alloc_frames n s).1.bytes k ≡ true
unfolding alloc_frames
alloc_frames-Spares k zero s v used = used
alloc_frames-Spares k (suc n) s v used = elim (eq_or_ne (alloc_frames (suc n) s).0 0) [
  | inl z ↦ rw ((alloc_frames-zero s (suc n) v (omega arith)).1 z) used
  | inr ne ↦ ground (arith, (alloc_frames_first_fit s (suc n) v (omega arith) ne).bits k)
]

after-Spares :
    (k : ℕ) (c : Call) (s : Pmm)
    → IsValid s
    → Spares k c
    → bm_test s.bytes k ≡ true
    → bm_test (after c s).bytes k ≡ true
unfolding after free_frames
after-Spares k alloc_one s v h used = alloc_frame-Spares k s v used
after-Spares k (alloc_many n) s v h used = alloc_frames-Spares k n s v used
after-Spares k (free_one p) s v h used = free_frame-Spares k p s v h used
after-Spares k (free_many p n) s v h used =
    free_frames_loop-Spares k n 0 p s v (λ m lo hi. h m (omega arith)) used

run-Spares :
    (k : ℕ) (cs : List Call) (s : Pmm)
    → IsValid s
    → AllSpare k cs
    → bm_test s.bytes k ≡ true
    → bm_test (run cs s).bytes k ≡ true
unfolding run
run-Spares k [] s v h used = used
run-Spares k (c ∷ cs) s v h used =
    run-Spares k cs (after c s) (after-IsValid c s v) h.1 (after-Spares k c s v h.0 used)

-- A frame that `alloc_frame` has handed out is not handed out again, neither alone nor as part of a
-- run, as long as no call in between frees it.
pub no_double_grant :
    (s : Pmm) (cs : List Call) (n : ℕ)
    → IsValid s
    → (alloc_frame s).0 ≢ 0
    → AllSpare ((alloc_frame s).0 / page_size) cs
    → n ≢ 0
    → let k = (alloc_frame s).0 / page_size in
      let t = run cs (alloc_frame s).1 in
      ((alloc_frame t).0 ≢ 0 → (alloc_frame t).0 / page_size ≢ k)
      × ((alloc_frames n t).0 ≢ 0
          → ¬ (((alloc_frames n t).0 / page_size ≤ k) × (k < (alloc_frames n t).0 / page_size + n)))
no_double_grant s cs n v ne sp nz = (
  (λ got e. absurd (cc (held, e, (alloc_frame_lowest t vt got).was_free))),
  (λ got (lo, hi). absurd (cc (held, (alloc_frames_first_fit t n vt nz got).was_free k lo hi))),
)
  where
    k : ℕ
    k = (alloc_frame s).0 / page_size

    t : Pmm
    t = run cs (alloc_frame s).1

    vt : IsValid t
    vt = run-IsValid cs (alloc_frame s).1 (alloc_frame-IsValid s v)

    held : bm_test t.bytes k ≡ true
    held =
        run-Spares k cs (alloc_frame s).1 (alloc_frame-IsValid s v) sp
          (ground (arith, (alloc_frame_lowest s v ne).bits k))
