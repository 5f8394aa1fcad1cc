-- ===== src/Pmm/Free.antt =====
-- `free_frame` and `free_frames`.
use jmos.Prelude.{
  ℕ, zero, suc, ◌+◌, ◌*◌, ◌/◌, ◌≤◌, ◌<◌, ◌≡◌, refl, ◌≢◌, inl, inr, true, false, ◌&&◌, ◌||◌, arith,
  ltb, leb, ◌==◌, if◌then◌else◌, Bool-cases, eq_or_ne, sym, ap, ◌∙◌,
}
use jmos.Prelude.Words.{add64, mul64}
use jmos.Pmm.{
  Pmm, page_size, bm_test, give_frame, free_frame, free_frames_loop, free_frames, alloc_frame,
}
use jmos.Pmm.Bitmap.{bm_clear-IsBytes, bm_test-clear}
use jmos.Pmm.Count.{free_below, free_below-clear, free_below-le, free_below_same}
use jmos.Pmm.Inv.{IsValid}
use jmos.Pmm.Alloc.{Granted, alloc_frame_lowest, alloc_frame-IsValid, frame_count-alloc_frame}

-- The state after frame `i`, which was used, is given back.
abbrev given : Pmm → ℕ → Pmm
given s i = record (give_frame s i) { scan_hint = if ltb i s.scan_hint then i else s.scan_hint }

given-IsValid :
    {s : Pmm} (i : ℕ)
    → IsValid s
    → 0 < i
    → i < s.frame_count
    → bm_test s.bytes i ≡ true
    → IsValid (given s i) × ((given s i).free_frames_n ≡ s.free_frames_n + 1)
unfolding give_frame
given-IsValid {s} i v pos lt used = (
  record {
    bytes = bm_clear-IsBytes s.bytes i v.bytes;
    counted =
        omega (arith, more, v.counted, free_below-clear s.bytes i s.frame_count v.bytes lt used);
    small = v.small;
    hint = ground (arith, v.hint);
    hinted = λ j p. ground (arith, bm_test-clear s.bytes i j v.bytes, v.hinted j);
    null = λ p. ground (arith, bm_test-clear s.bytes i 0 v.bytes, v.null p);
  },
  more,
)
  where
    more : (given s i).free_frames_n ≡ s.free_frames_n + 1
    more = omega (arith, v.counted, v.small, free_below-le s.bytes s.frame_count)

-- `free_frame` keeps the invariant.
pub free_frame-IsValid : (phys : ℕ) {s : Pmm} → IsValid s → IsValid (free_frame phys s)
unfolding free_frame
free_frame-IsValid phys {s} v =
    elim (Bool-cases ((phys / page_size == 0) || leb s.frame_count (phys / page_size))) [
      | inl out ↦ rw out v
      | inr managed ↦ elim (Bool-cases (bm_test s.bytes (phys / page_size))) [
        | inl used ↦
            rw (managed, used)
              (given-IsValid (phys / page_size) v (ground arith) (ground arith) used).0
        | inr free ↦ rw (managed, free) v
      ]
    ]

-- After `free_frame` exactly the frame of the address is free in addition, if it is a managed frame
-- and not the null frame; no other frame changes.
pub free_frame_bits :
    (phys : ℕ) {s : Pmm} (j : ℕ)
    → IsValid s
    → bm_test (free_frame phys s).bytes j ≡ (
        if (phys / page_size == j) && ltb 0 j && ltb j s.frame_count
        then false
        else bm_test s.bytes j)
unfolding free_frame give_frame
free_frame_bits phys {s} j v = elim (eq_or_ne (phys / page_size) j) [
  | inl e ↦
      ground (arith, e, bm_test-clear s.bytes (phys / page_size) j v.bytes, ap (bm_test s.bytes) e)
  | inr ne ↦ ground (arith, bm_test-clear s.bytes (phys / page_size) j v.bytes)
]

-- Freeing a frame a second time changes nothing.
pub free_frame_twice :
    (phys : ℕ) {s : Pmm} → IsValid s → free_frame phys (free_frame phys s) ≡ free_frame phys s
unfolding free_frame give_frame
free_frame_twice phys {s} v =
    ground (arith, bm_test-clear s.bytes (phys / page_size) (phys / page_size) v.bytes)

pub frame_count-free : (phys : ℕ) (s : Pmm) → (free_frame phys s).frame_count ≡ s.frame_count
unfolding free_frame give_frame
frame_count-free phys s = ground arith

pub free_frames_loop-IsValid :
    (n i phys : ℕ) {s : Pmm}
    → IsValid s
    → IsValid (free_frames_loop n i phys s)
      × ((free_frames_loop n i phys s).frame_count ≡ s.frame_count)
unfolding free_frames_loop
free_frames_loop-IsValid zero i phys v = (v, refl)
free_frames_loop-IsValid (suc n) i phys {s} v =
    let rest =
      free_frames_loop-IsValid n (i + 1) phys
        (free_frame-IsValid (add64 phys (mul64 i page_size)) v) in
    (rest.0, rest.1 ∙ frame_count-free _ s)

-- `free_frames` keeps the invariant, whatever address and count it is given.
pub free_frames-IsValid :
    (phys count : ℕ) {s : Pmm} → IsValid s → IsValid (free_frames phys count s)
unfolding free_frames
free_frames-IsValid phys count v = (free_frames_loop-IsValid count 0 phys v).0

-- The frames of a managed run are freed one after the other.
pub free_frames_loop_bits :
    (n i a : ℕ) {s : Pmm} (j : ℕ)
    → IsValid s
    → 0 < a
    → a + i + n ≤ s.frame_count
    → bm_test (free_frames_loop n i (a * page_size) s).bytes j
      ≡ (if leb (a + i) j && ltb j (a + i + n) then false else bm_test s.bytes j)
unfolding free_frames_loop
free_frames_loop_bits zero i a j v pos le = ground arith
free_frames_loop_bits (suc n) i a {s} j v pos le =
    let p : ℕ = add64 (a * page_size) (mul64 i page_size) in
    let e : p / page_size ≡ a + i = omega (arith, v.small) in
    ground (
      arith,
      e,
      free_frame_bits p j v,
      free_frames_loop_bits n (i + 1) a {s = free_frame p s} j (free_frame-IsValid p v) pos
          (omega (arith, frame_count-free p s)),
    )

-- Valid states with the same bits have the same counter.
pub counter_restored :
    {s s' : Pmm}
    → IsValid s
    → IsValid s'
    → s'.frame_count ≡ s.frame_count
    → ((j : ℕ) → bm_test s'.bytes j ≡ bm_test s.bytes j)
    → s'.free_frames_n ≡ s.free_frames_n
counter_restored {s} {s'} v v' e same =
    v'.counted
    ∙ ap (free_below s'.bytes) e
    ∙ free_below_same s'.bytes s.bytes s.frame_count (λ j _. same j)
    ∙ sym v.counted

-- In a valid state, giving back what `alloc_frame` has just returned restores every bit and the
-- free counter.
pub free_frame-alloc_frame :
    (s : Pmm)
    → IsValid s
    → (alloc_frame s).0 ≢ 0
    → let s' = free_frame (alloc_frame s).0 (alloc_frame s).1 in
      ((j : ℕ) → bm_test s'.bytes j ≡ bm_test s.bytes j) × (s'.free_frames_n ≡ s.free_frames_n)
free_frame-alloc_frame s v ne = (
  bits,
  counter_restored v (free_frame-IsValid p v') (frame_count-free p s' ∙ frame_count-alloc_frame s v)
      bits,
)
  where
    p : ℕ
    p = (alloc_frame s).0

    s' : Pmm
    s' = (alloc_frame s).1

    v' : IsValid s'
    v' = alloc_frame-IsValid s v

    g : Granted s p s'
    g = alloc_frame_lowest s v ne

    bits : (j : ℕ) → bm_test (free_frame p s').bytes j ≡ bm_test s.bytes j
    bits j = elim (eq_or_ne (p / page_size) j) [
      | inl e ↦ ground (
        arith,
        e,
        free_frame_bits p {s = s'} j v',
        g.bits j,
        g.managed,
        frame_count-alloc_frame s v,
        ap (bm_test s.bytes) e,
        g.was_free,
        g.aligned,
        ne,
      )
      | inr h ↦ ground (arith, free_frame_bits p {s = s'} j v', g.bits j)
    ]
