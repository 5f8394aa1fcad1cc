-- ===== src/Paging/Held.antt =====
-- The addresses that no allocation overwrites.
use jmos.Prelude.{
  ℕ, ◌+◌, ◌*◌, ◌%◌, ◌^◌, ◌≤◌, ◌<◌, ◌≡◌, refl, ◌≢◌, ◌⊎◌, inl, inr, true, false, List, arith, length,
  ap, ◌∙◌, subst, sym, Bool-cases,
}
use jmos.Pmm.{bm_test}
use jmos.Pmm.Inv.{IsValid}
use jmos.Paging.{store, Vmm, p2v}
use jmos.Paging.Tour.{below}
use jmos.Paging.Tree.{reach, Tree}

abbrev pub page_at : Vmm → ℕ → ℕ
page_at s k = k * 4096 + s.hhdm_off

-- An address outside the page of a frame in the direct map, and inside it.
abbrev pub Off : Vmm → ℕ → ℕ → Type 0
Off s k a = (a < page_at s k) ⊎ (page_at s k + 4096 ≤ a)

abbrev pub Inside : Vmm → ℕ → ℕ → Type 0
Inside s k a = (page_at s k ≤ a) × (a < page_at s k + 4096)

-- An address outside every free frame.
abbrev pub Held : Vmm → ℕ → Type 0
Held s a = (k : ℕ) → k < s.pmm.frame_count → bm_test s.pmm.bytes k ≡ false → Off s k a

-- An address in a frame that was free in the first state and is used in the second.
pub record Fresh (s0 s : Vmm) (a : ℕ) : Type 0 where
  pub k : ℕ
  pub managed : k < s0.pmm.frame_count
  pub was_free : bm_test s0.pmm.bytes k ≡ false
  pub used : bm_test s.pmm.bytes k ≡ true
  pub inside : Inside s0 k a

pub record Ready (s : Vmm) : Type 0 where
  pub pmm : IsValid s.pmm
  pub few : s.pmm.frame_count ≤ 2 ^ 40
  pub mapped : s.hhdm_off + s.pmm.frame_count * 4096 < 2 ^ 64

-- Frames are only taken.
pub record Calm (s s' : Vmm) : Type 0 where
  pub ready : Ready s'
  pub base : s'.hhdm_off ≡ s.hhdm_off
  pub cr3 : s'.cr3 ≡ s.cr3
  pub count : s'.pmm.frame_count ≡ s.pmm.frame_count
  pub total : s'.pmm.total_frames ≡ s.pmm.total_frames
  pub used : (k : ℕ) → bm_test s.pmm.bytes k ≡ true → bm_test s'.pmm.bytes k ≡ true

pub Calm-refl : {s : Vmm} → Ready s → Calm s s
Calm-refl r = record {
  ready = r;
  base = refl;
  cr3 = refl;
  count = refl;
  total = refl;
  used = λ k b. b;
}

pub Calm-store : (s : Vmm) (a x : ℕ) → Ready s → Calm s (store s a x)
Calm-store s a x r = record {
  ready = record { pmm = r.pmm; few = r.few; mapped = r.mapped };
  base = refl;
  cr3 = refl;
  count = refl;
  total = refl;
  used = λ k b. b;
}

pub Calm-trans : {s s' s'' : Vmm} → Calm s s' → Calm s' s'' → Calm s s''
Calm-trans c d = record {
  ready = d.ready;
  base = d.base ∙ c.base;
  cr3 = d.cr3 ∙ c.cr3;
  count = d.count ∙ c.count;
  total = d.total ∙ c.total;
  used = λ k b. d.used k (c.used k b);
}

still_free :
    {s s' : Vmm}
    → Calm s s'
    → (k : ℕ) → bm_test s'.pmm.bytes k ≡ false
    → bm_test s.pmm.bytes k ≡ false
still_free {s} {s'} c k f = elim (Bool-cases (bm_test s.pmm.bytes k)) [
  | inl u ↦ absurd (cc (f, c.used k u))
  | inr e ↦ e
]

-- What is held stays held.
pub Held-Calm : {s s' : Vmm} → Calm s s' → (a : ℕ) → Held s a → Held s' a
Held-Calm {s} {s'} c a h = λ k lt f.
    subst (λ b. (a < k * 4096 + b) ⊎ (k * 4096 + b + 4096 ≤ a)) (sym c.base)
      (h k (omega (arith, lt, c.count)) (still_free c k f))

-- A used frame is held.
pub Held-used : (s : Vmm) (k a : ℕ) → bm_test s.pmm.bytes k ≡ true → Inside s k a → Held s a
Held-used s k a u i = λ j lt f.
    let dif : j ≢ k = λ e. absurd (cc (f, u, ap (bm_test s.pmm.bytes) e)) in ground (arith, i, dif)

pub Off-Inside : (s : Vmm) (d k a : ℕ) → k ≢ d → Inside s k a → Off s d a
Off-Inside s d k a dif i = ground (arith, i, dif)

pub Fresh-Calm : {s0 s s' : Vmm} → Calm s s' → (a : ℕ) → Fresh s0 s a → Fresh s0 s' a
Fresh-Calm c a f = record {
  k = f.k;
  managed = f.managed;
  was_free = f.was_free;
  used = c.used f.k f.used;
  inside = f.inside;
}

-- Taken since the later state is taken since the earlier one.
pub Fresh-earlier : {s0 s1 s : Vmm} → Calm s0 s1 → (a : ℕ) → Fresh s1 s a → Fresh s0 s a
Fresh-earlier {s0} c a f = record {
  k = f.k;
  managed = omega (arith, f.managed, c.count);
  was_free = still_free c f.k f.was_free;
  used = f.used;
  inside = omega (arith, f.inside, c.base);
}

pub Fresh-Held : {s0 s : Vmm} → s.hhdm_off ≡ s0.hhdm_off → (a : ℕ) → Fresh s0 s a → Held s a
Fresh-Held {s = s} b a f = Held-used s f.k a f.used (omega (arith, f.inside, b))

-- A copy of the tables of a level from `src` down, in frames taken since `s`: every walk finds in it
-- what it finds in the original.
pub record Copy (l : ℕ) (s : Vmm) (src f : ℕ) (s' : Vmm) : Type 0 where
  pub real : f ≢ 0
  pub aligned : f % 4096 ≡ 0
  pub small : f < 2 ^ 52
  pub tree : Tree (Fresh s s') l s' (p2v s' f)
  pub walks :
      (is : List ℕ) → length is ≡ l → below is ≡ true → reach l s' (p2v s' f) is ≡ reach l s src is

-- The outcome of `clone_table`: a copy, or 0 where no frame is free; frames are only taken, and every
-- word outside the frames that were free keeps its value.
pub record Cloned (l : ℕ) (s : Vmm) (src : ℕ) (r : ℕ × Vmm) : Type 0 where
  pub calm : Calm s r.1
  pub kept : (a : ℕ) → Held s a → r.1.words a ≡ s.words a
  pub outcome : Copy l s src r.0 r.1 ⊎ (r.0 ≡ 0) × (r.1.pmm.free_frames_n ≡ 0)
