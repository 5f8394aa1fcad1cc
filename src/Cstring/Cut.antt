-- ===== src/Cstring/Cut.antt =====
-- How a list, and a string in memory, are cut in two.
use native.Mathlib.Nat.{add-zero}
use jmos.Prelude.{
  ℕ, suc, ◌+◌, ◌<◌, ◌≡◌, refl, inl, inr, Bool, true, false, List, [], ◌∷◌, ◌++◌, arith, ap, ◌∙◌,
  length, update, update_self, update_ne, Bool-cases,
}
use jmos.Cstring.{Mem}
use jmos.Cstring.Repr.{IsString}
use jmos.Cstring.Search.{leading}

-- A list is split where a test first fails.
abbrev pub All : (ℕ → Bool) → List ℕ → Type 0
All f [] = true ≡ true
All f (x ∷ xs) = (f x ≡ true) × All f xs

abbrev pub Stops : (ℕ → Bool) → List ℕ → Type 0
Stops f [] = true ≡ true
Stops f (x ∷ xs) = f x ≡ false

pub record Split (f : ℕ → Bool) (xs : List ℕ) : Type 0 where
  pub front : List ℕ
  pub back : List ℕ
  pub joined : xs ≡ front ++ back
  pub count : leading f xs ≡ length front
  pub pass : All f front
  pub stop : Stops f back

pub Split-leading : (f : ℕ → Bool) (xs : List ℕ) → Split f xs
unfolding leading
Split-leading f [] = record {
  front = [];
  back = [];
  joined = refl;
  count = refl;
  pass = refl;
  stop = refl;
}
Split-leading f (x ∷ xs) = elim (Bool-cases (f x)) [
  | inl hit ↦
      let t = Split-leading f xs in
      record {
        front = x ∷ t.front;
        back = t.back;
        joined = ap (λ l. x ∷ l) t.joined;
        count = rw hit (ap suc t.count);
        pass = (hit, t.pass);
        stop = t.stop;
      }
  | inr miss ↦ record {
    front = [];
    back = x ∷ xs;
    joined = refl;
    count = rw miss refl;
    pass = refl;
    stop = miss;
  }
]

pub IsString-drop :
    (m : Mem) (p : ℕ) (a b : List ℕ) → IsString m p (a ++ b) → IsString m (p + length a) b
IsString-drop m p [] b h = simp add-zero h
IsString-drop m p (x ∷ a) b h =
    let e : p + suc (length a) ≡ p + 1 + length a = omega arith in
    rw e (IsString-drop m (p + 1) a b h.2)

-- A NUL behind the front ends it there, and does not touch what lies behind.
pub IsString-cut :
    (m : Mem) (p e : ℕ) (a b : List ℕ)
    → e ≡ p + length a
    → IsString m p (a ++ b)
    → IsString (update m e 0) p a
IsString-cut m p e [] b at h =
    let same : p ≡ e = omega (arith, at) in ap (update m e 0) same ∙ update_self m e 0
IsString-cut m p e (x ∷ a) b at h = (
  update_ne m e p 0 (omega (arith, at)) ∙ h.0,
  h.1,
  IsString-cut m (p + 1) e a b (omega (arith, at)) h.2,
)

pub IsString-beyond :
    (m : Mem) (p e : ℕ) (xs : List ℕ) → e < p → IsString m p xs → IsString (update m e 0) p xs
IsString-beyond m p e [] lt h = update_ne m e p 0 (omega (arith, lt)) ∙ h
IsString-beyond m p e (x ∷ xs) lt h = (
  update_ne m e p 0 (omega (arith, lt)) ∙ h.0,
  h.1,
  IsString-beyond m (p + 1) e xs (omega (arith, lt)) h.2,
)
