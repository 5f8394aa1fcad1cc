-- ===== src/Cstdio/Emit.antt =====
-- The numbers that the formatter emits.
use native.Mathlib.Nat.{mod-add-div', mod-lt, mul-suc, pow-suc, zero-div}
use jmos.Prelude.{
  ℕ, zero, suc, ◌+◌, ◌/◌, ◌%◌, ◌^◌, ◌≤◌, ◌<◌, ◌≡◌, refl, Bool, true, false, List, [], ◌∷◌, arith,
  ltb, some, update, length, Bool-cases, inl, inr, ◌∙◌, ap,
}
use jmos.Prelude.Int.{ℤ, pos, negsuc}
use jmos.Cstring.{Mem}
use jmos.Cstring.Block.{inside}
use jmos.Cstdlib.{digit_char}
use jmos.Cstdlib.Digits.{AllBelow, value_from, value, characters}
use jmos.Cstdlib.Parse.{text}
use jmos.Cstdio.{Emitted, collect, put_all, emit_uint, emit_int}

-- The characters stand in memory from `p` on.
abbrev pub Stands : Mem → ℕ → List ℕ → Type 0
Stands m p [] = Unit
Stands m p (c ∷ cs) = (m p ≡ c) × Stands m (p + 1) cs

put_all-kept :
    (cs : List ℕ) (m : Mem) (p a : ℕ) → inside p (length cs) a ≡ false → put_all cs m p a ≡ m a
unfolding put_all
put_all-kept [] m p a out = refl
put_all-kept (c ∷ cs) m p a out =
    put_all-kept cs (update m p c) (p + 1) a (ground arith) ∙ ground arith

put_all-Stands : (cs : List ℕ) (m : Mem) (p : ℕ) → Stands (put_all cs m p) p cs
unfolding put_all
put_all-Stands [] m p = tt
put_all-Stands (c ∷ cs) m p = (
  put_all-kept cs (update m p c) (p + 1) p (ground arith) ∙ ground arith,
  put_all-Stands cs (update m p c) (p + 1),
)

-- A number below 2^k has at most k digits.
halves : (k v b : ℕ) → 2 ≤ b → v < 2 ^ suc k → v / b < 2 ^ k
halves k v zero two h = absurd (omega arith)
halves k v (suc zero) two h = absurd (omega arith)
halves k v (suc (suc b)) two h =
    let q : ℕ = v / suc (suc b) in
    omega (arith, mod-add-div' v (suc (suc b)), mul-suc q (suc b), mul-suc q b, pow-suc 2 k, h)

two_positive : (b : ℕ) → 2 ≤ b → 0 < b
two_positive b two = omega (arith, two)

-- A digit's character fits a `char`.
digit_fits : (d : ℕ) → d < 36 → digit_char d % 256 ≡ digit_char d
digit_fits d lt = ground (arith, lt)

-- The digits of `v` in front of others.
abbrev Collected : ℕ → ℕ → ℕ → List ℕ → Type 0
Collected k v b acc =
    (ds : List ℕ) × (collect (suc k) v b (characters acc) ≡ some (characters ds))
    × AllBelow b ds
    × (value b ds ≡ value_from b v acc)
    × (0 < length ds)

last_digit :
    (k v b : ℕ) (acc : List ℕ) → 2 ≤ b → b ≤ 36 → v / b ≡ 0 → AllBelow b acc → Collected k v b acc
unfolding collect
last_digit k v b acc two base_cap last below = (
  v % b ∷ acc,
  ground (arith, last, digit_fits (v % b) (omega (arith, mod-lt v (two_positive b two), base_cap))),
  (mod-lt v (omega arith), below),
  ap (λ q. value_from b q acc) (ground (arith, last, mod-add-div' v b)),
  omega arith,
)

collect-value :
    (k v b : ℕ) (acc : List ℕ) → 2 ≤ b → b ≤ 36 → v < 2 ^ k → AllBelow b acc → Collected k v b acc
unfolding collect
collect-value zero v b acc two base_cap h below =
    last_digit zero v b acc two base_cap (small v (omega (arith, h))) below
  where
    small : (v : ℕ) → v ≡ 0 → v / b ≡ 0
    small v e = rw e (zero-div b)
collect-value (suc k) v b acc two base_cap h below = elim (Bool-cases (ltb 0 (v / b))) [
  | inr last ↦ last_digit (suc k) v b acc two base_cap (ground (arith, last)) below
  | inl more ↦
      let (ds, e, all, val, some_ds) =
        collect-value k (v / b) b (v % b ∷ acc) two base_cap (halves k v b two h)
          (mod-lt v (omega arith), below) in
      (
        ds,
        ground (
          arith,
          more,
          e,
          digit_fits (v % b) (omega (arith, mod-lt v (two_positive b two), base_cap)),
        ),
        all,
        val ∙ ap (λ q. value_from b q acc) (ground (arith, mod-add-div' v b)),
        some_ds,
      )
]

-- What `emit_int` and `emit_uint` leave: the text of a number stands at `out`, and nothing else changes.
pub record Number (m : Mem) (out : ℕ) (negative : Bool) (number b : ℕ) (e : Emitted) : Type 0 where
  pub ds : List ℕ
  pub below : AllBelow b ds
  pub value_of : value b ds ≡ number
  pub some_digit : 0 < length ds
  pub place : e.1 ≡ out + e.2
  pub count : e.2 ≡ length (text negative ds)
  pub stands : Stands e.0 out (text negative ds)
  pub elsewhere : (a : ℕ) → inside out e.2 a ≡ false → e.0 a ≡ m a

emit_uint-Number :
    (m : Mem) (out v b : ℕ)
    → 2 ≤ b
    → b ≤ 36
    → v < 2 ^ 64
    → (e : Emitted) × (emit_uint m out v b ≡ some e) × Number m out false v b e
unfolding emit_uint
emit_uint-Number m out v b two base_cap fits =
    let (ds, c, below, val, some_ds) = collect-value 64 v b [] two base_cap fits tt in
    let cs : List ℕ = characters ds in
    (
      (put_all cs m out, out + length cs, length cs),
      ground (arith, c),
      record {
        ds = ds;
        below = below;
        value_of = val;
        some_digit = some_ds;
        place = refl;
        count = refl;
        stands = put_all-Stands cs m out;
        elsewhere = put_all-kept cs m out;
      },
    )

-- The sign of an integer, and its magnitude.
abbrev pub below_zero : ℤ → Bool
below_zero (pos n) = false
below_zero (negsuc n) = true

abbrev pub magnitude_of : ℤ → ℕ
magnitude_of (pos n) = n
magnitude_of (negsuc n) = n + 1

-- For every value of magnitude below 2^64 and every base from 2 to 36, the digits fit into `tmp`, and
-- `emit_int` writes a minus before a negative value and then the digits of its magnitude, at least one
-- and each below the base. It gives their number and the place behind them, and changes no other byte.
pub emit_int-Number :
    (m : Mem) (out : ℕ) (v : ℤ) (b : ℕ)
    → 2 ≤ b
    → b ≤ 36
    → magnitude_of v < 2 ^ 64
    → (e : Emitted) × (emit_int m out v b ≡ some e)
      × Number m out (below_zero v) (magnitude_of v) b e
unfolding emit_int
emit_int-Number m out (pos n) b two base_cap fits = emit_uint-Number m out n b two base_cap fits
emit_int-Number m out (negsuc n) b two base_cap fits =
    let (e, run, w) = emit_uint-Number (update m out 45) (out + 1) (n + 1) b two base_cap fits in
    (
      (e.0, e.1, 1 + e.2),
      ground (arith, run),
      record {
        ds = w.ds;
        below = w.below;
        value_of = w.value_of;
        some_digit = w.some_digit;
        place = omega (arith, w.place);
        count = omega (arith, w.count);
        stands = (w.elsewhere out (ground arith) ∙ ground arith, w.stands);
        elsewhere = λ a no. w.elsewhere a (ground arith) ∙ ground arith;
      },
    )
