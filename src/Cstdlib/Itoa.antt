-- ===== src/Cstdlib/Itoa.antt =====
-- What `itoa` writes.
use native.Mathlib.Nat.{mod-add-div', mod-lt, mul-suc}
use jmos.Prelude.{
  ℕ, zero, suc, ◌+◌, ◌-◌, ◌*◌, ◌/◌, ◌%◌, ◌^◌, ◌≤◌, ◌<◌, ◌≡◌, refl, List, [], ◌∷◌, arith, length,
  ltb, leb, ◌==◌, if◌then◌else◌, Bool, false, some, ◌&&◌, ◌∙◌, sym, subst, update, Bool-cases, inl,
  inr, ap,
}
use jmos.Prelude.Int.{ℤ, pos, negsuc}
use jmos.Cstring.{Mem}
use jmos.Cstring.Repr.{IsString}
use jmos.Cstring.Block.{inside}
use jmos.Cstdlib.{
  digit_char, store_digits, reverse_loop, write_number, itoa, to_unsigned, is_negative,
}
use jmos.Cstdlib.Parse.{text, length-characters}
use jmos.Cstdlib.Digits.{AllBelow, value_from, value, characters}

-- Digits in the other order, in front of others; and their value, the first one lowest.
abbrev onto : List ℕ → List ℕ → List ℕ
onto [] acc = acc
onto (d ∷ ds) acc = onto ds (d ∷ acc)

abbrev low_value : ℕ → List ℕ → ℕ
low_value b [] = 0
low_value b (d ∷ ds) = low_value b ds * b + d

onto-value : (b : ℕ) (ds acc : List ℕ) → value b (onto ds acc) ≡ value_from b (low_value b ds) acc
onto-value b [] acc = refl
onto-value b (d ∷ ds) acc = onto-value b ds (d ∷ acc)

onto-AllBelow :
    (b : ℕ) (ds acc : List ℕ) → AllBelow b ds → AllBelow b acc → AllBelow b (onto ds acc)
onto-AllBelow b [] acc below more = more
onto-AllBelow b (d ∷ ds) acc below more = onto-AllBelow b ds (d ∷ acc) below.1 (below.0, more)

onto-length : (ds acc : List ℕ) → length (onto ds acc) ≡ length ds + length acc
onto-length [] acc = omega arith
onto-length (d ∷ ds) acc = omega (arith, onto-length ds (d ∷ acc))

-- The characters of the digits stand upwards from `p`, or downwards below `q`.
abbrev Up : Mem → ℕ → List ℕ → Type 0
Up m p [] = Unit
Up m p (d ∷ ds) = (m p ≡ digit_char d) × Up m (p + 1) ds

abbrev Down : Mem → ℕ → List ℕ → Type 0
Down m q [] = Unit
Down m q (d ∷ ds) = (m (q - 1) ≡ digit_char d) × Down m (q - 1) ds

Up-same :
    (m m' : Mem) (p : ℕ) (ds : List ℕ)
    → ((a : ℕ) → p ≤ a → a < p + length ds → m' a ≡ m a)
    → Up m p ds
    → Up m' p ds
Up-same m m' p [] same u = tt
Up-same m m' p (d ∷ ds) same u = (
  same p (omega arith) (omega arith) ∙ u.0,
  Up-same m m' (p + 1) ds (λ a lo hi. same a (omega arith) (omega arith)) u.1,
)

Up-Down :
    (m m' : Mem) (p q : ℕ) (ds : List ℕ)
    → length ds ≤ q
    → ((i : ℕ) → i < length ds → m' (q - 1 - i) ≡ m (p + i))
    → Up m p ds
    → Down m' q ds
Up-Down m m' p q [] le mirror u = tt
Up-Down m m' p q (d ∷ ds) le mirror u = (
  ground (arith, mirror 0, u.0),
  Up-Down m m' (p + 1) (q - 1) ds (omega arith)
      (λ i lt.
        let a : q - 1 - suc i ≡ q - 1 - 1 - i = omega arith in
        let b : p + suc i ≡ p + 1 + i = omega arith in rw (a, b) at (mirror (suc i) (omega arith)))
      u.1,
)

Down-IsString :
    (m : Mem) (q : ℕ) (ds acc : List ℕ) (b : ℕ)
    → length ds ≤ q
    → AllBelow b ds
    → Down m q ds
    → IsString m q (characters acc)
    → IsString m (q - length ds) (characters (onto ds acc))
Down-IsString m q [] acc b le below u s =
    let e : q ≡ q - 0 = omega arith in subst (λ x. IsString m x (characters acc)) e s
Down-IsString m q (d ∷ ds) acc b le below u s =
    let here : q - 1 + 1 ≡ q = omega arith in
    let e : q - 1 - length ds ≡ q - suc (length ds) = omega arith in
    rw e at (
      Down-IsString m (q - 1) ds (d ∷ acc) b (omega arith) below.1 u.1
        (u.0, ground arith, rw here s))

-- A number shrinks when a digit is taken off it.
shrinks : (n b : ℕ) → 2 ≤ b → 0 < n / b → n / b < n
shrinks n zero two p = absurd (omega arith)
shrinks n (suc zero) two p = absurd (omega arith)
shrinks n (suc (suc b)) two p =
    let q : ℕ = n / suc (suc b) in
    omega (arith, mod-add-div' n (suc (suc b)), mul-suc q (suc b), mul-suc q b)

-- The first loop stores the digits of the number, the lowest first.
store_digits-Up :
    (g : ℕ) (m : Mem) (p num b : ℕ)
    → 2 ≤ b
    → num < g
    → (ds : List ℕ) × (m' : Mem) × (store_digits g m p num b ≡ some (p + length ds, m'))
      × (low_value b ds ≡ num)
      × AllBelow b ds
      × (0 < length ds)
      × (length ds ≤ suc num)
      × Up m' p ds
      × ((a : ℕ) → inside p (length ds) a ≡ false → m' a ≡ m a)
unfolding store_digits
store_digits-Up zero m p num b two fuel = absurd (omega arith)
store_digits-Up (suc g) m p num b two fuel = elim (Bool-cases (ltb 0 (num / b))) [
  | inr last ↦ (
    num % b ∷ [],
    update m p (digit_char (num % b)),
    ground (arith, last),
    ground (arith, last, mod-add-div' num b),
    (mod-lt num (omega arith), tt),
    omega arith,
    omega arith,
    (ground arith, tt),
    λ a out. ground arith,
  )
  | inl more ↦
      let less : num / b < num = shrinks num b two (ground arith) in
      let (ds, m', e, v, below, some_ds, few, up, kept) =
        store_digits-Up g (update m p (digit_char (num % b))) (p + 1) (num / b) b two
          (omega (arith, less)) in
      (
        num % b ∷ ds,
        m',
        ground (arith, more, e),
        ground (arith, v, mod-add-div' num b),
        (mod-lt num (omega arith), below),
        omega arith,
        omega (arith, few, less),
        (kept p (ground arith) ∙ ground arith, up),
        λ a out. kept a (ground arith) ∙ ground arith,
      )
]

-- The second loop mirrors the bytes from `start` to `end`.
reverse_loop-mirror :
    (g : ℕ) (m : Mem) (start end : ℕ)
    → start ≤ end + 1
    → end + 1 < start + g
    → (m' : Mem) × (reverse_loop g m start end ≡ some m')
      × ((a : ℕ) → m' a ≡ (if leb start a && leb a end then m (start + end - a) else m a))
unfolding reverse_loop
reverse_loop-mirror zero m start end le fuel = absurd (omega arith)
reverse_loop-mirror (suc g) m start end le fuel = elim (Bool-cases (ltb start end)) [
  | inr done ↦ (m, ground arith, λ a. ground arith)
  | inl go ↦
      let m1 : Mem = update (update m start (m end)) end (m start) in
      let (m', e, mirror) =
        reverse_loop-mirror g m1 (start + 1) (end - 1) (ground arith) (ground arith) in
      (m', ground (arith, e), λ a. ground (arith, mirror a))
]

-- What stands in memory after a number has been written.
pub record Written (m : Mem) (p num b : ℕ) (m' : Mem) : Type 0 where
  pub ds : List ℕ
  pub below : AllBelow b ds
  pub value_of : value b ds ≡ num
  pub some_digit : 0 < length ds
  pub few : length ds ≤ suc num
  pub string : IsString m' p (characters ds)
  pub elsewhere : (a : ℕ) → inside p (suc (length ds)) a ≡ false → m' a ≡ m a

pub write_number-Written :
    (g : ℕ) (m : Mem) (p num b : ℕ)
    → 2 ≤ b
    → suc num < g
    → (m' : Mem) × (write_number g m p num b ≡ some m') × Written m p num b m'
unfolding write_number
write_number-Written g m p num b two fuel =
    let (ds, m1, e1, v, below, some_ds, few, up, kept) =
      store_digits-Up g m p num b two (omega arith) in
    let q : ℕ = p + length ds in
    let m2 : Mem = update m1 q 0 in
    let (m3, e2, mirror) =
      reverse_loop-mirror g m2 p (q - 1) (omega arith) (omega (arith, few, some_ds)) in
    let up2 = Up-same m1 m2 p ds (λ a lo hi. ground arith) up in
    let down =
      Up-Down m2 m3 p q ds (omega arith) (λ i lt. ground (arith, mirror (q - 1 - i), some_ds))
        up2 in
    let text =
      Down-IsString m3 q ds [] b (omega arith) below down (ground (arith, mirror q, some_ds)) in
    let back : q - length ds ≡ p = omega arith in
    (
      m3,
      ground (arith, e1, e2),
      record {
        ds = onto ds [];
        below = onto-AllBelow b ds [] below tt;
        value_of = onto-value b ds [] ∙ v;
        some_digit = omega (arith, onto-length ds [], some_ds);
        few = omega (arith, onto-length ds [], few);
        string = rw back at text;
        elsewhere = λ a out. ground (arith, onto-length ds [], mirror a, kept a, some_ds);
      },
    )

-- The value of an `int`.
abbrev pub IsInt : ℤ → Type 0
IsInt (pos n) = n < 2 ^ 31
IsInt (negsuc n) = n < 2 ^ 31

-- Whether `itoa` writes a minus, and the number that it writes behind it.
abbrev pub minus : ℤ → ℕ → Bool
minus v b = b == 10 && is_negative v

abbrev pub number : ℤ → ℕ → ℕ
number (pos n) b = n
number (negsuc n) b = if b == 10 then n + 1 else 2 ^ 32 - 1 - n

written_number :
    (v : ℤ) (b : ℕ)
    → IsInt v
    → ((if minus v b then (2 ^ 32 - to_unsigned v) % 2 ^ 32 else to_unsigned v) ≡ number v b)
      × (number v b < 2 ^ 32)
written_number (pos n) b int = ground arith
written_number (negsuc n) b int = ground arith

-- A number that has been written has a first digit.
first_digit : (ds : List ℕ) → 0 < length ds → (d : ℕ) × (es : List ℕ) × (ds ≡ d ∷ es)
first_digit [] nz = absurd (omega arith)
first_digit (d ∷ es) nz = (d, es, refl)

-- For bases from 2 to 36 and fuel above 2^32 + 1, `itoa` returns its buffer and writes a string there: in
-- base 10, a minus before a negative value and the digits of its magnitude; in another base, the digits
-- of the value modulo 2^32. The digits are below the base, at least one, and no byte outside the string
-- changes.
pub itoa-text :
    (g : ℕ) (v : ℤ) (m : Mem) (p b : ℕ)
    → 2 ≤ b
    → b ≤ 36
    → IsInt v
    → 2 ^ 32 + 1 < g
    → (d : ℕ) × (ds : List ℕ) × (m' : Mem) × (itoa g v m p b ≡ some (p, m'))
      × AllBelow b (d ∷ ds)
      × (value b (d ∷ ds) ≡ number v b)
      × IsString m' p (text (minus v b) (d ∷ ds))
      × (suc (length ds) < g)
      × ((a : ℕ) → inside p (suc (length (text (minus v b) (d ∷ ds)))) a ≡ false → m' a ≡ m a)
unfolding itoa
itoa-text g v m p b two most int fuel =
    let sized = written_number v b int in
    elim (Bool-cases (minus v b)) [
      | inl signed ↦
          let (m', e, w) =
            write_number-Written g (update m p 45) (p + 1) (number v b) b two
              (omega (arith, sized)) in
          let (d, ds, cons) = first_digit w.ds w.some_digit in
          (
            d,
            ds,
            m',
            ground (arith, signed, e, sized),
            subst (λ q. AllBelow b q) cons w.below,
            subst (λ q. value b q ≡ number v b) cons w.value_of,
            subst (λ t. IsString m' p (text t (d ∷ ds))) (sym signed)
                (
                  w.elsewhere p (ground arith) ∙ ground arith,
                  omega arith,
                  subst (λ q. IsString m' (p + 1) (characters q)) cons w.string,
                ),
            omega (arith, ap (λ q. length q) cons, w.few, sized),
            λ a out.
                w.elsewhere a
                  (ground (arith, signed, out, length-characters ds, ap (λ q. length q) cons))
                ∙ ground (arith, out, signed),
          )
      | inr plain ↦
          let (m', e, w) = write_number-Written g m p (number v b) b two (omega (arith, sized)) in
          let (d, ds, cons) = first_digit w.ds w.some_digit in
          (
            d,
            ds,
            m',
            ground (arith, plain, e, sized),
            subst (λ q. AllBelow b q) cons w.below,
            subst (λ q. value b q ≡ number v b) cons w.value_of,
            subst (λ t. IsString m' p (text t (d ∷ ds))) (sym plain)
                (subst (λ q. IsString m' p (characters q)) cons w.string),
            omega (arith, ap (λ q. length q) cons, w.few, sized),
            λ a out.
                w.elsewhere a
                  (ground (arith, plain, out, length-characters ds, ap (λ q. length q) cons)),
          )
    ]
