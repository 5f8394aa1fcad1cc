-- ===== src/Pmm/Bitmap.antt =====
-- One bit set or cleared, and the effect on every test (`bm_set`, `bm_clear`, `bm_test`).
use jmos.Prelude.{
  ℕ, zero, suc, ◌-◌, ◌/◌, ◌%◌, ◌^◌, ◌<◌, bit_and, bit_or, ◌≡◌, refl, inl, inr, Bool, true, false,
  not, ◌&&◌, arith, ltb, ◌==◌, if◌then◌else◌, eq_or_ne, update, ap,
}
use jmos.Pmm.{Bytes, bm_set, bm_clear, bm_test}

-- Every value below a bound, by evaluation.
below : ℕ → (ℕ → Bool) → Bool
below zero p = true
below (suc n) p = p n && below n p

below_sound : (n : ℕ) (p : ℕ → Bool) (x : ℕ) → below n p ≡ true → x < n → p x ≡ true
unfolding below
below_sound zero p x h lt = absurd (omega arith)
below_sound (suc n) p x h lt = ground (arith, below_sound n p x)

abbrev bit : ℕ → ℕ → Bool
bit b k = (b / 2 ^ k) % 2 == 1

abbrev same : Bool → Bool → Bool
same true b = b
same false b = not b

same→eq : (a b : Bool) → same a b ≡ true → a ≡ b
same→eq true b h = ground arith
same→eq false b h = ground arith

abbrev set_row : ℕ → ℕ → ℕ → Bool
set_row b k l = same (bit (bit_or b (2 ^ k)) l) (if k == l then true else bit b l)

abbrev clear_row : ℕ → ℕ → ℕ → Bool
clear_row b k l = same (bit (bit_and b (255 - 2 ^ k)) l) (if k == l then false else bit b l)

abbrev in_byte : ℕ → ℕ → Bool
in_byte b k = ltb (bit_or b (2 ^ k)) 256 && ltb (bit_and b (255 - 2 ^ k)) 256

table :
    below 256 (λ b. below 8 (λ k. in_byte b k && below 8 (λ l. set_row b k l && clear_row b k l)))
    ≡ true
unfolding below
table = refl

and_left : (a b : Bool) → (a && b) ≡ true → a ≡ true
and_left a b h = ground arith

and_right : (a b : Bool) → (a && b) ≡ true → b ≡ true
and_right a b h = ground arith

rows :
    (b k : ℕ)
    → b < 256
    → k < 8
    → (in_byte b k && below 8 (λ l. set_row b k l && clear_row b k l)) ≡ true
rows b k hb hk = below_sound 8 _ k (below_sound 256 _ b table hb) hk

row : (b k l : ℕ) → b < 256 → k < 8 → l < 8 → (set_row b k l && clear_row b k l) ≡ true
row b k l hb hk hl = below_sound 8 _ l (and_right (in_byte b k) _ (rows b k hb hk)) hl

bit-set :
    (b k l : ℕ)
    → b < 256
    → k < 8
    → l < 8
    → bit (bit_or b (2 ^ k)) l ≡ (if k == l then true else bit b l)
bit-set b k l hb hk hl =
    same→eq _ _ (and_left (set_row b k l) (clear_row b k l) (row b k l hb hk hl))

bit-clear :
    (b k l : ℕ)
    → b < 256
    → k < 8
    → l < 8
    → bit (bit_and b (255 - 2 ^ k)) l ≡ (if k == l then false else bit b l)
bit-clear b k l hb hk hl =
    same→eq _ _ (and_right (set_row b k l) (clear_row b k l) (row b k l hb hk hl))

ltb256 : (x : ℕ) → ltb x 256 ≡ true → x < 256
ltb256 x h = ground arith

byte-set : (b k : ℕ) → b < 256 → k < 8 → bit_or b (2 ^ k) < 256
byte-set b k hb hk =
    ltb256 _
      (and_left _ (ltb (bit_and b (255 - 2 ^ k)) 256) (and_left (in_byte b k) _ (rows b k hb hk)))

byte-clear : (b k : ℕ) → b < 256 → k < 8 → bit_and b (255 - 2 ^ k) < 256
byte-clear b k hb hk =
    ltb256 _ (and_right (ltb (bit_or b (2 ^ k)) 256) _ (and_left (in_byte b k) _ (rows b k hb hk)))

-- What the bitmap stores are bytes.
abbrev pub IsBytes : Bytes → Type 0
IsBytes bm = (j : ℕ) → bm j < 256

update-IsBytes : (bm : Bytes) (a v : ℕ) → IsBytes bm → v < 256 → IsBytes (update bm a v)
update-IsBytes bm a v h hv j = ground (arith, h j)

pub bm_set-IsBytes : (bm : Bytes) (i : ℕ) → IsBytes bm → IsBytes (bm_set bm i)
unfolding bm_set
bm_set-IsBytes bm i h = update-IsBytes bm _ _ h (byte-set _ _ (h _) (omega arith))

pub bm_clear-IsBytes : (bm : Bytes) (i : ℕ) → IsBytes bm → IsBytes (bm_clear bm i)
unfolding bm_clear
bm_clear-IsBytes bm i h = update-IsBytes bm _ _ h (byte-clear _ _ (h _) (omega arith))

-- The test of frame `j` after byte `i / 8` is given the value `v`.
test-update :
    (bm : Bytes) (i j v : ℕ) (c : Bool)
    → bit v (j % 8) ≡ (if (i % 8) == (j % 8) then c else bit (bm (i / 8)) (j % 8))
    → bit (update bm (i / 8) v (j / 8)) (j % 8) ≡ (if i == j then c else bit (bm (j / 8)) (j % 8))
test-update bm i j v c h = elim (eq_or_ne (i / 8) (j / 8)) [
  | inl e ↦ ground (arith, ap (λ n. bit (bm n) (j % 8)) e)
  | inr ne ↦ ground arith
]

-- Setting a bit makes its own test true and leaves every other test alone.
pub bm_test-set :
    (bm : Bytes) (i j : ℕ)
    → IsBytes bm
    → bm_test (bm_set bm i) j ≡ (if i == j then true else bm_test bm j)
unfolding bm_test bm_set
bm_test-set bm i j h = test-update bm i j _ true (bit-set _ _ _ (h _) (omega arith) (omega arith))

-- Clearing a bit makes its own test false and leaves every other test alone.
pub bm_test-clear :
    (bm : Bytes) (i j : ℕ)
    → IsBytes bm
    → bm_test (bm_clear bm i) j ≡ (if i == j then false else bm_test bm j)
unfolding bm_test bm_clear
bm_test-clear bm i j h =
    test-update bm i j _ false (bit-clear _ _ _ (h _) (omega arith) (omega arith))
