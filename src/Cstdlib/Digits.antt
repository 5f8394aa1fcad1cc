-- ===== src/Cstdlib/Digits.antt =====
-- Digits and the number that they stand for.
use jmos.Prelude.{ℕ, ◌+◌, ◌*◌, ◌<◌, List, [], ◌∷◌}
use jmos.Cstdlib.{digit_char}

abbrev pub AllBelow : ℕ → List ℕ → Type 0
AllBelow b [] = Unit
AllBelow b (d ∷ ds) = (d < b) × AllBelow b ds

-- The value of digits, the first one highest, behind the digits whose value is `a`.
abbrev pub value_from : ℕ → ℕ → List ℕ → ℕ
value_from b a [] = a
value_from b a (d ∷ ds) = value_from b (a * b + d) ds

abbrev pub value : ℕ → List ℕ → ℕ
value b ds = value_from b 0 ds

abbrev pub characters : List ℕ → List ℕ
characters [] = []
characters (d ∷ ds) = digit_char d ∷ characters ds
