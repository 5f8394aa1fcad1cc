-- ===== src/Cstdlib/Tests.antt =====
-- The theorems on numbers at small memories.
use jmos.Prelude.{ℕ, ◌-◌, ◌^◌, ◌≡◌, [], ◌∷◌, arith, some, get_or}
use jmos.Prelude.Int.{pos, negsuc}
use jmos.Cstring.{Mem}
use jmos.Cstdlib.{itoa, strtol, stored}
use jmos.Cstdlib.Trip.{strtol-itoa}

-- "-2a" at 1.
abbrev text_memory : Mem
text_memory a = get_or (0 ∷ 45 ∷ 50 ∷ 97 ∷ 0 ∷ []) a 0

strtol-itoa_example :
    (m' : Mem) × (end : ℕ) × (itoa (2 ^ 33) (negsuc 41) text_memory 50 16 ≡ some (50, m'))
    × (m' end ≡ 0)
    × (strtol (2 ^ 33) m' 50 7 16 ≡ some (pos (2 ^ 32 - 42), stored 7 end))
strtol-itoa_example =
    strtol-itoa (2 ^ 33) (negsuc 41) text_memory 50 7 16 (omega arith) (omega arith) (omega arith)
      (omega arith)
