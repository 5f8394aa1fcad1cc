-- ===== src/Cstring/Length.antt =====
-- `strlen`.
use jmos.Prelude.{ℕ, zero, suc, ◌+◌, ◌<◌, ◌≡◌, List, [], ◌∷◌, some, arith, length, ap}
use jmos.Cstring.{Mem, strlen_loop, strlen}
use jmos.Cstring.Repr.{IsString}

-- The loop stops at the NUL.
pub strlen_loop_lem :
    (f : ℕ) (m : Mem) (p : ℕ) (xs : List ℕ)
    → IsString m p xs
    → length xs < f
    → strlen_loop f m p ≡ some (p + length xs)
unfolding strlen_loop
strlen_loop_lem zero m p xs h lt = absurd (omega arith)
strlen_loop_lem (suc f) m p [] h lt = rw (h, strlen_loop) (ground arith)
strlen_loop_lem (suc f) m p (x ∷ xs) h lt =
    ground (arith, strlen_loop_lem f m (p + 1) xs h.2 (omega arith))

-- With fuel above its length, `strlen` of a string is its length.
pub strlen-length :
    (f : ℕ) (m : Mem) (p : ℕ) (xs : List ℕ)
    → IsString m p xs
    → length xs < f
    → strlen f m p ≡ some (length xs)
unfolding strlen
strlen-length f m p xs h lt = rw (strlen_loop_lem f m p xs h lt) (ap some (omega arith))
