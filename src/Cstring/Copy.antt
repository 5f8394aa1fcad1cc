-- ===== src/Cstring/Copy.antt =====
-- `strcpy`, `strncpy`, `strcat`, `strncat`.

use jmos.Prelude.{
  ℕ, zero, suc, ◌+◌, ◌-◌, ◌≤◌, ◌<◌, min, ◌≡◌, ◌⊎◌, false, List, [], ◌∷◌, ◌++◌, some, arith, ◌==◌,
  length, update, ne→==, ap, ◌∙◌, sym,
}
use jmos.Cstring.{Mem, strcpy_loop, strcpy, strncpy_loop, strncpy, strcat, strncat, forward, memcpy}
use jmos.Cstring.Repr.{IsString, IsString-copy, IsString-append}
use jmos.Cstring.Length.{strlen_loop_lem}
use jmos.Cstring.Block.{inside, forward_lem}

-- Blocks of `n` bytes that do not overlap.
abbrev pub Apart : ℕ → ℕ → ℕ → Type 0
Apart d s n = (d + n ≤ s) ⊎ (s + n ≤ d)

-- The first byte moved, and the string behind it as it was.
rest-IsString :
    (m : Mem) (d s : ℕ) (x : ℕ) (xs : List ℕ)
    → IsString m s (x ∷ xs)
    → Apart d s (suc (suc (length xs)))
    → IsString (update m d (m s)) (s + 1) xs
rest-IsString m d s x xs h ap' =
    IsString-copy m (update m d (m s)) (s + 1) (s + 1) xs h.2 λ i le. ground (arith, ap')

-- Copying a string with its NUL is copying its length and one more byte.
strcpy_loop-forward :
    (f : ℕ) (m : Mem) (d s : ℕ) (xs : List ℕ)
    → IsString m s xs
    → length xs < f
    → Apart d s (suc (length xs))
    → strcpy_loop f m d s ≡ some (forward (suc (length xs)) m d s)
unfolding strcpy_loop forward
strcpy_loop-forward zero m d s xs h lt ap' = absurd (omega arith)
strcpy_loop-forward (suc f) m d s [] h lt ap' = rw (h, strcpy_loop)
strcpy_loop-forward (suc f) m d s (x ∷ xs) h lt ap' =
    let go : (m s == 0) ≡ false = ne→== _ _ (λ z. h.1 (sym h.0 ∙ z)) in
    rw (go, strcpy_loop)
      (strcpy_loop-forward f (update m d (m s)) (d + 1) (s + 1) xs (rest-IsString m d s x xs h ap')
        (omega arith) (omega arith))

-- With a bound, the bytes copied are the string with its NUL, up to the bound.
strncpy_loop-forward :
    (n : ℕ) (m : Mem) (d s : ℕ) (xs : List ℕ)
    → IsString m s xs
    → Apart d s (suc (length xs))
    → strncpy_loop n m d s ≡ forward (min n (suc (length xs))) m d s
unfolding strncpy_loop forward
strncpy_loop-forward zero m d s xs h ap' = let z : min 0 (suc (length xs)) ≡ 0 = omega arith in rw z
strncpy_loop-forward (suc n) m d s [] h ap' =
    let z : min (suc n) 1 ≡ suc 0 = omega arith in rw (z, h, strncpy_loop)
strncpy_loop-forward (suc n) m d s (x ∷ xs) h ap' =
    let go : (m s == 0) ≡ false = ne→== _ _ (λ z. h.1 (sym h.0 ∙ z)) in
    let z : min (suc n) (suc (suc (length xs))) ≡ suc (min n (suc (length xs))) = omega arith in
    rw (go, z, strncpy_loop)
      (strncpy_loop-forward n (update m d (m s)) (d + 1) (s + 1) xs (rest-IsString m d s x xs h ap')
        (omega arith))

-- What a copy of `n` bytes leaves at `d`, and elsewhere.
copied-IsString :
    (m : Mem) (d s : ℕ) (xs : List ℕ)
    → IsString m s xs
    → Apart d s (suc (length xs))
    → IsString (forward (suc (length xs)) m d s) d xs
copied-IsString m d s xs h ap' = IsString-copy m (forward (suc (length xs)) m d s) s d xs h λ i le.
    let a : s + (d + i - d) ≡ s + i = omega arith in
    ground (arith, forward_lem (suc (length xs)) m d s (d + i) (omega arith), ap m a)

-- Given room that does not overlap the source, `strcpy` ends, returns its target, leaves the
-- source's string there, and changes no byte outside the string's length and its NUL.
pub strcpy-IsString :
    (f : ℕ) (m : Mem) (d s : ℕ) (xs : List ℕ)
    → IsString m s xs
    → length xs < f
    → Apart d s (suc (length xs))
    → (m' : Mem) × (strcpy f m d s ≡ some (d, m'))
      × IsString m' d xs
      × ((a : ℕ) → inside d (suc (length xs)) a ≡ false → m' a ≡ m a)
unfolding strcpy
strcpy-IsString f m d s xs h lt ap' = (
  forward (suc (length xs)) m d s,
  rw (strcpy_loop-forward f m d s xs h lt ap'),
  copied-IsString m d s xs h ap',
  λ a out. ground (arith, forward_lem (suc (length xs)) m d s a (omega arith), out),
)

-- `strncpy` copies exactly as many bytes as `memcpy` does of the smaller of its bound and the
-- string's length with the NUL: it neither pads the target nor ends it where the bound is reached.
pub strncpy-memcpy :
    (m : Mem) (d s n : ℕ) (xs : List ℕ)
    → IsString m s xs
    → Apart d s (suc (length xs))
    → strncpy m d s n ≡ memcpy m d s (min n (suc (length xs)))
unfolding strncpy memcpy
strncpy-memcpy m d s n xs h ap' = rw (strncpy_loop-forward n m d s xs h ap')

-- The target's string, and behind its bytes the room for the source, which lies elsewhere.
module _ (m : Mem) (d s : ℕ) (ys xs : List ℕ) (hd : IsString m d ys) (hs : IsString m s xs)
    (apart : Apart (d + length ys) s (suc (length xs))) where
  joined-IsString : IsString (forward (suc (length xs)) m (d + length ys) s) d (ys ++ xs)
  joined-IsString =
      IsString-append m (forward (suc (length xs)) m (d + length ys) s) d ys xs hd
        (λ i lt.
          ground (arith, forward_lem (suc (length xs)) m (d + length ys) s (d + i) (omega arith)))
        (copied-IsString m (d + length ys) s xs hs apart)

  -- `strcat` leaves the source's string behind the target's, and writes only there.
  pub strcat-append :
      (f : ℕ)
      → length ys < f
      → length xs < f
      → (m' : Mem) × (strcat f m d s ≡ some (d, m'))
        × IsString m' d (ys ++ xs)
        × ((a : ℕ) → inside (d + length ys) (suc (length xs)) a ≡ false → m' a ≡ m a)
  unfolding strcat
  strcat-append f ly lx = (
    forward (suc (length xs)) m (d + length ys) s,
    rw (strlen_loop_lem f m d ys hd ly, strcat)
        (rw (strcpy_loop-forward f m (d + length ys) s xs hs lx apart)),
    joined-IsString,
    λ a out. ground (arith, forward_lem (suc (length xs)) m (d + length ys) s a (omega arith), out),
  )

  -- Where source and target lie apart, `strncat` ends, with fuel above the target's length. With a
  -- bound above the source's length it leaves the source's string behind the target's, in one string;
  -- with a bound up to the length it puts exactly that many of the source's bytes behind the target's
  -- and no NUL. It changes no byte besides those that it writes.
  pub strncat-append :
      (f n : ℕ)
      → length ys < f
      → (m' : Mem) × (strncat f m d s n ≡ some (d, m'))
        × (length xs < n → IsString m' d (ys ++ xs))
        × ((i : ℕ) → i < n → i < length xs → m' (d + length ys + i) ≡ m (s + i))
        × ((a : ℕ) → inside (d + length ys) (min n (suc (length xs))) a ≡ false → m' a ≡ m a)
  unfolding strncat
  strncat-append f n ly = (
    forward (min n (suc (length xs))) m (d + length ys) s,
    rw (strlen_loop_lem f m d ys hd ly, strncpy_loop-forward n m (d + length ys) s xs hs apart),
    (λ lt. let e : min n (suc (length xs)) ≡ suc (length xs) = omega arith in rw e joined-IsString),
    (λ i lt le.
        let k : ℕ = min n (suc (length xs)) in
        let e : s + (d + length ys + i - (d + length ys)) ≡ s + i = omega arith in
        ground
          (arith, forward_lem k m (d + length ys) s (d + length ys + i) (omega arith), ap m e)),
    (λ a out.
        ground
          (arith, forward_lem (min n (suc (length xs))) m (d + length ys) s a (omega arith), out)),
  )
