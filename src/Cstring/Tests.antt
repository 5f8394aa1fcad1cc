-- ===== src/Cstring/Tests.antt =====
-- The string library on a small memory, and its theorems at it.
use jmos.Prelude.{
  ℕ, ◌+◌, ◌-◌, ◌<◌, ◌≡◌, min, false, refl, inl, List, [], ◌∷◌, ◌++◌, some, arith, if◌then◌else◌,
  get_or,
}
use jmos.Cstring.{Mem, strncat, strstr, memmove}
use jmos.Cstring.Repr.{IsString}
use jmos.Cstring.Block.{inside, memmove_lem}
use jmos.Cstring.Copy.{strncat-append}
use jmos.Cstring.Search.{contains}
use jmos.Cstring.Tokens.{tokens, strtok_all, Collected, strtok_all-tokens}
use jmos.Cstring.Substring.{FirstMatch, strstr-FirstMatch}

-- "abca" at 1, "ca" at 6.
abbrev memory : Mem
memory a = get_or (0 ∷ 97 ∷ 98 ∷ 99 ∷ 97 ∷ 0 ∷ 99 ∷ 97 ∷ 0 ∷ []) a 0

abbrev abca : List ℕ
abca = 97 ∷ 98 ∷ 99 ∷ 97 ∷ []

abbrev ca : List ℕ
ca = 99 ∷ 97 ∷ []

abca-IsString : IsString memory 1 abca
abca-IsString = omega arith

ca-IsString : IsString memory 6 ca
ca-IsString = omega arith

strncat-append_example :
    (m' : Mem) × (strncat 9 memory 6 1 2 ≡ some (6, m'))
    × (4 < 2 → IsString m' 6 (ca ++ abca))
    × ((i : ℕ) → i < 2 → i < 4 → m' (6 + 2 + i) ≡ memory (1 + i))
    × ((a : ℕ) → inside (6 + 2) (min 2 5) a ≡ false → m' a ≡ memory a)
strncat-append_example =
    strncat-append memory 6 1 ca abca ca-IsString abca-IsString (omega arith) 9 2 (omega arith)

-- The token of "abca" between the delimiters "ca" is "b".
tokens_b : tokens ca [] abca ≡ (98 ∷ []) ∷ []
unfolding contains
tokens_b = refl

strtok_all-tokens_example : Collected ca memory 1 abca (strtok_all 5 5 memory 0 1 6)
strtok_all-tokens_example =
    strtok_all-tokens 5 5 memory 0 1 1 6 abca ca (inl refl) (omega arith) abca-IsString ca-IsString
      (omega arith) (omega arith) (omega arith) (λ i j li lj e. omega (arith, li, lj, e))

strstr-FirstMatch_example : (r : ℕ) × (strstr 9 memory 1 6 ≡ some r) × FirstMatch 1 abca ca r
strstr-FirstMatch_example =
    strstr-FirstMatch 9 memory 1 6 abca ca abca-IsString ca-IsString (omega arith) (omega arith)

memmove_lem_example :
    ((memmove memory 2 1 4).0 ≡ 2)
    × ((memmove memory 2 1 4).1 5 ≡ (if inside 2 4 5 then memory (1 + (5 - 2)) else memory 5))
memmove_lem_example = memmove_lem memory 2 1 4 5
