-- ===== src/Cstring.antt =====
-- src/libs/string.c over a byte-addressed memory.
--
-- `Mem` gives the byte at each address; a pointer is an address, and 0 is NULL. A function that
-- writes returns the new memory. A loop that runs up to a NUL takes fuel, and `none` says that the
-- fuel ran out before a NUL was met; the theorems give the fuel that is enough. A loop with a count
-- recurs on the count. Bytes are read as `unsigned char`; two are equal as `char` when they are
-- equal as such. `int c` is its bit pattern, so `(char)c` and `(unsigned char)c` are `c % 256`.
pub mod Repr
pub mod Length
pub mod Copy
pub mod Compare
pub mod Search
pub mod Cut
pub mod Token
pub mod Tokens
pub mod Substring
pub mod Strerror
pub mod Block
mod Tests
use mathlib.Core.Option
use jmos.Prelude.{
  ℕ, zero, suc, ◌+◌, ◌-◌, ◌%◌, Bool, true, false, not, Option, none, some, ltb, ◌==◌, if◌then◌else◌,
  update,
}
use jmos.Prelude.Int.{ℤ, pos, sub_ℕ}

abbrev pub Mem : Type 0
Mem = ℕ → ℕ

abbrev pub null : ℕ
null = 0

-- `while (*s) s++;`
pub strlen_loop : ℕ → Mem → ℕ → Option ℕ
strlen_loop zero m s = none
strlen_loop (suc f) m s = elim (m s == 0) [ true ↦ some s | false ↦ strlen_loop f m (s + 1) ]

pub strlen : ℕ → Mem → ℕ → Option ℕ
strlen f m s = Option.map (λ end. end - s) (strlen_loop f m s)

-- `while (*src) *dest++ = *src++; *dest = '\0';`
pub strcpy_loop : ℕ → Mem → ℕ → ℕ → Option Mem
strcpy_loop zero m dest src = none
strcpy_loop (suc f) m dest src = elim (m src == 0) [
  | true ↦ some (update m dest 0)
  | false ↦ strcpy_loop f (update m dest (m src)) (dest + 1) (src + 1)
]

pub strcpy : ℕ → Mem → ℕ → ℕ → Option (ℕ × Mem)
strcpy f m dest src = Option.map (λ m'. (dest, m')) (strcpy_loop f m dest src)

-- `while (n > 0 && *src) { ...; n--; } if (n > 0) *dest = '\0';`
pub strncpy_loop : ℕ → Mem → ℕ → ℕ → Mem
strncpy_loop zero m dest src = m
strncpy_loop (suc n) m dest src = elim (m src == 0) [
  | true ↦ update m dest 0
  | false ↦ strncpy_loop n (update m dest (m src)) (dest + 1) (src + 1)
]

pub strncpy : Mem → ℕ → ℕ → ℕ → ℕ × Mem
strncpy m dest src n = (dest, strncpy_loop n m dest src)

pub strcat : ℕ → Mem → ℕ → ℕ → Option (ℕ × Mem)
strcat f m dest src = elim (strlen_loop f m dest) [
  | none ↦ none
  | some end ↦ Option.map (λ m'. (dest, m')) (strcpy_loop f m end src)
]

pub strncat : ℕ → Mem → ℕ → ℕ → ℕ → Option (ℕ × Mem)
strncat f m dest src n = Option.map (λ end. (dest, strncpy_loop n m end src)) (strlen_loop f m dest)

-- `while (*s1 && (*s1 == *s2)) { s1++; s2++; } return *s1 - *s2;`
pub strcmp : ℕ → Mem → ℕ → ℕ → Option ℤ
strcmp zero m s1 s2 = none
strcmp (suc f) m s1 s2 = elim (m s1 == 0) [
  | true ↦ some (sub_ℕ (m s1) (m s2))
  | false ↦ elim (m s1 == m s2) [
    | true ↦ strcmp f m (s1 + 1) (s2 + 1)
    | false ↦ some (sub_ℕ (m s1) (m s2))
  ]
]

pub strncmp : Mem → ℕ → ℕ → ℕ → ℤ
strncmp m s1 s2 zero = pos 0
strncmp m s1 s2 (suc n) = elim (m s1 == 0) [
  | true ↦ sub_ℕ (m s1) (m s2)
  | false ↦ elim (m s1 == m s2) [
    | true ↦ strncmp m (s1 + 1) (s2 + 1) n
    | false ↦ sub_ℕ (m s1) (m s2)
  ]
]

pub strchr_loop : ℕ → Mem → ℕ → ℕ → Option ℕ
strchr_loop zero m s c = none
strchr_loop (suc f) m s c = elim (m s == 0) [
  | true ↦ some null
  | false ↦ elim (m s == c) [ true ↦ some s | false ↦ strchr_loop f m (s + 1) c ]
]

pub strchr : ℕ → Mem → ℕ → ℕ → Option ℕ
strchr f m s c = strchr_loop f m s (c % 256)

pub strrchr_loop : ℕ → Mem → ℕ → ℕ → ℕ → Option ℕ
strrchr_loop zero m s c last = none
strrchr_loop (suc f) m s c last = elim (m s == 0) [
  | true ↦ some last
  | false ↦ strrchr_loop f m (s + 1) c (if m s == c then s else last)
]

pub strrchr : ℕ → Mem → ℕ → ℕ → Option ℕ
strrchr f m s c = strrchr_loop f m s (c % 256) null

-- The inner loop of `strcspn`, `strspn`, `strpbrk` and `strtok`: is `c` one of the string at `r`?
pub among : ℕ → Mem → ℕ → ℕ → Option Bool
among zero m r c = none
among (suc f) m r c = elim (m r == 0) [
  | true ↦ some false
  | false ↦ elim (c == m r) [ true ↦ some true | false ↦ among f m (r + 1) c ]
]

-- The outer loop: runs on while the answer of the inner one is not `stop`, and stops at the NUL.
-- `g` is the fuel of each inner loop.
pub span_loop : ℕ → ℕ → Bool → Mem → ℕ → ℕ → Option ℕ
span_loop g zero stop m s set = none
span_loop g (suc f) stop m s set = elim (m s == 0) [
  | true ↦ some s
  | false ↦ elim (among g m set (m s)) [
    | none ↦ none
    | some found ↦ elim (if stop then found else not found) [
      | true ↦ some s
      | false ↦ span_loop g f stop m (s + 1) set
    ]
  ]
]

pub strcspn : ℕ → Mem → ℕ → ℕ → Option ℕ
strcspn f m s reject = Option.map (λ end. end - s) (span_loop f f true m s reject)

pub strspn : ℕ → Mem → ℕ → ℕ → Option ℕ
strspn f m s accept = Option.map (λ end. end - s) (span_loop f f false m s accept)

pub strpbrk : ℕ → Mem → ℕ → ℕ → Option ℕ
strpbrk f m s accept =
    Option.map (λ end. if m end == 0 then null else end) (span_loop f f true m s accept)

-- `strtok` from where the string goes on, `next_token`: the pointer that it returns, the new `next_token`
-- and the memory. Its loops over the bytes are those of `strspn` and `strcspn`.
pub strtok_from : ℕ → Mem → ℕ → ℕ → Option (ℕ × ℕ × Mem)
strtok_from f m next_token delim = elim (span_loop f f false m next_token delim) [
  | none ↦ none
  | some token_start ↦ elim (m token_start == 0) [
    | true ↦ some (null, null, m)
    | false ↦ elim (span_loop f f true m token_start delim) [
      | none ↦ none
      | some end ↦
          if m end == 0
          then some (token_start, end, m)
          else some (token_start, end + 1, update m end 0)
    ]
  ]
]

-- `next_token` is the static variable's value before the call.
pub strtok : ℕ → Mem → ℕ → ℕ → ℕ → Option (ℕ × ℕ × Mem)
strtok f m next_token str delim =
    if not (str == null)
    then strtok_from f m str delim
    else if next_token == null
    then some (null, null, m)
    else strtok_from f m next_token delim

-- `while (*h && *n && (*h == *n)) { h++; n++; }`, and whether `*n == '\0'` then.
pub prefix_loop : ℕ → Mem → ℕ → ℕ → Option Bool
prefix_loop zero m h n = none
prefix_loop (suc f) m h n = elim (m n == 0) [
  | true ↦ some true
  | false ↦ elim (m h == 0) [
    | true ↦ some false
    | false ↦ elim (m h == m n) [ true ↦ prefix_loop f m (h + 1) (n + 1) | false ↦ some false ]
  ]
]

pub strstr_loop : ℕ → ℕ → Mem → ℕ → ℕ → Option ℕ
strstr_loop g zero m haystack needle = none
strstr_loop g (suc f) m haystack needle = elim (m haystack == 0) [
  | true ↦ some null
  | false ↦ elim (prefix_loop g m haystack needle) [
    | none ↦ none
    | some true ↦ some haystack
    | some false ↦ strstr_loop g f m (haystack + 1) needle
  ]
]

pub strstr : ℕ → Mem → ℕ → ℕ → Option ℕ
strstr f m haystack needle = elim (m needle == 0) [
  | true ↦ some haystack
  | false ↦ strstr_loop f f m haystack needle
]

pub memchr_loop : ℕ → Mem → ℕ → ℕ → ℕ
memchr_loop zero m p c = null
memchr_loop (suc n) m p c = elim (m p == c) [ true ↦ p | false ↦ memchr_loop n m (p + 1) c ]

pub memchr : Mem → ℕ → ℕ → ℕ → ℕ
memchr m ptr ch n = memchr_loop n m ptr (ch % 256)

pub memcmp_loop : ℕ → Mem → ℕ → ℕ → ℤ
memcmp_loop zero m p1 p2 = pos 0
memcmp_loop (suc n) m p1 p2 = elim (m p1 == m p2) [
  | true ↦ memcmp_loop n m (p1 + 1) (p2 + 1)
  | false ↦ sub_ℕ (m p1) (m p2)
]

pub memcmp : Mem → ℕ → ℕ → ℕ → ℤ
memcmp m ptr1 ptr2 n = memcmp_loop n m ptr1 ptr2

pub memset_loop : ℕ → Mem → ℕ → ℕ → Mem
memset_loop zero m p v = m
memset_loop (suc n) m p v = memset_loop n (update m p v) (p + 1) v

unfoldable pub memset : Mem → ℕ → ℕ → ℕ → ℕ × Mem
unfolding memset_loop
memset m ptr value n = (ptr, memset_loop n m ptr (value % 256))

-- `while (n--) *d++ = *s++;`
pub forward : ℕ → Mem → ℕ → ℕ → Mem
forward zero m d s = m
forward (suc n) m d s = forward n (update m d (m s)) (d + 1) (s + 1)

-- `d += n; s += n; while (n--) *--d = *--s;`
pub backward : ℕ → Mem → ℕ → ℕ → Mem
backward zero m d s = m
backward (suc n) m d s = backward n (update m (d + n) (m (s + n))) d s

unfoldable pub memcpy : Mem → ℕ → ℕ → ℕ → ℕ × Mem
unfolding forward
memcpy m dest src n = (dest, forward n m dest src)

unfoldable pub memmove : Mem → ℕ → ℕ → ℕ → ℕ × Mem
unfolding forward backward
memmove m dest src n = (dest, if ltb dest src then forward n m dest src else backward n m dest src)
