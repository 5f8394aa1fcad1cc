-- ===== src/Cstdlib.antt =====
-- src/libs/stdlib.c: reading and writing of numbers.
--
-- Characters are the bytes of the string library's memory. A loop that the text bounds takes fuel `g`.
-- `none` says that the fuel ran out or that a signed result overflowed, which C leaves undefined;
-- unsigned results wrap round. `char` values above 127 are in no range that the code asks for. A base
-- is not negative here.
pub mod Digits
pub mod Parse
pub mod Itoa
pub mod Trip
mod Tests
use jmos.Prelude.{
  ℕ, zero, suc, ◌+◌, ◌-◌, ◌*◌, ◌/◌, ◌%◌, ◌^◌, Bool, true, false, not, ◌&&◌, ◌||◌, Option, none,
  some, ltb, leb, ◌==◌, if◌then◌else◌, update,
}
use jmos.Prelude.Int.{ℤ, pos, negsuc}
use jmos.Prelude.Words.{u64_mod, add64, sub64, mul64}
use jmos.Cstring.{Mem}

abbrev pub int_limit : ℕ
int_limit = 2 ^ 31

abbrev pub long_limit : ℕ
long_limit = 2 ^ 63

abbrev pub is_space : ℕ → Bool
is_space c = c == 32 || c == 9 || c == 10 || c == 13 || c == 12 || c == 11

-- `while (*nptr == ' ' || ...) nptr++;`
pub skip_space : ℕ → Mem → ℕ → Option ℕ
skip_space zero m p = none
skip_space (suc g) m p = elim (is_space (m p)) [ true ↦ skip_space g m (p + 1) | false ↦ some p ]

-- Whether there is a minus, and the place behind the sign.
unfoldable pub take_sign : Mem → ℕ → Bool × ℕ
take_sign m p =
    if m p == 45 then (true, p + 1) else if m p == 43 then (false, p + 1) else (false, p)

-- `sign * result`
abbrev pub signed : Bool → ℕ → ℤ
signed negative zero = pos 0
signed true (suc r) = negsuc r
signed false (suc r) = pos (suc r)

-- `while (*nptr >= '0' && *nptr <= '9')`
pub decimal_loop : ℕ → ℕ → Mem → ℕ → ℕ → Option ℕ
decimal_loop zero limit m p result = none
decimal_loop (suc g) limit m p result = elim (leb 48 (m p) && leb (m p) 57) [
  | false ↦ some result
  | true ↦
      let next = result * 10 + (m p - 48) in
      elim (ltb next limit) [ true ↦ decimal_loop g limit m (p + 1) next | false ↦ none ]
]

pub decimal : ℕ → ℕ → Mem → ℕ → Option ℤ
decimal limit g m nptr = elim (skip_space g m nptr) [
  | none ↦ none
  | some p ↦
      let (negative, q) = take_sign m p in
      elim (decimal_loop g limit m q 0) [ none ↦ none | some r ↦ some (signed negative r) ]
]

pub atoi : ℕ → Mem → ℕ → Option ℤ
atoi g m nstr = decimal int_limit g m nstr

pub atol : ℕ → Mem → ℕ → Option ℤ
atol g m nptr = decimal long_limit g m nptr

pub atoll : ℕ → Mem → ℕ → Option ℤ
atoll g m nptr = decimal long_limit g m nptr

-- The base that is used, and the place behind its prefix.
unfoldable pub take_prefix : Mem → ℕ → ℕ → ℕ × ℕ
take_prefix m base p =
    let hex = m (p + 1) == 120 || m (p + 1) == 88 in
    if base == 0
    then if m p == 48 then if hex then (16, p + 2) else (8, p + 1) else (10, p)
    else if base == 16 && m p == 48 && hex
    then (16, p + 2)
    else (base, p)

abbrev pub digit_value : ℕ → Option ℕ
digit_value c =
    if leb 48 c && leb c 57
    then some (c - 48)
    else if leb 97 c && leb c 122
    then some (c - 97 + 10)
    else if leb 65 c && leb c 90
    then some (c - 65 + 10)
    else none

-- The digit that is read next: none at the end of the string, at another character, or at a digit that
-- the base does not have.
abbrev pub next_digit : Mem → ℕ → ℕ → Option ℕ
next_digit m base p =
    if m p == 0
    then none
    else elim (digit_value (m p)) [ none ↦ none | some d ↦ if leb base d then none else some d ]

-- The digits' value, and the place behind them.
pub signed_loop : ℕ → ℕ → Mem → ℕ → ℕ → ℕ → Option (ℕ × ℕ)
signed_loop zero limit m base p result = none
signed_loop (suc g) limit m base p result = elim (next_digit m base p) [
  | none ↦ some (result, p)
  | some d ↦
      let next = result * base + d in
      elim (ltb next limit) [ true ↦ signed_loop g limit m base (p + 1) next | false ↦ none ]
]

pub unsigned_loop : ℕ → Mem → ℕ → ℕ → ℕ → Option (ℕ × ℕ)
unsigned_loop zero m base p result = none
unsigned_loop (suc g) m base p result = elim (next_digit m base p) [
  | none ↦ some (result, p)
  | some d ↦ unsigned_loop g m base (p + 1) (add64 (mul64 result base) d)
]

-- `if (endptr != NULL) *endptr = nptr;`: the pointer that is stored.
abbrev pub stored : ℕ → ℕ → Option ℕ
stored endptr p = if endptr == 0 then none else some p

pub strtol : ℕ → Mem → ℕ → ℕ → ℕ → Option (ℤ × Option ℕ)
strtol g m nptr endptr base = elim (skip_space g m nptr) [
  | none ↦ none
  | some p ↦
      let (negative, q) = take_sign m p in
      let (base', s) = take_prefix m base q in
      elim (signed_loop g long_limit m base' s 0) [
        | none ↦ none
        | some (r, e) ↦ some (signed negative r, stored endptr e)
      ]
]

pub strtoll : ℕ → Mem → ℕ → ℕ → ℕ → Option (ℤ × Option ℕ)
strtoll g m nptr endptr base = elim (skip_space g m nptr) [
  | none ↦ none
  | some p ↦
      let (negative, q) = take_sign m p in
      let (base', s) = take_prefix m base q in
      elim (signed_loop g long_limit m base' s 0) [
        | none ↦ none
        | some (r, e) ↦ some (signed negative r, stored endptr e)
      ]
]

pub strtoul : ℕ → Mem → ℕ → ℕ → ℕ → Option (ℕ × Option ℕ)
strtoul g m nptr endptr base = elim (skip_space g m nptr) [
  | none ↦ none
  | some p ↦
      let (negative, q) = take_sign m p in
      let (base', s) = take_prefix m base q in
      elim (unsigned_loop g m base' s 0) [
        | none ↦ none
        | some (r, e) ↦ some (if negative then sub64 0 r else r, stored endptr e)
      ]
]

pub strtoull : ℕ → Mem → ℕ → ℕ → ℕ → Option (ℕ × Option ℕ)
strtoull g m nptr endptr base = elim (skip_space g m nptr) [
  | none ↦ none
  | some p ↦
      let (negative, q) = take_sign m p in
      let (base', s) = take_prefix m base q in
      elim (unsigned_loop g m base' s 0) [
        | none ↦ none
        | some (r, e) ↦ some (if negative then sub64 0 r else r, stored endptr e)
      ]
]

-- `(unsigned int)value`
abbrev pub to_unsigned : ℤ → ℕ
to_unsigned (pos n) = n % 2 ^ 32
to_unsigned (negsuc n) = 2 ^ 32 - 1 - n % 2 ^ 32

abbrev pub digit_char : ℕ → ℕ
digit_char d = if ltb d 10 then 48 + d else 97 + d - 10

-- The `do` loop of `itoa`: the digits, the last one first.
pub store_digits : ℕ → Mem → ℕ → ℕ → ℕ → Option (ℕ × Mem)
store_digits zero m ptr num base = none
store_digits (suc g) m ptr num base =
    let m' = update m ptr (digit_char (num % base)) in
    elim (ltb 0 (num / base)) [
      | true ↦ store_digits g m' (ptr + 1) (num / base) base
      | false ↦ some (ptr + 1, m')
    ]

-- `while (start < end)`: the bytes between the two places are reversed.
pub reverse_loop : ℕ → Mem → ℕ → ℕ → Option Mem
reverse_loop zero m start end = none
reverse_loop (suc g) m start end = elim (ltb start end) [
  | true ↦ reverse_loop g (update (update m start (m end)) end (m start)) (start + 1) (end - 1)
  | false ↦ some m
]

abbrev pub is_negative : ℤ → Bool
is_negative (pos n) = false
is_negative (negsuc n) = true

-- `itoa` behind the sign.
pub write_number : ℕ → Mem → ℕ → ℕ → ℕ → Option Mem
write_number g m start num base = elim (store_digits g m start num base) [
  | none ↦ none
  | some (ptr, m') ↦ reverse_loop g (update m' ptr 0) start (ptr - 1)
]

pub itoa : ℕ → ℤ → Mem → ℕ → ℕ → Option (ℕ × Mem)
itoa g value m str base =
    let minus = base == 10 && is_negative value in
    let num = if minus then (2 ^ 32 - to_unsigned value) % 2 ^ 32 else to_unsigned value in
    let m' = if minus then update m str 45 else m in
    if ltb base 2 || ltb 36 base
    then some (str, update m str 0)
    else elim (write_number g m' (if minus then str + 1 else str) num base) [
      | none ↦ none
      | some m'' ↦ some (str, m'')
    ]

-- `(j < 0) ? -j : j`, undefined where the result does not fit.
abbrev pub magnitude : ℕ → ℤ → Option ℤ
magnitude limit (pos n) = some (pos n)
magnitude limit (negsuc n) = if ltb (n + 1) limit then some (pos (n + 1)) else none

pub abs : ℤ → Option ℤ
abs j = magnitude int_limit j

pub labs : ℤ → Option ℤ
labs j = magnitude long_limit j

pub llabs : ℤ → Option ℤ
llabs j = magnitude long_limit j
