-- ===== src/Cstdio.antt =====
-- src/libs/stdio.c: the formatter `vsprintf`.
--
-- The buffer and the format lie in the string library's memory. An emitter gives the memory, the place
-- behind what it wrote, and how many characters that was. The arguments are the 64-bit words that
-- `va_arg` takes one after the other; a missing one is undefined, and so is a number of more digits
-- than `tmp` holds: `none`. The count of characters is taken to stay below 2^31. The walk along the format, and along an argument's string, takes fuel `g`.
pub mod Emit
pub mod Plain
mod Tests
use jmos.Prelude.{
  ℕ, zero, suc, ◌+◌, ◌-◌, ◌*◌, ◌/◌, ◌%◌, ◌^◌, Bool, true, false, List, [], ◌∷◌, ltb, leb, ◌==◌,
  if◌then◌else◌, Option, none, some, update, length,
}
use jmos.Prelude.Int.{ℤ, pos, negsuc}
use jmos.Cstring.{Mem}
use jmos.Cstdlib.{digit_char}

-- What an emitter leaves: the memory, the place behind the text, the number of characters.
abbrev pub Emitted : Type 0
Emitted = Mem × ℕ × ℕ

-- The `do` loop of `emit_uint`: the digits in `tmp`, the last one stored first.
pub collect : ℕ → ℕ → ℕ → List ℕ → Option (List ℕ)
collect zero value base tmp = none
collect (suc room) value base tmp = elim (ltb 0 (value / base)) [
  | true ↦ collect room (value / base) base (digit_char (value % base) % 256 ∷ tmp)
  | false ↦ some (digit_char (value % base) % 256 ∷ tmp)
]

-- `while (i > 0) *(*out)++ = tmp[--i];`
pub put_all : List ℕ → Mem → ℕ → Mem
put_all [] m out = m
put_all (c ∷ cs) m out = put_all cs (update m out c) (out + 1)

pub emit_uint : Mem → ℕ → ℕ → ℕ → Option Emitted
emit_uint m out value base = elim (collect 65 value base []) [
  | none ↦ none
  | some tmp ↦ some (put_all tmp m out, out + length tmp, length tmp)
]

-- A `long long` value.
pub emit_int : Mem → ℕ → ℤ → ℕ → Option Emitted
emit_int m out (pos n) base = emit_uint m out n base
emit_int m out (negsuc n) base = elim (emit_uint (update m out 45) (out + 1) (n + 1) base) [
  | none ↦ none
  | some (m', out', count) ↦ some (m', out', 1 + count)
]

pub emit_str : ℕ → Mem → ℕ → ℕ → ℕ → Option Emitted
emit_str zero m out s n = none
emit_str (suc g) m out s n = elim (m s == 0) [
  | true ↦ some (m, out, n)
  | false ↦ emit_str g (update m out (m s)) (out + 1) (s + 1) (n + 1)
]

-- `(bad %l)` and `(bad %L)`
abbrev pub bad : ℕ → List ℕ
bad l = 40 ∷ 98 ∷ 97 ∷ 100 ∷ 32 ∷ 37 ∷ l ∷ 41 ∷ []

abbrev pub put_text : List ℕ → Mem → ℕ → Emitted
put_text cs m out = (put_all cs m out, out + length cs, length cs)

-- The words as `int`, and as `long` or `long long`.
abbrev pub to_int : ℕ → ℤ
to_int w = if ltb (w % 2 ^ 32) (2 ^ 31) then pos (w % 2 ^ 32) else negsuc (2 ^ 32 - 1 - w % 2 ^ 32)

abbrev pub to_long : ℕ → ℤ
to_long w = if ltb w (2 ^ 63) then pos w else negsuc (2 ^ 64 - 1 - w)

-- The characters behind a `%l` or `%L`.
pub long_specifier : ℕ → ℕ → ℕ → Mem → ℕ → Option Emitted
long_specifier l c w m out =
    if c == 100
    then emit_int m out (to_long w) 10
    else if c == 117
    then emit_uint m out w 10
    else if c == 120
    then emit_uint m out w 16
    else some (put_text (bad l) m out)

-- A specifier that takes an argument; the fuel is for the string of `%s`.
pub specifier : ℕ → ℕ → ℕ → Mem → ℕ → Option Emitted
specifier g c w m out =
    if c == 100
    then emit_int m out (to_int w) 10
    else if c == 117
    then emit_uint m out (w % 2 ^ 32) 10
    else if c == 120
    then emit_uint m out (w % 2 ^ 32) 16
    else if c == 99
    then some (put_text (w % 256 ∷ []) m out)
    else if c == 115
    then emit_str g m out w 0
    else elim (emit_uint (put_all (48 ∷ 120 ∷ []) m out) (out + 2) w 16) [
      | none ↦ none
      | some (m', out', count) ↦ some (m', out', 2 + count)
    ]

abbrev pub takes_argument : ℕ → Bool
takes_argument c =
    if c == 100
    then true
    else if c == 117
    then true
    else if c == 120
    then true
    else if c == 99
    then true
    else if c == 115
    then true
    else c == 112

-- What stands at the format behind a `%`: the emitted text, the place of the specifier's last
-- character, and the arguments that are left.
pub conversion : ℕ → Mem → ℕ → ℕ → List ℕ → Option (Emitted × ℕ × List ℕ)
conversion g m format out args =
    let c = m format in
    let l = m (format + 1) in
    if takes_argument c
    then elim args [
      | [] ↦ none
      | w ∷ rest ↦ elim (specifier g c w m out) [ none ↦ none | some e ↦ some (e, format, rest) ]
    ]
    else if c == 37
    then some (put_text (37 ∷ []) m out, format, args)
    else if if c == 108 then true else c == 76
    then (if if l == 100 then true else if l == 117 then true else l == 120
        then elim args [
          | [] ↦ none
          | w ∷ rest ↦ elim (long_specifier c l w m out) [
            | none ↦ none
            | some e ↦ some (e, format + 1, rest)
          ]
        ]
        else some (put_text (bad c) m out, format + 1, args))
    else if c == 0
    then some ((m, out, 0), format, args)
    else some (put_text (c ∷ []) m out, format, args)

-- `while (*format)`
pub vsprintf_loop : ℕ → Mem → ℕ → ℕ → ℕ → List ℕ → Option (ℕ × Mem)
vsprintf_loop zero m buffer format count args = none
vsprintf_loop (suc g) m buffer format count args = elim (m format == 0) [
  | true ↦ some (count, update m buffer 0)
  | false ↦ elim (m format == 37) [
    | false ↦
        vsprintf_loop g (update m buffer (m format)) (buffer + 1) (format + 1) (count + 1) args
    | true ↦ elim (conversion g m (format + 1) buffer args) [
      | none ↦ none
      | some ((m', out, n), at, rest) ↦
          vsprintf_loop g m' out (if m' at == 0 then at else at + 1) (count + n) rest
    ]
  ]
]

pub vsprintf : ℕ → Mem → ℕ → ℕ → List ℕ → Option (ℕ × Mem)
vsprintf g m buffer format args = vsprintf_loop g m buffer format 0 args
