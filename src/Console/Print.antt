-- ===== src/Console/Print.antt =====
-- src/libs/stdio.c: printf, the formatter in front of the console.
--
-- `buffer` is the address of the 2048 bytes on the stack, which the code does not guard. An unset `console.write`
-- is undefined: `none`.
use jmos.Prelude.{ℕ, List, Option, none, some, if◌then◌else◌}
use jmos.Cstring.{Mem}
use jmos.Cstdio.{vsprintf}
use jmos.Cstdio.Plain.{bytes_at, Plain}
use jmos.Console.{Console, write_to_tui}

-- The result of `printf` behind the write.
abbrev counted : ℕ → Option Console → Option (ℕ × Console)
counted n o = elim o [ none ↦ none | some s' ↦ some (n, s') ]

-- `console.write(&console, buffer, count)`
abbrev pub write_buffer : ℕ → Console → ℕ × Mem → Option (ℕ × Console)
write_buffer buffer s r =
    if s.methods then counted r.0 (write_to_tui (bytes_at r.1 buffer r.0) s) else none

pub printf : ℕ → Mem → ℕ → ℕ → List ℕ → Console → Option (ℕ × Console)
printf g m buffer format args s = elim (vsprintf g m buffer format args) [
  | none ↦ none
  | some r ↦ write_buffer buffer s r
]
