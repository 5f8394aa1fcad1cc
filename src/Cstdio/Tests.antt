-- ===== src/Cstdio/Tests.antt =====
-- The formatter's theorem on a number, and runs of it.
use jmos.Prelude.{◌≡◌, arith, some, true}
use jmos.Prelude.Int.{negsuc}
use jmos.Cstring.{Mem}
use jmos.Cstdio.{Emitted, emit_int}
use jmos.Cstdio.Emit.{Number, emit_int-Number}

abbrev blank : Mem
blank a = 0

emit_int-Number_example :
    (e : Emitted) × (emit_int blank 50 (negsuc 41) 10 ≡ some e) × Number blank 50 true 42 10 e
emit_int-Number_example =
    emit_int-Number blank 50 (negsuc 41) 10 (omega arith) (omega arith) (omega arith)
