-- ===== src/Serial.antt =====
-- src/libs/serial.c: the log on the first serial port.
--
-- The port is the machine's: `status` is what the line status register answers at each read, `reads`
-- counts them, and `written` lists the ports and the bytes written to them, in order. A char is its
-- byte. A wait for the transmitter takes fuel, `none` says that it ran out; the theorems give the fuel
-- that is enough.
pub mod Putc
pub mod Text
pub mod Number
pub mod Tests
use jmos.Prelude.{
  ℕ, zero, suc, ◌+◌, ◌-◌, ◌*◌, ◌/◌, ◌%◌, ◌^◌, Bool, true, false, not, List, [], ◌∷◌, ◌++◌, Option,
  none, some, ◌==◌, if◌then◌else◌, bit_and, update, ltb,
}
use jmos.Cstring.{Mem, null}

abbrev pub com1 : ℕ
com1 = 0x3F8

pub record Serial : Type 0 where
  pub serial_ready : Bool
  pub status : ℕ → ℕ
  pub reads : ℕ
  pub written : List (ℕ × ℕ)

abbrev pub outb : ℕ → ℕ → Serial → Serial
outb port value s = record s { written = s.written ++ (port, value) ∷ [] }

pub serial_init : Serial → Serial
serial_init s =
    let configured = outb (com1 + 4) 0x0B (
      outb (com1 + 2) 0xC7 (
        outb (com1 + 3) 0x03 (
          outb (com1 + 1) 0x00
            (outb (com1 + 0) 0x03 (outb (com1 + 3) 0x80 (outb (com1 + 1) 0x00 s)))))) in
    record configured { serial_ready = true }

abbrev pub tx_empty : Serial → Bool × Serial
tx_empty s = (not (bit_and (s.status s.reads) 0x20 == 0), record s { reads = s.reads + 1 })

-- `while (!tx_empty()) { }`
pub wait : ℕ → Serial → Option Serial
wait zero s = none
wait (suc f) s = if (tx_empty s).0 then some (tx_empty s).1 else wait f (tx_empty s).1

-- A wait, and one byte.
abbrev pub transmit : ℕ → ℕ → Serial → Option Serial
transmit f c s = elim (wait f s) [ none ↦ none | some s' ↦ some (outb com1 c s') ]

pub serial_putc : ℕ → ℕ → Serial → Option Serial
serial_putc f c s =
    if not s.serial_ready then some s else elim (if c == 10 then transmit f 13 s else some s) [
      | none ↦ none
      | some s' ↦ transmit f c s'
    ]

-- The loop of `serial_puts`; `g` is the fuel for the string.
pub puts_loop : ℕ → ℕ → Mem → ℕ → Serial → Option Serial
puts_loop zero f m s u = none
puts_loop (suc g) f m s u = elim (m s == 0) [
  | true ↦ some u
  | false ↦ elim (serial_putc f (m s) u) [ none ↦ none | some u' ↦ puts_loop g f m (s + 1) u' ]
]

pub serial_puts : ℕ → ℕ → Mem → ℕ → Serial → Option Serial
serial_puts g f m s u = if s == null then some u else puts_loop g f m s u

-- The entry of `digits`.
abbrev pub hex_digit : ℕ → ℕ
hex_digit d = if ltb d 10 then 48 + d else 55 + d

-- The loop of `serial_put_hex`, with `n` digits to go: `shift` is four times `n - 1`.
pub hex_loop : ℕ → ℕ → ℕ → Serial → Option Serial
hex_loop zero f v u = some u
hex_loop (suc n) f v u = elim (serial_putc f (hex_digit (bit_and (v / 2 ^ (4 * n)) 0xF)) u) [
  | none ↦ none
  | some u' ↦ hex_loop n f v u'
]

pub serial_put_hex : ℕ → ℕ → Serial → Option Serial
serial_put_hex f v u = elim (serial_putc f 48 u) [
  | none ↦ none
  | some u' ↦ elim (serial_putc f 120 u') [ none ↦ none | some u'' ↦ hex_loop 16 f v u'' ]
]

-- The first loop of `serial_put_dec`: the digits in `buf`, the last first, and their number.
pub dec_loop : ℕ → (ℕ → ℕ) → ℕ → ℕ → Option ((ℕ → ℕ) × ℕ)
dec_loop zero buf i v = none
dec_loop (suc g) buf i v =
    if v == 0 then some (buf, i) else dec_loop g (update buf i (48 + v % 10)) (i + 1) (v / 10)

-- The second loop.
pub flush_loop : (ℕ → ℕ) → ℕ → ℕ → Serial → Option Serial
flush_loop buf zero f u = some u
flush_loop buf (suc i) f u = elim (serial_putc f (buf i) u) [
  | none ↦ none
  | some u' ↦ flush_loop buf i f u'
]

-- `buf` before the call is not initialised. `g` is the fuel for the digits.
pub serial_put_dec : ℕ → ℕ → (ℕ → ℕ) → ℕ → Serial → Option Serial
serial_put_dec g f buf v u =
    if v == 0
    then serial_putc f 48 u
    else elim (dec_loop g buf 0 v) [ none ↦ none | some r ↦ flush_loop r.0 r.1 f u ]
