-- ===== src/Serial/Tests.antt =====
-- The serial port's functions on a port whose transmitter is busy at every second read.
use jmos.Prelude.{
  ℕ, ◌+◌, ◌%◌, ◌≡◌, refl, ◌⊎◌, true, false, not, List, [], ◌∷◌, ◌==◌, if◌then◌else◌, arith, length,
  inl, inr, bit_and, ap,
}
use jmos.Cstring.{Mem}
use jmos.Cstring.Repr.{IsString}
use jmos.Serial.{Serial, com1, serial_init, serial_puts, serial_put_hex, serial_put_dec}
use jmos.Serial.Putc.{Drains, all_on_wire, Sent}
use jmos.Serial.Text.{serial_puts-Sent}
use jmos.Serial.Number.{read_hex, AllHex, Decimal, serial_put_hex-Sent, serial_put_dec-Decimal}

abbrev pub half_busy : Serial
half_busy = record {
  serial_ready = true;
  status = λ n. if n % 2 == 0 then 0 else 0x60;
  reads = 0;
  written = [];
}

parity :
    (n : ℕ) → ((n % 2 == 0) ≡ true) × (((n + 1) % 2 == 0) ≡ false) ⊎ (((n + 0) % 2 == 0) ≡ false)
parity n = ground arith

pub half_busy-Drains : Drains 2 half_busy
half_busy-Drains n = elim (parity n) [
  | inl e ↦ (1, omega arith, ap (λ b. not (bit_and (if b then 0 else 0x60) 0x20 == 0)) e.1)
  | inr o ↦ (0, omega arith, ap (λ b. not (bit_and (if b then 0 else 0x60) 0x20 == 0)) o)
]

-- The baud rate, the line's format, the FIFO and the modem's lines, and the port is marked ready.
serial_init_writes :
    ((serial_init half_busy).written
      ≡ (0x3F9, 0)
        ∷ (0x3FB, 0x80)
        ∷ (0x3F8, 3)
        ∷ (0x3F9, 0)
        ∷ (0x3FB, 3)
        ∷ (0x3FA, 0xC7)
        ∷ (0x3FC, 0x0B)
        ∷ [])
    × ((serial_init half_busy).serial_ready ≡ true)
unfolding serial_init
serial_init_writes = (refl, refl)

-- "Hi" and a line feed, at 0x100.
abbrev greeting : Mem
greeting a = if a == 0x100 then 72 else if a == 0x101 then 105 else if a == 0x102 then 10 else 0

greeting-IsString : IsString greeting 0x100 (72 ∷ 105 ∷ 10 ∷ [])
greeting-IsString = (refl, omega arith, (refl, omega arith, (refl, omega arith, refl)))

serial_puts-Sent_example :
    Sent half_busy
      ((com1, 72) ∷ (com1, 105) ∷ (com1, 13) ∷ (com1, 10) ∷ [])
      (serial_puts 4 2 greeting 0x100 half_busy)
serial_puts-Sent_example =
    serial_puts-Sent 4 greeting 0x100 (72 ∷ 105 ∷ 10 ∷ []) half_busy refl (omega arith)
      half_busy-Drains greeting-IsString (omega arith)

serial_put_hex-Sent_example :
    (cs : List ℕ) × Sent half_busy (all_on_wire (48 ∷ 120 ∷ cs)) (serial_put_hex 2 0xBEEF half_busy)
    × (length cs ≡ 16)
    × (read_hex 0 cs ≡ 0xBEEF)
    × AllHex cs
serial_put_hex-Sent_example =
    serial_put_hex-Sent 0xBEEF half_busy (omega arith) refl (omega arith) half_busy-Drains

serial_put_dec-Decimal_example :
    Decimal 20 1234 half_busy (serial_put_dec 21 2 (λ _. 0) 1234 half_busy)
serial_put_dec-Decimal_example =
    serial_put_dec-Decimal (λ _. 0) 1234 half_busy (omega arith) refl (omega arith) half_busy-Drains
