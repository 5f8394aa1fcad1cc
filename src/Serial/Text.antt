-- ===== src/Serial/Text.antt =====
-- `serial_puts`.
use jmos.Prelude.{
  ℕ, zero, suc, ◌+◌, ◌≤◌, ◌<◌, ◌≡◌, true, false, List, [], ◌∷◌, ◌==◌, if◌then◌else◌, arith, ◌∙◌,
  sym, subst, length, Bool-cases, inl, inr,
}
use jmos.Cstring.{Mem, null}
use jmos.Cstring.Repr.{IsString}
use jmos.Serial.{Serial, serial_putc, puts_loop, serial_puts}
use jmos.Serial.Putc.{
  Drains, all_on_wire, on_wire, Sent, Drains-Sent, Sent-then, Sent-done, serial_putc-Sent,
}

-- The loop sends a string.
puts_loop-Sent :
    {k f : ℕ} (g : ℕ) (m : Mem) (p : ℕ) (xs : List ℕ) {u : Serial}
    → u.serial_ready ≡ true
    → k ≤ f
    → Drains k u
    → IsString m p xs
    → length xs < g
    → Sent u (all_on_wire xs) (puts_loop g f m p u)
unfolding puts_loop
puts_loop-Sent zero m p xs r le d h lt = absurd (omega (arith, lt))
puts_loop-Sent {f = f} (suc g) m p [] {u} r le d h lt =
    let nul : (m p == 0) ≡ true = ground (arith, h) in rw (puts_loop, nul) (Sent-done u)
puts_loop-Sent {f = f} (suc g) m p (x ∷ xs) {u} r le d h lt =
    let more : (m p == 0) ≡ false = ground (arith, h.0, h.1) in
    let t =
      subst (λ c. Sent u (on_wire x) (serial_putc f c u)) (sym h.0) (serial_putc-Sent x r le d) in
    rw (puts_loop, more)
      (Sent-then (puts_loop g f m (p + 1)) t
        (puts_loop-Sent g m (p + 1) xs (t.ready ∙ r) le (Drains-Sent d t) h.2 (omega (arith, lt))))

-- On a port that is set up and whose transmitter empties within `k` reads of its status, with fuel for
-- `k` reads and above the length, `serial_puts` ends. It sends the characters of the string in order, a
-- carriage return in front of each line feed; a NULL sends nothing.
pub serial_puts-Sent :
    {k f : ℕ} (g : ℕ) (m : Mem) (p : ℕ) (xs : List ℕ) (u : Serial)
    → u.serial_ready ≡ true
    → k ≤ f
    → Drains k u
    → IsString m p xs
    → length xs < g
    → Sent u (if p == null then [] else all_on_wire xs) (serial_puts g f m p u)
unfolding serial_puts
serial_puts-Sent g m p xs u r le d h lt = elim (Bool-cases (p == null)) [
  | inl nul ↦ rw nul (Sent-done u)
  | inr real ↦ rw real (puts_loop-Sent g m p xs r le d h lt)
]
