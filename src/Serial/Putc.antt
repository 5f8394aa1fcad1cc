-- ===== src/Serial/Putc.antt =====
-- `serial_putc`, on a port whose transmitter empties.
use mathlib.Core.List.{append-nil, append_assoc}
use native.Mathlib.Nat.{add-zero}
use jmos.Prelude.{
  ℕ, zero, suc, ◌+◌, ◌≤◌, ◌<◌, ◌≡◌, refl, inl, inr, true, not, List, [], ◌∷◌, ◌++◌, Option, none,
  some, ◌==◌, if◌then◌else◌, bit_and, arith, Bool-cases, ==→eq, ap, ◌∙◌, sym, subst,
}
use jmos.Serial.{com1, Serial, outb, tx_empty, wait, transmit, serial_putc}

-- Of any `k` reads of the line status in a row, one finds the transmitter empty.
abbrev pub Drains : ℕ → Serial → Type 0
Drains k s = (n : ℕ) → (i : ℕ) × (i < k) × (not (bit_and (s.status (n + i)) 0x20 == 0) ≡ true)

-- What the receiver gets for a character: a line feed has a carriage return in front of it.
abbrev pub on_wire : ℕ → List (ℕ × ℕ)
on_wire c = if c == 10 then (com1, 13) ∷ (com1, 10) ∷ [] else (com1, c) ∷ []

abbrev pub all_on_wire : List ℕ → List (ℕ × ℕ)
all_on_wire [] = []
all_on_wire (c ∷ cs) = on_wire c ++ all_on_wire cs

-- A run of the port's functions that writes just these bytes.
pub record Sent (s : Serial) (out : List (ℕ × ℕ)) (o : Option Serial) : Type 0 where
  pub after : Serial
  pub ends : o ≡ some after
  pub written : after.written ≡ s.written ++ out
  pub status : after.status ≡ s.status
  pub ready : after.serial_ready ≡ s.serial_ready

pub Drains-Sent :
    {k : ℕ} {s : Serial} {out : List (ℕ × ℕ)} {o : Option Serial}
    → Drains k s
    → (t : Sent s out o) → Drains k t.after
Drains-Sent {k} {s} d t n =
    let (i, lt, e) = d n in (i, lt, ap (λ f. not (bit_and (f (n + i)) 0x20 == 0)) t.status ∙ e)

-- One run after another.
abbrev and_then : Option Serial → (Serial → Option Serial) → Option Serial
and_then o next = elim o [ none ↦ none | some s ↦ next s ]

pub Sent-then :
    {s : Serial} {a b : List (ℕ × ℕ)} {o : Option Serial} (next : Serial → Option Serial)
    (t : Sent s a o)
    → Sent t.after b (next t.after)
    → Sent s (a ++ b) (elim o [ none ↦ none | some u ↦ next u ])
Sent-then {s} {a} {b} {o} next t u = record {
  after = u.after;
  ends = ap (λ x. and_then x next) t.ends ∙ u.ends;
  written = u.written ∙ ap (λ w. w ++ b) t.written ∙ append_assoc s.written a b;
  status = u.status ∙ t.status;
  ready = u.ready ∙ t.ready;
}

pub Sent-done : (s : Serial) → Sent s [] (some s)
Sent-done s = record {
  after = s;
  ends = refl;
  written = sym (append-nil s.written);
  status = refl;
  ready = refl;
}

later_read : (s : Serial) (i : ℕ) → s.status (s.reads + suc i) ≡ s.status (s.reads + 1 + i)
later_read s i = ap s.status (omega arith)

wait-Sent :
    (i f : ℕ) (s : Serial)
    → i < f
    → not (bit_and (s.status (s.reads + i)) 0x20 == 0) ≡ true
    → Sent s [] (wait f s)
unfolding wait
wait-Sent i zero s lt e = absurd (omega (arith, lt))
wait-Sent i (suc f) s lt e = elim (Bool-cases (tx_empty s).0) [
  | inl now ↦ rw now (record {
    after = (tx_empty s).1;
    ends = refl;
    written = sym (append-nil s.written);
    status = refl;
    ready = refl;
  })
  | inr busy ↦ rw busy (
      elim i
          as (λ i.
            i < suc f
            → not (bit_and (s.status (s.reads + i)) 0x20 == 0) ≡ true
            → Sent s [] (wait f (tx_empty s).1)) [
              | zero ↦ λ l z. absurd (cc (busy, z, ap s.status (add-zero s.reads)))
              | suc j ↦ λ l z.
                  let w =
                    wait-Sent j f (tx_empty s).1 (omega (arith, l))
                      (sym (ap (λ x. not (bit_and x 0x20 == 0)) (later_read s j)) ∙ z) in
                  record {
                    after = w.after;
                    ends = w.ends;
                    written = w.written;
                    status = w.status;
                    ready = w.ready;
                  }
            ]
        lt e)
]

transmit-Sent :
    {k f : ℕ} (c : ℕ) {s : Serial} → k ≤ f → Drains k s → Sent s ((com1, c) ∷ []) (transmit f c s)
transmit-Sent {k} {f} c {s} le d =
    let (i, lt, e) = d s.reads in
    let w = wait-Sent i f s (omega (arith, lt, le)) e in
    Sent-then (λ u. some (outb com1 c u)) w
      (record {
        after = outb com1 c w.after;
        ends = refl;
        written = refl;
        status = refl;
        ready = refl;
      })

putc_ready :
    (f c : ℕ) (s : Serial)
    → s.serial_ready ≡ true
    → serial_putc f c s ≡ and_then (if c == 10 then transmit f 13 s else some s) (transmit f c)
unfolding serial_putc
putc_ready f c s r =
    ap
      (λ b.
        if not b
        then some s
        else and_then (if c == 10 then transmit f 13 s else some s) (transmit f c))
      r

-- On a port that is set up and whose transmitter empties within `k` reads of its status, with fuel for
-- `k` reads, `serial_putc` ends and sends the character, a line feed behind a carriage return.
pub serial_putc-Sent :
    {k f : ℕ} (c : ℕ) {s : Serial}
    → s.serial_ready ≡ true
    → k ≤ f
    → Drains k s
    → Sent s (on_wire c) (serial_putc f c s)
serial_putc-Sent {k} {f} c {s} r le d =
    subst (Sent s (on_wire c)) (sym (putc_ready f c s r)) (elim (Bool-cases (c == 10)) [
      | inl nl ↦
          let first = transmit-Sent 13 le d in
          let both : Sent s ((com1, 13) ∷ (com1, c) ∷ [])
              (and_then (transmit f 13 s) (transmit f c)) =
            Sent-then (transmit f c) first (transmit-Sent c le (Drains-Sent d first)) in
          rw nl (
            subst
              (λ x.
                Sent s ((com1, 13) ∷ (com1, x) ∷ []) (and_then (transmit f 13 s) (transmit f c)))
              (==→eq c 10 nl) both)
      | inr other ↦ rw other (transmit-Sent c le d)
    ])
