-- ===== src/Exception/Report.antt =====
-- What the handler of exceptions writes.
use Prim.Native.String.{String}
use mathlib.Core.List.{append_assoc, append-nil}
use native.Mathlib.Nat.{add-zero}
use jmos.Prelude.{
  ℕ, zero, suc, ◌+◌, ◌-◌, ◌^◌, ◌≤◌, ◌<◌, ◌≡◌, refl, true, false, not, ◌&&◌, Bool, List, [], ◌∷◌,
  ◌++◌, none, some, ◌==◌, ltb, get_elem?, length, arith, ap, ◌∙◌, sym, subst, inl, inr, lt_or_le,
}
use jmos.Cstring.{Mem}
use jmos.Cstring.Repr.{IsString}
use jmos.Serial.{Serial, serial_putc}
use jmos.Serial.Putc.{
  Drains, on_wire, all_on_wire, Sent, Drains-Sent, Sent-then, Sent-done, serial_putc-Sent,
}
use jmos.Serial.Text.{serial_puts-Sent}
use jmos.Serial.Number.{serial_put_hex-Sent, serial_put_dec-Decimal}
use jmos.Exception.Layout.{
  Prints, PrintsAll, report-Reads, message-name_of, page, fill, values, name_of, Reads,
}
use jmos.Exception.{
  InterruptRegisters, exception_messages, message, codes, char_at, literal_at, literal, PortCall,
  puts, putc, put_dec, put_hex, port_call, port_calls, report, isr_handler,
}

-- No character is the NUL.
abbrev no_nul : List ℕ → Bool
no_nul [] = true
no_nul (c ∷ cs) = not (c == 0) && no_nul cs

IsString-from :
    (m : Mem) (p : ℕ) (xs : List ℕ)
    → no_nul xs ≡ true
    → ((i : ℕ) → m (p + i) ≡ char_at xs i)
    → IsString m p xs
IsString-from m p [] ok same = simp add-zero at (same 0)
IsString-from m p (x ∷ xs) ok same = (
  simp add-zero at (same 0),
  ground (arith, ok),
  IsString-from m (p + 1) xs (ground (arith, ok))
      λ i. let a : p + 1 + i ≡ p + suc i = omega arith in ap m a ∙ same (suc i),
)

literal-IsString : (xs : List ℕ) → no_nul xs ≡ true → IsString (literal xs) literal_at xs
literal-IsString xs ok =
    IsString-from (literal xs) literal_at xs ok
      λ i. let a : literal_at + i - literal_at ≡ i = omega arith in ap (char_at xs) a

-- A call that C allows: a text without a NUL, a number of 64 bits.
abbrev pub Fits : PortCall → Type 0
Fits (puts text) = no_nul (codes text) ≡ true
Fits (putc c) = true ≡ true
Fits (put_dec v) = v < 2 ^ 64
Fits (put_hex v) = v < 2 ^ 64

abbrev pub AllFit : List PortCall → Type 0
AllFit [] = true ≡ true
AllFit (c ∷ cs) = Fits c × AllFit cs

module _ {k f : ℕ} (buf : ℕ → ℕ) (le : k ≤ f) where
  port_call-Sent :
      (c : PortCall) (u : Serial)
      → Fits c
      → u.serial_ready ≡ true
      → Drains k u
      → (xs : List ℕ) × Sent u (all_on_wire xs) (port_call f buf c u) × Prints c xs
  unfolding port_call
  port_call-Sent (puts text) u fit r d = (
    codes text,
    serial_puts-Sent (suc (length (codes text))) (literal (codes text)) literal_at (codes text) u r
        le d (literal-IsString (codes text) fit) (omega arith),
    refl,
  )
  port_call-Sent (putc c) u fit r d = (
    c ∷ [],
    subst (λ w. Sent u w (serial_putc f c u)) (sym (append-nil (on_wire c)))
        (serial_putc-Sent c r le d),
    refl,
  )
  port_call-Sent (put_dec v) u fit r d =
      let t = serial_put_dec-Decimal buf v u fit r le d in
      (t.text, t.sent, (t.digits, t.value, t.some_digit, t.room))
  port_call-Sent (put_hex v) u fit r d =
      let (cs, sent, len, value, digits) = serial_put_hex-Sent v u fit r le d in
      (48 ∷ 120 ∷ cs, sent, (cs, refl, digits, value, len))

  all_on_wire-append : (a b : List ℕ) → all_on_wire (a ++ b) ≡ all_on_wire a ++ all_on_wire b
  all_on_wire-append [] b = refl
  all_on_wire-append (c ∷ a) b =
      ap (λ w. on_wire c ++ w) (all_on_wire-append a b)
      ∙ sym (append_assoc (on_wire c) (all_on_wire a) (all_on_wire b))

  port_calls-Sent :
      (cs : List PortCall) (u : Serial)
      → AllFit cs
      → u.serial_ready ≡ true
      → Drains k u
      → (xs : List ℕ) × Sent u (all_on_wire xs) (port_calls f buf cs u) × PrintsAll cs xs
  unfolding port_calls
  port_calls-Sent [] u fit r d = ([], Sent-done u, refl)
  port_calls-Sent (c ∷ cs) u fit r d =
      let (a, t, p) = port_call-Sent c u fit.0 r d in
      let (b, t', q) = port_calls-Sent cs t.after fit.1 (t.ready ∙ r) (Drains-Sent d t) in
      (
        a ++ b,
        subst (λ w. Sent u w (port_calls f buf (c ∷ cs) u)) (sym (all_on_wire-append a b))
            (Sent-then (port_calls f buf cs) t t'),
        (a, b, refl, p, q),
      )

abbrev all_clean : List String → Bool
all_clean [] = true
all_clean (t ∷ ts) = no_nul (codes t) && all_clean ts

clean_entry :
    (ts : List String) (i : ℕ)
    → all_clean ts ≡ true
    → i < length ts
    → (t : String) × (get_elem? ts i ≡ some t) × (no_nul (codes t) ≡ true)
clean_entry [] i ok lt = absurd (omega (arith, lt))
clean_entry (t ∷ ts) zero ok lt = (t, refl, ground (arith, ok))
clean_entry (t ∷ ts) (suc i) ok lt = clean_entry ts i (ground (arith, ok)) (omega (arith, lt))

-- Every vector has a message.
message_there : (n : ℕ) → (t : String) × (message n ≡ some t) × (no_nul (codes t) ≡ true)
message_there n = elim (lt_or_le n 32) [
  | inl lt ↦
      let inside : ltb n 32 ≡ true = ground (arith, lt) in
      let (t, e, ok) = clean_entry exception_messages n refl lt in (t, rw inside e, ok)
  | inr le ↦ let beyond : ltb n 32 ≡ false = ground (arith, le) in ("Unknown", rw beyond refl, refl)
]

-- The registers of the report are words.
pub record WordSized (regs : InterruptRegisters) : Type 0 where
  pub int_no : regs.int_no < 2 ^ 64
  pub err_code : regs.err_code < 2 ^ 64
  pub rip : regs.rip < 2 ^ 64
  pub cs : regs.cs < 2 ^ 64
  pub rsp : regs.rsp < 2 ^ 64
  pub rflags : regs.rflags < 2 ^ 64
  pub rax : regs.rax < 2 ^ 64
  pub rbx : regs.rbx < 2 ^ 64
  pub rcx : regs.rcx < 2 ^ 64
  pub rdx : regs.rdx < 2 ^ 64
  pub rsi : regs.rsi < 2 ^ 64
  pub rdi : regs.rdi < 2 ^ 64
  pub rbp : regs.rbp < 2 ^ 64
  pub r8 : regs.r8 < 2 ^ 64
  pub r9 : regs.r9 < 2 ^ 64

report-AllFit :
    (regs : InterruptRegisters) (cr2 : ℕ) (t : String)
    → WordSized regs
    → cr2 < 2 ^ 64
    → no_nul (codes t) ≡ true
    → AllFit (report regs cr2 t)
report-AllFit regs cr2 t w c ok = search

-- The handler of exceptions comes to its halt, for every vector, on a port that is set up and whose
-- transmitter empties within `k` reads of its status, with fuel for `k` reads, and for registers of 64 bits.
-- What it has sent is the page of the report: every text in its place, the name of the exception, "Reserved" or
-- "Unknown" where there is none, the vector in decimal digits that read as it, and each register behind its
-- own label in sixteen hexadecimal digits that read as its value.
pub isr_handler-Sent :
    {k f : ℕ} (buf : ℕ → ℕ) (regs : InterruptRegisters) (cr2 : ℕ) (u : Serial)
    → WordSized regs
    → cr2 < 2 ^ 64
    → u.serial_ready ≡ true
    → k ≤ f
    → Drains k u
    → (xs : List ℕ) × Sent u (all_on_wire xs) (isr_handler f buf regs cr2 u)
      × Reads (fill (codes page) (values regs cr2 (name_of regs.int_no))) xs
unfolding isr_handler
isr_handler-Sent {k} {f} buf regs cr2 u w c r le d =
    let (t, e, ok) = message_there regs.int_no in
    let same : t ≡ name_of regs.int_no =
      ap (λ o. elim o [ none ↦ t | some x ↦ x ]) (sym e ∙ message-name_of regs.int_no) in
    let (xs, sent, all) =
      port_calls-Sent buf le (report regs cr2 t) u (report-AllFit regs cr2 t w c ok) r d in
    (
      xs,
      subst
          (λ m.
            Sent u (all_on_wire xs)
              (elim m [ none ↦ none | some t ↦ port_calls f buf (report regs cr2 t) u ]))
          (sym e) sent,
      subst (λ name. Reads (fill (codes page) (values regs cr2 name)) xs) same
          (report-Reads regs cr2 t xs all),
    )
