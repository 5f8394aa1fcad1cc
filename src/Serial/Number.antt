-- ===== src/Serial/Number.antt =====
-- `serial_put_hex` and `serial_put_dec`.
use mathlib.Core.List.{append_assoc, append-nil}
use native.Mathlib.Nat.{pow-suc, div-div-eq-div-mul}
use jmos.Prelude.{
  ℕ, zero, suc, ◌+◌, ◌-◌, ◌*◌, ◌/◌, ◌%◌, ◌^◌, ◌≤◌, ◌<◌, ◌≡◌, refl, ◌≢◌, ◌⊎◌, true, false, List, [],
  ◌∷◌, ◌++◌, Option, none, some, ◌==◌, if◌then◌else◌, arith, ap, ◌∙◌, sym, subst, length, inl, inr,
  bit_and, ltb, update, update_ne, update_self, length-append, eq_or_ne,
}
use jmos.Prelude.Split.{bit_and_low}
use jmos.Serial.{
  Serial, serial_putc, hex_digit, hex_loop, serial_put_hex, dec_loop, flush_loop, serial_put_dec,
}
use jmos.Serial.Putc.{
  Drains, all_on_wire, Sent, Drains-Sent, Sent-then, Sent-done, serial_putc-Sent,
}

-- The characters of `n` hexadecimal digits.
abbrev hex_text : ℕ → ℕ → List ℕ
hex_text zero v = []
hex_text (suc n) v = hex_digit (bit_and (v / 2 ^ (4 * n)) 0xF) ∷ hex_text n v

-- Hexadecimal digits, 0 to 9 and A to F.
abbrev pub AllHex : List ℕ → Type 0
AllHex [] = 0 ≤ 0
AllHex (c ∷ cs) = ((48 ≤ c) × (c < 58) ⊎ (65 ≤ c) × (c < 71)) × AllHex cs

hex_text-AllHex : (n v : ℕ) → AllHex (hex_text n v)
hex_text-AllHex zero v = omega arith
hex_text-AllHex (suc n) v =
    (ground (arith, bit_and_low 4 (v / 2 ^ (4 * n)) 0xF refl), hex_text-AllHex n v)

-- The number that hexadecimal characters stand for, behind `acc`.
abbrev pub read_hex : ℕ → List ℕ → ℕ
read_hex acc [] = acc
read_hex acc (c ∷ cs) = read_hex (16 * acc + (if ltb c 58 then c - 48 else c - 55)) cs

hex_step :
    (acc v p : ℕ) (cs : List ℕ)
    → read_hex acc (hex_digit (bit_and (v / p) 0xF) ∷ cs) ≡ read_hex (16 * acc + v / p % 16) cs
hex_step acc v p cs = ap (λ x. read_hex x cs) (ground (arith, bit_and_low 4 (v / p) 0xF refl))

shift_down : (v n : ℕ) → v / 2 ^ (4 * suc n) ≡ v / 2 ^ (4 * n) / 16
shift_down v n =
    let k : ℕ = 4 * n in
    let four : 4 * suc n ≡ suc (suc (suc (suc k))) = omega arith in
    let power : 2 ^ suc (suc (suc (suc k))) ≡ 2 ^ k * 16 = omega (
      arith,
      pow-suc 2 k,
      pow-suc 2 (suc k),
      pow-suc 2 (suc (suc k)),
      pow-suc 2 (suc (suc (suc k))),
    ) in
    ap (λ e. v / 2 ^ e) four ∙ ap (λ q. v / q) power ∙ sym (div-div-eq-div-mul v (2 ^ k) 16)

-- Behind the digits above them, `n` digits give the number.
read_hex_tail : (n v : ℕ) → read_hex (v / 2 ^ (4 * n)) (hex_text n v) ≡ v
read_hex_tail zero v = omega arith
read_hex_tail (suc n) v =
    hex_step (v / 2 ^ (4 * suc n)) v (2 ^ (4 * n)) (hex_text n v)
    ∙ ap (λ q. read_hex q (hex_text n v))
        (ap (λ q. 16 * q + v / 2 ^ (4 * n) % 16) (shift_down v n) ∙ omega arith)
    ∙ read_hex_tail n v

hex_loop-Sent :
    {k f : ℕ} (n v : ℕ) {u : Serial}
    → u.serial_ready ≡ true
    → k ≤ f
    → Drains k u
    → Sent u (all_on_wire (hex_text n v)) (hex_loop n f v u)
unfolding hex_loop
hex_loop-Sent zero v {u} r le d = Sent-done u
hex_loop-Sent {f = f} (suc n) v {u} r le d =
    let t = serial_putc-Sent (hex_digit (bit_and (v / 2 ^ (4 * n)) 0xF)) r le d in
    Sent-then (hex_loop n f v) t (hex_loop-Sent n v (t.ready ∙ r) le (Drains-Sent d t))

-- On a port that is set up and whose transmitter empties within `k` reads of its status, with fuel for
-- `k` reads, `serial_put_hex` ends. It sends `0x` and sixteen hexadecimal digits that read as the number.
pub serial_put_hex-Sent :
    {k f : ℕ} (v : ℕ) (u : Serial)
    → v < 2 ^ 64
    → u.serial_ready ≡ true
    → k ≤ f
    → Drains k u
    → (cs : List ℕ) × Sent u (all_on_wire (48 ∷ 120 ∷ cs)) (serial_put_hex f v u)
      × (length cs ≡ 16)
      × (read_hex 0 cs ≡ v)
      × AllHex cs
unfolding serial_put_hex
serial_put_hex-Sent {k} {f} v u small r le d =
    let zero_sent = serial_putc-Sent 48 r le d in
    let x_sent = serial_putc-Sent 120 (zero_sent.ready ∙ r) le (Drains-Sent d zero_sent) in
    let rest =
      hex_loop-Sent 16 v (x_sent.ready ∙ zero_sent.ready ∙ r) le
        (Drains-Sent (Drains-Sent d zero_sent) x_sent) in
    (
      hex_text 16 v,
      Sent-then (λ u'. elim (serial_putc f 120 u') [ none ↦ none | some u'' ↦ hex_loop 16 f v u'' ])
          zero_sent (Sent-then (hex_loop 16 f v) x_sent rest),
      refl,
      ap (λ q. read_hex q (hex_text 16 v)) {x = 0} (omega (arith, small)) ∙ read_hex_tail 16 v,
      hex_text-AllHex 16 v,
    )

-- The decimal digits of a number, the first first, with room for `g` of them.
abbrev dec_text : ℕ → ℕ → List ℕ
dec_text zero v = []
dec_text (suc g) v = if v == 0 then [] else dec_text g (v / 10) ++ (48 + v % 10) ∷ []

abbrev pub read_dec : ℕ → List ℕ → ℕ
read_dec acc [] = acc
read_dec acc (c ∷ cs) = read_dec (10 * acc + (c - 48)) cs

read_dec-append :
    (acc c : ℕ) (xs : List ℕ) → read_dec acc (xs ++ c ∷ []) ≡ 10 * read_dec acc xs + (c - 48)
read_dec-append acc c [] = refl
read_dec-append acc c (x ∷ xs) = read_dec-append (10 * acc + (x - 48)) c xs

-- Ten to the power of `g`.
abbrev tens : ℕ → ℕ
tens zero = 1
tens (suc g) = 10 * tens g

read_dec_text : (g v : ℕ) → v < tens g → read_dec 0 (dec_text g v) ≡ v
read_dec_text zero v lt = omega (arith, lt)
read_dec_text (suc g) v lt = elim (eq_or_ne v 0) [
  | inl z ↦ let nul : (v == 0) ≡ true = ground (arith, z) in rw nul (sym z)
  | inr nz ↦
      let more : (v == 0) ≡ false = ground (arith, nz) in
      rw more (
        read_dec-append 0 (48 + v % 10) (dec_text g (v / 10))
        ∙ omega (arith, read_dec_text g (v / 10) (omega (arith, lt))))
]

length-dec_text : (g v : ℕ) → length (dec_text g v) ≤ g
length-dec_text zero v = omega arith
length-dec_text (suc g) v =
    ground
      (arith, length-append (dec_text g (v / 10)) ((48 + v % 10) ∷ []), length-dec_text g (v / 10))

-- Decimal digits.
abbrev pub AllDecimal : List ℕ → Type 0
AllDecimal [] = 0 ≤ 0
AllDecimal (c ∷ cs) = (48 ≤ c) × (c < 58) × AllDecimal cs

AllDecimal-append :
    (xs : List ℕ) (c : ℕ) → AllDecimal xs → 48 ≤ c → c < 58 → AllDecimal (xs ++ c ∷ [])
AllDecimal-append [] c all lo hi = (lo, hi, omega arith)
AllDecimal-append (x ∷ xs) c all lo hi = (all.0, all.1, AllDecimal-append xs c all.2 lo hi)

dec_text-AllDecimal : (g v : ℕ) → AllDecimal (dec_text g v)
dec_text-AllDecimal zero v = omega arith
dec_text-AllDecimal (suc g) v = elim (eq_or_ne v 0) [
  | inl z ↦ let nul : (v == 0) ≡ true = ground (arith, z) in rw nul (omega arith)
  | inr nz ↦
      let more : (v == 0) ≡ false = ground (arith, nz) in
      rw more (
        AllDecimal-append (dec_text g (v / 10)) (48 + v % 10) (dec_text-AllDecimal g (v / 10))
          (omega arith) (omega arith))
]

-- The characters that the second loop of `serial_put_dec` sends.
abbrev from_top : (ℕ → ℕ) → ℕ → List ℕ
from_top buf zero = []
from_top buf (suc i) = buf i ∷ from_top buf i

from_top-update : (buf : ℕ → ℕ) (i j x : ℕ) → i ≤ j → from_top (update buf j x) i ≡ from_top buf i
from_top-update buf zero j x le = refl
from_top-update buf (suc i) j x le =
    ap (λ c. c ∷ from_top (update buf j x) i) (update_ne buf j i x (omega (arith, le)))
    ∙ ap (λ cs. buf i ∷ cs) (from_top-update buf i j x (omega (arith, le)))

dec_text-zero : (g v : ℕ) → (v == 0) ≡ true → dec_text (suc g) v ≡ []
dec_text-zero g v z = rw z refl

dec_text-more :
    (g v : ℕ) → (v == 0) ≡ false → dec_text (suc g) v ≡ dec_text g (v / 10) ++ (48 + v % 10) ∷ []
dec_text-more g v m = rw m refl

nonempty : (cs : List ℕ) → read_dec 0 cs ≢ 0 → 1 ≤ length cs
nonempty [] n = absurd (n refl)
nonempty (c ∷ cs) n = omega arith

record Filled (buf : ℕ → ℕ) (i g v : ℕ) (o : Option ((ℕ → ℕ) × ℕ)) : Type 0 where
  digits : ℕ → ℕ
  count : ℕ
  ends : o ≡ some (digits, count)
  text : from_top digits count ≡ dec_text g v ++ from_top buf i
  room : count ≤ i + g

dec_loop-Filled :
    (g : ℕ) (buf : ℕ → ℕ) (i v : ℕ) → v < tens g → Filled buf i g v (dec_loop (suc g) buf i v)
unfolding dec_loop
dec_loop-Filled zero buf i v lt =
    let nul : (v == 0) ≡ true = ground (arith, lt) in
    rw nul (record { digits = buf; count = i; ends = refl; text = refl; room = omega arith })
dec_loop-Filled (suc g) buf i v lt = elim (eq_or_ne v 0) [
  | inl z ↦
      let nul : (v == 0) ≡ true = ground (arith, z) in
      rw nul (record {
        digits = buf;
        count = i;
        ends = refl;
        text = ap (λ cs. cs ++ from_top buf i) (sym (dec_text-zero g v nul));
        room = omega arith;
      })
  | inr nz ↦
      let more : (v == 0) ≡ false = ground (arith, nz) in
      let c : ℕ = 48 + v % 10 in
      let r = dec_loop-Filled g (update buf i c) (i + 1) (v / 10) (omega (arith, lt)) in
      let next : i + 1 ≡ suc i = omega arith in
      let pushed : from_top (update buf i c) (i + 1) ≡ c ∷ from_top buf i =
        ap (from_top (update buf i c)) next
        ∙ ap (λ x. x ∷ from_top (update buf i c) i) (update_self buf i c)
        ∙ ap (λ cs. c ∷ cs) (from_top-update buf i i c (omega arith)) in
      rw more (record {
        digits = r.digits;
        count = r.count;
        ends = r.ends;
        text =
            r.text
            ∙ ap (λ cs. dec_text g (v / 10) ++ cs) pushed
            ∙ sym (append_assoc (dec_text g (v / 10)) (c ∷ []) (from_top buf i))
            ∙ ap (λ cs. cs ++ from_top buf i) (sym (dec_text-more g v more));
        room = omega (arith, r.room);
      })
]

flush_loop-Sent :
    {k f : ℕ} (buf : ℕ → ℕ) (i : ℕ) {u : Serial}
    → u.serial_ready ≡ true
    → k ≤ f
    → Drains k u
    → Sent u (all_on_wire (from_top buf i)) (flush_loop buf i f u)
unfolding flush_loop
flush_loop-Sent buf zero {u} r le d = Sent-done u
flush_loop-Sent {f = f} buf (suc i) {u} r le d =
    let t = serial_putc-Sent (buf i) r le d in
    Sent-then (flush_loop buf i f) t (flush_loop-Sent buf i (t.ready ∙ r) le (Drains-Sent d t))

-- The call sends decimal digits that read as the number, at most `n` of them.
pub record Decimal (n v : ℕ) (u : Serial) (o : Option Serial) : Type 0 where
  pub text : List ℕ
  pub sent : Sent u (all_on_wire text) o
  pub digits : AllDecimal text
  pub value : read_dec 0 text ≡ v
  pub some_digit : 1 ≤ length text
  pub room : length text ≤ n

length-from_top : (buf : ℕ → ℕ) (i : ℕ) → length (from_top buf i) ≡ i
length-from_top buf zero = refl
length-from_top buf (suc i) = ap suc (length-from_top buf i)

-- On a port that is set up and whose transmitter empties within `k` reads of its status, with fuel for
-- `k` reads and 21 rounds, `serial_put_dec` ends. It sends decimal digits that read as the number, at
-- least one and at most the 20 that its buffer holds.
pub serial_put_dec-Decimal :
    {k f : ℕ} (buf : ℕ → ℕ) (v : ℕ) (u : Serial)
    → v < 2 ^ 64
    → u.serial_ready ≡ true
    → k ≤ f
    → Drains k u
    → Decimal 20 v u (serial_put_dec 21 f buf v u)
unfolding serial_put_dec
serial_put_dec-Decimal {k} {f} buf v u small r le d = elim (eq_or_ne v 0) [
  | inl z ↦
      let nul : (v == 0) ≡ true = ground (arith, z) in
      rw nul (record {
        text = 48 ∷ [];
        sent = serial_putc-Sent 48 r le d;
        digits = (omega arith, omega arith, omega arith);
        value = sym z;
        some_digit = omega arith;
        room = omega arith;
      })
  | inr nz ↦
      let more : (v == 0) ≡ false = ground (arith, nz) in
      let filled = dec_loop-Filled 20 buf 0 v (omega (arith, small)) in
      let text = filled.text ∙ append-nil (dec_text 20 v) in
      let flushed : Sent u (all_on_wire (from_top filled.digits filled.count))
          (flush_loop filled.digits filled.count f u) =
        flush_loop-Sent filled.digits filled.count r le d in
      let value = ap (read_dec 0) text ∙ read_dec_text 20 v (omega (arith, small)) in
      rw more (record {
        text = from_top filled.digits filled.count;
        sent =
            subst
              (λ o.
                Sent u (all_on_wire (from_top filled.digits filled.count))
                  (elim o [ none ↦ none | some r ↦ flush_loop r.0 r.1 f u ]))
              (sym filled.ends) flushed;
        digits = subst AllDecimal (sym text) (dec_text-AllDecimal 20 v);
        value = value;
        some_digit = nonempty (from_top filled.digits filled.count) (λ e. nz (sym value ∙ e));
        room = omega (arith, length-from_top filled.digits filled.count, filled.room);
      })
]
