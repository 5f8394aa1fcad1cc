-- ===== src/Exception/Layout.antt =====
-- The report of an exception as a page of text, apart from the calls that print it.
use Prim.Native.String.{String}
use jmos.Prelude.{
  ℕ, zero, suc, ◌+◌, ◌≤◌, ◌<◌, ◌≡◌, refl, List, [], ◌∷◌, ◌++◌, some, ◌==◌, if◌then◌else◌, ltb,
  get_elem?, length, arith, ap, ◌∙◌, sym, subst, inl, inr, lt_or_le, true, false,
}
use jmos.Serial.Number.{read_hex, read_dec, AllHex, AllDecimal}
use jmos.Exception.{
  InterruptRegisters, codes, exception_messages, message, PortCall, puts, putc, put_dec, put_hex,
  report,
}

-- One character, or a number.
pub data Piece : Type 0 where
  char : ℕ → Piece
  decimal : ℕ → Piece
  hexadecimal : ℕ → Piece

abbrev pub chars : List ℕ → List Piece
chars [] = []
chars (c ∷ cs) = char c ∷ chars cs

-- The page, with a `%` for each value.
abbrev pub page : String
page =
    "\n*** CPU EXCEPTION ***\n  vector  : % (%)\n  err_code: %\n  rip     : %\n  cs:rsp  : %:%\n  rflags  : %\n  cr2     : %\n  rax=% rbx=% rcx=%\n  rdx=% rsi=% rdi=%\n  rbp=% r8 =% r9 =%\n*** halted ***\n"

abbrev pub fill : List ℕ → List (List Piece) → List Piece
fill [] vs = []
fill (c ∷ cs) [] = char c ∷ fill cs []
fill (c ∷ cs) (v ∷ vs) = if c == 37 then v ++ fill cs vs else char c ∷ fill cs (v ∷ vs)

-- The values of the page, `name` that of the exception.
abbrev pub values : InterruptRegisters → ℕ → String → List (List Piece)
values regs cr2 name =
    (decimal regs.int_no ∷ [])
    ∷ chars (codes name)
    ∷ (hexadecimal regs.err_code ∷ [])
    ∷ (hexadecimal regs.rip ∷ [])
    ∷ (hexadecimal regs.cs ∷ [])
    ∷ (hexadecimal regs.rsp ∷ [])
    ∷ (hexadecimal regs.rflags ∷ [])
    ∷ (hexadecimal cr2 ∷ [])
    ∷ (hexadecimal regs.rax ∷ [])
    ∷ (hexadecimal regs.rbx ∷ [])
    ∷ (hexadecimal regs.rcx ∷ [])
    ∷ (hexadecimal regs.rdx ∷ [])
    ∷ (hexadecimal regs.rsi ∷ [])
    ∷ (hexadecimal regs.rdi ∷ [])
    ∷ (hexadecimal regs.rbp ∷ [])
    ∷ (hexadecimal regs.r8 ∷ [])
    ∷ (hexadecimal regs.r9 ∷ [])
    ∷ []

-- The name of an exception, by its vector; the other vectors below 32 are reserved.
abbrev named : List (ℕ × String)
named =
    (14, "Page Fault")
    ∷ (13, "General Protection Fault")
    ∷ (8, "Double Fault")
    ∷ (6, "Invalid Opcode")
    ∷ (0, "Division By Zero")
    ∷ (1, "Debug")
    ∷ (2, "Non Maskable Interrupt")
    ∷ (3, "Breakpoint")
    ∷ (4, "Into Detected Overflow")
    ∷ (5, "Bounds Exceeded")
    ∷ (7, "Device Not Available")
    ∷ (9, "Coprocessor Segment Overrun")
    ∷ (10, "Invalid TSS")
    ∷ (11, "Segment Not Present")
    ∷ (12, "Stack Segment Fault")
    ∷ (16, "x87 Floating Point Exception")
    ∷ (17, "Alignment Check")
    ∷ (18, "Machine Check")
    ∷ (19, "SIMD Floating Point Exception")
    ∷ (20, "Virtualization Exception")
    ∷ []

abbrev name_in : List (ℕ × String) → ℕ → String
name_in [] vector = if ltb vector 32 then "Reserved" else "Unknown"
name_in ((n, name) ∷ rest) vector = if vector == n then name else name_in rest vector

abbrev pub name_of : ℕ → String
name_of vector = name_in named vector

-- The characters of a page: a number's are its digits, of a hexadecimal one sixteen behind `0x`.
abbrev pub Reads : List Piece → List ℕ → Type 0
Reads [] xs = xs ≡ []
Reads (char c ∷ ps) xs = (rest : List ℕ) × (xs ≡ c ∷ rest) × Reads ps rest
Reads (decimal v ∷ ps) xs =
    (ds : List ℕ) × (rest : List ℕ) × (xs ≡ ds ++ rest)
    × AllDecimal ds
    × (read_dec 0 ds ≡ v)
    × (1 ≤ length ds)
    × (length ds ≤ 20)
    × Reads ps rest
Reads (hexadecimal v ∷ ps) xs =
    (ds : List ℕ) × (rest : List ℕ) × (xs ≡ 48 ∷ 120 ∷ ds ++ rest)
    × AllHex ds
    × (read_hex 0 ds ≡ v)
    × (length ds ≡ 16)
    × Reads ps rest

-- The pieces of the calls, one call's behind the other's.
abbrev pieces : List PortCall → List Piece
pieces [] = []
pieces (puts text ∷ cs) = chars (codes text) ++ pieces cs
pieces (putc c ∷ cs) = char c ∷ pieces cs
pieces (put_dec v ∷ cs) = decimal v ∷ pieces cs
pieces (put_hex v ∷ cs) = hexadecimal v ∷ pieces cs

-- The calls print the page.
report-page :
    (regs : InterruptRegisters) (cr2 : ℕ) (name : String)
    → pieces (report regs cr2 name) ≡ fill (codes page) (values regs cr2 name)
report-page regs cr2 name = refl

Reads-chars :
    (cs : List ℕ) (ps : List Piece) (xs : List ℕ) → Reads ps xs → Reads (chars cs ++ ps) (cs ++ xs)
Reads-chars [] ps xs r = r
Reads-chars (c ∷ cs) ps xs r = (cs ++ xs, refl, Reads-chars cs ps xs r)

-- The table has the names, from a vector on.
Agrees : List String → ℕ → Type 0
Agrees [] n = n ≡ 32
Agrees (t ∷ ts) n = (t ≡ name_of n) × Agrees ts (n + 1)

all_agree : Agrees exception_messages 0
unfolding Agrees
all_agree = search

agreed :
    (ts : List String) (n i : ℕ)
    → Agrees ts n
    → i < length ts
    → get_elem? ts i ≡ some (name_of (n + i))
unfolding Agrees
agreed [] n i a lt = absurd (omega (arith, lt))
agreed (t ∷ ts) n zero a lt = let e : n ≡ n + 0 = omega arith in ap some (a.0 ∙ ap name_of e)
agreed (t ∷ ts) n (suc i) a lt =
    let e : n + 1 + i ≡ n + suc i = omega arith in
    agreed ts (n + 1) i a.1 (omega (arith, lt)) ∙ ap (λ k. some (name_of k)) e

AllBelow32 : List (ℕ × String) → Type 0
AllBelow32 [] = 0 ≤ 0
AllBelow32 ((k, name) ∷ rest) = (k < 32) × AllBelow32 rest

all_below : AllBelow32 named
unfolding AllBelow32
all_below = search arith

beyond_names :
    (names : List (ℕ × String)) (n : ℕ) → 32 ≤ n → AllBelow32 names → name_in names n ≡ "Unknown"
unfolding AllBelow32
beyond_names [] n le b = let beyond : ltb n 32 ≡ false = ground (arith, le) in rw beyond refl
beyond_names ((k, name) ∷ rest) n le b =
    let other : (n == k) ≡ false = ground (arith, le, b.0) in rw other (beyond_names rest n le b.1)

-- The message is the exception's name, and "Unknown" from vector 32 on.
pub message-name_of : (n : ℕ) → message n ≡ some (name_of n)
message-name_of n = elim (lt_or_le n 32) [
  | inl lt ↦
      let inside : ltb n 32 ≡ true = ground (arith, lt) in
      let first : 0 + n ≡ n = omega arith in
      ap (λ b. if b then get_elem? exception_messages n else some "Unknown") inside
      ∙ (agreed exception_messages 0 n all_agree lt ∙ ap (λ k. some (name_of k)) first)
  | inr le ↦
      let beyond : ltb n 32 ≡ false = ground (arith, le) in
      ap (λ b. if b then get_elem? exception_messages n else some "Unknown") beyond
      ∙ ap some (sym (beyond_names named n le all_below))
]

-- What a call prints.
abbrev pub Prints : PortCall → List ℕ → Type 0
Prints (puts text) xs = xs ≡ codes text
Prints (putc c) xs = xs ≡ c ∷ []
Prints (put_dec v) xs = AllDecimal xs × (read_dec 0 xs ≡ v) × (1 ≤ length xs) × (length xs ≤ 20)
Prints (put_hex v) xs =
    (cs : List ℕ) × (xs ≡ 48 ∷ 120 ∷ cs) × AllHex cs × (read_hex 0 cs ≡ v) × (length cs ≡ 16)

-- The characters of the calls, one call's behind the other's.
abbrev pub PrintsAll : List PortCall → List ℕ → Type 0
PrintsAll [] xs = xs ≡ []
PrintsAll (c ∷ cs) xs = (a : List ℕ) × (b : List ℕ) × (xs ≡ a ++ b) × Prints c a × PrintsAll cs b

Prints-Reads :
    (c : PortCall) (cs : List PortCall) (a b : List ℕ)
    → Prints c a
    → Reads (pieces cs) b
    → Reads (pieces (c ∷ cs)) (a ++ b)
Prints-Reads (puts text) cs a b p r =
    subst (λ l. Reads (chars (codes text) ++ pieces cs) (l ++ b)) (sym p)
      (Reads-chars (codes text) (pieces cs) b r)
Prints-Reads (putc c) cs a b p r = (b, ap (λ l. l ++ b) p, r)
Prints-Reads (put_dec v) cs a b p r = (a, b, refl, p.0, p.1, p.2, p.3, r)
Prints-Reads (put_hex v) cs a b p r = (p.0, b, ap (λ l. l ++ b) p.1, p.2, p.3, p.4, r)

PrintsAll-Reads : (cs : List PortCall) (xs : List ℕ) → PrintsAll cs xs → Reads (pieces cs) xs
PrintsAll-Reads [] xs p = p
PrintsAll-Reads (c ∷ cs) xs (a, b, e, p, q) =
    subst (Reads (pieces (c ∷ cs))) (sym e) (Prints-Reads c cs a b p (PrintsAll-Reads cs b q))

-- What the calls of the report print is the page.
pub report-Reads :
    (regs : InterruptRegisters) (cr2 : ℕ) (name : String) (xs : List ℕ)
    → PrintsAll (report regs cr2 name) xs
    → Reads (fill (codes page) (values regs cr2 name)) xs
report-Reads regs cr2 name xs p =
    subst (λ ps. Reads ps xs) (report-page regs cr2 name)
      (PrintsAll-Reads (report regs cr2 name) xs p)
