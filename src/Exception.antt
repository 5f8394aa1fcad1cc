-- ===== src/Exception.antt =====
-- src/kernel/interrupt/isr.c: isr_handler, the report of a CPU exception on the serial port.
--
-- The registers are 64-bit words. The literals are where the compiler puts them, here each at the address
-- `literal_at` of a memory of its own. The handler halts at its end: the state is that of the port
-- then, `none` a wait that ran out of fuel or a read outside `exception_messages`.
pub mod Layout
pub mod Report
mod Tests
use Prim.Native.String.{String}
use Prim.Native.Char.{code}
use jmos.Prelude.{
  ℕ, zero, suc, ◌+◌, ◌-◌, ◌^◌, List, [], ◌∷◌, Option, none, some, if◌then◌else◌, ltb, get_elem?,
  length, true, false,
}
use jmos.Cstring.{Mem}
use jmos.Serial.{Serial, serial_putc, serial_puts, serial_put_hex, serial_put_dec}

pub record InterruptRegisters : Type 0 where
  pub r15 : ℕ
  pub r14 : ℕ
  pub r13 : ℕ
  pub r12 : ℕ
  pub r11 : ℕ
  pub r10 : ℕ
  pub r9 : ℕ
  pub r8 : ℕ
  pub rbp : ℕ
  pub rdi : ℕ
  pub rsi : ℕ
  pub rdx : ℕ
  pub rcx : ℕ
  pub rbx : ℕ
  pub rax : ℕ
  pub int_no : ℕ
  pub err_code : ℕ
  pub rip : ℕ
  pub cs : ℕ
  pub rflags : ℕ
  pub rsp : ℕ
  pub ss : ℕ

abbrev pub exception_messages : List String
exception_messages =
    "Division By Zero" ∷ "Debug" ∷ "Non Maskable Interrupt" ∷ "Breakpoint"
    ∷ "Into Detected Overflow" ∷ "Bounds Exceeded" ∷ "Invalid Opcode" ∷ "Device Not Available"
    ∷ "Double Fault" ∷ "Coprocessor Segment Overrun" ∷ "Invalid TSS" ∷ "Segment Not Present"
    ∷ "Stack Segment Fault" ∷ "General Protection Fault" ∷ "Page Fault" ∷ "Reserved"
    ∷ "x87 Floating Point Exception" ∷ "Alignment Check" ∷ "Machine Check"
    ∷ "SIMD Floating Point Exception" ∷ "Virtualization Exception" ∷ "Reserved" ∷ "Reserved"
    ∷ "Reserved" ∷ "Reserved" ∷ "Reserved" ∷ "Reserved" ∷ "Reserved" ∷ "Reserved" ∷ "Reserved"
    ∷ "Reserved" ∷ "Reserved" ∷ []

-- `regs->int_no < 32 ? exception_messages[regs->int_no] : "Unknown"`
abbrev pub message : ℕ → Option String
message int_no = if ltb int_no 32 then get_elem? exception_messages int_no else some "Unknown"

-- A string literal in memory.
abbrev pub codes : String → List ℕ
codes String.[] = []
codes (String.◌∷◌ c s) = code c ∷ codes s

abbrev pub char_at : List ℕ → ℕ → ℕ
char_at [] i = 0
char_at (c ∷ cs) zero = c
char_at (c ∷ cs) (suc i) = char_at cs i

abbrev pub literal_at : ℕ
literal_at = 0xFFFFFFFF80000000

abbrev pub literal : List ℕ → Mem
literal text a = char_at text (a - literal_at)

-- The calls of the port's functions.
pub data PortCall : Type 0 where
  puts : String → PortCall
  putc : ℕ → PortCall
  put_dec : ℕ → PortCall
  put_hex : ℕ → PortCall

-- `f` is the fuel for a wait; `buf` is the stack that `serial_put_dec` finds.
pub port_call : ℕ → (ℕ → ℕ) → PortCall → Serial → Option Serial
port_call f buf (puts text) u =
    serial_puts (suc (length (codes text))) f (literal (codes text)) literal_at u
port_call f buf (putc c) u = serial_putc f c u
port_call f buf (put_dec v) u = serial_put_dec 21 f buf v u
port_call f buf (put_hex v) u = serial_put_hex f v u

pub port_calls : ℕ → (ℕ → ℕ) → List PortCall → Serial → Option Serial
port_calls f buf [] u = some u
port_calls f buf (c ∷ cs) u = elim (port_call f buf c u) [
  | none ↦ none
  | some u' ↦ port_calls f buf cs u'
]

-- The handler's calls in order, `text` the message of the exception.
abbrev pub report : InterruptRegisters → ℕ → String → List PortCall
report regs cr2 text =
    puts "\n*** CPU EXCEPTION ***\n"
    ∷ puts "  vector  : "
    ∷ put_dec regs.int_no
    ∷ puts " ("
    ∷ puts text
    ∷ puts ")\n"
    ∷ puts "  err_code: "
    ∷ put_hex regs.err_code
    ∷ putc 10
    ∷ puts "  rip     : "
    ∷ put_hex regs.rip
    ∷ putc 10
    ∷ puts "  cs:rsp  : "
    ∷ put_hex regs.cs
    ∷ putc 58
    ∷ put_hex regs.rsp
    ∷ putc 10
    ∷ puts "  rflags  : "
    ∷ put_hex regs.rflags
    ∷ putc 10
    ∷ puts "  cr2     : "
    ∷ put_hex cr2
    ∷ putc 10
    ∷ puts "  rax="
    ∷ put_hex regs.rax
    ∷ puts " rbx="
    ∷ put_hex regs.rbx
    ∷ puts " rcx="
    ∷ put_hex regs.rcx
    ∷ putc 10
    ∷ puts "  rdx="
    ∷ put_hex regs.rdx
    ∷ puts " rsi="
    ∷ put_hex regs.rsi
    ∷ puts " rdi="
    ∷ put_hex regs.rdi
    ∷ putc 10
    ∷ puts "  rbp="
    ∷ put_hex regs.rbp
    ∷ puts " r8 ="
    ∷ put_hex regs.r8
    ∷ puts " r9 ="
    ∷ put_hex regs.r9
    ∷ putc 10
    ∷ puts "*** halted ***\n"
    ∷ []

pub isr_handler : ℕ → (ℕ → ℕ) → InterruptRegisters → ℕ → Serial → Option Serial
isr_handler f buf regs cr2 u = elim (message regs.int_no) [
  | none ↦ none
  | some text ↦ port_calls f buf (report regs cr2 text) u
]
