-- ===== src/Interrupt.antt =====
-- src/kernel/interrupt/idt.c, isr.c and the installation in syscall.c: the interrupt descriptor table,
-- the interrupt controllers' set-up, and the dispatch of their interrupts.
--
-- The state holds the table, the handlers by vector (NULL is 0), the table's register, and what has been
-- done to the outside, the last first. The addresses of the assembler's stubs are arguments. Masks of
-- low bits are written as remainders, shifts as quotients.
pub mod Install
pub mod Dispatch
mod Tests
use jmos.Prelude.{
  ℕ, zero, suc, ◌+◌, ◌-◌, ◌*◌, ◌/◌, ◌%◌, ◌^◌, Bool, true, false, List, [], ◌∷◌, ltb, leb, ◌==◌,
  if◌then◌else◌,
}

abbrev pub idt_entries : ℕ
idt_entries = 256

abbrev pub irq0_vector : ℕ
irq0_vector = 32

pub record Gate : Type 0 where
  pub offset_1 : ℕ
  pub segment_selector : ℕ
  pub ist : ℕ
  pub reserved : ℕ
  pub flags : ℕ
  pub offset_2 : ℕ
  pub offset_3 : ℕ

-- Writes to ports, the load of the table, and calls of handlers.
pub data Event : Type 0 where
  outb : ℕ → ℕ → Event
  lidt : ℕ → Event
  call : ℕ → Event

pub record Machine : Type 0 where
  pub idt : ℕ → Gate
  pub idt_size : ℕ
  pub interrupt_handlers : ℕ → ℕ
  pub events : List Event

abbrev pub emit : Event → Machine → Machine
emit e s = record s { events = e ∷ s.events }

-- The entry as the function leaves it; `flags` is a byte.
pub gate : ℕ → ℕ → ℕ → ℕ → Gate
gate address ss ist flags = record {
  offset_1 = address % 2 ^ 16;
  segment_selector = ss;
  ist = ist % 8;
  reserved = 0;
  flags = flags % 256;
  offset_2 = address / 2 ^ 16 % 2 ^ 16;
  offset_3 = address / 2 ^ 32 % 2 ^ 32;
}

pub set_idt_gate_descriptor : ℕ → ℕ → ℕ → ℕ → ℕ → Machine → Machine
set_idt_gate_descriptor n address ss ist flags s = record s {
  idt = λ k. if k == n then gate address ss ist flags else s.idt k;
}

-- `load_idt`, with the size of an entry.
pub load_idt : Machine → Machine
load_idt s = emit (lidt (idt_entries * 16 - 1)) (record s { idt_size = idt_entries * 16 - 1 })

-- One call of `set_idt_gate_descriptor` for each of `count` stubs, from vector `n` on.
pub install_gates : ℕ → ℕ → (ℕ → ℕ) → Machine → Machine
install_gates zero n stub s = s
install_gates (suc count) n stub s =
    install_gates count (n + 1) stub (set_idt_gate_descriptor n (stub n) 0x08 0xE 0 s)

pub remap_pic : Machine → Machine
remap_pic s = emit (outb 0xA1 0x00) (
    emit (outb 0x21 0x00) (
      emit (outb 0xA1 0x01) (
        emit (outb 0x21 0x01) (
          emit (outb 0xA1 0x02) (
            emit (outb 0x21 0x04) (
              emit (outb 0xA1 0x28)
                (emit (outb 0x21 0x20) (emit (outb 0xA0 0x11) (emit (outb 0x20 0x11) s)))))))))

-- `stub` gives the address of the stub of a vector: isr0 to isr31, then irq0 to irq15.
pub isr_install : (ℕ → ℕ) → Machine → Machine
isr_install stub s =
    load_idt (install_gates 16 irq0_vector stub (remap_pic (install_gates 32 0 stub s)))

pub init_syscalls : ℕ → Machine → Machine
init_syscalls syscall_handler s = set_idt_gate_descriptor 0x80 syscall_handler 0x08 0 0xE s

pub acknowledge : ℕ → Machine → Machine
acknowledge int_no s =
    emit (outb 0x20 0x20) (if leb (irq0_vector + 8) int_no then emit (outb 0xA0 0x20) s else s)

pub irq_handler : ℕ → Machine → Machine
irq_handler int_no s =
    let handler = s.interrupt_handlers int_no in
    let s' = acknowledge int_no s in if handler == 0 then s' else emit (call handler) s'

-- The vector is a byte.
pub register_interrupt_handler : ℕ → ℕ → Machine → Machine
register_interrupt_handler n handler s = record s {
  interrupt_handlers = λ k. if k == n % 256 then handler else s.interrupt_handlers k;
}
