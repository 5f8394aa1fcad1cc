-- ===== src/Interrupt/Tests.antt =====
-- The theorems at a table that is empty.
use jmos.Prelude.{ℕ, ◌≤◌, ◌<◌, ◌≡◌, ◌≢◌, arith, false, [], ◌∷◌, ◌++◌}
use jmos.Interrupt.{outb, lidt, call, Machine, isr_install, irq_handler, register_interrupt_handler}
use jmos.Interrupt.Install.{target, present, isr_install_lem}
use jmos.Interrupt.Dispatch.{irq_handler_registered}

abbrev reset : Machine
reset = record {
  idt = λ _. record {
    offset_1 = 0;
    segment_selector = 0;
    ist = 0;
    reserved = 0;
    flags = 0;
    offset_2 = 0;
    offset_3 = 0;
  };
  idt_size = 0;
  interrupt_handlers = λ _. 0;
  events = [];
}

abbrev stubs : ℕ → ℕ
stubs k = 0x80001000

isr_install_lem_example :
    ((k : ℕ)
      → k < 48
      → (target ((isr_install stubs reset).idt k) ≡ 0x80001000)
        × (((isr_install stubs reset).idt k).segment_selector ≡ 0x08)
        × (present ((isr_install stubs reset).idt k) ≡ false))
    × ((k : ℕ) → 48 ≤ k → (isr_install stubs reset).idt k ≡ reset.idt k)
    × ((isr_install stubs reset).interrupt_handlers ≡ reset.interrupt_handlers)
    × ((isr_install stubs reset).events
        ≡ lidt 4095
          ∷ outb 0xA1 0x00
          ∷ outb 0x21 0x00
          ∷ outb 0xA1 0x01
          ∷ outb 0x21 0x01
          ∷ outb 0xA1 0x02
          ∷ outb 0x21 0x04
          ∷ outb 0xA1 0x28
          ∷ outb 0x21 0x20
          ∷ outb 0xA0 0x11
          ∷ outb 0x20 0x11
          ∷ [])
isr_install_lem_example = isr_install_lem stubs reset (λ k. omega arith)

irq_handler_registered_example :
    ((irq_handler 41 (register_interrupt_handler 41 7 reset)).events
      ≡ (call 7 ∷ []) ++ (outb 0x20 0x20 ∷ outb 0xA0 0x20 ∷ []) ++ [])
    × (◌≢◌ {A = ℕ} 33 41
        → (irq_handler 33 (register_interrupt_handler 41 7 reset)).events
          ≡ (irq_handler 33 reset).events)
    × ((irq_handler 41 (register_interrupt_handler 41 7 reset)).idt ≡ reset.idt)
irq_handler_registered_example = irq_handler_registered 41 7 33 reset (omega arith)
