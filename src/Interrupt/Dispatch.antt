-- ===== src/Interrupt/Dispatch.antt =====
-- The dispatch of the controllers' interrupts.
use jmos.Prelude.{ℕ, ◌<◌, ◌≡◌, ◌≢◌, [], ◌∷◌, ◌++◌, arith, leb, ◌==◌, if◌then◌else◌}
use jmos.Interrupt.{outb, call, Machine, acknowledge, irq_handler, register_interrupt_handler}

-- A handler that has been registered for a vector below 256 is called for that vector, once, after the
-- controllers have been told: the second one first where the vector is its, then the first one.
-- Registering NULL makes the vector's interrupts only be acknowledged. Other vectors keep their
-- handlers, and the table stays.
pub irq_handler_registered :
    (n f k : ℕ) (s : Machine)
    → n < 256
    → let s' = register_interrupt_handler n f s in
      ((irq_handler n s').events
        ≡ (if f == 0 then [] else call f ∷ [])
          ++ (if leb 40 n then outb 0x20 0x20 ∷ outb 0xA0 0x20 ∷ [] else outb 0x20 0x20 ∷ [])
          ++ s.events)
      × (k ≢ n → (irq_handler k s').events ≡ (irq_handler k s).events)
      × ((irq_handler n s').idt ≡ s.idt)
unfolding irq_handler register_interrupt_handler acknowledge
irq_handler_registered n f k s small = (ground arith, (λ ne. ground arith), ground arith)
