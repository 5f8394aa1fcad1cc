-- ===== src/Pit/Tests.antt =====
-- The timer's theorems at a small table.
use jmos.Prelude.{ℕ, ◌≤◌, ◌≡◌, ◌≢◌, refl, arith, List, [], ◌∷◌}
use jmos.Prelude.Int.{negsuc}
use jmos.Interrupt.{outb, Machine}
use jmos.Pit.{Pit, timer_callback, register_timer_callback}
use jmos.Pit.Ticks.{register_all, all_called, timer_callback_registered}

abbrev quiet : Machine
quiet = record {
  idt = λ _. record {
    offset_1 = 0;
    segment_selector = 0;
    ist = 0;
    reserved = 0;
    flags = 0;
    offset_2 = 0;
    offset_3 = 0;
  };
  idt_size = 0;
  interrupt_handlers = λ _. 0;
  events = [];
}

abbrev stopped : Pit
stopped = record { tick = 5; tick_callbacks = λ _. 0; tick_callback_count = 0 }

abbrev three : List ℕ
three = 7 ∷ 8 ∷ 9 ∷ []

timer_callback_registered_example :
    ((timer_callback (register_all three stopped) quiet).0.tick ≡ 6)
    × ((timer_callback (register_all three stopped) quiet).1.events
        ≡ outb 0x20 0x20 ∷ all_called three [])
    × (16 ≤ 3
        → (c : ℕ) → c ≢ 0
        → register_timer_callback c (register_all three stopped)
          ≡ (negsuc 0, register_all three stopped))
timer_callback_registered_example =
    timer_callback_registered three stopped quiet refl (omega arith)
      (omega arith, (omega arith, (omega arith, tt)))
