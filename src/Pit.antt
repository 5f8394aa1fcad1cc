-- ===== src/Pit.antt =====
-- src/kernel/timer/pit.c: the timer's set-up, its count of ticks and its callbacks.
--
-- A callback is its address, NULL is 0; what it does when it is called is not modelled beyond the call
-- itself. `init_timer` works on the interrupts' state too, where its handler's address is an argument.
-- Division by zero gives `none`.
pub mod Ticks
mod Tests
use jmos.Prelude.{
  ℕ, zero, suc, ◌+◌, ◌-◌, ◌*◌, ◌/◌, ◌%◌, ◌^◌, Bool, true, false, List, [], ◌∷◌, ltb, leb, ◌==◌,
  if◌then◌else◌, Option, none, some, update,
}
use jmos.Prelude.Int.{ℤ, pos, negsuc}
use jmos.Interrupt.{Event, outb, call, Machine, emit, irq0_vector, register_interrupt_handler}

abbrev pub max_handlers : ℕ
max_handlers = 16

pub record Pit : Type 0 where
  pub tick : ℕ
  pub tick_callbacks : ℕ → ℕ
  pub tick_callback_count : ℕ

-- The loop over the callbacks from place `i` on, `left` of them to go.
pub call_from : ℕ → ℕ → Pit → Machine → Machine
call_from zero i t s = s
call_from (suc left) i t s =
    call_from left (i + 1) t
      (if t.tick_callbacks i == 0 then s else emit (call (t.tick_callbacks i)) s)

pub timer_callback : Pit → Machine → Pit × Machine
timer_callback t s =
    let t' : Pit = record t { tick = (t.tick + 1) % 2 ^ 128 } in
    (t', emit (outb 0x20 0x20) (call_from t.tick_callback_count 0 t' s))

pub init_timer : ℕ → ℕ → Machine → Option Machine
init_timer handler freq s =
    let divisor = 1193180 / freq % 2 ^ 32 in
    if freq == 0
    then none
    else some (
        emit (outb 0x40 (divisor / 2 ^ 8 % 2 ^ 8)) (
          emit (outb 0x40 (divisor % 2 ^ 8))
            (emit (outb 0x43 0x36) (register_interrupt_handler irq0_vector handler s))))

pub get_tick : Pit → ℕ
get_tick t = t.tick % 2 ^ 64

pub register_timer_callback : ℕ → Pit → ℤ × Pit
register_timer_callback callback t =
    if leb max_handlers t.tick_callback_count then (negsuc 0, t) else (
      pos t.tick_callback_count,
      record t {
        tick_callbacks = update t.tick_callbacks t.tick_callback_count callback;
        tick_callback_count = t.tick_callback_count + 1;
      },
    )
