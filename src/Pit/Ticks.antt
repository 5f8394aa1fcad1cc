-- ===== src/Pit/Ticks.antt =====
-- Registration of callbacks, and what a tick does.
use jmos.Prelude.{
  ℕ, zero, suc, ◌+◌, ◌%◌, ◌^◌, ◌≤◌, ◌<◌, ◌≡◌, ◌≢◌, false, refl, List, [], ◌∷◌, ◌++◌, arith, ◌==◌,
  if◌then◌else◌, length, length-append, ◌∙◌, ap, subst, sym,
}
use jmos.Prelude.Int.{negsuc}
use jmos.Interrupt.{Event, outb, call, Machine, emit}
use jmos.Pit.{Pit, call_from, timer_callback, register_timer_callback}

-- The registrations of a list of callbacks, in order.
unfoldable pub register_all : List ℕ → Pit → Pit
register_all [] t = t
register_all (c ∷ cs) t = register_all cs (register_timer_callback c t).1

-- The calls of callbacks, the last first; NULL is not called.
unfoldable pub calls : List ℕ → List Event → List Event
calls [] es = es
calls (c ∷ cs) es = calls cs (if c == 0 then es else call c ∷ es)

-- The timer's table holds exactly these callbacks, in order, from place `i` on.
abbrev pub Holds : Pit → ℕ → List ℕ → Type 0
Holds t i [] = t.tick_callback_count ≡ i
Holds t i (c ∷ cs) = (t.tick_callbacks i ≡ c) × Holds t (i + 1) cs

Holds-count : (t : Pit) (i : ℕ) (cs : List ℕ) → Holds t i cs → t.tick_callback_count ≡ i + length cs
Holds-count t i [] h = omega (arith, h)
Holds-count t i (c ∷ cs) h = omega (arith, Holds-count t (i + 1) cs h.1)

-- One more callback goes to the end.
Holds-register :
    (t : Pit) (i c : ℕ) (cs : List ℕ)
    → Holds t i cs
    → t.tick_callback_count < 16
    → Holds (register_timer_callback c t).1 i (cs ++ c ∷ [])
unfolding register_timer_callback
Holds-register t i c [] h room = (ground arith, ground arith)
Holds-register t i c (d ∷ cs) h room =
    (ground (arith, Holds-count t (i + 1) cs h.1, h.0), Holds-register t (i + 1) c cs h.1 room)

called :
    (c : ℕ) (s : Machine)
    → (if c == 0 then s else emit (call c) s).events
      ≡ (if c == 0 then s.events else call c ∷ s.events)
called c s = ground arith

call_from-calls :
    (cs : List ℕ) (i n tick : ℕ) (t : Pit) (s : Machine)
    → Holds t i cs
    → n ≡ length cs
    → (call_from n i (record t { tick = tick }) s).events ≡ calls cs s.events
unfolding call_from calls
call_from-calls [] i zero tick t s h e = refl
call_from-calls [] i (suc n) tick t s h e = absurd (omega (arith, e))
call_from-calls (c ∷ cs) i zero tick t s h e = absurd (omega (arith, e))
call_from-calls (c ∷ cs) i (suc n) tick t s h e =
    rw (call_from, h.0)
      (call_from-calls cs (i + 1) n tick t (if c == 0 then s else emit (call c) s) h.1
          (omega (arith, e))
        ∙ ap (λ q. calls cs q) (called c s))

append_nil : (ds : List ℕ) → ds ++ [] ≡ ds
append_nil [] = refl
append_nil (d ∷ ds) = ap (λ q. d ∷ q) (append_nil ds)

append_one : (ds cs : List ℕ) (c : ℕ) → (ds ++ c ∷ []) ++ cs ≡ ds ++ c ∷ cs
append_one [] cs c = refl
append_one (d ∷ ds) cs c = ap (λ q. d ∷ q) (append_one ds cs c)

register_all-Holds :
    (cs ds : List ℕ) (t : Pit)
    → Holds t 0 ds
    → length ds + length cs ≤ 16
    → Holds (register_all cs t) 0 (ds ++ cs) × ((register_all cs t).tick ≡ t.tick)
unfolding register_all
register_all-Holds [] ds t h room = (subst (λ q. Holds t 0 q) (sym (append_nil ds)) h, refl)
register_all-Holds (c ∷ cs) ds t h room =
    let space : t.tick_callback_count < 16 = omega (arith, Holds-count t 0 ds h) in
    let next =
      register_all-Holds cs (ds ++ c ∷ []) (register_timer_callback c t).1
        (Holds-register t 0 c ds h space) (omega (arith, length-append ds (c ∷ []))) in
    (
      subst (λ q. Holds (register_all cs (register_timer_callback c t).1) 0 q) (append_one ds cs c)
          next.0,
      next.1 ∙ unfold register_timer_callback in ground arith,
    )

abbrev pub NoneNull : List ℕ → Type 0
NoneNull [] = Unit
NoneNull (c ∷ cs) = (c ≢ 0) × NoneNull cs

-- The events of the calls, the last first.
unfoldable pub all_called : List ℕ → List Event → List Event
all_called [] es = es
all_called (c ∷ cs) es = all_called cs (call c ∷ es)

calls_lem : (cs : List ℕ) (es : List Event) → NoneNull cs → calls cs es ≡ all_called cs es
unfolding calls all_called
calls_lem [] es real = refl
calls_lem (c ∷ cs) es real =
    let there : (c == 0) ≡ false = ground (arith, real.0) in
    rw there (calls_lem cs (call c ∷ es) real.1)

-- After up to 16 registrations at a fresh timer, a tick counts one, calls the registered callbacks in
-- the order of their registration, each once, and then acknowledges the interrupt. None of them is NULL.
-- After 16 of them a further registration is refused with -1 and changes nothing.
pub timer_callback_registered :
    (cs : List ℕ) (t : Pit) (s : Machine)
    → t.tick_callback_count ≡ 0
    → length cs ≤ 16
    → NoneNull cs
    → ((timer_callback (register_all cs t) s).0.tick ≡ (t.tick + 1) % 2 ^ 128)
      × ((timer_callback (register_all cs t) s).1.events ≡ outb 0x20 0x20 ∷ all_called cs s.events)
      × (16 ≤ length cs
          → (c : ℕ) → c ≢ 0
          → register_timer_callback c (register_all cs t) ≡ (negsuc 0, register_all cs t))
unfolding timer_callback
timer_callback_registered cs t s fresh room real =
    let t' : Pit = register_all cs t in
    let r = register_all-Holds cs [] t fresh (omega (arith, room)) in
    let count : t'.tick_callback_count ≡ length cs = omega (arith, Holds-count t' 0 cs r.0) in
    (
      ap (λ q. (q + 1) % 2 ^ 128) r.1,
      ap (λ q. outb 0x20 0x20 ∷ q)
          (call_from-calls cs 0 t'.tick_callback_count _ t' s r.0 count
            ∙ calls_lem cs s.events real),
      λ full c nz. unfold register_timer_callback in ground (arith, count),
    )
