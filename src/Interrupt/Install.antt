-- ===== src/Interrupt/Install.antt =====
-- What `isr_install` and `init_syscalls` leave in the table.
use jmos.Prelude.{
  ℕ, zero, suc, ◌+◌, ◌*◌, ◌/◌, ◌%◌, ◌^◌, ◌≤◌, ◌<◌, ◌≡◌, refl, ◌≢◌, Bool, false, ◌&&◌, ◌∷◌, arith,
  ltb, leb, ◌==◌, if◌then◌else◌, ◌∙◌, subst, sym,
}
use jmos.Interrupt.{
  Gate, outb, lidt, Machine, gate, set_idt_gate_descriptor, load_idt, install_gates, remap_pic,
  isr_install, init_syscalls,
}

-- The address that an entry holds, and its bit that says that it is in use.
abbrev pub target : Gate → ℕ
target e = e.offset_1 + 2 ^ 16 * e.offset_2 + 2 ^ 32 * e.offset_3

abbrev pub present : Gate → Bool
present e = e.flags / 128 % 2 == 1

gate-target : (a ss ist flags : ℕ) → a < 2 ^ 64 → target (gate a ss ist flags) ≡ a
unfolding gate
gate-target a ss ist flags h = omega arith

absent :
    (a : ℕ)
    → a < 2 ^ 64
    → let e = gate a 0x08 0xE 0 in
      (target e ≡ a) × (e.segment_selector ≡ 0x08) × (present e ≡ false)
absent a h = (gate-target a 0x08 0xE 0 h, unfold gate in refl, unfold gate in refl)

install_gates_lem :
    (count n : ℕ) (stub : ℕ → ℕ) (s : Machine) (k : ℕ)
    → (install_gates count n stub s).idt k
      ≡ (if leb n k && ltb k (n + count) then gate (stub k) 0x08 0xE 0 else s.idt k)
unfolding install_gates set_idt_gate_descriptor
install_gates_lem zero n stub s k = ground arith
install_gates_lem (suc count) n stub s k = ground (
  arith,
  install_gates_lem count (n + 1) stub (set_idt_gate_descriptor n (stub n) 0x08 0xE 0 s) k,
)

install_gates-events :
    (count n : ℕ) (stub : ℕ → ℕ) (s : Machine)
    → ((install_gates count n stub s).events ≡ s.events)
      × ((install_gates count n stub s).interrupt_handlers ≡ s.interrupt_handlers)
unfolding install_gates set_idt_gate_descriptor
install_gates-events zero n stub s = (refl, refl)
install_gates-events (suc count) n stub s =
    install_gates-events count (n + 1) stub (set_idt_gate_descriptor n (stub n) 0x08 0xE 0 s)

-- `isr_install` makes the entries of the vectors 0 to 47 hold the addresses of their stubs with the
-- kernel's code segment, leaves the other entries and the handlers alone, maps the interrupt
-- controllers to the vectors 32 to 47 with all interrupts unmasked, and loads the table last. None of
-- the entries that it makes is marked present.
pub isr_install_lem :
    (stub : ℕ → ℕ) (s : Machine)
    → ((k : ℕ) → stub k < 2 ^ 64)
    → ((k : ℕ)
        → k < 48
        → (target ((isr_install stub s).idt k) ≡ stub k)
          × (((isr_install stub s).idt k).segment_selector ≡ 0x08)
          × (present ((isr_install stub s).idt k) ≡ false))
      × ((k : ℕ) → 48 ≤ k → (isr_install stub s).idt k ≡ s.idt k)
      × ((isr_install stub s).interrupt_handlers ≡ s.interrupt_handlers)
      × ((isr_install stub s).events
          ≡ lidt 4095
            ∷ outb 0xA1 0x00
            ∷ outb 0x21 0x00
            ∷ outb 0xA1 0x01
            ∷ outb 0x21 0x01
            ∷ outb 0xA1 0x02
            ∷ outb 0x21 0x04
            ∷ outb 0xA1 0x28
            ∷ outb 0x21 0x20
            ∷ outb 0xA0 0x11
            ∷ outb 0x20 0x11
            ∷ s.events)
unfolding isr_install load_idt remap_pic
isr_install_lem stub s small =
    let s1 : Machine = install_gates 32 0 stub s in
    let s2 : Machine = remap_pic s1 in
    let entry : (k : ℕ)
        → (isr_install stub s).idt k ≡ (if ltb k 48 then gate (stub k) 0x08 0xE 0 else s.idt k) =
      λ k. ground (arith, install_gates_lem 16 32 stub s2 k, install_gates_lem 32 0 stub s k) in
    (
      (λ k lt.
          subst (λ e. (target e ≡ stub k) × (e.segment_selector ≡ 0x08) × (present e ≡ false))
            {x = gate (stub k) 0x08 0xE 0} (sym (entry k ∙ ground arith))
            (absent (stub k) (small k))),
      (λ k le. ground (arith, entry k)),
      (install_gates-events 16 32 stub s2).1 ∙ (install_gates-events 32 0 stub s).1,
      cc ((install_gates-events 16 32 stub s2).0, (install_gates-events 32 0 stub s).0),
    )

-- The entry that `init_syscalls` makes for vector 128 holds the handler's address, but is not marked
-- present either; the other entries stay.
pub init_syscalls_lem :
    (a : ℕ) (s : Machine)
    → a < 2 ^ 64
    → (target ((init_syscalls a s).idt 0x80) ≡ a)
      × (present ((init_syscalls a s).idt 0x80) ≡ false)
      × ((k : ℕ) → k ≢ 0x80 → (init_syscalls a s).idt k ≡ s.idt k)
unfolding init_syscalls set_idt_gate_descriptor
init_syscalls_lem a s h = (gate-target a 0x08 0 0xE h, unfold gate in refl, λ k ne. ground arith)
