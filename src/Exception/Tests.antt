-- ===== src/Exception/Tests.antt =====
-- A page fault that is reported.
use jmos.Prelude.{ℕ, ◌≡◌, refl, List, some, arith}
use jmos.Serial.Putc.{all_on_wire, Sent}
use jmos.Serial.Tests.{half_busy, half_busy-Drains}
use jmos.Exception.{InterruptRegisters, codes, message, isr_handler}
use jmos.Exception.Layout.{page, fill, values, name_of, Reads}
use jmos.Exception.Report.{WordSized, isr_handler-Sent}

abbrev page_fault : InterruptRegisters
page_fault = record {
  r15 = 0;
  r14 = 0;
  r13 = 0;
  r12 = 0;
  r11 = 0;
  r10 = 0;
  r9 = 9;
  r8 = 8;
  rbp = 0x7000;
  rdi = 1;
  rsi = 2;
  rdx = 3;
  rcx = 4;
  rbx = 5;
  rax = 0xFFFFFFFFFFFFFFFF;
  int_no = 14;
  err_code = 2;
  rip = 0xFFFFFFFF80001234;
  cs = 8;
  rflags = 0x202;
  rsp = 0x7FF0;
  ss = 16;
}

page_fault-WordSized : WordSized page_fault
page_fault-WordSized = record {
  int_no = omega arith;
  err_code = omega arith;
  rip = omega arith;
  cs = omega arith;
  rsp = omega arith;
  rflags = omega arith;
  rax = omega arith;
  rbx = omega arith;
  rcx = omega arith;
  rdx = omega arith;
  rsi = omega arith;
  rdi = omega arith;
  rbp = omega arith;
  r8 = omega arith;
  r9 = omega arith;
}

-- The last vector with a message of its own, and the first without.
message_edges : (message 31 ≡ some "Reserved") × (message 32 ≡ some "Unknown")
message_edges = (refl, refl)

isr_handler-Sent_example :
    (xs : List ℕ) × Sent half_busy
      (all_on_wire xs)
      (isr_handler 2 (λ _. 0) page_fault 0x1000 half_busy)
    × Reads (fill (codes page) (values page_fault 0x1000 (name_of 14))) xs
isr_handler-Sent_example =
    isr_handler-Sent (λ _. 0) page_fault 0x1000 half_busy page_fault-WordSized (omega arith) refl
      (omega arith) half_busy-Drains
