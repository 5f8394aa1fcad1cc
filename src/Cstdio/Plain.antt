-- ===== src/Cstdio/Plain.antt =====
-- `vsprintf` of a format without conversions.
use jmos.Prelude.{
  ℕ, zero, suc, ◌+◌, ◌<◌, ◌≡◌, refl, ◌≢◌, ◌⊎◌, true, false, List, [], ◌∷◌, Option, some, arith,
  ◌==◌, ap, ◌∙◌, length, update, update_self, update_ne,
}
use jmos.Cstring.{Mem}
use jmos.Cstring.Repr.{IsString, IsString-copy}
use jmos.Cstdio.{vsprintf_loop, vsprintf}

-- `n` bytes of the memory.
abbrev pub bytes_at : Mem → ℕ → ℕ → List ℕ
bytes_at m p zero = []
bytes_at m p (suc n) = m p ∷ bytes_at m (p + 1) n

-- A format without conversions.
abbrev pub Plain : List ℕ → Type 0
Plain [] = true ≡ true
Plain (x ∷ xs) = (x ≢ 37) × Plain xs

-- The text of a format stands in the buffer.
pub record Copied (m : Mem) (buffer n : ℕ) (xs : List ℕ) (o : Option (ℕ × Mem)) : Type 0 where
  pub memory : Mem
  pub result : o ≡ some (n + length xs, memory)
  pub text : bytes_at memory buffer (length xs) ≡ xs
  pub kept : (a : ℕ) → a < buffer → memory a ≡ m a

vsprintf_loop-Copied :
    (g : ℕ) (m : Mem) (buffer format n : ℕ) (args xs : List ℕ)
    → IsString m format xs
    → Plain xs
    → length xs < g
    → (buffer + length xs < format) ⊎ (format + length xs < buffer)
    → Copied m buffer n xs (vsprintf_loop g m buffer format n args)
unfolding vsprintf_loop
vsprintf_loop-Copied zero m buffer format n args xs h plain lt apart = absurd (omega (arith, lt))
vsprintf_loop-Copied (suc g) m buffer format n args [] h plain lt apart =
    let nul : (m format == 0) ≡ true = ground (arith, h) in
    record {
      memory = update m buffer 0;
      result = rw (vsprintf_loop, nul) (ap (λ k. some (k, update m buffer 0)) (omega arith));
      text = refl;
      kept = λ a l. update_ne m buffer a 0 (omega (arith, l));
    }
vsprintf_loop-Copied (suc g) m buffer format n args (x ∷ xs) h plain lt apart =
    let more : (m format == 0) ≡ false = ground (arith, h.0, h.1) in
    let other : (m format == 37) ≡ false = ground (arith, h.0, plain.0) in
    let m1 : Mem = update m buffer (m format) in
    let c =
      vsprintf_loop-Copied g m1 (buffer + 1) (format + 1) (n + 1) args xs
        (IsString-copy m m1 (format + 1) (format + 1) xs h.2
          (λ i le. update_ne m buffer (format + 1 + i) (m format) (omega (arith, le, apart))))
        plain.1 (omega (arith, lt)) (omega (arith, apart)) in
    record {
      memory = c.memory;
      result =
          rw (vsprintf_loop, more, other) (c.result ∙ ap (λ k. some (k, c.memory)) (omega arith));
      text =
          ap (λ y. y ∷ bytes_at c.memory (buffer + 1) (length xs))
            (c.kept buffer (omega arith) ∙ update_self m buffer (m format) ∙ h.0)
          ∙ ap (λ l. x ∷ l) c.text;
      kept =
          λ a l. c.kept a (omega (arith, l)) ∙ update_ne m buffer a (m format) (omega (arith, l));
    }

pub vsprintf-Copied :
    (g : ℕ) (m : Mem) (buffer format : ℕ) (args xs : List ℕ)
    → IsString m format xs
    → Plain xs
    → length xs < g
    → (buffer + length xs < format) ⊎ (format + length xs < buffer)
    → Copied m buffer 0 xs (vsprintf g m buffer format args)
unfolding vsprintf
vsprintf-Copied g m buffer format args xs h plain fuel apart =
    vsprintf_loop-Copied g m buffer format 0 args xs h plain fuel apart
