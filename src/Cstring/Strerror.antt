-- ===== src/Cstring/Strerror.antt =====
-- `strerror`.
use Prim.Native.String.{String}
use text.Mathlib.Text.{◌==◌ as str_eq}
use text.Mathlib.TextEquality.{eq_iff}
use jmos.Prelude.{
  ℕ, zero, suc, ◌≤◌, ◌<◌, ◌≡◌, refl, ◌≢◌, ◌↔◌, inl, inr, Bool, true, false, not, ◌&&◌, List, [],
  ◌∷◌, arith, ◌==◌, if◌then◌else◌, ne→==, eq_or_ne, lt_or_le, subst, sym,
}

-- The cases of the switch, with the numbers of errorno.h.
abbrev pub messages : List (ℕ × String)
messages =
    (0, "No error")
    ∷ (1, "Operation not permitted")
    ∷ (2, "No such file or directory")
    ∷ (3, "No such process")
    ∷ (4, "Interrupted system call")
    ∷ (5, "Input/output error")
    ∷ (6, "No such device or address")
    ∷ (7, "Argument list too long")
    ∷ (8, "Exec format error")
    ∷ (9, "Bad file descriptor")
    ∷ (10, "No child processes")
    ∷ (11, "Resource temporarily unavailable")
    ∷ (12, "Out of memory")
    ∷ (13, "Permission denied")
    ∷ (14, "Bad address")
    ∷ (15, "Block device required")
    ∷ (16, "Device or resource busy")
    ∷ (17, "File exists")
    ∷ (18, "Cross-device link")
    ∷ (19, "No such device")
    ∷ (20, "Not a directory")
    ∷ (21, "Is a directory")
    ∷ (22, "Invalid argument")
    ∷ (23, "Too many open files in system")
    ∷ (24, "Too many open files")
    ∷ (25, "Inappropriate ioctl for device")
    ∷ (26, "Text file busy")
    ∷ (27, "File too large")
    ∷ (28, "No space left on device")
    ∷ (29, "Illegal seek")
    ∷ (30, "Read-only file system")
    ∷ (31, "Too many links")
    ∷ (32, "Broken pipe")
    ∷ (33, "Math argument out of domain of func")
    ∷ (34, "Math result not representable")
    ∷ []

abbrev pub unknown : String
unknown = "Unknown error"

-- `switch (errnum)`; `errnum` is the bit pattern of an `int`.
unfoldable pub switch : List (ℕ × String) → ℕ → String
switch [] errnum = unknown
switch ((e, message) ∷ rest) errnum = if e == errnum then message else switch rest errnum

unfoldable pub strerror : ℕ → String
unfolding switch
strerror errnum = switch messages errnum

-- A message for every number up to `last`, none of them the default one, no two alike.
distinct_row : ℕ → ℕ → Bool
distinct_row e zero = true
distinct_row e (suc d) = not (str_eq (strerror e) (strerror d)) && distinct_row e d

distinct : ℕ → Bool
distinct zero = true
distinct (suc e) = not (str_eq (strerror e) unknown) && distinct_row e e && distinct e

table : distinct 35 ≡ true
unfolding distinct distinct_row strerror
table = refl

abbrev Below : ℕ → List (ℕ × String) → Type 0
Below n [] = Unit
Below n ((e, message) ∷ rest) = (e < n) × Below n rest

switch-miss : (n e : ℕ) (rows : List (ℕ × String)) → Below n rows → n ≤ e → switch rows e ≡ unknown
unfolding switch
switch-miss n e [] h le = refl
switch-miss n e ((k, message) ∷ rest) h le =
    rw (ne→== k e (omega (arith, h.0))) (switch-miss n e rest h.1 le)

and_true : (a b : Bool) → (a && b) ≡ true → (a ≡ true) × (b ≡ true)
and_true a b h = ground arith

ne_of_not : (s t : String) → not (str_eq s t) ≡ true → s ≢ t
ne_of_not s t h e = absurd (cc ((eq_iff s t).1 e, flip (str_eq s t) h))
  where
    flip : (b : Bool) → not b ≡ true → b ≡ false
    flip b k = ground arith

row-ne : (e n d : ℕ) → distinct_row e n ≡ true → d < n → strerror e ≢ strerror d
unfolding distinct_row
row-ne e zero d h lt = absurd (omega arith)
row-ne e (suc n) d h lt = elim (eq_or_ne d n) [
  | inl same ↦ subst (λ k. strerror e ≢ strerror k) (sym same) (ne_of_not _ _ (and_true _ _ h).0)
  | inr other ↦ row-ne e n d (and_true _ _ h).1 (omega arith)
]

distinct-ne :
    (n e : ℕ)
    → distinct n ≡ true
    → e < n
    → (strerror e ≢ unknown) × ((d : ℕ) → d < e → strerror e ≢ strerror d)
unfolding distinct
distinct-ne zero e h lt = absurd (omega arith)
distinct-ne (suc n) e h lt = elim (eq_or_ne e n) [
  | inl same ↦
      let parts = and_true _ _ (and_true _ _ h).0 in
      subst (λ k. (strerror k ≢ unknown) × ((d : ℕ) → d < k → strerror k ≢ strerror d)) (sym same)
        (ne_of_not _ _ parts.0, λ d p. row-ne n n d parts.1 p)
  | inr other ↦ distinct-ne n e (and_true _ _ h).1 (omega arith)
]

strerror-default : (e : ℕ) → 34 < e → strerror e ≡ unknown
unfolding strerror
strerror-default e past = switch-miss 35 e messages (omega arith) (omega arith)

-- `strerror` gives the default message exactly to the numbers above ERANGE, and no two numbers up
-- to ERANGE share a message.
pub strerror_messages :
    (e : ℕ) → (strerror e ≡ unknown ↔ 34 < e) × ((d : ℕ) → d < e → e ≤ 34 → strerror e ≢ strerror d)
strerror_messages e = elim (lt_or_le 34 e) [
  | inl past ↦ (((λ _. past), (λ _. strerror-default e past)), λ d lt le. absurd (omega arith))
  | inr known ↦
      let h = distinct-ne 35 e table (omega arith) in
      (((λ q. absurd (h.0 q)), (λ lt. absurd (omega arith))), λ d lt le. h.1 d lt)
]
