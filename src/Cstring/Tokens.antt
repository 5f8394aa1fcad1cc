-- ===== src/Cstring/Tokens.antt =====
-- `strtok`, called until it returns NULL.
use mathlib.Core.List.{append-nil, append_assoc}
use jmos.Prelude.{
  ℕ, zero, suc, ◌+◌, ◌≤◌, ◌<◌, ◌≡◌, refl, ◌≢◌, ◌⊎◌, inl, inr, true, false, List, [], ◌∷◌, ◌++◌,
  Option, none, some, arith, ◌==◌, if◌then◌else◌, ap, ◌∙◌, sym, subst, length, length-append,
  eq_or_ne,
}
use jmos.Cstring.{Mem, null, strtok}
use jmos.Cstring.Repr.{IsString, IsString-copy, IsString-end}
use jmos.Cstring.Search.{contains}
use jmos.Cstring.Cut.{All}
use jmos.Cstring.Token.{free_of, Token, Over, strtok-Token}

-- The tokens of a string, read byte by byte: `w` is the token that is being read.
abbrev flush : List ℕ → List (List ℕ)
flush [] = []
flush (x ∷ w) = (x ∷ w) ∷ []

abbrev pub tokens : List ℕ → List ℕ → List ℕ → List (List ℕ)
tokens ys w [] = flush w
tokens ys w (x ∷ xs) =
    if contains ys x then flush w ++ tokens ys [] xs else tokens ys (w ++ x ∷ []) xs

-- The pointers that a call with `str`, and then calls with NULL, return in front of the first NULL.
pub strtok_all : ℕ → ℕ → Mem → ℕ → ℕ → ℕ → Option (List ℕ × Mem)
strtok_all zero f m saved str delim = none
strtok_all (suc g) f m saved str delim = elim (strtok f m saved str delim) [
  | none ↦ none
  | some r ↦ elim (r.0 == null) [
    | true ↦ some ([], r.2)
    | false ↦ elim (strtok_all g f r.2 r.1 null delim) [
      | none ↦ none
      | some t ↦ some (r.0 ∷ t.0, t.1)
    ]
  ]
]

tokens_skip : (ys a b : List ℕ) → All (contains ys) a → tokens ys [] (a ++ b) ≡ tokens ys [] b
tokens_skip ys [] b all = refl
tokens_skip ys (x ∷ a) b all = rw (all.0) (tokens_skip ys a b all.1)

tokens_word : (ys v w c : List ℕ) → All (free_of ys) w → tokens ys v (w ++ c) ≡ tokens ys (v ++ w) c
tokens_word ys v [] c all = ap (λ l. tokens ys l c) (sym (append-nil v))
tokens_word ys v (x ∷ w) c all =
    let no : contains ys x ≡ false = ground (arith, all.0) in
    rw no
      (tokens_word ys (v ++ x ∷ []) w c all.1 ∙ ap (λ l. tokens ys l c) (append_assoc v (x ∷ []) w))

flush_some : (w : List ℕ) → 1 ≤ length w → flush w ≡ w ∷ []
flush_some [] lt = absurd (omega (arith, lt))
flush_some (x ∷ w) lt = refl

-- The strings that pointers lead to.
abbrev pub AreStrings : Mem → List ℕ → List (List ℕ) → Type 0
AreStrings m [] [] = true ≡ true
AreStrings m [] (t ∷ ts) = true ≡ false
AreStrings m (p ∷ ps) [] = true ≡ false
AreStrings m (p ∷ ps) (t ∷ ts) = IsString m p t × AreStrings m ps ts

-- One call's token is the first of the tokens.
token_first :
    (ys a w c rest : List ℕ)
    → All (contains ys) a
    → All (free_of ys) w
    → 1 ≤ length w
    → (c ≡ []) × (rest ≡ []) ⊎ ((d : ℕ) × (c ≡ d ∷ rest) × (contains ys d ≡ true))
    → tokens ys [] (a ++ (w ++ c)) ≡ w ∷ tokens ys [] rest
token_first ys a w c rest skipped word some_byte ends =
    tokens_skip ys a (w ++ c) skipped ∙ tokens_word ys [] w c word ∙ elim ends [
      | inl over ↦
          ap (tokens ys w) over.0
          ∙ flush_some w some_byte
          ∙ ap (λ l. w ∷ tokens ys [] l) (sym over.1)
      | inr (d, e, delimiter) ↦
          ap (tokens ys w) e
          ∙ rw delimiter (ap (λ l. l ++ tokens ys [] rest) (flush_some w some_byte))
    ]

tokens_over : (ys xs : List ℕ) → All (contains ys) xs → tokens ys [] xs ≡ []
tokens_over ys xs all = ap (tokens ys []) (sym (append-nil xs)) ∙ tokens_skip ys xs [] all

-- The strings behind the calls are the tokens; NULs and what is in front of the string stay.
pub record Collected (ys : List ℕ) (m : Mem) (p : ℕ) (xs : List ℕ) (o : Option (List ℕ × Mem))
    : Type 0 where
  pub pointers : List ℕ
  pub memory : Mem
  pub result : o ≡ some (pointers, memory)
  pub strings : AreStrings memory pointers (tokens ys [] xs)
  pub kept : (a : ℕ) → (a < p) ⊎ (m a ≡ 0) → memory a ≡ m a

abbrev pub Apart : ℕ → ℕ → ℕ → ℕ → Type 0
Apart r k p n = (i j : ℕ) → i ≤ k → j ≤ n → r + i ≢ p + j

module _ (g f : ℕ) (m : Mem) (saved str p r : ℕ) (xs ys : List ℕ) (real : p ≢ null) where
  abbrev again : Option (ℕ × ℕ × Mem) → Option (List ℕ × Mem)
  again o = elim o [
    | none ↦ none
    | some q ↦ elim (q.0 == null) [
      | true ↦ some ([], q.2)
      | false ↦ elim (strtok_all g f q.2 q.1 null r) [
        | none ↦ none
        | some t ↦ some (q.0 ∷ t.0, t.1)
      ]
    ]
  ]

  none_left :
      Over ys m xs (strtok f m saved str r) → Collected ys m p xs (again (strtok f m saved str r))
  none_left over = record {
    pointers = [];
    memory = m;
    result = ap again over.1;
    strings = subst (AreStrings m []) (sym (tokens_over ys xs over.0)) refl;
    kept = λ a e. refl;
  }

  module _ (t : Token ys m p xs (strtok f m saved str r)) where
    abbrev start : ℕ
    start = p + length t.before

    abbrev stop : ℕ
    stop = start + length t.word

    one_more :
        Collected ys t.memory t.next t.rest (strtok_all g f t.memory t.next null r)
        → stop ≤ t.next
        → Collected ys m p xs (again (strtok f m saved str r))
    one_more c behind =
        let there : (start == null) ≡ false = ground (arith, real) in
        let nul : t.memory stop ≡ 0 = IsString-end t.memory start t.word t.is_word in
        let first : tokens ys [] xs ≡ t.word ∷ tokens ys [] t.rest =
          ap (tokens ys []) t.split
          ∙ token_first ys t.before t.word t.after t.rest t.skipped t.no_delimiter t.some_byte
              (elim t.ends [ inl (e, e', q) ↦ inl (e, e') | inr (d, e, q, q') ↦ inr (d, e, q) ]) in
        let word : IsString c.memory start t.word =
          IsString-copy t.memory c.memory start start t.word t.is_word (λ i le.
            elim (eq_or_ne i (length t.word)) [
              | inl e ↦ c.kept (start + i) (inr (ap (λ k. t.memory (start + k)) e ∙ nul))
              | inr ne ↦ c.kept (start + i) (inl (omega (arith, le, ne, behind)))
            ]) in
        let go : again (some (start, t.next, t.memory)) ≡ some (start ∷ c.pointers, c.memory) =
          ap
            (λ b. elim b [
              | true ↦ some ([], t.memory)
              | false ↦ elim (strtok_all g f t.memory t.next null r) [
                | none ↦ none
                | some t ↦ some (start ∷ t.0, t.1)
              ]
            ])
            there
          ∙ ap (λ o. elim o [ none ↦ none | some t ↦ some (start ∷ t.0, t.1) ]) c.result in
        record {
          pointers = start ∷ c.pointers;
          memory = c.memory;
          result = ap again t.result ∙ go;
          strings = subst (AreStrings c.memory (start ∷ c.pointers)) (sym first) (word, c.strings);
          kept = λ a e. elim e [
            | inl low ↦ c.kept a (inl (omega (arith, low, behind))) ∙ t.kept a (omega (arith, low))
            | inr z ↦ elim (eq_or_ne a stop) [
              | inl at ↦
                  let zero_there : t.memory a ≡ 0 = ap t.memory at ∙ nul in
                  c.kept a (inr zero_there) ∙ zero_there ∙ sym z
              | inr other ↦ c.kept a (inr (t.kept a other ∙ z)) ∙ t.kept a other
            ]
          ];
        }

-- Where the next call goes on, and that the rest is inside the string.
the_rest :
    (m : Mem) (p : ℕ) (xs ys : List ℕ) {o : Option (ℕ × ℕ × Mem)} (t : Token ys m p xs o)
    → length xs ≡ length t.before + (length t.word + length t.after)
    → (n : ℕ) × (t.next ≡ p + length t.before + length t.word + n)
      × (length t.before + length t.word + n + length t.rest ≤ length xs)
the_rest m p xs ys t whole = elim t.ends [
  | inl (e, e', q) ↦
      let none_left : length t.rest ≡ 0 = ap length e' in
      (0, omega (arith, q), omega (arith, whole, none_left))
  | inr (d, e, delimiter, q) ↦
      let one : length t.after ≡ suc (length t.rest) = ap length e in
      (1, q, omega (arith, whole, one))
]

-- With fuel above the lengths, `strtok` of a string, and then of NULL up to its first NULL, returns
-- pointers to exactly the tokens of the string, in order, each a string of its own in the memory at the end,
-- if the string of delimiters lies apart from the string. No NUL and nothing in front of the string changes.
pub strtok_all-tokens :
    (g f : ℕ) (m : Mem) (saved str p r : ℕ) (xs ys : List ℕ)
    → (str ≡ p) ⊎ (str ≡ null) × (saved ≡ p)
    → p ≢ null
    → IsString m p xs
    → IsString m r ys
    → length xs < f
    → length ys < f
    → length xs < g
    → Apart r (length ys) p (length xs)
    → Collected ys m p xs (strtok_all g f m saved str r)
unfolding strtok_all
strtok_all-tokens zero f m saved str p r xs ys from real h k lx ly lg apart =
    absurd (omega (arith, lg))
strtok_all-tokens (suc g) f m saved str p r xs ys from real h k lx ly lg apart =
    elim (strtok-Token f m saved str p r xs ys from real h k lx ly) [
      | inr over ↦ none_left g f m saved str p r xs ys real over
      | inl t ↦
          let b : ℕ = length t.before in
          let w : ℕ = length t.word in
          let whole : length xs ≡ b + (w + length t.after) =
            ap length t.split
            ∙ length-append t.before (t.word ++ t.after)
            ∙ ap (λ n. b + n) (length-append t.word t.after) in
          let (n, next, room) = the_rest m p xs ys t whole in
          one_more g f m saved str p r xs ys real t
            (strtok_all-tokens g f t.memory t.next null t.next r t.rest ys (inr (refl, refl))
              (omega (arith, real, next)) t.is_rest
              (IsString-copy m t.memory r r ys k (λ i le.
                t.kept (r + i) (λ e. apart i (b + w) le (omega (arith, whole)) (omega (arith, e)))))
              (omega (arith, lx, room)) ly (omega (arith, lg, room, t.some_byte))
              (λ i j li lj e.
                apart i (b + w + n + j) li (omega (arith, lj, room)) (omega (arith, e, next))))
            (omega (arith, next))
    ]
