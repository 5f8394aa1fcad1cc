-- ===== src/Cstring/Token.antt =====
-- `strtok`.
use mathlib.Core.List.{append-nil}
use jmos.Prelude.{
  ℕ, ◌+◌, ◌≤◌, ◌<◌, ◌≡◌, refl, ◌≢◌, ◌⊎◌, inl, inr, Bool, true, false, not, List, [], ◌∷◌, ◌++◌,
  Option, none, some, arith, ◌==◌, if◌then◌else◌, ap, ◌∙◌, sym, subst, length, length-append,
  update, update_ne,
}
use jmos.Cstring.{Mem, null, span_loop, strtok_from, strtok}
use jmos.Cstring.Repr.{IsString}
use jmos.Cstring.Search.{contains, leading, span_loop-leading}
use jmos.Cstring.Cut.{All, Stops, Split-leading, IsString-drop, IsString-cut, IsString-beyond}

-- The next token of the string `xs` at `p`: it is behind delimiters only, is not empty and has no delimiter,
-- and is a string of its own in the new memory, as is `rest`, from where the next call goes on. At most
-- the byte behind the token has changed.
pub record Token (ys : List ℕ) (m : Mem) (p : ℕ) (xs : List ℕ) (o : Option (ℕ × ℕ × Mem))
    : Type 0 where
  pub before : List ℕ
  pub word : List ℕ
  pub after : List ℕ
  pub rest : List ℕ
  pub next : ℕ
  pub memory : Mem
  pub result : o ≡ some (p + length before, next, memory)
  pub split : xs ≡ before ++ (word ++ after)
  pub skipped : All (contains ys) before
  pub some_byte : 1 ≤ length word
  pub no_delimiter : All (λ c. not (contains ys c)) word
  pub ends :
      (after ≡ []) × (rest ≡ []) × (next ≡ p + length before + length word)
      ⊎ ((d : ℕ) × (after ≡ d ∷ rest)
          × (contains ys d ≡ true)
          × (next ≡ p + length before + length word + 1))
  pub is_word : IsString memory (p + length before) word
  pub is_rest : IsString memory next rest
  pub kept : (a : ℕ) → a ≢ p + length before + length word → memory a ≡ m a

-- No token is left: there are delimiters only.
abbrev pub Over : List ℕ → Mem → List ℕ → Option (ℕ × ℕ × Mem) → Type 0
Over ys m xs o = All (contains ys) xs × (o ≡ some (null, null, m))

abbrev pub free_of : List ℕ → ℕ → Bool
free_of ys c = not (contains ys c)

abbrev behind_start : ℕ → Mem → ℕ → ℕ → Option ℕ → Option (ℕ × ℕ × Mem)
behind_start f m start delim o = elim o [
  | none ↦ none
  | some end ↦ if m end == 0 then some (start, end, m) else some (start, end + 1, update m end 0)
]

module _ (f : ℕ) (m : Mem) (p r : ℕ) (xs ys a w : List ℕ) (skipped : All (contains ys) a)
    (word : All (free_of ys) w) (nonempty : 1 ≤ length w)
    (span : span_loop f f true m (p + length a) r ≡ some (p + length a + length w)) where
  abbrev start : ℕ
  start = p + length a

  abbrev stop : ℕ
  stop = p + length a + length w

  Token-end :
      (c : List ℕ)
      → xs ≡ a ++ (w ++ c)
      → Stops (free_of ys) c
      → IsString m start (w ++ c)
      → Token ys m p xs (behind_start f m start r (span_loop f f true m start r))
  Token-end [] split ends h =
      let nul : m stop ≡ 0 = IsString-drop m start w [] h in
      let real : (m stop == 0) ≡ true = ground (arith, nul) in
      record {
        before = a;
        word = w;
        after = [];
        rest = [];
        next = stop;
        memory = m;
        result = rw (span, real) refl;
        split = split;
        skipped = skipped;
        some_byte = nonempty;
        no_delimiter = word;
        ends = inl (refl, refl, refl);
        is_word = subst (IsString m start) (append-nil w) h;
        is_rest = nul;
        kept = λ x ne. refl;
      }
  Token-end (d ∷ rest) split ends h =
      let tail = IsString-drop m start w (d ∷ rest) h in
      let real : (m stop == 0) ≡ false = ground (arith, tail.0, tail.1) in
      record {
        before = a;
        word = w;
        after = d ∷ rest;
        rest = rest;
        next = stop + 1;
        memory = update m stop 0;
        result = rw (span, real) refl;
        split = split;
        skipped = skipped;
        some_byte = nonempty;
        no_delimiter = word;
        ends = inr (d, refl, ground (arith, ends), refl);
        is_word = IsString-cut m start stop w (d ∷ rest) refl h;
        is_rest = IsString-beyond m (stop + 1) stop rest (omega arith) tail.2;
        kept = λ x ne. update_ne m stop x 0 (λ e. ne (sym e));
      }

leading_some :
    (g : ℕ → Bool) (x : ℕ) (b : List ℕ) {n : ℕ} → g x ≡ true → leading g (x ∷ b) ≡ n → 1 ≤ n
unfolding leading
leading_some g x b e l = ground (arith, e, l)

strtok-from :
    (f : ℕ) (m : Mem) (saved str p r : ℕ)
    → (str ≡ p) ⊎ (str ≡ null) × (saved ≡ p)
    → p ≢ null
    → strtok f m saved str r ≡ strtok_from f m p r
unfolding strtok
strtok-from f m saved str p r (inl e) real =
    let given : (p == null) ≡ false = ground (arith, real) in rw (strtok, e, given) refl
strtok-from f m saved str p r (inr (z, e)) real =
    let given : (p == null) ≡ false = ground (arith, real) in rw (strtok, z, e, given) refl

Token-start :
    (f : ℕ) (m : Mem) (p r : ℕ) (xs ys a b : List ℕ)
    → xs ≡ a ++ b
    → All (contains ys) a
    → Stops (contains ys) b
    → IsString m (p + length a) b
    → IsString m r ys
    → length b < f
    → length ys < f
    → span_loop f f false m p r ≡ some (p + length a)
    → Token ys m p xs (strtok_from f m p r) ⊎ Over ys m xs (strtok_from f m p r)
unfolding strtok_from
Token-start f m p r xs ys a [] joined skipped stop h k lb ly span =
    let nul : (m (p + length a) == 0) ≡ true = ground (arith, h) in
    inr (
      subst (All (contains ys)) (sym (joined ∙ append-nil a)) skipped,
      rw (strtok_from, span, nul) refl,
    )
Token-start f m p r xs ys a (x ∷ b) joined skipped stop h k lb ly span =
    let real : (m (p + length a) == 0) ≡ false = ground (arith, h.0, h.1) in
    let sp = Split-leading (free_of ys) (x ∷ b) in
    let go : strtok_from f m p r
        ≡ behind_start f m (p + length a) r (span_loop f f true m (p + length a) r) =
      rw (strtok_from, span, real) refl in
    let end : span_loop f f true m (p + length a) r ≡ some (p + length a + length sp.front) =
      span_loop-leading f f true m (p + length a) r (x ∷ b) ys h k ly lb
      ∙ ap (λ n. some (p + length a + n)) sp.count in
    let nonempty : 1 ≤ length sp.front = leading_some (free_of ys) x b (ap not stop) sp.count in
    inl (
      subst (Token ys m p xs) (sym go) (
        Token-end f m p r xs ys a sp.front skipped sp.pass nonempty end sp.back
          (joined ∙ ap (λ l. a ++ l) sp.joined) sp.stop
          (subst (IsString m (p + length a)) sp.joined h)))

-- With fuel above both lengths `strtok` of a string, or of NULL where an earlier call left off in it,
-- ends. It returns a pointer to the first token, the longest run without a delimiter behind the
-- delimiters at the front, ends it with a NUL in place of the next delimiter, remembers what lies behind, and
-- changes no other byte; or, where only delimiters are left, it returns NULL and changes nothing.
pub strtok-Token :
    (f : ℕ) (m : Mem) (saved str p r : ℕ) (xs ys : List ℕ)
    → (str ≡ p) ⊎ (str ≡ null) × (saved ≡ p)
    → p ≢ null
    → IsString m p xs
    → IsString m r ys
    → length xs < f
    → length ys < f
    → Token ys m p xs (strtok f m saved str r) ⊎ Over ys m xs (strtok f m saved str r)
unfolding strtok
strtok-Token f m saved str p r xs ys from real h k lx ly =
    let sp = Split-leading (contains ys) xs in
    let span : span_loop f f false m p r ≡ some (p + length sp.front) =
      span_loop-leading f f false m p r xs ys h k ly lx ∙ ap (λ n. some (p + n)) sp.count in
    let whole : length xs ≡ length sp.front + length sp.back =
      ap length sp.joined ∙ length-append sp.front sp.back in
    let same : strtok f m saved str r ≡ strtok_from f m p r =
      strtok-from f m saved str p r from real in
    subst (λ o. Token ys m p xs o ⊎ Over ys m xs o) (sym same)
      (Token-start f m p r xs ys sp.front sp.back sp.joined sp.pass sp.stop
        (IsString-drop m p sp.front sp.back (subst (IsString m p) sp.joined h)) k
        (omega (arith, lx, whole)) ly span)
