-- ===== src/Console/Draw.antt =====
-- What the drawing of a character changes.
use jmos.Prelude.Words.{add64, mul64}
use jmos.Prelude.{
  leb, ltb, lt_or_le, ◌⊎◌, ◌-◌, ℕ, zero, suc, ◌+◌, ◌*◌, ◌/◌, ◌%◌, ◌^◌, ◌≤◌, ◌<◌, ◌≡◌, refl, ◌≢◌,
  inl, inr, Bool, true, false, some, arith, ◌==◌, if◌then◌else◌, eq_or_ne, Bool-cases, ap, ◌∙◌, sym,
  subst,
}
use jmos.Bootinfo.{LimineFramebuffer}
use jmos.Font.{FontState, psf2_glyph_width, psf2_glyph_height, psf2_get_bitmap_for_glyph}
use jmos.Console.{
  paint, TuiData, widen, pixel_at, pixel_on, draw_row, draw_rows, advance, put_char, Console,
}

abbrev pub white : ℕ
white = 0xFF

-- A byte that is one of the four from `p` on.
abbrev pub Inside : ℕ → ℕ → Type 0
Inside p a = (p ≤ a) × (a < p + 4)

-- A byte that is not one of the four from `p` on.
abbrev pub Outside : ℕ → ℕ → Type 0
Outside p a = (a < p) ⊎ (p + 4 ≤ a)

paint-Inside : (px : ℕ → ℕ) (p a : ℕ) → Inside p a → paint px p a ≡ white
unfolding paint
paint-Inside px p a there = ground (arith, there)

paint-Outside : (px : ℕ → ℕ) (p a : ℕ) → Outside p a → paint px p a ≡ px a
unfolding paint
paint-Outside px p a out = ground (arith, out)

paint-white : (px : ℕ → ℕ) (p a : ℕ) → px a ≡ white → paint px p a ≡ white
unfolding paint
paint-white px p a e = ground (arith, e)

module _ (fb : LimineFramebuffer) (fs : FontState) (bitmap w ox oy : ℕ) where
  abbrev on : ℕ → ℕ → Bool
  on x y = pixel_on fs bitmap w x y

  abbrev at : ℕ → ℕ → ℕ
  at x y = pixel_at fb ox oy x y

  abbrev row : ℕ → ℕ → ℕ → (ℕ → ℕ) → ℕ → ℕ
  row n x y px = draw_row n x y fb fs bitmap w ox oy px

  abbrev rows : ℕ → ℕ → (ℕ → ℕ) → ℕ → ℕ
  rows n y px = draw_rows n y fb fs bitmap w ox oy px

  abbrev dot : ℕ → ℕ → (ℕ → ℕ) → ℕ → ℕ
  dot x y px = if on x y then paint px (at x y) else px

  dot-white : (x y a : ℕ) (px : ℕ → ℕ) → px a ≡ white → dot x y px a ≡ white
  dot-white x y a px e = elim (Bool-cases (on x y)) [
    | inr off ↦ rw off e
    | inl lit ↦ rw lit (paint-white px (at x y) a e)
  ]

  dot_lit : (x y a : ℕ) (px : ℕ → ℕ) → on x y ≡ true → Inside (at x y) a → dot x y px a ≡ white
  dot_lit x y a px lit there = rw lit (paint-Inside px (at x y) a there)

  dot_kept : (x y a : ℕ) (px : ℕ → ℕ) → (on x y ≡ true → Outside (at x y) a) → dot x y px a ≡ px a
  dot_kept x y a px far = elim (Bool-cases (on x y)) [
    | inr off ↦ rw off refl
    | inl lit ↦ rw lit (paint-Outside px (at x y) a (far lit))
  ]

  row-white : (n x y a : ℕ) (px : ℕ → ℕ) → px a ≡ white → row n x y px a ≡ white
  unfolding draw_row
  row-white zero x y a px e = e
  row-white (suc n) x y a px e = row-white n (x + 1) y a (dot x y px) (dot-white x y a px e)

  row_lit :
      (n x y k a : ℕ) (px : ℕ → ℕ)
      → x ≤ k
      → k < x + n
      → on k y ≡ true
      → Inside (at k y) a
      → row n x y px a ≡ white
  unfolding draw_row
  row_lit zero x y k a px lo hi lit there = absurd (omega (arith, lo, hi))
  row_lit (suc n) x y k a px lo hi lit there = elim (eq_or_ne x k) [
    | inl e ↦ row-white n (x + 1) y a (dot x y px) (
        dot_lit x y a px (subst (λ j. on j y ≡ true) (sym e) lit)
          (subst (λ j. Inside (at j y) a) (sym e) there))
    | inr ne ↦
        row_lit n (x + 1) y k a (dot x y px) (omega (arith, lo, ne)) (omega (arith, hi)) lit there
  ]

  row_kept :
      (n x y a : ℕ) (px : ℕ → ℕ)
      → ((k : ℕ) → x ≤ k → k < x + n → on k y ≡ true → Outside (at k y) a)
      → row n x y px a ≡ px a
  unfolding draw_row
  row_kept zero x y a px far = refl
  row_kept (suc n) x y a px far =
      row_kept n (x + 1) y a (dot x y px) (λ k lo hi. far k (omega (arith, lo)) (omega (arith, hi)))
      ∙ dot_kept x y a px (far x (omega arith) (omega arith))

  rows-white : (n y a : ℕ) (px : ℕ → ℕ) → px a ≡ white → rows n y px a ≡ white
  unfolding draw_rows
  rows-white zero y a px e = e
  rows-white (suc n) y a px e = rows-white n (y + 1) a (row w 0 y px) (row-white w 0 y a px e)

  rows_lit :
      (n y x k a : ℕ) (px : ℕ → ℕ)
      → x < w
      → y ≤ k
      → k < y + n
      → on x k ≡ true
      → Inside (at x k) a
      → rows n y px a ≡ white
  unfolding draw_rows
  rows_lit zero y x k a px lx lo hi lit there = absurd (omega (arith, lo, hi))
  rows_lit (suc n) y x k a px lx lo hi lit there = elim (eq_or_ne y k) [
    | inl e ↦ rows-white n (y + 1) a (row w 0 y px) (
        row_lit w 0 y x a px (omega arith) (omega (arith, lx))
          (subst (λ j. on x j ≡ true) (sym e) lit) (subst (λ j. Inside (at x j) a) (sym e) there))
    | inr ne ↦
        rows_lit n (y + 1) x k a (row w 0 y px) lx (omega (arith, lo, ne)) (omega (arith, hi)) lit
          there
  ]

  rows_kept :
      (n y a : ℕ) (px : ℕ → ℕ)
      → ((x k : ℕ) → x < w → y ≤ k → k < y + n → on x k ≡ true → Outside (at x k) a)
      → rows n y px a ≡ px a
  unfolding draw_rows
  rows_kept zero y a px far = refl
  rows_kept (suc n) y a px far =
      rows_kept n (y + 1) a (row w 0 y px)
        (λ x k lx lo hi. far x k lx (omega (arith, lo)) (omega (arith, hi)))
      ∙ row_kept w 0 y a px (λ x lo hi. far x y (omega (arith, hi)) (omega arith) (omega arith))

-- The bitmap of a `char`, which is signed.
abbrev pub bitmap_of : Console → ℕ → ℕ
bitmap_of s c = psf2_get_bitmap_for_glyph s.fonts (c + (if ltb 127 c then 2 ^ 32 - 256 else 0))

-- A bit of the bitmap: the first pixel is the highest bit of a byte.
abbrev pub glyph_on : Console → ℕ → ℕ → ℕ → Bool
glyph_on s c x y =
    s.fonts.heap.bytes (bitmap_of s c + (y * psf2_glyph_width s.fonts + x) % 2 ^ 32 / 8)
      / 2 ^ (7 - x % 8)
      % 2
    == 1

-- The address of a pixel of the glyph at the cursor, by its line and its column on the screen.
abbrev pub glyph_at : LimineFramebuffer → Console → ℕ → ℕ → ℕ
glyph_at fb s x y =
    (fb.address
      + (s.tui.cursor_y * psf2_glyph_height s.fonts + y) % 2 ^ 32 * fb.pitch
      + (s.tui.cursor_x * psf2_glyph_width s.fonts + x) % 2 ^ 32 * (fb.bpp / 8) % 2 ^ 32)
    % 2 ^ 64

-- The place behind the cursor: the next column, or the start of the next line.
abbrev pub next_place : ℕ → TuiData → TuiData
next_place columns t =
    if ltb ((t.cursor_x + 1) % 2 ^ 32) columns
    then record t { cursor_x = (t.cursor_x + 1) % 2 ^ 32 }
    else record t { cursor_x = 0; cursor_y = (t.cursor_y + 1) % 2 ^ 32 }

widen_lem : (c : ℕ) → c < 256 → widen c ≡ c + (if ltb 127 c then 2 ^ 32 - 256 else 0)
widen_lem c byte = ground (arith, byte)

pixel_at_lem :
    (fb : LimineFramebuffer) (s : Console) (x y : ℕ)
    → pixel_at fb
        (s.tui.cursor_x * psf2_glyph_width s.fonts % 2 ^ 32)
        (s.tui.cursor_y * psf2_glyph_height s.fonts % 2 ^ 32)
        x
        y
      ≡ glyph_at fb s x y
pixel_at_lem fb s x y =
    let cx : ℕ = s.tui.cursor_x * psf2_glyph_width s.fonts in
    let cy : ℕ = s.tui.cursor_y * psf2_glyph_height s.fonts in
    let column : (cx % 2 ^ 32 + x) % 2 ^ 32 ≡ (cx + x) % 2 ^ 32 = omega arith in
    let line : (cy % 2 ^ 32 + y) % 2 ^ 32 ≡ (cy + y) % 2 ^ 32 = omega arith in
    ap
      (λ l.
        add64 (add64 fb.address (mul64 l fb.pitch))
          ((cx % 2 ^ 32 + x) % 2 ^ 32 * (fb.bpp / 8) % 2 ^ 32))
      line
    ∙ ap
        (λ k.
          add64 (add64 fb.address (mul64 ((cy + y) % 2 ^ 32) fb.pitch)) (k * (fb.bpp / 8) % 2 ^ 32))
        column
    ∙ omega arith

advance_lem : (columns : ℕ) (t : TuiData) → advance columns t ≡ next_place columns t
advance_lem columns t = elim (lt_or_le ((t.cursor_x + 1) % 2 ^ 32) columns) [
  | inl lt ↦
      let yes : ltb ((t.cursor_x + 1) % 2 ^ 32) columns ≡ true = ground (arith, lt) in
      let no : leb columns ((t.cursor_x + 1) % 2 ^ 32) ≡ false = ground (arith, lt) in
      rw (yes, no) refl
  | inr le ↦
      let no : ltb ((t.cursor_x + 1) % 2 ^ 32) columns ≡ false = ground (arith, le) in
      let yes : leb columns ((t.cursor_x + 1) % 2 ^ 32) ≡ true = ground (arith, le) in
      rw (yes, no) refl
]

-- A character is drawn: the pixels of its bitmap are white, all other bytes are as they were.
pub record Drawn (fb : LimineFramebuffer) (c : ℕ) (s s' : Console) : Type 0 where
  pub lit :
      (x y a : ℕ)
      → x < psf2_glyph_width s.fonts
      → y < psf2_glyph_height s.fonts
      → glyph_on s c x y ≡ true
      → Inside (glyph_at fb s x y) a
      → s'.pixels a ≡ white
  pub kept :
      (a : ℕ)
      → ((x y : ℕ)
          → x < psf2_glyph_width s.fonts
          → y < psf2_glyph_height s.fonts
          → glyph_on s c x y ≡ true
          → Outside (glyph_at fb s x y) a)
      → s'.pixels a ≡ s.pixels a
  pub fonts : s'.fonts ≡ s.fonts
  pub tui : s'.tui ≡ next_place (fb.width / psf2_glyph_width s.fonts) s.tui
  pub device : (s'.data_at ≡ s.data_at) × (s'.methods ≡ s.methods)

-- The state behind a character, in a font with a width.
abbrev pub drawn : LimineFramebuffer → ℕ → Console → Console
drawn fb c s = record s {
  pixels =
      draw_rows (psf2_glyph_height s.fonts) 0 fb s.fonts
        (psf2_get_bitmap_for_glyph s.fonts (widen c)) (psf2_glyph_width s.fonts)
        (s.tui.cursor_x * psf2_glyph_width s.fonts % 2 ^ 32)
        (s.tui.cursor_y * psf2_glyph_height s.fonts % 2 ^ 32) s.pixels;
  tui = advance (fb.width / psf2_glyph_width s.fonts) s.tui;
}

-- A byte whose character the font has.
abbrev pub Shown : Console → ℕ → Type 0
Shown s c = (c < 256) × (bitmap_of s c ≢ 0)

pub put_char-drawn :
    (fb : LimineFramebuffer) (c : ℕ) (s : Console)
    → psf2_glyph_width s.fonts ≢ 0
    → Shown s c
    → put_char fb c s ≡ some (drawn fb c s)
unfolding put_char
put_char-drawn fb c s nz shown =
    let real : (psf2_glyph_width s.fonts == 0) ≡ false = ground (arith, nz) in
    let there : (psf2_get_bitmap_for_glyph s.fonts (widen c) == 0) ≡ false =
      ap (λ i. psf2_get_bitmap_for_glyph s.fonts i == 0) (widen_lem c shown.0)
      ∙ ground (arith, shown.1) in
    rw (real, there) refl

pub drawn-Drawn :
    (fb : LimineFramebuffer) (c : ℕ) (s : Console) → c < 256 → Drawn fb c s (drawn fb c s)
drawn-Drawn fb c s byte =
    let w : ℕ = psf2_glyph_width s.fonts in
    let ox : ℕ = s.tui.cursor_x * w % 2 ^ 32 in
    let oy : ℕ = s.tui.cursor_y * psf2_glyph_height s.fonts % 2 ^ 32 in
    let bitmap : ℕ = psf2_get_bitmap_for_glyph s.fonts (widen c) in
    let same : bitmap ≡ bitmap_of s c = ap (psf2_get_bitmap_for_glyph s.fonts) (widen_lem c byte) in
    record {
      lit = λ x y a lx ly on there.
          rows_lit fb s.fonts bitmap w ox oy (psf2_glyph_height s.fonts) 0 x y a s.pixels lx
            (omega arith) (omega (arith, ly)) (ap (λ b. pixel_on s.fonts b w x y) same ∙ on)
            (subst (λ p. Inside p a) (sym (pixel_at_lem fb s x y)) there);
      kept = λ a far.
          rows_kept fb s.fonts bitmap w ox oy (psf2_glyph_height s.fonts) 0 a s.pixels
            (λ x k lx lo hi on.
              subst (λ p. Outside p a) (sym (pixel_at_lem fb s x k))
                (far x k lx (omega (arith, hi))
                  (ap (λ b. pixel_on s.fonts b w x k) (sym same) ∙ on)));
      fonts = refl;
      tui = advance_lem (fb.width / w) s.tui;
      device = (refl, refl);
    }
