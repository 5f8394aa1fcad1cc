-- ===== src/Console/Cursor.antt =====
-- Where the cursor stands behind a text.
use jmos.Prelude.{ℕ, suc, ◌+◌, ◌*◌, ◌/◌, ◌^◌, ◌≤◌, ◌<◌, ◌≡◌, List, [], ◌∷◌, length}
use jmos.Bootinfo.{LimineFramebuffer}
use jmos.Font.{psf2_glyph_width}
use jmos.Console.{TuiData, Console, advance}
use jmos.Console.Draw.{Drawn, Shown}

-- The places of the screen in reading order.
abbrev pub place : ℕ → TuiData → ℕ
place columns t = t.cursor_y * columns + t.cursor_x

-- Line and column fit their 32 bits, with `n` characters to go.
abbrev pub Fits : ℕ → ℕ → TuiData → Type 0
Fits columns n t = (t.cursor_x < columns) × (t.cursor_y + n < 2 ^ 32)

abbrev Advanced : ℕ → ℕ → TuiData → Type 0
Advanced columns n t =
    Fits columns n (advance columns t) × (place columns (advance columns t) ≡ suc (place columns t))

-- The text's characters are drawn, one behind the other.
abbrev pub DrawnAll : LimineFramebuffer → List ℕ → Console → Console → Type 0
DrawnAll fb [] s s' = s' ≡ s
DrawnAll fb (c ∷ cs) s s' = (between : Console) × Drawn fb c s between × DrawnAll fb cs between s'

abbrev pub AllShown : Console → List ℕ → Type 0
AllShown s [] = 0 ≤ 0
AllShown s (c ∷ cs) = Shown s c × AllShown s cs

-- A text is written: its characters are drawn, and the cursor is on the screen's columns, as many places on as the text is long.
pub record Written (fb : LimineFramebuffer) (text : List ℕ) (s s' : Console) : Type 0 where
  pub all : DrawnAll fb text s s'
  pub fonts : s'.fonts ≡ s.fonts
  pub column : s'.tui.cursor_x < fb.width / psf2_glyph_width s.fonts
  pub moved :
      place (fb.width / psf2_glyph_width s.fonts) s'.tui
      ≡ place (fb.width / psf2_glyph_width s.fonts) s.tui + length text
