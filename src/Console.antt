-- ===== src/Console.antt =====
-- src/drivers/char_device/tui_device.c and read_write.c: the console, text drawn on the framebuffer.
--
-- `pixels` holds the byte at each address of the framebuffer. The `char_device_tui_data_t` that
-- the device's pointer `data_at` leads to is the field `tui`; the device's pointers to functions are set
-- together, which `methods` records. A char of the text is its byte, and is widened with its sign.
-- `none` is the result where the code divides by zero or reads a bitmap through NULL, or where fuel for the
-- heap ran out.
pub mod Draw
pub mod Cursor
pub mod Open
pub mod Print
mod Tests
use jmos.Prelude.{
  ℕ, zero, suc, ◌+◌, ◌-◌, ◌*◌, ◌/◌, ◌%◌, ◌^◌, Bool, true, false, List, [], ◌∷◌, ◌++◌, Option, none,
  some, ◌==◌, leb, ltb, if◌then◌else◌, not, ◌&&◌, ◌||◌,
}
use jmos.Prelude.Words.{add64, mul64}
use jmos.Bootinfo.{LimineFramebuffer}
use jmos.Kalloc.{kmalloc, kfree}
use jmos.Font.{FontState, psf2_glyph_width, psf2_glyph_height, psf2_get_bitmap_for_glyph}

pub record TuiData : Type 0 where
  pub framebuffer : Option LimineFramebuffer
  pub cursor_x : ℕ
  pub cursor_y : ℕ

pub record Console : Type 0 where
  pub data_at : ℕ
  pub tui : TuiData
  pub methods : Bool
  pub fonts : FontState
  pub pixels : ℕ → ℕ

-- `(uint32_t)buf[i]`
abbrev pub widen : ℕ → ℕ
widen c = if ltb c 128 then c else 2 ^ 32 - 256 + c

-- `pixel`, for the pixel `x`, `y` of the glyph at the offsets.
abbrev pub pixel_at : LimineFramebuffer → ℕ → ℕ → ℕ → ℕ → ℕ
pixel_at fb ox oy x y =
    add64 (add64 fb.address (mul64 ((oy + y) % 2 ^ 32) fb.pitch))
      ((ox + x) % 2 ^ 32 * (fb.bpp / 8) % 2 ^ 32)

-- `pixel_on`, in a bitmap of `w` pixels a row.
abbrev pub pixel_on : FontState → ℕ → ℕ → ℕ → ℕ → Bool
pixel_on fs bitmap w x y =
    fs.heap.bytes (bitmap + (y * w + x) % 2 ^ 32 / 8) / 2 ^ (7 - x % 8) % 2 == 1

-- `*pixel = 0xFFFFFFFF`, four bytes whatever the framebuffer's `bpp`.
pub paint : (ℕ → ℕ) → ℕ → ℕ → ℕ
paint px pixel a = if leb pixel a && ltb a (pixel + 4) then 0xFF else px a

-- The inner loop, with `n` pixels of the row to go.
pub draw_row : ℕ → ℕ → ℕ → LimineFramebuffer → FontState → ℕ → ℕ → ℕ → ℕ → (ℕ → ℕ) → ℕ → ℕ
draw_row zero x y fb fs bitmap w ox oy px = px
draw_row (suc n) x y fb fs bitmap w ox oy px =
    draw_row n (x + 1) y fb fs bitmap w ox oy
      (if pixel_on fs bitmap w x y then paint px (pixel_at fb ox oy x y) else px)

-- The loop over the rows, with `n` to go.
pub draw_rows : ℕ → ℕ → LimineFramebuffer → FontState → ℕ → ℕ → ℕ → ℕ → (ℕ → ℕ) → ℕ → ℕ
draw_rows zero y fb fs bitmap w ox oy px = px
draw_rows (suc n) y fb fs bitmap w ox oy px =
    draw_rows n (y + 1) fb fs bitmap w ox oy (draw_row w 0 y fb fs bitmap w ox oy px)

-- The cursor behind one character, on lines of `columns` characters.
abbrev pub advance : ℕ → TuiData → TuiData
advance columns t =
    let x = (t.cursor_x + 1) % 2 ^ 32 in
    if leb columns x
    then record t { cursor_x = 0; cursor_y = (t.cursor_y + 1) % 2 ^ 32 }
    else record t { cursor_x = x }

-- The body of the loop of `write_to_tui`, for one character.
pub put_char : LimineFramebuffer → ℕ → Console → Option Console
put_char fb c s =
    let w = psf2_glyph_width s.fonts in
    let ox = s.tui.cursor_x * w % 2 ^ 32 in
    let oy = s.tui.cursor_y * psf2_glyph_height s.fonts % 2 ^ 32 in
    let bitmap = psf2_get_bitmap_for_glyph s.fonts (widen c) in
    if w == 0 || bitmap == 0 && not (psf2_glyph_height s.fonts == 0)
    then none
    else some (record s {
      pixels = draw_rows (psf2_glyph_height s.fonts) 0 fb s.fonts bitmap w ox oy s.pixels;
      tui = advance (fb.width / w) s.tui;
    })

-- The loop of `write_to_tui`.
pub put_chars : LimineFramebuffer → List ℕ → Console → Option Console
put_chars fb [] s = some s
put_chars fb (c ∷ cs) s = elim (put_char fb c s) [ none ↦ none | some s' ↦ put_chars fb cs s' ]

-- The text is the first `count` bytes of `buf`.
pub write_to_tui : List ℕ → Console → Option Console
write_to_tui text s =
    if s.data_at == 0
    then some s
    else elim s.tui.framebuffer [ none ↦ some s | some fb ↦ put_chars fb text s ]

-- "TUI read not implemented" and a line feed.
abbrev pub not_implemented : List ℕ
not_implemented =
    84 ∷ 85 ∷ 73 ∷ 32 ∷ 114 ∷ 101 ∷ 97 ∷ 100 ∷ 32 ∷ 110 ∷ 111 ∷ 116 ∷ 32 ∷ 105 ∷ 109 ∷ 112 ∷ 108
    ∷ 101 ∷ 109 ∷ 101 ∷ 110 ∷ 116 ∷ 101 ∷ 100 ∷ 10 ∷ []

-- The literal's 26 bytes and the byte behind it, `beyond`. The code returns no value.
pub read_from_tui : ℕ → Console → Option Console
read_from_tui beyond s = write_to_tui (not_implemented ++ 0 ∷ beyond ∷ []) s

-- `sizeof(char_device_tui_data_t)` is 16.
pub init_tui_char_device : ℕ → ℕ → Option LimineFramebuffer → Console → Option Console
init_tui_char_device g f fb s = elim (kmalloc g f 16 s.fonts.heap) [
  | none ↦ none
  | some r ↦
      let s' : Console = record s { fonts = record s.fonts { heap = r.1 } } in
      if r.0 == 0
      then some s'
      else some (record s' {
        tui = record { framebuffer = fb; cursor_x = 0; cursor_y = 0 };
        methods = true;
        data_at = r.0;
      })
]

pub close_tui_char_device : ℕ → Console → Option Console
close_tui_char_device g s =
    if s.data_at == 0 then some s else elim (kfree g s.data_at s.fonts.heap) [
      | none ↦ none
      | some h ↦ some (record s { fonts = record s.fonts { heap = h }; data_at = 0 })
    ]
