-- ===== src/Console/Tests.antt =====
-- A console of 80 columns, with the font of two glyphs.
use jmos.Prelude.{true, some, if◌then◌else◌, ◌==◌}
use jmos.Cstring.{Mem}
use jmos.Bootinfo.{LimineFramebuffer}
use jmos.Font.Tests.{two_glyph_font}
use jmos.Console.{Console}

abbrev screen : LimineFramebuffer
screen = record {
  address = 0xFD000000;
  width = 640;
  height = 480;
  pitch = 2560;
  bpp = 32;
  red_mask_shift = 16;
  green_mask_shift = 8;
  blue_mask_shift = 0;
}

-- The cursor is on the last place of its line.
abbrev console : Console
console = record {
  data_at = 0x1000;
  tui = record { framebuffer = some screen; cursor_x = 79; cursor_y = 2 };
  methods = true;
  fonts = two_glyph_font;
  pixels = λ _. 0;
}

-- The character 1 twice, at 0x100.
abbrev format : Mem
format a = if a == 0x100 then 1 else if a == 0x101 then 1 else 0
