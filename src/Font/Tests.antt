-- ===== src/Font/Tests.antt =====
-- A font of two glyphs, loaded into a small heap.
use jmos.Prelude.{◌≡◌, refl, true, false}
use jmos.Font.{Psf2Header, FontState, psf2_magic, psf2_glyph_width, psf2_get_bitmap_for_glyph}
use jmos.Kalloc.Tests.{small_heap}

abbrev pub two_glyphs : Psf2Header
two_glyphs = record {
  magic = psf2_magic;
  version = 0;
  headersize = 32;
  flags = 0;
  numglyph = 2;
  bytesperglyph = 16;
  height = 16;
  width = 8;
}

-- The file is at 0x100, below the direct map.
abbrev pub no_font : FontState
no_font = record {
  heap = small_heap;
  headers = λ _. two_glyphs;
  font = record { data_at = 0; glyph_buffer = 0; methods = false };
  global_font = 0;
}

-- The font with its glyphs at 0x2000.
abbrev pub two_glyph_font : FontState
two_glyph_font = record no_font {
  font = record { data_at = 0x1000; glyph_buffer = 0x2000; methods = true };
}

pub two_bitmaps :
    (psf2_get_bitmap_for_glyph two_glyph_font 0 ≡ 0x2000)
    × (psf2_get_bitmap_for_glyph two_glyph_font 1 ≡ 0x2010)
unfolding psf2_get_bitmap_for_glyph
two_bitmaps = (refl, refl)

pub width_8 : psf2_glyph_width two_glyph_font ≡ 8
unfolding psf2_glyph_width
width_8 = refl
