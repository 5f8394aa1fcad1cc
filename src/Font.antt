-- ===== src/Font.antt =====
-- src/drivers/font/psf2.c and font.c: the console's font, copied from a PSF2 file into the heap.
--
-- A `psf2_header` in memory, the file's or the kernel's copy, is the record at its address in `headers`;
-- the glyphs are bytes of the heap's memory. `font` is the structure that `global_font` points to; its
-- five function pointers are set together, which `methods` records.
pub mod Glyphs
pub mod Psf2
pub mod Tests
use jmos.Prelude.{
  ℕ, ◌+◌, ◌*◌, ◌%◌, ◌^◌, Bool, true, false, not, ◌||◌, Option, none, some, ◌==◌, leb, if◌then◌else◌,
  bit_and, update,
}
use jmos.Prelude.Words.{add64}
use jmos.Cstring.{memcpy}
use jmos.Kalloc.{Kheap, kmalloc, kfree}

-- ENOMEM and EINVAL.
abbrev pub enomem : ℕ
enomem = 12

abbrev pub einval : ℕ
einval = 22

abbrev pub psf2_magic : ℕ
psf2_magic = 0x864AB572

pub record Psf2Header : Type 0 where
  pub magic : ℕ
  pub version : ℕ
  pub headersize : ℕ
  pub flags : ℕ
  pub numglyph : ℕ
  pub bytesperglyph : ℕ
  pub height : ℕ
  pub width : ℕ

pub record Font : Type 0 where
  pub data_at : ℕ
  pub glyph_buffer : ℕ
  pub methods : Bool

pub record FontState : Type 0 where
  pub heap : Kheap
  pub headers : ℕ → Psf2Header
  pub font : Font
  pub global_font : ℕ

abbrev pub header_of : FontState → Psf2Header
header_of s = s.headers s.font.data_at

pub psf2_has_unicode_table : FontState → Bool
psf2_has_unicode_table s = not (bit_and (header_of s).flags 1 == 0)

pub psf2_glyph_width : FontState → ℕ
psf2_glyph_width s = (header_of s).width

pub psf2_glyph_height : FontState → ℕ
psf2_glyph_height s = (header_of s).height

pub psf2_bytes_per_glyph : FontState → ℕ
psf2_bytes_per_glyph s = (header_of s).bytesperglyph

-- The product is of two `uint32_t`.
pub psf2_get_bitmap_for_glyph : FontState → ℕ → ℕ
psf2_get_bitmap_for_glyph s unicode_codepoint =
    if leb (header_of s).numglyph unicode_codepoint
    then 0
    else add64 s.font.glyph_buffer (unicode_codepoint * (header_of s).bytesperglyph % 2 ^ 32)

-- `kfree(psf2)` and the return of an error.
abbrev pub give_up : ℕ → ℕ → ℕ → FontState → Option (ℕ × FontState)
give_up g psf2 errno s = elim (kfree g psf2 s.heap) [
  | none ↦ none
  | some h ↦ some (errno, record s { heap = h })
]

-- `init_psf2_font` behind the allocation of `size` bytes for the glyphs at `src`.
pub keep_glyphs : ℕ → ℕ → ℕ → ℕ → FontState → ℕ × Kheap → Option (ℕ × FontState)
keep_glyphs g psf2 src size s r =
    let s' : FontState = record s { heap = r.1; font = record s.font { glyph_buffer = r.0 } } in
    elim (r.0 == 0) [
      | true ↦ give_up g psf2 enomem s'
      | false ↦ some (
        0,
        record s' {
          heap = record r.1 { bytes = (memcpy r.1.bytes r.0 src size).1 };
          font = record { data_at = psf2; glyph_buffer = r.0; methods = true };
        },
      )
    ]

-- `init_psf2_font`, once the header is copied to `psf2`.
pub load_glyphs : ℕ → ℕ → ℕ → ℕ → FontState → Option (ℕ × FontState)
load_glyphs g f psf2 font_data s =
    let glyph_buffer = add64 font_data (s.headers psf2).headersize in
    let glyph_buffer_size = (s.headers psf2).numglyph * (s.headers psf2).bytesperglyph % 2 ^ 32 in
    elim (kmalloc g f glyph_buffer_size s.heap) [
      | none ↦ none
      | some r ↦ keep_glyphs g psf2 glyph_buffer glyph_buffer_size s r
    ]

-- `init_psf2_font` behind the allocation of the header.
pub copy_header : ℕ → ℕ → ℕ → FontState → ℕ × Kheap → Option (ℕ × FontState)
copy_header g f font_data s r =
    let s' : FontState = record s { heap = r.1 } in
    let raw = s.headers font_data in
    elim (r.0 == 0) [
      | true ↦ some (enomem, s')
      | false ↦ elim (raw.magic == psf2_magic) [
        | false ↦ give_up g r.0 einval (record s' {
          headers = update s.headers r.0 (record (s.headers r.0) { magic = raw.magic });
        })
        | true ↦ load_glyphs g f r.0 font_data (record s' { headers = update s.headers r.0 raw })
      ]
    ]

pub init_psf2_font : ℕ → ℕ → ℕ → FontState → Option (ℕ × FontState)
init_psf2_font g f font_data s = elim (kmalloc g f 32 s.heap) [
  | none ↦ none
  | some r ↦ copy_header g f font_data s r
]

-- The code leaves the function without a value where it frees; `none` in the first place says so.
pub close_psf2_font : ℕ → FontState → Option (Option ℕ × FontState)
close_psf2_font g s =
    if s.font.data_at == 0 then some (some einval, s) else elim (kfree g s.font.data_at s.heap) [
      | none ↦ none
      | some h ↦ some (none, record s { heap = h; font = record s.font { data_at = 0 } })
    ]

-- `sizeof(font)` is 56; the result of `init_psf2_font` is not looked at.
pub init_font_format : ℕ → ℕ → ℕ → FontState → Option FontState
init_font_format g f spleen_font_start s =
    let load : FontState → Option FontState =
      λ t. elim (init_psf2_font g f spleen_font_start t) [ none ↦ none | some r ↦ some r.1 ] in
    if s.global_font == 0
    then elim (kmalloc g f 56 s.heap) [
      | none ↦ none
      | some r ↦
          let s' : FontState = record s { heap = r.1; global_font = r.0 } in
          if r.0 == 0 then some s' else load s'
    ]
    else load s
