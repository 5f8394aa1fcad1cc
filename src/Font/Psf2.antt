-- ===== src/Font/Psf2.antt =====
-- `init_psf2_font` over a well-formed heap.
use jmos.Prelude.{ℕ, suc, ◌+◌, ◌-◌, ◌^◌, ◌≤◌, ◌<◌, ◌≡◌, ◌⊎◌, true, some, update, length}
use jmos.Cstring.Block.{inside}
use jmos.Kalloc.{Kheap, header}
use jmos.Kalloc.Blocks.{Blocks}
use jmos.Kalloc.Grow.{IsHeap}
use jmos.Kalloc.Malloc.{Allocated}
use jmos.Kalloc.Live.{Live}
use jmos.Font.Glyphs.{Spared, glyph_bytes, Loaded, Refused, with_block}
use jmos.Font.{enomem, Psf2Header, FontState, load_glyphs}

-- The header's block is there.
module _ (g f fd : ℕ) (s : FontState) (bs ls : Blocks) (v : IsHeap s.heap bs)
    (l : Live s.heap bs ls) (fuel : suc (suc (length bs)) < g) (two : 2 ≤ f)
    (fits : glyph_bytes (s.headers fd) < 2 ^ 32)
    (room : fd + (s.headers fd).headersize + glyph_bytes (s.headers fd) < 2 ^ 64)
    (spared : (a : ℕ)
      → inside (fd + (s.headers fd).headersize) (glyph_bytes (s.headers fd)) a ≡ true
      → Spared s.heap bs a)
    (p : ℕ) (h : Kheap) (a : Allocated s.heap bs 32 p h) where
  abbrev raw : Psf2Header
  raw = s.headers fd

  abbrev stored : FontState
  stored = record s { heap = h; headers = update s.headers p raw }

  abbrev Loads : Psf2Header → Type 0
  Loads r =
      (s' : FontState) × ((load_glyphs g f p fd stored ≡ some (0, s')) × Loaded r h.bytes fd ls s'
        ⊎ (load_glyphs g f p fd stored ≡ some (enomem, s'))
          × Refused (with_block a.bs' (p - header) (h.size (p - header))) ls s')
