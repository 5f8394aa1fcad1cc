-- ===== src/Console/Open.antt =====
-- Opening and closing the console.
use jmos.Prelude.{Bool, not, ◌||◌, ◌&&◌, ℕ, ◌-◌, ◌<◌, ◌≡◌, ◌⊎◌, true, Option, some, ◌==◌}
use jmos.Bootinfo.{LimineFramebuffer}
use jmos.Kalloc.{Kheap, header}
use jmos.Kalloc.Blocks.{Blocks, within, owned}
use jmos.Kalloc.Grow.{IsHeap}
use jmos.Kalloc.Live.{Live}
use jmos.Console.{Console, init_tui_char_device, close_tui_char_device}

abbrev at_heap : Console → Kheap → Console
at_heap s h = record s { fonts = record s.fonts { heap = h } }

-- The state behind an allocation at `p`.
abbrev opened : Option LimineFramebuffer → Console → ℕ → Kheap → Console
opened fb s p h = record (at_heap s h) {
  tui = record { framebuffer = fb; cursor_x = 0; cursor_y = 0 };
  methods = true;
  data_at = p;
}

-- The bytes of the block that the console's data are in, when it is open.
abbrev pub data_block : Console → ℕ → Bool
data_block s x =
    not (s.data_at == 0) && within (s.data_at - header) (s.fonts.heap.size (s.data_at - header)) x

-- The console is closed, the blocks of the heap in use are `ls`, and the bytes for which `f` holds are free.
pub record Closed (f : ℕ → Bool) (ls : Blocks) (s : Console) : Type 0 where
  pub bs' : Blocks
  pub heap : IsHeap s.fonts.heap bs'
  pub live : Live s.fonts.heap bs' ls
  pub data_at : s.data_at ≡ 0
  pub free : (x : ℕ) → f x ≡ true → owned bs' x ≡ true

-- The console is open on the framebuffer, its cursor in the first place.
pub record Opened (fb : Option LimineFramebuffer) (s : Console) : Type 0 where
  pub behind_header : header < s.data_at
  pub methods : s.methods ≡ true
  pub tui : s.tui ≡ record { framebuffer = fb; cursor_x = 0; cursor_y = 0 }

abbrev pub OpenClose : ℕ → ℕ → Option LimineFramebuffer → Console → Blocks → Blocks → Type 0
OpenClose g f fb s bs ls =
    (s' : Console) × (s'' : Console) × (init_tui_char_device g f fb s ≡ some s')
    × (Opened fb s' ⊎ (s' ≡ s))
    × (close_tui_char_device g s' ≡ some s'')
    × Closed (λ x. owned bs x || data_block s' x) ls s''
