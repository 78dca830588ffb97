-- ===== src/Cell.antt =====
-- The character cell of cellwin.h and the macros of cellwin.c that compare and fill cells.
use yterm.Prelude.{arith, ℕ, ◌≡◌, ◌==◌, Bool, true, false, ◌||◌, not, Option, none, some}

-- `CharCell`. The 16 bits of `flags` are kept as three fields: CELL_AUTO_WRAP (0x4000),
-- CELL_DIRTY (0x8000), and the number that the other fourteen bits make.
pub record CharCell : Type 0 where
  pub ch : ℕ
  pub attrs : ℕ
  pub auto_wrap : Bool
  pub dirty : Bool
  pub fg : ℕ
  pub bg : ℕ

abbrev pub cell_inverse : ℕ
cell_inverse = 0x0001

abbrev pub cell_underline : ℕ
cell_underline = 0x0002

abbrev pub cell_bold : ℕ
cell_bold = 0x0004

abbrev pub cell_blink : ℕ
cell_blink = 0x0008

abbrev pub cell_selection : ℕ
cell_selection = 0x0100

abbrev pub cell_attr_mask : ℕ
cell_attr_mask = 0xff000000

-- CELL_ATTR_MASK | CELL_DEFAULT_ATTR
abbrev pub default_color : ℕ
default_color = 0xff00ffff

-- `set_cell_defaults`, which overwrites the whole cell.
abbrev pub default_cell : CharCell
default_cell = record {
  ch = 0x20;
  attrs = 0;
  auto_wrap = false;
  dirty = true;
  fg = default_color;
  bg = default_color;
}

-- What LOAD_ATTRS() leaves in `flags`, `fg` and `bg`.
pub record Loaded : Type 0 where
  pub attrs : ℕ
  pub auto_wrap : Bool
  pub dirty : Bool
  pub fg : ℕ
  pub bg : ℕ

unfoldable pub load_attrs : Option CharCell → Loaded
load_attrs (some a) = record {
  attrs = a.attrs;
  auto_wrap = false;
  dirty = true;
  fg = a.fg;
  bg = a.bg;
}
load_attrs none = record {
  attrs = 0;
  auto_wrap = false;
  dirty = true;
  fg = default_color;
  bg = default_color;
}

abbrev pub ne_bool : Bool → Bool → Bool
ne_bool true b = not b
ne_bool false b = b

-- DIFF_CELL: `^` is not zero where the two sides differ; the auto-wrap bit is masked out.
unfoldable pub diff_cell : Loaded → ℕ → CharCell → Bool
diff_cell l ch c =
    not (c.ch == ch)
    || not (c.fg == l.fg)
    || not (c.bg == l.bg)
    || not (c.attrs == l.attrs)
    || ne_bool c.dirty l.dirty

-- DIFF_TWO_CELLS: the auto-wrap and the dirty bits are masked out.
unfoldable pub diff_two_cells : CharCell → CharCell → Bool
diff_two_cells a b =
    not (a.ch == b.ch) || not (a.fg == b.fg) || not (a.bg == b.bg) || not (a.attrs == b.attrs)

-- What is seen of a cell: all but the auto-wrap and the dirty bits.
pub record Look : Type 0 where
  pub ch : ℕ
  pub attrs : ℕ
  pub fg : ℕ
  pub bg : ℕ

abbrev pub look : CharCell → Look
look c = record { ch = c.ch; attrs = c.attrs; fg = c.fg; bg = c.bg }

-- The cells that differ by DIFF_TWO_CELLS are those that look different.
pub look_of_not_diff : (a b : CharCell) → diff_two_cells a b ≡ false → look a ≡ look b
unfolding diff_two_cells
look_of_not_diff a b h = ground arith
