-- ===== src/Selection.antt =====
-- selection.inc.c: the selection of text on the screen and in the history.
pub mod Draw
pub mod Ends
pub mod Words
pub mod Keys
pub mod Clip
mod Tests
use yterm.Prelude.{
  ℕ, ◌+◌, ◌-◌, Bool, true, false, ◌&&◌, ◌||◌, not, if◌then◌else◌, ℤ, pos, negsuc, ◌+ℤ◌, ◌-ℤ◌, ltb_ℤ,
  leb_ℤ,
}
use yterm.Cellwin.{CellBuffer}
use yterm.History.{HistoryFile}

-- `SBLOCK_NONE`, ...
pub data Block : Type 0 where
  no_block stream line rect : Block

abbrev pub is_stream : Block → Bool
is_stream stream = true
is_stream _ = false

abbrev pub in_selection : Block → Bool
in_selection no_block = false
in_selection _ = true

-- The fields of `history` for the selection: the cursor on the screen, how many lines of the history
-- are shown, the corners of the selected block, inclusive, with lines counted from the first one of
-- the history.
pub record Selection : Type 0 where
  pub cx : ℕ
  pub cy : ℕ
  pub sback : ℕ
  pub x0 : ℤ
  pub y0 : ℤ
  pub x1 : ℤ
  pub y1 : ℤ
  pub block : Block
  pub inprogress : Bool
  pub locked : Bool

-- The terminal in selection mode: its selection, its history file, its cells, the cells that are
-- shown instead of them (`hvbuf`). `takes_clicks` tells that
-- the mouse is reported and the child is alive and open.
pub record View : Type 0 where
  pub sel : Selection
  pub file : HistoryFile
  pub cbuf : CellBuffer
  pub hvbuf : CellBuffer
  pub takes_clicks : Bool

abbrev pub min_int : ℤ → ℤ → ℤ
min_int a b = if ltb_ℤ a b then a else b

abbrev pub max_int : ℤ → ℤ → ℤ
max_int a b = if ltb_ℤ b a then a else b

-- `term_has_selblock`.
unfoldable pub has_selblock : Selection → Bool
has_selblock s = in_selection s.block && leb_ℤ s.y0 s.y1

-- `cy_to_gy` and `gy_to_cy`, with the number of lines in the history.
unfoldable pub cy_to_gy : ℕ → Selection → ℤ → ℤ
cy_to_gy lcount s cy = pos lcount -ℤ pos s.sback +ℤ cy

unfoldable pub gy_to_cy : ℕ → Selection → ℤ → ℤ
gy_to_cy lcount s gy = gy -ℤ (pos lcount -ℤ pos s.sback)

-- The block of `term_selection_end`, between the place where the selection started and the cursor.
unfoldable pub block_between : Block → ℤ → ℤ → ℤ → ℤ → Selection → Selection
block_between stream stx sty cx cy s =
    if not (ltb_ℤ cy sty || ltb_ℤ sty cy)
    then record s { y0 = sty; y1 = sty; x0 = min_int stx cx; x1 = max_int stx cx }
    else if ltb_ℤ cy sty
    then record s { x0 = cx; y0 = cy; x1 = stx; y1 = sty }
    else record s { x0 = stx; y0 = sty; x1 = cx; y1 = cy }
block_between _ stx sty cx cy s = record s {
  x0 = min_int stx cx;
  x1 = max_int stx cx;
  y0 = min_int sty cy;
  y1 = max_int sty cy;
}

-- `term_selection_end`.
unfoldable pub selection_end : ℕ → Selection → Selection
selection_end lcount s =
    if in_selection s.block && s.inprogress
    then record (block_between s.block s.x0 s.y0 (pos s.cx) (cy_to_gy lcount s (pos s.cy)) s) {
      inprogress = false;
    }
    else s
