-- ===== src/Selection/Tests.antt =====
-- Selections on a small screen.
use mathlib.Core.Option
use yterm.Prelude.{
  ℕ, ◌*◌, ◌+◌, ◌≡◌, refl, Bool, true, false, [], ◌∷◌, if◌then◌else◌, pos, pos_part, ◌+ℤ◌, ◌-ℤ◌,
  arith,
}
use yterm.Cell.{CharCell}
use yterm.Keypad.{right}
use yterm.Cellwin.{CellBuffer}
use yterm.Cellwin.Cells.{cell}
use yterm.History.{HistoryFile, no_buffer}
use yterm.Utf.RoundTrip.{encode_all}
use yterm.Selection.{stream, Selection, View, has_selblock, cy_to_gy, selection_end}
use yterm.Selection.Draw.{marked, mark_selected_block, Reads}
use yterm.Selection.Draw.Rows.{InColumns}
use yterm.Selection.Draw.Marked.{covers, mark_selected_block_lem}
use yterm.Selection.Ends.{between, selection_end_lem}
use yterm.Selection.Words.Stays.{IsView}
use yterm.Selection.Keys.{selection_keyevent}
use yterm.Selection.Keys.Stays.{selection_keyevent-IsView}
use yterm.Selection.Clip.{copy_to}
use yterm.Selection.Clip.Copied.{block_text, loaded_lines, copy_to-text}

abbrev char_cell : ℕ → CharCell
char_cell c = record { ch = c; attrs = 0; auto_wrap = false; dirty = false; fg = 7; bg = 0 }

-- "ab " and "c d".
abbrev screen : CellBuffer
screen = record {
  buf =
      char_cell 0x61
      ∷ char_cell 0x62
      ∷ char_cell 0x20
      ∷ char_cell 0x63
      ∷ char_cell 0x20
      ∷ char_cell 0x64
      ∷ [];
  width = 3;
  height = 2;
  dirty_count = 0;
}

abbrev no_file : HistoryFile
no_file = record {
  is_open = false;
  store = [];
  width = 3;
  lcount = 0;
  wrbuffer = no_buffer;
  size = 0;
  used = [];
  ofs = 0;
  double_free = false;
}

-- From the second column of the first line to the first of the second.
abbrev selection : Bool → Selection
selection busy = record {
  cx = 0;
  cy = 1;
  sback = 0;
  x0 = pos 1;
  y0 = pos 0;
  x1 = pos 0;
  y1 = pos 1;
  block = stream;
  inprogress = busy;
  locked = false;
}

abbrev view : View
view = record {
  sel = selection true;
  file = no_file;
  cbuf = screen;
  hvbuf = screen;
  takes_clicks = false;
}

abbrev reads : Reads
reads n = (record { seek = true; done = true }, record { seek = true; done = true })

selection-InColumns : InColumns 3 (selection false)
selection-InColumns = record {
  left = omega arith;
  left_lt = refl;
  right = omega arith;
  right_lt = refl;
}

view-IsView : IsView view
view-IsView = record { width = refl; height = refl; in_x = omega arith; in_y = omega arith }

mark_selected_block_lem_example :
    cell (mark_selected_block 0 (selection false) screen) (1 * 3 + 0) ≡ (
      if covers stream (selection false) (pos 0) (cy_to_gy 0 (selection false) (pos 1))
      then Option.map marked (cell screen (1 * 3 + 0))
      else cell screen (1 * 3 + 0))
unfolding has_selblock
mark_selected_block_lem_example =
    mark_selected_block_lem 0 (selection false) screen 0 1 refl refl selection-InColumns
      (omega arith) (omega arith)

selection_end_lem_example :
    ((selection_end 0 (selection true)).inprogress ≡ false)
    × (has_selblock (selection_end 0 (selection true)) ≡ true)
    × (covers
          (selection_end 0 (selection true)).block
          (selection_end 0 (selection true))
          (pos 2)
          (pos 0)
        ≡ between stream
            (pos 1)
            (pos 0)
            (pos 0)
            (cy_to_gy 0 (selection true) (pos 1))
            (pos 2)
            (pos 0))
selection_end_lem_example = selection_end_lem 0 (selection true) (pos 2) (pos 0) refl refl

selection_keyevent-IsView_example :
    IsView (
      selection_keyevent reads false
        (record { shift = false; alt = false; ctrl = true })
        right
        view)
selection_keyevent-IsView_example =
    selection_keyevent-IsView reads false (record { shift = false; alt = false; ctrl = true }) right
      view view-IsView

abbrev finished_view : View
finished_view = record view { sel = selection false }

copy_to-text_example : copy_to reads finished_view ≡ (
  selection false,
  encode_all (
      block_text 3
        (selection false)
        (loaded_lines (pos_part (pos 1 +ℤ pos 1 -ℤ pos 0)) reads (pos 0) screen screen no_file)),
)
unfolding selection_end has_selblock
copy_to-text_example = copy_to-text reads finished_view refl refl selection-InColumns
