-- ===== src/Selection/Draw.antt =====
-- selection.inc.c: the marks of the selected cells, and the lines that are shown.
pub mod Rows
pub mod Marked
use yterm.Prelude.{
  ℕ, zero, suc, ◌+◌, ◌-◌, ◌*◌, bit_and, bit_or, Bool, true, false, ◌&&◌, ◌||◌, not, Option, none,
  some, List, [], ◌∷◌, ltb, leb, ◌==◌, if◌then◌else◌, ℤ, pos, negsuc, pos_part, ◌+ℤ◌, ◌-ℤ◌, ltb_ℤ,
  leb_ℤ, get_elem?, set, take, drop, bit_xor,
}
use yterm.Cell.{CharCell}
use yterm.Cellwin.{CellBuffer, Code, touch_span, merge_cell, mark_all_dirty}
use yterm.History.{HistoryFile, Access}
use yterm.History.Load.{history_put_line, merge_line}
use yterm.Selection.{
  Block, no_block, stream, line, rect, Selection, View, has_selblock, cy_to_gy, gy_to_cy,
  selection_end, in_selection,
}

-- CELL_SELECTION.
abbrev pub cell_selection : ℕ
cell_selection = 0x0100

unfoldable pub marked : CharCell → CharCell
marked c = record c { attrs = bit_or c.attrs cell_selection }

unfoldable pub mark_code : Code
mark_code c n = (marked c, n)

-- The columns of the selected block in line `y`, in a buffer of width `w`.
unfoldable pub span_of : Block → ℕ → Selection → ℤ → ℤ × ℤ
span_of stream w s y = (
  if not (ltb_ℤ y s.y0 || ltb_ℤ s.y0 y) then s.x0 else pos 0,
  if not (ltb_ℤ y s.y1 || ltb_ℤ s.y1 y) then s.x1 else pos w -ℤ pos 1,
)
span_of rect w s y = (s.x0, s.x1)
span_of _ w s y = (pos 0, pos w -ℤ pos 1)

abbrev pub count_up : ℤ → ℤ → ℕ
count_up a b = pos_part (b -ℤ a +ℤ pos 1)

-- `for (int x = x0; x <= x1; x += 1) cc[x].flags |= CELL_SELECTION;` in line `wy`; the columns of a
-- block are not negative.
unfoldable pub mark_columns : ℕ → ℤ → ℤ → CellBuffer → CellBuffer
mark_columns wy x0 x1 hv = touch_span mark_code (count_up x0 x1) (wy * hv.width + pos_part x0) hv

-- The loop body of `term_mark_selected_block`, and the loop over `n` more lines.
unfoldable pub mark_row : ℕ → Selection → ℤ → CellBuffer → CellBuffer
mark_row lcount s y hv =
    let wy = gy_to_cy lcount s y in
    let (x0, x1) = span_of s.block hv.width s y in
    if leb_ℤ (pos 0) wy && ltb_ℤ wy (pos hv.height) then mark_columns (pos_part wy) x0 x1 hv else hv

unfoldable pub mark_rows : ℕ → ℕ → Selection → ℤ → CellBuffer → CellBuffer
mark_rows zero lcount s y hv = hv
mark_rows (suc n) lcount s y hv = mark_rows n lcount s (y +ℤ pos 1) (mark_row lcount s y hv)

-- `term_mark_selected_block`: the selection is finished for the time of the call.
unfoldable pub mark_selected_block : ℕ → Selection → CellBuffer → CellBuffer
mark_selected_block lcount s0 hv =
    let s = selection_end lcount s0 in
    if has_selblock s && not (hv.width == 0)
    then mark_rows (count_up s.y0 s.y1) lcount s s.y0 hv
    else hv

-- What the calls of the system return for each line of the screen.
abbrev pub Reads : Type 0
Reads = ℕ → Access × Access

-- `while (y0 < hvbuf.height && hline < lcount)`, for `n` more lines of `hvbuf`.
unfoldable pub draw_history :
    ℕ → Reads → ℕ → ℤ → HistoryFile → CellBuffer → ℕ × HistoryFile × CellBuffer
draw_history zero r y hline f hv = (y, f, hv)
draw_history (suc n) r y hline f hv =
    let (f', hv') = history_put_line (r y).0 (r y).1 (pos y) hline f hv in
    let rest = draw_history n r (y + 1) (hline +ℤ pos 1) f' hv' in
    if ltb_ℤ hline (pos f.lcount) then rest else (y, f, hv)

-- The lines of the screen below those of the history, for `n` more lines of `hvbuf`; `src` starts at
-- the line `ty`.
unfoldable pub draw_screen : ℕ → ℕ → ℕ → ℕ → ℕ → List CharCell → CellBuffer → CellBuffer
draw_screen zero w h ty y src hv = hv
draw_screen (suc n) w h ty y src hv =
    let rest = draw_screen n w h (ty + 1) (y + 1) (drop w src) (merge_line 0 y (take w src) hv) in
    if ltb ty h then rest else hv

-- Cells whose mark changed since `old` become dirty.
unfoldable pub soil_changed : List CharCell → List CharCell → ℕ → List CharCell × ℕ
soil_changed [] cells n = (cells, n)
soil_changed (o ∷ old) [] n = ([], n)
soil_changed (o ∷ old) (c ∷ cells) n =
    let changed = not (bit_and (bit_xor o.attrs c.attrs) cell_selection == 0) && not c.dirty in
    let (rest, last) = soil_changed old cells (if changed then n + 1 else n) in
    ((if changed then record c { dirty = true } else c) ∷ rest, last)

-- `term_draw_selection` where the sizes of the buffers differ: the screen is shown.
unfoldable pub draw_anew : View → View
draw_anew v =
    let s : Selection = record v.sel { sback = 0 } in
    record v { sel = s; hvbuf = mark_selected_block v.file.lcount s (mark_all_dirty v.cbuf) }

-- ... and where they are the same.
unfoldable pub draw_over : Reads → View → View
draw_over r v =
    let hline = pos v.file.lcount -ℤ pos v.sel.sback in
    let (y, f, hv) = draw_history v.hvbuf.height r 0 hline v.file v.hvbuf in
    let hv' = draw_screen (hv.height - y) hv.width v.cbuf.height 0 y v.cbuf.buf hv in
    let hv2 = mark_selected_block f.lcount v.sel hv' in
    let (cells, n) = soil_changed v.hvbuf.buf hv2.buf hv2.dirty_count in
    record v { file = f; hvbuf = record hv2 { buf = cells; dirty_count = n } }

-- `term_draw_selection`.
unfoldable pub draw_selection : Reads → View → View
draw_selection r v =
    if not (in_selection v.sel.block)
    then v
    else if not (v.hvbuf.width == v.cbuf.width && v.hvbuf.height == v.cbuf.height)
    then draw_anew v
    else draw_over r v

-- `term_selection_reset`.
unfoldable pub selection_reset : Reads → View → View
selection_reset r v =
    let s : Selection = record v.sel {
      x0 = pos 0;
      x1 = negsuc 0;
      y0 = pos 0;
      y1 = negsuc 0;
      inprogress = false;
    } in
    if has_selblock v.sel then draw_selection r (record v { sel = s }) else v

-- `term_selection_start`; it leaves `y1`.
unfoldable pub selection_start : Reads → View → View
selection_start r v =
    let s : Selection = record v.sel {
      x0 = pos v.sel.cx;
      y0 = cy_to_gy v.file.lcount v.sel (pos v.sel.cy);
      x1 = pos v.sel.cx;
      inprogress = true;
    } in
    if in_selection v.sel.block then draw_selection r (record v { sel = s }) else v
