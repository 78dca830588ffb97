-- ===== src/Cellwin/Strip.antt =====
-- cellwin.c: `copy_strip` and the operations that move cells.
use yterm.Prelude.{
  ℕ, zero, suc, ◌+◌, ◌-◌, ◌*◌, Bool, true, false, ◌&&◌, ◌||◌, not, Option, none, some, ltb, ◌==◌,
  if◌then◌else◌, get_elem?, ℤ, pos, pos_part, ltb_ℤ, leb_ℤ, ◌+ℤ◌, ◌-ℤ◌,
}
use yterm.Cell.{CharCell}
use yterm.Cellwin.{
  CellBuffer, Code, touch, clip_last, clear_region, unmark_line_autowrap, merge_code,
}

-- What the loops of `copy_strip` do to `*dest`: with `merge_dirty`, and without.
unfoldable pub overwrite_code : CharCell → Code
overwrite_code s d n =
    (s, if d.dirty then if not s.dirty then n - 1 else n else if s.dirty then n + 1 else n)

unfoldable pub move_code : Bool → CharCell → Code
unfolding merge_code overwrite_code
move_code true s d n = merge_code s d n
move_code false s d n = overwrite_code s d n

-- One round of a loop of `copy_strip`.
unfoldable pub copy_cell : Bool → ℕ → ℕ → CellBuffer → CellBuffer
copy_cell merge_dirty src dest cb = elim (get_elem? cb.buf src) [
  | none ↦ cb
  | some s ↦ touch (move_code merge_dirty s) dest cb
]

-- `dir = 1`: `src` and `dest` are the addresses of the next cells.
unfoldable pub copy_forward : Bool → ℕ → ℕ → ℕ → CellBuffer → CellBuffer
copy_forward m zero src dest cb = cb
copy_forward m (suc count) src dest cb =
    copy_forward m count (src + 1) (dest + 1) (copy_cell m src dest cb)

-- `dir = -1`: the next cells are `count - 1` cells further on.
unfoldable pub copy_backward : Bool → ℕ → ℕ → ℕ → CellBuffer → CellBuffer
copy_backward m zero src dest cb = cb
copy_backward m (suc count) src dest cb =
    copy_backward m count src dest (copy_cell m (src + count) (dest + count) cb)

-- `copy_strip`.
unfoldable pub copy_strip : CellBuffer → ℕ → ℕ → ℕ → Bool → CellBuffer
copy_strip cb src dest count merge_dirty =
    if ltb dest src
    then copy_forward merge_dirty count src dest cb
    else copy_backward merge_dirty count src dest cb

-- `if (attr != NULL) cbuf_clear_region(...)`.
unfoldable pub clear_if : CellBuffer → ℤ → ℤ → ℤ → ℤ → Option CharCell → CellBuffer
clear_if cb x0 y0 x1 y1 none = cb
clear_if cb x0 y0 x1 y1 (some a) = clear_region cb x0 y0 x1 y1 (some a)

-- `while (y0 != y1) { cbuf_unmark_line_autowrap(cbuf, y0); y0 += 1; }` over `rounds` lines.
unfoldable pub unmark_lines : ℕ → ℤ → CellBuffer → CellBuffer
unmark_lines zero y cb = cb
unmark_lines (suc rounds) y cb = unmark_lines rounds (y +ℤ pos 1) (unmark_line_autowrap cb y)

-- The part of `cbuf_scroll_area` between clipping and the autowraps: the copy and the clearing.
-- `up` is `dir < 0`; `y0` and `y1` are clipped.
unfoldable pub scroll_lines : CellBuffer → ℕ → ℕ → ℕ → Bool → Bool → Option CharCell → CellBuffer
unfolding clear_if
scroll_lines cb y0 y1 lines up merge_dirty attr =
    let wdt = cb.width in
    let regh = y1 + 1 - y0 in
    let last = pos wdt -ℤ pos 1 in
    let lcp = (regh - lines) * wdt in
    if ltb lines regh
    then if up
      then clear_if (copy_strip cb ((y0 + lines) * wdt) (y0 * wdt) lcp merge_dirty) (pos 0)
          (pos y1 -ℤ pos lines +ℤ pos 1) last (pos y1) attr
      else clear_if (copy_strip cb (y0 * wdt) ((y0 + lines) * wdt) lcp merge_dirty) (pos 0) (pos y0)
          last (pos y0 +ℤ pos lines -ℤ pos 1) attr
    else clear_if cb (pos 0) (pos y0) last (pos y1) attr

-- `cbuf_scroll_area`.
unfoldable pub scroll_area : CellBuffer → ℤ → ℤ → ℤ → ℤ → Bool → Option CharCell → CellBuffer
scroll_area cb y0 y1 lines dir merge_dirty attr =
    if (leb_ℤ dir (pos 0) && leb_ℤ (pos 0) dir) || leb_ℤ lines (pos 0)
    then cb
    else if ltb_ℤ y1 y0 || ltb_ℤ y1 (pos 0) || leb_ℤ (pos cb.height) y0 || cb.width == 0
    then cb
    else let top = pos_part y0 in
      let bottom = clip_last cb.height y1 in
      unmark_lines (bottom + 1 - top) (pos top -ℤ pos 1)
        (scroll_lines cb top bottom (pos_part lines) (ltb_ℤ dir (pos 0)) merge_dirty attr)

-- The guards and the clipping that `cbuf_insert_chars` and `cbuf_delete_chars` share: the column,
-- the line and the count of a call that goes on.
unfoldable pub chars_at : CellBuffer → ℤ → ℤ → ℤ → Option (ℕ × ℕ × ℕ)
chars_at cb x y count =
    if leb_ℤ count (pos 0) || ltb_ℤ y (pos 0) || leb_ℤ (pos cb.height) y
    then none
    else if leb_ℤ (pos cb.width) x
    then none
    else some (pos_part x, pos_part y, pos_part count)

unfoldable pub insert_at : CellBuffer → ℕ → ℕ → ℕ → Option CharCell → CellBuffer
unfolding clear_if
insert_at cb x y count attr =
    let wdt = cb.width in
    if ltb count (wdt - x)
    then clear_if (copy_strip cb (y * wdt + x) (y * wdt + x + count) (wdt - x - count) true) (pos x)
        (pos y) (pos (x + count - 1)) (pos y) attr
    else clear_if cb (pos x) (pos y) (pos wdt -ℤ pos 1) (pos y) attr

unfoldable pub delete_at : CellBuffer → ℕ → ℕ → ℕ → Option CharCell → CellBuffer
unfolding clear_if
delete_at cb x y count attr =
    let wdt = cb.width in
    if ltb count (wdt - x)
    then clear_if (copy_strip cb (y * wdt + x + count) (y * wdt + x) (wdt - x - count) true)
        (pos wdt -ℤ pos count) (pos y) (pos wdt -ℤ pos 1) (pos y) attr
    else clear_if cb (pos x) (pos y) (pos wdt -ℤ pos 1) (pos y) attr

-- `cbuf_insert_chars` and `cbuf_delete_chars`.
unfoldable pub insert_chars : CellBuffer → ℤ → ℤ → ℤ → Option CharCell → CellBuffer
unfolding insert_at
insert_chars cb x y count attr = elim (chars_at cb x y count) [
  | none ↦ cb
  | some (x', y', n) ↦ unmark_line_autowrap (insert_at cb x' y' n attr) y
]

unfoldable pub delete_chars : CellBuffer → ℤ → ℤ → ℤ → Option CharCell → CellBuffer
unfolding delete_at
delete_chars cb x y count attr = elim (chars_at cb x y count) [
  | none ↦ cb
  | some (x', y', n) ↦ unmark_line_autowrap (delete_at cb x' y' n attr) y
]
