-- ===== src/Cellwin.antt =====
-- cellwin.c: the cell buffer and the operations that work cell by cell. A `CellBuffer *` or an
-- `attr` that may be NULL is an `Option` where the code goes on after the test; the buffer itself
-- is never NULL in the model.
pub mod Strip
pub mod Dirty
pub mod Keeps
pub mod Cells
pub mod Fill
pub mod Move
pub mod Seen
pub mod Lines
pub mod Scroll
pub mod Chars
pub mod Merge
pub mod Shown
pub mod Resize
pub mod Resized
pub mod Run
mod Tests
use yterm.Prelude.{
  ℕ, zero, suc, ◌+◌, ◌-◌, ◌*◌, ◌%◌, ◌≤◌, ◌<◌, min, ◌≡◌, refl, Bool, true, false, ◌&&◌, ◌||◌, not,
  List, [], ◌∷◌, Option, none, some, ltb, leb, ◌==◌, if◌then◌else◌, get_elem?, set, replicate,
  length, ℤ, pos, negsuc, pos_part, neg_part, ltb_ℤ, leb_ℤ, ◌+ℤ◌, ◌-ℤ◌,
}
use yterm.Cell.{CharCell, Loaded, default_cell, load_attrs, diff_cell, diff_two_cells}

-- `CellBuffer`: `buf` holds the rows one after another.
pub record CellBuffer : Type 0 where
  pub width : ℕ
  pub height : ℕ
  pub buf : List CharCell
  pub dirty_count : ℕ

abbrev pub max_buffer_size : ℕ
max_buffer_size = 32767

-- `cbuf_new`: `none` is the failed assertion on the size. (`malloc` is taken to succeed.)
unfoldable pub cbuf_new : ℕ → ℕ → Option CellBuffer
cbuf_new w h =
    if leb 1 w && leb w max_buffer_size && leb 1 h && leb h max_buffer_size
    then some (record {
      width = w;
      height = h;
      buf = replicate (w * h) default_cell;
      dirty_count = w * h;
    })
    else none

-- `cbuf_free`.
abbrev pub cbuf_free : CellBuffer → CellBuffer
cbuf_free cb = record { width = 0; height = 0; buf = []; dirty_count = 0 }

-- The address `buf[y * width + x]`.
abbrev pub address : CellBuffer → ℕ → ℕ → ℕ
address cb x y = y * cb.width + x

-- `cbuf_cell_at`: `none` is NULL.
unfoldable pub cbuf_cell_at : CellBuffer → ℤ → ℤ → Option CharCell
cbuf_cell_at cb x y =
    if leb_ℤ (pos 0) x && leb_ℤ (pos 0) y && ltb_ℤ x (pos cb.width) && ltb_ℤ y (pos cb.height)
    then get_elem? cb.buf (address cb (pos_part x) (pos_part y))
    else none

-- A loop body: what it does to the cell `*cc` and to `cbuf->dirtyCount`. The count is decremented
-- only for a dirty cell, so that it is not 0 there while it is the number of dirty cells.
abbrev pub Code : Type 0
Code = CharCell → ℕ → CharCell × ℕ

-- One round of a loop, at the cell with the given address.
unfoldable pub touch : Code → ℕ → CellBuffer → CellBuffer
touch code i cb = elim (get_elem? cb.buf i) [
  | none ↦ cb
  | some c ↦
      let (c', n) = code c cb.dirty_count in record cb { buf = set cb.buf i c'; dirty_count = n }
]

-- `while (cnt != 0) { cnt -= 1; code; cc += 1; }` from the address `i`.
unfoldable pub touch_span : Code → ℕ → ℕ → CellBuffer → CellBuffer
touch_span code zero i cb = cb
touch_span code (suc cnt) i cb = touch_span code cnt (i + 1) (touch code i cb)

-- The loop over the rows in PROCESS_REGION: `wdt` cells, then `cc += ofs`.
unfoldable pub touch_rows : Code → ℕ → ℕ → ℕ → CellBuffer → CellBuffer
touch_rows code zero wdt i cb = cb
touch_rows code (suc rows) wdt i cb =
    touch_rows code rows wdt (i + wdt + (cb.width - wdt)) (touch_span code wdt i cb)

pub record Region : Type 0 where
  pub x0 : ℕ
  pub y0 : ℕ
  pub x1 : ℕ
  pub y1 : ℕ

-- `if (x1 >= cbwdt) x1 = cbwdt - 1;` at an `x1` that is not negative.
unfoldable pub clip_last : ℕ → ℤ → ℕ
clip_last w x1 = if leb_ℤ (pos w) x1 then w - 1 else pos_part x1

-- CLIP_REGION(): `none` is the early return.
unfoldable pub clip_region : ℕ → ℕ → ℤ → ℤ → ℤ → ℤ → Option Region
clip_region w h x0 y0 x1 y1 =
    if ltb_ℤ x1 (pos 0) || ltb_ℤ y1 (pos 0) || ltb_ℤ x1 x0 || ltb_ℤ y1 y0
    then none
    else if leb_ℤ (pos w) x0
    then none
    else if leb_ℤ (pos h) y0
    then none
    else some
        (record { x0 = pos_part x0; y0 = pos_part y0; x1 = clip_last w x1; y1 = clip_last h y1 })

-- PROCESS_REGION(code).
unfoldable pub process_region : Code → CellBuffer → ℤ → ℤ → ℤ → ℤ → CellBuffer
process_region code cb x0 y0 x1 y1 = elim (clip_region cb.width cb.height x0 y0 x1 y1) [
  | none ↦ cb
  | some r ↦ touch_rows code (r.y1 + 1 - r.y0) (r.x1 - r.x0 + 1) (address cb r.x0 r.y0) cb
]

unfoldable pub mark_dirty_code : Code
mark_dirty_code c n = if not c.dirty then (record c { dirty = true }, n + 1) else (c, n)

unfoldable pub mark_clean_code : Code
mark_clean_code c n = if c.dirty then (record c { dirty = false }, n - 1) else (c, n)

-- The assignments under `if (DIFF_CELL(cc, ch))`; `cc->ch` holds 16 bits.
unfoldable pub put_code : Loaded → ℕ → Code
put_code l ch c n =
    if diff_cell l ch c
    then (
      record {
        ch = ch % 65536;
        attrs = l.attrs;
        auto_wrap = l.auto_wrap;
        dirty = l.dirty;
        fg = l.fg;
        bg = l.bg;
      },
      if not c.dirty then n + 1 else n,
    )
    else (c, n)

-- `cbuf_mark_region_dirty` and `cbuf_mark_region_clean`.
unfoldable pub mark_region_dirty : CellBuffer → ℤ → ℤ → ℤ → ℤ → CellBuffer
mark_region_dirty = process_region mark_dirty_code

unfoldable pub mark_region_clean : CellBuffer → ℤ → ℤ → ℤ → ℤ → CellBuffer
mark_region_clean = process_region mark_clean_code

abbrev pub mark_dirty : CellBuffer → ℤ → ℤ → CellBuffer
mark_dirty cb x y = mark_region_dirty cb x y x y

abbrev pub mark_all_dirty : CellBuffer → CellBuffer
mark_all_dirty cb =
    mark_region_dirty cb (pos 0) (pos 0) (pos cb.width -ℤ pos 1) (pos cb.height -ℤ pos 1)

abbrev pub mark_all_clean : CellBuffer → CellBuffer
mark_all_clean cb =
    mark_region_clean cb (pos 0) (pos 0) (pos cb.width -ℤ pos 1) (pos cb.height -ℤ pos 1)

-- The character that `cbuf_clear_region` fills with: 0x02 if `attr` is NULL.
unfoldable pub clear_char : Option CharCell → ℕ
clear_char none = 0x02
clear_char (some a) = a.ch

-- `cbuf_clear_region`.
unfoldable pub clear_region : CellBuffer → ℤ → ℤ → ℤ → ℤ → Option CharCell → CellBuffer
clear_region cb x0 y0 x1 y1 attr =
    process_region (put_code (load_attrs attr) (clear_char attr)) cb x0 y0 x1 y1

-- `cbuf_write_wchar_count`.
unfoldable pub write_wchar_count : CellBuffer → ℤ → ℤ → ℕ → ℤ → Option CharCell → CellBuffer
write_wchar_count cb x y ch count attr =
    if ltb_ℤ count (pos 1)
      || ltb_ℤ y (pos 0)
      || leb_ℤ (pos cb.height) y
      || leb_ℤ (pos cb.width) x
      || (ltb_ℤ x (pos 0) && leb_ℤ (x +ℤ count) (pos 0))
    then cb
    else let cnt = if ltb_ℤ x (pos 0) then pos_part (count +ℤ x) else pos_part count in
      let left = cb.width - pos_part x in
      touch_span (put_code (load_attrs attr) (if ltb 0xffff ch then 0xfffd else ch))
        (if ltb left cnt then left else cnt) (address cb (pos_part x) (pos_part y)) cb

abbrev pub write_wchar : CellBuffer → ℤ → ℤ → ℕ → Option CharCell → CellBuffer
write_wchar cb x y ch attr = write_wchar_count cb x y ch (pos 1) attr

-- The loop body of `cbuf_merge_cell`.
unfoldable pub merge_code : CharCell → Code
merge_code s d n =
    if diff_two_cells s d
    then (record s { dirty = true }, if not d.dirty then n + 1 else n)
    else (d, n)

-- `cbuf_merge_cell`.
unfoldable pub merge_cell : CellBuffer → ℤ → ℤ → CharCell → CellBuffer
merge_cell cb x y cell =
    if leb_ℤ (pos 0) x && leb_ℤ (pos 0) y && ltb_ℤ x (pos cb.width) && ltb_ℤ y (pos cb.height)
    then touch (merge_code cell) (address cb (pos_part x) (pos_part y)) cb
    else cb

unfoldable pub wrap_code : Bool → Code
wrap_code wrap c n = (record c { auto_wrap = wrap }, n)

-- `cbuf_mark_line_autowrap` and `cbuf_unmark_line_autowrap`.
unfoldable pub mark_line_autowrap : CellBuffer → ℤ → CellBuffer
mark_line_autowrap cb y =
    if leb_ℤ (pos 0) y && ltb_ℤ y (pos cb.height)
    then touch (wrap_code true) ((pos_part y + 1) * cb.width - 1) cb
    else cb

unfoldable pub unmark_line_autowrap : CellBuffer → ℤ → CellBuffer
unmark_line_autowrap cb y =
    if leb_ℤ (pos 0) y && ltb_ℤ y (pos cb.height)
    then touch (wrap_code false) ((pos_part y + 1) * cb.width - 1) cb
    else cb
