-- ===== src/Cellwin/Run.antt =====
-- A cell buffer under any sequence of calls.
use yterm.Prelude.{
  ℕ, ◌≡◌, Bool, true, List, [], ◌∷◌, Option, none, some, arith, ℤ, refl, Option-cases, inl, inr,
  ◌&&◌, leb,
}
use yterm.Cell.{CharCell}
use yterm.Cellwin.{
  CellBuffer, max_buffer_size, cbuf_new, mark_region_dirty, mark_region_clean, clear_region,
  write_wchar_count, merge_cell, mark_line_autowrap, unmark_line_autowrap,
}
use yterm.Cellwin.Strip.{scroll_area, insert_chars, delete_chars}
use yterm.Cellwin.Merge.{merge_all_dirty, write_utf, merge_all_dirty-Keeps, write_utf-Keeps}
use yterm.Cellwin.Resize.{cbuf_resize}
use yterm.Cellwin.Dirty.{IsValid}
use yterm.Cellwin.Keeps.{
  cbuf_new-IsValid, mark_region_dirty-Keeps, mark_region_clean-Keeps, clear_region-Keeps,
  write_wchar_count-Keeps, merge_cell-Keeps, mark_line_autowrap-Keeps, unmark_line_autowrap-Keeps,
  scroll_area-Keeps, insert_chars-Keeps, delete_chars-Keeps,
}
use yterm.Cellwin.Resized.{cbuf_resize-IsValid}

-- The public functions of cellwin.c that change a buffer.
pub data Call : Type 0 where
  dirty_call : ℤ → ℤ → ℤ → ℤ → Call
  clean_call : ℤ → ℤ → ℤ → ℤ → Call
  clear_call : ℤ → ℤ → ℤ → ℤ → Option CharCell → Call
  write_call : ℤ → ℤ → ℕ → ℤ → Option CharCell → Call
  merge_call : ℤ → ℤ → CharCell → Call
  wrap_call : ℤ → Call
  unwrap_call : ℤ → Call
  scroll_call : ℤ → ℤ → ℤ → ℤ → Bool → Option CharCell → Call
  insert_call : ℤ → ℤ → ℤ → Option CharCell → Call
  delete_call : ℤ → ℤ → ℤ → Option CharCell → Call
  merge_all_call : CellBuffer → Call
  write_utf_call : ℤ → ℤ → List ℕ → Option CharCell → Call
  resize_call : ℕ → ℕ → Bool → Call

-- `none`: the assertion of `cbuf_resize` failed.
pub perform : Call → CellBuffer → Option CellBuffer
perform (dirty_call x0 y0 x1 y1) cb = some (mark_region_dirty cb x0 y0 x1 y1)
perform (clean_call x0 y0 x1 y1) cb = some (mark_region_clean cb x0 y0 x1 y1)
perform (clear_call x0 y0 x1 y1 attr) cb = some (clear_region cb x0 y0 x1 y1 attr)
perform (write_call x y ch count attr) cb = some (write_wchar_count cb x y ch count attr)
perform (merge_call x y cell) cb = some (merge_cell cb x y cell)
perform (wrap_call y) cb = some (mark_line_autowrap cb y)
perform (unwrap_call y) cb = some (unmark_line_autowrap cb y)
perform (scroll_call y0 y1 lines dir m attr) cb = some (scroll_area cb y0 y1 lines dir m attr)
perform (insert_call x y count attr) cb = some (insert_chars cb x y count attr)
perform (delete_call x y count attr) cb = some (delete_chars cb x y count attr)
perform (merge_all_call sbuf) cb = some (merge_all_dirty cb sbuf)
perform (write_utf_call x y str attr) cb = some (write_utf cb x y str attr)
perform (resize_call w h relayout) cb = cbuf_resize cb w h relayout

pub run : List Call → CellBuffer → Option CellBuffer
run [] cb = some cb
run (call ∷ calls) cb = elim (perform call cb) [ none ↦ none | some cb' ↦ run calls cb' ]

-- The sizes that `cbuf_resize` asserts.
abbrev legal : Call → Bool
legal (resize_call w h relayout) =
    leb 1 w && leb w max_buffer_size && leb 1 h && leb h max_buffer_size
legal _ = true

abbrev all_legal : List Call → Bool
all_legal [] = true
all_legal (call ∷ calls) = legal call && all_legal calls

abbrev Performed : Call → CellBuffer → Type 0
Performed call cb = (cb' : CellBuffer) × (perform call cb ≡ some cb') × IsValid cb'

perform-IsValid :
    (call : Call) (cb : CellBuffer) → IsValid cb → legal call ≡ true → Performed call cb
unfolding perform
perform-IsValid (dirty_call x0 y0 x1 y1) cb v h =
    (_, refl, (mark_region_dirty-Keeps cb x0 y0 x1 y1).valid v)
perform-IsValid (clean_call x0 y0 x1 y1) cb v h =
    (_, refl, (mark_region_clean-Keeps cb x0 y0 x1 y1).valid v)
perform-IsValid (clear_call x0 y0 x1 y1 attr) cb v h =
    (_, refl, (clear_region-Keeps cb x0 y0 x1 y1 attr).valid v)
perform-IsValid (write_call x y ch count attr) cb v h =
    (_, refl, (write_wchar_count-Keeps cb x y ch count attr).valid v)
perform-IsValid (merge_call x y cell) cb v h = (_, refl, (merge_cell-Keeps cb x y cell).valid v)
perform-IsValid (wrap_call y) cb v h = (_, refl, (mark_line_autowrap-Keeps cb y).valid v)
perform-IsValid (unwrap_call y) cb v h = (_, refl, (unmark_line_autowrap-Keeps cb y).valid v)
perform-IsValid (scroll_call y0 y1 lines dir m attr) cb v h =
    (_, refl, (scroll_area-Keeps cb y0 y1 lines dir m attr).valid v)
perform-IsValid (insert_call x y count attr) cb v h =
    (_, refl, (insert_chars-Keeps cb x y count attr).valid v)
perform-IsValid (delete_call x y count attr) cb v h =
    (_, refl, (delete_chars-Keeps cb x y count attr).valid v)
perform-IsValid (merge_all_call sbuf) cb v h = (_, refl, (merge_all_dirty-Keeps cb sbuf).valid v)
perform-IsValid (write_utf_call x y str attr) cb v h =
    (_, refl, (write_utf-Keeps cb x y str attr).valid v)
perform-IsValid (resize_call w h relayout) cb v ok =
    let done = cbuf_resize-IsValid cb w h relayout v ok in (done.0, done.1, done.2)

run-IsValid :
    (calls : List Call) (cb : CellBuffer)
    → IsValid cb
    → all_legal calls ≡ true
    → (cb' : CellBuffer) × (run calls cb ≡ some cb') × IsValid cb'
unfolding run
run-IsValid [] cb v h = (cb, refl, v)
run-IsValid (call ∷ calls) cb v h =
    let (next, e, valid) = perform-IsValid call cb v (ground arith) in
    let (last, e', valid') = run-IsValid calls next valid (ground arith) in
    (last, rw (e, run) e', valid')

-- From a new buffer of a legal size, any sequence of calls (those of `Call`) whose
-- resizes are to legal sizes goes through without a failed assertion, and ends in a buffer with
-- as many cells as its sizes say and with `dirtyCount` equal to the number of its dirty cells.
pub run_new-IsValid :
    (w h : ℕ) (calls : List Call)
    → (leb 1 w && leb w max_buffer_size && leb 1 h && leb h max_buffer_size) ≡ true
    → all_legal calls ≡ true
    → (cb cb' : CellBuffer) × (cbuf_new w h ≡ some cb) × (run calls cb ≡ some cb') × IsValid cb'
run_new-IsValid w h calls size ok =
    let (cb, e) = new_some in
    let (cb', e', v) = run-IsValid calls cb (cbuf_new-IsValid w h e).0 ok in (cb, cb', e, e', v)
  where
    new_some : (cb : CellBuffer) × (cbuf_new w h ≡ some cb)
    new_some = elim (Option-cases (cbuf_new w h)) [
      | inl e ↦ absurd (unfold cbuf_new in ground arith)
      | inr made ↦ made
    ]
