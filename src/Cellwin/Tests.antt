-- ===== src/Cellwin/Tests.antt =====
-- A buffer of two columns and two lines, and the functions of cellwin.c on it.
use yterm.Prelude.{ℕ, ◌≡◌, refl, ◌⊎◌, true, false, [], ◌∷◌, none, some, arith, pos, negsuc}
use yterm.Cell.{CharCell, default_cell}
use yterm.Cellwin.{CellBuffer, cbuf_new, clip_last, clear_char}
use yterm.Cellwin.Strip.{scroll_area, insert_chars, delete_chars}
use yterm.Cellwin.Resize.{cbuf_resize}
use yterm.Cellwin.Dirty.{IsValid}
use yterm.Cellwin.Seen.{looks_at}
use yterm.Cellwin.Lines.{scrolled}
use yterm.Cellwin.Scroll.{scroll_area-looks}
use yterm.Cellwin.Chars.{inserted, deleted, insert_delete-looks}
use yterm.Cellwin.Resized.{cbuf_resize-IsValid}
use yterm.Cellwin.Merge.{merge_all_dirty}
use yterm.Cellwin.Cells.{cell}
use yterm.Cellwin.Shown.{Shown, merge_all_dirty-Shown}
use yterm.Cellwin.Run.{scroll_call, resize_call, run, run_new-IsValid}

abbrev letter : ℕ → CharCell
letter c = record default_cell { ch = c; dirty = false }

abbrev letters : CellBuffer
letters = record {
  width = 2;
  height = 2;
  buf = letter 0x41 ∷ letter 0x42 ∷ letter 0x43 ∷ letter 0x44 ∷ [];
  dirty_count = 0;
}

letters-IsValid : IsValid letters
letters-IsValid = record { size = refl; counted = refl }

-- Witnesses.
scroll_area-looks_example :
    looks_at (scroll_area letters (pos 0) (pos 1) (pos 1) (negsuc 0) true (some default_cell)) 0 0
    ≡ scrolled 0 1 1 true (some default_cell) (looks_at letters) 0 0
unfolding clear_char clip_last
scroll_area-looks_example =
    scroll_area-looks letters (pos 0) (pos 1) (pos 1) (negsuc 0) true (some default_cell) 0 0
      letters-IsValid (omega arith) (omega arith)

insert_delete-looks_example :
    (looks_at (insert_chars letters (pos 0) (pos 1) (pos 1) none) 1 1
      ≡ inserted 2 0 1 1 none (looks_at letters) 1 1)
    × (looks_at (delete_chars letters (pos 0) (pos 1) (pos 1) none) 1 1
        ≡ deleted 2 0 1 1 none (looks_at letters) 1 1)
unfolding clear_char
insert_delete-looks_example =
    insert_delete-looks letters (pos 0) (pos 1) (pos 1) none 1 1 letters-IsValid (omega arith)
      (omega arith)

cbuf_resize-IsValid_example :
    (cb : CellBuffer) × (cbuf_resize letters 3 1 true ≡ some cb)
    × IsValid cb
    × (cb.width ≡ 3)
    × (cb.height ≡ 1)
    × ((cb ≡ letters) ⊎ (cb.dirty_count ≡ 3))
cbuf_resize-IsValid_example = cbuf_resize-IsValid letters 3 1 true letters-IsValid refl

run_new-IsValid_example :
    (cb cb' : CellBuffer) × (cbuf_new 2 2 ≡ some cb)
    × (run (scroll_call (pos 0) (pos 1) (pos 1) (pos 1) false none ∷ resize_call 4 1 true ∷ []) cb
        ≡ some cb')
    × IsValid cb'
run_new-IsValid_example =
    run_new-IsValid 2 2
      (scroll_call (pos 0) (pos 1) (pos 1) (pos 1) false none ∷ resize_call 4 1 true ∷ []) refl refl

-- The letters with one more letter, dirty.
abbrev other_letters : CellBuffer
other_letters = record letters {
  buf = letter 0x41 ∷ record default_cell { ch = 0x42 } ∷ letter 0x58 ∷ letter 0x44 ∷ [];
  dirty_count = 1;
}

merge_all_dirty-Shown_example :
    Shown other_letters letters 1 (cell (merge_all_dirty letters other_letters) 1)
merge_all_dirty-Shown_example =
    merge_all_dirty-Shown letters other_letters 1 letters-IsValid
      (record { size = refl; counted = refl }) refl refl (omega arith)
