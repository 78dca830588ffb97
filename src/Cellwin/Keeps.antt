-- ===== src/Cellwin/Keeps.antt =====
-- Every operation of cellwin.c keeps the sizes of the buffer and its validity.
use yterm.Prelude.{
  ℕ, zero, suc, ◌+◌, ◌*◌, ◌≤◌, ◌≡◌, refl, Bool, true, false, Option, none, some, inl, inr, arith,
  if◌then◌else◌, Option-cases, get_elem?, replicate, length-replicate, ℤ,
}
use yterm.Cell.{CharCell, default_cell, load_attrs}
use yterm.Cellwin.{
  CellBuffer, cbuf_new, mark_dirty_code, mark_clean_code, put_code, mark_region_dirty,
  mark_region_clean, clear_char, clear_region, write_wchar_count, merge_code, merge_cell, wrap_code,
  mark_line_autowrap, unmark_line_autowrap,
}
use yterm.Cellwin.Strip.{
  move_code, copy_cell, copy_forward, copy_backward, copy_strip, clear_if, unmark_lines,
  scroll_lines, scroll_area, chars_at, insert_at, delete_at, insert_chars, delete_chars,
}
use yterm.Cellwin.Dirty.{
  IsValid, Accounts, Keeps, count_dirty, Keeps-refl, Keeps-trans, touch-Keeps, touch_span-Keeps,
  process_region-Keeps, mark_dirty-Accounts, mark_clean-Accounts, put-Accounts, merge-Accounts,
  overwrite-Accounts, wrap-Accounts,
}

pub load_attrs-dirty : (attr : Option CharCell) → (load_attrs attr).dirty ≡ true
unfolding load_attrs
load_attrs-dirty none = refl
load_attrs-dirty (some a) = refl

pub put-attr-Accounts : (attr : Option CharCell) (ch : ℕ) → Accounts (put_code (load_attrs attr) ch)
put-attr-Accounts attr ch = put-Accounts (load_attrs attr) ch (load_attrs-dirty attr)

pub mark_region_dirty-Keeps :
    (cb : CellBuffer) (x0 y0 x1 y1 : ℤ) → Keeps cb (mark_region_dirty cb x0 y0 x1 y1)
unfolding mark_region_dirty
mark_region_dirty-Keeps = process_region-Keeps mark_dirty_code mark_dirty-Accounts

pub mark_region_clean-Keeps :
    (cb : CellBuffer) (x0 y0 x1 y1 : ℤ) → Keeps cb (mark_region_clean cb x0 y0 x1 y1)
unfolding mark_region_clean
mark_region_clean-Keeps = process_region-Keeps mark_clean_code mark_clean-Accounts

pub clear_region-Keeps :
    (cb : CellBuffer) (x0 y0 x1 y1 : ℤ) (attr : Option CharCell)
    → Keeps cb (clear_region cb x0 y0 x1 y1 attr)
unfolding clear_region
clear_region-Keeps cb x0 y0 x1 y1 attr =
    process_region-Keeps (put_code (load_attrs attr) (clear_char attr)) (put-attr-Accounts attr _)
      cb x0 y0 x1 y1

-- Either branch of a test keeps what both keep.
pub Keeps-if :
    (b : Bool) {cb p q : CellBuffer} → Keeps cb p → Keeps cb q → Keeps cb (if b then p else q)
Keeps-if true hp hq = hp
Keeps-if false hp hq = hq

pub write_wchar_count-Keeps :
    (cb : CellBuffer) (x y : ℤ) (ch : ℕ) (count : ℤ) (attr : Option CharCell)
    → Keeps cb (write_wchar_count cb x y ch count attr)
unfolding write_wchar_count
write_wchar_count-Keeps cb x y ch count attr =
    Keeps-if _ (Keeps-refl cb) (touch_span-Keeps _ (put-attr-Accounts attr _) _ _ cb)

pub merge_cell-Keeps :
    (cb : CellBuffer) (x y : ℤ) (cell : CharCell) → Keeps cb (merge_cell cb x y cell)
unfolding merge_cell
merge_cell-Keeps cb x y cell =
    Keeps-if _ (touch-Keeps (merge_code cell) (merge-Accounts cell) _ cb) (Keeps-refl cb)

pub mark_line_autowrap-Keeps : (cb : CellBuffer) (y : ℤ) → Keeps cb (mark_line_autowrap cb y)
unfolding mark_line_autowrap
mark_line_autowrap-Keeps cb y =
    Keeps-if _ (touch-Keeps (wrap_code true) (wrap-Accounts true) _ cb) (Keeps-refl cb)

pub unmark_line_autowrap-Keeps : (cb : CellBuffer) (y : ℤ) → Keeps cb (unmark_line_autowrap cb y)
unfolding unmark_line_autowrap
unmark_line_autowrap-Keeps cb y =
    Keeps-if _ (touch-Keeps (wrap_code false) (wrap-Accounts false) _ cb) (Keeps-refl cb)

move-Accounts : (m : Bool) (s : CharCell) → Accounts (move_code m s)
unfolding move_code
move-Accounts true s = merge-Accounts s
move-Accounts false s = overwrite-Accounts s

copy_cell-Keeps : (m : Bool) (src dest : ℕ) (cb : CellBuffer) → Keeps cb (copy_cell m src dest cb)
unfolding copy_cell
copy_cell-Keeps m src dest cb = elim (Option-cases (get_elem? cb.buf src)) [
  | inl e ↦ rw (e, copy_cell) (Keeps-refl cb)
  | inr (s, e) ↦ rw (e, copy_cell) (touch-Keeps (move_code m s) (move-Accounts m s) dest cb)
]

copy_forward-Keeps :
    (m : Bool) (n src dest : ℕ) (cb : CellBuffer) → Keeps cb (copy_forward m n src dest cb)
unfolding copy_forward
copy_forward-Keeps m zero src dest cb = Keeps-refl cb
copy_forward-Keeps m (suc n) src dest cb =
    Keeps-trans (copy_cell-Keeps m src dest cb) (copy_forward-Keeps m n (src + 1) (dest + 1) _)

copy_backward-Keeps :
    (m : Bool) (n src dest : ℕ) (cb : CellBuffer) → Keeps cb (copy_backward m n src dest cb)
unfolding copy_backward
copy_backward-Keeps m zero src dest cb = Keeps-refl cb
copy_backward-Keeps m (suc n) src dest cb =
    Keeps-trans (copy_cell-Keeps m (src + n) (dest + n) cb) (copy_backward-Keeps m n src dest _)

pub copy_strip-Keeps :
    (cb : CellBuffer) (src dest n : ℕ) (m : Bool) → Keeps cb (copy_strip cb src dest n m)
unfolding copy_strip
copy_strip-Keeps cb src dest n m =
    Keeps-if _ (copy_forward-Keeps m n src dest cb) (copy_backward-Keeps m n src dest cb)

pub clear_if-Keeps :
    (cb : CellBuffer) (x0 y0 x1 y1 : ℤ) (attr : Option CharCell)
    → Keeps cb (clear_if cb x0 y0 x1 y1 attr)
unfolding clear_if
clear_if-Keeps cb x0 y0 x1 y1 none = Keeps-refl cb
clear_if-Keeps cb x0 y0 x1 y1 (some a) = clear_region-Keeps cb x0 y0 x1 y1 (some a)

unmark_lines-Keeps : (n : ℕ) (y : ℤ) (cb : CellBuffer) → Keeps cb (unmark_lines n y cb)
unfolding unmark_lines
unmark_lines-Keeps zero y cb = Keeps-refl cb
unmark_lines-Keeps (suc n) y cb =
    Keeps-trans (unmark_line_autowrap-Keeps cb y)
      (unmark_lines-Keeps n _ (unmark_line_autowrap cb y))

scroll_lines-Keeps :
    (cb : CellBuffer) (y0 y1 lines : ℕ) (up m : Bool) (attr : Option CharCell)
    → Keeps cb (scroll_lines cb y0 y1 lines up m attr)
unfolding scroll_lines
scroll_lines-Keeps cb y0 y1 lines up m attr =
    Keeps-if _
      (Keeps-if up (Keeps-trans (copy_strip-Keeps cb _ _ _ m) (clear_if-Keeps _ _ _ _ _ attr))
        (Keeps-trans (copy_strip-Keeps cb _ _ _ m) (clear_if-Keeps _ _ _ _ _ attr)))
      (clear_if-Keeps cb _ _ _ _ attr)

pub scroll_area-Keeps :
    (cb : CellBuffer) (y0 y1 lines dir : ℤ) (m : Bool) (attr : Option CharCell)
    → Keeps cb (scroll_area cb y0 y1 lines dir m attr)
unfolding scroll_area
scroll_area-Keeps cb y0 y1 lines dir m attr = Keeps-if _ (Keeps-refl cb) (
    Keeps-if _ (Keeps-refl cb)
      (Keeps-trans (scroll_lines-Keeps cb _ _ _ _ m attr) (unmark_lines-Keeps _ _ _)))

insert_at-Keeps :
    (cb : CellBuffer) (x y n : ℕ) (attr : Option CharCell) → Keeps cb (insert_at cb x y n attr)
unfolding insert_at
insert_at-Keeps cb x y n attr =
    Keeps-if _ (Keeps-trans (copy_strip-Keeps cb _ _ _ true) (clear_if-Keeps _ _ _ _ _ attr))
      (clear_if-Keeps cb _ _ _ _ attr)

delete_at-Keeps :
    (cb : CellBuffer) (x y n : ℕ) (attr : Option CharCell) → Keeps cb (delete_at cb x y n attr)
unfolding delete_at
delete_at-Keeps cb x y n attr =
    Keeps-if _ (Keeps-trans (copy_strip-Keeps cb _ _ _ true) (clear_if-Keeps _ _ _ _ _ attr))
      (clear_if-Keeps cb _ _ _ _ attr)

pub insert_chars-Keeps :
    (cb : CellBuffer) (x y count : ℤ) (attr : Option CharCell)
    → Keeps cb (insert_chars cb x y count attr)
unfolding insert_chars
insert_chars-Keeps cb x y count attr = elim (Option-cases (chars_at cb x y count)) [
  | inl e ↦ rw (e, insert_chars) (Keeps-refl cb)
  | inr (t, e) ↦
      rw (e, insert_chars)
        (Keeps-trans (insert_at-Keeps cb t.0 t.1 t.2 attr) (unmark_line_autowrap-Keeps _ y))
]

pub delete_chars-Keeps :
    (cb : CellBuffer) (x y count : ℤ) (attr : Option CharCell)
    → Keeps cb (delete_chars cb x y count attr)
unfolding delete_chars
delete_chars-Keeps cb x y count attr = elim (Option-cases (chars_at cb x y count)) [
  | inl e ↦ rw (e, delete_chars) (Keeps-refl cb)
  | inr (t, e) ↦
      rw (e, delete_chars)
        (Keeps-trans (delete_at-Keeps cb t.0 t.1 t.2 attr) (unmark_line_autowrap-Keeps _ y))
]

pub count_dirty-replicate : (n : ℕ) → count_dirty (replicate n default_cell) ≡ n
count_dirty-replicate zero = refl
count_dirty-replicate (suc n) = omega (arith, count_dirty-replicate n)

pub cbuf_new-IsValid :
    (w h : ℕ) {cb : CellBuffer}
    → cbuf_new w h ≡ some cb
    → IsValid cb × (cb.width ≡ w) × (cb.height ≡ h) × (1 ≤ w) × (1 ≤ h)
unfolding cbuf_new
cbuf_new-IsValid w h e =
    ground (arith, count_dirty-replicate (w * h), length-replicate (w * h) default_cell)
