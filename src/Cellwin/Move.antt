-- ===== src/Cellwin/Move.antt =====
-- What `copy_strip` of cellwin.c does to the looks of the cells: an overlapping move.
use mathlib.Core.Option
use yterm.Prelude.{
  ℕ, zero, suc, ◌+◌, ◌-◌, ◌≤◌, ◌<◌, ◌≡◌, ◌≢◌, refl, Bool, true, false, Option, inl, inr, arith,
  if◌then◌else◌, ltb, Bool-cases, Option-cases, length, length-set, get_elem?_of_lt,
}
use yterm.Cell.{CharCell, Look, look, look_of_not_diff}
use yterm.Cellwin.{CellBuffer, Code, touch, merge_code}
use yterm.Cellwin.Strip.{move_code, copy_cell, copy_forward, copy_backward, copy_strip}
use yterm.Cellwin.Cells.{cell, Writes, in_span, touch_self, touch_ne}

abbrev pub looks : CellBuffer → ℕ → Option Look
looks cb i = Option.map look (cell cb i)

length-touch :
    (code : Code) (i : ℕ) (cb : CellBuffer) → length (touch code i cb).buf ≡ length cb.buf
unfolding touch
length-touch code i cb = elim (Option-cases (cell cb i)) [
  | inl e ↦ ground arith
  | inr (c, e) ↦ ground (arith, length-set cb.buf i (code c cb.dirty_count).0)
]

length-copy_cell :
    (m : Bool) (src dest : ℕ) (cb : CellBuffer)
    → length (copy_cell m src dest cb).buf ≡ length cb.buf
unfolding copy_cell
length-copy_cell m src dest cb = elim (Option-cases (cell cb src)) [
  | inl e ↦ ground arith
  | inr (s, e) ↦ rw (e, copy_cell) (length-touch (move_code m s) dest cb)
]

move-Writes : (m : Bool) (s : CharCell) → Writes (move_code m s) (λ d. (move_code m s d 0).0)
unfolding move_code merge_code
move-Writes true s d n = ground arith
move-Writes false s d n = ground arith

look-move : (m : Bool) (s d : CharCell) → look (move_code m s d 0).0 ≡ look s
unfolding move_code merge_code
look-move true s d = ground (arith, look_of_not_diff s d)
look-move false s d = refl

looks-copy_cell_self :
    (m : Bool) (src dest : ℕ) (cb : CellBuffer)
    → src < length cb.buf
    → dest < length cb.buf
    → looks (copy_cell m src dest cb) dest ≡ looks cb src
unfolding copy_cell
looks-copy_cell_self m src dest cb hs hd =
    let (s, es) = get_elem?_of_lt cb.buf src hs in
    let (d, ed) = get_elem?_of_lt cb.buf dest hd in
    ground (arith, es, ed, touch_self (move_code m s) _ (move-Writes m s) dest cb, look-move m s d)

cell-copy_cell_ne :
    (m : Bool) (src dest j : ℕ) (cb : CellBuffer)
    → dest ≢ j
    → cell (copy_cell m src dest cb) j ≡ cell cb j
unfolding copy_cell
cell-copy_cell_ne m src dest j cb ne = elim (Option-cases (cell cb src)) [
  | inl e ↦ ground arith
  | inr (s, e) ↦ rw (e, copy_cell) (touch_ne (move_code m s) dest j cb ne)
]

-- What a move of `n` cells from `src` to `dest` leaves at `j`.
abbrev pub moved : (ℕ → Option Look) → ℕ → ℕ → ℕ → ℕ → Option Look
moved p src dest n j = if in_span dest n j then p (src + (j - dest)) else p j

copy_forward_lem :
    (m : Bool) (n src dest j : ℕ) (cb : CellBuffer)
    → dest < src
    → src + n ≤ length cb.buf
    → looks (copy_forward m n src dest cb) j ≡ moved (looks cb) src dest n j
unfolding copy_forward
copy_forward_lem m zero src dest j cb h fits = ground arith
copy_forward_lem m (suc n) src dest j cb h fits =
    let cb' = copy_cell m src dest cb in
    let len = length-copy_cell m src dest cb in
    let rest = copy_forward_lem m n (src + 1) (dest + 1) j cb' (omega arith) (omega arith) in
    let here = looks-copy_cell_self m src dest cb (omega arith) (omega arith) in
    ground (
      arith,
      rest,
      here,
      cell-copy_cell_ne m src dest j cb,
      cell-copy_cell_ne m src dest (src + 1 + (j - (dest + 1))) cb,
    )

copy_backward_lem :
    (m : Bool) (n src dest j : ℕ) (cb : CellBuffer)
    → src ≤ dest
    → dest + n ≤ length cb.buf
    → looks (copy_backward m n src dest cb) j ≡ moved (looks cb) src dest n j
unfolding copy_backward
copy_backward_lem m zero src dest j cb h fits = ground arith
copy_backward_lem m (suc n) src dest j cb h fits =
    let cb' = copy_cell m (src + n) (dest + n) cb in
    let len = length-copy_cell m (src + n) (dest + n) cb in
    let rest = copy_backward_lem m n src dest j cb' h (omega arith) in
    let here = looks-copy_cell_self m (src + n) (dest + n) cb (omega arith) (omega arith) in
    ground (
      arith,
      rest,
      here,
      cell-copy_cell_ne m (src + n) (dest + n) j cb,
      cell-copy_cell_ne m (src + n) (dest + n) (src + (j - dest)) cb,
    )

-- `copy_strip`, where both strips lie in the buffer, moves the looks of a strip of `count` cells, also
-- where the two overlap, with and without merging of the dirty flags; the cells outside the
-- destination keep theirs.
pub copy_strip_moves :
    (cb : CellBuffer) (src dest count : ℕ) (merge_dirty : Bool) (j : ℕ)
    → src + count ≤ length cb.buf
    → dest + count ≤ length cb.buf
    → looks (copy_strip cb src dest count merge_dirty) j ≡ moved (looks cb) src dest count j
unfolding copy_strip
copy_strip_moves cb src dest count m j hs hd = elim (Bool-cases (ltb dest src)) [
  | inl e ↦ rw e (copy_forward_lem m count src dest j cb (ground arith) hs)
  | inr e ↦ rw e (copy_backward_lem m count src dest j cb (ground arith) hd)
]
