-- ===== src/Cellwin/Merge.antt =====
-- cellwin.c: `cbuf_merge_all_dirty` and `cbuf_write_utf`.
use yterm.Prelude.{
  ℕ, zero, suc, ◌+◌, ◌-◌, min, true, ◌&&◌, ◌||◌, not, List, [], ◌∷◌, Option, none, some, arith,
  ◌==◌, if◌then◌else◌, get_elem?, inl, inr, Option-cases, ℤ, pos, pos_part, ltb_ℤ, leb_ℤ, ◌+ℤ◌,
}
use yterm.Cell.{CharCell, Loaded, load_attrs, diff_two_cells}
use yterm.Cellwin.{CellBuffer, Code, touch, put_code, address}
use yterm.Cellwin.Dirty.{Accounts, Keeps, Keeps-refl, Keeps-trans, touch-Keeps}
use yterm.Cellwin.Keeps.{Keeps-if, put-attr-Accounts}
use yterm.Utf.{valid_cp, utf8d_consume}

-- The loop body of `cbuf_merge_all_dirty`, at the cell `*src` of the other buffer.
unfoldable pub merge_dirty_code : CharCell → Code
merge_dirty_code s d n =
    if not d.dirty && (s.dirty || diff_two_cells s d)
    then (record d { dirty = true }, n + 1)
    else (d, n)

unfoldable pub merge_dirty_at : CellBuffer → ℕ → ℕ → CellBuffer → CellBuffer
merge_dirty_at sbuf src dest cb = elim (get_elem? sbuf.buf src) [
  | none ↦ cb
  | some s ↦ touch (merge_dirty_code s) dest cb
]

-- The loop over a line.
unfoldable pub merge_dirty_line : CellBuffer → ℕ → ℕ → ℕ → CellBuffer → CellBuffer
unfolding merge_dirty_at
merge_dirty_line sbuf zero src dest cb = cb
merge_dirty_line sbuf (suc n) src dest cb =
    merge_dirty_line sbuf n (src + 1) (dest + 1) (merge_dirty_at sbuf src dest cb)

-- The loop over the lines: `wdt` cells, then the rest of the line of either buffer.
unfoldable pub merge_dirty_lines : CellBuffer → ℕ → ℕ → ℕ → ℕ → CellBuffer → CellBuffer
unfolding merge_dirty_line
merge_dirty_lines sbuf zero wdt src dest cb = cb
merge_dirty_lines sbuf (suc rows) wdt src dest cb =
    merge_dirty_lines sbuf rows wdt (src + wdt + (sbuf.width - wdt)) (dest + wdt + (cb.width - wdt))
      (merge_dirty_line sbuf wdt src dest cb)

-- `cbuf_merge_all_dirty`.
unfoldable pub merge_all_dirty : CellBuffer → CellBuffer → CellBuffer
unfolding merge_dirty_lines
merge_all_dirty cb sbuf =
    merge_dirty_lines sbuf (min cb.height sbuf.height) (min cb.width sbuf.width) 0 0 cb

-- The loop of `cbuf_write_utf`, at column `x` and the cell `cc`. The text ends at its NUL.
unfoldable pub write_utf_loop : Loaded → List ℕ → ℕ → ℤ → ℕ → CellBuffer → CellBuffer
write_utf_loop l [] cp x cc cb = cb
write_utf_loop l (byte ∷ str) cp x cc cb =
    let cp' = utf8d_consume cp byte in
    let drawn = if leb_ℤ (pos 0) x then touch (put_code l cp') cc cb else cb in
    let cc' = if leb_ℤ (pos 0) x then cc + 1 else cc in
    let next = write_utf_loop l str cp' (x +ℤ pos 1) cc' drawn in
    let skip = write_utf_loop l str cp' x cc cb in
    if byte == 0 || leb_ℤ (pos cb.width) x then cb else if valid_cp cp' then next else skip

-- `cbuf_write_utf`.
unfoldable pub write_utf : CellBuffer → ℤ → ℤ → List ℕ → Option CharCell → CellBuffer
unfolding write_utf_loop
write_utf cb x y str attr =
    if ltb_ℤ y (pos 0) || leb_ℤ (pos cb.width) x || leb_ℤ (pos cb.height) y
    then cb
    else write_utf_loop (load_attrs attr) str 0 x (address cb (pos_part x) (pos_part y)) cb

merge_dirty-Accounts : (s : CharCell) → Accounts (merge_dirty_code s)
unfolding merge_dirty_code
merge_dirty-Accounts s = record { keeps = λ c n h. ground arith }

merge_dirty_at-Keeps :
    (sbuf : CellBuffer) (src dest : ℕ) (cb : CellBuffer)
    → Keeps cb (merge_dirty_at sbuf src dest cb)
unfolding merge_dirty_at
merge_dirty_at-Keeps sbuf src dest cb = elim (Option-cases (get_elem? sbuf.buf src)) [
  | inl e ↦ rw (e, merge_dirty_at) (Keeps-refl cb)
  | inr (s, e) ↦
      rw (e, merge_dirty_at) (touch-Keeps (merge_dirty_code s) (merge_dirty-Accounts s) dest cb)
]

pub merge_dirty_line-Keeps :
    (sbuf : CellBuffer) (n src dest : ℕ) (cb : CellBuffer)
    → Keeps cb (merge_dirty_line sbuf n src dest cb)
unfolding merge_dirty_line
merge_dirty_line-Keeps sbuf zero src dest cb = Keeps-refl cb
merge_dirty_line-Keeps sbuf (suc n) src dest cb =
    Keeps-trans (merge_dirty_at-Keeps sbuf src dest cb)
      (merge_dirty_line-Keeps sbuf n (src + 1) (dest + 1) _)

merge_dirty_lines-Keeps :
    (sbuf : CellBuffer) (rows wdt src dest : ℕ) (cb : CellBuffer)
    → Keeps cb (merge_dirty_lines sbuf rows wdt src dest cb)
unfolding merge_dirty_lines
merge_dirty_lines-Keeps sbuf zero wdt src dest cb = Keeps-refl cb
merge_dirty_lines-Keeps sbuf (suc rows) wdt src dest cb =
    Keeps-trans (merge_dirty_line-Keeps sbuf wdt src dest cb)
      (merge_dirty_lines-Keeps sbuf rows wdt _ _ (merge_dirty_line sbuf wdt src dest cb))

pub merge_all_dirty-Keeps : (cb sbuf : CellBuffer) → Keeps cb (merge_all_dirty cb sbuf)
unfolding merge_all_dirty
merge_all_dirty-Keeps cb sbuf =
    merge_dirty_lines-Keeps sbuf (min cb.height sbuf.height) (min cb.width sbuf.width) 0 0 cb

write_utf_loop-Keeps :
    (attr : Option CharCell) (str : List ℕ) (cp : ℕ) (x : ℤ) (cc : ℕ) (cb : CellBuffer)
    → Keeps cb (write_utf_loop (load_attrs attr) str cp x cc cb)
unfolding write_utf_loop
write_utf_loop-Keeps attr [] cp x cc cb = Keeps-refl cb
write_utf_loop-Keeps attr (byte ∷ str) cp x cc cb =
    Keeps-if (byte == 0 || leb_ℤ (pos cb.width) x) (Keeps-refl cb) (
      Keeps-if (valid_cp (utf8d_consume cp byte))
        (Keeps-trans
          (Keeps-if (leb_ℤ (pos 0) x) (touch-Keeps _ (put-attr-Accounts attr _) cc cb)
            (Keeps-refl cb))
          (write_utf_loop-Keeps attr str (utf8d_consume cp byte) (x +ℤ pos 1)
            (if leb_ℤ (pos 0) x then cc + 1 else cc) _))
        (write_utf_loop-Keeps attr str (utf8d_consume cp byte) x cc cb))

pub write_utf-Keeps :
    (cb : CellBuffer) (x y : ℤ) (str : List ℕ) (attr : Option CharCell)
    → Keeps cb (write_utf cb x y str attr)
unfolding write_utf
write_utf-Keeps cb x y str attr =
    Keeps-if _ (Keeps-refl cb) (write_utf_loop-Keeps attr str 0 x _ cb)
