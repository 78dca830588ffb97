-- ===== src/Cellwin/Resize.antt =====
-- cellwin.c: `cbuf_resize` and the line iterator that it lays lines out anew with.
use yterm.Prelude.{
  ℕ, zero, suc, ◌+◌, ◌-◌, ◌*◌, min, Bool, true, false, ◌&&◌, ◌||◌, not, List, [], ◌∷◌, ◌++◌, Option,
  none, some, ltb, leb, ◌==◌, if◌then◌else◌, get_or, replicate,
}
use mathlib.Core.List.{reverse}
use yterm.Cell.{CharCell, default_cell}
use yterm.Cellwin.{CellBuffer, max_buffer_size}

-- `LineIt`; its `w`, `h` and `buf` are those of the buffer that is iterated over.
pub record LineIt : Type 0 where
  pub x : ℕ
  pub y : ℕ
  pub addr : ℕ

-- `it_init`.
abbrev pub it_init : LineIt
it_init = record { x = 0; y = 0; addr = 0 }

-- `it_get`: `none` is NULL, at the end of a line and of the buffer. The address is in the buffer
-- while it is that of column `x` of line `y`.
unfoldable pub it_get : CellBuffer → LineIt → Option CharCell × LineIt
it_get cb it =
    if it.y == cb.height
    then (none, it)
    else if it.x == cb.width
    then (none, record it { x = 0; y = it.y + 1 })
    else let res = get_or cb.buf it.addr default_cell in
      (
        some res,
        if it.x + 1 == cb.width && res.auto_wrap
            then record { x = 0; y = it.y + 1; addr = it.addr + 1 }
            else record { x = it.x + 1; y = it.y; addr = it.addr + 1 },
      )

-- `*dest = *src`, not wrapped and dirty.
abbrev pub copied : CharCell → CharCell
copied c = record c { auto_wrap = false; dirty = true }

-- `if (y != 0) dest[-1].flags |= CELL_AUTO_WRAP;` where the head of the list is `dest[-1]`.
unfoldable pub wrap_last : ℕ → List CharCell → List CharCell
wrap_last y [] = []
wrap_last y (c ∷ out) = (if not (y == 0) then record c { auto_wrap = true } else c) ∷ out

-- `while (x < nwidth) { set_cell_defaults(dest); ... }`.
unfoldable pub pad : ℕ → List CharCell → List CharCell
pad zero out = out
pad (suc n) out = pad n (default_cell ∷ out)

-- The loop of the relayout, on fuel; `out` is what is written before `dest`, the last cell first.
unfoldable pub relayout_loop :
    CellBuffer → ℕ → ℕ → ℕ → LineIt → ℕ → ℕ → List CharCell → Option (List CharCell)
relayout_loop cb nw nh zero it x y out = none
relayout_loop cb nw nh (suc fuel) it x y out = elim (ltb y nh) [
  | false ↦ some out
  | true ↦ elim (it_get cb it).0 [
    | none ↦ relayout_loop cb nw nh fuel (it_get cb it).1 0 (y + 1) (pad (nw - x) out)
    | some c ↦ elim (x == nw) [
      | false ↦ relayout_loop cb nw nh fuel (it_get cb it).1 (x + 1) y (copied c ∷ out)
      | true ↦ elim (y + 1 == nh) [
        | true ↦ some (wrap_last y out)
        | false ↦
            relayout_loop cb nw nh fuel (it_get cb it).1 1 (y + 1) (copied c ∷ wrap_last y out)
      ]
    ]
  ]
]

-- Each round writes a cell or ends a line.
abbrev pub relayout_fuel : ℕ → ℕ → ℕ
relayout_fuel nw nh = nh * (nw + 1) + 1

-- The cells of a line that is kept: `memcpy` and the loop over the flags.
unfoldable pub copy_cells : CellBuffer → ℕ → ℕ → List CharCell
copy_cells cb zero addr = []
copy_cells cb (suc n) addr = copied (get_or cb.buf addr default_cell) ∷ copy_cells cb n (addr + 1)

-- One line of the plain resize.
unfoldable pub plain_line : CellBuffer → ℕ → ℕ → List CharCell
plain_line cb nw y =
    let xmin = min cb.width nw in
    if ltb y cb.height
    then copy_cells cb xmin (y * cb.width) ++ replicate (nw - xmin) default_cell
    else replicate nw default_cell

-- `for (int y = 0; y < nheight; y += 1)`, with `rows` lines left.
unfoldable pub plain_lines : CellBuffer → ℕ → ℕ → ℕ → List CharCell
plain_lines cb nw zero y = []
plain_lines cb nw (suc rows) y = plain_line cb nw y ++ plain_lines cb nw rows (y + 1)

unfoldable pub resized_cells : CellBuffer → ℕ → ℕ → Bool → Option (List CharCell)
resized_cells cb nw nh true = elim (relayout_loop cb nw nh (relayout_fuel nw nh) it_init 0 0 []) [
  | none ↦ none
  | some out ↦ some (reverse out)
]
resized_cells cb nw nh false = some (plain_lines cb nw nh 0)

-- `cbuf_resize`: `none` is a failed assertion on the size, or a loop that does not end.
unfoldable pub cbuf_resize : CellBuffer → ℕ → ℕ → Bool → Option CellBuffer
cbuf_resize cb nw nh relayout =
    if leb 1 nw && leb nw max_buffer_size && leb 1 nh && leb nh max_buffer_size
    then if not (cb.width == nw) || not (cb.height == nh)
      then elim (resized_cells cb nw nh relayout) [
        | none ↦ none
        | some cells ↦ some (record { width = nw; height = nh; buf = cells; dirty_count = nw * nh })
      ]
      else some cb
    else none
