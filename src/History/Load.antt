-- ===== src/History/Load.antt =====
-- history.inc.c: the functions that read lines back.
use yterm.Prelude.{
  ℕ, ◌+◌, ◌-◌, ◌&&◌, ◌||◌, not, List, [], ◌∷◌, Option, none, some, ltb, leb, ◌==◌, if◌then◌else◌,
  length, ℤ, pos, pos_part, ltb_ℤ, leb_ℤ,
}
use yterm.Cell.{CharCell}
use yterm.Cellwin.{CellBuffer, merge_cell}
use yterm.History.{HistoryFile, Access, history_flush, line_at}

-- The read of a line, where `lseek` succeeds and the file has the whole line.
unfoldable pub read_line : Access → ℕ → HistoryFile → Option (List CharCell)
read_line rd y f =
    let line = line_at f.width y f.store in
    if rd.seek && rd.done && length line == f.width then some line else none

-- `history_load_line`; `hw` and `hh` are the sizes of `hvbuf`.
unfoldable pub history_load_line :
    Access → Access → CellBuffer → ℕ → ℕ → ℤ → HistoryFile → HistoryFile × Option (List CharCell)
unfolding history_flush read_line
history_load_line a rd cb hw hh gy f0 =
    let lcount = if f0.is_open then f0.lcount else 0 in
    if hh == 0 || ltb_ℤ gy (pos 0) || leb (lcount + hh) (pos_part gy)
    then (f0, none)
    else if ltb (pos_part gy) lcount
    then (let (f, ok) = history_flush a f0 in
        if not ok || not f.is_open || not (f.width == hw)
        then (f, none)
        else (f, read_line rd (pos_part gy) f))
    else if ltb (pos_part gy - lcount) cb.height
    then (f0, some (line_at hw (pos_part gy - lcount) cb.buf))
    else (f0, none)

-- The loop of `history_put_line`, from the column `x` on.
unfoldable pub merge_line : ℕ → ℕ → List CharCell → CellBuffer → CellBuffer
merge_line x y [] hv = hv
merge_line x y (c ∷ cells) hv = merge_line (x + 1) y cells (merge_cell hv (pos x) (pos y) c)

-- `history_put_line`, into the buffer `hvbuf`.
unfoldable pub history_put_line :
    Access → Access → ℤ → ℤ → HistoryFile → CellBuffer → HistoryFile × CellBuffer
unfolding history_flush read_line merge_line
history_put_line a rd cbufy y f0 hv =
    if not f0.is_open
      || ltb_ℤ cbufy (pos 0)
      || leb_ℤ (pos hv.height) cbufy
      || ltb_ℤ y (pos 0)
      || leb_ℤ (pos f0.lcount) y
      || ltb f0.width 1
      || ltb 65535 f0.width
    then (f0, hv)
    else (let (f, ok) = history_flush a f0 in
        if not ok then (f, hv) else elim (read_line rd (pos_part y) f) [
          | none ↦ (f, hv)
          | some cells ↦ (f, merge_line 0 (pos_part cbufy) cells hv)
        ])
