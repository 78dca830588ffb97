-- ===== src/Selection/Words/Sizes.antt =====
-- Drawing the selection keeps the sizes of the buffers.
use yterm.Prelude.{
  ℕ, zero, suc, ◌+◌, ◌≡◌, refl, ◌∙◌, Bool, true, false, ◌&&◌, ◌||◌, not, Option, none, some, List,
  [], ◌∷◌, inl, inr, ltb, ◌==◌, if◌then◌else◌, ℤ, pos, pos_part, ◌+ℤ◌, ◌-ℤ◌, ltb_ℤ, leb_ℤ,
  Bool-cases, arith, take, drop,
}
use yterm.Cell.{CharCell}
use yterm.Cellwin.{CellBuffer, mark_all_dirty, mark_dirty}
use yterm.Cellwin.Dirty.{Keeps, Accounts, touch_span-Keeps}
use yterm.Cellwin.Keeps.{merge_cell-Keeps, mark_region_dirty-Keeps}
use yterm.History.{HistoryFile, Access, history_flush}
use yterm.History.Load.{history_put_line, merge_line, read_line}
use yterm.Selection.{Selection, View, in_selection}
use yterm.Selection.Draw.{
  marked, mark_code, mark_columns, mark_row, mark_rows, mark_selected_block, Reads, draw_history,
  draw_screen, draw_over, draw_selection,
}

-- Buffers of one size.
pub record SameSize (a b : CellBuffer) : Type 0 where
  pub width : b.width ≡ a.width
  pub height : b.height ≡ a.height

SameSize-refl : (a : CellBuffer) → SameSize a a
SameSize-refl a = record { width = refl; height = refl }

SameSize-trans : {a b c : CellBuffer} → SameSize a b → SameSize b c → SameSize a c
SameSize-trans p q = record { width = q.width ∙ p.width; height = q.height ∙ p.height }

SameSize-if :
    (b : Bool) {a p q : CellBuffer} → SameSize a p → SameSize a q → SameSize a (if b then p else q)
SameSize-if true h k = h
SameSize-if false h k = k

of_Keeps : {a b : CellBuffer} → Keeps a b → SameSize a b
of_Keeps k = record { width = k.width; height = k.height }

pub mark_dirty-SameSize : (cb : CellBuffer) (x y : ℤ) → SameSize cb (mark_dirty cb x y)
mark_dirty-SameSize cb x y = of_Keeps (mark_region_dirty-Keeps cb x y x y)

pub mark_all-SameSize : (cb : CellBuffer) → SameSize cb (mark_all_dirty cb)
mark_all-SameSize cb = of_Keeps (mark_region_dirty-Keeps cb _ _ _ _)

merge_line-SameSize :
    (cells : List CharCell) (x y : ℕ) (hv : CellBuffer) → SameSize hv (merge_line x y cells hv)
unfolding merge_line
merge_line-SameSize [] x y hv = SameSize-refl hv
merge_line-SameSize (c ∷ cells) x y hv =
    SameSize-trans (of_Keeps (merge_cell-Keeps hv (pos x) (pos y) c))
      (merge_line-SameSize cells (x + 1) y _)

-- A file and a buffer of the size of `hv`.
record Sized (hv : CellBuffer) (p : HistoryFile × CellBuffer) : Type 0 where
  size : SameSize hv p.1

pair_if :
    (b : Bool) {hv : CellBuffer} {p q : HistoryFile × CellBuffer}
    → Sized hv p
    → Sized hv q
    → Sized hv (if b then p else q)
pair_if true h k = h
pair_if false h k = k

unchanged : (f : HistoryFile) (hv : CellBuffer) → Sized hv (f, hv)
unchanged f hv = record { size = SameSize-refl hv }

read-Sized :
    (o : Option (List CharCell)) (y : ℕ) (f : HistoryFile) (hv : CellBuffer)
    → Sized hv (elim o [ none ↦ (f, hv) | some cells ↦ (f, merge_line 0 y cells hv) ])
read-Sized none y f hv = unchanged f hv
read-Sized (some cells) y f hv = record { size = merge_line-SameSize cells 0 y hv }

put_line-Sized :
    (a rd : Access) (cy y : ℤ) (f : HistoryFile) (hv : CellBuffer)
    → Sized hv (history_put_line a rd cy y f hv)
unfolding history_put_line
put_line-Sized a rd cy y f hv =
    pair_if
      (not f.is_open
        || ltb_ℤ cy (pos 0)
        || leb_ℤ (pos hv.height) cy
        || ltb_ℤ y (pos 0)
        || leb_ℤ (pos f.lcount) y
        || ltb f.width 1
        || ltb 65535 f.width)
      (unchanged f hv)
      (pair_if (not (history_flush a f).1) (unchanged (history_flush a f).0 hv) (
        read-Sized (read_line rd (pos_part y) (history_flush a f).0) (pos_part cy)
          (history_flush a f).0 hv))

put_line-SameSize :
    (a rd : Access) (cy y : ℤ) (f : HistoryFile) (hv : CellBuffer)
    → SameSize hv (history_put_line a rd cy y f hv).1
put_line-SameSize a rd cy y f hv = (put_line-Sized a rd cy y f hv).size

mark-Accounts : Accounts mark_code
unfolding mark_code marked
mark-Accounts = record { keeps = λ c n h. refl }

pub rows-SameSize :
    (n lcount : ℕ) (s : Selection) (y : ℤ) (hv : CellBuffer)
    → SameSize hv (mark_rows n lcount s y hv)
unfolding mark_rows mark_row mark_columns
rows-SameSize zero lcount s y hv = SameSize-refl hv
rows-SameSize (suc n) lcount s y hv =
    SameSize-trans
      (SameSize-if _ (of_Keeps (touch_span-Keeps mark_code mark-Accounts _ _ hv))
        (SameSize-refl hv))
      (rows-SameSize n lcount s (y +ℤ pos 1) (mark_row lcount s y hv))

marks-SameSize :
    (lcount : ℕ) (s : Selection) (hv : CellBuffer) → SameSize hv (mark_selected_block lcount s hv)
unfolding mark_selected_block
marks-SameSize lcount s hv = SameSize-if _ (rows-SameSize _ lcount _ _ hv) (SameSize-refl hv)

screen-SameSize :
    (n w h ty y : ℕ) (src : List CharCell) (hv : CellBuffer)
    → SameSize hv (draw_screen n w h ty y src hv)
unfolding draw_screen
screen-SameSize zero w h ty y src hv = SameSize-refl hv
screen-SameSize (suc n) w h ty y src hv =
    SameSize-if _
      (SameSize-trans (merge_line-SameSize (take w src) 0 y hv)
        (screen-SameSize n w h (ty + 1) (y + 1) (drop w src) _))
      (SameSize-refl hv)

history-SameSize :
    (n : ℕ) (r : Reads) (y : ℕ) (hline : ℤ) (f : HistoryFile) (hv : CellBuffer)
    → SameSize hv (draw_history n r y hline f hv).2
unfolding draw_history
history-SameSize zero r y hline f hv = SameSize-refl hv
history-SameSize (suc n) r y hline f hv = elim (Bool-cases (ltb_ℤ hline (pos f.lcount))) [
  | inl t ↦ rw t (
      SameSize-trans (put_line-SameSize (r y).0 (r y).1 (pos y) hline f hv)
        (history-SameSize n r (y + 1) (hline +ℤ pos 1) _ _))
  | inr t ↦ rw t (SameSize-refl hv)
]

-- The view after drawing: the same cursor and block, and buffers of the same sizes.
pub record Drawn (v v' : View) : Type 0 where
  pub cx : v'.sel.cx ≡ v.sel.cx
  pub cy : v'.sel.cy ≡ v.sel.cy
  pub cbuf : SameSize v.cbuf v'.cbuf
  pub hvbuf : SameSize v.hvbuf v'.hvbuf

Drawn-refl : (v : View) → Drawn v v
Drawn-refl v = record {
  cx = refl;
  cy = refl;
  cbuf = SameSize-refl v.cbuf;
  hvbuf = SameSize-refl v.hvbuf;
}

draw_over-Drawn : (r : Reads) (v : View) → Drawn v (draw_over r v)
unfolding draw_over
draw_over-Drawn r v = record { cx = refl; cy = refl; cbuf = SameSize-refl v.cbuf; hvbuf = sizes }
  where
    sizes : SameSize v.hvbuf (draw_over r v).hvbuf
    sizes =
        let past =
          history-SameSize v.hvbuf.height r 0 (pos v.file.lcount -ℤ pos v.sel.sback) v.file
            v.hvbuf in
        let shown = SameSize-trans past (screen-SameSize _ _ _ 0 _ v.cbuf.buf _) in
        let all = SameSize-trans shown (marks-SameSize _ v.sel _) in
        record { width = all.width; height = all.height }

-- `term_draw_selection` of buffers of one size.
pub draw-Drawn : (r : Reads) (v : View) → SameSize v.cbuf v.hvbuf → Drawn v (draw_selection r v)
unfolding draw_selection
draw-Drawn r v same =
    let eq : (v.hvbuf.width == v.cbuf.width && v.hvbuf.height == v.cbuf.height) ≡ true =
      ground (arith, same.width, same.height) in
    elim (Bool-cases (in_selection v.sel.block)) [
      | inl b ↦ rw (b, eq) (draw_over-Drawn r v)
      | inr b ↦ rw b (Drawn-refl v)
    ]
