-- ===== src/Selection/Draw/Rows.antt =====
-- Which cells of the lines of a block the loop of term_mark_selected_block marks.
use mathlib.Core.Option
use yterm.Prelude.{
  ℕ, zero, suc, ◌+◌, ◌*◌, ◌≤◌, ◌<◌, ◌≡◌, refl, ◌∙◌, ap, subst, Bool, true, false, ◌&&◌, ◌||◌, not,
  inl, inr, ◌==◌, if◌then◌else◌, ℤ, pos, pos_part, ◌+ℤ◌, ◌-ℤ◌, ◌≤ℤ◌, ltb_ℤ, leb_ℤ, Bool-cases,
  arith,
}
use yterm.Cell.{CharCell}
use yterm.Cellwin.{CellBuffer}
use yterm.Cellwin.Cells.{cell, in_span, touch_span_lem, in_span_line}
use yterm.Selection.{Block, no_block, stream, line, rect, Selection, cy_to_gy, gy_to_cy}
use yterm.Selection.Words.Sizes.{rows-SameSize}
use yterm.Selection.Draw.{marked, mark_code, span_of, count_up, mark_columns, mark_row, mark_rows}

-- The corners of the block are columns of a screen of width `w`.
pub record InColumns (w : ℕ) (s : Selection) : Type 0 where
  pub left : pos 0 ≤ℤ s.x0
  pub left_lt : ltb_ℤ s.x0 (pos w) ≡ true
  pub right : pos 0 ≤ℤ s.x1
  pub right_lt : ltb_ℤ s.x1 (pos w) ≡ true

abbrev pub in_columns : ℤ × ℤ → ℕ → Bool
in_columns (a, b) x = leb_ℤ a (pos x) && leb_ℤ (pos x) b

abbrev pub same_int : ℤ → ℤ → Bool
same_int a b = not (ltb_ℤ a b || ltb_ℤ b a)

count_up_fits :
    (x0 x1 : ℤ) (w : ℕ)
    → pos 0 ≤ℤ x0
    → x0 ≤ℤ pos w
    → ltb_ℤ x1 (pos w) ≡ true
    → pos_part x0 + count_up x0 x1 ≤ w
unfolding ◌+ℤ◌ ◌-ℤ◌
count_up_fits x0 x1 w h0 h1 h2 = ground arith

in_span-columns :
    (x0 x1 : ℤ) (x : ℕ)
    → pos 0 ≤ℤ x0
    → in_span (pos_part x0) (count_up x0 x1) x ≡ in_columns (x0, x1) x
unfolding ◌+ℤ◌ ◌-ℤ◌
in_span-columns x0 x1 x h = ground arith

columns_lem :
    (wy : ℕ) (x0 x1 : ℤ) (hv : CellBuffer) (x r : ℕ)
    → pos 0 ≤ℤ x0
    → x0 ≤ℤ pos hv.width
    → ltb_ℤ x1 (pos hv.width) ≡ true
    → x < hv.width
    → cell (mark_columns wy x0 x1 hv) (r * hv.width + x) ≡ (
        if r == wy && in_columns (x0, x1) x
        then Option.map marked (cell hv (r * hv.width + x))
        else cell hv (r * hv.width + x))
unfolding mark_columns mark_code
columns_lem wy x0 x1 hv x r h0 h1 h2 hx =
    touch_span_lem mark_code marked (λ c n. refl) (count_up x0 x1) (wy * hv.width + pos_part x0)
      (r * hv.width + x) hv
    ∙ ap
        (λ b.
          if b then Option.map marked (cell hv (r * hv.width + x)) else cell hv (r * hv.width + x))
        (in_span_line hv.width wy (pos_part x0) (count_up x0 x1) x r hx
            (count_up_fits x0 x1 hv.width h0 h1 h2)
          ∙ ap (λ b. r == wy && b) (in_span-columns x0 x1 x h0))

-- The columns of the block in a line are columns of the screen.
pub span_of_bounds :
    (b : Block) (w : ℕ) (s : Selection) (y : ℤ)
    → InColumns w s
    → (pos 0 ≤ℤ (span_of b w s y).0)
      × ((span_of b w s y).0 ≤ℤ pos w)
      × (ltb_ℤ (span_of b w s y).1 (pos w) ≡ true)
unfolding span_of ◌-ℤ◌
span_of_bounds stream w s y h = (ground arith, ground arith, ground arith)
span_of_bounds rect w s y h = (ground arith, ground arith, ground arith)
span_of_bounds line w s y h = (ground arith, ground arith, ground arith)
span_of_bounds no_block w s y h = (ground arith, ground arith, ground arith)

-- A line of the block is on the screen in row `r` exactly if it is the line of that row.
row_of_line :
    (lcount : ℕ) (s : Selection) (y : ℤ) (h r : ℕ)
    → r < h
    → ((leb_ℤ (pos 0) (gy_to_cy lcount s y) && ltb_ℤ (gy_to_cy lcount s y) (pos h))
        && r == pos_part (gy_to_cy lcount s y))
      ≡ same_int y (cy_to_gy lcount s (pos r))
unfolding gy_to_cy cy_to_gy ◌+ℤ◌ ◌-ℤ◌
row_of_line lcount s y h r l = ground arith

row_if :
    (shown here inside same : Bool) (hv hv' : CellBuffer) (i : ℕ) (c : Option.Option CharCell)
    → (shown && here) ≡ same
    → cell hv' i ≡ (if here && inside then c else cell hv i)
    → cell (if shown then hv' else hv) i ≡ (if same && inside then c else cell hv i)
row_if true here inside same hv hv' i c e h = rw (← e) h
row_if false here inside same hv hv' i c e h = rw (← e) refl

mark_row_lem :
    (lcount : ℕ) (s : Selection) (y : ℤ) (hv : CellBuffer) (x r : ℕ)
    → InColumns hv.width s
    → x < hv.width
    → r < hv.height
    → cell (mark_row lcount s y hv) (r * hv.width + x) ≡ (
        if same_int y (cy_to_gy lcount s (pos r)) && in_columns (span_of s.block hv.width s y) x
        then Option.map marked (cell hv (r * hv.width + x))
        else cell hv (r * hv.width + x))
unfolding mark_row
mark_row_lem lcount s y hv x r i hx hr =
    let wy = gy_to_cy lcount s y in
    let (x0, x1) = span_of s.block hv.width s y in
    let (b0, b1, b2) = span_of_bounds s.block hv.width s y i in
    row_if (leb_ℤ (pos 0) wy && ltb_ℤ wy (pos hv.height)) (r == pos_part wy) (in_columns (x0, x1) x)
      _ hv (mark_columns (pos_part wy) x0 x1 hv) (r * hv.width + x) _
      (row_of_line lcount s y hv.height r hr) (columns_lem (pos_part wy) x0 x1 hv x r b0 b1 b2 hx)

mark_row-size :
    (lcount : ℕ) (s : Selection) (y : ℤ) (hv : CellBuffer)
    → ((mark_row lcount s y hv).width ≡ hv.width) × ((mark_row lcount s y hv).height ≡ hv.height)
mark_row-size lcount s y hv =
    let k = rows-SameSize 1 lcount s y hv in unfold mark_rows in (k.width, k.height)

-- The columns of the block at a place of the screen.
abbrev pub chosen : ℕ → ℕ → Selection → ℕ → ℕ → Bool
chosen w lcount s x r = in_columns (span_of s.block w s (cy_to_gy lcount s (pos r))) x

mark_row_at :
    (lcount : ℕ) (s : Selection) (y : ℤ) (hv : CellBuffer) (w x r : ℕ)
    → hv.width ≡ w
    → r < hv.height
    → InColumns w s
    → x < w
    → cell (mark_row lcount s y hv) (r * w + x) ≡ (
        if same_int y (cy_to_gy lcount s (pos r)) && in_columns (span_of s.block w s y) x
        then Option.map marked (cell hv (r * w + x))
        else cell hv (r * w + x))
mark_row_at lcount s y hv w x r ew hr =
    subst
      (λ w.
        InColumns w s
        → x < w
        → cell (mark_row lcount s y hv) (r * w + x) ≡ (
            if same_int y (cy_to_gy lcount s (pos r)) && in_columns (span_of s.block w s y) x
            then Option.map marked (cell hv (r * w + x))
            else cell hv (r * w + x)))
      ew (λ i hx. mark_row_lem lcount s y hv x r i hx hr)

no_lines : (y g : ℤ) → (leb_ℤ y g && ltb_ℤ g (y +ℤ pos 0)) ≡ false
unfolding ◌+ℤ◌
no_lines y g = ground arith

lines_split :
    (n : ℕ) (y g : ℤ)
    → (same_int y g ≡ true → (leb_ℤ (y +ℤ pos 1) g && ltb_ℤ g (y +ℤ pos 1 +ℤ pos n)) ≡ false)
      × ((leb_ℤ y g && ltb_ℤ g (y +ℤ pos (suc n)))
          ≡ (same_int y g || (leb_ℤ (y +ℤ pos 1) g && ltb_ℤ g (y +ℤ pos 1 +ℤ pos n))))
unfolding ◌+ℤ◌
lines_split n y g = (λ e. ground arith, ground arith)

same_int-eq : (a b : ℤ) → same_int a b ≡ true → a ≡ b
same_int-eq a b h = ground arith

same_columns :
    (b : Block) (w : ℕ) (s : Selection) (x : ℕ) (y g : ℤ)
    → (same_int y g && in_columns (span_of b w s y) x)
      ≡ (same_int y g && in_columns (span_of b w s g) x)
same_columns b w s x y g = elim (Bool-cases (same_int y g)) [
  | inl e ↦ ap (λ t. same_int y g && in_columns (span_of b w s t) x) (same_int-eq y g e)
  | inr e ↦ rw e refl
]

join :
    (later here both inside : Bool) (c cr : Option.Option CharCell)
    → cr ≡ (if here && inside then Option.map marked c else c)
    → (here ≡ true → later ≡ false)
    → both ≡ (here || later)
    → (if later && inside then Option.map marked cr else cr)
      ≡ (if both && inside then Option.map marked c else c)
join later true both inside c cr e a b = rw (a refl, b) e
join later false both inside c cr e a b = rw (b, e)

pub mark_rows_lem :
    (n lcount : ℕ) (s : Selection) (y : ℤ) (hv : CellBuffer) (w h x r : ℕ)
    → hv.width ≡ w
    → hv.height ≡ h
    → InColumns w s
    → x < w
    → r < h
    → cell (mark_rows n lcount s y hv) (r * w + x) ≡ (
        if (leb_ℤ y (cy_to_gy lcount s (pos r)) && ltb_ℤ (cy_to_gy lcount s (pos r)) (y +ℤ pos n))
          && chosen w lcount s x r
        then Option.map marked (cell hv (r * w + x))
        else cell hv (r * w + x))
unfolding mark_rows
mark_rows_lem zero lcount s y hv w h x r ew eh i hx hr =
    rw (no_lines y (cy_to_gy lcount s (pos r))) refl
mark_rows_lem (suc n) lcount s y hv w h x r ew eh i hx hr =
    let g = cy_to_gy lcount s (pos r) in
    let (kw, kh) = mark_row-size lcount s y hv in
    let (apart, both) = lines_split n y g in
    mark_rows_lem n lcount s (y +ℤ pos 1) (mark_row lcount s y hv) w h x r (kw ∙ ew) (kh ∙ eh) i hx
      hr
    ∙ join _ (same_int y g) _ (chosen w lcount s x r) (cell hv (r * w + x)) _
        (mark_row_at lcount s y hv w x r ew (rw eh hr) i hx
          ∙ ap (λ b. if b then Option.map marked (cell hv (r * w + x)) else cell hv (r * w + x))
              (same_columns s.block w s x y g))
        apart both
