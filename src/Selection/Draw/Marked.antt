-- ===== src/Selection/Draw/Marked.antt =====
-- Which cells term_mark_selected_block marks.
use mathlib.Core.Option
use yterm.Prelude.{
  ℕ, ◌+◌, ◌*◌, ◌<◌, ◌≡◌, refl, ◌∙◌, ap, ap₂, Bool, true, false, ◌&&◌, ◌||◌, inl, inr, ◌==◌,
  if◌then◌else◌, ℤ, pos, ◌+ℤ◌, ◌-ℤ◌, ◌≤ℤ◌, ltb_ℤ, leb_ℤ, Bool-cases, arith,
}
use yterm.Cellwin.{CellBuffer}
use yterm.Cellwin.Cells.{cell}
use yterm.Selection.{
  Block, no_block, stream, line, rect, in_selection, Selection, has_selblock, cy_to_gy,
  selection_end,
}
use yterm.Selection.Draw.{marked, span_of, count_up, mark_selected_block}
use yterm.Selection.Draw.Rows.{InColumns, in_columns, same_int, chosen, mark_rows_lem}

-- The place (x, y) is not behind (x', y') in the order of reading.
abbrev pub reads_before : ℤ → ℤ → ℤ → ℤ → Bool
reads_before x y x' y' = ltb_ℤ y y' || (same_int y y' && leb_ℤ x x')

-- Whether the block of a finished selection has the cell in column `x` of line `y`.
abbrev pub covers : Block → Selection → ℤ → ℤ → Bool
covers no_block s x y = false
covers stream s x y = reads_before s.x0 s.y0 x y && reads_before x y s.x1 s.y1
covers line s x y = leb_ℤ s.y0 y && leb_ℤ y s.y1
covers rect s x y = leb_ℤ s.y0 y && leb_ℤ y s.y1 && leb_ℤ s.x0 x && leb_ℤ x s.x1

lines_of_block :
    (a b g : ℤ)
    → leb_ℤ a b ≡ true
    → (leb_ℤ a g && ltb_ℤ g (a +ℤ pos (count_up a b))) ≡ (leb_ℤ a g && leb_ℤ g b)
unfolding ◌+ℤ◌ ◌-ℤ◌
lines_of_block a b g h = ground arith

up_to_last : (x w : ℕ) → x < w → leb_ℤ (pos x) (pos w -ℤ pos 1) ≡ true
unfolding ◌-ℤ◌
up_to_last x w h = ground arith

-- The order of reading, by the line of one end of the block.
from_start :
    (g y0 x0 x : ℤ)
    → pos 0 ≤ℤ x
    → (leb_ℤ y0 g && leb_ℤ (if same_int g y0 then x0 else pos 0) x) ≡ reads_before x0 y0 x g
from_start g y0 x0 x h = elim (Bool-cases (same_int g y0)) [
  | inl e ↦ rw e (ground arith)
  | inr e ↦ rw e (ground arith)
]

to_end :
    (g y1 x1 x last : ℤ)
    → leb_ℤ x last ≡ true
    → (leb_ℤ g y1 && leb_ℤ x (if same_int g y1 then x1 else last)) ≡ reads_before x g x1 y1
to_end g y1 x1 x last h = elim (Bool-cases (same_int g y1)) [
  | inl e ↦ rw e (ground arith)
  | inr e ↦ rw (e, h) (ground arith)
]

pub four : (a b c d : Bool) → ((a && b) && (c && d)) ≡ (a && b && c && d)
four true true c d = refl
four true false c d = refl
four false b c d = refl

regroup : (a b c d : Bool) → ((a && b) && (c && d)) ≡ ((a && c) && (b && d))
regroup true b true d = refl
regroup true true false d = refl
regroup true false false d = refl
regroup false b c d = refl

-- In the lines of the block, its columns are those that the order of reading, or the rectangle, gives.
pub covers_columns :
    (b : Block) (w : ℕ) (s : Selection) (x : ℕ) (g : ℤ)
    → in_selection b ≡ true
    → x < w
    → ((leb_ℤ s.y0 g && leb_ℤ g s.y1) && in_columns (span_of b w s g) x) ≡ covers b s (pos x) g
unfolding span_of
covers_columns stream w s x g e hx =
    regroup (leb_ℤ s.y0 g) (leb_ℤ g s.y1) _ _
    ∙ ap₂ (λ a b. a && b) (from_start g s.y0 s.x0 (pos x) (omega arith))
        (to_end g s.y1 s.x1 (pos x) (pos w -ℤ pos 1) (up_to_last x w hx))
covers_columns line w s x g e hx = rw (up_to_last x w hx) (ground arith)
covers_columns rect w s x g e hx =
    four (leb_ℤ s.y0 g) (leb_ℤ g s.y1) (leb_ℤ s.x0 (pos x)) (leb_ℤ (pos x) s.x1)
covers_columns no_block w s x g e hx = cc e

finished : (lcount : ℕ) (s : Selection) → s.inprogress ≡ false → selection_end lcount s ≡ s
unfolding selection_end
finished lcount s e =
    let stop : (in_selection s.block && s.inprogress) ≡ false = ground arith in rw stop

pub selblock_parts :
    (s : Selection)
    → has_selblock s ≡ true
    → (in_selection s.block ≡ true) × (leb_ℤ s.y0 s.y1 ≡ true)
unfolding has_selblock
selblock_parts s e = (ground arith, ground arith)

-- A finished selection with its corners on the screen: term_mark_selected_block marks the cell at
-- each place of the screen exactly if the block has it, and changes no other cell.
pub mark_selected_block_lem :
    (lcount : ℕ) (s : Selection) (hv : CellBuffer) (x r : ℕ)
    → s.inprogress ≡ false
    → has_selblock s ≡ true
    → InColumns hv.width s
    → x < hv.width
    → r < hv.height
    → cell (mark_selected_block lcount s hv) (r * hv.width + x) ≡ (
        if covers s.block s (pos x) (cy_to_gy lcount s (pos r))
        then Option.map marked (cell hv (r * hv.width + x))
        else cell hv (r * hv.width + x))
unfolding mark_selected_block
mark_selected_block_lem lcount s hv x r p e i hx hr =
    let same : selection_end lcount s ≡ s = finished lcount s p in
    let wide : (hv.width == 0) ≡ false = ground arith in
    let g = cy_to_gy lcount s (pos r) in
    let (on, ordered) = selblock_parts s e in
    rw (same, e, wide)
      (mark_rows_lem (count_up s.y0 s.y1) lcount s s.y0 hv hv.width hv.height x r refl refl i hx hr
        ∙ ap
            (λ b.
              if b
              then Option.map marked (cell hv (r * hv.width + x))
              else cell hv (r * hv.width + x))
            (ap (λ b. b && chosen hv.width lcount s x r) (lines_of_block s.y0 s.y1 g ordered)
              ∙ covers_columns s.block hv.width s x g on hx))
