-- ===== src/Selection/Ends.antt =====
-- What term_selection_end makes of the start of a selection and the cursor.
use yterm.Prelude.{
  ℕ, ◌≡◌, refl, ap, ap₂, sym, ◌∙◌, Bool, true, false, ◌&&◌, ◌||◌, not, ℤ, pos, ltb_ℤ, leb_ℤ, arith,
  Bool-cases, inl, inr,
}
use yterm.Selection.{
  Block, no_block, stream, line, rect, in_selection, Selection, has_selblock, min_int, max_int,
  cy_to_gy, block_between, selection_end,
}
use yterm.Selection.Draw.Marked.{covers, reads_before, four}

abbrev between_int : ℤ → ℤ → ℤ → Bool
between_int a b x = (leb_ℤ a x && leb_ℤ x b) || (leb_ℤ b x && leb_ℤ x a)

-- Whether a cell lies between two places: in the order of reading, by lines, or in the rectangle.
abbrev pub between : Block → ℤ → ℤ → ℤ → ℤ → ℤ → ℤ → Bool
between no_block ax ay bx by x y = false
between stream ax ay bx by x y =
    (reads_before ax ay x y && reads_before x y bx by)
    || (reads_before bx by x y && reads_before x y ax ay)
between line ax ay bx by x y = between_int ay by y
between rect ax ay bx by x y = between_int ay by y && between_int ax bx x

between_min_max : (a b x : ℤ) → (leb_ℤ (min_int a b) x && leb_ℤ x (max_int a b)) ≡ between_int a b x
between_min_max a b x = ground arith

ordered_min_max : (a b : ℤ) → leb_ℤ (min_int a b) (max_int a b) ≡ true
ordered_min_max a b = ground arith

abbrev same_line : ℤ → ℤ → Bool
same_line a b = not (ltb_ℤ b a || ltb_ℤ a b)

-- In one line, below it, and above it.
one_line :
    (ax bx ay by x y : ℤ)
    → same_line ay by ≡ true
    → (reads_before (min_int ax bx) ay x y && reads_before x y (max_int ax bx) ay)
      ≡ between stream ax ay bx by x y
one_line ax bx ay by x y e = ground arith

upwards :
    (ax bx ay by x y : ℤ)
    → ltb_ℤ by ay ≡ true
    → (reads_before bx by x y && reads_before x y ax ay) ≡ between stream ax ay bx by x y
upwards ax bx ay by x y e = ground arith

downwards :
    (ax bx ay by x y : ℤ)
    → ltb_ℤ ay by ≡ true
    → (reads_before ax ay x y && reads_before x y bx by) ≡ between stream ax ay bx by x y
downwards ax bx ay by x y e = ground arith

block_between-covers :
    (b : Block) (ax ay bx by x y : ℤ) (s : Selection)
    → covers b (block_between b ax ay bx by s) x y ≡ between b ax ay bx by x y
unfolding block_between
block_between-covers stream ax ay bx by x y s = elim (Bool-cases (same_line ay by)) [
  | inl e ↦ rw e (one_line ax bx ay by x y e)
  | inr e ↦ elim (Bool-cases (ltb_ℤ by ay)) [
    | inl l ↦ rw (e, l) (upwards ax bx ay by x y l)
    | inr l ↦ rw (e, l) (downwards ax bx ay by x y (ground arith))
  ]
]
block_between-covers line ax ay bx by x y s = between_min_max ay by y
block_between-covers rect ax ay bx by x y s = four_ends
  where
    four_ends :
        (leb_ℤ (min_int ay by) y
          && leb_ℤ y (max_int ay by)
          && leb_ℤ (min_int ax bx) x
          && leb_ℤ x (max_int ax bx))
        ≡ (between_int ay by y && between_int ax bx x)
    four_ends =
        sym (
          four (leb_ℤ (min_int ay by) y) (leb_ℤ y (max_int ay by)) (leb_ℤ (min_int ax bx) x)
            (leb_ℤ x (max_int ax bx)))
        ∙ ap₂ (λ p q. p && q) (between_min_max ay by y) (between_min_max ax bx x)
block_between-covers no_block ax ay bx by x y s = refl

block_between-ordered :
    (b : Block) (ax ay bx by : ℤ) (s : Selection)
    → leb_ℤ (block_between b ax ay bx by s).y0 (block_between b ax ay bx by s).y1 ≡ true
unfolding block_between
block_between-ordered stream ax ay bx by s = elim (Bool-cases (same_line ay by)) [
  | inl e ↦ rw e (ground arith)
  | inr e ↦ elim (Bool-cases (ltb_ℤ by ay)) [
    | inl l ↦ rw (e, l) (ground arith)
    | inr l ↦ rw (e, l) (ground arith)
  ]
]
block_between-ordered line ax ay bx by s = ordered_min_max ay by
block_between-ordered rect ax ay bx by s = ordered_min_max ay by
block_between-ordered no_block ax ay bx by s = ordered_min_max ay by

block_between-block :
    (b : Block) (ax ay bx by : ℤ) (s : Selection) → (block_between b ax ay bx by s).block ≡ s.block
unfolding block_between
block_between-block stream ax ay bx by s = ground arith
block_between-block line ax ay bx by s = refl
block_between-block rect ax ay bx by s = refl
block_between-block no_block ax ay bx by s = refl

-- term_selection_end of a selection in progress: it is finished and has a block, whose cells are those
-- between the place where the selection started and the cursor, whichever of them comes first: in the
-- order of reading, in whole lines, or in the rectangle, as the kind of the block is.
pub selection_end_lem :
    (lcount : ℕ) (s : Selection) (x y : ℤ)
    → in_selection s.block ≡ true
    → s.inprogress ≡ true
    → ((selection_end lcount s).inprogress ≡ false)
      × (has_selblock (selection_end lcount s) ≡ true)
      × (covers (selection_end lcount s).block (selection_end lcount s) x y
          ≡ between s.block s.x0 s.y0 (pos s.cx) (cy_to_gy lcount s (pos s.cy)) x y)
unfolding selection_end has_selblock
selection_end_lem lcount s x y on busy =
    let both : (in_selection s.block && s.inprogress) ≡ true = ground arith in
    let gy = cy_to_gy lcount s (pos s.cy) in
    let kept = block_between-block s.block s.x0 s.y0 (pos s.cx) gy s in
    let done = block_between s.block s.x0 s.y0 (pos s.cx) gy s in
    rw both (
      refl,
      rw (kept, on) (block_between-ordered s.block s.x0 s.y0 (pos s.cx) gy s),
      ap (λ b. covers b (record done { inprogress = false }) x y) kept
          ∙ covers_done s.block done x y
          ∙ block_between-covers s.block s.x0 s.y0 (pos s.cx) gy x y s,
    )
  where
    covers_done :
        (b : Block) (t : Selection) (x y : ℤ)
        → covers b (record t { inprogress = false }) x y ≡ covers b t x y
    covers_done stream t x y = refl
    covers_done line t x y = refl
    covers_done rect t x y = refl
    covers_done no_block t x y = refl
