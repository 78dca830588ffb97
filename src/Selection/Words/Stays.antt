-- ===== src/Selection/Words/Stays.antt =====
-- The cursor of the selection stays on the screen under the movements by words and cells.
use yterm.Prelude.{
  ℕ, zero, suc, ◌+◌, ◌-◌, ◌≤◌, ◌<◌, ◌≡◌, refl, ◌∙◌, Bool, true, false, ◌&&◌, ◌||◌, not, ◌==◌,
  if◌then◌else◌, ℤ, pos, pos_part, ◌+ℤ◌, ltb_ℤ, leb_ℤ, clamp, arith,
}
use yterm.Selection.{is_stream, Selection, View}
use yterm.Selection.Draw.{Reads, draw_selection}
use yterm.Selection.Words.{
  is_word, is_blank, char_at, soil_cursor, skip_left, skip_right, place, word_left, word_right,
  blanks_left, blanks_right, altword_left, altword_right, altword_move, curmove_scroll,
  selection_curmove, is_zero,
}
use yterm.Selection.Words.Sizes.{SameSize, mark_dirty-SameSize, Drawn, draw-Drawn}

-- The buffers have one size, and the cursor is inside.
pub record IsView (v : View) : Type 0 where
  pub width : v.hvbuf.width ≡ v.cbuf.width
  pub height : v.hvbuf.height ≡ v.cbuf.height
  pub in_x : v.sel.cx < v.cbuf.width
  pub in_y : v.sel.cy < v.cbuf.height

pub IsView-by :
    (b : Bool) {p q : View}
    → (b ≡ true → IsView p)
    → (b ≡ false → IsView q)
    → IsView (if b then p else q)
IsView-by true h k = h refl
IsView-by false h k = k refl

-- Another selection with the cursor inside.
pub put_sel :
    (v : View) (s : Selection)
    → IsView v
    → s.cx < v.cbuf.width
    → s.cy < v.cbuf.height
    → IsView (record v { sel = s })
put_sel v s h x y = record { width = h.width; height = h.height; in_x = x; in_y = y }

pub draw-IsView : (r : Reads) (v : View) → IsView v → IsView (draw_selection r v)
draw-IsView r v h =
    let d : Drawn v (draw_selection r v) =
      draw-Drawn r v (record { width = h.width; height = h.height }) in
    record {
      width = omega (arith, d.hvbuf.width, d.cbuf.width, h.width);
      height = omega (arith, d.hvbuf.height, d.cbuf.height, h.height);
      in_x = omega (arith, d.cx, d.cbuf.width, h.in_x);
      in_y = omega (arith, d.cy, d.cbuf.height, h.in_y);
    }

pub soil-IsView : (v : View) → IsView v → IsView (soil_cursor v)
soil-IsView v h =
    let m : SameSize v.hvbuf (soil_cursor v).hvbuf =
      mark_dirty-SameSize v.hvbuf (pos v.sel.cx) (pos v.sel.cy) in
    record { width = m.width ∙ h.width; height = m.height ∙ h.height; in_x = h.in_x; in_y = h.in_y }

pub place-IsView :
    (r : Reads) (cx cy : ℕ) (v : View)
    → IsView v
    → cx < v.cbuf.width
    → cy < v.cbuf.height
    → IsView (place r cx cy v)
unfolding place
place-IsView r cx cy v h x y =
    let h' = put_sel v (record v.sel { cx = cx; cy = cy }) h x y in
    soil-IsView _ (IsView-by v.sel.inprogress (λ e. draw-IsView r _ h') (λ e. h'))

skip_left-le : (v : View) (b : Bool) (n : ℕ) → skip_left v b n ≤ n
unfolding skip_left
skip_left-le v b zero = omega arith
skip_left-le v b (suc n) = ground (arith, skip_left-le v b n)

skip_right-le : (v : View) (b : Bool) (n x : ℕ) → skip_right v b n x ≤ x + n
unfolding skip_right
skip_right-le v b zero x = omega arith
skip_right-le v b (suc n) x = ground (arith, skip_right-le v b n (x + 1))

blanks_left-le : (v : View) (b : Bool) (n : ℕ) → blanks_left v b n ≤ n
unfolding blanks_left
blanks_left-le v b zero = omega arith
blanks_left-le v b (suc n) = ground (arith, blanks_left-le v b n)

blanks_right-le : (v : View) (b : Bool) (n x : ℕ) → blanks_right v b n x ≤ x + n
unfolding blanks_right
blanks_right-le v b zero x = omega arith
blanks_right-le v b (suc n) x = ground (arith, blanks_right-le v b n (x + 1))

pub word_left-IsView : (r : Reads) (v : View) → IsView v → IsView (word_left r v)
unfolding word_left
word_left-IsView r v h =
    let s = soil-IsView v h in
    IsView-by (v.sel.cx == 0)
      (λ e.
        IsView-by (is_stream v.sel.block)
          (λ b. place-IsView r v.sel.cx v.sel.cy _ (put_sel _ _ s h.in_x h.in_y) h.in_x h.in_y)
          (λ b. h))
      (λ e.
        place-IsView r _ v.sel.cy _ s
          (omega (arith, h.in_x, skip_left-le v (is_word (char_at v (v.sel.cx - 1))) v.sel.cx))
          h.in_y)

pub word_right-IsView : (r : Reads) (v : View) → IsView v → IsView (word_right r v)
unfolding word_right
word_right-IsView r v h =
    let s = soil-IsView v h in
    let le =
      skip_right-le v (is_word (char_at v (v.sel.cx + 1))) (v.hvbuf.width - 1 - v.sel.cx)
        v.sel.cx in
    IsView-by (v.sel.cx == v.hvbuf.width - 1)
      (λ e.
        IsView-by (is_stream v.sel.block)
          (λ b. place-IsView r v.sel.cx v.sel.cy _ (put_sel _ _ s h.in_x h.in_y) h.in_x h.in_y)
          (λ b. h))
      (λ e. place-IsView r _ v.sel.cy _ s (ground (arith, h.in_x, h.width, le)) h.in_y)

altword_left-lt : (v : View) → IsView v → altword_left v < v.cbuf.width
unfolding altword_left
altword_left-lt v h = ground (
  arith,
  h.in_x,
  blanks_left-le v (not (is_blank (char_at v v.sel.cx))) (v.sel.cx - 1),
  blanks_left-le v (is_blank (char_at v v.sel.cx)) v.sel.cx,
)

altword_right-lt : (v : View) → IsView v → altword_right v < v.cbuf.width
unfolding altword_right
altword_right-lt v h = ground (
  arith,
  h.in_x,
  h.width,
  blanks_right-le v (not (is_blank (char_at v v.sel.cx))) (v.hvbuf.width - (v.sel.cx + 1 + 1))
      (v.sel.cx + 1 + 1),
  blanks_right-le v (is_blank (char_at v v.sel.cx)) (v.hvbuf.width - (v.sel.cx + 1)) (v.sel.cx + 1),
)

pub altword-IsView :
    (r : Reads) (to_left : Bool) (v : View) → IsView v → IsView (altword_move r to_left v)
unfolding altword_move
altword-IsView r to_left v h =
    IsView-by ((if to_left then altword_left v else altword_right v) == v.sel.cx) (λ e. h)
      (λ e. place-IsView r _ v.sel.cy _ (soil-IsView v h) (target to_left) h.in_y)
  where
    target : (b : Bool) → (if b then altword_left v else altword_right v) < v.cbuf.width
    target true = altword_left-lt v h
    target false = altword_right-lt v h

scroll-IsView :
    (r : Reads) (nx cy sback : ℕ) (v : View)
    → IsView v
    → nx < v.cbuf.width
    → cy < v.cbuf.height
    → IsView (curmove_scroll r nx cy sback v)
unfolding curmove_scroll
scroll-IsView r nx cy sback v h x y = soil-IsView _ (
    IsView-by (not (sback == v.sel.sback) || v.sel.inprogress)
      (λ e. draw-IsView r _ (put_sel v _ h x y)) (λ e. put_sel v _ h x y))

pub curmove-IsView :
    (r : Reads) (dx dy : ℤ) (v : View) → IsView v → IsView (selection_curmove r dx dy v)
unfolding selection_curmove
curmove-IsView r dx dy v h =
    let s = soil-IsView v h in
    let nx : clamp (pos v.sel.cx +ℤ dx) 0 (v.cbuf.width - 1) < v.cbuf.width =
      ground (arith, h.in_x) in
    let ny = pos v.sel.cy +ℤ dy in
    let x = clamp (pos v.sel.cx +ℤ dx) 0 (v.cbuf.width - 1) in
    IsView-by (is_zero dx && is_zero dy) (λ e. h)
      (λ e.
        IsView-by (ltb_ℤ ny (pos 0)) (λ a. scroll-IsView r _ 0 _ _ s nx (omega (arith, h.in_y)))
          (λ a.
            IsView-by (leb_ℤ (pos (soil_cursor v).hvbuf.height) ny)
              (λ b. scroll-IsView r _ _ _ _ s nx (omega (arith, s.height, h.in_y)))
              (λ b.
                IsView-by (not (x == v.sel.cx) || not (pos_part ny == v.sel.cy))
                  (λ c. place-IsView r x (pos_part ny) _ s nx (ground (arith, s.height)))
                  (λ c. s))))
