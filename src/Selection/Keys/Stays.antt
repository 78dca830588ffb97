-- ===== src/Selection/Keys/Stays.antt =====
-- The cursor of the selection stays on the screen under every key.
use yterm.Prelude.{
  ℕ, ◌-◌, ◌<◌, ◌≡◌, refl, Bool, true, false, ◌&&◌, not, ◌==◌, ℤ, pos, Bool-cases, inl, inr, arith,
}
use yterm.Keypad.{
  KeySym, letter, return_key, space, escape, up, down, left, right, home, end_key, page_up,
  page_down, f3, kp_enter,
}
use yterm.Selection.{
  Block, no_block, stream, line, rect, is_stream, Selection, View, has_selblock, selection_end,
  block_between, in_selection,
}
use yterm.Selection.Draw.{Reads, selection_start, selection_reset}
use yterm.Selection.Words.Sizes.{mark_all-SameSize}
use yterm.Selection.Words.Stays.{
  IsView, IsView-by, put_sel, draw-IsView, soil-IsView, word_left-IsView, word_right-IsView,
  altword-IsView, curmove-IsView,
}
use yterm.Selection.Keys.{
  Mods, leave, start_by_shift, end_of, set_block, space_key, f3_key, left_key, right_key, scroll_to,
  corner, up_key, down_key, home_key, end_key_step, page_up_key, page_down_key, is_letter,
  letter_key, click_key, selection_key, selection_keyevent,
}

leave-IsView : (v : View) → IsView v → IsView (leave v)
unfolding leave
leave-IsView v h =
    let m = mark_all-SameSize v.cbuf in
    record {
      width = omega (arith, h.width, m.width);
      height = omega (arith, h.height, m.height);
      in_x = omega (arith, h.in_x, m.width);
      in_y = omega (arith, h.in_y, m.height);
    }

start-IsView : (r : Reads) (v : View) → IsView v → IsView (selection_start r v)
unfolding selection_start
start-IsView r v h =
    IsView-by (in_selection v.sel.block) (λ e. draw-IsView r _ (put_sel v _ h h.in_x h.in_y))
      (λ e. h)

reset-IsView : (r : Reads) (v : View) → IsView v → IsView (selection_reset r v)
unfolding selection_reset
reset-IsView r v h =
    IsView-by (has_selblock v.sel) (λ e. draw-IsView r _ (put_sel v _ h h.in_x h.in_y)) (λ e. h)

by_shift-IsView : (r : Reads) (k : Mods) (v : View) → IsView v → IsView (start_by_shift r k v)
unfolding start_by_shift
by_shift-IsView r k v h =
    IsView-by (k.shift && not v.sel.inprogress) (λ e. start-IsView r v h) (λ e. h)

block_between_cursor :
    (b : Block) (stx sty cx cy : ℤ) (s : Selection)
    → ((block_between b stx sty cx cy s).cx ≡ s.cx) × ((block_between b stx sty cx cy s).cy ≡ s.cy)
unfolding block_between
block_between_cursor stream stx sty cx cy s = (ground arith, ground arith)
block_between_cursor no_block stx sty cx cy s = (refl, refl)
block_between_cursor line stx sty cx cy s = (refl, refl)
block_between_cursor rect stx sty cx cy s = (refl, refl)

pub selection_end_cursor :
    (lcount : ℕ) (s : Selection)
    → ((selection_end lcount s).cx ≡ s.cx) × ((selection_end lcount s).cy ≡ s.cy)
unfolding selection_end
selection_end_cursor lcount s = elim (Bool-cases (in_selection s.block && s.inprogress)) [
  | inl e ↦ rw e (block_between_cursor s.block s.x0 s.y0 (pos s.cx) _ s)
  | inr e ↦ rw e (refl, refl)
]

end_of-IsView : (v : View) → IsView v → IsView (end_of v)
end_of-IsView v h =
    let (x, y) = selection_end_cursor v.file.lcount v.sel in
    put_sel v (selection_end v.file.lcount v.sel) h (omega (arith, h.in_x, x))
      (omega (arith, h.in_y, y))

set_block-IsView : (b : Block) (v : View) → IsView v → IsView (set_block b v)
set_block-IsView b v h = put_sel v _ h h.in_x h.in_y

space-IsView : (r : Reads) (k : Mods) (v : View) → IsView v → IsView (space_key r k v)
unfolding space_key
space-IsView r k v h =
    IsView-by k.ctrl (λ e. start-IsView r v h)
      (λ e.
        IsView-by k.alt (λ a. reset-IsView r v h)
          (λ a.
            IsView-by (not v.sel.inprogress) (λ b. start-IsView r v h) (λ b. end_of-IsView v h)))

f3-IsView : (r : Reads) (k : Mods) (v : View) → IsView v → IsView (f3_key r k v)
unfolding f3_key
f3-IsView r k v h =
    let s = start-IsView r v h in
    IsView-by v.sel.inprogress (λ e. end_of-IsView v h)
      (λ e.
        IsView-by k.shift (λ a. set_block-IsView rect _ s)
          (λ a.
            IsView-by k.alt (λ b. draw-IsView r _ (set_block-IsView line _ s))
              (λ b. set_block-IsView stream _ s)))

left-IsView : (r : Reads) (k : Mods) (v : View) → IsView v → IsView (left_key r k v)
unfolding left_key
left-IsView r k v h =
    let s = by_shift-IsView r k v h in
    let v' = start_by_shift r k v in
    IsView-by k.alt (λ e. altword-IsView r true _ s)
      (λ e.
        IsView-by k.ctrl (λ a. word_left-IsView r _ s)
          (λ a.
            IsView-by (v'.sel.cx == 0 && is_stream v'.sel.block) (λ b. curmove-IsView r _ _ _ s)
              (λ b. curmove-IsView r _ _ _ s)))

right-IsView : (r : Reads) (k : Mods) (v : View) → IsView v → IsView (right_key r k v)
unfolding right_key
right-IsView r k v h =
    let s = by_shift-IsView r k v h in
    let v' = start_by_shift r k v in
    IsView-by k.alt (λ e. altword-IsView r false _ s)
      (λ e.
        IsView-by k.ctrl (λ a. word_right-IsView r _ s)
          (λ a.
            IsView-by (v'.sel.cx == v'.hvbuf.width - 1 && is_stream v'.sel.block)
              (λ b. curmove-IsView r _ _ _ s) (λ b. curmove-IsView r _ _ _ s)))

scroll_to-IsView : (r : Reads) (sback : ℕ) (v : View) → IsView v → IsView (scroll_to r sback v)
unfolding scroll_to
scroll_to-IsView r sback v h =
    IsView-by (v.file.lcount == 0) (λ e. h) (λ e. draw-IsView r _ (put_sel v _ h h.in_x h.in_y))

corner-IsView :
    (r : Reads) (cx cy sback : ℕ) (v : View)
    → IsView v
    → cx < v.cbuf.width
    → cy < v.cbuf.height
    → IsView (corner r cx cy sback v)
unfolding corner
corner-IsView r cx cy sback v h x y =
    draw-IsView r _ (soil-IsView _ (put_sel _ _ (soil-IsView v h) x y))

up-IsView : (r : Reads) (k : Mods) (v : View) → IsView v → IsView (up_key r k v)
unfolding up_key
up-IsView r k v h =
    let s = by_shift-IsView r k v h in
    IsView-by k.ctrl (λ e. scroll_to-IsView r _ _ s) (λ e. curmove-IsView r _ _ _ s)

down-IsView : (r : Reads) (k : Mods) (v : View) → IsView v → IsView (down_key r k v)
unfolding down_key
down-IsView r k v h =
    let s = by_shift-IsView r k v h in
    IsView-by k.ctrl (λ e. scroll_to-IsView r _ _ s) (λ e. curmove-IsView r _ _ _ s)

first_column : (v : View) → IsView v → 0 < v.cbuf.width
first_column v h = omega (arith, h.in_x)

home-IsView : (r : Reads) (k : Mods) (v : View) → IsView v → IsView (home_key r k v)
unfolding home_key
home-IsView r k v h =
    IsView-by k.ctrl
      (λ e. corner-IsView r 0 0 v.sel.sback v h (omega (arith, h.in_x)) (omega (arith, h.in_y)))
      (λ e. IsView-by (v.sel.cx == 0) (λ a. h) (λ a. curmove-IsView r _ _ v h))

end-IsView : (r : Reads) (k : Mods) (v : View) → IsView v → IsView (end_key_step r k v)
unfolding end_key_step
end-IsView r k v h =
    let s = by_shift-IsView r k v h in
    let v' = start_by_shift r k v in
    IsView-by k.ctrl
      (λ e.
        corner-IsView r _ _ v.sel.sback v h (omega (arith, h.in_x, h.width))
          (omega (arith, h.in_y, h.height)))
      (λ e. IsView-by (v'.sel.cx == v'.hvbuf.width - 1) (λ a. s) (λ a. curmove-IsView r _ _ _ s))

page_up-IsView : (r : Reads) (k : Mods) (v : View) → IsView v → IsView (page_up_key r k v)
unfolding page_up_key
page_up-IsView r k v h =
    IsView-by k.alt (λ e. scroll_to-IsView r _ v h)
      (λ e.
        IsView-by k.ctrl
          (λ a. corner-IsView r 0 0 _ v h (omega (arith, h.in_x)) (omega (arith, h.in_y)))
          (λ a. curmove-IsView r _ _ _ (by_shift-IsView r k v h)))

page_down-IsView : (r : Reads) (k : Mods) (v : View) → IsView v → IsView (page_down_key r k v)
unfolding page_down_key
page_down-IsView r k v h =
    IsView-by k.alt (λ e. scroll_to-IsView r _ v h)
      (λ e.
        IsView-by k.ctrl
          (λ a.
            corner-IsView r _ _ 0 v h (omega (arith, h.in_x, h.width))
              (omega (arith, h.in_y, h.height)))
          (λ a. curmove-IsView r _ _ _ (by_shift-IsView r k v h)))

letter-IsView : (r : Reads) (c : ℕ) (v : View) → IsView v → IsView (letter_key r c v)
unfolding letter_key
letter-IsView r c v h =
    IsView-by (is_letter c b'R') (λ e. draw-IsView r _ (set_block-IsView rect v h))
      (λ e.
        IsView-by (is_letter c b'L') (λ e. draw-IsView r _ (set_block-IsView line v h))
          (λ e.
            IsView-by (is_letter c b'S') (λ e. draw-IsView r _ (set_block-IsView stream v h))
              (λ e.
                IsView-by (is_letter c b'K') (λ e. put_sel v _ h h.in_x h.in_y)
                  (λ e. IsView-by (is_letter c b'U') (λ e. put_sel v _ h h.in_x h.in_y) (λ e. h)))))

click-IsView : (k : Mods) (v : View) → IsView v → IsView (click_key k v)
unfolding click_key
click-IsView k v h =
    elim (Bool-cases (
      not v.sel.inprogress
      && not (has_selblock v.sel)
      && v.sel.sback == 0
      && v.takes_clicks
      && not k.shift)) [ inl e ↦ rw e (leave-IsView v h) | inr e ↦ rw e h ]

key-IsView :
    (r : Reads) (k : Mods) (s : KeySym) (v : View) → IsView v → IsView (selection_key r k s v)
unfolding selection_key
key-IsView r k space v h = space-IsView r k v h
key-IsView r k f3 v h = f3-IsView r k v h
key-IsView r k left v h = left-IsView r k v h
key-IsView r k right v h = right-IsView r k v h
key-IsView r k up v h = up-IsView r k v h
key-IsView r k down v h = down-IsView r k v h
key-IsView r k home v h = home-IsView r k v h
key-IsView r k end_key v h = end-IsView r k v h
key-IsView r k page_up v h = page_up-IsView r k v h
key-IsView r k page_down v h = page_down-IsView r k v h
key-IsView r k (letter c) v h = letter-IsView r c v h
key-IsView r k return_key v h = click-IsView k v h
key-IsView r k kp_enter v h = click-IsView k v h
key-IsView r k _ v h = h

-- On every key, whatever the system returns for the lines of the history, the cursor of the selection
-- stays inside the buffer that is shown, whose size stays that of the screen.
pub selection_keyevent-IsView :
    (r : Reads) (numlock : Bool) (k : Mods) (s : KeySym) (v : View)
    → IsView v
    → IsView (selection_keyevent r numlock k s v)
unfolding selection_keyevent
selection_keyevent-IsView r numlock k escape v h = leave-IsView v h
selection_keyevent-IsView r numlock k s v h = key-IsView r k _ v h
