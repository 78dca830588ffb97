-- ===== src/Term/Inv/Moves.antt =====
-- The cursor functions keep the invariant of the screen, and where they leave the cursor.
use yterm.Prelude.{
  ℕ, ◌-◌, ◌≤◌, ◌<◌, ◌≡◌, refl, Bool, true, false, arith, if◌then◌else◌, ℤ, pos, clamp, ◌+ℤ◌,
}
use yterm.Cellwin.Keeps.{mark_region_dirty-Keeps}
use yterm.Term.{Screen}
use yterm.Term.Cursor.{
  invalidate_cursor, set_xy, set_just_moved, lcf_reset, lcf_reset_nocmove, move_cursor,
  move_if_changed, curmove_abs, curmove_rel, clamp_delta, restore_position,
}
use yterm.Term.Inv.{IsScreen, Safe, Safe-if, with_cbuf, with_cursor}

clamp_le : (a : ℤ) (lo hi : ℕ) → lo ≤ hi → (lo ≤ clamp a lo hi) × (clamp a lo hi ≤ hi)
clamp_le a lo hi l = ground arith

pub invalidate_cursor-curpos : (s : Screen) → (invalidate_cursor s).curpos ≡ s.curpos
unfolding invalidate_cursor
invalidate_cursor-curpos s = ground arith

clamp_size_lt : (a : ℤ) (n w c : ℕ) → n ≡ w → c < w → clamp a 0 (n - 1) < w
clamp_size_lt a n w c e l = omega (arith, clamp_le a 0 (n - 1) (omega arith))

clamp_region_lt : (a : ℤ) (top bot h : ℕ) → top ≤ bot → bot < h → clamp a top bot < h
clamp_region_lt a top bot h r b = omega (arith, clamp_le a top bot r)

pub if_lt : (b : Bool) {p q h : ℕ} → p < h → q < h → (if b then p else q) < h
if_lt true hp hq = hp
if_lt false hp hq = hq

module _ {w h : ℕ} where
  pub invalidate_cursor-Safe : Safe w h invalidate_cursor
  unfolding invalidate_cursor
  invalidate_cursor-Safe s i = Safe-if _ (with_cbuf i (mark_region_dirty-Keeps s.cbuf _ _ _ _)) i

  pub lcf_reset-Safe : Safe w h lcf_reset
  unfolding lcf_reset
  lcf_reset-Safe s i =
      with_cursor i
        (record { column = i.cursor.column; row = i.cursor.row; flag = λ e. ground arith })

  pub lcf_reset_nocmove-Safe : Safe w h lcf_reset_nocmove
  unfolding lcf_reset_nocmove
  lcf_reset_nocmove-Safe s i =
      with_cursor i
        (record { column = i.cursor.column; row = i.cursor.row; flag = λ e. ground arith })

  -- The invariant with the flag of the last column down, as the functions that move need it.
  pub set_xy-IsScreen :
      (s : Screen) (x y : ℕ)
      → IsScreen w h s
      → s.curpos.last_col_flag ≡ false
      → x < w
      → y < h
      → IsScreen w h (set_xy x y s)
  set_xy-IsScreen s x y i f hx hy =
      with_cursor i (record { column = hx; row = hy; flag = λ e. ground arith })

  pub move_cursor-IsScreen :
      (s : Screen) (x y : ℕ)
      → IsScreen w h s
      → s.curpos.last_col_flag ≡ false
      → x < w
      → y < h
      → IsScreen w h (move_cursor x y s)
  unfolding move_cursor
  move_cursor-IsScreen s x y i f hx hy = invalidate_cursor-Safe _ (
      set_xy-IsScreen (invalidate_cursor s) x y (invalidate_cursor-Safe s i)
        (rw (invalidate_cursor-curpos s) f) hx hy)

  set_just_moved-Safe : (b : Bool) → Safe w h (set_just_moved b)
  set_just_moved-Safe b s i =
      with_cursor i (record { column = i.cursor.column; row = i.cursor.row; flag = i.cursor.flag })

  pub move_if_changed-IsScreen :
      (s : Screen) (x y : ℕ)
      → IsScreen w h s
      → s.curpos.last_col_flag ≡ false
      → x < w
      → y < h
      → IsScreen w h (move_if_changed x y s)
  unfolding move_if_changed
  move_if_changed-IsScreen s x y i f hx hy =
      Safe-if _
        (invalidate_cursor-Safe _ (
          set_just_moved-Safe true _ (
            set_xy-IsScreen (invalidate_cursor s) x y (invalidate_cursor-Safe s i)
              (rw (invalidate_cursor-curpos s) f) hx hy)))
        i

  pub curmove_abs-Safe : (origin : Bool) (nx ny : ℤ) → Safe w h (curmove_abs origin nx ny)
  unfolding curmove_abs lcf_reset
  curmove_abs-Safe origin nx ny s i =
      move_if_changed-IsScreen (lcf_reset s) _ _ (lcf_reset-Safe s i) refl
        (clamp_size_lt nx _ w _ i.buffer.width i.cursor.column)
        (if_lt origin (ground (arith, i.bottom))
          (clamp_size_lt ny _ h _ i.buffer.height i.cursor.row))

  pub curmove_rel-Safe : (origin : Bool) (dx dy : ℤ) → Safe w h (curmove_rel origin dx dy)
  unfolding curmove_rel lcf_reset
  curmove_rel-Safe origin dx dy s i =
      move_if_changed-IsScreen (lcf_reset s) _ _ (lcf_reset-Safe s i) refl
        (clamp_size_lt (pos s.curpos.x +ℤ clamp_delta dx) _ w _ i.buffer.width i.cursor.column)
        (if_lt origin
          (clamp_region_lt (pos (clamp (pos s.curpos.y) s.sc_top s.sc_bot) +ℤ clamp_delta dy) _ _ h
            i.region i.bottom)
          (clamp_size_lt (pos s.curpos.y +ℤ clamp_delta dy) _ h _ i.buffer.height i.cursor.row))

  pub restore_position-Safe : Safe w h restore_position
  unfolding restore_position
  restore_position-Safe s i =
      Safe-if _ (invalidate_cursor-Safe _ (with_cursor (invalidate_cursor-Safe s i) i.saved))
        (with_cursor i i.saved)
