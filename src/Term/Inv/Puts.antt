-- ===== src/Term/Inv/Puts.antt =====
-- Writing characters keeps the invariant of the terminal.
use yterm.Prelude.{
  ℕ, ◌+◌, ◌-◌, ◌<◌, ◌≡◌, refl, ap, ◌∙◌, min, Bool, true, false, arith, if◌then◌else◌, ◌==◌, not,
  pos, Bool-cases, inl, inr, none, ◌&&◌, ◌||◌, leb,
}
use yterm.Cellwin.Dirty.{Keeps-refl, Keeps-trans}
use yterm.Cellwin.Keeps.{
  unmark_line_autowrap-Keeps, write_wchar_count-Keeps, insert_chars-Keeps, Keeps-if,
}
use yterm.Term.{CursorPos, Screen, Term, Env, wkscr, on_screen, bell}
use yterm.Term.Cursor.{invalidate_cursor, set_xy, lcf_reset, lcf_reset_nocmove}
use yterm.Term.Putc.{
  unmark_line, begin_put, put_cell_at, advance, put_char, gfx_char, back_space, tab,
  carriage_return, line_down, line_start, line_feed, putc,
}
use yterm.Term.Scroll.{scroll_up}
use yterm.Term.Inv.{
  IsScreen, IsTerm, Safe, Safe-if, Safe-by, with_cbuf, with_cursor, on_screen-IsTerm,
  wkscr-on_screen,
}
use yterm.Term.Inv.Still.{scroll_up-Still}
use yterm.Term.Inv.Moves.{
  if_lt, invalidate_cursor-Safe, invalidate_cursor-curpos, lcf_reset-Safe, lcf_reset_nocmove-Safe,
  move_cursor-IsScreen, set_xy-IsScreen,
}
use yterm.Term.Inv.Scrolls.{IsTerm-if, emit-IsTerm, scroll_up-IsTerm, lcf_do-IsTerm}

-- The column after the last but one, and before the first.
next_lt : (x n w : ℕ) → x < w → n ≡ w → (x == n - 1) ≡ false → x + 1 < w
next_lt x n w a e t = ground arith

last_of : (x n w : ℕ) → x < w → n ≡ w → (x == n - 1) ≡ true → x + 1 ≡ w
last_of x n w a e t = ground arith

not_last : (x n w : ℕ) → x + 1 ≡ w → n ≡ w → (x == n - 1) ≡ true
not_last x n w a e = ground arith

row_lt : (y n h : ℕ) → y < h → n ≡ h → (if not (y == n - 1) then y + 1 else y) < h
row_lt y n h a e = ground arith

min_pred_lt : (x n w : ℕ) {c : ℕ} → c < w → n ≡ w → min x (n - 1) < w
min_pred_lt x n w l e = ground arith

feed-flag :
    (t : Term) → (wkscr (on_screen (λ s. unmark_line (lcf_reset s)) t)).curpos.last_col_flag ≡ false
unfolding lcf_reset
feed-flag t = rw (wkscr-on_screen) refl

module _ {w h : ℕ} where
  unmark_line-Safe : Safe w h unmark_line
  unmark_line-Safe s i = with_cbuf i (unmark_line_autowrap-Keeps s.cbuf _)

  begin_put-Safe : Safe w h begin_put
  unfolding begin_put
  begin_put-Safe s i =
      Safe-if _
        (unmark_line-Safe _ (
          with_cursor i
            (record { column = i.cursor.column; row = i.cursor.row; flag = i.cursor.flag })))
        i

  put_cell_at-Safe : (insert : Bool) (cp : ℕ) → Safe w h (put_cell_at insert cp)
  unfolding put_cell_at
  put_cell_at-Safe insert cp s i = with_cbuf i (
      Keeps-trans (Keeps-if insert (insert_chars-Keeps s.cbuf _ _ _ none) (Keeps-refl s.cbuf))
        (write_wchar_count-Keeps _ _ _ _ _ _))

  flag_down :
      (s : Screen)
      → IsScreen w h s
      → (s.curpos.x == s.cbuf.width - 1) ≡ false
      → s.curpos.last_col_flag ≡ false
  flag_down s i e = elim (Bool-cases s.curpos.last_col_flag) [
    | inl f ↦ absurd (ground (arith, e, not_last _ _ w (i.cursor.flag f) i.buffer.width))
    | inr f ↦ f
  ]

  -- The flag of the last column comes with the last column.
  advance-Safe : (wrap : Bool) → Safe w h (advance wrap)
  unfolding advance
  advance-Safe wrap s i =
      Safe-by (s.curpos.x == s.cbuf.width - 1)
        (λ e.
          Safe-if wrap
            (unmark_line-Safe _ (
              with_cursor i (record {
                column = i.cursor.column;
                row = i.cursor.row;
                flag = λ _. last_of _ _ w i.cursor.column i.buffer.width e;
              })))
            (unmark_line-Safe s i))
        (λ e.
          move_cursor-IsScreen s _ _ i (flag_down s i e)
            (next_lt _ _ w i.cursor.column i.buffer.width e) i.cursor.row)

  back_space-Safe : Safe w h back_space
  unfolding back_space lcf_reset
  back_space-Safe s i =
      Safe-if _
        (move_cursor-IsScreen (lcf_reset s) _ _ (lcf_reset-Safe s i) refl
          (omega (arith, i.cursor.column)) i.cursor.row)
        (lcf_reset-Safe s i)

  tab-Safe : Safe w h tab
  unfolding tab lcf_reset
  tab-Safe s i =
      Safe-if _
        (move_cursor-IsScreen (lcf_reset s) _ _ (lcf_reset-Safe s i) refl
          (min_pred_lt _ _ w i.cursor.column i.buffer.width) i.cursor.row)
        (lcf_reset-Safe s i)

  carriage_return-Safe : Safe w h carriage_return
  unfolding carriage_return lcf_reset
  carriage_return-Safe s i =
      Safe-if _
        (move_cursor-IsScreen _ 0 _ (unmark_line-Safe _ (lcf_reset-Safe s i)) refl
          (omega (arith, i.cursor.column)) i.cursor.row)
        (unmark_line-Safe _ (lcf_reset-Safe s i))

  lower-IsScreen :
      (crlf : Bool) (s : Screen)
      → IsScreen w h s
      → s.curpos.last_col_flag ≡ false
      → IsScreen w h (
          set_xy
            (if crlf then 0 else s.curpos.x)
            (if not (s.curpos.y == s.cbuf.height - 1) then s.curpos.y + 1 else s.curpos.y)
            s)
  lower-IsScreen crlf s i f =
      set_xy-IsScreen s _ _ i f (if_lt crlf (omega (arith, i.cursor.column)) i.cursor.column)
        (row_lt _ _ h i.cursor.row i.buffer.height)

  line_down-IsScreen :
      (crlf : Bool) (s : Screen)
      → IsScreen w h s
      → s.curpos.last_col_flag ≡ false
      → IsScreen w h (line_down crlf s)
  unfolding line_down
  line_down-IsScreen crlf s i f = invalidate_cursor-Safe _ (
      lower-IsScreen crlf (invalidate_cursor s) (invalidate_cursor-Safe s i)
        (rw (invalidate_cursor-curpos) f))

  line_start-IsScreen :
      (crlf : Bool) (s : Screen)
      → IsScreen w h s
      → s.curpos.last_col_flag ≡ false
      → IsScreen w h (line_start crlf s)
  unfolding line_start
  line_start-IsScreen crlf s i f =
      Safe-if (crlf && not (s.curpos.x == 0))
        (invalidate_cursor-Safe _
          (set_xy-IsScreen s 0 _ i f (omega (arith, i.cursor.column)) i.cursor.row))
        i

  putting-IsTerm : (env : Env) (cp : ℕ) (t : Term) → IsTerm w h t → IsTerm w h (put_char env cp t)
  unfolding put_char
  putting-IsTerm env cp t i = IsTerm-if (gfx_char env t.mode t.charset cp == 0x7f) i (
      on_screen-IsTerm _ _ (λ s. advance-Safe t.mode.wrap _ (put_cell_at-Safe t.mode.insert _ _ s))
        (lcf_do-IsTerm env _ (on_screen-IsTerm begin_put t (begin_put-Safe _) i)))

  line_feed-IsTerm : (env : Env) (t : Term) → IsTerm w h t → IsTerm w h (line_feed env t)
  unfolding line_feed lcf_reset
  line_feed-IsTerm env t i =
      let t1 = on_screen (λ s. unmark_line (lcf_reset s)) t in
      let i1 = on_screen-IsTerm _ t (λ s. unmark_line-Safe _ (lcf_reset-Safe _ s)) i in
      let f = feed-flag t in
      IsTerm-if ((wkscr t1).curpos.y == (wkscr t1).sc_bot)
        (on_screen-IsTerm _ (scroll_up env (pos 1) t1)
          (λ s. line_start-IsScreen t1.mode.crlf _ s (
            ap (λ (c : CursorPos × (ℕ × ℕ)). c.0.last_col_flag)
              (scroll_up-Still env (pos 1) t1).same
            ∙ f))
          (scroll_up-IsTerm env (pos 1) t1 i1))
        (on_screen-IsTerm _ t1 (λ s. line_down-IsScreen t1.mode.crlf _ s f) i1)

  -- `term_putc` keeps the invariant of the terminal, at every character and in every mode: the cell
  -- buffers stay valid and of their sizes, and the cursor, the saved cursor and the scroll region
  -- stay within the screen.
  pub putc-IsTerm : (env : Env) (cp : ℕ) (t : Term) → IsTerm w h t → IsTerm w h (putc env cp t)
  unfolding putc
  putc-IsTerm env cp t i = IsTerm-if (leb 0x20 cp) (putting-IsTerm env cp t i) (
      IsTerm-if (cp == 0x07) (IsTerm-if t.active (emit-IsTerm bell t i) i) (
        IsTerm-if (cp == 0x08) (on_screen-IsTerm back_space t (back_space-Safe _) i) (
          IsTerm-if (cp == 0x09) (on_screen-IsTerm tab t (tab-Safe _) i) (
            IsTerm-if (cp == 0x0a || cp == 0x0b || cp == 0x0c) (line_feed-IsTerm env t i) (
              IsTerm-if (cp == 0x0d) (on_screen-IsTerm carriage_return t (carriage_return-Safe _) i)
                (IsTerm-if (cp == 0x1a)
                  (on_screen-IsTerm lcf_reset_nocmove t (lcf_reset_nocmove-Safe _) i) i))))))
