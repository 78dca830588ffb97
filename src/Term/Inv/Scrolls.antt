-- ===== src/Term/Inv/Scrolls.antt =====
-- Scrolling keeps the invariant of the terminal.
use yterm.Prelude.{
  ℕ, ◌+◌, ◌-◌, ◌<◌, ◌≡◌, refl, Bool, true, false, arith, if◌then◌else◌, ◌==◌, ℤ, pos, take, leb_ℤ,
  ◌&&◌, ltb_ℤ, ◌-ℤ◌, not,
}
use yterm.Cellwin.Keeps.{
  mark_region_dirty-Keeps, clear_region-Keeps, scroll_area-Keeps, mark_line_autowrap-Keeps,
}
use yterm.Term.{Screen, Term, Env, Effect, save_line, wkscr, on_screen, emit}
use yterm.Term.Cursor.{invalidate_cursor, set_xy}
use yterm.Term.Scroll.{
  lock_scroll, mark_scrolled, note_scroll, scroll_region, clear_scroll_region, scroll_internal,
  scroll_up, scroll_down, wrap_line, wrap_start, lcf_do, scroll_waits, scroll_locked, accumulates,
}
use yterm.Term.Inv.{
  IsScreen, IsTerm, Safe, with_cbuf, with_cursor, on_screen-IsTerm, wkscr-on_screen,
}
use yterm.Term.Inv.Moves.{invalidate_cursor-Safe, invalidate_cursor-curpos, set_xy-IsScreen}

-- The terminal that `note_scroll` leaves.
record Noted (w h : ℕ) (p : Term × Bool) : Type 0 where
  term : IsTerm w h p.0

pub down_lt : (y n h : ℕ) → y < h → n ≡ h → not (y == n - 1) ≡ true → y + 1 < h
down_lt y n h a e t = ground arith

wrap_start-flag : (s : Screen) → (wrap_start s).curpos.last_col_flag ≡ false
unfolding wrap_start
wrap_start-flag s = rw (invalidate_cursor-curpos) refl

module _ {w h : ℕ} where
  pub IsTerm-if :
      (b : Bool) {p q : Term} → IsTerm w h p → IsTerm w h q → IsTerm w h (if b then p else q)
  IsTerm-if true hp hq = hp
  IsTerm-if false hp hq = hq

  pub IsTerm-by :
      (b : Bool) {p q : Term}
      → (b ≡ true → IsTerm w h p)
      → (b ≡ false → IsTerm w h q)
      → IsTerm w h (if b then p else q)
  IsTerm-by true hp hq = hp refl
  IsTerm-by false hp hq = hq refl

  Noted-if :
      (b : Bool) {p q : Term × Bool} → Noted w h p → Noted w h q → Noted w h (if b then p else q)
  Noted-if true hp hq = hp
  Noted-if false hp hq = hq

  pub emit-IsTerm : (e : Effect) (t : Term) → IsTerm w h t → IsTerm w h (emit e t)
  emit-IsTerm e t i = record { main = i.main; alt = i.alt; sequence = i.sequence }

  lock_scroll-IsTerm : (t : Term) → IsTerm w h t → IsTerm w h (lock_scroll t)
  unfolding lock_scroll
  lock_scroll-IsTerm t i = IsTerm-if (scroll_locked t.scroll_count) i (
      IsTerm-if (scroll_waits t.scroll_count)
        (record { main = i.main; alt = i.alt; sequence = i.sequence })
        (record { main = i.main; alt = i.alt; sequence = i.sequence }))

  mark_scrolled-IsTerm : (t : Term) → IsTerm w h t → IsTerm w h (mark_scrolled t)
  mark_scrolled-IsTerm t i =
      on_screen-IsTerm _ t (λ s. with_cbuf s (mark_region_dirty-Keeps _ _ _ _ _)) i

  note_scroll-Noted :
      (env : Env) (t : Term) (regh : ℕ) (lines : ℤ)
      → IsTerm w h t
      → Noted w h (note_scroll env t regh lines)
  unfolding note_scroll
  note_scroll-Noted env t regh lines i =
      Noted-if _
        (Noted-if (not (scroll_waits t.scroll_count))
          (record { term = record { main = i.main; alt = i.alt; sequence = i.sequence } })
          (Noted-if (accumulates t.scroll_count t regh lines)
            (record { term = record { main = i.main; alt = i.alt; sequence = i.sequence } })
            (record { term = lock_scroll-IsTerm _ (mark_scrolled-IsTerm t i) })))
        (Noted-if (scroll_waits t.scroll_count)
          (record { term = lock_scroll-IsTerm _ (mark_scrolled-IsTerm t i) }) (record { term = i }))

  scroll_region-Safe : (lines : ℤ) (m : Bool) → Safe w h (scroll_region lines m)
  unfolding scroll_region
  scroll_region-Safe lines m s i = with_cbuf i (scroll_area-Keeps _ _ _ _ _ m _)

  clear_scroll_region-Safe : Safe w h clear_scroll_region
  unfolding clear_scroll_region
  clear_scroll_region-Safe s i = with_cbuf i (clear_region-Keeps _ _ _ _ _ _)

  scroll_internal-IsTerm :
      (env : Env) (lines : ℤ) (t : Term) → IsTerm w h t → IsTerm w h (scroll_internal env lines t)
  unfolding scroll_internal
  scroll_internal-IsTerm env lines t i = IsTerm-if _ i (
      IsTerm-if _
        (lock_scroll-IsTerm _ (
          on_screen-IsTerm clear_scroll_region _ (clear_scroll_region-Safe _)
            (IsTerm-if _ (mark_scrolled-IsTerm t i) i)))
        (on_screen-IsTerm invalidate_cursor _ (invalidate_cursor-Safe _) (
          on_screen-IsTerm _ _ (scroll_region-Safe lines _ _)
            (note_scroll-Noted env _ _ lines
              (on_screen-IsTerm invalidate_cursor t (invalidate_cursor-Safe _) i)).term)))

  pub scroll_up-IsTerm :
      (env : Env) (lines : ℤ) (t : Term) → IsTerm w h t → IsTerm w h (scroll_up env lines t)
  unfolding scroll_up
  scroll_up-IsTerm env lines t i =
      IsTerm-if (ltb_ℤ (pos 0) lines)
        (scroll_internal-IsTerm env (pos 0 -ℤ lines) _ (
          IsTerm-if
            (leb_ℤ lines (pos 1) && t.history_enabled && not t.on_alt && (wkscr t).sc_top == 0)
            (emit-IsTerm (save_line (take (wkscr t).cbuf.width (wkscr t).cbuf.buf)) t i) i))
        i

  pub scroll_down-IsTerm :
      (env : Env) (lines : ℤ) (t : Term) → IsTerm w h t → IsTerm w h (scroll_down env lines t)
  unfolding scroll_down
  scroll_down-IsTerm env lines t i = IsTerm-if _ (scroll_internal-IsTerm env lines t i) i

  wrap_start-IsScreen : (s : Screen) → IsScreen w h s → IsScreen w h (wrap_start s)
  unfolding wrap_start
  wrap_start-IsScreen s i =
      set_xy-IsScreen _ 0 _
        (invalidate_cursor-Safe _ (
          with_cursor (with_cbuf i (mark_line_autowrap-Keeps s.cbuf _))
            (record { column = i.cursor.column; row = i.cursor.row; flag = λ e. ground arith })))
        (rw (invalidate_cursor-curpos _) refl) (omega (arith, i.cursor.column)) i.cursor.row

  step_down-IsScreen :
      (s : Screen)
      → IsScreen w h s
      → s.curpos.last_col_flag ≡ false
      → not (s.curpos.y == s.cbuf.height - 1) ≡ true
      → IsScreen w h (invalidate_cursor (set_xy s.curpos.x (s.curpos.y + 1) s))
  step_down-IsScreen s i f e =
      invalidate_cursor-Safe _
        (set_xy-IsScreen s _ _ i f i.cursor.column (down_lt _ _ h i.cursor.row i.buffer.height e))

  wrap_line-IsTerm :
      (env : Env) (t : Term)
      → IsTerm w h t
      → (wkscr t).curpos.last_col_flag ≡ false
      → IsTerm w h (wrap_line env t)
  unfolding wrap_line
  wrap_line-IsTerm env t i f =
      IsTerm-if ((wkscr t).curpos.y == (wkscr t).sc_bot) (scroll_up-IsTerm env (pos 1) t i) (
        IsTerm-by (not ((wkscr t).curpos.y == (wkscr t).cbuf.height - 1))
          (λ e. on_screen-IsTerm _ t (λ s. step_down-IsScreen (wkscr t) s f e) i) (λ _. i))

  -- The terminal's invariant is kept by the line wrap.
  pub lcf_do-IsTerm : (env : Env) (t : Term) → IsTerm w h t → IsTerm w h (lcf_do env t)
  unfolding lcf_do
  lcf_do-IsTerm env t i =
      IsTerm-if _
        (wrap_line-IsTerm env (on_screen wrap_start t)
          (on_screen-IsTerm wrap_start t (wrap_start-IsScreen _) i)
          (rw (wkscr-on_screen) (wrap_start-flag (wkscr t))))
        i
