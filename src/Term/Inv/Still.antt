-- ===== src/Term/Inv/Still.antt =====
-- Scrolling moves neither the cursor nor the scroll region.
use yterm.Prelude.{
  ℕ, ◌+◌, ◌-◌, leb, ◌≡◌, refl, ◌∙◌, Bool, true, false, ◌&&◌, not, arith, if◌then◌else◌, take, ◌==◌,
  ℤ, pos, ltb_ℤ, leb_ℤ, ◌-ℤ◌,
}
use yterm.Term.{CursorPos, Screen, Term, Env, save_line, wkscr, on_screen, emit}
use yterm.Term.Cursor.{invalidate_cursor}
use yterm.Term.Scroll.{
  lock_scroll, mark_scrolled, note_scroll, scroll_region, clear_scroll_region, scroll_internal,
  scroll_up, scroll_down, abs, scroll_waits, scroll_locked, accumulates,
}
use yterm.Term.Inv.{wkscr-on_screen}

abbrev pub frame : Screen → CursorPos × (ℕ × ℕ)
frame s = (s.curpos, (s.sc_top, s.sc_bot))

-- The frame of the screen in use stays.
pub record Still (t t' : Term) : Type 0 where
  pub same : frame (wkscr t') ≡ frame (wkscr t)

record StillPair (t : Term) (p : Term × Bool) : Type 0 where
  pub still : Still t p.0

Still-refl : (t : Term) → Still t t
Still-refl t = record { same = refl }

Still-trans : {a b c : Term} → Still a b → Still b c → Still a c
Still-trans p q = record { same = q.same ∙ p.same }

Still-if : (t : Term) (b : Bool) {p q : Term} → Still t p → Still t q → Still t (if b then p else q)
Still-if t true hp hq = hp
Still-if t false hp hq = hq

StillPair-if :
    (t : Term) (b : Bool) {p q : Term × Bool}
    → StillPair t p
    → StillPair t q
    → StillPair t (if b then p else q)
StillPair-if t true hp hq = hp
StillPair-if t false hp hq = hq

on_screen-Still :
    (f : Screen → Screen) (t : Term)
    → frame (f (wkscr t)) ≡ frame (wkscr t)
    → Still t (on_screen f t)
on_screen-Still f t e = record { same = rw (wkscr-on_screen) e }

lock_scroll-Still : (t : Term) → Still t (lock_scroll t)
unfolding lock_scroll
lock_scroll-Still t =
    Still-if t (scroll_locked t.scroll_count) (record { same = refl })
      (Still-if t (scroll_waits t.scroll_count) (record { same = refl }) (record { same = refl }))

mark_scrolled-Still : (t : Term) → Still t (mark_scrolled t)
mark_scrolled-Still t = on_screen-Still _ t refl

marked-Still : (t : Term) → Still t (lock_scroll (mark_scrolled t))
marked-Still t = Still-trans (mark_scrolled-Still t) (lock_scroll-Still (mark_scrolled t))

note_scroll-Still :
    (env : Env) (t : Term) (regh : ℕ) (lines : ℤ) → StillPair t (note_scroll env t regh lines)
unfolding note_scroll
note_scroll-Still env t regh lines =
    StillPair-if t _
      (StillPair-if t (not (scroll_waits t.scroll_count))
        (record { still = record { same = refl } })
        (StillPair-if t (accumulates t.scroll_count t regh lines)
          (record { still = record { same = refl } }) (record { still = marked-Still t })))
      (StillPair-if t (scroll_waits t.scroll_count) (record { still = marked-Still t })
        (record { still = record { same = refl } }))

invalidate_cursor-frame : (s : Screen) → frame (invalidate_cursor s) ≡ frame s
unfolding invalidate_cursor
invalidate_cursor-frame s = ground arith

invalidate-Still : (t : Term) → Still t (on_screen invalidate_cursor t)
invalidate-Still t = on_screen-Still invalidate_cursor t (invalidate_cursor-frame (wkscr t))

scroll_internal-Still : (env : Env) (lines : ℤ) (t : Term) → Still t (scroll_internal env lines t)
unfolding scroll_internal scroll_region clear_scroll_region
scroll_internal-Still env lines t =
    Still-if t (leb_ℤ lines (pos 0) && leb_ℤ (pos 0) lines) (Still-refl t) (
      Still-if t (leb ((wkscr t).sc_bot + 1 - (wkscr t).sc_top) (abs lines))
        (Still-trans
          (Still-trans
            (Still-if t (scroll_waits t.scroll_count) (mark_scrolled-Still t) (Still-refl t))
            (on_screen-Still clear_scroll_region _ refl))
          (lock_scroll-Still _))
        (Still-trans (invalidate-Still t) (
          Still-trans
            (note_scroll-Still env (on_screen invalidate_cursor t)
              ((wkscr t).sc_bot + 1 - (wkscr t).sc_top) lines).still
            (Still-trans
              (on_screen-Still
                (scroll_region lines (
                  not
                    (note_scroll env (on_screen invalidate_cursor t)
                      ((wkscr t).sc_bot + 1 - (wkscr t).sc_top) lines).1))
                _ refl)
              (invalidate-Still _)))))

pub scroll_up-Still : (env : Env) (lines : ℤ) (t : Term) → Still t (scroll_up env lines t)
unfolding scroll_up
scroll_up-Still env lines t =
    Still-if t (ltb_ℤ (pos 0) lines)
      (Still-trans
        (Still-if t
          (leb_ℤ lines (pos 1) && t.history_enabled && not t.on_alt && (wkscr t).sc_top == 0)
          {p = emit (save_line (take (wkscr t).cbuf.width (wkscr t).cbuf.buf)) t}
          (record { same = refl }) (Still-refl t))
        (scroll_internal-Still env (pos 0 -ℤ lines) _))
      (Still-refl t)

pub scroll_down-Still : (env : Env) (lines : ℤ) (t : Term) → Still t (scroll_down env lines t)
unfolding scroll_down
scroll_down-Still env lines t =
    Still-if t (ltb_ℤ (pos 0) lines) (scroll_internal-Still env lines t) (Still-refl t)
