-- ===== src/Term/Inv/Switches.antt =====
-- The functions that reset or switch the screens keep the invariant of the terminal.
use yterm.Prelude.{
  ℕ, ◌≤◌, ◌≡◌, ◌∙◌, true, false, some, arith, ◌==◌, inl, inr, Bool-cases, Option-cases, pos,
}
use yterm.Cellwin.{CellBuffer, max_buffer_size, cbuf_new}
use yterm.Cellwin.Keeps.{cbuf_new-IsValid, mark_region_dirty-Keeps, mark_region_clean-Keeps}
use yterm.Cellwin.Merge.{merge_all_dirty-Keeps}
use yterm.Term.{esc_none, pending, Term, on_screen}
use yterm.Term.Sequence.{with_state}
use yterm.Term.Cursor.{invalidate_cursor}
use yterm.Term.Reset.{origin, reset_screen, reset_mode}
use yterm.Term.Screens.{
  new_buffer, ensure_alt_buffer, switch_all, switch_merged, switch_screen, clean_screen,
  dirty_screen, merge_screen, scroll_noted,
}
use yterm.Term.Inv.{IsBuffer, IsCursor, IsScreen, IsTerm, Safe, with_cbuf, on_screen-IsTerm}
use yterm.Term.Inv.Moves.{invalidate_cursor-Safe}
use yterm.Term.Inv.Scrolls.{IsTerm-if, IsTerm-by}

pub cbuf_new-some :
    (w h : ℕ)
    → 1 ≤ w
    → w ≤ max_buffer_size
    → 1 ≤ h
    → h ≤ max_buffer_size
    → (cb : CellBuffer) × (cbuf_new w h ≡ some cb)
cbuf_new-some w h a b c d = elim (Option-cases (cbuf_new w h)) [
  | inl e ↦ absurd (unfold cbuf_new in ground arith)
  | inr made ↦ made
]

module _ {w h : ℕ} where
  origin-IsCursor : 1 ≤ w → 1 ≤ h → IsCursor w h origin
  origin-IsCursor a b = record { column = omega arith; row = omega arith; flag = λ e. ground arith }

  pub reset_screen-IsScreen :
      {cb : CellBuffer} (n : ℕ)
      → IsBuffer w h cb
      → 1 ≤ w
      → 1 ≤ h
      → n ≡ h
      → IsScreen w h (reset_screen cb n)
  reset_screen-IsScreen n i a b e = record {
    buffer = i;
    cursor = origin-IsCursor a b;
    saved = origin-IsCursor a b;
    region = omega arith;
    bottom = omega (arith, e);
  }

  pub reset_mode-IsTerm : (t : Term) → IsTerm w h t → IsTerm w h (reset_mode t)
  unfolding reset_mode
  reset_mode-IsTerm t i = record {
    main =
        reset_screen-IsScreen _ i.main.buffer (omega (arith, i.main.cursor.column))
          (omega (arith, i.main.cursor.row)) i.main.buffer.height;
    alt = λ e. ground arith;
    sequence = with_state esc_none i.sequence;
  }

  new_buffer-IsBuffer :
      (n k : ℕ)
      → n ≡ w
      → k ≡ h
      → 1 ≤ w
      → w ≤ max_buffer_size
      → 1 ≤ h
      → h ≤ max_buffer_size
      → IsBuffer w h (new_buffer n k)
  unfolding new_buffer
  new_buffer-IsBuffer n k ew eh a b c d =
      let (cb, e) = cbuf_new-some n k (omega arith) (omega arith) (omega arith) (omega arith) in
      let v = cbuf_new-IsValid n k e in
      rw (e, new_buffer)
        (record { width = v.1 ∙ ew; height = v.2 ∙ eh; wide = b; tall = d; valid = v.0 })

  ensure_alt_buffer-IsScreen : (t : Term) → IsTerm w h t → IsScreen w h (ensure_alt_buffer t).alt
  unfolding ensure_alt_buffer
  ensure_alt_buffer-IsScreen t i =
      let b = i.main.buffer in
      let pw : 1 ≤ w = omega (arith, i.main.cursor.column) in
      let ph : 1 ≤ h = omega (arith, i.main.cursor.row) in
      elim (Bool-cases (t.alt.cbuf.width == 0)) [
        | inl e ↦ rw (e) (
            reset_screen-IsScreen t.main.cbuf.height
              (new_buffer-IsBuffer _ _ b.width b.height pw b.wide ph b.tall) pw ph b.height)
        | inr e ↦ rw (e) (i.alt (ground (arith, e)))
      ]

  clean_screen-Safe : Safe w h clean_screen
  clean_screen-Safe s i = with_cbuf i (mark_region_clean-Keeps s.cbuf _ _ _ _)

  pub dirty_screen-Safe : Safe w h dirty_screen
  dirty_screen-Safe s i = with_cbuf i (mark_region_dirty-Keeps s.cbuf _ _ _ _)

  merge_screen-Safe : (cb : CellBuffer) → Safe w h (merge_screen cb)
  merge_screen-Safe cb s i = with_cbuf i (merge_all_dirty-Keeps s.cbuf cb)

  ensured-IsTerm :
      (t : Term) → IsTerm w h t → IsTerm w h (ensure_alt_buffer (record t { on_alt = true }))
  unfolding ensure_alt_buffer
  ensured-IsTerm t i = record {
    main = i.main;
    alt = λ e. ensure_alt_buffer-IsScreen t i;
    sequence = i.sequence;
  }

  back-IsTerm : (t : Term) → IsTerm w h t → IsTerm w h (record t { on_alt = false })
  back-IsTerm t i = record {
    main = i.main;
    alt = λ e. i.alt (ground (arith, e));
    sequence = i.sequence;
  }

  switch_all-IsTerm : (t : Term) → IsTerm w h t → IsTerm w h (switch_all t)
  unfolding switch_all
  switch_all-IsTerm t0 i0 =
      let i =
        on_screen-IsTerm clean_screen (record t0 { scroll_count = pending (pos 0) })
          (clean_screen-Safe _) (record { main = i0.main; alt = i0.alt; sequence = i0.sequence }) in
      on_screen-IsTerm dirty_screen _ (dirty_screen-Safe _)
        (IsTerm-if _ (back-IsTerm _ i) (ensured-IsTerm _ i))

  switch_merged-IsTerm : (t : Term) → IsTerm w h t → IsTerm w h (switch_merged t)
  unfolding switch_merged ensure_alt_buffer
  switch_merged-IsTerm t i =
      IsTerm-by t.on_alt
        (λ e. record {
          main = merge_screen-Safe t.alt.cbuf t.main i.main;
          alt = λ _. clean_screen-Safe t.alt (i.alt (ground (arith, e)));
          sequence = i.sequence;
        })
        (λ e. record {
          main = clean_screen-Safe t.main i.main;
          alt = λ _. merge_screen-Safe t.main.cbuf _ (ensure_alt_buffer-IsScreen t i);
          sequence = i.sequence;
        })

  -- `term_switch_screen` keeps the invariant of the terminal: the screen that it switches to has a
  -- valid buffer of the terminal's size, which is made where there is none.
  pub switch_screen-IsTerm : (t : Term) → IsTerm w h t → IsTerm w h (switch_screen t)
  unfolding switch_screen
  switch_screen-IsTerm t0 i0 =
      let t = on_screen invalidate_cursor t0 in
      let i = on_screen-IsTerm invalidate_cursor t0 (invalidate_cursor-Safe _) i0 in
      on_screen-IsTerm invalidate_cursor _ (invalidate_cursor-Safe _)
        (IsTerm-if (scroll_noted t.scroll_count) (switch_all-IsTerm t i) (switch_merged-IsTerm t i))
