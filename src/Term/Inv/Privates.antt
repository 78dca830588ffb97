-- ===== src/Term/Inv/Privates.antt =====
-- The private modes keep the invariant of the terminal.
use yterm.Prelude.{
  ℕ, ◌≡◌, Bool, true, false, ◌&&◌, ◌||◌, not, List, [], ◌∷◌, inl, inr, if◌then◌else◌, ◌==◌, take, ℤ,
  pos, pos_part, Option-cases,
}
use yterm.Cellwin.Keeps.{clear_region-Keeps}
use yterm.Term.{Mode, Term, Env, on_screen}
use yterm.Term.Cursor.{lcf_reset, save_xterm}
use yterm.Term.Sgr.{reset_attrs}
use yterm.Term.Screens.{dirty_screen}
use yterm.Term.Yterm.{each_arg, yterm_code, yterm_args, save_values, restore_values, stop_history}
use yterm.Term.Private.{
  set_bits, reset_bits, clear_screen, clear_default, column_mode, reverse_video, origin_mode,
  show_cursor, hide_cursor, to_alt, to_main, forget_mouse, priv_set, priv_reset, csi_priv_hl,
}
use yterm.Term.Inv.{IsTerm, Safe, Safe-if, with_cbuf, on_screen-IsTerm}
use yterm.Term.Inv.Moves.{
  lcf_reset-Safe, lcf_reset_nocmove-Safe, curmove_abs-Safe, invalidate_cursor-Safe,
}
use yterm.Term.Inv.Scrolls.{IsTerm-if, emit-IsTerm}
use yterm.Term.Inv.Commands.{
  set_attr-IsScreen, save_cursor-IsTerm, restore_cursor-IsTerm, mode-IsTerm,
}
use yterm.Term.Inv.Switches.{dirty_screen-Safe, switch_screen-IsTerm}

module _ {w h : ℕ} where
  clear_screen-Safe : Safe w h clear_screen
  unfolding clear_screen
  clear_screen-Safe s i = with_cbuf i (clear_region-Keeps s.cbuf _ _ _ _ _)

  clear_default-Safe : Safe w h clear_default
  clear_default-Safe s i = clear_screen-Safe _ (set_attr-IsScreen (reset_attrs s.currattr) s i)

  hidden-Safe : (b : Bool) → Safe w h (λ s. record s { curhidden = b })
  hidden-Safe b s i = record {
    buffer = i.buffer;
    cursor = i.cursor;
    saved = i.saved;
    region = i.region;
    bottom = i.bottom;
  }

  show_cursor-Safe : Safe w h show_cursor
  unfolding show_cursor
  show_cursor-Safe s i = Safe-if s.curhidden (invalidate_cursor-Safe _ (hidden-Safe false s i)) i

  hide_cursor-Safe : Safe w h hide_cursor
  unfolding hide_cursor
  hide_cursor-Safe s i =
      Safe-if (not s.curhidden) (hidden-Safe true _ (invalidate_cursor-Safe s i)) i

  -- A terminal with the screens of another.
  all_dirty-IsTerm : {t : Term} → IsTerm w h t → IsTerm w h (on_screen dirty_screen t)
  all_dirty-IsTerm {t} i = on_screen-IsTerm _ t (dirty_screen-Safe _) i

  stop_history-IsTerm : (t : Term) → IsTerm w h t → IsTerm w h (stop_history t)
  unfolding stop_history
  stop_history-IsTerm t i =
      IsTerm-if t.selecting
        (all_dirty-IsTerm (record { main = i.main; alt = i.alt; sequence = i.sequence }))
        (emit-IsTerm _ t i)

  yterm_code-IsTerm : (b : Bool) (n : ℕ) (t : Term) → IsTerm w h t → IsTerm w h (yterm_code b n t)
  unfolding yterm_code save_values restore_values
  yterm_code-IsTerm b n t i =
      IsTerm-if (n == 1)
        (all_dirty-IsTerm (record { main = i.main; alt = i.alt; sequence = i.sequence }))
        (IsTerm-if (n == 2)
          (all_dirty-IsTerm (record { main = i.main; alt = i.alt; sequence = i.sequence }))
          (IsTerm-if (n == 3)
            (all_dirty-IsTerm (record { main = i.main; alt = i.alt; sequence = i.sequence }))
            (IsTerm-if (n == 13) (record { main = i.main; alt = i.alt; sequence = i.sequence })
              (IsTerm-if (n == 27) (record { main = i.main; alt = i.alt; sequence = i.sequence })
                (IsTerm-if (n == 142)
                  (IsTerm-if b (record { main = i.main; alt = i.alt; sequence = i.sequence })
                    (record { main = i.main; alt = i.alt; sequence = i.sequence }))
                  (IsTerm-if (n == 69)
                    (IsTerm-if b (record { main = i.main; alt = i.alt; sequence = i.sequence })
                      (stop_history-IsTerm t i))
                    i))))))

  each_arg-IsTerm :
      (f : ℕ → Term → Term)
      → ((n : ℕ) (t : Term) → IsTerm w h t → IsTerm w h (f n t))
      → (args : List ℤ) (t : Term) → IsTerm w h t
      → IsTerm w h (each_arg f args t)
  unfolding each_arg
  each_arg-IsTerm f k [] t i = i
  each_arg-IsTerm f k (a ∷ args) t i = each_arg-IsTerm f k args _ (k (pos_part a) t i)

  reverse_video-IsTerm : (b : Bool) (t : Term) → IsTerm w h t → IsTerm w h (reverse_video b t)
  unfolding reverse_video
  reverse_video-IsTerm b t i =
      IsTerm-if (if b then not t.mode.reverse else t.mode.reverse)
        (all_dirty-IsTerm (record { main = i.main; alt = i.alt; sequence = i.sequence })) i

  origin_mode-IsTerm : (b : Bool) (t : Term) → IsTerm w h t → IsTerm w h (origin_mode b t)
  unfolding origin_mode
  origin_mode-IsTerm b t i =
      on_screen-IsTerm _ (record t { mode = record (t.mode) { origin = b } })
        (λ s. curmove_abs-Safe b (pos 0) (pos 0) _ (lcf_reset_nocmove-Safe _ s)) (mode-IsTerm _ t i)

  -- Outside the mode for vttest the screen keeps its size.
  column_mode-IsTerm :
      (env : Env) (cols : ℕ) (t : Term)
      → env.vttest ≡ false
      → IsTerm w h t
      → IsTerm w h (column_mode env cols t)
  unfolding column_mode
  column_mode-IsTerm env cols t e i = rw (e) (
      on_screen-IsTerm _ (on_screen lcf_reset t)
        (λ s. curmove_abs-Safe _ (pos 0) (pos 0) _ (clear_screen-Safe _ s))
        (on_screen-IsTerm lcf_reset t (lcf_reset-Safe _) i))

  to_alt-IsTerm : (n : ℕ) (t : Term) → IsTerm w h t → IsTerm w h (to_alt n t)
  unfolding to_alt
  to_alt-IsTerm n t i =
      let s =
        switch_screen-IsTerm _ (IsTerm-if (n == 1049) (save_cursor-IsTerm save_xterm t i) i) in
      IsTerm-if (not t.on_alt && not t.mode.no_altscr)
        (IsTerm-if (n == 1049) (on_screen-IsTerm clear_default _ (clear_default-Safe _) s) s) i

  to_main-IsTerm : (n : ℕ) (t : Term) → IsTerm w h t → IsTerm w h (to_main n t)
  unfolding to_main
  to_main-IsTerm n t i =
      let s =
        switch_screen-IsTerm _ (
          IsTerm-if (not (n == 47)) (on_screen-IsTerm clear_default t (clear_default-Safe _) i)
            i) in
      IsTerm-if (t.on_alt && not t.mode.no_altscr)
        (IsTerm-if (n == 1049) (restore_cursor-IsTerm save_xterm _ s) s) i

  forget_mouse-IsTerm : (t : Term) → IsTerm w h t → IsTerm w h (forget_mouse t)
  unfolding forget_mouse
  forget_mouse-IsTerm t i =
      IsTerm-if (t.mode.mousebtn || t.mode.mousemotion) i
        (record { main = i.main; alt = i.alt; sequence = i.sequence })

  priv_set-IsTerm :
      (env : Env)
      → env.vttest ≡ false
      → (n : ℕ) (t : Term) → IsTerm w h t
      → IsTerm w h (priv_set env n t)
  unfolding priv_set
  priv_set-IsTerm env e n t i = IsTerm-if (n == 3) (column_mode-IsTerm env 132 t e i) (
      IsTerm-if (n == 5) (reverse_video-IsTerm true t i) (
        IsTerm-if (n == 6) (origin_mode-IsTerm true t i) (
          IsTerm-if (n == 25) (on_screen-IsTerm _ t (show_cursor-Safe _) i) (
            IsTerm-if (n == 1005 || n == 1006 || n == 1015)
              (record { main = i.main; alt = i.alt; sequence = i.sequence })
              (IsTerm-if (n == 1049 || n == 47 || n == 1047) (to_alt-IsTerm n t i) (
                IsTerm-if (n == 1048) (save_cursor-IsTerm save_xterm t i)
                  (mode-IsTerm (set_bits n t.mode) t i)))))))

  priv_reset-IsTerm :
      (env : Env)
      → env.vttest ≡ false
      → (n : ℕ) (t : Term) → IsTerm w h t
      → IsTerm w h (priv_reset env n t)
  unfolding priv_reset
  priv_reset-IsTerm env e n t i =
      let kept = λ (m : Mode). mode-IsTerm m t i in
      IsTerm-if (n == 3) (column_mode-IsTerm env 80 t e i) (
        IsTerm-if (n == 5) (reverse_video-IsTerm false t i) (
          IsTerm-if (n == 6) (origin_mode-IsTerm false t i) (
            IsTerm-if (n == 7) (mode-IsTerm _ _ (on_screen-IsTerm _ t (lcf_reset_nocmove-Safe _) i))
              (IsTerm-if (n == 25) (on_screen-IsTerm _ t (hide_cursor-Safe _) i) (
                IsTerm-if (n == 1000 || n == 1002)
                  (forget_mouse-IsTerm _ (kept (reset_bits n t.mode)))
                  (IsTerm-if (n == 1005 || n == 1006 || n == 1015)
                    (record { main = i.main; alt = i.alt; sequence = i.sequence })
                    (IsTerm-if (n == 1046)
                      (IsTerm-if t.on_alt (switch_screen-IsTerm _ (kept _)) (kept _))
                      (IsTerm-if (n == 1049 || n == 47 || n == 1047) (to_main-IsTerm n t i) (
                        IsTerm-if (n == 1048) (restore_cursor-IsTerm save_xterm t i)
                          (kept (reset_bits n t.mode)))))))))))

  set_or_reset-IsTerm :
      (env : Env)
      → env.vttest ≡ false
      → (b : Bool) (args : List ℤ) (t : Term) → IsTerm w h t
      → IsTerm w h (each_arg (if b then priv_set env else priv_reset env) args t)
  set_or_reset-IsTerm env e true args t i = each_arg-IsTerm _ (priv_set-IsTerm env e) args t i
  set_or_reset-IsTerm env e false args t i = each_arg-IsTerm _ (priv_reset-IsTerm env e) args t i

  pub csi_priv_hl-IsTerm :
      (env : Env) (b : Bool) (t : Term)
      → env.vttest ≡ false
      → IsTerm w h t
      → IsTerm w h (csi_priv_hl env b t)
  unfolding csi_priv_hl
  csi_priv_hl-IsTerm env b t e i =
      let args = take t.escseq.argc t.escseq.argv in
      elim (Option-cases (yterm_args args)) [
        | inr (codes, q) ↦
            rw (q, csi_priv_hl) (each_arg-IsTerm (yterm_code b) (yterm_code-IsTerm b) codes t i)
        | inl q ↦ rw (q, csi_priv_hl) (set_or_reset-IsTerm env e b args t i)
      ]
