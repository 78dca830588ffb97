-- ===== src/Term/Inv/Machine.antt =====
-- The machine that reads the characters of the child keeps the invariant of the terminal.
use yterm.Prelude.{ℕ, ◌≡◌, Bool, true, false, ◌&&◌, ◌||◌, ltb, ◌==◌, pos, negsuc}
use yterm.Term.{
  EscState, esc_none, esc_esc, esc_altg0, esc_altg1, esc_hash, esc_percent, esc_csi, esc_csi_ignore,
  esc_osc, esc_dcs, esc_s_ign, Term, Env, wkscr, on_screen,
}
use yterm.Term.Cursor.{lcf_reset, save_dec}
use yterm.Term.Escapes.{set_state, set_charset, quiet, process_one-IsTerm}
use yterm.Term.Strings.{
  in_osc, is_empty, title_of, asks_attrs, finish_osc, process_osc, query_string, process_dcs,
}
use yterm.Term.Process.{
  in_none, eats, control_char, in_region, index_down, index_up, esc_command, process_esc,
  process_in, process_char,
}
use yterm.Term.Inv.{IsTerm, on_screen-IsTerm}
use yterm.Term.Inv.Moves.{lcf_reset-Safe, curmove_abs-Safe, curmove_rel-Safe}
use yterm.Term.Inv.Scrolls.{IsTerm-if, scroll_up-IsTerm, scroll_down-IsTerm, emit-IsTerm}
use yterm.Term.Inv.Puts.{putc-IsTerm}
use yterm.Term.Inv.Commands.{save_cursor-IsTerm, restore_cursor-IsTerm, mode-IsTerm}
use yterm.Term.Sequence.{with_state}
use yterm.Term.Inv.Sequences.{append_char-IsEscSeq, osc_char-IsEscSeq, start_seq-IsEscSeq}
use yterm.Term.Inv.Switches.{reset_mode-IsTerm}
use yterm.Term.Inv.Handle.{parsed, process_csi-IsTerm}

module _ {w h : ℕ} where
  charset-IsTerm : (b : Bool) {t : Term} → IsTerm w h t → IsTerm w h (set_charset b t)
  charset-IsTerm b i = record { main = i.main; alt = i.alt; sequence = i.sequence }

  state-IsTerm : (st : EscState) {t : Term} → IsTerm w h t → IsTerm w h (set_state st t)
  state-IsTerm st i = record { main = i.main; alt = i.alt; sequence = with_state st i.sequence }

  finish_osc-IsTerm : (t : Term) → IsTerm w h t → IsTerm w h (finish_osc t)
  unfolding finish_osc
  finish_osc-IsTerm t i =
      IsTerm-if (in_osc t.escseq.state && t.escseq.cmd == 2)
        (IsTerm-if (is_empty (title_of t.escseq.sbuf)) (emit-IsTerm _ t i) (emit-IsTerm _ t i)) i

  process_osc-IsTerm :
      (env : Env) (cp : ℕ) (t : Term) → IsTerm w h t → IsTerm w h (process_osc env cp t)
  unfolding process_osc
  process_osc-IsTerm env cp t i =
      let f = finish_osc-IsTerm t i in
      IsTerm-if (cp == 0x07) (quiet f) (
        IsTerm-if (cp == 0x08 || cp == 0x09 || cp == 0x0a || cp == 0x0b || cp == 0x0c || cp == 0x0d)
          (putc-IsTerm env cp _ (quiet i))
          (IsTerm-if (cp == 0x0e) (charset-IsTerm true (quiet i)) (
            IsTerm-if (cp == 0x0f) (charset-IsTerm false (quiet i)) (
              IsTerm-if (cp == 0x18) (quiet i) (
                IsTerm-if (cp == 0x1a) (putc-IsTerm env 0x3f _ (quiet i)) (
                  IsTerm-if (cp == 0x1b) (state-IsTerm esc_esc (quiet f)) (
                    IsTerm-if (cp == 0x7f || ltb cp 0x20) i
                      (parsed (osc_char-IsEscSeq cp _ i.sequence) i))))))))

  query_string-IsTerm : (env : Env) (t : Term) → IsTerm w h t → IsTerm w h (query_string env t)
  unfolding query_string
  query_string-IsTerm env t i =
      IsTerm-if (asks_attrs t.escseq || env.vim_workaround) i (emit-IsTerm _ t i)

  process_dcs-IsTerm :
      (env : Env) (cp : ℕ) (t : Term) → IsTerm w h t → IsTerm w h (process_dcs env cp t)
  unfolding process_dcs
  process_dcs-IsTerm env cp t i =
      IsTerm-if (cp == 0x1b) (state-IsTerm esc_esc (query_string-IsTerm env _ (quiet i))) (
        IsTerm-if (cp == 0x18 || cp == 0x1a) (quiet i)
          (parsed (append_char-IsEscSeq cp _ i.sequence) i))

  control_char-IsTerm :
      (env : Env) (cp : ℕ) (t : Term) → IsTerm w h t → IsTerm w h (control_char env cp t)
  unfolding control_char
  control_char-IsTerm env cp t i =
      IsTerm-if (cp == 0x07) (IsTerm-if (in_none t.escseq.state) (putc-IsTerm env 0x07 t i) i) (
        IsTerm-if (cp == 0x0e) (charset-IsTerm true i) (
          IsTerm-if (cp == 0x0f) (charset-IsTerm false i) (
            IsTerm-if (cp == 0x1a) (quiet (putc-IsTerm env 0x3f t i)) (
              IsTerm-if (cp == 0x18) (quiet i) (
                IsTerm-if (cp == 0x1b) (state-IsTerm esc_esc (quiet (finish_osc-IsTerm t i)))
                  (IsTerm-if (cp == 0x7f) i (putc-IsTerm env cp t i)))))))

  no_flag-IsTerm : (t : Term) → IsTerm w h t → IsTerm w h (on_screen lcf_reset t)
  no_flag-IsTerm t i = on_screen-IsTerm lcf_reset t (lcf_reset-Safe _) i

  index_down-IsTerm : (env : Env) (t : Term) → IsTerm w h t → IsTerm w h (index_down env t)
  unfolding index_down
  index_down-IsTerm env t0 i0 =
      let t = on_screen lcf_reset t0 in
      let i = no_flag-IsTerm t0 i0 in
      IsTerm-if (in_region (wkscr t))
        (IsTerm-if ((wkscr t).curpos.y == (wkscr t).sc_bot) (scroll_up-IsTerm env (pos 1) t i)
          (on_screen-IsTerm _ t (curmove_rel-Safe _ (pos 0) (pos 1) _) i))
        i

  index_up-IsTerm : (env : Env) (t : Term) → IsTerm w h t → IsTerm w h (index_up env t)
  unfolding index_up
  index_up-IsTerm env t0 i0 =
      let t = on_screen lcf_reset t0 in
      let i = no_flag-IsTerm t0 i0 in
      IsTerm-if (in_region (wkscr t))
        (IsTerm-if ((wkscr t).curpos.y == (wkscr t).sc_top) (scroll_down-IsTerm env (pos 1) t i)
          (on_screen-IsTerm _ t (curmove_rel-Safe _ (pos 0) (negsuc 0) _) i))
        i

  esc_command-IsTerm :
      (env : Env) (cp : ℕ) (t : Term) → IsTerm w h t → IsTerm w h (esc_command env cp t)
  unfolding esc_command
  esc_command-IsTerm env cp t i = IsTerm-if (cp == 0x44) (index_down-IsTerm env t i) (
      IsTerm-if (cp == 0x45) (putc-IsTerm env 0x0d _ (putc-IsTerm env 0x0a _ (no_flag-IsTerm t i)))
        (IsTerm-if (cp == 0x46) (on_screen-IsTerm _ t (curmove_abs-Safe _ _ _ _) i) (
          IsTerm-if (cp == 0x4d) (index_up-IsTerm env t i) (
            IsTerm-if (cp == 0x63) (reset_mode-IsTerm t i) (
              IsTerm-if (cp == 0x3d) (mode-IsTerm _ t i) (
                IsTerm-if (cp == 0x3e) (mode-IsTerm _ t i) (
                  IsTerm-if (cp == 0x37) (save_cursor-IsTerm save_dec t i) (
                    IsTerm-if (cp == 0x38) (restore_cursor-IsTerm save_dec t i)
                      (IsTerm-if (cp == 0x5a) (emit-IsTerm _ t i) i)))))))))

  process_in-IsTerm :
      (st : EscState) (env : Env) (cp : ℕ) (t : Term)
      → env.vttest ≡ false
      → IsTerm w h t
      → IsTerm w h (process_in st env cp t)
  unfolding process_in process_esc
  process_in-IsTerm esc_none env cp t e i = putc-IsTerm env cp t i
  process_in-IsTerm esc_esc env cp t e i =
      esc_command-IsTerm env cp _ (parsed (start_seq-IsEscSeq cp _ i.sequence) i)
  process_in-IsTerm esc_altg0 env cp t e i = (process_one-IsTerm env cp t i).0
  process_in-IsTerm esc_altg1 env cp t e i = (process_one-IsTerm env cp t i).1
  process_in-IsTerm esc_percent env cp t e i = (process_one-IsTerm env cp t i).2
  process_in-IsTerm esc_hash env cp t e i = (process_one-IsTerm env cp t i).3
  process_in-IsTerm esc_csi env cp t e i = process_csi-IsTerm env cp t e i
  process_in-IsTerm esc_csi_ignore env cp t e i = process_csi-IsTerm env cp t e i
  process_in-IsTerm esc_osc env cp t e i = process_osc-IsTerm env cp t i
  process_in-IsTerm esc_dcs env cp t e i = process_dcs-IsTerm env cp t i
  process_in-IsTerm esc_s_ign env cp t e i = (process_one-IsTerm env cp t i).4

  -- `term_process_char` keeps the invariant of the terminal on every character and in every state of
  -- the escape parser, where the mode for vttest is off.
  pub process_char-IsTerm :
      (env : Env) (cp : ℕ) (t : Term)
      → env.vttest ≡ false
      → IsTerm w h t
      → IsTerm w h (process_char env cp t)
  unfolding process_char
  process_char-IsTerm env cp t e i =
      IsTerm-if (eats cp t.escseq.state) (control_char-IsTerm env cp t i)
        (process_in-IsTerm t.escseq.state env cp t e i)
