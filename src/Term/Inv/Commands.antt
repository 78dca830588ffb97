-- ===== src/Term/Inv/Commands.antt =====
-- `csi_normal` keeps the invariant of the terminal.
use yterm.Prelude.{
  ℕ, ◌-◌, ◌<◌, ◌≡◌, ap, subst, Bool, true, false, arith, if◌then◌else◌, ◌==◌, leb, ℤ, pos, ◌-ℤ◌,
  inl, inr, Option, none, some, ◌||◌, ◌&&◌, leb_ℤ, List, Option-cases, take,
}
use yterm.Cell.{CharCell}
use yterm.Term.{Screen, Term, Env, Mode, Charset, wkscr}
use yterm.Term.Cursor.{
  lcf_reset, save_ansi, SaveMode, save_cursor, restore_cursor, save_simple, save_dec, save_xterm,
  restore_attrs,
}
use yterm.Term.Csi.{get_arg, def_arg0, def_arg1}
use yterm.Term.Sgr.{is_arg, csi_set_attr}
use yterm.Term.Edit.{tab_forward, tab_backward}
use yterm.Term.Normal.{csi_move, csi_edit, csi_other, csi_normal, csi_report, set_modes}
use yterm.Term.Inv.{IsScreen, IsTerm, on_screen-IsTerm}
use yterm.Term.Inv.Moves.{lcf_reset-Safe, curmove_abs-Safe, curmove_rel-Safe, restore_position-Safe}
use yterm.Term.Inv.Scrolls.{IsTerm-if, scroll_up-IsTerm, scroll_down-IsTerm, emit-IsTerm}
use yterm.Term.Inv.Edits.{
  tab_forward_lt, tab_backward_le, erase_display-Safe, erase_line-Safe, insert_blanks-Safe,
  delete_blanks-Safe, erase_chars-Safe, tab_to-IsScreen, set_scroll_region-Safe,
  insert_lines-IsTerm, delete_lines-IsTerm,
}

-- A screen, where there is one, satisfies the invariant.
record IfScreen (w h : ℕ) (o : Option Screen) : Type 0 where
  screen : (s : Screen) → o ≡ some s → IsScreen w h s

abbrev or_else : Screen → Option Screen → Screen
or_else s none = s
or_else s (some s') = s'

forward_lt : (n wdt x w : ℕ) → wdt ≡ w → x < w → tab_forward n wdt x < w
forward_lt n wdt x w e l = omega (arith, tab_forward_lt n wdt x (omega arith))

module _ {w h : ℕ} where
  pub set_attr-IsScreen :
      (c : CharCell) (s : Screen) → IsScreen w h s → IsScreen w h (record s { currattr = c })
  set_attr-IsScreen c s i = record {
    buffer = i.buffer;
    cursor = i.cursor;
    saved = i.saved;
    region = i.region;
    bottom = i.bottom;
  }

  save-IsScreen :
      (a : CharCell) (c : Charset) (m : Mode) (s : Screen)
      → IsScreen w h s
      → IsScreen w h
          (record s { cursaved = s.curpos; attrsaved = a; charsetsaved = c; modesaved = m })
  save-IsScreen a c m s i = record {
    buffer = i.buffer;
    cursor = i.cursor;
    saved = i.cursor;
    region = i.region;
    bottom = i.bottom;
  }

  found : {s : Screen} → IsScreen w h s → IfScreen w h (some s)
  found {s} i = record {
    screen = λ s' e. subst (λ (x : Screen). IsScreen w h x) (ap (or_else s) e) i;
  }

  not_found : IfScreen w h none
  not_found = record { screen = λ s' e. ground arith }

  IfScreen-if :
      (b : Bool) {p q : Option Screen}
      → IfScreen w h p
      → IfScreen w h q
      → IfScreen w h (if b then p else q)
  IfScreen-if true hp hq = hp
  IfScreen-if false hp hq = hq

  csi_move-IfScreen :
      (origin : Bool) (cmd : ℕ) (argv : List ℤ) (s : Screen)
      → IsScreen w h s
      → IfScreen w h (csi_move origin cmd argv s)
  unfolding csi_move
  csi_move-IfScreen origin cmd argv s i =
      let rel = λ (dx dy : ℤ). found (curmove_rel-Safe origin dx dy s i) in
      let abs = λ (x y : ℤ). found (curmove_abs-Safe origin x y s i) in
      let n = def_arg1 argv 0 in
      IfScreen-if (cmd == 0x41) (rel (pos 0) (pos 0 -ℤ pos n)) (
        IfScreen-if (cmd == 0x42 || cmd == 0x65) (rel (pos 0) (pos n)) (
          IfScreen-if (cmd == 0x43 || cmd == 0x61) (rel (pos n) (pos 0)) (
            IfScreen-if (cmd == 0x44) (rel (pos 0 -ℤ pos n) (pos 0)) (
              IfScreen-if (cmd == 0x45) (rel (pos 0 -ℤ pos s.curpos.x) (pos n)) (
                IfScreen-if (cmd == 0x46) (rel (pos 0 -ℤ pos s.curpos.x) (pos 0 -ℤ pos n)) (
                  IfScreen-if (cmd == 0x47 || cmd == 0x60) (abs (pos (n - 1)) (pos s.curpos.y)) (
                    IfScreen-if (cmd == 0x64) (abs (pos s.curpos.x) (pos (n - 1))) (
                      IfScreen-if (cmd == 0x48 || cmd == 0x66)
                        (abs (pos (def_arg1 argv 1 - 1)) (pos (n - 1)))
                        (IfScreen-if (cmd == 0x49)
                          (found (
                            tab_to-IsScreen (tab_forward n s.cbuf.width) s i
                              (forward_lt n _ _ w i.buffer.width i.cursor.column)))
                          (IfScreen-if (cmd == 0x5a)
                            (found (
                              tab_to-IsScreen (tab_backward n) s i
                                (omega (arith, i.cursor.column, tab_backward_le n s.curpos.x))))
                            (IfScreen-if (cmd == 0x72)
                              (found (set_scroll_region-Safe origin argv s i)) not_found)))))))))))

  csi_edit-IfScreen :
      (cmd : ℕ) (argv : List ℤ) (argc : ℕ) (s : Screen)
      → IsScreen w h s
      → IfScreen w h (csi_edit cmd argv argc s)
  unfolding csi_edit
  csi_edit-IfScreen cmd argv argc s i =
      let n = def_arg1 argv 0 in
      IfScreen-if (cmd == 0x40) (found (insert_blanks-Safe n s i)) (
        IfScreen-if (cmd == 0x4a) (found (erase_display-Safe (def_arg0 argv 0) s i)) (
          IfScreen-if (cmd == 0x4b) (found (erase_line-Safe (def_arg0 argv 0) s i)) (
            IfScreen-if (cmd == 0x58) (found (erase_chars-Safe n s i)) (
              IfScreen-if (cmd == 0x50) (found (delete_blanks-Safe n s i)) (
                IfScreen-if (cmd == 0x6d)
                  (found (set_attr-IsScreen (csi_set_attr (take argc argv) s.currattr) s i))
                  not_found)))))

  pub save_cursor-IsTerm : (m : SaveMode) (t : Term) → IsTerm w h t → IsTerm w h (save_cursor m t)
  unfolding save_cursor
  save_cursor-IsTerm save_simple t i = on_screen-IsTerm _ t (save-IsScreen _ _ _ _) i
  save_cursor-IsTerm save_dec t i = on_screen-IsTerm _ t (save-IsScreen _ _ _ _) i
  save_cursor-IsTerm save_ansi t i = on_screen-IsTerm _ t (save-IsScreen _ _ _ _) i
  save_cursor-IsTerm save_xterm t i = on_screen-IsTerm _ t (save-IsScreen _ _ _ _) i

  restore_attrs-IsTerm : (b : Bool) (t : Term) → IsTerm w h t → IsTerm w h (restore_attrs b t)
  unfolding restore_attrs
  restore_attrs-IsTerm b t i0 =
      let i =
        on_screen-IsTerm (λ s. record s { currattr = s.attrsaved }) t (set_attr-IsScreen _ _) i0 in
      record { main = i.main; alt = i.alt; sequence = i.sequence }

  pub restore_cursor-IsTerm :
      (m : SaveMode) (t : Term) → IsTerm w h t → IsTerm w h (restore_cursor m t)
  unfolding restore_cursor
  restore_cursor-IsTerm save_simple t i = on_screen-IsTerm _ t (restore_position-Safe _) i
  restore_cursor-IsTerm save_dec t i =
      restore_attrs-IsTerm false _ (on_screen-IsTerm _ t (restore_position-Safe _) i)
  restore_cursor-IsTerm save_ansi t i =
      restore_attrs-IsTerm false _ (on_screen-IsTerm _ t (restore_position-Safe _) i)
  restore_cursor-IsTerm save_xterm t i =
      restore_attrs-IsTerm true _ (on_screen-IsTerm _ t (restore_position-Safe _) i)

  csi_report-IsTerm :
      (env : Env) (cmd : ℕ) (argv : List ℤ) (argc : ℕ) (t : Term)
      → IsTerm w h t
      → IsTerm w h (csi_report env cmd argv argc t)
  unfolding csi_report
  csi_report-IsTerm env cmd argv argc t i =
      IsTerm-if (cmd == 0x63)
        (IsTerm-if (argc == 1 && leb_ℤ (get_arg argv 0) (pos 0)) (emit-IsTerm _ t i) i)
        (IsTerm-if (cmd == 0x6e)
          (IsTerm-if (def_arg0 argv 0 == 5) (emit-IsTerm _ t i)
            (IsTerm-if (def_arg0 argv 0 == 6) (emit-IsTerm _ t i) i))
          (IsTerm-if (leb 1 argc)
            (IsTerm-if (is_arg (get_arg argv 0) 11) (emit-IsTerm _ t i) (
              IsTerm-if (is_arg (get_arg argv 0) 18 || is_arg (get_arg argv 0) 19)
                (emit-IsTerm _ t i) i))
            i))

  pub mode-IsTerm : (m : Mode) (t : Term) → IsTerm w h t → IsTerm w h (record t { mode = m })
  mode-IsTerm m t i = record { main = i.main; alt = i.alt; sequence = i.sequence }

  csi_other-IsTerm :
      (env : Env) (cmd : ℕ) (argv : List ℤ) (argc : ℕ) (t : Term)
      → IsTerm w h t
      → IsTerm w h (csi_other env cmd argv argc t)
  unfolding csi_other
  csi_other-IsTerm env cmd argv argc t i =
      let n = def_arg1 argv 0 in
      let r = on_screen-IsTerm lcf_reset t (lcf_reset-Safe _) i in
      IsTerm-if (cmd == 0x4c) (insert_lines-IsTerm env n t i) (
        IsTerm-if (cmd == 0x4d) (delete_lines-IsTerm env n t i) (
          IsTerm-if (cmd == 0x53) (scroll_up-IsTerm env (pos n) _ r) (
            IsTerm-if (cmd == 0x54) (scroll_down-IsTerm env (pos n) _ r) (
              IsTerm-if (cmd == 0x68) (mode-IsTerm (set_modes true (take argc argv) t.mode) t i) (
                IsTerm-if (cmd == 0x6c) (mode-IsTerm (set_modes false (take argc argv) t.mode) t i)
                  (IsTerm-if (cmd == 0x63 || cmd == 0x6e || cmd == 0x74)
                    (csi_report-IsTerm env cmd argv argc t i)
                    (IsTerm-if (cmd == 0x73) (save_cursor-IsTerm save_ansi t i)
                      (IsTerm-if (cmd == 0x75) (restore_cursor-IsTerm save_ansi t i) i))))))))

  -- `csi_normal` keeps the invariant of the terminal, whatever the command and its arguments are:
  -- the cell buffers stay valid and of their sizes, and the cursor, the saved cursor and the scroll
  -- region stay within the screen.
  pub csi_normal-IsTerm : (env : Env) (t : Term) → IsTerm w h t → IsTerm w h (csi_normal env t)
  unfolding csi_normal
  csi_normal-IsTerm env t i =
      let e = t.escseq in
      elim (Option-cases (csi_move t.mode.origin e.cmd e.argv (wkscr t))) [
        | inr (s, h1) ↦
            rw (h1, csi_normal)
              (on_screen-IsTerm _ t
                (λ s0. (csi_move-IfScreen t.mode.origin e.cmd e.argv _ s0).screen s h1) i)
        | inl h1 ↦ elim (Option-cases (csi_edit e.cmd e.argv e.argc (wkscr t))) [
          | inr (s, h2) ↦
              rw (h1, h2, csi_normal)
                (on_screen-IsTerm _ t
                  (λ s0. (csi_edit-IfScreen e.cmd e.argv e.argc _ s0).screen s h2) i)
          | inl h2 ↦ rw (h1, h2, csi_normal) (csi_other-IsTerm env e.cmd e.argv e.argc t i)
        ]
      ]
