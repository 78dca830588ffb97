-- ===== src/Term/Normal.antt =====
-- term_lib_csi.inc.c: `csi_normal`, the commands of CSI sequences that are not private.
use yterm.Prelude.{
  ℕ, zero, suc, ◌+◌, ◌-◌, ◌/◌, ◌%◌, Bool, true, false, ◌&&◌, ◌||◌, List, [], ◌∷◌, ◌++◌, Option,
  none, some, leb, ◌==◌, if◌then◌else◌, take, ℤ, pos, leb_ℤ, ◌-ℤ◌,
}
use yterm.Term.{Mode, Screen, Term, Env, send, wkscr, on_screen, emit}
use yterm.Term.Cursor.{lcf_reset, curmove_abs, curmove_rel, save_ansi, save_cursor, restore_cursor}
use yterm.Term.Scroll.{scroll_up, scroll_down}
use yterm.Term.Csi.{def_arg0, def_arg1, get_arg}
use yterm.Term.Sgr.{is_arg, csi_set_attr}
use yterm.Term.Edit.{
  tab_forward, tab_backward, erase_display, erase_line, insert_blanks, delete_blanks, erase_chars,
  tab_to, insert_lines, delete_lines, set_scroll_region,
}

-- SM and RM: the modes 3, 4 and 20.
unfoldable pub set_modes : Bool → List ℤ → Mode → Mode
set_modes b [] m = m
set_modes b (a ∷ rest) m = set_modes b rest (
    if is_arg a 3
    then record m { dispctrl = b }
    else if is_arg a 4
    then record m { insert = b }
    else if is_arg a 20
    then record m { crlf = b }
    else m)

-- `%d` of a number that is not negative: `fuel` digits are enough for a number below 10 ^ fuel.
unfoldable pub digits : ℕ → ℕ → List ℕ → List ℕ
digits zero n acc = acc
digits (suc fuel) n acc = if n == 0 then acc else digits fuel (n / 10) ((0x30 + n % 10) ∷ acc)

abbrev pub print_int : ℕ → List ℕ
print_int n = if n == 0 then 0x30 ∷ [] else digits 10 n []

-- The answer to DSR 6, `"\x1b[%d;%dR"`.
unfoldable pub cursor_report : Screen → List ℕ
unfolding digits
cursor_report s =
    0x1b ∷ 0x5b ∷ print_int (s.curpos.y + 1) ++ 0x3b ∷ print_int (s.curpos.x + 1) ++ 0x52 ∷ []

-- The answer to `t` 18 and 19, `"\x1b[8;%d;%dt"`.
unfoldable pub size_report : Screen → List ℕ
unfolding digits
size_report s =
    0x1b ∷ 0x5b ∷ 0x38 ∷ 0x3b ∷ print_int s.cbuf.height
    ++ 0x3b ∷ print_int s.cbuf.width
    ++ 0x74 ∷ []

-- DA, DSR and the window reports.
unfoldable pub csi_report : Env → ℕ → List ℤ → ℕ → Term → Term
unfolding cursor_report size_report
csi_report env cmd argv argc t =
    if cmd == 0x63
    then if argc == 1 && leb_ℤ (get_arg argv 0) (pos 0)
      then emit (send (0x1b ∷ 0x5b ∷ 0x3f ∷ 0x31 ∷ 0x3b ∷ 0x32 ∷ 0x63 ∷ [])) t
      else t
    else if cmd == 0x6e
    then if def_arg0 argv 0 == 5
      then emit (send (0x1b ∷ 0x5b ∷ 0x30 ∷ 0x6e ∷ [])) t
      else if def_arg0 argv 0 == 6
      then emit (send (cursor_report (wkscr t))) t
      else t
    else if leb 1 argc
    then if is_arg (get_arg argv 0) 11
      then emit (send (0x1b ∷ 0x5b ∷ (if env.win_mapped then 0x31 else 0x32) ∷ 0x74 ∷ [])) t
      else if is_arg (get_arg argv 0) 18 || is_arg (get_arg argv 0) 19
      then emit (send (size_report (wkscr t))) t
      else t
    else t

-- The cursor movements of `csi_normal`; `none` for another command.
unfoldable pub csi_move : Bool → ℕ → List ℤ → Screen → Option Screen
csi_move origin cmd argv s =
    let arg0 = def_arg1 argv 0 in
    let up = pos 0 -ℤ pos arg0 in
    let home = pos 0 -ℤ pos s.curpos.x in
    if cmd == 0x41
    then some (curmove_rel origin (pos 0) up s)
    else if cmd == 0x42 || cmd == 0x65
    then some (curmove_rel origin (pos 0) (pos arg0) s)
    else if cmd == 0x43 || cmd == 0x61
    then some (curmove_rel origin (pos arg0) (pos 0) s)
    else if cmd == 0x44
    then some (curmove_rel origin up (pos 0) s)
    else if cmd == 0x45
    then some (curmove_rel origin home (pos arg0) s)
    else if cmd == 0x46
    then some (curmove_rel origin home up s)
    else if cmd == 0x47 || cmd == 0x60
    then some (curmove_abs origin (pos (arg0 - 1)) (pos s.curpos.y) s)
    else if cmd == 0x64
    then some (curmove_abs origin (pos s.curpos.x) (pos (arg0 - 1)) s)
    else if cmd == 0x48 || cmd == 0x66
    then some (curmove_abs origin (pos (def_arg1 argv 1 - 1)) (pos (arg0 - 1)) s)
    else if cmd == 0x49
    then some (tab_to (tab_forward arg0 s.cbuf.width) s)
    else if cmd == 0x5a
    then some (tab_to (tab_backward arg0) s)
    else if cmd == 0x72
    then some (set_scroll_region origin argv s)
    else none

-- The commands of `csi_normal` that change cells or attributes of one screen.
unfoldable pub csi_edit : ℕ → List ℤ → ℕ → Screen → Option Screen
csi_edit cmd argv argc s =
    let arg0 = def_arg1 argv 0 in
    if cmd == 0x40
    then some (insert_blanks arg0 s)
    else if cmd == 0x4a
    then some (erase_display (def_arg0 argv 0) s)
    else if cmd == 0x4b
    then some (erase_line (def_arg0 argv 0) s)
    else if cmd == 0x58
    then some (erase_chars arg0 s)
    else if cmd == 0x50
    then some (delete_blanks arg0 s)
    else if cmd == 0x6d
    then some (record s { currattr = csi_set_attr (take argc argv) s.currattr })
    else none

-- The other commands.
unfoldable pub csi_other : Env → ℕ → List ℤ → ℕ → Term → Term
unfolding insert_lines delete_lines set_modes csi_report
csi_other env cmd argv argc t =
    let arg0 = def_arg1 argv 0 in
    if cmd == 0x4c
    then insert_lines env arg0 t
    else if cmd == 0x4d
    then delete_lines env arg0 t
    else if cmd == 0x53
    then scroll_up env (pos arg0) (on_screen lcf_reset t)
    else if cmd == 0x54
    then scroll_down env (pos arg0) (on_screen lcf_reset t)
    else if cmd == 0x68
    then record t { mode = set_modes true (take argc argv) t.mode }
    else if cmd == 0x6c
    then record t { mode = set_modes false (take argc argv) t.mode }
    else if cmd == 0x63 || cmd == 0x6e || cmd == 0x74
    then csi_report env cmd argv argc t
    else if cmd == 0x73
    then save_cursor save_ansi t
    else if cmd == 0x75
    then restore_cursor save_ansi t
    else t

-- `csi_normal`.
unfoldable pub csi_normal : Env → Term → Term
unfolding csi_move csi_edit csi_other
csi_normal env t =
    let e = t.escseq in
    elim (csi_move t.mode.origin e.cmd e.argv (wkscr t)) [
      | some s ↦ on_screen (λ s0. s) t
      | none ↦ elim (csi_edit e.cmd e.argv e.argc (wkscr t)) [
        | some s ↦ on_screen (λ s0. s) t
        | none ↦ csi_other env e.cmd e.argv e.argc t
      ]
    ]
