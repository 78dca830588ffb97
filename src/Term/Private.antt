-- ===== src/Term/Private.antt =====
-- term_lib_csi.inc.c: the private modes, `csi_priv_h` and `csi_priv_l`.
use yterm.Prelude.{
  ℕ, Bool, true, false, ◌&&◌, ◌||◌, not, none, some, ◌==◌, if◌then◌else◌, take, pos, negsuc, ◌-ℤ◌,
}
use yterm.Cellwin.{clear_region}
use yterm.Term.{Mode, Screen, Term, Env, on_screen}
use yterm.Term.Cursor.{
  invalidate_cursor, lcf_reset, lcf_reset_nocmove, curmove_abs, save_xterm, save_cursor,
  restore_cursor,
}
use yterm.Term.Sgr.{reset_attrs}
use yterm.Term.Reset.{fix_size}
use yterm.Term.Screens.{dirty_screen, switch_screen}
use yterm.Term.Yterm.{each_arg, yterm_code, yterm_args}

-- The modes that are bits and nothing else.
unfoldable pub set_bits : ℕ → Mode → Mode
set_bits n m =
    if n == 1
    then record m { appkeypad = true }
    else if n == 2
    then record m { gfx0 = false; gfx1 = false }
    else if n == 7
    then record m { wrap = true }
    else if n == 20
    then record m { crlf = true }
    else if n == 1000
    then record m { mousebtn = true }
    else if n == 1002
    then record m { mousemotion = true }
    else if n == 1004
    then record m { focusevt = true }
    else if n == 1046
    then record m { no_altscr = false }
    else if n == 1061
    then record m { vt220_kbd = true; xterm = true }
    else if n == 2004
    then record m { bracpaste = true }
    else m

unfoldable pub reset_bits : ℕ → Mode → Mode
reset_bits n m =
    if n == 1
    then record m { appkeypad = false }
    else if n == 20
    then record m { crlf = false }
    else if n == 1000
    then record m { mousebtn = false }
    else if n == 1002
    then record m { mousemotion = false }
    else if n == 1004
    then record m { focusevt = false }
    else if n == 1061
    then record m { vt220_kbd = false; xterm = true }
    else if n == 2004
    then record m { bracpaste = false }
    else m

unfoldable pub clear_screen : Screen → Screen
clear_screen s = record s {
  cbuf =
      clear_region s.cbuf (pos 0) (pos 0) (pos s.cbuf.width -ℤ pos 1) (pos s.cbuf.height -ℤ pos 1)
        (some s.currattr);
}

-- DECCOLM, by the number of columns; the screen is resized only in the mode for vttest.
unfoldable pub column_mode : Env → ℕ → Term → Term
unfolding lcf_reset clear_screen
column_mode env cols t0 =
    let t1 = on_screen lcf_reset t0 in
    let t = if env.vttest then fix_size cols env.win_rows t1 else t1 in
    on_screen (λ s. curmove_abs t.mode.origin (pos 0) (pos 0) (clear_screen s)) t

-- DECSCNM.
unfoldable pub reverse_video : Bool → Term → Term
reverse_video on t =
    if if on then not t.mode.reverse else t.mode.reverse
    then on_screen dirty_screen (record t { mode = record (t.mode) { reverse = on } })
    else t

-- DECOM.
unfoldable pub origin_mode : Bool → Term → Term
unfolding lcf_reset_nocmove
origin_mode on t =
    on_screen (λ s. curmove_abs on (pos 0) (pos 0) (lcf_reset_nocmove s))
      (record t { mode = record (t.mode) { origin = on } })

unfoldable pub show_cursor : Screen → Screen
unfolding invalidate_cursor
show_cursor s = if s.curhidden then invalidate_cursor (record s { curhidden = false }) else s

unfoldable pub hide_cursor : Screen → Screen
unfolding invalidate_cursor
hide_cursor s = if not s.curhidden then record (invalidate_cursor s) { curhidden = true } else s

-- 1049 and 1047 clear the alternate screen, with default settings.
abbrev pub clear_default : Screen → Screen
clear_default s = clear_screen (record s { currattr = reset_attrs s.currattr })

-- 47, 1047 and 1049, set.
unfoldable pub to_alt : ℕ → Term → Term
to_alt n t =
    if not t.on_alt && not t.mode.no_altscr
    then (let t' = switch_screen (if n == 1049 then save_cursor save_xterm t else t) in
        if n == 1049 then on_screen clear_default t' else t')
    else t

-- 47, 1047 and 1049, reset.
unfoldable pub to_main : ℕ → Term → Term
to_main n t =
    if t.on_alt && not t.mode.no_altscr
    then (let t' = switch_screen (if not (n == 47) then on_screen clear_default t else t) in
        if n == 1049 then restore_cursor save_xterm t' else t')
    else t

-- `mreport.lastx` and `lasty` are reset once no mouse mode is left.
unfoldable pub forget_mouse : Term → Term
forget_mouse t =
    if t.mode.mousebtn || t.mode.mousemotion
    then t
    else record t { mreport = record (t.mreport) { last_x = negsuc 0; last_y = negsuc 0 } }

-- One argument of `csi_priv_h`.
unfoldable pub priv_set : Env → ℕ → Term → Term
unfolding set_bits column_mode reverse_video origin_mode to_alt
priv_set env n t =
    if n == 3
    then column_mode env 132 t
    else if n == 5
    then reverse_video true t
    else if n == 6
    then origin_mode true t
    else if n == 25
    then on_screen show_cursor t
    else if n == 1005 || n == 1006 || n == 1015
    then record t { mreport = record (t.mreport) { mode = n } }
    else if n == 1049 || n == 47 || n == 1047
    then to_alt n t
    else if n == 1048
    then save_cursor save_xterm t
    else record t { mode = set_bits n t.mode }

-- One argument of `csi_priv_l`.
unfoldable pub priv_reset : Env → ℕ → Term → Term
unfolding reset_bits column_mode reverse_video origin_mode to_main forget_mouse
priv_reset env n t =
    if n == 3
    then column_mode env 80 t
    else if n == 5
    then reverse_video false t
    else if n == 6
    then origin_mode false t
    else if n == 7
    then record (on_screen lcf_reset_nocmove t) { mode = record (t.mode) { wrap = false } }
    else if n == 25
    then on_screen hide_cursor t
    else if n == 1000 || n == 1002
    then forget_mouse (record t { mode = reset_bits n t.mode })
    else if n == 1005 || n == 1006 || n == 1015
    then record t { mreport = record (t.mreport) { mode = 1000 } }
    else if n == 1046
    then if t.on_alt
      then switch_screen (record t { mode = record (t.mode) { no_altscr = true } })
      else record t { mode = record (t.mode) { no_altscr = true } }
    else if n == 1049 || n == 47 || n == 1047
    then to_main n t
    else if n == 1048
    then restore_cursor save_xterm t
    else record t { mode = reset_bits n t.mode }

-- `csi_priv_h` and `csi_priv_l`, with `csi_priv_yterm` before them.
unfoldable pub csi_priv_hl : Env → Bool → Term → Term
unfolding each_arg yterm_code priv_set priv_reset
csi_priv_hl env mode_h t =
    let args = take t.escseq.argc t.escseq.argv in
    elim (yterm_args args) [
      | some codes ↦ each_arg (yterm_code mode_h) codes t
      | none ↦ each_arg (if mode_h then priv_set env else priv_reset env) args t
    ]
