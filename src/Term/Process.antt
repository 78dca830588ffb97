-- ===== src/Term/Process.antt =====
-- term_lib.inc.c: `term_process_char`, the machine that reads the characters of the child.
use yterm.Prelude.{
  ℕ, Bool, true, false, not, ◌&&◌, ◌||◌, List, [], ◌∷◌, ltb, leb, ◌==◌, if◌then◌else◌, pos, negsuc,
  ◌-ℤ◌,
}
use yterm.Term.{
  Screen, EscState, esc_none, esc_esc, esc_altg0, esc_altg1, esc_hash, esc_percent, esc_csi,
  esc_csi_ignore, esc_osc, esc_dcs, esc_s_ign, EscSeq, send, Term, Env, wkscr, on_screen, emit,
}
use yterm.Term.Cursor.{lcf_reset, curmove_abs, curmove_rel, save_dec, save_cursor, restore_cursor}
use yterm.Term.Scroll.{scroll_up, scroll_down}
use yterm.Term.Putc.{putc}
use yterm.Term.Csi.{start_csi}
use yterm.Term.Sgr.{reset_attrs}
use yterm.Term.Escapes.{
  set_state, reset_esc, set_charset, process_altg0, process_altg1, process_hash, process_percent,
  process_s_ign,
}
use yterm.Term.Reset.{reset_mode}
use yterm.Term.Strings.{in_osc, start_string, finish_osc, process_osc, process_dcs}
use yterm.Term.Handle.{process_csi}

abbrev pub in_dcs : EscState → Bool
in_dcs esc_dcs = true
in_dcs _ = false

abbrev pub in_none : EscState → Bool
in_none esc_none = true
in_none _ = false

-- The condition of `term_process_control_char` for its result 1.
abbrev pub eats : ℕ → EscState → Bool
eats cp st = not (in_osc st || in_dcs st) && (ltb cp 0x20 || cp == 0x7f)

-- The `switch` of `term_process_control_char`.
unfoldable pub control_char : Env → ℕ → Term → Term
unfolding finish_osc
control_char env cp t =
    if cp == 0x07
    then if in_none t.escseq.state then putc env 0x07 t else t
    else if cp == 0x0e
    then set_charset true t
    else if cp == 0x0f
    then set_charset false t
    else if cp == 0x1a
    then reset_esc (putc env 0x3f t)
    else if cp == 0x18
    then reset_esc t
    else if cp == 0x1b
    then set_state esc_esc (reset_esc (finish_osc t))
    else if cp == 0x7f
    then t
    else putc env cp t

-- The test of IND and RI on the cursor.
abbrev pub in_region : Screen → Bool
in_region s = leb s.sc_top s.curpos.y && leb s.curpos.y s.sc_bot

-- ESC D.
unfoldable pub index_down : Env → Term → Term
unfolding lcf_reset
index_down env t0 =
    let t = on_screen lcf_reset t0 in
    if in_region (wkscr t)
    then if (wkscr t).curpos.y == (wkscr t).sc_bot
      then scroll_up env (pos 1) t
      else on_screen (curmove_rel t.mode.origin (pos 0) (pos 1)) t
    else t

-- ESC M.
unfoldable pub index_up : Env → Term → Term
unfolding lcf_reset
index_up env t0 =
    let t = on_screen lcf_reset t0 in
    if in_region (wkscr t)
    then if (wkscr t).curpos.y == (wkscr t).sc_top
      then scroll_down env (pos 1) t
      else on_screen (curmove_rel t.mode.origin (pos 0) (negsuc 0)) t
    else t

-- The characters after ESC that begin a longer sequence; the others leave no sequence.
unfoldable pub start_seq : ℕ → EscSeq → EscSeq
unfolding start_csi start_string
start_seq cp e =
    if cp == 0x5b
    then start_csi e
    else if cp == 0x5d
    then start_string esc_osc e
    else if cp == 0x28
    then record e { state = esc_altg0 }
    else if cp == 0x29
    then record e { state = esc_altg1 }
    else if cp == 0x23
    then record e { state = esc_hash }
    else if cp == 0x25
    then record e { state = esc_percent }
    else if cp == 0x50
    then start_string esc_dcs e
    else if cp == 0x5e
    then record e { state = esc_s_ign }
    else record e { state = esc_none }

abbrev pub set_keypad : Bool → Term → Term
set_keypad b t = record t { mode = record (t.mode) { appkeypad = b } }

-- The commands of one character.
unfoldable pub esc_command : Env → ℕ → Term → Term
unfolding index_down index_up lcf_reset
esc_command env cp t =
    if cp == 0x44
    then index_down env t
    else if cp == 0x45
    then putc env 0x0d (putc env 0x0a (on_screen lcf_reset t))
    else if cp == 0x46
    then on_screen (λ s. curmove_abs t.mode.origin (pos 0) (pos s.cbuf.height -ℤ pos 1) s) t
    else if cp == 0x4d
    then index_up env t
    else if cp == 0x63
    then reset_mode t
    else if cp == 0x3d
    then set_keypad true t
    else if cp == 0x3e
    then set_keypad false t
    else if cp == 0x37
    then save_cursor save_dec t
    else if cp == 0x38
    then restore_cursor save_dec t
    else if cp == 0x5a
    then emit (send (0x1b ∷ 0x5b ∷ 0x3f ∷ 0x31 ∷ 0x3b ∷ 0x32 ∷ 0x63 ∷ [])) t
    else t

-- `term_process_esc`.
unfoldable pub process_esc : Env → ℕ → Term → Term
unfolding start_seq esc_command
process_esc env cp t = esc_command env cp (record t { escseq = start_seq cp t.escseq })

-- The `switch` of `term_process_char`.
unfoldable pub process_in : EscState → Env → ℕ → Term → Term
unfolding process_altg0 process_altg1 process_hash process_percent
process_in esc_none env cp t = putc env cp t
process_in esc_esc env cp t = process_esc env cp t
process_in esc_altg0 env cp t = process_altg0 cp t
process_in esc_altg1 env cp t = process_altg1 cp t
process_in esc_hash env cp t = process_hash cp t
process_in esc_percent env cp t = process_percent cp t
process_in esc_csi env cp t = process_csi env cp t
process_in esc_csi_ignore env cp t = process_csi env cp t
process_in esc_osc env cp t = process_osc env cp t
process_in esc_dcs env cp t = process_dcs env cp t
process_in esc_s_ign env cp t = process_s_ign env cp t

-- `term_process_char`.
unfoldable pub process_char : Env → ℕ → Term → Term
unfolding control_char process_in
process_char env cp t =
    if eats cp t.escseq.state then control_char env cp t else process_in t.escseq.state env cp t

-- `term_simple_print`: the bytes of a message, each a character.
unfoldable pub simple_print : Env → List ℕ → Term → Term
unfolding process_char
simple_print env [] t = t
simple_print env (c ∷ cs) t = simple_print env cs (process_char env c t)

-- `term_simple_print_ensure_nl`.
unfoldable pub simple_print_ensure_nl : Env → Term → Term
unfolding process_char
simple_print_ensure_nl env t0 =
    let t = on_screen (λ s. record s { currattr = reset_attrs s.currattr }) t0 in
    if not ((wkscr t).curpos.x == 0) then process_char env 0x0a (process_char env 0x0d t) else t
