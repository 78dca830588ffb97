-- ===== src/Term/Yterm.antt =====
-- term_lib_csi.inc.c: `csi_priv_yterm`, the settings of this emulator.
use yterm.Prelude.{
  ℕ, ◌+◌, Bool, true, false, ◌&&◌, not, List, [], ◌∷◌, Option, none, some, ◌==◌, if◌then◌else◌,
  bit_and, ℤ, pos, negsuc, pos_part, ltb_ℤ,
}
use yterm.Term.{close_history, Term, wkscr, on_screen, emit}
use yterm.Term.Sgr.{is_arg}
use yterm.Term.Screens.{dirty_screen}

-- A bit of `savedValues`.
abbrev pub has_bit : ℕ → ℕ → Bool
has_bit v m = not (bit_and v m == 0)

-- Code 142, save: the bits are set from 0 on.
unfoldable pub save_values : Term → Term
save_values t = record t {
  saved_values =
      0x01
      + (if t.report_mods then 0x02 else 0)
      + 0x04
      + (if ltb_ℤ t.escesc (pos 0) then 0x08 else if ltb_ℤ (pos 0) t.escesc then 0x10 else 0);
}

-- Code 142, restore.
unfoldable pub restore_values : Term → Term
restore_values t =
    let v = t.saved_values in
    record t {
      report_mods = if has_bit v 0x01 then has_bit v 0x02 else t.report_mods;
      escesc =
          if has_bit v 0x04
          then if has_bit v 0x08 then negsuc 0 else if has_bit v 0x10 then pos 1 else pos 0
          else t.escesc;
      saved_values = 0;
    }

-- Code 69 of the `l` sequence.
unfoldable pub stop_history : Term → Term
stop_history t0 =
    let t = emit (close_history (wkscr t0).cbuf.width) t0 in
    if t.selecting then on_screen dirty_screen (record t { selecting = false }) else t

-- One code of `csi_priv_yterm`; the colors are CMODE_NORMAL, CMODE_BW and CMODE_GREEN.
unfoldable pub yterm_code : Bool → ℕ → Term → Term
unfolding save_values restore_values stop_history
yterm_code mode_h n t =
    if n == 1
    then on_screen dirty_screen (record t { color_mode = pos 0 })
    else if n == 2
    then on_screen dirty_screen (record t { color_mode = pos 1 })
    else if n == 3
    then on_screen dirty_screen (record t { color_mode = pos 2 })
    else if n == 13
    then record t { report_mods = mode_h }
    else if n == 27
    then record t { escesc = if mode_h then pos 1 else pos 0 }
    else if n == 142
    then if mode_h then save_values t else restore_values t
    else if n == 69
    then if mode_h then record t { history_enabled = true } else stop_history t
    else t

-- A loop over arguments; an omitted one stands for no case.
unfoldable pub each_arg : (ℕ → Term → Term) → List ℤ → Term → Term
each_arg f [] t = t
each_arg f (a ∷ args) t = each_arg f args (f (pos_part a) t)

-- The test of `csi_priv_yterm`, on the arguments in use, and what follows 666;69;669.
abbrev pub yterm_args : List ℤ → Option (List ℤ)
yterm_args (a ∷ b ∷ c ∷ d ∷ rest) =
    if is_arg a 666 && is_arg b 69 && is_arg c 669 then some (d ∷ rest) else none
yterm_args _ = none
