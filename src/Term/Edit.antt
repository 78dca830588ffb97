-- ===== src/Term/Edit.antt =====
-- term_lib_csi.inc.c: the tabulation, the editing commands and the scroll region of `csi_normal`.
use yterm.Prelude.{
  ℕ, zero, suc, ◌-◌, min, max, Bool, false, ◌&&◌, ◌||◌, List, some, ltb, leb, ◌==◌, if◌then◌else◌,
  bit_or, ℤ, pos, ◌+ℤ◌, ◌-ℤ◌, clamp,
}
use yterm.Cellwin.{clear_region}
use yterm.Cellwin.Strip.{insert_chars, delete_chars}
use yterm.Term.{Screen, Term, Env, wkscr, on_screen}
use yterm.Term.Cursor.{lcf_reset, lcf_reset_nocmove, curmove_abs, move_if_changed}
use yterm.Term.Scroll.{scroll_up, scroll_down}
use yterm.Term.Putc.{next_tab}
use yterm.Term.Csi.{def_arg1, def_arg1n}

-- The loop of CHT.
unfoldable pub tab_forward : ℕ → ℕ → ℕ → ℕ
tab_forward zero wdt nx = nx
tab_forward (suc n) wdt nx =
    if nx == wdt - 1 then nx else tab_forward n wdt (min (next_tab nx) (wdt - 1))

-- The loop of CBT.
unfoldable pub tab_backward : ℕ → ℕ → ℕ
tab_backward zero nx = nx
tab_backward (suc n) nx = if nx == 0 then nx else tab_backward n (bit_or (nx - 1) 7 - 7)

-- ED, by its argument.
unfoldable pub erase_display : ℕ → Screen → Screen
unfolding lcf_reset
erase_display mode s0 =
    let s = lcf_reset s0 in
    let x = pos s.curpos.x in
    let y = pos s.curpos.y in
    let x1 = pos s.cbuf.width -ℤ pos 1 in
    let y1 = pos s.cbuf.height -ℤ pos 1 in
    let a = some s.currattr in
    if mode == 0
    then record s {
      cbuf = clear_region (clear_region s.cbuf x y x1 y a) (pos 0) (y +ℤ pos 1) x1 y1 a;
    }
    else if mode == 1
    then record s {
      cbuf = clear_region (clear_region s.cbuf (pos 0) y x y a) (pos 0) (pos 0) x1 (y -ℤ pos 1) a;
    }
    else if mode == 2 || mode == 3
    then record s { cbuf = clear_region s.cbuf (pos 0) (pos 0) x1 y1 a }
    else s

-- EL, by its argument.
unfoldable pub erase_line : ℕ → Screen → Screen
unfolding lcf_reset
erase_line mode s0 =
    let s = lcf_reset s0 in
    let x = pos s.curpos.x in
    let y = pos s.curpos.y in
    let x1 = pos s.cbuf.width -ℤ pos 1 in
    let a = some s.currattr in
    if mode == 0
    then record s { cbuf = clear_region s.cbuf x y x1 y a }
    else if mode == 1
    then record s { cbuf = clear_region s.cbuf (pos 0) y x y a }
    else if mode == 2
    then record s { cbuf = clear_region s.cbuf (pos 0) y x1 y a }
    else s

-- ICH, DCH and ECH.
unfoldable pub insert_blanks : ℕ → Screen → Screen
unfolding lcf_reset
insert_blanks n s0 =
    let s = lcf_reset s0 in
    record s {
      cbuf = insert_chars s.cbuf (pos s.curpos.x) (pos s.curpos.y) (pos n) (some s.currattr);
    }

unfoldable pub delete_blanks : ℕ → Screen → Screen
unfolding lcf_reset
delete_blanks n s0 =
    let s = lcf_reset s0 in
    record s {
      cbuf = delete_chars s.cbuf (pos s.curpos.x) (pos s.curpos.y) (pos n) (some s.currattr);
    }

unfoldable pub erase_chars : ℕ → Screen → Screen
unfolding lcf_reset
erase_chars n s0 =
    let s = lcf_reset s0 in
    record s {
      cbuf =
          clear_region s.cbuf (pos s.curpos.x) (pos s.curpos.y) (pos s.curpos.x +ℤ pos n -ℤ pos 1)
            (pos s.curpos.y) (some s.currattr);
    }

-- CHT and CBT.
unfoldable pub tab_to : (ℕ → ℕ) → Screen → Screen
unfolding lcf_reset
tab_to next s0 = let s = lcf_reset s0 in move_if_changed (next s.curpos.x) s.curpos.y s

abbrev pub set_sc_top : ℕ → Screen → Screen
set_sc_top top s = record s { sc_top = top }

-- The cursor is in the scroll region.
abbrev pub in_scroll_region : Screen → Bool
in_scroll_region s = leb s.sc_top s.curpos.y && leb s.curpos.y s.sc_bot

-- IL: the region that is scrolled starts at the cursor.
unfoldable pub insert_lines : Env → ℕ → Term → Term
unfolding lcf_reset
insert_lines env n t0 =
    let t = on_screen lcf_reset t0 in
    let s = wkscr t in
    if in_scroll_region s
    then on_screen (set_sc_top s.sc_top)
        (scroll_down env (pos n) (on_screen (set_sc_top (max s.sc_top s.curpos.y)) t))
    else t

-- DL, which does not write to the history.
unfoldable pub delete_lines : Env → ℕ → Term → Term
unfolding lcf_reset
delete_lines env n t0 =
    let t = on_screen lcf_reset t0 in
    let s = wkscr t in
    if in_scroll_region s
    then record (on_screen (set_sc_top s.sc_top) (
        scroll_up env (pos n) (
          on_screen (set_sc_top (max s.sc_top s.curpos.y))
            (record t { history_enabled = false })))) { history_enabled = t.history_enabled }
    else t

-- DECSTBM.
unfoldable pub set_scroll_region : Bool → List ℤ → Screen → Screen
unfolding lcf_reset_nocmove
set_scroll_region origin argv s0 =
    let s = lcf_reset_nocmove s0 in
    let hgt = s.cbuf.height in
    let top = clamp (pos (def_arg1 argv 0)) 1 hgt - 1 in
    let bot = clamp (pos (def_arg1n argv 1 hgt)) 1 hgt - 1 in
    curmove_abs origin (pos 0) (pos 0) (
      if ltb bot top
      then record s { sc_top = 0; sc_bot = hgt - 1 }
      else record s { sc_top = top; sc_bot = bot })
