-- ===== src/Term/Cursor.antt =====
-- term_lib.inc.c: the cursor. A function that works on one screen only takes that screen, and the
-- modes that it reads.
use yterm.Prelude.{
  ℕ, ◌+◌, ◌-◌, min, Bool, true, false, ◌||◌, not, ◌==◌, if◌then◌else◌, ℤ, pos, negsuc, ltb_ℤ, ◌+ℤ◌,
  clamp,
}
use yterm.Cellwin.{mark_dirty}
use yterm.Term.{Screen, Term, wkscr, on_screen}

-- `term_invalidate_cursor`.
unfoldable pub invalidate_cursor : Screen → Screen
invalidate_cursor s =
    if not s.curhidden
    then record s { cbuf = mark_dirty s.cbuf (pos s.curpos.x) (pos s.curpos.y) }
    else s

-- Assignments to `*cpos`.
abbrev pub set_xy : ℕ → ℕ → Screen → Screen
set_xy x y s = record s { curpos = record (s.curpos) { x = x; y = y } }

abbrev pub set_just_moved : Bool → Screen → Screen
set_just_moved b s = record s { curpos = record (s.curpos) { just_moved = b } }

-- `term_lcf_reset` and `term_lcf_reset_nocmove`.
unfoldable pub lcf_reset : Screen → Screen
lcf_reset s = record s { curpos = record (s.curpos) { last_col_flag = false; just_moved = true } }

unfoldable pub lcf_reset_nocmove : Screen → Screen
lcf_reset_nocmove s = record s { curpos = record (s.curpos) { last_col_flag = false } }

-- Invalidate, move, invalidate.
unfoldable pub move_cursor : ℕ → ℕ → Screen → Screen
unfolding invalidate_cursor
move_cursor x y s = invalidate_cursor (set_xy x y (invalidate_cursor s))

-- The end of `term_curmove_abs` and `term_curmove_rel`.
unfoldable pub move_if_changed : ℕ → ℕ → Screen → Screen
unfolding invalidate_cursor
move_if_changed nx ny s =
    if not (nx == s.curpos.x) || not (ny == s.curpos.y)
    then invalidate_cursor (set_just_moved true (set_xy nx ny (invalidate_cursor s)))
    else s

-- `term_curmove_abs`, by the origin mode.
unfoldable pub curmove_abs : Bool → ℤ → ℤ → Screen → Screen
unfolding lcf_reset
curmove_abs origin nx ny s =
    let x = clamp nx 0 (s.cbuf.width - 1) in
    let y = clamp ny 0 (s.cbuf.height - 1) in
    move_if_changed x (if origin then min (y + s.sc_top) s.sc_bot else y) (lcf_reset s)

-- `clamp(dx, -32767, 32767)`.
abbrev pub clamp_delta : ℤ → ℤ
clamp_delta d =
    if ltb_ℤ d (negsuc 32766) then negsuc 32766 else if ltb_ℤ (pos 32767) d then pos 32767 else d

-- `term_curmove_rel`.
unfoldable pub curmove_rel : Bool → ℤ → ℤ → Screen → Screen
unfolding lcf_reset
curmove_rel origin dx dy s =
    let nx = clamp (pos s.curpos.x +ℤ clamp_delta dx) 0 (s.cbuf.width - 1) in
    let y = clamp (pos s.curpos.y) s.sc_top s.sc_bot in
    let ny =
      if origin
      then clamp (pos y +ℤ clamp_delta dy) s.sc_top s.sc_bot
      else clamp (pos s.curpos.y +ℤ clamp_delta dy) 0 (s.cbuf.height - 1) in
    move_if_changed nx ny (lcf_reset s)

-- SaveSimple, SaveDEC, SaveANSI and SaveXTerm.
pub data SaveMode : Type 0 where
  save_simple save_dec save_ansi save_xterm : SaveMode

-- `term_save_cursor`. (The WRAP bit that SaveXTerm adds is there already.)
unfoldable pub save_cursor : SaveMode → Term → Term
save_cursor save_simple t = on_screen (λ s. record s { cursaved = s.curpos }) t
save_cursor _ t =
    on_screen
      (λ s. record s {
        cursaved = s.curpos;
        attrsaved = s.currattr;
        charsetsaved = t.charset;
        modesaved = t.mode;
      })
      t

-- The cursor's part of `term_restore_cursor`.
unfoldable pub restore_position : Screen → Screen
unfolding invalidate_cursor
restore_position s =
    if not (s.cursaved.x == s.curpos.x) || not (s.cursaved.y == s.curpos.y)
    then invalidate_cursor (record (invalidate_cursor s) { curpos = s.cursaved })
    else record s { curpos = s.cursaved }

-- The attributes' part; the masks leave the other mode bits alone.
unfoldable pub restore_attrs : Bool → Term → Term
restore_attrs with_wrap t =
    let s = wkscr t in
    record (on_screen (λ s. record s { currattr = s.attrsaved }) t) {
      mode = record (t.mode) {
        gfx0 = s.modesaved.gfx0;
        gfx1 = s.modesaved.gfx1;
        wrap = if with_wrap then s.modesaved.wrap else t.mode.wrap;
      };
      charset = s.charsetsaved;
    }

-- `term_restore_cursor`.
unfoldable pub restore_cursor : SaveMode → Term → Term
unfolding restore_attrs
restore_cursor save_simple t = on_screen restore_position t
restore_cursor save_xterm t = restore_attrs true (on_screen restore_position t)
restore_cursor _ t = restore_attrs false (on_screen restore_position t)
