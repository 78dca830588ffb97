-- ===== src/Term/Putc.antt =====
-- term_lib.inc.c: `term_putc`, which writes a character and moves the cursor.
use yterm.Prelude.{
  ℕ, ◌+◌, ◌-◌, min, Bool, true, false, ◌&&◌, ◌||◌, not, List, [], ◌∷◌, none, some, ltb, leb, ◌==◌,
  if◌then◌else◌, get_or, pos, bit_or,
}
use yterm.Cellwin.{write_wchar, unmark_line_autowrap}
use yterm.Cellwin.Strip.{insert_chars}
use yterm.Term.{Mode, Charset, Screen, bell, Term, Env, wkscr, on_screen, emit}
use yterm.Term.Cursor.{
  invalidate_cursor, set_xy, set_just_moved, move_cursor, lcf_reset, lcf_reset_nocmove,
}
use yterm.Term.Scroll.{scroll_up, lcf_do}

-- `term_font_gfx_table`.
abbrev pub term_font_gfx_table : List ℕ
term_font_gfx_table =
    0x25c6 ∷ 0x2592 ∷ 0x0062 ∷ 0x0063 ∷ 0x0064 ∷ 0x0065 ∷ 0x00b0 ∷ 0x00b1 ∷ 0x0068 ∷ 0x0069 ∷ 0x2518
    ∷ 0x2510 ∷ 0x250c ∷ 0x2514 ∷ 0x253c ∷ 0x006f ∷ 0x0070 ∷ 0x2500 ∷ 0x0072 ∷ 0x0073 ∷ 0x251c
    ∷ 0x2524 ∷ 0x2534 ∷ 0x252c ∷ 0x2502 ∷ 0x2264 ∷ 0x2265 ∷ 0x03c0 ∷ 0x2260 ∷ 0x00a3 ∷ 0x00b7
    ∷ 0x0020 ∷ []

-- `term->mode & term->charset`, and the substitution of the graphics characters.
unfoldable pub gfx_char : Env → Mode → Charset → ℕ → ℕ
gfx_char env m c cp =
    if ((m.gfx0 && c.gfx0) || (m.gfx1 && c.gfx1)) && leb 0x60 cp && ltb cp 0x7f
    then if env.terminus_gfx then cp - 0x5f else get_or term_font_gfx_table (cp - 0x60) 0
    else cp

abbrev pub unmark_line : Screen → Screen
unmark_line s = record s { cbuf = unmark_line_autowrap s.cbuf (pos s.curpos.y) }

-- `if (cpos->justMoved) ...`
unfoldable pub begin_put : Screen → Screen
begin_put s = if s.curpos.just_moved then unmark_line (set_just_moved false s) else s

-- The insert mode, and the write.
unfoldable pub put_cell_at : Bool → ℕ → Screen → Screen
put_cell_at insert cp s =
    let x = pos s.curpos.x in
    let y = pos s.curpos.y in
    let cb = if insert then insert_chars s.cbuf x y (pos 1) none else s.cbuf in
    record s { cbuf = write_wchar cb x y cp (some s.currattr) }

-- `advance cursor`: with wrapping the last column is left only by the next character.
unfoldable pub advance : Bool → Screen → Screen
advance wrap s =
    if s.curpos.x == s.cbuf.width - 1
    then if wrap
      then unmark_line (record s { curpos = record (s.curpos) { last_col_flag = true } })
      else unmark_line s
    else move_cursor (s.curpos.x + 1) s.curpos.y s

-- A character that is not a control.
unfoldable pub put_char : Env → ℕ → Term → Term
unfolding begin_put put_cell_at advance
put_char env cp0 t =
    let cp = gfx_char env t.mode t.charset cp0 in
    if cp == 0x7f
    then t
    else on_screen (λ s. advance t.mode.wrap (put_cell_at t.mode.insert cp s))
        (lcf_do env (on_screen begin_put t))

-- BS: the test on `x` makes the step to the line above dead code.
unfoldable pub back_space : Screen → Screen
unfolding lcf_reset
back_space s0 =
    let s = lcf_reset s0 in
    if not (s.curpos.x == 0) then move_cursor (s.curpos.x - 1) s.curpos.y s else s

-- The next tab stop: `(x | 7) + 1`.
abbrev pub next_tab : ℕ → ℕ
next_tab x = bit_or x 7 + 1

unfoldable pub tab : Screen → Screen
unfolding lcf_reset
tab s0 =
    let s = lcf_reset s0 in
    let nx = min (next_tab s.curpos.x) (s.cbuf.width - 1) in
    if not (nx == s.curpos.x) then move_cursor nx s.curpos.y s else s

unfoldable pub carriage_return : Screen → Screen
unfolding lcf_reset
carriage_return s0 =
    let s = unmark_line (lcf_reset s0) in
    if not (s.curpos.x == 0) then move_cursor 0 s.curpos.y s else s

-- LF away from the bottom of the scroll region.
unfoldable pub line_down : Bool → Screen → Screen
line_down crlf s0 =
    let s = invalidate_cursor s0 in
    invalidate_cursor (
      set_xy (if crlf then 0 else s.curpos.x)
        (if not (s.curpos.y == s.cbuf.height - 1) then s.curpos.y + 1 else s.curpos.y) s)

unfoldable pub line_start : Bool → Screen → Screen
line_start crlf s =
    if crlf && not (s.curpos.x == 0) then invalidate_cursor (set_xy 0 s.curpos.y s) else s

-- LF, VT and FF.
unfoldable pub line_feed : Env → Term → Term
unfolding lcf_reset line_down line_start
line_feed env t0 =
    let t = on_screen (λ s. unmark_line (lcf_reset s)) t0 in
    if (wkscr t).curpos.y == (wkscr t).sc_bot
    then on_screen (line_start t.mode.crlf) (scroll_up env (pos 1) t)
    else on_screen (line_down t.mode.crlf) t

-- `term_putc`.
unfoldable pub putc : Env → ℕ → Term → Term
unfolding put_char line_feed back_space tab carriage_return lcf_reset_nocmove
putc env cp t =
    if leb 0x20 cp
    then put_char env cp t
    else if cp == 0x07
    then if t.active then emit bell t else t
    else if cp == 0x08
    then on_screen back_space t
    else if cp == 0x09
    then on_screen tab t
    else if cp == 0x0a || cp == 0x0b || cp == 0x0c
    then line_feed env t
    else if cp == 0x0d
    then on_screen carriage_return t
    else if cp == 0x1a
    then on_screen lcf_reset_nocmove t
    else t
