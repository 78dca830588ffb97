-- ===== src/Selection/Keys.antt =====
-- selection.inc.c: x11_parse_keyevent_selection behind its search for key bindings.
pub mod Stays
use yterm.Prelude.{
  ℕ, zero, suc, ◌+◌, ◌-◌, ◌*◌, min, Bool, true, false, ◌&&◌, ◌||◌, not, List, [], ◌∷◌, ltb, leb,
  ◌==◌, if◌then◌else◌, ℤ, pos, negsuc, ◌+ℤ◌, ◌-ℤ◌,
}
use yterm.Cellwin.{CellBuffer, mark_all_dirty}
use yterm.Keypad.{
  KeySym, letter, return_key, space, escape, up, down, left, right, home, end_key, page_up,
  page_down, f3, kp_enter, translate_keypad,
}
use yterm.Selection.{
  Block, no_block, stream, line, rect, is_stream, Selection, View, has_selblock, selection_end,
}
use yterm.Selection.Draw.{Reads, draw_selection, selection_start, selection_reset}
use yterm.Selection.Words.{
  is_word, char_at, soil_cursor, word_left, word_right, altword_move, selection_curmove,
}

-- `kmods`: Mod_Shift, Mod_Alt, Mod_Ctrl.
pub record Mods : Type 0 where
  pub shift : Bool
  pub alt : Bool
  pub ctrl : Bool

-- The selection mode is left.
unfoldable pub leave : View → View
leave v = record v { sel = record v.sel { block = no_block }; cbuf = mark_all_dirty v.cbuf }

-- `if ((kmods & Mod_Shift) && !inprogress) term_selection_start(term);`
unfoldable pub start_by_shift : Reads → Mods → View → View
start_by_shift r k v = if k.shift && not v.sel.inprogress then selection_start r v else v

abbrev pub end_of : View → View
end_of v = record v { sel = selection_end v.file.lcount v.sel }

unfoldable pub space_key : Reads → Mods → View → View
space_key r k v =
    if k.ctrl
    then selection_start r v
    else if k.alt
    then selection_reset r v
    else if not v.sel.inprogress
    then selection_start r v
    else end_of v

abbrev pub set_block : Block → View → View
set_block b v = record v { sel = record v.sel { block = b } }

unfoldable pub f3_key : Reads → Mods → View → View
f3_key r k v =
    let started = selection_start r v in
    if v.sel.inprogress
    then end_of v
    else if k.shift
    then set_block rect started
    else if k.alt
    then draw_selection r (set_block line started)
    else set_block stream started

-- The arrows left and right.
unfoldable pub left_key : Reads → Mods → View → View
left_key r k v0 =
    let v = start_by_shift r k v0 in
    if k.alt
    then altword_move r true v
    else if k.ctrl
    then word_left r v
    else if v.sel.cx == 0 && is_stream v.sel.block
    then selection_curmove r (pos v.hvbuf.width -ℤ pos 1) (negsuc 0) v
    else selection_curmove r (negsuc 0) (pos 0) v

unfoldable pub right_key : Reads → Mods → View → View
right_key r k v0 =
    let v = start_by_shift r k v0 in
    if k.alt
    then altword_move r false v
    else if k.ctrl
    then word_right r v
    else if v.sel.cx == v.hvbuf.width - 1 && is_stream v.sel.block
    then selection_curmove r (pos 0 -ℤ pos v.sel.cx) (pos 1) v
    else selection_curmove r (pos 1) (pos 0) v

-- The lines of the history that are shown are moved, if it has lines.
unfoldable pub scroll_to : Reads → ℕ → View → View
scroll_to r sback v =
    let drawn = draw_selection r (record v { sel = record v.sel { sback = sback } }) in
    if v.file.lcount == 0 then v else drawn

-- The cursor goes to a corner of the screen.
unfoldable pub corner : Reads → ℕ → ℕ → ℕ → View → View
corner r cx cy sback v = draw_selection r (
    soil_cursor (record (soil_cursor v) { sel = record v.sel { cx = cx; cy = cy; sback = sback } }))

unfoldable pub up_key : Reads → Mods → View → View
up_key r k v0 =
    let v = start_by_shift r k v0 in
    let n = if k.alt then 10 else 1 in
    if k.ctrl
    then scroll_to r (min (v.sel.sback + n) (v.file.lcount - 1)) v
    else selection_curmove r (pos 0) (pos 0 -ℤ pos n) v

unfoldable pub down_key : Reads → Mods → View → View
down_key r k v0 =
    let v = start_by_shift r k v0 in
    let n = if k.alt then 10 else 1 in
    if k.ctrl then scroll_to r (v.sel.sback - n) v else selection_curmove r (pos 0) (pos n) v

-- The first and the last column of a word in the line: the loops of XK_Home, with `n` columns up to
-- the last one, and of XK_End.
unfoldable pub first_word : View → ℕ → ℕ → ℕ
first_word v zero x = x
first_word v (suc n) x =
    let rest = first_word v n (x + 1) in if is_word (char_at v x) then x else rest

unfoldable pub last_word : View → ℕ → ℕ
last_word v zero = 0
last_word v (suc x) =
    let rest = last_word v x in if is_word (char_at v (suc x)) then suc x else rest

unfoldable pub home_target : View → ℕ
home_target v = let x = first_word v (v.hvbuf.width - 1) 0 in if leb v.sel.cx x then 0 else x

unfoldable pub home_key : Reads → Mods → View → View
home_key r k v =
    let moved = selection_curmove r (pos (home_target v) -ℤ pos v.sel.cx) (pos 0) v in
    if k.ctrl then corner r 0 0 v.sel.sback v else if v.sel.cx == 0 then v else moved

unfoldable pub end_target : View → ℕ
end_target v =
    let x = last_word v (v.hvbuf.width - 1) in if leb x v.sel.cx then v.hvbuf.width - 1 else x

unfoldable pub end_key_step : Reads → Mods → View → View
end_key_step r k v0 =
    let v = start_by_shift r k v0 in
    let moved = selection_curmove r (pos (end_target v) -ℤ pos v.sel.cx) (pos 0) v in
    if k.ctrl
    then corner r (v0.hvbuf.width - 1) (v0.hvbuf.height - 1) v0.sel.sback v0
    else if v.sel.cx == v.hvbuf.width - 1
    then v
    else moved

unfoldable pub page_up_key : Reads → Mods → View → View
page_up_key r k v0 =
    let v = start_by_shift r k v0 in
    let dy = if not (v.sel.cy == 0) then v.sel.cy else v.hvbuf.height - 1 in
    if k.alt
    then scroll_to r (min (v0.sel.sback + (v0.cbuf.height - 1)) (v0.file.lcount - 1)) v0
    else if k.ctrl
    then corner r 0 0 v0.file.lcount v0
    else selection_curmove r (pos 0) (pos 0 -ℤ pos dy) v

unfoldable pub page_down_key : Reads → Mods → View → View
page_down_key r k v0 =
    let v = start_by_shift r k v0 in
    let last = v.hvbuf.height - 1 in
    let dy = if not (v.sel.cy == last) then last - v.sel.cy else last in
    if k.alt
    then scroll_to r (v0.sel.sback - (v0.cbuf.height - 1)) v0
    else if k.ctrl
    then corner r (v0.hvbuf.width - 1) (v0.hvbuf.height - 1) 0 v0
    else selection_curmove r (pos 0) (pos dy) v

-- The letters: the kind of the block, and the lock.
abbrev pub is_letter : ℕ → ℕ → Bool
is_letter c upper = c == upper || c == upper + 32

unfoldable pub letter_key : Reads → ℕ → View → View
letter_key r c v =
    if is_letter c b'R'
    then draw_selection r (set_block rect v)
    else if is_letter c b'L'
    then draw_selection r (set_block line v)
    else if is_letter c b'S'
    then draw_selection r (set_block stream v)
    else if is_letter c b'K'
    then record v { sel = record v.sel { locked = true } }
    else if is_letter c b'U'
    then record v { sel = record v.sel { locked = false } }
    else v

-- Return leaves the selection mode where it sends a click; what `term_send_mouse` sends is left out.
unfoldable pub click_key : Mods → View → View
click_key k v =
    if not v.sel.inprogress
      && not (has_selblock v.sel)
      && v.sel.sback == 0
      && v.takes_clicks
      && not k.shift
    then leave v
    else v

unfoldable pub selection_key : Reads → Mods → KeySym → View → View
selection_key r k space v = space_key r k v
selection_key r k f3 v = f3_key r k v
selection_key r k left v = left_key r k v
selection_key r k right v = right_key r k v
selection_key r k up v = up_key r k v
selection_key r k down v = down_key r k v
selection_key r k home v = home_key r k v
selection_key r k end_key v = end_key_step r k v
selection_key r k page_up v = page_up_key r k v
selection_key r k page_down v = page_down_key r k v
selection_key r k (letter c) v = letter_key r c v
selection_key r k return_key v = click_key k v
selection_key r k kp_enter v = click_key k v
selection_key r k _ v = v

unfoldable pub selection_keyevent : Reads → Bool → Mods → KeySym → View → View
selection_keyevent r numlock k escape v = leave v
selection_keyevent r numlock k ksym v =
    selection_key r k (if numlock then ksym else translate_keypad ksym) v
