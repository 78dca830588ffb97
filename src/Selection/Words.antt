-- ===== src/Selection/Words.antt =====
-- selection.inc.c: the movements of the cursor of the selection by words and by cells.
pub mod Sizes
pub mod Stays
use yterm.Prelude.{
  ℕ, zero, suc, ◌+◌, ◌-◌, ◌*◌, min, max, Bool, true, false, ◌&&◌, ◌||◌, not, List, [], ◌∷◌, ltb,
  leb, ◌==◌, if◌then◌else◌, ℤ, pos, negsuc, pos_part, neg_part, ◌+ℤ◌, ◌-ℤ◌, ltb_ℤ, leb_ℤ, clamp,
  get_or,
}
use yterm.Cell.{CharCell, default_cell}
use yterm.Cellwin.{CellBuffer, mark_dirty}
use yterm.Utf.Case.{is_alnum}
use yterm.Selection.{Block, stream, is_stream, Selection, View}
use yterm.Selection.Draw.{Reads, draw_selection}

-- `yterm_isword` and `xsel_is_blank`.
unfoldable pub is_word : ℕ → Bool
is_word cp = cp == b'_' || cp == b'$' || is_alnum cp

unfoldable pub is_blank : ℕ → Bool
is_blank ch = leb ch 32 || ch == 127 || (leb 128 ch && not (is_alnum ch))

-- `hvbuf.buf[cy * hvbuf.width + x].ch`.
abbrev pub char_at : View → ℕ → ℕ
char_at v x = (get_or v.hvbuf.buf (v.sel.cy * v.hvbuf.width + x) default_cell).ch

-- `cbuf_mark_dirty(&hvbuf, cx, cy)`.
abbrev pub soil_cursor : View → View
soil_cursor v = record v { hvbuf = mark_dirty v.hvbuf (pos v.sel.cx) (pos v.sel.cy) }

abbrev pub same : Bool → Bool → Bool
same true b = b
same false b = not b

-- The loop to the left: `n` columns are left of the cursor.
unfoldable pub skip_left : View → Bool → ℕ → ℕ
skip_left v word zero = 0
skip_left v word (suc n) =
    let rest = skip_left v word n in if same (is_word (char_at v n)) word then rest else suc n

-- The loop to the right, for `n` columns right of `x`.
unfoldable pub skip_right : View → Bool → ℕ → ℕ → ℕ
skip_right v word zero x = x
skip_right v word (suc n) x =
    let rest = skip_right v word n (x + 1) in
    if same (is_word (char_at v (x + 1))) word then rest else x

-- The end of `xsel_word_left` and `xsel_word_right`: the cursor goes to the given place.
unfoldable pub place : Reads → ℕ → ℕ → View → View
place r cx cy v =
    let v' : View = record v { sel = record v.sel { cx = cx; cy = cy } } in
    soil_cursor (if v.sel.inprogress then draw_selection r v' else v')

-- `xsel_word_left`: at the border it changes `sback`; what it does to `cx` and `cy` there is
-- overwritten.
unfoldable pub word_left : Reads → View → View
word_left r v =
    let s = v.sel in
    let back = if s.cy == 0 && ltb s.sback v.file.lcount then s.sback + 1 else s.sback in
    if s.cx == 0
    then if is_stream s.block
      then place r s.cx s.cy (record (soil_cursor v) { sel = record s { sback = back } })
      else v
    else place r (skip_left v (is_word (char_at v (s.cx - 1))) s.cx) s.cy (soil_cursor v)

-- `xsel_word_right`.
unfoldable pub word_right : Reads → View → View
word_right r v =
    let s = v.sel in
    let w = v.hvbuf.width in
    let forth = if s.cy == v.hvbuf.height - 1 && not (s.sback == 0) then s.sback - 1 else s.sback in
    let x = skip_right v (is_word (char_at v (s.cx + 1))) (w - 1 - s.cx) s.cx in
    let x' = if not s.inprogress && not (x == w - 1) then x + 1 else x in
    if s.cx == w - 1
    then if is_stream s.block
      then place r s.cx s.cy (record (soil_cursor v) { sel = record s { sback = forth } })
      else v
    else place r x' s.cy (soil_cursor v)

-- The loop of `xsel_altword_move` to the left, from the column before `n`: the first column that
-- differs, plus one.
unfoldable pub blanks_left : View → Bool → ℕ → ℕ
blanks_left v blank zero = 0
blanks_left v blank (suc n) =
    let rest = blanks_left v blank n in if same (is_blank (char_at v n)) blank then rest else suc n

-- To the right, from the column `x` with `n` more: the first column that differs.
unfoldable pub blanks_right : View → Bool → ℕ → ℕ → ℕ
blanks_right v blank zero x = x
blanks_right v blank (suc n) x =
    let rest = blanks_right v blank n (x + 1) in
    if same (is_blank (char_at v x)) blank then rest else x

-- The column that `xsel_altword_move` finds.
unfoldable pub altword_left : View → ℕ
altword_left v =
    let start = is_blank (char_at v v.sel.cx) in
    let cx = v.sel.cx in
    let turn = not (cx == 0) && not (same (is_blank (char_at v (cx - 1))) start) in
    if turn then blanks_left v (not start) (cx - 1) else blanks_left v start cx

unfoldable pub altword_right : View → ℕ
altword_right v =
    let start = is_blank (char_at v v.sel.cx) in
    let x = v.sel.cx + 1 in
    let w = v.hvbuf.width in
    let turn = ltb x w && not (same (is_blank (char_at v x)) start) in
    (if turn
      then blanks_right v (not start) (w - (x + 1)) (x + 1)
      else blanks_right v start (w - x) x)
    - 1

-- `xsel_altword_move`.
unfoldable pub altword_move : Reads → Bool → View → View
altword_move r to_left v =
    let x = if to_left then altword_left v else altword_right v in
    if x == v.sel.cx then v else place r x v.sel.cy (soil_cursor v)

-- `x11_selection_curmove` above and below the screen: the cursor on a border line, with another
-- `sback`.
unfoldable pub curmove_scroll : Reads → ℕ → ℕ → ℕ → View → View
curmove_scroll r nx cy sback v =
    let v' : View = record v { sel = record v.sel { cx = nx; cy = cy } } in
    let drawn = draw_selection r (record v' { sel = record v'.sel { sback = sback } }) in
    soil_cursor (if not (sback == v.sel.sback) || v.sel.inprogress then drawn else v')

abbrev pub is_zero : ℤ → Bool
is_zero (pos n) = n == 0
is_zero (negsuc n) = false

-- `x11_selection_curmove`.
unfoldable pub selection_curmove : Reads → ℤ → ℤ → View → View
selection_curmove r dx dy v0 =
    let v = soil_cursor v0 in
    let nx = clamp (pos v.sel.cx +ℤ dx) 0 (v.cbuf.width - 1) in
    let ny = pos v.sel.cy +ℤ dy in
    let last = v.hvbuf.height - 1 in
    let below = pos_part ny - last in
    if is_zero dx && is_zero dy
    then v0
    else if ltb_ℤ ny (pos 0)
    then curmove_scroll r nx 0 (min v.file.lcount (v.sel.sback + neg_part ny)) v
    else if leb_ℤ (pos v.hvbuf.height) ny
    then curmove_scroll r nx last (v.sel.sback - below) v
    else if not (nx == v.sel.cx) || not (pos_part ny == v.sel.cy)
    then place r nx (pos_part ny) v
    else v
