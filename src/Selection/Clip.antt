-- ===== src/Selection/Clip.antt =====
-- clipboard.inc.c: the text that do_copy_to writes for a selection.
pub mod Blanks
pub mod Columns
pub mod Copied
use yterm.Prelude.{
  ℕ, zero, suc, ◌+◌, ◌-◌, Bool, true, false, ◌&&◌, ◌||◌, not, Option, none, some, List, [], ◌∷◌,
  ◌++◌, map, ltb, leb, ◌==◌, if◌then◌else◌, ℤ, pos, pos_part, ◌+ℤ◌, ◌-ℤ◌, ltb_ℤ, take, drop, get_or,
}
use yterm.Cell.{CharCell, default_cell}
use yterm.Cellwin.{CellBuffer}
use yterm.Utf.{utf8_encode}
use yterm.History.{HistoryFile, Access}
use yterm.History.Load.{history_load_line}
use yterm.Selection.{
  Block, no_block, stream, line, rect, Selection, View, has_selblock, in_selection, selection_end,
}
use yterm.Selection.Draw.{span_of, count_up, Reads}

-- The code points of the columns `x0` to `x1` of a line; a zero is a space.
unfoldable pub line_chars : ℤ → ℤ → List CharCell → List ℕ
line_chars x0 x1 cells =
    map (λ c. if c.ch == 0 then 32 else c.ch) (take (count_up x0 x1) (drop (pos_part x0) cells))

-- The loop that encodes them.
unfoldable pub encode_line : List ℕ → List ℕ
encode_line [] = []
encode_line (cp ∷ cps) = utf8_encode cp ++ encode_line cps

-- `while (dpos > 0 && ubuf[dpos - 1] >= 0 && ubuf[dpos - 1] <= 32) dpos -= 1;`, on signed bytes.
abbrev pub keep_unless : Bool → ℕ → List ℕ → List ℕ
keep_unless blank b [] = if blank then [] else b ∷ []
keep_unless blank b (c ∷ bs) = b ∷ (c ∷ bs)

unfoldable pub trim_line : List ℕ → List ℕ
trim_line [] = []
trim_line (b ∷ bs) = keep_unless (leb b 32) b (trim_line bs)

abbrev pub is_rect : Block → Bool
is_rect rect = true
is_rect _ = false

abbrev pub same_line : ℤ → ℤ → Bool
same_line a b = not (ltb_ℤ a b || ltb_ℤ b a)

-- `write_nl`, from the mark of the last column.
unfoldable pub writes_nl : Block → Bool → Bool
writes_nl stream wrapped = not wrapped
writes_nl _ wrapped = true

-- What is written for a line.
unfoldable pub copy_line : ℕ → Selection → ℤ → List CharCell → List ℕ
copy_line w s y cells =
    let (x0, x1) = span_of s.block w s y in
    let last = same_line y s.y1 in
    let nl = not last && writes_nl s.block (get_or cells (w - 1) default_cell).auto_wrap in
    let bytes = encode_line (line_chars x0 x1 cells) in
    (if not (is_rect s.block) && (nl || last) then trim_line bytes else bytes)
    ++ (if nl then 10 ∷ [] else [])

-- The loop over the lines, `n` of them from `y` on; a line that cannot be loaded is left out. The
-- writes to the pipe succeed.
abbrev pub copy_loaded : ℕ → Selection → ℤ → Option (List CharCell) → List ℕ
copy_loaded w s y none = []
copy_loaded w s y (some cells) = copy_line w s y cells

unfoldable pub copy_lines :
    ℕ → Reads → Selection → ℤ → CellBuffer → CellBuffer → HistoryFile → List ℕ
copy_lines zero r s y cb hv f = []
copy_lines (suc n) r s y cb hv f =
    let loaded = history_load_line (r n).0 (r n).1 cb hv.width hv.height y f in
    copy_loaded hv.width s y loaded.1 ++ copy_lines n r s (y +ℤ pos 1) cb hv loaded.0

-- `do_copy_to`, where the program that takes the text is started: the selection after it, and what is
-- written.
unfoldable pub copy_to : Reads → View → Selection × List ℕ
copy_to r v =
    let s = selection_end v.file.lcount v.sel in
    if not (in_selection v.sel.block)
    then (v.sel, [])
    else if not (has_selblock s)
    then (s, [])
    else (s, copy_lines (count_up s.y0 s.y1) r s s.y0 v.cbuf v.hvbuf v.file)
