-- ===== src/Selection/Clip/Copied.antt =====
-- The text that is copied is the UTF-8 of the selected characters.
use mathlib.Core.List.{append-nil}
use yterm.Prelude.{
  ℕ, zero, suc, ◌-◌, ◌≡◌, refl, ap, ap₂, sym, ◌∙◌, Bool, true, false, ◌&&◌, ◌||◌, not, Option, none,
  some, List, [], ◌∷◌, ◌++◌, if◌then◌else◌, ℤ, pos, pos_part, ◌+ℤ◌, ◌-ℤ◌, ◌≤ℤ◌, leb_ℤ, get_or,
  arith,
}
use yterm.Cell.{CharCell, default_cell}
use yterm.Cellwin.{CellBuffer}
use yterm.Utf.{utf8_encode}
use yterm.Utf.RoundTrip.{encode_all}
use yterm.History.{HistoryFile}
use yterm.History.Load.{history_load_line}
use yterm.Selection.{
  Block, no_block, stream, line, rect, in_selection, Selection, View, has_selblock, selection_end,
}
use yterm.Selection.Draw.{span_of, count_up, Reads}
use yterm.Selection.Draw.Rows.{InColumns}
use yterm.Selection.Draw.Marked.{selblock_parts}
use yterm.Selection.Clip.{
  line_chars, encode_line, trim_line, is_rect, same_line, writes_nl, copy_line, copy_loaded,
  copy_lines, copy_to,
}
use yterm.Selection.Clip.Columns.{pick, on_block, line_chars-on_block}
use yterm.Selection.Clip.Blanks.{drop_blanks, trim-encode, encode_line-all, encode_all-append}

-- What a line of the block gives, from its characters: a rectangle keeps its blanks, and the lines of
-- a stream that go on in the next line are not ended.
abbrev pub line_text : Block → Bool → Bool → List ℕ → List ℕ
line_text rect last wrapped chars = chars ++ (if last then [] else 10 ∷ [])
line_text line last wrapped chars = drop_blanks chars ++ (if last then [] else 10 ∷ [])
line_text stream true wrapped chars = drop_blanks chars
line_text stream false true chars = chars
line_text stream false false chars = drop_blanks chars ++ 10 ∷ []
line_text no_block last wrapped chars = []

-- The text of a line that was loaded: its cells on the block, and the end that its last cell tells.
abbrev pub block_line : ℕ → Selection → ℤ → Option (List CharCell) → List ℕ
block_line w s y none = []
block_line w s y (some cells) =
    line_text s.block (leb_ℤ s.y1 y) (get_or cells (w - 1) default_cell).auto_wrap
      (pick (on_block w s y) 0 cells)

-- `n` lines from `y` on, as the calls of `history_load_line` give them.
abbrev pub loaded_lines :
    ℕ → Reads → ℤ → CellBuffer → CellBuffer → HistoryFile → List (ℤ × Option (List CharCell))
loaded_lines zero r y cb hv f = []
loaded_lines (suc n) r y cb hv f =
    let loaded = history_load_line (r n).0 (r n).1 cb hv.width hv.height y f in
    (y, loaded.1) ∷ loaded_lines n r (y +ℤ pos 1) cb hv loaded.0

abbrev pub block_text : ℕ → Selection → List (ℤ × Option (List CharCell)) → List ℕ
block_text w s [] = []
block_text w s ((y, cells) ∷ lines) = block_line w s y cells ++ block_text w s lines

trim_if :
    (b : Bool) (cps : List ℕ)
    → (if b then trim_line (encode_line cps) else encode_line cps)
      ≡ encode_all (if b then drop_blanks cps else cps)
trim_if true cps = ap trim_line (encode_line-all cps) ∙ trim-encode cps
trim_if false cps = encode_line-all cps

nl_if : (b : Bool) → (if b then 10 ∷ [] else []) ≡ encode_all (if b then 10 ∷ [] else [])
unfolding encode_all utf8_encode
nl_if true = refl
nl_if false = refl

-- The tests of `copy_line` are those of the kinds of blocks.
line_tests :
    (b : Block) (last wrapped : Bool) (chars : List ℕ)
    → in_selection b ≡ true
    → (if not (is_rect b) && ((not last && writes_nl b wrapped) || last)
          then drop_blanks chars
          else chars)
        ++ (if not last && writes_nl b wrapped then 10 ∷ [] else [])
      ≡ line_text b last wrapped chars
unfolding writes_nl
line_tests rect true wrapped chars e = refl
line_tests rect false wrapped chars e = refl
line_tests line true wrapped chars e = refl
line_tests line false wrapped chars e = refl
line_tests stream true wrapped chars e = append-nil (drop_blanks chars)
line_tests stream false true chars e = append-nil chars
line_tests stream false false chars e = refl
line_tests no_block last wrapped chars e = absurd (ground (arith, e))

last_line : (y y1 : ℤ) → leb_ℤ y y1 ≡ true → same_line y y1 ≡ leb_ℤ y1 y
last_line y y1 h = ground arith

copy_line-text :
    (w : ℕ) (s : Selection) (y : ℤ) (cells : List CharCell)
    → in_selection s.block ≡ true
    → InColumns w s
    → (leb_ℤ s.y0 y && leb_ℤ y s.y1) ≡ true
    → copy_line w s y cells ≡ encode_all (block_line w s y (some cells))
unfolding copy_line
copy_line-text w s y cells e i h =
    ap₂ (λ (a : List ℕ) (b : List ℕ). a ++ b) (trim_if _ _) (nl_if _)
    ∙ sym (encode_all-append _ _)
    ∙ ap encode_all (
        line_tests s.block (same_line y s.y1) (get_or cells (w - 1) default_cell).auto_wrap
          (line_chars (span_of s.block w s y).0 (span_of s.block w s y).1 cells) e
        ∙ ap₂
            (λ (last : Bool) (chars : List ℕ).
              line_text s.block last (get_or cells (w - 1) default_cell).auto_wrap chars)
            (last_line y s.y1 (ground (arith, h))) (line_chars-on_block w s y cells e i h))

loaded-text :
    (w : ℕ) (s : Selection) (y : ℤ) (o : Option (List CharCell))
    → in_selection s.block ≡ true
    → InColumns w s
    → (leb_ℤ s.y0 y && leb_ℤ y s.y1) ≡ true
    → copy_loaded w s y o ≡ encode_all (block_line w s y o)
unfolding encode_all
loaded-text w s y none e i h = refl
loaded-text w s y (some cells) e i h = copy_line-text w s y cells e i h

lines_in :
    (y0 y1 y : ℤ) (n : ℕ)
    → y0 ≤ℤ y
    → (y +ℤ pos (suc n)) ≤ℤ (y1 +ℤ pos 1)
    → ((leb_ℤ y0 y && leb_ℤ y y1) ≡ true)
      × (y0 ≤ℤ (y +ℤ pos 1))
      × ((y +ℤ pos 1 +ℤ pos n) ≤ℤ (y1 +ℤ pos 1))
unfolding ◌+ℤ◌
lines_in y0 y1 y n h l = (ground arith, ground arith, ground arith)

copy_lines-text :
    (n : ℕ) (r : Reads) (s : Selection) (y : ℤ) (cb hv : CellBuffer) (f : HistoryFile)
    → in_selection s.block ≡ true
    → InColumns hv.width s
    → s.y0 ≤ℤ y
    → (y +ℤ pos n) ≤ℤ (s.y1 +ℤ pos 1)
    → copy_lines n r s y cb hv f ≡ encode_all (block_text hv.width s (loaded_lines n r y cb hv f))
unfolding copy_lines encode_all
copy_lines-text zero r s y cb hv f e i h l = refl
copy_lines-text (suc n) r s y cb hv f e i h l =
    let (here, from, to) = lines_in s.y0 s.y1 y n h l in
    ap₂ (λ (a : List ℕ) (b : List ℕ). a ++ b) (loaded-text hv.width s y _ e i here)
      (copy_lines-text n r s (y +ℤ pos 1) cb hv _ e i from to)
    ∙ sym (encode_all-append _ _)

all_lines :
    (y0 y1 : ℤ)
    → leb_ℤ y0 y1 ≡ true
    → (y0 ≤ℤ y0)
      × ((y0 +ℤ pos (count_up y0 y1)) ≤ℤ (y1 +ℤ pos 1))
      × (count_up y0 y1 ≡ pos_part (y1 +ℤ pos 1 -ℤ y0))
unfolding ◌+ℤ◌ ◌-ℤ◌
all_lines y0 y1 h = (ground arith, ground arith, ground arith)

-- Where there is a block, with its corners on the screen, and the program that takes the text is
-- started and reads all of it, do_copy_to finishes the selection and writes the UTF-8 of the text
-- of the block: of every line from its first to its last that could be loaded, in order, the
-- characters of the cells on the block and no others, a zero as a space. Blanks at the end of a
-- line are left out, but in a rectangle and where the line goes on in the next one; a line feed
-- stands between two lines, but where the line goes on, which is in a stream after a cell with the
-- mark of wrapping in the last column.
pub copy_to-text :
    (r : Reads) (v : View)
    → in_selection v.sel.block ≡ true
    → has_selblock (selection_end v.file.lcount v.sel) ≡ true
    → InColumns v.hvbuf.width (selection_end v.file.lcount v.sel)
    → copy_to r v ≡ (
        let s = selection_end v.file.lcount v.sel in
        (
          s,
          encode_all (
              block_text v.hvbuf.width s
                (loaded_lines (pos_part (s.y1 +ℤ pos 1 -ℤ s.y0)) r s.y0 v.cbuf v.hvbuf v.file)),
        ))
unfolding copy_to
copy_to-text r v b e i =
    let s = selection_end v.file.lcount v.sel in
    let (on, ordered) = selblock_parts s e in
    let (from, to, count) = all_lines s.y0 s.y1 ordered in
    rw (b, e)
      (ap (λ (bytes : List ℕ). (s, bytes))
        (copy_lines-text (count_up s.y0 s.y1) r s s.y0 v.cbuf v.hvbuf v.file on i from to
          ∙ ap
              (λ (n : ℕ).
                encode_all
                  (block_text v.hvbuf.width s (loaded_lines n r s.y0 v.cbuf v.hvbuf v.file)))
              count))
