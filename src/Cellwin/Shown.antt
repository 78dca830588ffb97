-- ===== src/Cellwin/Shown.antt =====
-- What `cbuf_merge_all_dirty` does to each cell: the renderer draws what differs.
use mathlib.Core.Option
use yterm.Prelude.{
  ℕ, zero, suc, ◌+◌, ◌-◌, ◌*◌, ◌<◌, ◌≡◌, ◌≢◌, refl, sym, ap, ap₂, ◌∙◌, Bool, true, false, ◌&&◌,
  ◌||◌, not, Option, none, some, inl, inr, arith, if◌then◌else◌, min, Option-cases, get_elem?_of_lt,
}
use yterm.Cell.{CharCell, look, diff_two_cells, look_of_not_diff}
use yterm.Cellwin.{CellBuffer}
use yterm.Cellwin.Merge.{
  merge_dirty_code, merge_dirty_at, merge_dirty_line, merge_dirty_lines, merge_all_dirty,
  merge_dirty_line-Keeps,
}
use yterm.Cellwin.Dirty.{IsValid}
use yterm.Cellwin.Cells.{cell, Writes, touch_self, touch_ne, in_span}

-- A cell after the merge with the cell `s` of the other buffer.
abbrev merged : CharCell → CharCell → CharCell
merged s d = if not d.dirty && (s.dirty || diff_two_cells s d) then record d { dirty = true } else d

abbrev merged_with : Option CharCell → Option CharCell → Option CharCell
merged_with none o = o
merged_with (some s) o = Option.map (merged s) o

merge_dirty-Writes : (s : CharCell) → Writes (merge_dirty_code s) (merged s)
unfolding merge_dirty_code
merge_dirty-Writes s c n = ground arith

merge_dirty_at_self :
    (sbuf : CellBuffer) (i : ℕ) (cb : CellBuffer)
    → cell (merge_dirty_at sbuf i i cb) i ≡ merged_with (cell sbuf i) (cell cb i)
unfolding merge_dirty_at
merge_dirty_at_self sbuf i cb = elim (Option-cases (cell sbuf i)) [
  | inl e ↦ rw (e, merge_dirty_at) refl
  | inr (s, e) ↦
      rw (e, merge_dirty_at)
        (touch_self (merge_dirty_code s) (merged s) (merge_dirty-Writes s) i cb)
]

merge_dirty_at_ne :
    (sbuf : CellBuffer) (i j : ℕ) (cb : CellBuffer)
    → i ≢ j
    → cell (merge_dirty_at sbuf i i cb) j ≡ cell cb j
unfolding merge_dirty_at
merge_dirty_at_ne sbuf i j cb ne = elim (Option-cases (cell sbuf i)) [
  | inl e ↦ rw (e, merge_dirty_at) refl
  | inr (s, e) ↦ rw (e, merge_dirty_at) (touch_ne (merge_dirty_code s) i j cb ne)
]

merge_dirty_line_lem :
    (sbuf : CellBuffer) (n i j : ℕ) (cb : CellBuffer)
    → cell (merge_dirty_line sbuf n i i cb) j
      ≡ (if in_span i n j then merged_with (cell sbuf j) (cell cb j) else cell cb j)
unfolding merge_dirty_line
merge_dirty_line_lem sbuf zero i j cb = ground arith
merge_dirty_line_lem sbuf (suc n) i j cb = ground (
  arith,
  merge_dirty_line_lem sbuf n (i + 1) j (merge_dirty_at sbuf i i cb),
  merge_dirty_at_self sbuf i cb,
  merge_dirty_at_ne sbuf i j cb,
)

-- Where the buffers are equally wide both addresses stay the same.
merge_dirty_lines_lem :
    (sbuf : CellBuffer) (rows wdt a b i j : ℕ) (cb : CellBuffer)
    → a ≡ i
    → b ≡ i
    → sbuf.width ≡ wdt
    → cb.width ≡ wdt
    → cell (merge_dirty_lines sbuf rows wdt a b cb) j
      ≡ (if in_span i (rows * wdt) j then merged_with (cell sbuf j) (cell cb j) else cell cb j)
unfolding merge_dirty_lines
merge_dirty_lines_lem sbuf zero wdt a b i j cb ea eb es ec = ground arith
merge_dirty_lines_lem sbuf (suc rows) wdt a b i j cb ea eb es ec =
    let line = merge_dirty_line sbuf wdt a b cb in
    let k = merge_dirty_line-Keeps sbuf wdt a b cb in
    let here : cell line j
        ≡ (if in_span i wdt j then merged_with (cell sbuf j) (cell cb j) else cell cb j) =
      ap₂ (λ (x y : ℕ). cell (merge_dirty_line sbuf wdt x y cb) j) ea eb
      ∙ merge_dirty_line_lem sbuf wdt i j cb in
    let below =
      merge_dirty_lines_lem sbuf rows wdt (a + wdt + (sbuf.width - wdt))
        (b + wdt + (cb.width - wdt)) (i + wdt) j line (omega arith) (omega arith) es
        (k.width ∙ ec) in
    below ∙ joined here
  where
    joined :
        {o : Option CharCell}
        → o ≡ (if in_span i wdt j then merged_with (cell sbuf j) (cell cb j) else cell cb j)
        → (if in_span (i + wdt) (rows * wdt) j then merged_with (cell sbuf j) o else o) ≡ (
            if in_span i (suc rows * wdt) j
            then merged_with (cell sbuf j) (cell cb j)
            else cell cb j)
    joined e = ground (arith, e)

-- What the merge of a cell leaves, where it is not dirty.
merged_clean :
    (s d : CharCell)
    → (merged s d).dirty ≡ false
    → (s.dirty ≡ false) × (diff_two_cells s (merged s d) ≡ false) × (merged s d ≡ d)
merged_clean s d = go (not d.dirty && (s.dirty || diff_two_cells s d)) refl
  where
    go :
        (b : Bool)
        → (not d.dirty && (s.dirty || diff_two_cells s d)) ≡ b
        → (if b then record d { dirty = true } else d).dirty ≡ false
        → (s.dirty ≡ false)
          × (diff_two_cells s (if b then record d { dirty = true } else d) ≡ false)
          × ((if b then record d { dirty = true } else d) ≡ d)
    go true t e = absurd (ground (arith, e))
    go false t e = (ground (arith, t, e), ground (arith, t, e), refl)

merged-look : (s d : CharCell) → look (merged s d) ≡ look d
merged-look s d = go (not d.dirty && (s.dirty || diff_two_cells s d))
  where
    go : (b : Bool) → look (if b then record d { dirty = true } else d) ≡ look d
    go true = refl
    go false = refl

-- A cell that the renderer will not draw is on the display already.
pub record Shown (sbuf cb : CellBuffer) (i : ℕ) (o : Option CharCell) : Type 0 where
  pub after : CharCell
  pub source : CharCell
  pub found : o ≡ some after
  pub other : cell sbuf i ≡ some source
  pub same : Option.map look o ≡ Option.map look (cell cb i)
  pub clean : after.dirty ≡ false → (source.dirty ≡ false) × (look source ≡ look after)

-- `cbuf_merge_all_dirty` of two valid buffers of the same size, at every cell: what the cell looks
-- like stays, and a cell that is not dirty after it looks like the cell of the other buffer in its
-- place, which is not dirty either. So after a switch of screens the cells that the renderer does not
-- draw are on the display already.
pub merge_all_dirty-Shown :
    (cb sbuf : CellBuffer) (i : ℕ)
    → IsValid cb
    → IsValid sbuf
    → sbuf.width ≡ cb.width
    → sbuf.height ≡ cb.height
    → i < cb.width * cb.height
    → Shown sbuf cb i (cell (merge_all_dirty cb sbuf) i)
unfolding merge_all_dirty
merge_all_dirty-Shown cb sbuf i v u ew eh l =
    let (d, ed) = get_elem?_of_lt cb.buf i (omega (arith, v.size, l)) in
    let (s, e) = get_elem?_of_lt sbuf.buf i (ground (arith, u.size, l, ew, eh)) in
    let inside : in_span 0 (min cb.height sbuf.height * min cb.width sbuf.width) i ≡ true =
      ground (arith, l, ew, eh) in
    let q =
      merge_dirty_lines_lem sbuf (min cb.height sbuf.height) (min cb.width sbuf.width) 0 0 0 i cb
        refl refl (omega (arith, ew)) (omega (arith, ew)) in
    let p : cell (merge_all_dirty cb sbuf) i ≡ some (merged s d) =
      unfold merge_all_dirty in ground (arith, q, inside, e, ed) in
    record {
      after = merged s d;
      source = s;
      found = p;
      other = e;
      same = ap (Option.map look) p ∙ ap some (merged-look s d) ∙ sym (ap (Option.map look) ed);
      clean = λ c. ((merged_clean s d c).0, look_of_not_diff s (merged s d) (merged_clean s d c).1);
    }
