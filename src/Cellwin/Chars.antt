-- ===== src/Cellwin/Chars.antt =====
-- What `cbuf_insert_chars` and `cbuf_delete_chars` leave on the screen.
use yterm.Prelude.{
  ℕ, ◌+◌, ◌-◌, ◌*◌, ◌≤◌, ◌<◌, ◌≡◌, refl, ◌∙◌, ap, Bool, true, false, ◌&&◌, ◌||◌, Option, none, some,
  inl, inr, arith, if◌then◌else◌, ltb, leb, ◌==◌, Bool-cases, length, ℤ, pos, pos_part, ltb_ℤ,
  leb_ℤ, ◌-ℤ◌,
}
use native.Mathlib.Nat.{add_assoc}
use yterm.Cell.{CharCell, Look}
use yterm.Cellwin.{CellBuffer, address, clear_char}
use yterm.Cellwin.Strip.{copy_strip, chars_at, insert_at, delete_at, insert_chars, delete_chars}
use yterm.Cellwin.Dirty.{IsValid}
use yterm.Cellwin.Keeps.{copy_strip-Keeps}
use yterm.Cellwin.Cells.{in_region, in_span, line_le, in_span_line}
use yterm.Cellwin.Move.{copy_strip_moves}
use yterm.Cellwin.Seen.{looks_at, blank, clear_if-looks, looks_at-unmark_line}

-- A strip within one line, by column and line.
copy_chars-at :
    (cb : CellBuffer) (line from to k x y : ℕ)
    → IsValid cb
    → line < cb.height
    → from + k ≤ cb.width
    → to + k ≤ cb.width
    → looks_at (copy_strip cb (line * cb.width + from) (line * cb.width + to) k true) x y
      ≡ (if y == line && in_span to k x then looks_at cb (from + (x - to)) y else looks_at cb x y)
copy_chars-at cb line from to k x y v hl hf ht =
    let k' = copy_strip-Keeps cb (line * cb.width + from) (line * cb.width + to) k true in
    let room : line * cb.width + cb.width ≤ length cb.buf =
      ground (arith, v.size, line_le cb.width line cb.height hl) in
    let move =
      copy_strip_moves cb (line * cb.width + from) (line * cb.width + to) k true (address cb x y)
        (omega arith) (omega arith) in
    ground (arith, k'.width, k'.height, move, in_span_line cb.width line to k x y)

-- What an insertion of `n` cells at a column of a line leaves of the picture `p`.
abbrev pub inserted : ℕ → ℕ → ℕ → ℕ → Option CharCell → (ℕ → ℕ → Option Look) → ℕ → ℕ → Option Look
inserted w column line n attr p x y =
    if y == line && (leb column x && ltb x w)
    then if leb (column + n) x then p (x - n) y else blank attr (p x y)
    else p x y

-- What a deletion of `n` cells leaves: the rest of the line moves to the left.
abbrev pub deleted : ℕ → ℕ → ℕ → ℕ → Option CharCell → (ℕ → ℕ → Option Look) → ℕ → ℕ → Option Look
deleted w column line n attr p x y =
    if y == line && (leb column x && ltb x w)
    then if ltb (x + n) w then p (x + n) y else blank attr (p x y)
    else p x y

-- A region of one line.
in_region_line :
    (line a b x y : ℕ)
    → in_region (pos a) (pos line) (pos b) (pos line) x y ≡ (y == line && (leb a x && leb x b))
in_region_line line a b x y = ground arith

module _ (w : ℕ) (p : ℕ → ℕ → Option Look) (column line n : ℕ) (attr : Option CharCell) (x y : ℕ)
    (q : Option Look) (r : Bool) where
  inserted_part :
      n < w - column
      → 0 < n
      → q ≡ (
          if y == line && in_span (column + n) (w - column - n) x
          then p (column + (x - (column + n))) y
          else p x y)
      → r ≡ (y == line && (leb column x && leb x (column + n - 1)))
      → (if r then blank attr q else q) ≡ inserted w column line n attr p x y
  inserted_part h hn eq er =
      ground (arith, ap (λ (t : ℕ). p t y) {x = column + (x - (column + n))} {y = x - n})

  deleted_part :
      n < w - column
      → 0 < n
      → q ≡ (
          if y == line && in_span column (w - column - n) x
          then p (column + n + (x - column)) y
          else p x y)
      → r ≡ (y == line && (leb (w - n) x && leb x (w - 1)))
      → (if r then blank attr q else q) ≡ deleted w column line n attr p x y
  deleted_part h hn eq er =
      ground (arith, ap (λ (t : ℕ). p t y) {x = column + n + (x - column)} {y = x + n})

  cleared_rest :
      w - column ≤ n
      → column < w
      → r ≡ (y == line && (leb column x && leb x (w - 1)))
      → ((if r then blank attr (p x y) else p x y) ≡ inserted w column line n attr p x y)
        × ((if r then blank attr (p x y) else p x y) ≡ deleted w column line n attr p x y)
  cleared_rest h hc er = (ground arith, ground arith)

module _ (cb : CellBuffer) (column line n : ℕ) (attr : Option CharCell) (x y : ℕ)
    (valid : IsValid cb) (char : clear_char attr < 65536) (column_in : column < cb.width)
    (line_in : line < cb.height) (some_cells : 0 < n) where
  in_region_rest :
      (a : ℕ)
      → in_region (pos a) (pos line) (pos cb.width -ℤ pos 1) (pos line) x y
        ≡ (y == line && (leb a x && leb x (cb.width - 1)))
  unfolding ◌-ℤ◌
  in_region_rest a = ground arith

  insert_at-looks :
      looks_at (insert_at cb column line n attr) x y
      ≡ inserted cb.width column line n attr (looks_at cb) x y
  unfolding insert_at ◌-ℤ◌
  insert_at-looks = elim (Bool-cases (ltb n (cb.width - column))) [
    | inl h ↦
        rw (h, insert_at)
          (clear_if-looks _ _ _ _ _ attr x y char
            ∙ inserted_part cb.width (looks_at cb) column line n attr x y _ _ (ground arith)
                some_cells
                (rw (add_assoc (line * cb.width) column n) (
                  copy_chars-at cb line column (column + n) (cb.width - column - n) x y valid
                    line_in (omega arith) (ground arith)))
                (in_region_line line column (column + n - 1) x y))
    | inr h ↦
        rw (h, insert_at)
          (clear_if-looks cb (pos column) (pos line) (pos cb.width -ℤ pos 1) (pos line) attr x y
              char
            ∙ (cleared_rest cb.width (looks_at cb) column line n attr x y (looks_at cb x y) _
                (ground arith) column_in (in_region_rest column)).0)
  ]

  in_region_tail :
      n < cb.width
      → in_region (pos cb.width -ℤ pos n) (pos line) (pos cb.width -ℤ pos 1) (pos line) x y
        ≡ (y == line && (leb (cb.width - n) x && leb x (cb.width - 1)))
  unfolding ◌-ℤ◌
  in_region_tail h = ground arith

  delete_at-looks :
      looks_at (delete_at cb column line n attr) x y
      ≡ deleted cb.width column line n attr (looks_at cb) x y
  unfolding delete_at
  delete_at-looks = elim (Bool-cases (ltb n (cb.width - column))) [
    | inl h ↦
        rw (h, delete_at)
          (clear_if-looks _ _ _ _ _ attr x y char
            ∙ deleted_part cb.width (looks_at cb) column line n attr x y _ _ (ground arith)
                some_cells
                (rw (add_assoc (line * cb.width) column n) (
                  copy_chars-at cb line (column + n) column (cb.width - column - n) x y valid
                    line_in (ground arith) (omega arith)))
                (in_region_tail (ground arith)))
    | inr h ↦
        rw (h, delete_at)
          (clear_if-looks cb (pos column) (pos line) (pos cb.width -ℤ pos 1) (pos line) attr x y
              char
            ∙ (cleared_rest cb.width (looks_at cb) column line n attr x y (looks_at cb x y) _
                (ground arith) column_in (in_region_rest column)).1)
  ]

-- The early returns of both functions.
abbrev pub chars_return : CellBuffer → ℤ → ℤ → ℤ → Bool
chars_return cb x y count =
    (leb_ℤ count (pos 0) || ltb_ℤ y (pos 0) || leb_ℤ (pos cb.height) y) || leb_ℤ (pos cb.width) x

chars_at_lem :
    (cb : CellBuffer) (x y count : ℤ)
    → chars_at cb x y count
      ≡ (if chars_return cb x y count then none else some (pos_part x, pos_part y, pos_part count))
unfolding chars_at
chars_at_lem cb x y count = ground arith

chars_at-none :
    (cb : CellBuffer) (x y count : ℤ)
    → chars_return cb x y count ≡ true
    → chars_at cb x y count ≡ none
chars_at-none cb x y count g =
    chars_at_lem cb x y count
    ∙ ap (λ b. if b then none else some (pos_part x, pos_part y, pos_part count)) g

chars_at-some :
    (cb : CellBuffer) (x y count : ℤ)
    → chars_return cb x y count ≡ false
    → chars_at cb x y count ≡ some (pos_part x, pos_part y, pos_part count)
chars_at-some cb x y count g =
    chars_at_lem cb x y count
    ∙ ap (λ b. if b then none else some (pos_part x, pos_part y, pos_part count)) g

chars_at_bounds :
    (cb : CellBuffer) (x y count : ℤ)
    → chars_return cb x y count ≡ false
    → 0 < cb.width
    → (pos_part x < cb.width) × (pos_part y < cb.height) × (0 < pos_part count)
chars_at_bounds cb x y count g h = ground arith

-- `cbuf_insert_chars` and `cbuf_delete_chars`, on a valid buffer with at least one column and a
-- 16-bit fill character. Where the line or the column is not on the screen or the count is not
-- positive no cell looks different; a negative column is 0. Otherwise the rest of the line looks
-- moved right, or left, by the count, the cells that come in are blank, and no other cell looks
-- different.
pub insert_delete-looks :
    (cb : CellBuffer) (x y count : ℤ) (attr : Option CharCell) (i j : ℕ)
    → IsValid cb
    → 0 < cb.width
    → clear_char attr < 65536
    → (looks_at (insert_chars cb x y count attr) i j ≡ (
        if chars_return cb x y count
        then looks_at cb i j
        else inserted cb.width (pos_part x) (pos_part y) (pos_part count) attr (looks_at cb) i j))
      × (looks_at (delete_chars cb x y count attr) i j ≡ (
          if chars_return cb x y count
          then looks_at cb i j
          else deleted cb.width (pos_part x) (pos_part y) (pos_part count) attr (looks_at cb) i j))
unfolding insert_chars delete_chars
insert_delete-looks cb x y count attr i j v hw ha = elim (Bool-cases (chars_return cb x y count)) [
  | inl g ↦
      let e = chars_at-none cb x y count g in
      (rw (e, insert_chars) (rw g refl), rw (e, delete_chars) (rw g refl))
  | inr g ↦
      let e = chars_at-some cb x y count g in
      let (hx, hy, hn) = chars_at_bounds cb x y count g hw in
      (
        rw (e, insert_chars)
            (rw g (
              looks_at-unmark_line _ y i j
              ∙ insert_at-looks cb (pos_part x) (pos_part y) (pos_part count) attr i j v ha hx hy
                  hn)),
        rw (e, delete_chars)
            (rw g (
              looks_at-unmark_line _ y i j
              ∙ delete_at-looks cb (pos_part x) (pos_part y) (pos_part count) attr i j v ha hx hy
                  hn)),
      )
]
