-- ===== src/Cellwin/Fill.antt =====
-- What the filling and marking operations of cellwin.c do to the cell at each column and line.
use mathlib.Core.Option
use yterm.Prelude.{
  ℕ, ◌+◌, ◌-◌, ◌≤◌, ◌<◌, ◌≡◌, refl, ap, ◌∙◌, Bool, true, false, ◌&&◌, ◌||◌, Option, none, some, inl,
  inr, arith, if◌then◌else◌, ltb, ◌==◌, Bool-cases, ℤ, pos, negsuc, pos_part, ltb_ℤ, leb_ℤ, ◌+ℤ◌,
  ◌-ℤ◌,
}
use yterm.Cell.{CharCell, Loaded, Look, look, load_attrs, diff_cell}
use yterm.Cellwin.{
  CellBuffer, Code, cbuf_cell_at, process_region, address, put_code, clear_char, clear_region,
  write_wchar_count,
}
use yterm.Cellwin.Dirty.{Keeps}
use yterm.Cellwin.Keeps.{load_attrs-dirty, clear_region-Keeps, write_wchar_count-Keeps}
use yterm.Cellwin.Cells.{
  cell, Writes, in_region, in_span, in_span_line, touch_span_lem, process_region_lem,
}

-- The cell of the screen at a column and a line; none off the screen.
abbrev pub at : CellBuffer → ℕ → ℕ → Option CharCell
at cb x y = if ltb x cb.width && ltb y cb.height then cell cb (address cb x y) else none

-- `cbuf_cell_at` at coordinates that are not negative.
pub cbuf_cell_at-pos : (cb : CellBuffer) (x y : ℕ) → cbuf_cell_at cb (pos x) (pos y) ≡ at cb x y
unfolding cbuf_cell_at
cbuf_cell_at-pos cb x y = ground arith

pub cbuf_cell_at_neg :
    (cb : CellBuffer) (x y : ℤ)
    → (ltb_ℤ x (pos 0) || ltb_ℤ y (pos 0)) ≡ true
    → cbuf_cell_at cb x y ≡ none
unfolding cbuf_cell_at
cbuf_cell_at_neg cb x y h = ground arith

pub process_region-at :
    (code : Code) (f : CharCell → CharCell)
    → Writes code f
    → (cb cb' : CellBuffer) (x0 y0 x1 y1 : ℤ) (x y : ℕ) → cb' ≡ process_region code cb x0 y0 x1 y1
    → Keeps cb cb'
    → at cb' x y ≡ (if in_region x0 y0 x1 y1 x y then Option.map f (at cb x y) else at cb x y)
process_region-at code f pure cb cb' x0 y0 x1 y1 x y e k =
    elim (Bool-cases (ltb x cb.width && ltb y cb.height)) [
      | inl on ↦
          rw (k.width, k.height, on, e)
            (process_region_lem code f pure cb x0 y0 x1 y1 x y (ground arith) (ground arith))
      | inr off ↦ rw (k.width, k.height, off) (ground arith)
    ]

-- What a cell looks like once it is filled.
abbrev pub filled : Loaded → ℕ → Look
filled l ch = record { ch = ch; attrs = l.attrs; fg = l.fg; bg = l.bg }

abbrev pub put_cell : Loaded → ℕ → CharCell → CharCell
put_cell l ch c = (put_code l ch c 0).0

put-Writes : (l : Loaded) (ch : ℕ) → Writes (put_code l ch) (put_cell l ch)
unfolding put_code
put-Writes l ch c n = ground arith

-- A cell that compares equal is left alone, and already looks as it should.
pub look-put_cell :
    (l : Loaded) (ch : ℕ) (c : CharCell)
    → ch < 65536
    → l.dirty ≡ true
    → (look (put_cell l ch c) ≡ filled l ch) × ((put_cell l ch c).dirty ≡ true)
unfolding put_code diff_cell
look-put_cell l ch c h d = (ground arith, ground arith)

-- Where `inside`, the cell looks filled and is dirty; elsewhere nothing has changed.
abbrev pub Fills : Loaded → ℕ → Bool → Option CharCell → Option CharCell → Type 0
Fills l ch inside old new =
    (Option.map look new ≡ Option.map (λ c. if inside then filled l ch else look c) old)
    × (Option.map (λ c. c.dirty) new ≡ Option.map (λ c. if inside then true else c.dirty) old)
    × (new ≡ (if inside then new else old))

Fills-put :
    (l : Loaded) (ch : ℕ) (inside : Bool) (old new : Option CharCell)
    → ch < 65536
    → l.dirty ≡ true
    → new ≡ (if inside then Option.map (put_cell l ch) old else old)
    → Fills l ch inside old new
Fills-put l ch true none new h d e =
    (ap (Option.map look) e, ap (Option.map (λ c. c.dirty)) e, refl)
Fills-put l ch false none new h d e = (ap (Option.map look) e, ap (Option.map (λ c. c.dirty)) e, e)
Fills-put l ch true (some c) new h d e = (
  ap (Option.map look) e ∙ ap some (look-put_cell l ch c h d).0,
  ap (Option.map (λ c. c.dirty)) e ∙ ap some (look-put_cell l ch c h d).1,
  refl,
)
Fills-put l ch false (some c) new h d e =
    (ap (Option.map look) e, ap (Option.map (λ c. c.dirty)) e, e)

-- `cbuf_clear_region`: in the region, clipped to the screen, each cell looks like `attr` and is
-- dirty; every other cell is as it was. The fill character has 16 bits.
pub clear_region-Fills :
    (cb : CellBuffer) (x0 y0 x1 y1 : ℤ) (attr : Option CharCell) (x y : ℕ)
    → clear_char attr < 65536
    → Fills
        (load_attrs attr)
        (clear_char attr)
        (in_region x0 y0 x1 y1 x y)
        (at cb x y)
        (at (clear_region cb x0 y0 x1 y1 attr) x y)
unfolding clear_region
clear_region-Fills cb x0 y0 x1 y1 attr x y h =
    Fills-put (load_attrs attr) (clear_char attr) _ (at cb x y) _ h (load_attrs-dirty attr) (
      process_region-at _ _ (put-Writes (load_attrs attr) (clear_char attr)) cb _ x0 y0 x1 y1 x y
        refl (clear_region-Keeps cb x0 y0 x1 y1 attr))

-- The character that `cbuf_write_wchar_count` stores.
abbrev pub stored_char : ℕ → ℕ
stored_char ch = if ltb 0xffff ch then 0xfffd else ch

write_span :
    (w x y : ℕ) (x0 y0 count : ℤ)
    → x < w
    → (ltb_ℤ count (pos 1)
        || ltb_ℤ y0 (pos 0)
        || leb_ℤ (pos w) x0
        || (ltb_ℤ x0 (pos 0) && leb_ℤ (x0 +ℤ count) (pos 0)))
      ≡ false
    → let cnt = if ltb_ℤ x0 (pos 0) then pos_part (count +ℤ x0) else pos_part count in
      let n = if ltb (w - pos_part x0) cnt then w - pos_part x0 else cnt in
      (pos_part x0 + n ≤ w)
      × ((y == pos_part y0 && in_span (pos_part x0) n x)
          ≡ in_region x0 y0 (x0 +ℤ count -ℤ pos 1) y0 x y)
unfolding ◌+ℤ◌ ◌-ℤ◌
write_span w x y (pos x0) (pos y0) (pos n) h g = (ground arith, ground arith)
write_span w x y (negsuc x0) (pos y0) (pos n) h g = (ground arith, ground arith)
write_span w x y x0 (negsuc y0) (pos n) h g = (ground arith, ground arith)
write_span w x y x0 y0 (negsuc n) h g = (ground arith, ground arith)

-- The early return of `cbuf_write_wchar_count`.
abbrev write_returns : CellBuffer → ℤ → ℤ → ℤ → Bool
write_returns cb x y count =
    ltb_ℤ count (pos 1)
    || ltb_ℤ y (pos 0)
    || leb_ℤ (pos cb.height) y
    || leb_ℤ (pos cb.width) x
    || (ltb_ℤ x (pos 0) && leb_ℤ (x +ℤ count) (pos 0))

write_returns_outside :
    (cb : CellBuffer) (x0 y0 count : ℤ) (x y : ℕ)
    → write_returns cb x0 y0 count ≡ true
    → x < cb.width
    → y < cb.height
    → in_region x0 y0 (x0 +ℤ count -ℤ pos 1) y0 x y ≡ false
unfolding ◌+ℤ◌ ◌-ℤ◌
write_returns_outside cb (pos x0) (pos y0) (pos n) x y g hx hy = ground arith
write_returns_outside cb (negsuc x0) (pos y0) (pos n) x y g hx hy = ground arith
write_returns_outside cb x0 (negsuc y0) (pos n) x y g hx hy = ground arith
write_returns_outside cb x0 y0 (negsuc n) x y g hx hy = ground arith

write_wchar_count-at :
    (cb : CellBuffer) (x0 y0 : ℤ) (ch : ℕ) (count : ℤ) (attr : Option CharCell) (x y : ℕ)
    → at (write_wchar_count cb x0 y0 ch count attr) x y ≡ (
        if in_region x0 y0 (x0 +ℤ count -ℤ pos 1) y0 x y
        then Option.map (put_cell (load_attrs attr) (stored_char ch)) (at cb x y)
        else at cb x y)
unfolding write_wchar_count
write_wchar_count-at cb x0 y0 ch count attr x y =
    elim (Bool-cases (ltb x cb.width && ltb y cb.height)) [
      | inr off ↦ rw (k.width, k.height, off) (ground arith)
      | inl on ↦ elim (Bool-cases (write_returns cb x0 y0 count)) [
        | inl g ↦
            rw (write_returns_outside cb x0 y0 count x y g (ground arith) (ground arith))
              (rw (g, write_wchar_count))
        | inr g ↦
            let (fits, same) = write_span cb.width x y x0 y0 count (ground arith) (ground arith) in
            rw (k.width, k.height, on)
              (rw (g, write_wchar_count)
                (rw
                  (
                    ← same,
                    ← in_span_line cb.width (pos_part y0) (pos_part x0) _ x y (ground arith) fits,
                  )
                  (touch_span_lem _ _ (put-Writes (load_attrs attr) (stored_char ch)) _ _ _ cb)))
      ]
    ]
  where
    k : Keeps cb (write_wchar_count cb x0 y0 ch count attr)
    k = write_wchar_count-Keeps cb x0 y0 ch count attr

-- `cbuf_write_wchar_count`: the cells from column `x0` of line `y0` on, `count` of them, as far as
-- they are on the screen, look like `attr` with the character (U+FFFD for one above U+FFFF) and
-- are dirty; every other cell is as it was.
pub write_wchar_count-Fills :
    (cb : CellBuffer) (x0 y0 : ℤ) (ch : ℕ) (count : ℤ) (attr : Option CharCell) (x y : ℕ)
    → Fills
        (load_attrs attr)
        (stored_char ch)
        (in_region x0 y0 (x0 +ℤ count -ℤ pos 1) y0 x y)
        (at cb x y)
        (at (write_wchar_count cb x0 y0 ch count attr) x y)
write_wchar_count-Fills cb x0 y0 ch count attr x y =
    Fills-put (load_attrs attr) (stored_char ch) _ (at cb x y) _ (ground arith)
      (load_attrs-dirty attr) (write_wchar_count-at cb x0 y0 ch count attr x y)
