-- ===== src/Cellwin/Seen.antt =====
-- What is seen at a column and a line of a buffer, and the operations that are the same for all.
use mathlib.Core.Option
use yterm.Prelude.{
  ℕ, zero, suc, ◌+◌, ◌-◌, ◌*◌, ◌<◌, ◌≡◌, refl, ◌∙◌, ap, Bool, true, false, Option, none, some, inl,
  inr, arith, if◌then◌else◌, ◌==◌, Bool-cases, Option-cases, ℤ, pos, pos_part, ◌+ℤ◌,
}
use yterm.Cell.{CharCell, Look, look, load_attrs}
use yterm.Cellwin.{CellBuffer, touch, address, clear_char, wrap_code, unmark_line_autowrap}
use yterm.Cellwin.Strip.{clear_if, unmark_lines}
use yterm.Cellwin.Keeps.{unmark_line_autowrap-Keeps}
use yterm.Cellwin.Cells.{cell, in_region, touch_self, touch_ne}
use yterm.Cellwin.Fill.{at, filled, clear_region-Fills}
use yterm.Cellwin.Move.{looks}

-- What is seen at a column and a line; none off the screen.
abbrev pub looks_at : CellBuffer → ℕ → ℕ → Option Look
looks_at cb x y = Option.map look (at cb x y)

-- What the optional clearing leaves of a cell.
abbrev pub blank : Option CharCell → Option Look → Option Look
blank none p = p
blank (some a) p = Option.map (λ q. filled (load_attrs (some a)) a.ch) p

if_map {ℓ ℓ'} :
    {A : Type ℓ} {B : Type ℓ'} (b : Bool) (f : A → B) (d : B) (o : Option A)
    → Option.map (λ c. if b then d else f c) o
      ≡ (if b then Option.map (λ (q : B). d) (Option.map f o) else Option.map f o)
if_map true f d none = refl
if_map true f d (some c) = refl
if_map false f d none = refl
if_map false f d (some c) = refl

pub clear_if-looks :
    (cb : CellBuffer) (x0 y0 x1 y1 : ℤ) (attr : Option CharCell) (x y : ℕ)
    → clear_char attr < 65536
    → looks_at (clear_if cb x0 y0 x1 y1 attr) x y
      ≡ (if in_region x0 y0 x1 y1 x y then blank attr (looks_at cb x y) else looks_at cb x y)
unfolding clear_if clear_char
clear_if-looks cb x0 y0 x1 y1 none x y h = ground arith
clear_if-looks cb x0 y0 x1 y1 (some a) x y h =
    (clear_region-Fills cb x0 y0 x1 y1 (some a) x y h).0
    ∙ if_map (in_region x0 y0 x1 y1 x y) look _ (at cb x y)

-- The auto-wrap bit is not seen.
looks-touch_wrap :
    (b : Bool) (i j : ℕ) (cb : CellBuffer) → looks (touch (wrap_code b) i cb) j ≡ looks cb j
unfolding wrap_code
looks-touch_wrap b i j cb = elim (Bool-cases (i == j)) [
  | inr ne ↦ ap (Option.map look) (touch_ne (wrap_code b) i j cb (ground arith))
  | inl e ↦ ground (
    arith,
    touch_self (wrap_code b) (λ c. (wrap_code b c 0).0) (λ c n. refl) j cb,
    Option-cases (cell cb j),
  )
]

pub looks_at-unmark_line :
    (cb : CellBuffer) (line : ℤ) (x y : ℕ)
    → looks_at (unmark_line_autowrap cb line) x y ≡ looks_at cb x y
unfolding unmark_line_autowrap
looks_at-unmark_line cb line x y = ground (
  arith,
  (unmark_line_autowrap-Keeps cb line).width,
  (unmark_line_autowrap-Keeps cb line).height,
  looks-touch_wrap false ((pos_part line + 1) * cb.width - 1) (address cb x y) cb,
)

pub looks_at-unmark_lines :
    (n : ℕ) (line : ℤ) (cb : CellBuffer) (x y : ℕ)
    → looks_at (unmark_lines n line cb) x y ≡ looks_at cb x y
unfolding unmark_lines
looks_at-unmark_lines zero line cb x y = refl
looks_at-unmark_lines (suc n) line cb x y =
    looks_at-unmark_lines n (line +ℤ pos 1) (unmark_line_autowrap cb line) x y
    ∙ looks_at-unmark_line cb line x y
