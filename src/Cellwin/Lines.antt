-- ===== src/Cellwin/Lines.antt =====
-- Copies of whole lines, and the picture that a scroll leaves.
use yterm.Prelude.{
  ℕ, ◌+◌, ◌-◌, ◌*◌, ◌≤◌, ◌<◌, ◌≡◌, refl, ◌∙◌, ap, Bool, true, false, ◌&&◌, Option, arith,
  if◌then◌else◌, ltb, leb, length, ℤ, pos, leb_ℤ, ◌-ℤ◌,
}
use yterm.Cell.{CharCell, Look}
use yterm.Cellwin.{CellBuffer, address}
use yterm.Cellwin.Strip.{copy_strip}
use yterm.Cellwin.Dirty.{IsValid}
use yterm.Cellwin.Keeps.{copy_strip-Keeps}
use yterm.Cellwin.Cells.{in_region, in_span, line_le}
use yterm.Cellwin.Move.{looks, copy_strip_moves}
use yterm.Cellwin.Seen.{looks_at, blank}

pub in_span_lines : (w a k x y : ℕ) → x < w → in_span (a * w) (k * w) (y * w + x) ≡ in_span a k y
in_span_lines w a k x y h =
    ground (arith, line_le w y a, line_le w y (a + k), line_le w a y, line_le w (a + k) y)

pub mul_mono : (a b w : ℕ) → a ≤ b → a * w ≤ b * w
mul_mono a b w h = grind arith

pub lines_fit : (w a k h : ℕ) → a + k ≤ h → a * w + k * w ≤ w * h
lines_fit w a k h p = omega (arith, mul_mono (a + k) h w p)

pub lines_shift :
    (w from to y x : ℕ) → to ≤ y → from * w + (y * w + x - to * w) ≡ (from + (y - to)) * w + x
lines_shift w from to y x h =
    let e : y ≡ to + (y - to) = omega arith in omega (arith, ap (λ (t : ℕ). t * w) e)

-- Two conditionals agree if their first branches do where the test passes.
pub if_then {ℓ} :
    {A : Type ℓ} (b : Bool) (r : A) {p q : A}
    → (b ≡ true → p ≡ q)
    → (if b then p else r) ≡ (if b then q else r)
if_then true r h = h refl
if_then false r h = refl

-- A strip of whole lines, by column and line.
pub copy_lines-looks :
    (cb : CellBuffer) (from to k : ℕ) (m : Bool) (x y : ℕ)
    → IsValid cb
    → from + k ≤ cb.height
    → to + k ≤ cb.height
    → x < cb.width
    → looks (copy_strip cb (from * cb.width) (to * cb.width) (k * cb.width) m) (address cb x y) ≡ (
        if in_span to k y
        then looks cb (address cb x (from + (y - to)))
        else looks cb (address cb x y))
copy_lines-looks cb from to k m x y v hf ht hx =
    let w = cb.width in
    let bound : (a : ℕ) → a + k ≤ cb.height → a * w + k * w ≤ length cb.buf =
      λ a h. ground (arith, v.size, lines_fit w a k cb.height h) in
    copy_strip_moves cb (from * w) (to * w) (k * w) m (address cb x y) (bound from hf) (bound to ht)
    ∙ rw (in_span_lines w to k x y hx) (if_then (in_span to k y) _ (λ e. ap (looks cb) (shift e)))
  where
    shift :
        in_span to k y ≡ true
        → from * cb.width + (y * cb.width + x - to * cb.width) ≡ address cb x (from + (y - to))
    shift e = lines_shift cb.width from to y x (ground arith)

pub copy_lines-at :
    (cb : CellBuffer) (from to k : ℕ) (m : Bool) (x y : ℕ)
    → IsValid cb
    → from + k ≤ cb.height
    → to + k ≤ cb.height
    → looks_at (copy_strip cb (from * cb.width) (to * cb.width) (k * cb.width) m) x y
      ≡ (if in_span to k y then looks_at cb x (from + (y - to)) else looks_at cb x y)
copy_lines-at cb from to k m x y v hf ht =
    let k' = copy_strip-Keeps cb (from * cb.width) (to * cb.width) (k * cb.width) m in
    ground (arith, k'.width, k'.height, copy_lines-looks cb from to k m x y v hf ht)

-- What a scroll by `lines` leaves of the picture `p`, in the lines from `top` to `bottom`.
abbrev pub scrolled :
    ℕ → ℕ → ℕ → Bool → Option CharCell → (ℕ → ℕ → Option Look) → ℕ → ℕ → Option Look
scrolled top bottom lines up attr p x y =
    if leb top y && leb y bottom
    then if up
      then if leb (y + lines) bottom then p x (y + lines) else blank attr (p x y)
      else if leb (top + lines) y
      then p x (y - lines)
      else blank attr (p x y)
    else p x y

module _ (p : ℕ → ℕ → Option Look) (top bottom lines : ℕ) (attr : Option CharCell) (x y : ℕ)
    (ordered : top ≤ bottom) (q : Option Look) (r : Bool) where
  pub scrolled_all :
      bottom + 1 - top ≤ lines
      → (up : Bool) → r ≡ (leb top y && leb y bottom)
      → (if r then blank attr (p x y) else p x y) ≡ scrolled top bottom lines up attr p x y
  scrolled_all h up e = ground arith

  pub scrolled_up :
      lines < bottom + 1 - top
      → q ≡ (
          if in_span top (bottom + 1 - top - lines) y then p x (top + lines + (y - top)) else p x y)
      → r ≡ (leb (bottom + 1 - lines) y && leb y bottom)
      → (if r then blank attr q else q) ≡ scrolled top bottom lines true attr p x y
  scrolled_up h eq er =
      let e : top ≤ y → top + lines + (y - top) ≡ y + lines = λ a. omega arith in
      ground (arith, ap (p x) {x = top + lines + (y - top)} {y = y + lines})

  pub scrolled_down :
      lines < bottom + 1 - top
      → q ≡ (
          if in_span (top + lines) (bottom + 1 - top - lines) y
          then p x (top + (y - (top + lines)))
          else p x y)
      → r ≡ (leb top y && ltb y (top + lines))
      → (if r then blank attr q else q) ≡ scrolled top bottom lines false attr p x y
  scrolled_down h eq er = ground (arith, ap (p x) {x = top + (y - (top + lines))} {y = y - lines})

-- A region of whole lines.
pub in_region_lines :
    (w : ℕ) (y0 y1 : ℤ) (x y : ℕ)
    → x < w
    → in_region (pos 0) y0 (pos w -ℤ pos 1) y1 x y ≡ (leb_ℤ y0 (pos y) && leb_ℤ (pos y) y1)
unfolding ◌-ℤ◌
in_region_lines w y0 y1 x y h = ground arith
