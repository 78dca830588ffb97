-- ===== src/Cellwin/Cells.antt =====
-- What the loops of cellwin.c do to each cell, by address and by column and line.
use mathlib.Core.Option
use yterm.Prelude.{
  ℕ, zero, suc, ◌+◌, ◌-◌, ◌*◌, ◌≤◌, ◌<◌, ◌≡◌, ◌≢◌, refl, ◌∙◌, ap₂, Bool, false, ◌&&◌, Option, none,
  some, inl, inr, arith, if◌then◌else◌, ltb, leb, ◌==◌, Option-cases, get_elem?, get_elem?-set_self,
  get_elem?-set_ne, ℤ, pos, negsuc, pos_part, ltb_ℤ, leb_ℤ,
}
use yterm.Cell.{CharCell}
use yterm.Cellwin.{
  CellBuffer, Region, Code, touch, touch_span, touch_rows, clip_region, clip_last, process_region,
  address,
}

-- The cell at an address.
abbrev pub cell : CellBuffer → ℕ → Option CharCell
cell cb i = get_elem? cb.buf i

-- A loop body whose cell does not depend on `dirtyCount`.
abbrev pub Writes : Code → (CharCell → CharCell) → Type 0
Writes code f = (c : CharCell) (n : ℕ) → (code c n).0 ≡ f c

pub width-touch : (code : Code) (i : ℕ) (cb : CellBuffer) → (touch code i cb).width ≡ cb.width
unfolding touch
width-touch code i cb = ground arith

module _ (code : Code) (f : CharCell → CharCell) (w : Writes code f) where
  pub touch_self : (i : ℕ) (cb : CellBuffer) → cell (touch code i cb) i ≡ Option.map f (cell cb i)
  unfolding touch
  touch_self i cb = elim (Option-cases (cell cb i)) [
    | inl e ↦ ground arith
    | inr (c, e) ↦
        ground (arith, get_elem?-set_self cb.buf i (code c cb.dirty_count).0 e, w c cb.dirty_count)
  ]

pub touch_ne :
    (code : Code) (i j : ℕ) (cb : CellBuffer) → i ≢ j → cell (touch code i cb) j ≡ cell cb j
unfolding touch
touch_ne code i j cb ne = elim (Option-cases (cell cb i)) [
  | inl e ↦ ground arith
  | inr (c, e) ↦ ground (arith, get_elem?-set_ne cb.buf i j (code c cb.dirty_count).0 ne)
]

abbrev pub in_span : ℕ → ℕ → ℕ → Bool
in_span i n j = leb i j && ltb j (i + n)

pub touch_span_lem :
    (code : Code) (f : CharCell → CharCell)
    → Writes code f
    → (n i j : ℕ) (cb : CellBuffer)
    → cell (touch_span code n i cb) j
      ≡ (if in_span i n j then Option.map f (cell cb j) else cell cb j)
unfolding touch_span
touch_span_lem code f w zero i j cb = ground arith
touch_span_lem code f w (suc n) i j cb = ground (
  arith,
  touch_span_lem code f w n (i + 1) j (touch code i cb),
  touch_self code f w i cb,
  touch_ne code i j cb,
)

pub width-touch_span :
    (code : Code) (n i : ℕ) (cb : CellBuffer) → (touch_span code n i cb).width ≡ cb.width
unfolding touch_span
width-touch_span code zero i cb = refl
width-touch_span code (suc n) i cb = width-touch_span code n (i + 1) _ ∙ width-touch code i cb

-- A line ends before the next begins.
pub line_le : (w y k : ℕ) → y < k → y * w + w ≤ k * w
line_le w y k h = grind arith

-- The address of a cell lies in a span of one line exactly if the cell does.
pub in_span_line :
    (w y0 x0 wdt x y : ℕ)
    → x < w
    → x0 + wdt ≤ w
    → in_span (y0 * w + x0) wdt (y * w + x) ≡ (y == y0 && in_span x0 wdt x)
in_span_line w y0 x0 wdt x y hx hw = ground (arith, line_le w y y0, line_le w y0 y)

abbrev pub in_rows : ℕ → ℕ → ℕ → ℕ → ℕ → ℕ → Bool
in_rows x0 y0 wdt rows x y = in_span y0 rows y && in_span x0 wdt x

pub touch_rows_lem :
    (code : Code) (f : CharCell → CharCell)
    → Writes code f
    → (w x0 wdt x y : ℕ) → x < w
    → x0 + wdt ≤ w
    → (rows y0 i : ℕ) (cb : CellBuffer) → cb.width ≡ w
    → i ≡ y0 * w + x0
    → cell (touch_rows code rows wdt i cb) (y * w + x) ≡ (
        if in_rows x0 y0 wdt rows x y
        then Option.map f (cell cb (y * w + x))
        else cell cb (y * w + x))
unfolding touch_rows
touch_rows_lem code f pure w x0 wdt x y hx hw zero y0 i cb ew ei = ground arith
touch_rows_lem code f pure w x0 wdt x y hx hw (suc rows) y0 i cb ew ei =
    let here = touch_span_lem code f pure wdt i (y * w + x) cb in
    let line = in_span_line w y0 x0 wdt x y hx hw in
    let rest =
      touch_rows_lem code f pure w x0 wdt x y hx hw rows (y0 + 1) (i + wdt + (cb.width - wdt))
        (touch_span code wdt i cb) (width-touch_span code wdt i cb ∙ ew) (omega arith) in
    ground (arith, here, line, rest)

-- Column `x` of line `y` lies in the inclusive region, whatever part of it is on the screen.
abbrev pub in_region : ℤ → ℤ → ℤ → ℤ → ℕ → ℕ → Bool
in_region x0 y0 x1 y1 x y =
    (leb_ℤ y0 (pos y) && leb_ℤ (pos y) y1) && (leb_ℤ x0 (pos x) && leb_ℤ (pos x) x1)

-- One direction of CLIP_REGION(), after its early returns.
pub clip_axis :
    (w : ℕ) (lo hi : ℤ)
    → ltb_ℤ hi (pos 0) ≡ false
    → ltb_ℤ hi lo ≡ false
    → leb_ℤ (pos w) lo ≡ false
    → 0 < w
    → (pos_part lo ≤ clip_last w hi) × (clip_last w hi < w)
unfolding clip_last
clip_axis w lo hi p q r s = ground arith

clip_axis_mem :
    (w : ℕ) (lo hi : ℤ) (x : ℕ)
    → ltb_ℤ hi (pos 0) ≡ false
    → x < w
    → (leb (pos_part lo) x && leb x (clip_last w hi)) ≡ (leb_ℤ lo (pos x) && leb_ℤ (pos x) hi)
unfolding clip_last
clip_axis_mem w (pos lo) (pos hi) x p h = ground arith
clip_axis_mem w (negsuc lo) (pos hi) x p h = ground arith
clip_axis_mem w (pos lo) (negsuc hi) x p h = ground arith
clip_axis_mem w (negsuc lo) (negsuc hi) x p h = ground arith

-- What CLIP_REGION() does not return on.
record Clipped (w h : ℕ) (x0 y0 x1 y1 : ℤ) (r : Region) : Type 0 where
  left : r.x0 ≡ pos_part x0
  top : r.y0 ≡ pos_part y0
  right : r.x1 ≡ clip_last w x1
  bottom : r.y1 ≡ clip_last h y1
  x1_pos : ltb_ℤ x1 (pos 0) ≡ false
  y1_pos : ltb_ℤ y1 (pos 0) ≡ false
  x_order : ltb_ℤ x1 x0 ≡ false
  y_order : ltb_ℤ y1 y0 ≡ false
  x_in : leb_ℤ (pos w) x0 ≡ false
  y_in : leb_ℤ (pos h) y0 ≡ false

clip_region-Clipped :
    (w h : ℕ) (x0 y0 x1 y1 : ℤ) {r : Region}
    → clip_region w h x0 y0 x1 y1 ≡ some r
    → Clipped w h x0 y0 x1 y1 r
unfolding clip_region
clip_region-Clipped w h x0 y0 x1 y1 e = ground arith

in_span_last : (a b x : ℕ) → a ≤ b → in_span a (b + 1 - a) x ≡ (leb a x && leb x b)
in_span_last a b x h = ground arith

in_span_last' : (a b x : ℕ) → a ≤ b → in_span a (b - a + 1) x ≡ (leb a x && leb x b)
in_span_last' a b x h = ground arith

-- What it leaves is on the screen, and holds the same cells of the screen.
clip_region_mem :
    (w h : ℕ) (x0 y0 x1 y1 : ℤ) (r : Region) (x y : ℕ)
    → Clipped w h x0 y0 x1 y1 r
    → x < w
    → y < h
    → (r.x0 + (r.x1 - r.x0 + 1) ≤ w)
      × (in_rows r.x0 r.y0 (r.x1 - r.x0 + 1) (r.y1 + 1 - r.y0) x y ≡ in_region x0 y0 x1 y1 x y)
clip_region_mem w h x0 y0 x1 y1 r x y c hx hy =
    let xs = clip_axis w x0 x1 c.x1_pos c.x_order c.x_in (omega arith) in
    let ys = clip_axis h y0 y1 c.y1_pos c.y_order c.y_in (omega arith) in
    let xm = clip_axis_mem w x0 x1 x c.x1_pos hx in
    let ym = clip_axis_mem h y0 y1 y c.y1_pos hy in
    (
      omega (arith, c.left, c.right),
      rw (c.left, c.right, c.top, c.bottom)
          (ap₂ ◌&&◌ (in_span_last _ _ y ys.0 ∙ ym) (in_span_last' _ _ x xs.0 ∙ xm)),
    )

clip_region-none :
    (w h : ℕ) (x0 y0 x1 y1 : ℤ) (x y : ℕ)
    → clip_region w h x0 y0 x1 y1 ≡ none
    → x < w
    → y < h
    → in_region x0 y0 x1 y1 x y ≡ false
unfolding clip_region
clip_region-none w h x0 y0 x1 y1 x y e hx hy = ground arith

pub process_region_lem :
    (code : Code) (f : CharCell → CharCell)
    → Writes code f
    → (cb : CellBuffer) (x0 y0 x1 y1 : ℤ) (x y : ℕ) → x < cb.width
    → y < cb.height
    → cell (process_region code cb x0 y0 x1 y1) (address cb x y) ≡ (
        if in_region x0 y0 x1 y1 x y
        then Option.map f (cell cb (address cb x y))
        else cell cb (address cb x y))
unfolding process_region
process_region_lem code f pure cb x0 y0 x1 y1 x y hx hy =
    elim (Option-cases (clip_region cb.width cb.height x0 y0 x1 y1)) [
      | inl e ↦ rw (e, process_region) (rw (clip_region-none _ _ x0 y0 x1 y1 x y e hx hy))
      | inr (r, e) ↦
          let (fits, same) =
            clip_region_mem cb.width cb.height x0 y0 x1 y1 r x y
              (clip_region-Clipped cb.width cb.height x0 y0 x1 y1 e) hx hy in
          rw (e, process_region)
            (rw (← same) (
              touch_rows_lem code f pure cb.width r.x0 (r.x1 - r.x0 + 1) x y hx fits
                (r.y1 + 1 - r.y0) r.y0 _ cb refl refl))
    ]
