-- ===== src/Cellwin/Scroll.antt =====
-- What `cbuf_scroll_area` leaves on the screen.
use yterm.Prelude.{
  ℕ, ◌+◌, ◌-◌, ◌*◌, ◌≤◌, ◌<◌, ◌≡◌, ◌∙◌, ap, Bool, true, false, ◌&&◌, ◌||◌, Option, none, some, inl,
  inr, arith, if◌then◌else◌, ltb, ◌==◌, Bool-cases, ℤ, pos, pos_part, ltb_ℤ, leb_ℤ, ◌+ℤ◌, ◌-ℤ◌,
}
use yterm.Cell.{CharCell}
use yterm.Cellwin.{CellBuffer, clip_last, clear_char}
use yterm.Cellwin.Strip.{copy_strip, clear_if, unmark_lines, scroll_lines, scroll_area}
use yterm.Cellwin.Dirty.{IsValid}
use yterm.Cellwin.Keeps.{scroll_area-Keeps}
use yterm.Cellwin.Cells.{clip_axis}
use yterm.Cellwin.Seen.{looks_at, clear_if-looks, looks_at-unmark_lines}
use yterm.Cellwin.Lines.{
  copy_lines-at, scrolled, scrolled_all, scrolled_up, scrolled_down, in_region_lines,
}

-- The copy and the clearing of `cbuf_scroll_area`, on clipped lines.
module _ (cb : CellBuffer) (top bottom lines : ℕ) (m : Bool) (attr : Option CharCell) (x y : ℕ)
    (valid : IsValid cb) (char : clear_char attr < 65536) (ordered : top ≤ bottom)
    (inside : bottom < cb.height) (column : x < cb.width) where
  lines_up :
      lines < bottom + 1 - top
      → looks_at
          (clear_if
            (copy_strip cb
              ((top + lines) * cb.width)
              (top * cb.width)
              ((bottom + 1 - top - lines) * cb.width)
              m)
            (pos 0)
            (pos bottom -ℤ pos lines +ℤ pos 1)
            (pos cb.width -ℤ pos 1)
            (pos bottom)
            attr)
          x
          y
        ≡ scrolled top bottom lines true attr (looks_at cb) x y
  unfolding ◌-ℤ◌ ◌+ℤ◌
  lines_up h =
      clear_if-looks _ _ _ _ _ attr x y char
      ∙ scrolled_up (looks_at cb) top bottom lines attr x y ordered _ _ h
          (copy_lines-at cb (top + lines) top (bottom + 1 - top - lines) m x y valid (omega arith)
            (omega arith))
          (in_region_lines cb.width (pos bottom -ℤ pos lines +ℤ pos 1) (pos bottom) x y column
            ∙ ground arith)

  lines_down :
      lines < bottom + 1 - top
      → looks_at
          (clear_if
            (copy_strip cb
              (top * cb.width)
              ((top + lines) * cb.width)
              ((bottom + 1 - top - lines) * cb.width)
              m)
            (pos 0)
            (pos top)
            (pos cb.width -ℤ pos 1)
            (pos top +ℤ pos lines -ℤ pos 1)
            attr)
          x
          y
        ≡ scrolled top bottom lines false attr (looks_at cb) x y
  unfolding ◌-ℤ◌ ◌+ℤ◌
  lines_down h =
      clear_if-looks _ _ _ _ _ attr x y char
      ∙ scrolled_down (looks_at cb) top bottom lines attr x y ordered _ _ h
          (copy_lines-at cb top (top + lines) (bottom + 1 - top - lines) m x y valid (omega arith)
            (omega arith))
          (in_region_lines cb.width (pos top) (pos top +ℤ pos lines -ℤ pos 1) x y column
            ∙ ground arith)

  scroll_lines-looks :
      (up : Bool)
      → looks_at (scroll_lines cb top bottom lines up m attr) x y
        ≡ scrolled top bottom lines up attr (looks_at cb) x y
  unfolding scroll_lines
  scroll_lines-looks up = elim (Bool-cases (ltb lines (bottom + 1 - top))) [
    | inr all ↦
        rw (all, scroll_lines)
          (clear_if-looks cb (pos 0) (pos top) (pos cb.width -ℤ pos 1) (pos bottom) attr x y char
            ∙ scrolled_all (looks_at cb) top bottom lines attr x y ordered (looks_at cb x y) _
                (ground arith) up
                (in_region_lines cb.width (pos top) (pos bottom) x y column ∙ ground arith))
    | inl h ↦
        rw (h, scroll_lines) (either up _ _ (lines_up (ground arith)) (lines_down (ground arith)))
  ]
    where
      either :
          (b : Bool) (p q : CellBuffer)
          → looks_at p x y ≡ scrolled top bottom lines true attr (looks_at cb) x y
          → looks_at q x y ≡ scrolled top bottom lines false attr (looks_at cb) x y
          → looks_at (if b then p else q) x y ≡ scrolled top bottom lines b attr (looks_at cb) x y
      either true p q hp hq = hp
      either false p q hp hq = hq

-- The early returns of `cbuf_scroll_area`.
abbrev pub scroll_returns : CellBuffer → ℤ → ℤ → ℤ → ℤ → Bool
scroll_returns cb y0 y1 lines dir =
    ((leb_ℤ dir (pos 0) && leb_ℤ (pos 0) dir) || leb_ℤ lines (pos 0))
    || (ltb_ℤ y1 y0 || ltb_ℤ y1 (pos 0) || leb_ℤ (pos cb.height) y0 || cb.width == 0)

clip_lines :
    (cb : CellBuffer) (y0 y1 lines dir : ℤ)
    → scroll_returns cb y0 y1 lines dir ≡ false
    → 0 < cb.height
    → (pos_part y0 ≤ clip_last cb.height y1) × (clip_last cb.height y1 < cb.height)
clip_lines cb y0 y1 lines dir g h =
    clip_axis cb.height y0 y1 (ground arith) (ground arith) (ground arith) h

scrolled_outside :
    (cb : CellBuffer) (top bottom lines : ℕ) (up : Bool) (attr : Option CharCell) (x y : ℕ)
    → ltb x cb.width ≡ false
    → scrolled top bottom lines up attr (looks_at cb) x y ≡ none
scrolled_outside cb top bottom lines up none x y h = ground arith
scrolled_outside cb top bottom lines up (some a) x y h = ground arith

-- `cbuf_scroll_area`, on a valid buffer with at least one line and a 16-bit fill character: what is
-- seen at each column and line is what the scroll of the clipped lines leaves. The lines of the
-- region move by `lines`, up where `dir` is negative and down where it is positive, those that come
-- in are blank, and no other cell looks different. With `dir` 0, no lines, or no line of the region
-- on the screen no cell looks different.
pub scroll_area-looks :
    (cb : CellBuffer) (y0 y1 lines dir : ℤ) (m : Bool) (attr : Option CharCell) (x y : ℕ)
    → IsValid cb
    → 0 < cb.height
    → clear_char attr < 65536
    → looks_at (scroll_area cb y0 y1 lines dir m attr) x y ≡ (
        if scroll_returns cb y0 y1 lines dir
        then looks_at cb x y
        else scrolled
            (pos_part y0)
            (clip_last cb.height y1)
            (pos_part lines)
            (ltb_ℤ dir (pos 0))
            attr
            (looks_at cb)
            x
            y)
unfolding scroll_area
scroll_area-looks cb y0 y1 lines dir m attr x y v h ha =
    elim (Bool-cases (scroll_returns cb y0 y1 lines dir)) [
      | inl g ↦ rw g (ap (λ b. looks_at b x y) (returned g))
      | inr g ↦ elim (Bool-cases (ltb x cb.width)) [
        | inl on ↦
            let (ordered, inside) = clip_lines cb y0 y1 lines dir g h in
            rw g (
              ap (λ b. looks_at b x y) (went_on g)
              ∙ looks_at-unmark_lines _ _ _ x y
              ∙ scroll_lines-looks cb _ _ _ m attr x y v ha ordered inside (ground arith) _)
        | inr off ↦
            rw
              (
                g,
                scrolled_outside cb (pos_part y0) (clip_last cb.height y1) (pos_part lines)
                    (ltb_ℤ dir (pos 0)) attr x y off,
              )
              (ground (arith, (scroll_area-Keeps cb y0 y1 lines dir m attr).width))
      ]
    ]
  where
    returned : scroll_returns cb y0 y1 lines dir ≡ true → scroll_area cb y0 y1 lines dir m attr ≡ cb
    returned g = ground arith

    went_on :
        scroll_returns cb y0 y1 lines dir ≡ false
        → scroll_area cb y0 y1 lines dir m attr
          ≡ unmark_lines (clip_last cb.height y1 + 1 - pos_part y0) (pos (pos_part y0) -ℤ pos 1) (
              scroll_lines cb
                (pos_part y0)
                (clip_last cb.height y1)
                (pos_part lines)
                (ltb_ℤ dir (pos 0))
                m
                attr)
    went_on g = ground arith
