-- ===== src/Colors.antt =====
-- cellwin.c: the palette, and the colors of a cell for the renderer.
pub mod Palette
pub mod Bounds
mod Tests
use yterm.Prelude.{
  ℕ, zero, suc, ◌+◌, ◌-◌, ◌*◌, ◌/◌, ◌%◌, ◌^◌, Bool, true, false, ◌&&◌, ◌||◌, not, List, [], ◌∷◌,
  ◌++◌, ltb, leb, ◌==◌, if◌then◌else◌, get_or, bit_and, bit_or, to_nat,
}
use yterm.Cell.{
  CharCell, cell_inverse, cell_underline, cell_bold, cell_blink, cell_selection, cell_attr_mask,
}

-- CMODE_...
pub data ColorMode : Type 0 where
  mode_normal mode_bw mode_green mode_amber mode_amber_tint : ColorMode

-- The globals `colorsTTY`, `colorSelectionFG`, `colorSelectionBG`, `colorAmberFG`, `colorAmberBG`,
-- `colorMode`, `enableUnderline` and `cbufInverse`.
pub record Scheme : Type 0 where
  pub tty : List ℕ
  pub selection_fg : ℕ
  pub selection_bg : ℕ
  pub amber_fg : ℕ
  pub amber_bg : ℕ
  pub color_mode : ColorMode
  pub enable_underline : Bool
  pub inverse : Bool

abbrev pub cidx_default_fg : ℕ
cidx_default_fg = 256

abbrev pub cidx_default_bg : ℕ
cidx_default_bg = 257

abbrev pub cidx_bold_fg : ℕ
cidx_bold_fg = 260

abbrev pub cidx_under_fg : ℕ
cidx_under_fg = 261

abbrev pub cidx_bold_under_fg : ℕ
cidx_bold_under_fg = 262

abbrev pub cidx_max : ℕ
cidx_max = 265

-- The numbers from `i` on, for the loops of `cbuf_init_palette`.
unfoldable pub count_up : ℕ → ℕ → List ℕ
count_up zero i = []
count_up (suc n) i = i ∷ count_up n (i + 1)

-- One component of a color of the cube.
abbrev pub cube_part : ℕ → ℕ
cube_part v = if v == 0 then 0 else 0x37 + 0x28 * v

-- The inner loop over `b`.
unfoldable pub cube_blue : ℕ → ℕ → List ℕ → List ℕ
cube_blue r g [] = []
cube_blue r g (b ∷ bs) =
    (cube_part r * 2 ^ 16 + cube_part g * 2 ^ 8 + cube_part b) ∷ cube_blue r g bs

unfoldable pub cube_green : ℕ → List ℕ → List ℕ
unfolding cube_blue count_up
cube_green r [] = []
cube_green r (g ∷ gs) = cube_blue r g (count_up 6 0) ++ cube_green r gs

unfoldable pub cube_red : List ℕ → List ℕ
unfolding cube_green count_up
cube_red [] = []
cube_red (r ∷ rs) = cube_green r (count_up 6 0) ++ cube_red rs

-- The loop over the grays.
unfoldable pub grays : List ℕ → List ℕ
grays [] = []
grays (gs ∷ rest) =
    let c = 0x08 + 0x0a * gs in bit_or (bit_or c (c * 2 ^ 8)) (c * 2 ^ 16) ∷ grays rest

abbrev pub defclr16 : List ℕ
defclr16 =
    0x000000 ∷ 0xb21818 ∷ 0x18b218 ∷ 0xb26818 ∷ 0x1818b2 ∷ 0xb218b2 ∷ 0x18b2b2 ∷ 0xb2b2b2 ∷ 0x686868
    ∷ 0xff5454 ∷ 0x54ff54 ∷ 0xffff54 ∷ 0x5454ff ∷ 0xff54ff ∷ 0x54ffff ∷ 0xffffff ∷ []

-- The entries after the 256 colors, in the order of their indices.
abbrev pub special_colors : List ℕ
special_colors =
    0xb2b2b2 ∷ 0x000000 ∷ 0xffffff ∷ 0x000000 ∷ 0x00afaf ∷ 0x00af00 ∷ 0xafaf00 ∷ 0x00ffff ∷ 0x44ff00
    ∷ 0xffff44 ∷ []

-- `cbuf_init_palette`.
unfoldable pub init_palette : List ℕ
unfolding cube_red grays count_up
init_palette = defclr16 ++ (cube_red (count_up 6 0) ++ (grays (count_up 24 0) ++ special_colors))

-- A bit of the flags.
abbrev pub has_flag : ℕ → ℕ → Bool
has_flag flags m = not (bit_and flags m == 0)

-- The index of a terminal color before the high intensity, and whether that is set.
unfoldable pub color_index : ℕ → ℕ → Bool → ℕ × Bool
color_index c0 flags isfg =
    let c = if ltb 255 c0 then cidx_default_bg - to_nat isfg else c0 in
    let high = has_flag flags cell_blink in
    if isfg
    then if has_flag flags cell_bold
      then if ltb 255 c
        then (
          (if has_flag flags cell_underline then cidx_bold_under_fg else cidx_bold_fg)
              + 3 * to_nat high,
          high,
        )
        else (c, true)
      else if has_flag flags cell_underline && ltb 255 c
      then (cidx_under_fg + 3 * to_nat high, high)
      else (c, high)
    else (c, high)

-- The index into `colorsTTY`.
unfoldable pub palette_index : ℕ → ℕ → Bool → ℕ
unfolding color_index
palette_index c0 flags isfg =
    let (c, high) = color_index c0 flags isfg in
    if high
    then if ltb c 8
      then c + 8
      else if c == cidx_default_fg || c == cidx_default_bg
      then c + 2
      else c
    else c

-- `*under = 1` of `decode_color`.
unfoldable pub underlines : Scheme → ℕ → ℕ → Bool → Bool
underlines s c flags isfg =
    isfg
    && leb c 255
    && s.enable_underline
    && has_flag flags cell_underline
    && (not (has_flag flags cell_bold) || leb 8 c)

abbrev pub red_of : ℕ → ℕ
red_of c = c / 2 ^ 16 % 256

abbrev pub green_of : ℕ → ℕ
green_of c = c / 2 ^ 8 % 256

abbrev pub blue_of : ℕ → ℕ
blue_of c = c % 256

abbrev pub luminance : ℕ → ℕ
luminance c =
    let lumi = (19660 * red_of c + 38666 * green_of c + 7208 * blue_of c) / 2 ^ 16 in
    if ltb 255 lumi then 255 else lumi

-- `x >> lumi`, where `lumi` is 0 for a bright color and 1 for a dark one.
abbrev pub dim : ℕ → ℕ → ℕ
dim lumi x = x / 2 ^ (1 - lumi / 2 ^ 7 % 2)

-- The color mode. The parts of a color do not overlap, so `|` is a sum.
unfoldable pub apply_mode : ColorMode → ℕ → ℕ → ℕ
apply_mode mode_normal amber c = c
apply_mode mode_amber amber c = amber
apply_mode mode_bw amber c = luminance c * 2 ^ 16 + luminance c * 2 ^ 8 + luminance c
apply_mode mode_green amber c = luminance c * 2 ^ 8
apply_mode mode_amber_tint amber c =
    dim (luminance c) (red_of amber) * 2 ^ 16
    + dim (luminance c) (green_of amber) * 2 ^ 8
    + dim (luminance c) (blue_of amber)

-- `c & CELL_ATTR_MASK` and `c & ~CELL_ATTR_MASK`.
abbrev pub is_tty_color : ℕ → Bool
is_tty_color c = leb (2 ^ 24) c

-- `decode_color`, without the underline.
unfoldable pub decode_color : Scheme → ℕ → ℕ → Bool → ℕ
unfolding palette_index apply_mode
decode_color s c flags isfg =
    let rgb =
      if is_tty_color c then get_or s.tty (palette_index (c % 2 ^ 24) flags isfg) 0 else c in
    apply_mode s.color_mode (if isfg then s.amber_fg else s.amber_bg) rgb

-- `cbuf_decode_attrs`: the colors of the text and of its background, and the underline.
unfoldable pub decode_attrs : Scheme → CharCell → ℕ × ℕ × Bool
unfolding decode_color underlines
decode_attrs s cc =
    if not (has_flag cc.attrs cell_selection)
    then (let fg = decode_color s cc.fg cc.attrs true in
        let bg = decode_color s cc.bg cc.attrs false in
        let under = is_tty_color cc.fg && underlines s (cc.fg % 2 ^ 24) cc.attrs true in
        if (not (has_flag cc.attrs cell_inverse) && not s.inverse)
          || (has_flag cc.attrs cell_inverse && s.inverse)
        then (fg, bg, under)
        else (bg, fg, under))
    else (s.selection_fg, s.selection_bg, false)
