-- ===== src/Colors/Bounds.antt =====
-- The indices into the palette, and the colors that the renderer gets.
use yterm.Prelude.{
  ℕ, zero, suc, ◌-◌, ◌/◌, ◌%◌, ◌^◌, ◌≤◌, ◌<◌, ◌≡◌, refl, Bool, true, false, if◌then◌else◌, get_or,
  arith, length,
}
use yterm.Cell.{CharCell}
use yterm.Colors.{
  ColorMode, mode_normal, mode_bw, mode_green, mode_amber, mode_amber_tint, Scheme, cidx_max,
  color_index, palette_index, luminance, red_of, green_of, blue_of, dim, apply_mode, is_tty_color,
  decode_color, decode_attrs,
}

-- The colors of a scheme have 24 bits, and the palette has an entry for each index.
pub record IsScheme (s : Scheme) : Type 0 where
  pub entries : length s.tty ≡ 266
  pub tty : (i : ℕ) → i < 266 → get_or s.tty i 0 < 2 ^ 24
  pub selection_fg : s.selection_fg < 2 ^ 24
  pub selection_bg : s.selection_bg < 2 ^ 24
  pub amber_fg : s.amber_fg < 2 ^ 24
  pub amber_bg : s.amber_bg < 2 ^ 24

-- Whatever the color, the flags and the side are, `decode_color` reads its palette within bounds:
-- its assertion holds.
pub palette_index_lt : (c flags : ℕ) (isfg : Bool) → palette_index c flags isfg ≤ cidx_max
unfolding palette_index color_index
palette_index_lt c flags true = ground arith
palette_index_lt c flags false = ground arith

dim_le : (l x : ℕ) → x < 256 → dim l x < 256
dim_le l x h = shifted (l / 2 ^ 7 % 2) (omega arith)
  where
    shifted : (b : ℕ) → b < 2 → x / 2 ^ (1 - b) < 256
    shifted zero k = omega (arith, h)
    shifted (suc zero) k = omega (arith, h)
    shifted (suc (suc b)) k = absurd (omega (arith, k))

apply_mode_lt :
    (m : ColorMode) (amber c : ℕ) → amber < 2 ^ 24 → c < 2 ^ 24 → apply_mode m amber c < 2 ^ 24
unfolding apply_mode
apply_mode_lt mode_normal amber c a l = l
apply_mode_lt mode_amber amber c a l = a
apply_mode_lt mode_bw amber c a l = ground arith
apply_mode_lt mode_green amber c a l = ground arith
apply_mode_lt mode_amber_tint amber c a l = omega (
  arith,
  dim_le (luminance c) (red_of amber) (omega arith),
  dim_le (luminance c) (green_of amber) (omega arith),
  dim_le (luminance c) (blue_of amber) (omega arith),
)

-- In the black and white mode no component of a color is above 254: the weights sum to 65534.
bw_le : (amber c : ℕ) → apply_mode mode_bw amber c ≤ 0xfefefe
unfolding apply_mode
bw_le amber c = ground arith

decode_color_lt :
    (s : Scheme) (c flags : ℕ) (isfg : Bool) → IsScheme s → decode_color s c flags isfg < 2 ^ 24
unfolding decode_color
decode_color_lt s c flags isfg h =
    apply_mode_lt s.color_mode _ _ (amber isfg) (rgb (is_tty_color c) refl)
  where
    amber : (b : Bool) → (if b then s.amber_fg else s.amber_bg) < 2 ^ 24
    amber true = h.amber_fg
    amber false = h.amber_bg

    rgb :
        (b : Bool)
        → is_tty_color c ≡ b
        → (if b then get_or s.tty (palette_index (c % 2 ^ 24) flags isfg) 0 else c) < 2 ^ 24
    rgb true e =
        h.tty (palette_index (c % 2 ^ 24) flags isfg)
          (omega (arith, palette_index_lt (c % 2 ^ 24) flags isfg))
    rgb false e = ground (arith, e)

decoded_lt :
    (s : Scheme) (cc : CharCell)
    → IsScheme s
    → ((decode_attrs s cc).0 < 2 ^ 24) × ((decode_attrs s cc).1 < 2 ^ 24)
unfolding decode_attrs
decoded_lt s cc h =
    let f = decode_color_lt s cc.fg cc.attrs true h in
    let b = decode_color_lt s cc.bg cc.attrs false h in
    ground (arith, f, b, h.selection_fg, h.selection_bg)

-- The colors that `cbuf_decode_attrs` gives have 24 bits, in every color mode and for every cell,
-- where the colors of the scheme have. For every color and every flags the index into the palette is
-- within the palette. The gray that the black and white mode makes of a color is at most 0xfefefe.
pub decode_attrs_lt :
    (s : Scheme) (cc : CharCell)
    → IsScheme s
    → ((decode_attrs s cc).0 < 2 ^ 24)
      × ((decode_attrs s cc).1 < 2 ^ 24)
      × ((c flags : ℕ) (isfg : Bool) → palette_index c flags isfg < length s.tty)
      × ((amber c : ℕ) → apply_mode mode_bw amber c ≤ 0xfefefe)
decode_attrs_lt s cc h = (
  (decoded_lt s cc h).0,
  (decoded_lt s cc h).1,
  λ c flags isfg. omega (arith, palette_index_lt c flags isfg, h.entries),
  bw_le,
)
