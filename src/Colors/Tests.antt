-- ===== src/Colors/Tests.antt =====
-- The default palette.
use yterm.Prelude.{ℕ, ◌^◌, ◌≤◌, ◌<◌, Bool, true, false, arith, length}
use yterm.Cell.{default_cell}
use yterm.Colors.{Scheme, mode_bw, init_palette, palette_index, apply_mode, decode_attrs}
use yterm.Colors.Palette.{init_palette_lem}
use yterm.Colors.Bounds.{IsScheme, decode_attrs_lt}

abbrev scheme : Scheme
scheme = record {
  tty = init_palette;
  selection_fg = 0xffffff;
  selection_bg = 0x0055cc;
  amber_fg = 0xffaa00;
  amber_bg = 0x333333;
  color_mode = mode_bw;
  enable_underline = true;
  inverse = false;
}

scheme-IsScheme : IsScheme scheme
scheme-IsScheme = record {
  entries = init_palette_lem.0;
  tty = init_palette_lem.3;
  selection_fg = omega arith;
  selection_bg = omega arith;
  amber_fg = omega arith;
  amber_bg = omega arith;
}

decode_attrs_lt_example :
    ((decode_attrs scheme default_cell).0 < 2 ^ 24)
    × ((decode_attrs scheme default_cell).1 < 2 ^ 24)
    × ((c flags : ℕ) (isfg : Bool) → palette_index c flags isfg < length scheme.tty)
    × ((amber c : ℕ) → apply_mode mode_bw amber c ≤ 0xfefefe)
decode_attrs_lt_example = decode_attrs_lt scheme default_cell scheme-IsScheme
