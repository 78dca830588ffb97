-- ===== src/Term/Sgr.antt =====
-- term_lib_csi.inc.c: `csi_set_attr`, the character attributes and colors.
use yterm.Prelude.{
  ℕ, zero, suc, ◌+◌, ◌-◌, ◌*◌, ◌%◌, ◌^◌, Bool, false, ◌&&◌, List, [], ◌∷◌, Option, none, some, leb,
  ◌==◌, if◌then◌else◌, length, bit_and, bit_or, ℤ, pos, negsuc, pos_part, leb_ℤ,
}
use yterm.Cell.{
  CharCell, cell_inverse, cell_underline, cell_bold, cell_blink, cell_attr_mask, default_color,
}

-- `CELL_STD_COLOR`.
abbrev pub std_color : ℕ → ℕ
std_color n = bit_or cell_attr_mask n

-- `(r<<16)|(g<<8)|b`, with the bytes taken by `& 0xff`.
abbrev pub rgb : ℤ → ℤ → ℤ → ℕ
rgb r g b =
    bit_or (bit_or ((pos_part r % 2 ^ 8) * 2 ^ 16) ((pos_part g % 2 ^ 8) * 2 ^ 8))
      (pos_part b % 2 ^ 8)

-- `attr[i] == n`, at a number that is not negative.
abbrev pub is_arg : ℤ → ℕ → Bool
is_arg (pos a) n = a == n
is_arg (negsuc a) n = false

-- After 38;2 or 48;2: the color, where there are three numbers, and the arguments that remain.
unfoldable pub rgb_args : List ℤ → Option ℕ × List ℤ
rgb_args (r ∷ g ∷ b ∷ rest) =
    (if leb_ℤ (pos 0) r && leb_ℤ (pos 0) g && leb_ℤ (pos 0) b then some (rgb r g b) else none, rest)
rgb_args _ = (none, [])

-- After 38 or 48.
unfoldable pub color_args : List ℤ → Option ℕ × List ℤ
unfolding rgb_args
color_args [] = (some default_color, [])
color_args (m ∷ []) = if is_arg m 2 then (none, []) else (some default_color, m ∷ [])
color_args (m ∷ n ∷ rest) =
    if is_arg m 5
    then (some (std_color (pos_part n % 256)), rest)
    else if is_arg m 2
    then rgb_args (n ∷ rest)
    else (some default_color, m ∷ n ∷ rest)

-- `fg` or `bg` of TERM_CATTR().
abbrev pub set_fg : Option ℕ → CharCell → CharCell
set_fg none c = c
set_fg (some v) c = record c { fg = v }

abbrev pub set_bg : Option ℕ → CharCell → CharCell
set_bg none c = c
set_bg (some v) c = record c { bg = v }

abbrev pub flag_on : ℕ → CharCell → CharCell
flag_on m c = record c { attrs = bit_or c.attrs m }

abbrev pub flag_off : ℕ → CharCell → CharCell
flag_off m c = record c { attrs = c.attrs - bit_and c.attrs m }

-- `flags = 0`, with the default colors.
abbrev pub reset_attrs : CharCell → CharCell
reset_attrs c = record c {
  attrs = 0;
  auto_wrap = false;
  dirty = false;
  fg = default_color;
  bg = default_color;
}

-- The cases with one argument.
unfoldable pub set_attr : ℕ → CharCell → CharCell
set_attr aa c =
    if aa == 0
    then reset_attrs c
    else if aa == 1
    then flag_on cell_bold c
    else if aa == 4
    then flag_on cell_underline c
    else if aa == 5
    then flag_on cell_blink c
    else if aa == 7
    then flag_on cell_inverse c
    else if aa == 22
    then flag_off cell_bold c
    else if aa == 24
    then flag_off cell_underline c
    else if aa == 25
    then flag_off cell_blink c
    else if aa == 27
    then flag_off cell_inverse c
    else if aa == 39
    then record c { fg = default_color }
    else if aa == 49
    then record c { bg = default_color }
    else if leb 30 aa && leb aa 37
    then record c { fg = std_color (aa - 30) }
    else if leb 40 aa && leb aa 47
    then record c { bg = std_color (aa - 40) }
    else if leb 90 aa && leb aa 97
    then record c { fg = std_color (aa - 90 + 8) }
    else if leb 100 aa && leb aa 107
    then record c { bg = std_color (aa - 100 + 8) }
    else c

-- One turn of the loop: the attributes, and the arguments that remain.
unfoldable pub sgr_step : ℤ → List ℤ → CharCell → CharCell × List ℤ
unfolding color_args set_attr
sgr_step a rest c =
    if is_arg a 38
    then (set_fg (color_args rest).0 c, (color_args rest).1)
    else if is_arg a 48
    then (set_bg (color_args rest).0 c, (color_args rest).1)
    else (set_attr (pos_part a) c, rest)

-- The loop. Every turn takes an argument, so the fuel is the number of the arguments.
unfoldable pub sgr_loop : ℕ → List ℤ → CharCell → CharCell
unfolding sgr_step
sgr_loop zero args c = c
sgr_loop (suc fuel) [] c = c
sgr_loop (suc fuel) (a ∷ rest) c = sgr_loop fuel (sgr_step a rest c).1 (sgr_step a rest c).0

-- `csi_set_attr`; no argument is a 0.
unfoldable pub csi_set_attr : List ℤ → CharCell → CharCell
unfolding sgr_loop
csi_set_attr [] c = set_attr 0 c
csi_set_attr (a ∷ rest) c = sgr_loop (length (a ∷ rest)) (a ∷ rest) c
