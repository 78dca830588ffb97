-- ===== src/Menu.antt =====
-- osd_menu.inc.c: menus, a stack of windows with items and a cursor, and how they are built.
pub mod Captions
pub mod Cursor
pub mod Keys
pub mod Build
mod Tests
use yterm.Prelude.{
  ℕ, ◌+◌, ◌-◌, ◌*◌, ◌/◌, max, Bool, true, false, ◌&&◌, Option, none, some, List, [], ◌∷◌, ◌++◌, map,
  ltb, leb, ◌==◌, if◌then◌else◌, ℤ, pos, negsuc, pos_part, ◌+ℤ◌, ◌-ℤ◌, ltb_ℤ, length,
}
use yterm.Cellwin.{CellBuffer, mark_region_dirty}
use Captions.{Caption, no_caption, caption_new}

-- `MENU_LABEL`, ...: a label, a submenu, a truth value, one of -1, 0 and 1, a bit of a word.
pub data MenuKind : Type 0 where
  label submenu boolean three_way bit_flag : MenuKind

-- `varptr` is the address of a variable, `after_action` names a callback.
pub record MenuItem : Type 0 where
  pub caption : Caption
  pub kind : MenuKind
  pub varptr : Option ℕ
  pub mask : ℕ
  pub after_action : Option ℕ

pub record MenuWindow : Type 0 where
  pub items : List MenuItem
  pub items_count : ℕ
  pub x0 : ℤ
  pub y0 : ℤ
  pub width : ℤ
  pub height : ℕ
  pub max_width : ℕ
  pub max_height : ℕ
  pub top_item : ℕ
  pub curr_item : ℕ
  pub title : Caption
  pub dirty : Bool
  pub term : Option ℕ

-- The sizes of the window and of a character, and the options of the shadow; `shadows` tells that
-- the shadow has a color.
pub record Display : Type 0 where
  pub win_width : ℕ
  pub win_height : ℕ
  pub char_width : ℕ
  pub char_height : ℕ
  pub shadows : Bool
  pub xofs : ℕ
  pub yofs : ℕ

-- What the menus work on: the menus from `curr_menu` along `prev`, the buffer of `currterm`, the 32
-- bits at each address, and whether a redraw is forced.
pub record Gui : Type 0 where
  pub menus : List MenuWindow
  pub cells : Option CellBuffer
  pub vars : ℕ → ℕ
  pub redraw : Bool

-- `/` of C by a positive number.
unfoldable pub div_int : ℤ → ℕ → ℤ
div_int (pos n) k = pos (n / k)
div_int (negsuc n) k = pos 0 -ℤ pos ((n + 1) / k)

abbrev pub mul_int : ℤ → ℕ → ℤ
mul_int (pos n) k = pos (n * k)
mul_int (negsuc n) k = pos 0 -ℤ pos ((n + 1) * k)

-- `clamp` and `max2` of common.h.
unfoldable pub clamp_int : ℤ → ℤ → ℤ → ℤ
clamp_int a lo hi = if ltb_ℤ a lo then lo else if ltb_ℤ hi a then hi else a

abbrev pub max_int : ℤ → ℤ → ℤ
max_int a b = if ltb_ℤ b a then a else b

-- `menu_mark_shadow_cells_dirty`.
unfoldable pub mark_shadow_cells : Display → MenuWindow → CellBuffer → CellBuffer
mark_shadow_cells d m cb =
    let mxend = m.x0 +ℤ m.width +ℤ pos 1 in
    let myend = m.y0 +ℤ pos m.height +ℤ pos 1 in
    let mxofs = m.x0 +ℤ pos (d.xofs / d.char_width) in
    let myofs = m.y0 +ℤ pos (d.yofs / d.char_height) in
    let sxend = mxend +ℤ pos ((d.xofs + d.char_width - 1) / d.char_width) in
    let syend = myend +ℤ pos ((d.yofs + d.char_height - 1) / d.char_height) in
    if d.shadows
    then mark_region_dirty (mark_region_dirty cb mxend myofs sxend (myend -ℤ pos 1)) mxofs myend
        sxend syend
    else cb

abbrev pub mark_shadow : Display → MenuWindow → Option CellBuffer → Option CellBuffer
mark_shadow d m none = none
mark_shadow d m (some cb) = some (mark_shadow_cells d m cb)

abbrev pub soiled : MenuWindow → MenuWindow
soiled m = record m { dirty = true }

-- `menu_mark_dirty` and `menu_mark_all_dirty`, of a menu with those along its `prev`.
unfoldable pub menu_mark_dirty : Display → List MenuWindow → List MenuWindow
menu_mark_dirty d [] = []
menu_mark_dirty d (m ∷ ms) = if d.shadows then soiled m ∷ map soiled ms else soiled m ∷ ms

unfoldable pub menu_mark_all_dirty : List MenuWindow → List MenuWindow
menu_mark_all_dirty = map soiled

-- `open_menu`, of a menu that is not in the stack.
unfoldable pub open_menu : Display → MenuWindow → Gui → Gui
open_menu d m g = record g { menus = menu_mark_dirty d (m ∷ g.menus) }

-- `close_top_menu`.
unfoldable pub close_top_menu : Display → Gui → Gui
close_top_menu d g = elim g.menus [
  | [] ↦ g
  | m ∷ ms ↦ record g {
    menus = menu_mark_all_dirty ms;
    cells = mark_shadow d m g.cells;
    redraw = true;
  }
]

-- `menu_center`.
unfoldable pub menu_center : Display → MenuWindow → MenuWindow
menu_center d m = record m {
  x0 = div_int (div_int (pos d.win_width -ℤ mul_int m.width d.char_width) 2) d.char_width;
  y0 = div_int (div_int (pos d.win_height -ℤ pos (m.height * d.char_height)) 2) d.char_height;
}

-- `menu_set_position`, and `menu_shift`.
unfoldable pub menu_set_position : Display → ℤ → ℤ → MenuWindow → MenuWindow
menu_set_position d x y m = record m {
  x0 = clamp_int x (pos 0) (pos (d.win_width / d.char_width) -ℤ m.width);
  y0 = clamp_int y (pos 0) (pos (d.win_height / d.char_height) -ℤ pos m.height);
}

unfoldable pub menu_shift : Display → ℤ → ℤ → MenuWindow → MenuWindow
menu_shift d dx dy m = menu_set_position d (m.x0 +ℤ dx) (m.y0 +ℤ dy) m

-- The adjusted size limit of `menu_new_window`.
abbrev pub size_limit : ℤ → ℕ → ℤ
size_limit (pos n) cells = if n == 0 then pos cells else pos n
size_limit (negsuc n) cells = negsuc n +ℤ pos cells

-- `menu_new_window`.
unfoldable pub menu_new_window : Display → ℤ → ℤ → List ℕ → ℤ → ℤ → MenuWindow
menu_new_window d x y name max_w max_h =
    let w = size_limit max_w (d.win_width / d.char_width) in
    let h = size_limit max_h (d.win_height / d.char_height) in
    let title : Caption = caption_new name false in
    record {
      items = [];
      items_count = 0;
      x0 = x;
      y0 = y;
      width = clamp_int (pos (length title.text + 4)) (pos 5) w;
      height = 2;
      max_width = max 1 (pos_part (w -ℤ pos 5)) + 5;
      max_height = max 1 (pos_part (h -ℤ pos 3)) + 3;
      top_item = 0;
      curr_item = 0;
      title = title;
      dirty = true;
      term = none;
    }

-- What the functions that add an item do with it; `extra` is the room for its marks.
unfoldable pub append_item : ℕ → MenuItem → MenuWindow → MenuWindow
append_item extra it m = record m {
  items = m.items ++ (it ∷ []);
  items_count = m.items_count + 1;
  width =
      clamp_int (max_int m.width (pos (length it.caption.text + 4 + extra))) (pos 5)
        (pos m.max_width);
  height = pos_part (clamp_int (pos (m.height + 1)) (pos 3) (pos m.max_height));
  dirty = true;
}
