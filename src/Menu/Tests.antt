-- ===== src/Menu/Tests.antt =====
-- Menus of the program.
use yterm.Prelude.{ℕ, ◌≤◌, ◌<◌, ◌≡◌, refl, true, false, none, some, [], ◌∷◌, pos, negsuc, arith}
use yterm.Menu.{label, three_way, MenuItem, MenuWindow, Display, Gui}
use yterm.Utf.{consume_with, next_state, dfa, start_state, gather}
use yterm.Utf.Case.{printable_cp}
use yterm.Menu.Captions.{no_caption, caption_new, put_chars, put_one, count_chars, decode_hot}
use yterm.Menu.Cursor.{is_enabled, find_enabled_item, menu_up, menu_down, menu_end}
use yterm.Menu.Cursor.Found.{NearestBelow, NearestAbove, find_enabled_item-Nearest}
use yterm.Menu.Cursor.Placed.{IsMenu, IsMenus}
use yterm.Menu.Cursor.Steps.{cursor, shows_cursor, menu_down-menu_up, menu_end-hidden}
use yterm.Keypad.{letter}
use yterm.Menu.Keys.{Callback, next_value, menu_keyevent}
use yterm.Menu.Keys.Inv.{menu_keyevent-IsMenus}
use yterm.Menu.Build.{new_message_box}
use yterm.Menu.Build.Built.{IsSized, message_box-IsMenu}

abbrev display : Display
display = record {
  win_width = 640;
  win_height = 48;
  char_width = 8;
  char_height = 16;
  shadows = true;
  xofs = 6;
  yofs = 6;
}

-- "&Yes", with its hot key.
caption_new_test :
    caption_new (0x26 ∷ 0x59 ∷ 0x65 ∷ []) true
    ≡ record { text = 0x59 ∷ 0x65 ∷ []; hotpos = some 0; hotkey = some 0x79 }
unfolding caption_new put_chars put_one consume_with next_state dfa start_state count_chars gather
    printable_cp decode_hot
caption_new_test = refl

next_value_test : next_value three_way 0 1 ≡ 0xffffffff
unfolding next_value
next_value_test = refl

-- An item that can be chosen, with a hot key, and a line.
abbrev item : ℕ → MenuItem
item key = record {
  caption = record { text = key ∷ []; hotpos = some 0; hotkey = some key };
  kind = label;
  varptr = none;
  mask = 0;
  after_action = some 1;
}

abbrev line : MenuItem
line = record { caption = no_caption; kind = label; varptr = none; mask = 0; after_action = none }

-- Three choices in a window with room for two items.
abbrev menu : ℕ → MenuWindow
menu at = record {
  items = item 0x61 ∷ line ∷ item 0x62 ∷ item 0x63 ∷ [];
  items_count = 4;
  x0 = pos 1;
  y0 = pos 0;
  width = pos 8;
  height = 4;
  max_width = 80;
  max_height = 4;
  top_item = 0;
  curr_item = at;
  title = no_caption;
  dirty = false;
  term = none;
}

abbrev gui : Gui
gui = record { menus = menu 0 ∷ []; cells = none; vars = λ p. 0; redraw = false }

-- A callback that asks to close the menu.
abbrev closing : Callback
closing f p x y g = (g, true)

menu-IsMenu : IsMenu (menu 0)
unfolding is_enabled
menu-IsMenu = record {
  counted = omega arith;
  keyed = (λ h. refl, (λ h. cc h, (λ h. refl, (λ h. refl, tt))));
  on_item = refl;
  below_top = omega arith;
}

menu_at_two : IsMenu (menu 2)
unfolding is_enabled
menu_at_two = record {
  counted = omega arith;
  keyed = menu-IsMenu.keyed;
  on_item = refl;
  below_top = omega arith;
}

find_enabled_item-Nearest_example :
    NearestBelow (menu 0).items (pos 2) (find_enabled_item (menu 0) (pos 2) (negsuc 0))
    × NearestAbove (menu 0).items (pos 2) (find_enabled_item (menu 0) (pos 2) (pos 1))
find_enabled_item-Nearest_example = find_enabled_item-Nearest (menu 0) (pos 2)

menu_keyevent-IsMenus_example :
    IsMenus (menu_keyevent display closing false (letter 0x62) gui).menus
menu_keyevent-IsMenus_example =
    menu_keyevent-IsMenus display closing (λ f p x y g h. h) false (letter 0x62) gui
      (menu-IsMenu, tt)

menu_down-menu_up_example :
    ((k : ℕ) × (cursor (menu_up display (menu 2 ∷ [])) ≡ some k) × (0 ≤ k) × (k < 2))
    × (cursor (menu_down display (menu_up display (menu 2 ∷ []))) ≡ some 2)
unfolding is_enabled
menu_down-menu_up_example = menu_down-menu_up display (menu 2) [] 0 menu_at_two (omega arith) refl

menu_end-hidden_example :
    (cursor (menu_end display (menu 0 ∷ [])) ≡ some 3)
    × (shows_cursor (menu_end display (menu 0 ∷ [])) ≡ false)
unfolding is_enabled
menu_end-hidden_example =
    menu_end-hidden display (menu 0) [] 3 menu-IsMenu refl refl (omega arith) (omega arith)

message_box-IsMenu_example :
    IsMenu (new_message_box display 1 (0x45 ∷ []) (0x6d ∷ []))
    × IsSized (new_message_box display 1 (0x45 ∷ []) (0x6d ∷ []))
message_box-IsMenu_example = message_box-IsMenu display 1 (0x45 ∷ []) (0x6d ∷ [])
