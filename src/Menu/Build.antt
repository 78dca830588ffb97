-- ===== src/Menu/Build.antt =====
-- osd_menu.inc.c: items are added to a menu, and the message box.
pub mod Built
use yterm.Prelude.{
  ℕ, ◌+◌, Bool, true, false, ◌&&◌, not, Option, none, some, List, [], ◌∷◌, if◌then◌else◌, pos,
}
use yterm.Menu.{
  MenuKind, label, submenu, boolean, three_way, bit_flag, MenuItem, MenuWindow, Display,
  menu_new_window, append_item, menu_center,
}
use yterm.Menu.Captions.{Caption, no_caption, caption_new, is_some}
use yterm.Menu.Cursor.{is_label}

-- The caption of `menu_add_label_ex`; NULL is `none`.
abbrev pub text_of : Option (List ℕ) → List ℕ
text_of none = []
text_of (some s) = s

unfoldable pub label_caption : Option (List ℕ) → MenuKind → Option ℕ → Caption
label_caption text kind action =
    if is_label kind && not (is_some action) && not (is_some text)
    then record no_caption { hotpos = some 0 }
    else caption_new (text_of text) (is_some action)

-- `menu_add_label_ex`, with a label or a submenu.
unfoldable pub add_label_ex : Option (List ℕ) → MenuKind → Option ℕ → MenuWindow → MenuWindow
add_label_ex text kind action m =
    let it : MenuItem = record {
      caption = label_caption text kind action;
      kind = kind;
      varptr = none;
      mask = 0;
      after_action = action;
    } in
    append_item (if is_label kind then 0 else 2) it m

unfoldable pub add_label : Option (List ℕ) → Option ℕ → MenuWindow → MenuWindow
add_label text action m = add_label_ex text label action m

unfoldable pub add_submenu : Option (List ℕ) → Option ℕ → MenuWindow → MenuWindow
add_submenu text action m = add_label_ex text submenu action m

-- `menu_add_var_ex`, with one of the kinds that show a variable.
unfoldable pub add_var_ex : List ℕ → Option ℕ → MenuKind → ℕ → Option ℕ → MenuWindow → MenuWindow
add_var_ex text varptr kind mask action m =
    let it : MenuItem = record {
      caption = caption_new text true;
      kind = kind;
      varptr = varptr;
      mask = mask;
      after_action = action;
    } in
    append_item 4 it m

unfoldable pub add_bool : List ℕ → Option ℕ → Option ℕ → MenuWindow → MenuWindow
add_bool text varptr action m = add_var_ex text varptr boolean 0 action m

unfoldable pub add_3bool : List ℕ → Option ℕ → Option ℕ → MenuWindow → MenuWindow
add_3bool text varptr action m = add_var_ex text varptr three_way 0 action m

unfoldable pub add_bitbool32 : List ℕ → Option ℕ → ℕ → Option ℕ → MenuWindow → MenuWindow
add_bitbool32 text varptr mask action m = add_var_ex text varptr bit_flag mask action m

-- "&Close".
abbrev pub close_text : List ℕ
close_text = 0x26 ∷ 0x43 ∷ 0x6c ∷ 0x6f ∷ 0x73 ∷ 0x65 ∷ []

abbrev pub is_empty_text : List ℕ → Bool
is_empty_text [] = true
is_empty_text (_ ∷ _) = false

-- `menu_new_message_box`; `close` names menu_msgbox_close_cb.
unfoldable pub message_items : ℕ → List ℕ → MenuWindow → MenuWindow
message_items close message m =
    if is_empty_text message
    then add_label (some close_text) (some close) m
    else add_label (some close_text) (some close)
        (record (add_label none none (add_label (some message) none m)) { curr_item = 2 })

unfoldable pub new_message_box : Display → ℕ → List ℕ → List ℕ → MenuWindow
unfolding message_items
new_message_box d close title message =
    menu_center d
      (message_items close message (menu_new_window d (pos 0) (pos 0) title (pos 0) (pos 0)))
