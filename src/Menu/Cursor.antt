-- ===== src/Menu/Cursor.antt =====
-- osd_menu.inc.c: the cursor of a menu. A function on a menu takes the list of the menu and of those
-- along its `prev`, which it may mark as dirty; NULL is the empty list. The height of a menu is at
-- least 2.
pub mod Found
pub mod Placed
pub mod Moves
pub mod Steps
use yterm.Prelude.{
  ℕ, ◌+◌, ◌-◌, min, max, Bool, true, false, ◌&&◌, ◌||◌, not, Option, none, some, List, [], ◌∷◌, ltb,
  ◌==◌, if◌then◌else◌, ℤ, pos, negsuc, ◌+ℤ◌, ◌-ℤ◌, ltb_ℤ, clamp,
}
use yterm.Menu.{MenuKind, label, MenuItem, MenuWindow, Display, menu_mark_dirty}
use yterm.Menu.Captions.{is_some}

abbrev pub is_label : MenuKind → Bool
is_label label = true
is_label _ = false

-- `menu_is_enabled`.
unfoldable pub is_enabled : MenuItem → Bool
is_enabled it = not (is_label it.kind) || is_some it.after_action

-- The three loops of `menu_find_enabled_item_at_dir`; -1 is `none`.
unfoldable pub find_below : List MenuItem → ℕ → ℤ → Option ℕ → Option ℕ
find_below [] cidx p res = res
find_below (it ∷ its) cidx p res =
    let rest = find_below its (cidx + 1) p (if is_enabled it then some cidx else res) in
    if ltb_ℤ (pos cidx) p then rest else res

unfoldable pub find_above : List MenuItem → ℕ → ℤ → Option ℕ
find_above [] cidx p = none
find_above (it ∷ its) cidx p =
    let rest = find_above its (cidx + 1) p in
    if ltb_ℤ p (pos cidx) && is_enabled it then some cidx else rest

unfoldable pub find_at : List MenuItem → ℕ → ℤ → Option ℕ
find_at [] cidx p = none
find_at (it ∷ its) cidx p =
    let rest = find_at its (cidx + 1) p in
    if not (ltb_ℤ (pos cidx) p || ltb_ℤ p (pos cidx))
    then if is_enabled it then some cidx else none
    else rest

-- `menu_find_enabled_item_at_dir`.
unfoldable pub find_enabled_item : MenuWindow → ℤ → ℤ → Option ℕ
find_enabled_item m p (negsuc _) = find_below m.items 0 p none
find_enabled_item m p (pos dir) = if dir == 0 then find_at m.items 0 p else find_above m.items 0 p

-- `menu_make_cursor_visible`.
unfoldable pub make_cursor_visible : Display → List MenuWindow → List MenuWindow
make_cursor_visible d [] = []
make_cursor_visible d (m ∷ ms) =
    let curr = clamp (pos m.curr_item) 0 (m.items_count - 1) in
    let top = max (curr - (m.items_count + 1)) (min m.top_item curr) in
    let shown = record m { curr_item = curr; top_item = top } ∷ ms in
    if m.items_count == 0
    then m ∷ ms
    else if not (curr == m.curr_item) || not (top == m.top_item)
    then menu_mark_dirty d shown
    else shown

-- What the functions below do with the item that they found.
unfoldable pub move_to : Display → Option ℕ → List MenuWindow → List MenuWindow
move_to d none ms = ms
move_to d (some cidx) [] = []
move_to d (some cidx) (m ∷ ms) =
    if cidx == m.curr_item
    then m ∷ ms
    else make_cursor_visible d (menu_mark_dirty d (record m { curr_item = cidx } ∷ ms))

-- `menu_home`, `menu_end`, `menu_up` and `menu_down`.
unfoldable pub menu_home : Display → List MenuWindow → List MenuWindow
menu_home d [] = []
menu_home d (m ∷ ms) = move_to d (find_enabled_item m (negsuc 0) (pos 1)) (m ∷ ms)

unfoldable pub menu_end : Display → List MenuWindow → List MenuWindow
menu_end d [] = []
menu_end d (m ∷ ms) = move_to d (find_enabled_item m (pos m.items_count) (negsuc 0)) (m ∷ ms)

unfoldable pub menu_up : Display → List MenuWindow → List MenuWindow
menu_up d [] = []
menu_up d (m ∷ ms) = move_to d (find_enabled_item m (pos m.curr_item) (negsuc 0)) (m ∷ ms)

unfoldable pub menu_down : Display → List MenuWindow → List MenuWindow
menu_down d [] = []
menu_down d (m ∷ ms) = move_to d (find_enabled_item m (pos m.curr_item) (pos 1)) (m ∷ ms)

-- The second search of `menu_page_up` and `menu_page_down`.
abbrev pub or_else : Option ℕ → Option ℕ → Option ℕ
or_else none o = o
or_else (some i) o = some i

-- `menu_page_up`: the line that it aims at, and the move.
unfoldable pub page_up_line : MenuWindow → ℕ
page_up_line m =
    let line = if m.curr_item == m.top_item then m.curr_item + 2 - m.height else m.top_item in
    clamp (pos line) 0 (m.items_count - 1)

unfoldable pub menu_page_up : Display → List MenuWindow → List MenuWindow
menu_page_up d [] = []
menu_page_up d (m ∷ ms) =
    let line = page_up_line m in
    let near = find_enabled_item m (pos (line + 1)) (negsuc 0) in
    let far = find_enabled_item m (pos line -ℤ pos 1) (negsuc 0) in
    if m.items_count == 0 then m ∷ ms else move_to d (or_else near far) (m ∷ ms)

-- `menu_page_down`.
unfoldable pub page_down_line : MenuWindow → ℕ
page_down_line m =
    let last = m.top_item + (m.height - 2) in
    let line = if m.curr_item == last then m.curr_item + (m.height - 2) else last in
    clamp (pos line) 0 (m.items_count - 1)

unfoldable pub menu_page_down : Display → List MenuWindow → List MenuWindow
menu_page_down d [] = []
menu_page_down d (m ∷ ms) =
    let line = page_down_line m in
    let near = find_enabled_item m (pos line -ℤ pos 1) (pos 1) in
    let far = find_enabled_item m (pos (line + 1)) (negsuc 0) in
    if m.items_count == 0 then m ∷ ms else move_to d (or_else near far) (m ∷ ms)
