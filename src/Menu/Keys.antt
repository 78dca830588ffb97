-- ===== src/Menu/Keys.antt =====
-- osd_menu.inc.c, menu_action; menus.inc.c, x11_menu_keyevent. What a callback does is an argument, `call`.
pub mod Inv
use yterm.Prelude.{
  ℕ, zero, suc, ◌+◌, ◌-◌, ◌%◌, ◌^◌, bit_xor, Bool, true, false, ◌&&◌, ◌||◌, not, Option, none, some,
  List, [], ◌∷◌, ltb, leb, ◌==◌, if◌then◌else◌, ℤ, pos, ◌+ℤ◌, ◌-ℤ◌, get_elem?,
}
use yterm.Keypad.{
  KeySym, letter, return_key, space, escape, up, down, home, end_key, page_up, page_down, kp_enter,
  translate_keypad,
}
use yterm.Menu.{
  MenuKind, label, submenu, boolean, three_way, bit_flag, MenuItem, MenuWindow, Display, Gui,
  menu_mark_dirty, close_top_menu,
}
use yterm.Menu.Cursor.{
  make_cursor_visible, menu_home, menu_end, menu_up, menu_down, menu_page_up, menu_page_down,
}

-- What `menu_action` stores to the variable of an item, by its kind: 32 bits as an `int` or a
-- `uint32_t`.
unfoldable pub next_value : MenuKind → ℕ → ℕ → ℕ
next_value label mask v = v
next_value submenu mask v = v
next_value boolean mask v = if v == 0 then 1 else 0
next_value three_way mask v = if leb 1 v && ltb v (2 ^ 31) then 2 ^ 32 - 1 else (v + 1) % 2 ^ 32
next_value bit_flag mask v = bit_xor v mask

abbrev pub update : (ℕ → ℕ) → ℕ → ℕ → ℕ → ℕ
update vars p v q = if q == p then v else vars q

unfoldable pub change_var : MenuItem → (ℕ → ℕ) → ℕ → ℕ
change_var it vars = elim it.varptr [
  | none ↦ vars
  | some p ↦ update vars p (next_value it.kind it.mask (vars p))
]

-- A callback: its name, the address of the variable and the place for a submenu.
abbrev pub Callback : Type 0
Callback = ℕ → Option ℕ → ℤ → ℤ → Gui → Gui × Bool

module _ (d : Display) (call : Callback) where
  unfoldable pub run_item : MenuWindow → MenuItem → Gui → Gui × Bool
  run_item m it g =
      let sx = m.x0 +ℤ m.width -ℤ pos 3 in
      let sy = m.y0 +ℤ pos 1 +ℤ (pos m.curr_item -ℤ pos m.top_item) in
      let g' : Gui = record g { vars = change_var it g.vars; menus = menu_mark_dirty d g.menus } in
      elim it.after_action [ none ↦ (g', false) | some f ↦ call f it.varptr sx sy g' ]

  -- `menu_action`, of the top menu.
  unfoldable pub menu_action : Gui → Gui × Bool
  unfolding run_item
  menu_action g = elim g.menus [
    | [] ↦ (g, false)
    | m ∷ ms ↦ elim (get_elem? m.items m.curr_item) [
      | none ↦ (g, false)
      | some it ↦ run_item m it g
    ]
  ]

  -- `if (menu_action(menu)) close_top_menu(); force_frame_redraw(1);`
  unfoldable pub act_and_close : Gui → Gui
  act_and_close g =
      let (g', close) = menu_action g in
      record (if close then close_top_menu d g' else g') { redraw = true }

-- The first item with the hot key.
abbrev is_key : Option ℕ → KeySym → Bool
is_key (some c) (letter k) = c == k
is_key _ _ = false

unfoldable pub find_hotkey : List MenuItem → ℕ → KeySym → Option ℕ
find_hotkey [] cidx k = none
find_hotkey (it ∷ its) cidx k =
    let rest = find_hotkey its (cidx + 1) k in
    if is_key it.caption.hotkey k then some cidx else rest

-- The cursor keys, and the redraw at the end of `x11_menu_keyevent`.
unfoldable pub cursor_key : Display → KeySym → List MenuWindow → List MenuWindow
cursor_key d up ms = menu_up d ms
cursor_key d down ms = menu_down d ms
cursor_key d home ms = menu_home d ms
cursor_key d end_key ms = menu_end d ms
cursor_key d page_up ms = menu_page_up d ms
cursor_key d page_down ms = menu_page_down d ms
cursor_key d _ ms = ms

unfoldable pub any_dirty : List MenuWindow → Bool
any_dirty [] = false
any_dirty (m ∷ ms) = m.dirty || any_dirty ms

abbrev is_empty : List MenuWindow → Bool
is_empty [] = true
is_empty (_ ∷ _) = false

move_cursor : Display → KeySym → Gui → Gui
move_cursor d k g =
    let ms = cursor_key d k g.menus in
    record g { menus = ms; redraw = g.redraw || is_empty ms || any_dirty ms }

-- The `switch` of `x11_menu_keyevent`.
unfoldable pub menu_key : Display → Callback → KeySym → Gui → Gui
unfolding move_cursor
menu_key d call return_key g = act_and_close d call g
menu_key d call kp_enter g = act_and_close d call g
menu_key d call space g = act_and_close d call g
menu_key d call escape g = close_top_menu d g
menu_key d call k g = move_cursor d k g

-- The item with the hot key is chosen.
unfoldable pub choose : Display → Callback → ℕ → Gui → Gui
choose d call i g = elim g.menus [
  | [] ↦ g
  | m ∷ ms ↦
      let shown = make_cursor_visible d (record m { curr_item = i } ∷ ms) in
      act_and_close d call (record g { menus = menu_mark_dirty d shown })
]

-- `x11_menu_keyevent`; `numlock` is the state Mod2Mask.
unfoldable pub menu_keyevent : Display → Callback → Bool → KeySym → Gui → Gui
menu_keyevent d call numlock k g = elim g.menus [
  | [] ↦ g
  | m ∷ ms ↦ elim (find_hotkey m.items 0 k) [
    | some i ↦ choose d call i g
    | none ↦ menu_key d call (if numlock then k else translate_keypad k) g
  ]
]
