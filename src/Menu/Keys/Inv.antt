-- ===== src/Menu/Keys/Inv.antt =====
-- The keys of the menus keep their invariant.
use yterm.Prelude.{
  ℕ, suc, ◌+◌, ◌≡◌, refl, Bool, true, false, Option, none, some, List, [], ◌∷◌, inl, inr,
  if◌then◌else◌, arith, ℤ, Bool-cases, Option-cases, get_elem?,
}
use yterm.Menu.{MenuItem, MenuWindow, Display, Gui, close_top_menu, menu_mark_all_dirty}
use yterm.Menu.Captions.{is_some}
use yterm.Menu.Cursor.Found.{enabled_at}
use yterm.Menu.Cursor.Placed.{Keyed, IsMenus, soiled-IsMenus, mark_dirty-IsMenus}
use yterm.Menu.Cursor.Moves.{
  visible-IsMenus, home-IsMenus, end-IsMenus, up-IsMenus, down-IsMenus, page_up-IsMenus,
  page_down-IsMenus,
}
use yterm.Keypad.{
  KeySym, return_key, space, escape, up, down, home, end_key, page_up, page_down, kp_enter,
}
use yterm.Menu.Keys.{
  Callback, run_item, menu_action, act_and_close, is_key, find_hotkey, cursor_key, menu_key, choose,
  menu_keyevent,
}

-- The item that a hot key finds.
found_hotkey :
    (its : List MenuItem) (c : ℕ) (k : KeySym) (i : ℕ)
    → Keyed its
    → find_hotkey its c k ≡ some i
    → (j : ℕ) × (i ≡ c + j) × (enabled_at its j ≡ true)
unfolding find_hotkey
found_hotkey [] c k i h e = absurd (ground arith)
found_hotkey (it ∷ its) c k i h e = elim (Bool-cases (is_key it.caption.hotkey k)) [
  | inl t ↦ (0, here t (rw t at e), h.0 (has_key it.caption.hotkey k t))
  | inr t ↦ later (found_hotkey its (c + 1) k i h.1 (rw t at e))
]
  where
    here : is_key it.caption.hotkey k ≡ true → some c ≡ some i → i ≡ c + 0
    here t e' = ground arith

    has_key : (o : Option ℕ) (k : KeySym) → is_key o k ≡ true → is_some o ≡ true
    has_key none k t = ground arith
    has_key (some c) k t = refl

    later :
        (j : ℕ) × (i ≡ c + 1 + j) × (enabled_at its j ≡ true)
        → (j : ℕ) × (i ≡ c + j) × (enabled_at (it ∷ its) j ≡ true)
    later (j, p, q) = (suc j, omega arith, q)

cursor_key-IsMenus :
    (d : Display) (k : KeySym) (ms : List MenuWindow) → IsMenus ms → IsMenus (cursor_key d k ms)
unfolding cursor_key
cursor_key-IsMenus d up ms h = up-IsMenus d ms h
cursor_key-IsMenus d down ms h = down-IsMenus d ms h
cursor_key-IsMenus d home ms h = home-IsMenus d ms h
cursor_key-IsMenus d end_key ms h = end-IsMenus d ms h
cursor_key-IsMenus d page_up ms h = page_up-IsMenus d ms h
cursor_key-IsMenus d page_down ms h = page_down-IsMenus d ms h
cursor_key-IsMenus d _ ms h = h

-- Proofs by cases on the menus go through the list.
close-IsMenus :
    (d : Display) (ms : List MenuWindow) (g : Gui)
    → IsMenus ms
    → IsMenus (close_top_menu d (record g { menus = ms })).menus
unfolding close_top_menu menu_mark_all_dirty
close-IsMenus d [] g h = tt
close-IsMenus d (m ∷ ms) g h = soiled-IsMenus ms h.1

-- The callbacks keep the invariant.
abbrev pub KeepsMenus : Callback → Type 0
KeepsMenus call =
    (f : ℕ) (p : Option ℕ) (x y : ℤ) (g : Gui) → IsMenus g.menus → IsMenus (call f p x y g).0.menus

module _ (d : Display) (call : Callback) (keeps : KeepsMenus call) where
  run_item-IsMenus :
      (m : MenuWindow) (it : MenuItem) (g : Gui)
      → IsMenus g.menus
      → IsMenus (run_item d call m it g).0.menus
  unfolding run_item
  run_item-IsMenus m it g h = elim (Option-cases it.after_action) [
    | inl e ↦ rw e (mark_dirty-IsMenus d g.menus h)
    | inr (f, e) ↦ rw e (keeps f it.varptr _ _ _ (mark_dirty-IsMenus d g.menus h))
  ]

  action-IsMenus :
      (ms : List MenuWindow) (g : Gui)
      → IsMenus ms
      → IsMenus (menu_action d call (record g { menus = ms })).0.menus
  unfolding menu_action
  action-IsMenus [] g h = tt
  action-IsMenus (m ∷ ms) g h = elim (Option-cases (get_elem? m.items m.curr_item)) [
    | inl e ↦ rw (e, menu_action) h
    | inr (it, e) ↦ rw (e, menu_action) (run_item-IsMenus m it (record g { menus = m ∷ ms }) h)
  ]

  close_if-IsMenus :
      (b : Bool) (g : Gui) → IsMenus g.menus → IsMenus (if b then close_top_menu d g else g).menus
  close_if-IsMenus true g h = close-IsMenus d g.menus g h
  close_if-IsMenus false g h = h

  act-IsMenus : (g : Gui) → IsMenus g.menus → IsMenus (act_and_close d call g).menus
  unfolding act_and_close
  act-IsMenus g h =
      close_if-IsMenus (menu_action d call g).1 (menu_action d call g).0
        (action-IsMenus g.menus g h)

  choose-IsMenus :
      (m : MenuWindow) (ms : List MenuWindow) (g : Gui) (i : ℕ)
      → IsMenus (m ∷ ms)
      → enabled_at m.items i ≡ true
      → IsMenus (choose d call i (record g { menus = m ∷ ms })).menus
  unfolding choose
  choose-IsMenus m ms g i h e =
      act-IsMenus _ (mark_dirty-IsMenus d _ (visible-IsMenus d m ms i h e))

  menu_key-IsMenus : (k : KeySym) (g : Gui) → IsMenus g.menus → IsMenus (menu_key d call k g).menus
  unfolding menu_key
  menu_key-IsMenus return_key g h = act-IsMenus g h
  menu_key-IsMenus kp_enter g h = act-IsMenus g h
  menu_key-IsMenus space g h = act-IsMenus g h
  menu_key-IsMenus escape g h = close-IsMenus d g.menus g h
  menu_key-IsMenus k g h = cursor_key-IsMenus d k g.menus h

  keyevent-IsMenus :
      (numlock : Bool) (k : KeySym) (ms : List MenuWindow) (g : Gui)
      → IsMenus ms
      → IsMenus (menu_keyevent d call numlock k (record g { menus = ms })).menus
  unfolding menu_keyevent
  keyevent-IsMenus numlock k [] g h = tt
  keyevent-IsMenus numlock k (m ∷ ms) g h = elim (Option-cases (find_hotkey m.items 0 k)) [
    | inl e ↦ rw (e, menu_keyevent) (menu_key-IsMenus _ (record g { menus = m ∷ ms }) h)
    | inr (i, e) ↦
        let (j, p, q) = found_hotkey m.items 0 k i h.0.keyed e in
        rw (e, menu_keyevent) (choose-IsMenus m ms g i h (ground (arith, p, q)))
  ]

  -- On every key, `x11_menu_keyevent` keeps the invariant of the menus, if the callbacks keep it: in
  -- each open menu the items with hot keys are enabled, the cursor stands on an enabled item, and the
  -- first line shown is not below the cursor.
  pub menu_keyevent-IsMenus :
      (numlock : Bool) (k : KeySym) (g : Gui)
      → IsMenus g.menus
      → IsMenus (menu_keyevent d call numlock k g).menus
  menu_keyevent-IsMenus numlock k g h = keyevent-IsMenus numlock k g.menus g h
