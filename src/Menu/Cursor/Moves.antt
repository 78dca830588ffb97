-- ===== src/Menu/Cursor/Moves.antt =====
-- The movements of the cursor: it stands on an enabled item.
use yterm.Prelude.{
  ℕ, min, ◌≡◌, refl, true, Option, none, some, List, [], ◌∷◌, inl, inr, ◌==◌, ℤ, pos, negsuc, arith,
  Bool-cases,
}
use yterm.Menu.{MenuWindow, Display, menu_mark_dirty}
use yterm.Menu.Cursor.{
  find_enabled_item, make_cursor_visible, move_to, menu_home, menu_end, menu_up, menu_down, or_else,
  menu_page_up, menu_page_down,
}
use yterm.Menu.Cursor.Found.{enabled_at, NearestBelow, NearestAbove, find_enabled_item-Nearest}
use yterm.Menu.Cursor.Placed.{
  IsMenus, placed, placed-IsMenu, visible_lem, mark_dirty-IsMenus, move_to_lem, in_count,
}

-- The searches give enabled items.
abbrev Enabled : MenuWindow → Option ℕ → Type 0
Enabled m o = (i : ℕ) → o ≡ some i → enabled_at m.items i ≡ true

Enabled-below : (m : MenuWindow) (p : ℤ) (o : Option ℕ) → NearestBelow m.items p o → Enabled m o
Enabled-below m p none h i e = absurd (ground arith)
Enabled-below m p (some j) h i e = let same : i ≡ j = ground arith in rw same h.1

Enabled-above : (m : MenuWindow) (p : ℤ) (o : Option ℕ) → NearestAbove m.items p o → Enabled m o
Enabled-above m p none h i e = absurd (ground arith)
Enabled-above m p (some j) h i e = let same : i ≡ j = ground arith in rw same h.1

found_up : (m : MenuWindow) (p : ℤ) → Enabled m (find_enabled_item m p (negsuc 0))
found_up m p = Enabled-below m p _ (find_enabled_item-Nearest m p).0

found_down : (m : MenuWindow) (p : ℤ) → Enabled m (find_enabled_item m p (pos 1))
found_down m p = Enabled-above m p _ (find_enabled_item-Nearest m p).1

or_else-Enabled :
    (m : MenuWindow) (o r : Option ℕ) → Enabled m o → Enabled m r → Enabled m (or_else o r)
or_else-Enabled m none r h k = k
or_else-Enabled m (some i) r h k = h

placed-IsMenus :
    (d : Display) (m : MenuWindow) (ms : List MenuWindow) (i : ℕ)
    → IsMenus (m ∷ ms)
    → enabled_at m.items i ≡ true
    → IsMenus (menu_mark_dirty d (placed m i ∷ ms))
placed-IsMenus d m ms i h e = mark_dirty-IsMenus d (placed m i ∷ ms) (placed-IsMenu m i h.0 e, h.1)

move_to-IsMenus :
    (d : Display) (m : MenuWindow) (ms : List MenuWindow) (o : Option ℕ)
    → Enabled m o
    → IsMenus (m ∷ ms)
    → IsMenus (move_to d o (m ∷ ms))
move_to-IsMenus d m ms none e h = unfold move_to in h
move_to-IsMenus d m ms (some i) e h = elim (Bool-cases (i == m.curr_item)) [
  | inl same ↦ unfold move_to in rw same h
  | inr other ↦
      rw (move_to_lem d m ms i (in_count m i h.0 (e i refl)) other)
        (placed-IsMenus d m ms i h (e i refl))
]

-- `menu_make_cursor_visible` after the cursor was put on an enabled item.
pub visible-IsMenus :
    (d : Display) (m : MenuWindow) (ms : List MenuWindow) (i : ℕ)
    → IsMenus (m ∷ ms)
    → enabled_at m.items i ≡ true
    → IsMenus (make_cursor_visible d (record m { curr_item = i } ∷ ms))
visible-IsMenus d m ms i h e =
    rw (visible_lem d (record m { curr_item = i }) ms (in_count m i h.0 e))
      (elim (Bool-cases (min m.top_item i == m.top_item)) [
        | inl t ↦ rw t (placed-IsMenu m i h.0 e, h.1)
        | inr t ↦ rw t (placed-IsMenus d m ms i h e)
      ])

pub home-IsMenus : (d : Display) (ms : List MenuWindow) → IsMenus ms → IsMenus (menu_home d ms)
unfolding menu_home
home-IsMenus d [] h = tt
home-IsMenus d (m ∷ ms) h = move_to-IsMenus d m ms _ (found_down m _) h

pub end-IsMenus : (d : Display) (ms : List MenuWindow) → IsMenus ms → IsMenus (menu_end d ms)
unfolding menu_end
end-IsMenus d [] h = tt
end-IsMenus d (m ∷ ms) h = move_to-IsMenus d m ms _ (found_up m _) h

pub up-IsMenus : (d : Display) (ms : List MenuWindow) → IsMenus ms → IsMenus (menu_up d ms)
unfolding menu_up
up-IsMenus d [] h = tt
up-IsMenus d (m ∷ ms) h = move_to-IsMenus d m ms _ (found_up m _) h

pub down-IsMenus : (d : Display) (ms : List MenuWindow) → IsMenus ms → IsMenus (menu_down d ms)
unfolding menu_down
down-IsMenus d [] h = tt
down-IsMenus d (m ∷ ms) h = move_to-IsMenus d m ms _ (found_down m _) h

pub page_up-IsMenus :
    (d : Display) (ms : List MenuWindow) → IsMenus ms → IsMenus (menu_page_up d ms)
unfolding menu_page_up
page_up-IsMenus d [] h = tt
page_up-IsMenus d (m ∷ ms) h = elim (Bool-cases (m.items_count == 0)) [
  | inl e ↦ rw e h
  | inr e ↦ rw e (move_to-IsMenus d m ms _ (or_else-Enabled m _ _ (found_up m _) (found_up m _)) h)
]

pub page_down-IsMenus :
    (d : Display) (ms : List MenuWindow) → IsMenus ms → IsMenus (menu_page_down d ms)
unfolding menu_page_down
page_down-IsMenus d [] h = tt
page_down-IsMenus d (m ∷ ms) h = elim (Bool-cases (m.items_count == 0)) [
  | inl e ↦ rw e h
  | inr e ↦
      rw e (move_to-IsMenus d m ms _ (or_else-Enabled m _ _ (found_down m _) (found_up m _)) h)
]
