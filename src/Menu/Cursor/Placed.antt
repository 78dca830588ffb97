-- ===== src/Menu/Cursor/Placed.antt =====
-- The cursor of a menu put on an item, and shown.
use yterm.Prelude.{
  ℕ, zero, suc, ◌+◌, ◌-◌, ◌≤◌, ◌<◌, min, max, ◌≡◌, refl, ap, sym, true, false, not, some, List, [],
  ◌∷◌, map, inl, inr, ◌==◌, if◌then◌else◌, pos, clamp, arith, Bool-cases, length,
}
use yterm.Menu.{MenuItem, MenuWindow, Display, soiled, menu_mark_dirty}
use yterm.Menu.Captions.{is_some}
use yterm.Menu.Cursor.{is_enabled, make_cursor_visible, move_to}
use yterm.Menu.Cursor.Found.{enabled_at}

-- Items with a hot key are enabled.
abbrev pub Keyed : List MenuItem → Type 0
Keyed [] = Unit
Keyed (it ∷ its) = (is_some it.caption.hotkey ≡ true → is_enabled it ≡ true) × Keyed its

-- The items are counted, those with hot keys are enabled, the cursor is on an enabled one, and not
-- above the first line shown.
pub record IsMenu (m : MenuWindow) : Type 0 where
  pub counted : m.items_count ≡ length m.items
  pub keyed : Keyed m.items
  pub on_item : enabled_at m.items m.curr_item ≡ true
  pub below_top : m.top_item ≤ m.curr_item

abbrev pub IsMenus : List MenuWindow → Type 0
IsMenus [] = Unit
IsMenus (m ∷ ms) = IsMenu m × IsMenus ms

enabled_at-lt : (its : List MenuItem) (i : ℕ) → enabled_at its i ≡ true → i < length its
enabled_at-lt [] i h = absurd (ground arith)
enabled_at-lt (it ∷ its) zero h = omega arith
enabled_at-lt (it ∷ its) (suc i) h = omega (arith, enabled_at-lt its i h)

map-soiled : (ms : List MenuWindow) → map soiled (map soiled ms) ≡ map soiled ms
map-soiled [] = refl
map-soiled (m ∷ ms) = ap (λ l. soiled m ∷ l) (map-soiled ms)

pub soiled-IsMenu : (m : MenuWindow) → IsMenu m → IsMenu (soiled m)
soiled-IsMenu m h = record {
  counted = h.counted;
  keyed = h.keyed;
  on_item = h.on_item;
  below_top = h.below_top;
}

pub soiled-IsMenus : (ms : List MenuWindow) → IsMenus ms → IsMenus (map soiled ms)
soiled-IsMenus [] h = tt
soiled-IsMenus (m ∷ ms) (h, hs) = (soiled-IsMenu m h, soiled-IsMenus ms hs)

mark_dirty_twice :
    (d : Display) (ms : List MenuWindow)
    → menu_mark_dirty d (menu_mark_dirty d ms) ≡ menu_mark_dirty d ms
unfolding menu_mark_dirty
mark_dirty_twice d [] = refl
mark_dirty_twice d (m ∷ ms) = elim (Bool-cases d.shadows) [
  | inl e ↦ rw (e, map-soiled ms)
  | inr e ↦ rw e
]

pub mark_dirty-IsMenus :
    (d : Display) (ms : List MenuWindow) → IsMenus ms → IsMenus (menu_mark_dirty d ms)
unfolding menu_mark_dirty
mark_dirty-IsMenus d [] h = tt
mark_dirty-IsMenus d (m ∷ ms) h = elim (Bool-cases d.shadows) [
  | inl e ↦ rw e (soiled-IsMenus (m ∷ ms) h)
  | inr e ↦ rw e (soiled-IsMenu m h.0, h.1)
]

-- The menu with its cursor on item `i`, and the first line shown not below it.
abbrev pub placed : MenuWindow → ℕ → MenuWindow
placed m i = record m { curr_item = i; top_item = min m.top_item i }

pub placed-IsMenu :
    (m : MenuWindow) (i : ℕ) → IsMenu m → enabled_at m.items i ≡ true → IsMenu (placed m i)
placed-IsMenu m i h e = record {
  counted = h.counted;
  keyed = h.keyed;
  on_item = e;
  below_top = omega arith;
}

pub parents : Display → List MenuWindow → List MenuWindow
parents d ms = if d.shadows then map soiled ms else ms

pub mark_dirty-cons :
    (d : Display) (m : MenuWindow) (ms : List MenuWindow)
    → menu_mark_dirty d (m ∷ ms) ≡ soiled m ∷ parents d ms
unfolding menu_mark_dirty parents
mark_dirty-cons d m ms = elim (Bool-cases d.shadows) [ inl e ↦ rw e | inr e ↦ rw e ]

-- `menu_make_cursor_visible` of a menu whose cursor is on an item.
pub visible_lem :
    (d : Display) (m : MenuWindow) (ms : List MenuWindow)
    → m.curr_item < m.items_count
    → make_cursor_visible d (m ∷ ms) ≡ (
        if not (min m.top_item m.curr_item == m.top_item)
        then menu_mark_dirty d (placed m m.curr_item ∷ ms)
        else placed m m.curr_item ∷ ms)
unfolding make_cursor_visible
visible_lem d m ms h =
    let none : (m.items_count == 0) ≡ false = ground arith in
    let curr : clamp (pos m.curr_item) 0 (m.items_count - 1) ≡ m.curr_item = ground arith in
    let top : max (m.curr_item - (m.items_count + 1)) (min m.top_item m.curr_item)
        ≡ min m.top_item m.curr_item =
      omega arith in
    let same : (m.curr_item == m.curr_item) ≡ true = ground arith in rw (none, curr, top, same)

pub make_cursor_visible-dirty :
    (d : Display) (m : MenuWindow) (ms : List MenuWindow)
    → m.curr_item < m.items_count
    → make_cursor_visible d (menu_mark_dirty d (m ∷ ms))
      ≡ menu_mark_dirty d (placed m m.curr_item ∷ ms)
make_cursor_visible-dirty d m ms h =
    rw (mark_dirty-cons d m ms, visible_lem d (soiled m) (parents d ms) h)
      (elim (Bool-cases (min m.top_item m.curr_item == m.top_item)) [
        | inl e ↦ rw e (sym (mark_dirty-cons d (placed m m.curr_item) ms))
        | inr e ↦ rw e (twice)
      ])
  where
    twice :
        menu_mark_dirty d (soiled (placed m m.curr_item) ∷ parents d ms)
        ≡ menu_mark_dirty d (placed m m.curr_item ∷ ms)
    twice =
        rw (← mark_dirty-cons d (placed m m.curr_item) ms)
          (mark_dirty_twice d (placed m m.curr_item ∷ ms))

pub move_to_lem :
    (d : Display) (m : MenuWindow) (ms : List MenuWindow) (i : ℕ)
    → i < m.items_count
    → (i == m.curr_item) ≡ false
    → move_to d (some i) (m ∷ ms) ≡ menu_mark_dirty d (placed m i ∷ ms)
unfolding move_to
move_to_lem d m ms i h e = rw e (make_cursor_visible-dirty d (record m { curr_item = i }) ms h)

pub in_count : (m : MenuWindow) (i : ℕ) → IsMenu m → enabled_at m.items i ≡ true → i < m.items_count
in_count m i h e = omega (arith, enabled_at-lt m.items i e, h.counted)
