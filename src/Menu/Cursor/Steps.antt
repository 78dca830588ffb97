-- ===== src/Menu/Cursor/Steps.antt =====
-- Up and down again, and the line that the menu starts with.
use yterm.Prelude.{
  ℕ, ◌+◌, ◌-◌, ◌≤◌, ◌<◌, ◌≡◌, refl, ap, ◌∙◌, Bool, true, false, ◌&&◌, leb, Option, none, some, List,
  [], ◌∷◌, inl, inr, ◌≢◌, ltb, pos, negsuc, arith, Bool-cases,
}
use yterm.Menu.{MenuItem, MenuWindow, Display, soiled}
use yterm.Menu.Cursor.{find_enabled_item, move_to, menu_end, menu_up, menu_down}
use yterm.Menu.Cursor.Found.{enabled_at, NearestBelow, NearestAbove, find_enabled_item-Nearest}
use yterm.Menu.Cursor.Placed.{
  IsMenu, placed, move_to_lem, in_count, parents, mark_dirty-cons, placed-IsMenu, soiled-IsMenu,
}

-- Whether the item of the cursor is among those between the borders of the top menu.
abbrev pub shows_cursor : List MenuWindow → Bool
shows_cursor [] = false
shows_cursor (m ∷ _) = leb m.top_item m.curr_item && ltb m.curr_item (m.top_item + (m.height - 2))

abbrev pub cursor : List MenuWindow → Option ℕ
cursor [] = none
cursor (m ∷ _) = some m.curr_item

clash : {b : Bool} → b ≡ false → b ≡ true → ⊥
clash p q = cc

-- A search that knows where an enabled item is, and that none is between it and the position.
nearest_below :
    (its : List MenuItem) (c i : ℕ) (o : Option ℕ)
    → NearestBelow its (pos c) o
    → i < c
    → enabled_at its i ≡ true
    → (k : ℕ) × (o ≡ some k)
      × (i ≤ k)
      × (k < c)
      × (enabled_at its k ≡ true)
      × ((j : ℕ) → k < j → j < c → enabled_at its j ≡ false)
nearest_below its c i none h l e = absurd (clash (h i (ground arith)) e)
nearest_below its c i (some k) h l e = elim (Bool-cases (ltb k i)) [
  | inl t ↦ absurd (clash (h.2 i (ground arith) (ground arith)) e)
  | inr t ↦ (k, refl, ground arith, ground (arith, h.0), h.1, λ j a b. h.2 j a (ground arith))
]

nearest_above :
    (its : List MenuItem) (k c : ℕ) (o : Option ℕ)
    → NearestAbove its (pos k) o
    → k < c
    → enabled_at its c ≡ true
    → ((j : ℕ) → k < j → j < c → enabled_at its j ≡ false)
    → o ≡ some c
nearest_above its k c none h l e none_between = absurd (clash (h c (ground arith)) e)
nearest_above its k c (some j) h l e none_between = elim (Bool-cases (ltb c j)) [
  | inl t ↦ absurd (clash (h.2 c (ground arith) (ground arith)) e)
  | inr t ↦ elim (Bool-cases (ltb j c)) [
    | inl u ↦ absurd (clash (none_between j (ground (arith, h.0)) (ground arith)) h.1)
    | inr u ↦ ground arith
  ]
]

arrive :
    (d : Display) (m : MenuWindow) (ms : List MenuWindow) (i : ℕ)
    → IsMenu m
    → enabled_at m.items i ≡ true
    → i ≢ m.curr_item
    → move_to d (some i) (m ∷ ms) ≡ soiled (placed m i) ∷ parents d ms
arrive d m ms i h e ne =
    rw (move_to_lem d m ms i (in_count m i h e) (ground arith)) (mark_dirty-cons d (placed m i) ms)

up_arrives :
    (d : Display) (m : MenuWindow) (ms : List MenuWindow) (k : ℕ)
    → IsMenu m
    → find_enabled_item m (pos m.curr_item) (negsuc 0) ≡ some k
    → enabled_at m.items k ≡ true
    → k < m.curr_item
    → menu_up d (m ∷ ms) ≡ soiled (placed m k) ∷ parents d ms
unfolding menu_up
up_arrives d m ms k h p on l =
    ap (λ o. move_to d o (m ∷ ms)) p ∙ arrive d m ms k h on (λ e. absurd (omega arith))

down_arrives :
    (d : Display) (m : MenuWindow) (ms : List MenuWindow) (k : ℕ)
    → IsMenu m
    → find_enabled_item m (pos m.curr_item) (pos 1) ≡ some k
    → enabled_at m.items k ≡ true
    → m.curr_item < k
    → cursor (menu_down d (m ∷ ms)) ≡ some k
unfolding menu_down
down_arrives d m ms k h p on l =
    ap (λ o. cursor (move_to d o (m ∷ ms))) p
    ∙ ap cursor (arrive d m ms k h on (λ e. absurd (omega arith)))

-- If there is an enabled item above the cursor, menu_up moves the cursor and menu_down takes it back.
pub menu_down-menu_up :
    (d : Display) (m : MenuWindow) (ms : List MenuWindow) (i : ℕ)
    → IsMenu m
    → i < m.curr_item
    → enabled_at m.items i ≡ true
    → ((k : ℕ) × (cursor (menu_up d (m ∷ ms)) ≡ some k) × (i ≤ k) × (k < m.curr_item))
      × (cursor (menu_down d (menu_up d (m ∷ ms))) ≡ some m.curr_item)
menu_down-menu_up d m ms i h l e =
    let (k, p, le, lt, on, gap) =
      nearest_below m.items m.curr_item i (find_enabled_item m (pos m.curr_item) (negsuc 0))
        (find_enabled_item-Nearest m (pos m.curr_item)).0 l e in
    let there : menu_up d (m ∷ ms) ≡ soiled (placed m k) ∷ parents d ms =
      up_arrives d m ms k h p on lt in
    let m' : MenuWindow = soiled (placed m k) in
    let h' : IsMenu m' = soiled-IsMenu (placed m k) (placed-IsMenu m k h on) in
    (
      (k, ap cursor there, le, lt),
      ap (λ l. cursor (menu_down d l)) there
          ∙ down_arrives d m' (parents d ms) m.curr_item h'
              (nearest_above m.items k m.curr_item _ (find_enabled_item-Nearest m' (pos k)).1 lt
                h.on_item gap)
              h.on_item lt,
    )

end_arrives :
    (d : Display) (m : MenuWindow) (ms : List MenuWindow) (last : ℕ)
    → IsMenu m
    → find_enabled_item m (pos m.items_count) (negsuc 0) ≡ some last
    → enabled_at m.items last ≡ true
    → m.curr_item < last
    → menu_end d (m ∷ ms) ≡ soiled (placed m last) ∷ parents d ms
unfolding menu_end
end_arrives d m ms last h p on l =
    ap (λ o. move_to d o (m ∷ ms)) p ∙ arrive d m ms last h on (λ e. absurd (omega arith))

-- If the last item is enabled, the cursor is not on it and it is not among those shown, then menu_end
-- puts the cursor on it, and it is still not among those shown.
pub menu_end-hidden :
    (d : Display) (m : MenuWindow) (ms : List MenuWindow) (last : ℕ)
    → IsMenu m
    → m.items_count ≡ last + 1
    → enabled_at m.items last ≡ true
    → m.curr_item < last
    → m.top_item + (m.height - 2) ≤ last
    → (cursor (menu_end d (m ∷ ms)) ≡ some last) × (shows_cursor (menu_end d (m ∷ ms)) ≡ false)
menu_end-hidden d m ms last h c on l hidden =
    let (k, p, le, lt, on', gap) =
      nearest_below m.items m.items_count last (find_enabled_item m (pos m.items_count) (negsuc 0))
        (find_enabled_item-Nearest m (pos m.items_count)).0 (omega arith) on in
    let same : k ≡ last = omega arith in
    let there : menu_end d (m ∷ ms) ≡ soiled (placed m last) ∷ parents d ms =
      end_arrives d m ms last h (p ∙ ap some same) on l in
    (ap cursor there, ap shows_cursor there ∙ ground (arith, h.below_top))
