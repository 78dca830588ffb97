-- ===== src/Menu/Cursor/Found.antt =====
-- What `menu_find_enabled_item_at_dir` finds.
use yterm.Prelude.{
  ℕ, zero, suc, ◌+◌, ◌≤◌, ◌<◌, ◌≡◌, refl, Bool, true, false, ◌&&◌, Option, none, some, List, [],
  ◌∷◌, ◌⊎◌, inl, inr, if◌then◌else◌, ℤ, pos, negsuc, ltb_ℤ, arith, Bool-cases,
}
use yterm.Menu.{MenuItem, MenuWindow}
use yterm.Menu.Cursor.{is_enabled, find_below, find_above, find_enabled_item}

-- Whether there is an item at an index that the cursor may stand on.
abbrev pub enabled_at : List MenuItem → ℕ → Bool
enabled_at [] i = false
enabled_at (it ∷ its) zero = is_enabled it
enabled_at (it ∷ its) (suc i) = enabled_at its i

abbrev pub NearestBelow : List MenuItem → ℤ → Option ℕ → Type 0
NearestBelow its p none = (j : ℕ) → ltb_ℤ (pos j) p ≡ true → enabled_at its j ≡ false
NearestBelow its p (some i) =
    (ltb_ℤ (pos i) p ≡ true)
    × (enabled_at its i ≡ true)
    × ((j : ℕ) → i < j → ltb_ℤ (pos j) p ≡ true → enabled_at its j ≡ false)

abbrev pub NearestAbove : List MenuItem → ℤ → Option ℕ → Type 0
NearestAbove its p none = (j : ℕ) → ltb_ℤ p (pos j) ≡ true → enabled_at its j ≡ false
NearestAbove its p (some i) =
    (ltb_ℤ p (pos i) ≡ true)
    × (enabled_at its i ≡ true)
    × ((j : ℕ) → j < i → ltb_ℤ p (pos j) ≡ true → enabled_at its j ≡ false)

-- No item of a list that starts at index `c`, from its place `k` on, is enabled and below `p`.
abbrev NoneBelow : List MenuItem → ℕ → ℤ → ℕ → Type 0
NoneBelow its c p k = (j : ℕ) → k ≤ j → ltb_ℤ (pos (c + j)) p ≡ true → enabled_at its j ≡ false

NoneBelow-cons :
    (it : MenuItem) (its : List MenuItem) (c k : ℕ) (p : ℤ)
    → NoneBelow its (c + 1) p k
    → NoneBelow (it ∷ its) c p (suc k)
NoneBelow-cons it its c k p h zero le lt = absurd (omega arith)
NoneBelow-cons it its c k p h (suc j) le lt = h j (omega arith) (ground arith)

NoneBelow-zero :
    (it : MenuItem) (its : List MenuItem) (c : ℕ) (p : ℤ)
    → is_enabled it ≡ false
    → NoneBelow its (c + 1) p 0
    → NoneBelow (it ∷ its) c p 0
NoneBelow-zero it its c p e h zero le lt = e
NoneBelow-zero it its c p e h (suc j) le lt = h j (omega arith) (ground arith)

-- The item found by the search from index `c`.
record Hit (its : List MenuItem) (c : ℕ) (p : ℤ) (o : Option ℕ) : Type 0 where
  at : ℕ
  found : o ≡ some (c + at)
  below : ltb_ℤ (pos (c + at)) p ≡ true
  enabled : enabled_at its at ≡ true
  last : NoneBelow its c p (suc at)

abbrev Below : List MenuItem → ℕ → ℤ → Option ℕ → Option ℕ → Type 0
Below its c p res o = ((o ≡ res) × NoneBelow its c p 0) ⊎ Hit its c p o

Below-cons :
    (it : MenuItem) (its : List MenuItem) (c : ℕ) (p : ℤ) (res o : Option ℕ)
    → ltb_ℤ (pos c) p ≡ true
    → Below its (c + 1) p (if is_enabled it then some c else res) o
    → Below (it ∷ its) c p res o
Below-cons it its c p res o t (inr h) = inr (record {
  at = suc h.at;
  found = ground (arith, h.found);
  below = ground (arith, h.below);
  enabled = h.enabled;
  last = NoneBelow-cons it its c (suc h.at) p h.last;
})
Below-cons it its c p res o t (inl (e, n)) = elim (Bool-cases (is_enabled it)) [
  | inl on ↦ inr (record {
    at = 0;
    found = ground arith;
    below = ground arith;
    enabled = on;
    last = NoneBelow-cons it its c 0 p n;
  })
  | inr off ↦ inl (ground arith, NoneBelow-zero it its c p off n)
]

find_below_lem :
    (its : List MenuItem) (c : ℕ) (p : ℤ) (res : Option ℕ)
    → Below its c p res (find_below its c p res)
unfolding find_below
find_below_lem [] c p res = inl (refl, λ j le lt. refl)
find_below_lem (it ∷ its) c p res = elim (Bool-cases (ltb_ℤ (pos c) p)) [
  | inl t ↦ rw t (Below-cons it its c p res _ t (find_below_lem its (c + 1) p _))
  | inr t ↦ inl (rw t, λ j le lt. cc (beyond j lt t))
]
  where
    beyond : (j : ℕ) → ltb_ℤ (pos (c + j)) p ≡ true → ltb_ℤ (pos c) p ≡ false → true ≡ false
    beyond j lt t = ground arith

record FirstHit (its : List MenuItem) (c : ℕ) (p : ℤ) (o : Option ℕ) : Type 0 where
  at : ℕ
  found : o ≡ some (c + at)
  above : ltb_ℤ p (pos (c + at)) ≡ true
  enabled : enabled_at its at ≡ true
  first : (j : ℕ) → j < at → ltb_ℤ p (pos (c + j)) ≡ true → enabled_at its j ≡ false

abbrev NoneAbove : List MenuItem → ℕ → ℤ → Type 0
NoneAbove its c p = (j : ℕ) → ltb_ℤ p (pos (c + j)) ≡ true → enabled_at its j ≡ false

abbrev Above : List MenuItem → ℕ → ℤ → Option ℕ → Type 0
Above its c p o = ((o ≡ none) × NoneAbove its c p) ⊎ FirstHit its c p o

before-cons :
    (it : MenuItem) (its : List MenuItem) (c n : ℕ) (p : ℤ)
    → (ltb_ℤ p (pos c) && is_enabled it) ≡ false
    → ((j : ℕ) → j < n → ltb_ℤ p (pos (c + 1 + j)) ≡ true → enabled_at its j ≡ false)
    → (j : ℕ) → j < suc n
    → ltb_ℤ p (pos (c + j)) ≡ true
    → enabled_at (it ∷ its) j ≡ false
before-cons it its c n p t h zero l lt = ground arith
before-cons it its c n p t h (suc j) l lt = h j (omega arith) (ground arith)

Above-cons :
    (it : MenuItem) (its : List MenuItem) (c : ℕ) (p : ℤ) (o : Option ℕ)
    → (ltb_ℤ p (pos c) && is_enabled it) ≡ false
    → Above its (c + 1) p o
    → Above (it ∷ its) c p o
Above-cons it its c p o t (inl (e, n)) =
    inl (e, λ j lt. before-cons it its c (suc j) p t (λ i l. n i) j (omega arith) lt)
Above-cons it its c p o t (inr h) = inr (record {
  at = suc h.at;
  found = ground (arith, h.found);
  above = ground (arith, h.above);
  enabled = h.enabled;
  first = before-cons it its c h.at p t h.first;
})

find_above_lem : (its : List MenuItem) (c : ℕ) (p : ℤ) → Above its c p (find_above its c p)
unfolding find_above
find_above_lem [] c p = inl (refl, λ j lt. refl)
find_above_lem (it ∷ its) c p = elim (Bool-cases (ltb_ℤ p (pos c) && is_enabled it)) [
  | inl t ↦ inr (record {
    at = 0;
    found = ground arith;
    above = ground arith;
    enabled = ground arith;
    first = λ j l lt. absurd (omega arith);
  })
  | inr t ↦ rw t (Above-cons it its c p _ t (find_above_lem its (c + 1) p))
]

NearestBelow-of :
    (its : List MenuItem) (p : ℤ) (o : Option ℕ) → Below its 0 p none o → NearestBelow its p o
NearestBelow-of its p none (inl (e, n)) = λ j lt. n j (omega arith) (ground arith)
NearestBelow-of its p (some i) (inl (e, n)) = absurd (ground arith)
NearestBelow-of its p none (inr h) = absurd (ground (arith, h.found))
NearestBelow-of its p (some i) (inr h) =
    let e : i ≡ h.at = ground (arith, h.found) in
    (ground (arith, h.below), rw e h.enabled, λ j l lt. h.last j (omega arith) (ground arith))

NearestAbove-of :
    (its : List MenuItem) (p : ℤ) (o : Option ℕ) → Above its 0 p o → NearestAbove its p o
NearestAbove-of its p none (inl (e, n)) = λ j lt. n j (ground arith)
NearestAbove-of its p (some i) (inl (e, n)) = absurd (ground arith)
NearestAbove-of its p none (inr h) = absurd (ground (arith, h.found))
NearestAbove-of its p (some i) (inr h) =
    let e : i ≡ h.at = ground (arith, h.found) in
    (ground (arith, h.above), rw e h.enabled, λ j l lt. h.first j (omega arith) (ground arith))

-- The search upwards gives the last enabled item before the position and the search downwards the
-- first one behind it; where there is no such item they give none.
pub find_enabled_item-Nearest :
    (m : MenuWindow) (p : ℤ)
    → NearestBelow m.items p (find_enabled_item m p (negsuc 0))
      × NearestAbove m.items p (find_enabled_item m p (pos 1))
unfolding find_enabled_item
find_enabled_item-Nearest m p = (
  NearestBelow-of m.items p _ (find_below_lem m.items 0 p none),
  NearestAbove-of m.items p _ (find_above_lem m.items 0 p),
)
