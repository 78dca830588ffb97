-- ===== src/Selection/Clip/Columns.antt =====
-- The characters of a line that do_copy_to takes are those of the cells of the block.
use yterm.Prelude.{
  ℕ, zero, suc, ◌+◌, ◌-◌, ◌≤◌, ◌<◌, max, ◌≡◌, refl, ap, ap₂, sym, ◌∙◌, Bool, true, false, ◌&&◌,
  List, [], ◌∷◌, map, inl, inr, ltb, leb, ◌==◌, if◌then◌else◌, ℤ, pos, pos_part, ◌+ℤ◌, ◌-ℤ◌, ◌≤ℤ◌,
  ltb_ℤ, leb_ℤ, take, drop, Bool-cases, arith,
}
use yterm.Cell.{CharCell}
use yterm.Selection.{Selection, in_selection}
use yterm.Selection.Draw.{span_of, count_up}
use yterm.Selection.Draw.Rows.{InColumns, in_columns, span_of_bounds}
use yterm.Selection.Draw.Marked.{covers, covers_columns}
use yterm.Selection.Clip.{line_chars}

-- The character that a cell shows.
abbrev char_of : CharCell → ℕ
char_of c = if c.ch == 0 then 32 else c.ch

-- The characters of the cells whose columns are chosen, where `x` is the column of the first cell.
abbrev pub pick : (ℕ → Bool) → ℕ → List CharCell → List ℕ
pick p x [] = []
pick p x (c ∷ cells) = let rest = pick p (x + 1) cells in if p x then char_of c ∷ rest else rest

pick-same :
    (p q : ℕ → Bool) (i : ℕ) (cells : List CharCell)
    → ((x : ℕ) → p x ≡ q x)
    → pick p i cells ≡ pick q i cells
pick-same p q i [] h = refl
pick-same p q i (c ∷ cells) h =
    ap₂ (λ (b : Bool) (rest : List ℕ). if b then char_of c ∷ rest else rest) (h i)
      (pick-same p q (i + 1) cells h)

take_nil : (n m : ℕ) → map char_of (take n (drop m [])) ≡ []
take_nil zero zero = refl
take_nil (suc n) zero = refl
take_nil zero (suc m) = refl
take_nil (suc n) (suc m) = refl

abbrev part : ℕ → ℕ → List CharCell → List ℕ
part n m cells = map char_of (take n (drop m cells))

same_part :
    (n n' m m' : ℕ) (cells : List CharCell) → n ≡ n' → m ≡ m' → part n m cells ≡ part n' m' cells
same_part n n' m m' cells p q = ap₂ (λ (a b : ℕ). part a b cells) p q

-- The columns from `a` on and before `b`, by the place of the first cell.
range-before :
    (a b i : ℕ) (c : CharCell) (cells : List CharCell)
    → i < a
    → part (b - max a (i + 1)) (a - (i + 1)) cells ≡ part (b - max a i) (a - i) (c ∷ cells)
range-before a b i c cells h =
    same_part _ (b - a) _ (a - (i + 1)) cells (omega (arith, h)) refl
    ∙ sym (
        same_part _ (b - a) _ (suc (a - (i + 1))) (c ∷ cells) (omega (arith, h)) (omega (arith, h)))

range-inside :
    (a b i : ℕ) (c : CharCell) (cells : List CharCell)
    → a ≤ i
    → i < b
    → char_of c ∷ part (b - max a (i + 1)) (a - (i + 1)) cells
      ≡ part (b - max a i) (a - i) (c ∷ cells)
range-inside a b i c cells h l =
    ap (λ (rest : List ℕ). char_of c ∷ rest)
      (same_part _ (b - (i + 1)) _ 0 cells (omega (arith, h)) (omega (arith, h)))
    ∙ sym (same_part _ (suc (b - (i + 1))) _ 0 (c ∷ cells) (omega (arith, h, l)) (omega (arith, h)))

range-behind :
    (a b i : ℕ) (c : CharCell) (cells : List CharCell)
    → a ≤ i
    → b ≤ i
    → part (b - max a (i + 1)) (a - (i + 1)) cells ≡ part (b - max a i) (a - i) (c ∷ cells)
range-behind a b i c cells h l =
    same_part _ 0 _ 0 cells (omega (arith, h, l)) (omega (arith, h))
    ∙ sym (same_part _ 0 _ 0 (c ∷ cells) (omega (arith, h, l)) (omega (arith, h)))

abbrev in_range : ℕ → ℕ → ℕ → Bool
in_range a b x = leb a x && ltb x b

pick-range :
    (a b i : ℕ) (cells : List CharCell)
    → pick (in_range a b) i cells ≡ part (b - max a i) (a - i) cells
pick-range a b i [] = sym (take_nil (b - max a i) (a - i))
pick-range a b i (c ∷ cells) =
    let rest = pick-range a b (i + 1) cells in
    elim (Bool-cases (leb a i)) [
      | inr out ↦ rw (out) (rest ∙ range-before a b i c cells (ground (arith, out)))
      | inl from ↦ elim (Bool-cases (ltb i b)) [
        | inl l ↦
            rw (from, l)
              (ap (λ (cs : List ℕ). char_of c ∷ cs) rest
                ∙ range-inside a b i c cells (ground (arith, from)) (ground (arith, l)))
        | inr l ↦
            rw (from, l)
              (rest ∙ range-behind a b i c cells (ground (arith, from)) (ground (arith, l)))
      ]
    ]

columns-range :
    (x0 x1 : ℤ) (x : ℕ)
    → pos 0 ≤ℤ x0
    → in_range (pos_part x0) (pos_part (x1 +ℤ pos 1)) x ≡ in_columns (x0, x1) x
unfolding ◌+ℤ◌
columns-range x0 x1 x h = ground arith

columns-count :
    (x0 x1 : ℤ) → pos 0 ≤ℤ x0 → count_up x0 x1 ≡ pos_part (x1 +ℤ pos 1) - max (pos_part x0) 0
unfolding ◌+ℤ◌ ◌-ℤ◌
columns-count x0 x1 h = ground arith

line_chars-pick :
    (x0 x1 : ℤ) (cells : List CharCell)
    → pos 0 ≤ℤ x0
    → line_chars x0 x1 cells ≡ pick (in_columns (x0, x1)) 0 cells
unfolding line_chars
line_chars-pick x0 x1 cells h =
    let a = pos_part x0 in
    let b = pos_part (x1 +ℤ pos 1) in
    same_part (count_up x0 x1) (b - max a 0) a (a - 0) cells (columns-count x0 x1 h) (omega arith)
    ∙ sym (pick-range a b 0 cells)
    ∙ pick-same _ _ 0 cells (λ x. columns-range x0 x1 x h)

-- Whether column `x` of line `y` is a column of the screen and of the block.
abbrev pub on_block : ℕ → Selection → ℤ → ℕ → Bool
on_block w s y x = ltb x w && covers s.block s (pos x) y

within : (a b : Bool) → a ≡ true → (a && b) ≡ b
within true b h = refl
within false b h = absurd (ground arith)

beyond :
    (a b : ℤ) (w x : ℕ) → ltb_ℤ b (pos w) ≡ true → ltb x w ≡ false → in_columns (a, b) x ≡ false
beyond a b w x h l = ground arith

span-on_block :
    (w : ℕ) (s : Selection) (y : ℤ) (x : ℕ)
    → in_selection s.block ≡ true
    → InColumns w s
    → (leb_ℤ s.y0 y && leb_ℤ y s.y1) ≡ true
    → in_columns (span_of s.block w s y) x ≡ on_block w s y x
span-on_block w s y x e i h = elim (Bool-cases (ltb x w)) [
  | inl l ↦ rw (l) (sym (within _ _ h) ∙ covers_columns s.block w s x y e (ground (arith, l)))
  | inr l ↦ rw (l) (
      beyond (span_of s.block w s y).0 (span_of s.block w s y).1 w x
        (span_of_bounds s.block w s y i).2 l)
]

-- The characters of a line of the block.
pub line_chars-on_block :
    (w : ℕ) (s : Selection) (y : ℤ) (cells : List CharCell)
    → in_selection s.block ≡ true
    → InColumns w s
    → (leb_ℤ s.y0 y && leb_ℤ y s.y1) ≡ true
    → line_chars (span_of s.block w s y).0 (span_of s.block w s y).1 cells
      ≡ pick (on_block w s y) 0 cells
line_chars-on_block w s y cells e i h =
    line_chars-pick _ _ cells (span_of_bounds s.block w s y i).0
    ∙ pick-same _ _ 0 cells (λ x. span-on_block w s y x e i h)
