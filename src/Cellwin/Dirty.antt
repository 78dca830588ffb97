-- ===== src/Cellwin/Dirty.antt =====
-- The well-formedness of a cell buffer: its size, and `dirtyCount`. The function `check_dirty_count`
-- of cellwin.c tests the second at run time, where it is compiled in.
use yterm.Prelude.{
  ℕ, zero, suc, ◌+◌, ◌*◌, ◌≤◌, ◌≡◌, refl, ◌∙◌, Bool, true, List, [], ◌∷◌, some, arith, to_nat, inl,
  inr, Option-cases, get_elem?, set, length, length-set, ℤ,
}
use yterm.Cell.{CharCell, Loaded}
use yterm.Cellwin.{
  CellBuffer, Code, touch, touch_span, touch_rows, clip_region, process_region, mark_dirty_code,
  mark_clean_code, put_code, merge_code, wrap_code,
}
use yterm.Cellwin.Strip.{overwrite_code}

-- The loop of `check_dirty_count`.
abbrev pub count_dirty : List CharCell → ℕ
count_dirty [] = 0
count_dirty (c ∷ cs) = to_nat c.dirty + count_dirty cs

pub record IsValid (cb : CellBuffer) : Type 0 where
  pub size : length cb.buf ≡ cb.width * cb.height
  pub counted : cb.dirty_count ≡ count_dirty cb.buf

-- A loop body that keeps `dirtyCount` in step with the dirty bit of its cell.
pub record Accounts (code : Code) : Type 1 where
  pub keeps :
      (c : CharCell) (n : ℕ)
      → to_nat c.dirty ≤ n
      → (code c n).1 + to_nat c.dirty ≡ n + to_nat (code c n).0.dirty

count_dirty-set :
    (cs : List CharCell) (i : ℕ) (c d : CharCell)
    → get_elem? cs i ≡ some c
    → (count_dirty (set cs i d) + to_nat c.dirty ≡ count_dirty cs + to_nat d.dirty)
      × (to_nat c.dirty ≤ count_dirty cs)
count_dirty-set [] i c d h = ground arith
count_dirty-set (x ∷ cs) zero c d h = ground arith
count_dirty-set (x ∷ cs) (suc i) c d h = omega (arith, count_dirty-set cs i c d h)

-- What the operations promise: the sizes stay, and a valid buffer stays valid.
pub record Keeps (cb cb' : CellBuffer) : Type 0 where
  pub width : cb'.width ≡ cb.width
  pub height : cb'.height ≡ cb.height
  pub valid : IsValid cb → IsValid cb'

pub Keeps-refl : (cb : CellBuffer) → Keeps cb cb
Keeps-refl cb = record { width = refl; height = refl; valid = λ v. v }

pub Keeps-trans : {a b c : CellBuffer} → Keeps a b → Keeps b c → Keeps a c
Keeps-trans p q = record {
  width = q.width ∙ p.width;
  height = q.height ∙ p.height;
  valid = λ v. q.valid (p.valid v);
}

module _ (code : Code) (a : Accounts code) where
  touch-IsValid : (i : ℕ) (cb : CellBuffer) → IsValid cb → IsValid (touch code i cb)
  unfolding touch
  touch-IsValid i cb v = elim (Option-cases (get_elem? cb.buf i)) [
    | inl e ↦ ground arith
    | inr (c, e) ↦
        let (c', n) = code c cb.dirty_count in
        ground
          (arith, a.keeps c cb.dirty_count, count_dirty-set cb.buf i c c' e, length-set cb.buf i c')
  ]

  pub touch-Keeps : (i : ℕ) (cb : CellBuffer) → Keeps cb (touch code i cb)
  touch-Keeps i cb = record {
    width = unfold touch in ground arith;
    height = unfold touch in ground arith;
    valid = touch-IsValid i cb;
  }

  pub touch_span-Keeps : (n i : ℕ) (cb : CellBuffer) → Keeps cb (touch_span code n i cb)
  unfolding touch_span
  touch_span-Keeps zero i cb = Keeps-refl cb
  touch_span-Keeps (suc n) i cb =
      Keeps-trans (touch-Keeps i cb) (touch_span-Keeps n (i + 1) (touch code i cb))

  touch_rows-Keeps : (rows wdt i : ℕ) (cb : CellBuffer) → Keeps cb (touch_rows code rows wdt i cb)
  unfolding touch_rows
  touch_rows-Keeps zero wdt i cb = Keeps-refl cb
  touch_rows-Keeps (suc rows) wdt i cb =
      Keeps-trans (touch_span-Keeps wdt i cb)
        (touch_rows-Keeps rows wdt _ (touch_span code wdt i cb))

  pub process_region-Keeps :
      (cb : CellBuffer) (x0 y0 x1 y1 : ℤ) → Keeps cb (process_region code cb x0 y0 x1 y1)
  unfolding process_region
  process_region-Keeps cb x0 y0 x1 y1 =
      elim (Option-cases (clip_region cb.width cb.height x0 y0 x1 y1)) [
        | inl e ↦ rw (e, process_region) (Keeps-refl cb)
        | inr (r, e) ↦ rw (e, process_region) (touch_rows-Keeps _ _ _ cb)
      ]

pub mark_dirty-Accounts : Accounts mark_dirty_code
unfolding mark_dirty_code
mark_dirty-Accounts = record { keeps = λ c n h. ground arith }

pub mark_clean-Accounts : Accounts mark_clean_code
unfolding mark_clean_code
mark_clean-Accounts = record { keeps = λ c n h. ground arith }

-- What LOAD_ATTRS() leaves is dirty.
pub put-Accounts : (l : Loaded) (ch : ℕ) → l.dirty ≡ true → Accounts (put_code l ch)
unfolding put_code
put-Accounts l ch d = record { keeps = λ c n h. ground arith }

pub merge-Accounts : (s : CharCell) → Accounts (merge_code s)
unfolding merge_code
merge-Accounts s = record { keeps = λ c n h. ground arith }

pub overwrite-Accounts : (s : CharCell) → Accounts (overwrite_code s)
unfolding overwrite_code
overwrite-Accounts s = record { keeps = λ c n h. ground arith }

pub wrap-Accounts : (b : Bool) → Accounts (wrap_code b)
unfolding wrap_code
wrap-Accounts b = record { keeps = λ c n h. ground arith }
