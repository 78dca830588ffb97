-- ===== src/Cellwin/Resized.antt =====
-- `cbuf_resize` ends, and leaves a valid buffer of the new size.
use yterm.Prelude.{
  ℕ, zero, suc, ◌+◌, ◌-◌, ◌*◌, ◌≤◌, ◌<◌, min, ◌≡◌, ◌⊎◌, refl, ap, Bool, true, false, ◌&&◌, ◌||◌,
  not, List, [], ◌∷◌, ◌++◌, some, inl, inr, arith, ltb, leb, ◌==◌, replicate, length, length-append,
  length-replicate, Bool-cases, Option-cases,
}
use mathlib.Core.List.{reverse, reverse_aux}
use yterm.Cell.{CharCell, default_cell}
use yterm.Cellwin.{CellBuffer, max_buffer_size}
use yterm.Cellwin.Dirty.{IsValid, count_dirty}
use yterm.Cellwin.Keeps.{count_dirty-replicate}
use yterm.Cellwin.Resize.{
  LineIt, it_init, it_get, copied, wrap_last, pad, relayout_loop, relayout_fuel, copy_cells,
  plain_line, plain_lines, resized_cells, cbuf_resize,
}

-- A list of `n` cells, all dirty.
abbrev IsFresh : ℕ → List CharCell → Type 0
IsFresh n cs = (length cs ≡ n) × (count_dirty cs ≡ n)

count_dirty-append :
    (cs ds : List CharCell) → count_dirty (cs ++ ds) ≡ count_dirty cs + count_dirty ds
count_dirty-append [] ds = omega arith
count_dirty-append (c ∷ cs) ds = omega (arith, count_dirty-append cs ds)

IsFresh-append :
    (n k : ℕ) (cs ds : List CharCell) → IsFresh n cs → IsFresh k ds → IsFresh (n + k) (cs ++ ds)
IsFresh-append n k cs ds h g = omega (arith, length-append {0} cs ds, count_dirty-append cs ds)

IsFresh-replicate : (n : ℕ) → IsFresh n (replicate n default_cell)
IsFresh-replicate n = (length-replicate n default_cell, count_dirty-replicate n)

reverse_aux-sizes :
    (cs ds : List CharCell)
    → (length (reverse_aux cs ds) ≡ length cs + length ds)
      × (count_dirty (reverse_aux cs ds) ≡ count_dirty cs + count_dirty ds)
reverse_aux-sizes [] ds = omega arith
reverse_aux-sizes (c ∷ cs) ds = omega (arith, reverse_aux-sizes cs (c ∷ ds))

IsFresh-reverse : (n : ℕ) (cs : List CharCell) → IsFresh n cs → IsFresh n (reverse cs)
IsFresh-reverse n cs h = omega (arith, reverse_aux-sizes cs [])

IsFresh-pad : (k n : ℕ) (out : List CharCell) → IsFresh n out → IsFresh (n + k) (pad k out)
unfolding pad
IsFresh-pad zero n out h = omega arith
IsFresh-pad (suc k) n out h =
    omega (arith, IsFresh-pad k (n + 1) (default_cell ∷ out) (omega arith))

IsFresh-wrap_last : (y n : ℕ) (out : List CharCell) → IsFresh n out → IsFresh n (wrap_last y out)
unfolding wrap_last
IsFresh-wrap_last y n [] h = h
IsFresh-wrap_last y n (c ∷ out) h = ground arith

lines_left : (nh y k : ℕ) → y < nh → (nh - y) * k ≡ (nh - (y + 1)) * k + k
lines_left nh y k h =
    let e : nh - y ≡ nh - (y + 1) + 1 = omega arith in omega (arith, ap (λ (t : ℕ). t * k) e)

-- With enough fuel the loop ends, and has written every cell of the new buffer.
relayout_loop-IsFresh :
    (cb : CellBuffer) (nw nh fuel : ℕ) (it : LineIt) (x y : ℕ) (out : List CharCell)
    → 1 ≤ nw
    → x ≤ nw
    → y ≤ nh
    → (y ≡ nh → x ≡ 0)
    → (nh - y) * (nw + 1) < fuel + x
    → IsFresh (y * nw + x) out
    → (cells : List CharCell) × (relayout_loop cb nw nh fuel it x y out ≡ some cells)
      × IsFresh (nh * nw) cells
unfolding relayout_loop
relayout_loop-IsFresh cb nw nh zero it x y out hw hx hy hz hf h =
    absurd (ground (arith, lines_left nh y (nw + 1)))
relayout_loop-IsFresh cb nw nh (suc fuel) it x y out hw hx hy hz hf h =
    elim (Bool-cases (ltb y nh)) [
      | inr e ↦
          let end : y ≡ nh = ground arith in
          (out, rw (e, relayout_loop), omega (arith, hz end, ap (λ (t : ℕ). t * nw) end))
      | inl e ↦
          let left = lines_left nh y (nw + 1) (ground arith) in
          elim (Option-cases (it_get cb it).0) [
            | inl g ↦
                rw (e, g, relayout_loop)
                  (relayout_loop-IsFresh cb nw nh fuel (it_get cb it).1 0 (y + 1) (pad (nw - x) out)
                    hw (omega arith) (ground arith) (λ p. refl) (omega arith)
                    (omega (arith, IsFresh-pad (nw - x) (y * nw + x) out h)))
            | inr (c, g) ↦ elim (Bool-cases (x == nw)) [
              | inr inner ↦
                  rw (e, g, inner, relayout_loop)
                    (relayout_loop-IsFresh cb nw nh fuel (it_get cb it).1 (x + 1) y (copied c ∷ out)
                      hw (ground arith) hy (ground arith) (omega arith) (omega arith))
              | inl edge ↦
                  let at_edge : x ≡ nw = ground arith in
                  let w = IsFresh-wrap_last y (y * nw + x) out h in
                  elim (Bool-cases (y + 1 == nh)) [
                    | inl last ↦
                        let end : y + 1 ≡ nh = ground arith in
                        (
                          wrap_last y out,
                          rw (e, g, edge, last, relayout_loop),
                          omega (arith, w, ap (λ (t : ℕ). t * nw) end),
                        )
                    | inr more ↦
                        rw (e, g, edge, more, relayout_loop)
                          (relayout_loop-IsFresh cb nw nh fuel (it_get cb it).1 1 (y + 1)
                            (copied c ∷ wrap_last y out) hw hw (ground arith) (ground arith)
                            (omega arith) (omega arith))
                  ]
            ]
          ]
    ]

IsFresh-copy_cells : (cb : CellBuffer) (n addr : ℕ) → IsFresh n (copy_cells cb n addr)
unfolding copy_cells
IsFresh-copy_cells cb zero addr = (refl, refl)
IsFresh-copy_cells cb (suc n) addr = omega (arith, IsFresh-copy_cells cb n (addr + 1))

IsFresh-plain_line : (cb : CellBuffer) (nw y : ℕ) → IsFresh nw (plain_line cb nw y)
unfolding plain_line
IsFresh-plain_line cb nw y = elim (Bool-cases (ltb y cb.height)) [
  | inr e ↦ rw e (IsFresh-replicate nw)
  | inl e ↦
      let k = min cb.width nw in
      let line =
        IsFresh-append k (nw - k) (copy_cells cb k (y * cb.width)) (replicate (nw - k) default_cell)
          (IsFresh-copy_cells cb k (y * cb.width)) (IsFresh-replicate (nw - k)) in
      rw e (omega (arith, line))
]

IsFresh-plain_lines :
    (cb : CellBuffer) (nw rows y : ℕ) → IsFresh (rows * nw) (plain_lines cb nw rows y)
unfolding plain_lines
IsFresh-plain_lines cb nw zero y = omega arith
IsFresh-plain_lines cb nw (suc rows) y = omega (
  arith,
  IsFresh-append nw (rows * nw) (plain_line cb nw y) (plain_lines cb nw rows (y + 1))
      (IsFresh-plain_line cb nw y) (IsFresh-plain_lines cb nw rows (y + 1)),
)

IsFresh-resized_cells :
    (cb : CellBuffer) (nw nh : ℕ) (relayout : Bool)
    → 1 ≤ nw
    → (cells : List CharCell) × (resized_cells cb nw nh relayout ≡ some cells)
      × IsFresh (nh * nw) cells
unfolding resized_cells
IsFresh-resized_cells cb nw nh false h =
    (plain_lines cb nw nh 0, refl, IsFresh-plain_lines cb nw nh 0)
IsFresh-resized_cells cb nw nh true h =
    let (out, e, fresh) =
      relayout_loop-IsFresh cb nw nh (relayout_fuel nw nh) it_init 0 0 [] h (omega arith)
        (omega arith) (λ p. refl) (grind arith) (omega arith) in
    (reverse out, rw (e, resized_cells), IsFresh-reverse (nh * nw) out fresh)

-- `cbuf_resize` to a legal size ends, with and without relayout, and leaves a valid buffer of that
-- size; either the buffer is the same as before, or its dirty count is the number of its cells.
pub cbuf_resize-IsValid :
    (cb : CellBuffer) (nw nh : ℕ) (relayout : Bool)
    → IsValid cb
    → (leb 1 nw && leb nw max_buffer_size && leb 1 nh && leb nh max_buffer_size) ≡ true
    → (cb' : CellBuffer) × (cbuf_resize cb nw nh relayout ≡ some cb')
      × IsValid cb'
      × (cb'.width ≡ nw)
      × (cb'.height ≡ nh)
      × ((cb' ≡ cb) ⊎ (cb'.dirty_count ≡ nw * nh))
unfolding cbuf_resize
cbuf_resize-IsValid cb nw nh relayout v legal =
    elim (Bool-cases (not (cb.width == nw) || not (cb.height == nh))) [
      | inr same ↦ (cb, rw (legal, same, cbuf_resize), v, ground arith, ground arith, inl refl)
      | inl changed ↦
          let (cells, e, fresh) = IsFresh-resized_cells cb nw nh relayout (ground arith) in
          (
            record { width = nw; height = nh; buf = cells; dirty_count = nw * nh },
            rw (legal, changed, e, cbuf_resize),
            omega (arith, fresh),
            refl,
            refl,
            inr refl,
          )
    ]
