-- ===== src/History/Inv.antt =====
-- The invariant of a history file, and what `history_flush` and the writes do to it.
use yterm.Prelude.{
  ℕ, ◌+◌, ◌-◌, ◌*◌, ◌≤◌, ◌≡◌, refl, ap, ◌∙◌, true, false, List, [], ◌++◌, length, take, take-length,
  drop_past, replicate, arith,
}
use mathlib.Core.List.{append-nil}
use yterm.Cell.{CharCell}
use yterm.History.{
  HistoryFile, cell_size, is_null, is_freed, is_empty, zero_cell, write_at, free_buffer,
  history_close,
}

-- The cells of a history file: those of the file, and those that wait in the buffer.
abbrev pub content : HistoryFile → List CharCell
content f = f.store ++ f.used

-- The buffer is not freed memory and has what is used of it; a closed file has none. The file and
-- the buffer together are the lines, and the buffer is to be written where the file ends.
pub record IsHistory (f : HistoryFile) : Type 0 where
  pub sound : is_freed f.wrbuffer ≡ false
  pub once : f.double_free ≡ false
  pub closed : f.is_open ≡ false → is_null f.wrbuffer ≡ true
  pub empty : is_null f.wrbuffer ≡ true → f.used ≡ []
  pub fits : cell_size * length f.used ≤ f.size
  pub lines : f.is_open ≡ true → length f.store + length f.used ≡ f.lcount * f.width
  pub place : is_empty f.used ≡ false → f.ofs ≡ length f.store

-- At the end of the file a write appends.
pub write_at_end :
    (off : ℕ) (cells store : List CharCell)
    → off ≡ length store
    → write_at off cells store ≡ store ++ cells
unfolding write_at
write_at_end off cells store e = rw (e) (
    ap
      (λ (xs : List CharCell).
        take (length store) store
        ++ replicate (length store - length store) zero_cell
        ++ cells
        ++ xs)
      (drop_past (length store + length cells) store (omega arith))
    ∙ append-nil _
    ∙ no_hole (length store - length store) (omega arith))
  where
    no_hole :
        (n : ℕ)
        → n ≡ 0
        → take (length store) store ++ replicate n zero_cell ++ cells ≡ store ++ cells
    no_hole n q = rw (q) (
        ap (λ (xs : List CharCell). xs ++ cells)
          (append-nil (take (length store) store) ∙ take-length store))

free_buffer_sound : (f : HistoryFile) → IsHistory f → (free_buffer f).double_free ≡ false
free_buffer_sound f h = ground (arith, h.sound, h.once)

pub history_close-IsHistory : (f : HistoryFile) → IsHistory f → IsHistory (history_close f)
unfolding history_close
history_close-IsHistory f h = record {
  sound = refl;
  once = free_buffer_sound f h;
  closed = λ e. refl;
  empty = λ e. refl;
  fits = omega arith;
  lines = λ e. ground (arith, e);
  place = λ e. ground (arith, e);
}

-- A file with the invariant that is closed, or has the cells `xs` in `n` lines of `w`.
pub record Holds (w n : ℕ) (xs : List CharCell) (f : HistoryFile) : Type 0 where
  pub valid : IsHistory f
  pub cells : f.is_open ≡ true → content f ≡ xs
  pub wide : f.is_open ≡ true → f.width ≡ w
  pub count : f.is_open ≡ true → f.lcount ≡ n

pub closed-Holds :
    {w n : ℕ} {xs : List CharCell} (f : HistoryFile) → IsHistory f → Holds w n xs (history_close f)
unfolding history_close
closed-Holds f h = record {
  valid = history_close-IsHistory f h;
  cells = λ e. ground (arith, e);
  wide = λ e. ground (arith, e);
  count = λ e. ground (arith, e);
}

pub shut-Holds :
    {w n : ℕ} {xs : List CharCell} (f : HistoryFile)
    → IsHistory f
    → f.is_open ≡ false
    → Holds w n xs f
shut-Holds f h c = record {
  valid = h;
  cells = λ e. ground (arith, c, e);
  wide = λ e. ground (arith, c, e);
  count = λ e. ground (arith, c, e);
}
