-- ===== src/History/Reformat.antt =====
-- `history_reformat` cuts and fills the lines, and what its failure leaves.
use yterm.Prelude.{
  ℕ, zero, suc, ◌+◌, ◌-◌, ◌*◌, ◌≤◌, ◌<◌, ◌≡◌, refl, ap, sym, ◌∙◌, Bool, true, false, ◌||◌, not,
  List, [], ◌∷◌, ◌++◌, leb, ◌==◌, if◌then◌else◌, length, length-append, length-replicate, take,
  length-take, take-append, drop, drop-append, drop_past, drop_add, replicate, arith, inl, inr,
  Bool-cases, leb,
}
use mathlib.Core.List.{append-nil}
use yterm.Cell.{CharCell, default_cell}
use yterm.History.{
  HistoryFile, Access, is_null, history_close, history_flush, history_ensure, fit_line,
  reformat_lines, history_reformat, line_at,
}
use yterm.History.Inv.{IsHistory, Holds}
use yterm.History.Lines.{flush-Flushed}
use yterm.History.Opened.{succeeds, flush-IsOpen}

take_all : (n : ℕ) (xs : List CharCell) → length xs ≤ n → take n xs ≡ xs
take_all zero [] h = refl
take_all zero (x ∷ xs) h = absurd (omega arith)
take_all (suc n) [] h = refl
take_all (suc n) (x ∷ xs) h = ap (λ (ys : List CharCell). x ∷ ys) (take_all n xs (omega arith))

length-fit_line : (w : ℕ) (line : List CharCell) → length (fit_line w line) ≡ w
length-fit_line w line =
    let k =
      length-append (take w line) (replicate (w - length line) default_cell)
      ∙ ap (λ (n : ℕ). length (take w line) + n)
          (length-replicate (w - length line) default_cell) in
    elim (Bool-cases (leb w (length line))) [
      | inl e ↦
          (let q : w ≤ length line = ground (arith, e) in
            k ∙ omega (arith, length-take w line q, q))
      | inr e ↦ k ∙ omega (arith, ap length (take_all w line (ground (arith, e))), short e)
    ]
  where
    short : leb w (length line) ≡ false → length line < w
    short e = ground (arith, e)

length-reformat_lines :
    (n oldw neww : ℕ) (store : List CharCell) → length (reformat_lines n oldw neww store) ≡ n * neww
unfolding reformat_lines
length-reformat_lines zero oldw neww store = omega arith
length-reformat_lines (suc n) oldw neww store =
    length-append (fit_line neww (take oldw store)) _
    ∙ omega (
      arith,
      length-fit_line neww (take oldw store),
      length-reformat_lines n oldw neww (drop oldw store),
    )

line_at-reformat_lines :
    (n oldw neww y : ℕ) (store : List CharCell)
    → y < n
    → line_at neww y (reformat_lines n oldw neww store) ≡ fit_line neww (line_at oldw y store)
unfolding reformat_lines
line_at-reformat_lines zero oldw neww y store l = absurd (omega arith)
line_at-reformat_lines (suc n) oldw neww zero store l =
    let line = fit_line neww (take oldw store) in
    let k = length-fit_line neww (take oldw store) in
    ap (λ (m : ℕ). take neww (drop m (line ++ reformat_lines n oldw neww (drop oldw store))))
      (zero_times neww)
    ∙ take-append neww line _ (omega (arith, k))
    ∙ take_all neww line (omega (arith, k))
    ∙ ap (λ (m : ℕ). fit_line neww (take oldw (drop m store))) (sym (zero_times oldw))
  where
    zero_times : (m : ℕ) → 0 * m ≡ 0
    zero_times m = omega arith
line_at-reformat_lines (suc n) oldw neww (suc y) store l =
    let line = fit_line neww (take oldw store) in
    let rest = reformat_lines n oldw neww (drop oldw store) in
    let k = length-fit_line neww (take oldw store) in
    ap (λ (m : ℕ). take neww (drop m (line ++ rest))) (more neww)
    ∙ ap (take neww) (
        sym (drop_add neww (y * neww) (line ++ rest))
        ∙ ap (drop (y * neww)) (
            drop-append neww line rest (omega (arith, k))
            ∙ ap (λ (ys : List CharCell). ys ++ rest) (drop_past neww line (omega (arith, k)))))
    ∙ line_at-reformat_lines n oldw neww y (drop oldw store) (omega (arith, l))
    ∙ ap (λ (xs : List CharCell). fit_line neww (take oldw xs))
        (drop_add oldw (y * oldw) store ∙ ap (λ (m : ℕ). drop m store) (sym (more oldw)))
  where
    more : (m : ℕ) → suc y * m ≡ m + y * m
    more m = omega arith

nil_of_length : (xs : List CharCell) → length xs ≡ 0 → xs ≡ []
nil_of_length [] e = refl
nil_of_length (x ∷ xs) e = absurd (omega (arith, e))

-- Without lines only the width changes.
reformat_none-Holds :
    {w n : ℕ} {xs : List CharCell} (neww : ℕ) (g : HistoryFile)
    → Holds w n xs g
    → g.is_open ≡ true
    → g.lcount ≡ 0
    → Holds neww n (reformat_lines n w neww xs) (record g { width = neww })
reformat_none-Holds {w} {n} {xs} neww g k p none_left = record {
  valid = record {
    sound = k.valid.sound;
    once = k.valid.once;
    closed = k.valid.closed;
    empty = k.valid.empty;
    fits = k.valid.fits;
    lines = λ r. ground (arith, k.valid.lines r, none_left);
    place = k.valid.place;
  };
  cells = λ r.
      nil_of_length (g.store ++ g.used)
        (length-append g.store g.used ∙ ground (arith, k.valid.lines r, none_left))
      ∙ sym (
          nil_of_length (reformat_lines n w neww xs)
            (length-reformat_lines n w neww xs ∙ ground (arith, none_left, k.count p)));
  wide = λ r. refl;
  count = k.count;
}

-- A file whose write buffer is empty, with every line cut or filled.
reformat_store-Holds :
    {w n : ℕ} {xs : List CharCell} (neww : ℕ) (g : HistoryFile)
    → Holds w n xs g
    → g.used ≡ []
    → g.is_open ≡ true
    → Holds neww n
        (reformat_lines n w neww xs)
        (record g { store = reformat_lines g.lcount g.width neww g.store; width = neww })
reformat_store-Holds {w} {n} {xs} neww g k z p =
    let u = ap length z in
    let store : g.store ≡ xs =
      sym (append-nil g.store) ∙ sym (ap (λ (ys : List CharCell). g.store ++ ys) z) ∙ k.cells p in
    let c = k.count p in
    let l = length-reformat_lines g.lcount g.width neww g.store in
    record {
      valid = record {
        sound = k.valid.sound;
        once = k.valid.once;
        closed = k.valid.closed;
        empty = k.valid.empty;
        fits = k.valid.fits;
        lines = λ r. omega (arith, l, u);
        place = λ r. ground (arith, r, z);
      };
      cells = λ r.
          ap (λ (ys : List CharCell). reformat_lines g.lcount g.width neww g.store ++ ys) z
          ∙ append-nil _
          ∙ ap (λ (m : ℕ). reformat_lines m g.width neww g.store) c
          ∙ ap (λ (m : ℕ). reformat_lines n m neww g.store) (k.wide p)
          ∙ ap (λ (ys : List CharCell). reformat_lines n w neww ys) store;
      wide = λ r. refl;
      count = k.count;
    }

-- A file that is open, with its cells.
record Reformatted (w n : ℕ) (xs : List CharCell) (f : HistoryFile) : Type 0 where
  open_now : f.is_open ≡ true
  holds : Holds w n xs f

Reformatted-by :
    (b : Bool) {w n : ℕ} {xs : List CharCell} {p q : HistoryFile}
    → (b ≡ true → Reformatted w n xs p)
    → (b ≡ false → Reformatted w n xs q)
    → Reformatted w n xs (if b then p else q)
Reformatted-by true hp hq = hp refl
Reformatted-by false hp hq = hq refl

-- What is done after the flush.
reformat-Reformatted :
    {w n : ℕ} {xs : List CharCell} (neww : ℕ) (g : HistoryFile)
    → Holds w n xs g
    → g.used ≡ []
    → g.is_open ≡ true
    → (w == neww) ≡ false
    → Reformatted neww n (reformat_lines n w neww xs) (
        if not g.is_open || g.width == neww || g.lcount == 0
        then record g { width = neww }
        else record g { store = reformat_lines g.lcount g.width neww g.store; width = neww })
reformat-Reformatted neww g k z p d =
    Reformatted-by (not g.is_open || g.width == neww || g.lcount == 0)
      (λ e. record {
        open_now = p;
        holds = reformat_none-Holds neww g k p (ground (arith, e, p, k.wide p, d));
      })
      (λ e. record { open_now = p; holds = reformat_store-Holds neww g k z p })

-- `history_reformat` to another width, where the calls of the system succeed: the file stays open,
-- keeps its invariant and the number of its lines, has the new width, and each of its lines is the
-- line that it was, cut to the new width or filled up to it with default cells.
pub history_reformat-Holds :
    {w n : ℕ} {xs : List CharCell} (a : Access) (neww : ℕ) (f : HistoryFile)
    → Holds w n xs f
    → f.is_open ≡ true
    → (w == neww) ≡ false
    → succeeds a ≡ true
    → ((history_reformat a true neww f).is_open ≡ true)
      × Holds neww n (reformat_lines n w neww xs) (history_reformat a true neww f)
      × ((y : ℕ)
          → y < n
          → line_at neww y (reformat_lines n w neww xs) ≡ fit_line neww (line_at w y xs))
unfolding history_reformat
history_reformat-Holds {w} {n} {xs} a neww f h o d s =
    let b = flush-IsOpen a f s o in
    let q = flush-Flushed a f h o in
    let r = reformat-Reformatted neww (history_flush a f).0 q.holds (q.emptied b.ok) b.file d in
    (r.open_now, r.holds, λ y. line_at-reformat_lines n w neww y xs)

-- A failure in the middle of `history_reformat` closes the file and keeps the write buffer. The next
-- `history_ensure` frees the buffer and keeps the pointer, and the next `history_close` frees it
-- again: freed twice, where there was a write buffer.
pub history_close-history_reformat :
    (a b : Access) (created r : Bool) (neww w : ℕ) (f : HistoryFile)
    → IsHistory f
    → f.is_open ≡ true
    → is_null f.wrbuffer ≡ false
    → (f.width == neww) ≡ false
    → (f.lcount == 0) ≡ false
    → succeeds a ≡ true
    → (history_close (history_ensure created b r w (history_reformat a false neww f))).double_free
      ≡ true
unfolding history_close history_ensure history_reformat history_flush
history_close-history_reformat a b created r neww w f h o n d c s = ground (arith, o, n, d, c, s)
