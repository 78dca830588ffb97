-- ===== src/History/Loaded.antt =====
-- What `history_load_line` reads of a history file.
use yterm.Prelude.{
  ℕ, ◌+◌, ◌-◌, ◌*◌, ◌≤◌, ◌<◌, ◌≡◌, refl, ap, sym, ◌∙◌, Bool, true, false, ◌&&◌, ◌||◌, not, List, [],
  ◌++◌, Option, none, some, ltb, leb, ◌==◌, if◌then◌else◌, length, length-append, take, length-take,
  take-append, take-length, drop, length-drop, drop-append, drop_past, arith, inl, inr, Bool-cases,
  pos, ltb_ℤ,
}
use mathlib.Core.List.{append-nil}
use yterm.Cell.{CharCell}
use yterm.Cellwin.{CellBuffer}
use yterm.Cellwin.Dirty.{IsValid}
use yterm.History.{HistoryFile, Access, AppendResults, history_flush, line_at, history_append_line}
use yterm.History.Load.{read_line, history_load_line}
use yterm.History.Inv.{content, IsHistory, Holds}
use yterm.History.Lines.{flush-Flushed}
use yterm.History.Append.{before, lines_before, line_lt, length-line_at, history_append_line-Holds}
use yterm.History.Opened.{succeeds, all_succeed, IsOpen, flush-IsOpen, history_append_line-content}

-- The read of a line in a file with nothing in the buffer.
read_line-Holds :
    {w n : ℕ} {xs : List CharCell} (rd : Access) (y : ℕ) (f : HistoryFile)
    → Holds w n xs f
    → f.is_open ≡ true
    → f.used ≡ []
    → y < n
    → succeeds rd ≡ true
    → read_line rd y f ≡ some (line_at w y xs)
unfolding read_line
read_line-Holds {w} {n} {xs} rd y f h o e l s =
    let store : f.store ≡ xs =
      sym (append-nil f.store) ∙ sym (ap (λ (ys : List CharCell). f.store ++ ys) e) ∙ h.cells o in
    let q = h.wide o in
    let k = line_lt f.width f.lcount y (omega (arith, h.count o, l)) in
    let size = h.valid.lines o in
    let z = ap length e in
    let full : length (line_at f.width y f.store) ≡ f.width =
      length-take f.width (drop (y * f.width) f.store)
        (omega (arith, k, length-drop (y * f.width) f.store, size, z)) in
    found (line_at f.width y f.store) full
    ∙ ap some
        (ap (λ (m : ℕ). line_at m y f.store) q ∙ ap (λ (ys : List CharCell). line_at w y ys) store)
  where
    found :
        (line : List CharCell)
        → length line ≡ f.width
        → (if rd.seek && rd.done && length line == f.width then some line else none) ≡ some line
    found line full = ground (arith, s, full)

-- The file and the line that a call gives.
pub record Loads (f : HistoryFile) (line_read : List CharCell)
    (p : HistoryFile × Option (List CharCell)) : Type 0 where
  pub file : p.0 ≡ f
  pub line : p.1 ≡ some line_read

Loads-by :
    (b : Bool) {f : HistoryFile} {xs : List CharCell} {p q : HistoryFile × Option (List CharCell)}
    → (b ≡ true → Loads f xs p)
    → (b ≡ false → Loads f xs q)
    → Loads f xs (if b then p else q)
Loads-by true hp hq = hp refl
Loads-by false hp hq = hq refl

-- A line of a file that holds `n` lines, where the calls of the system succeed.
pub history_load_line-Holds :
    {w n : ℕ} {xs : List CharCell} (a rd : Access) (cb : CellBuffer) (hh y : ℕ) (f : HistoryFile)
    → Holds w n xs f
    → f.is_open ≡ true
    → 1 ≤ hh
    → y < n
    → succeeds a ≡ true
    → succeeds rd ≡ true
    → Loads (history_flush a f).0 (line_at w y xs) (history_load_line a rd cb w hh (pos y) f)
unfolding history_load_line
history_load_line-Holds {w} {n} {xs} a rd cb hh y f h o p l sa sr =
    loaded (history_flush a f) (flush-Flushed a f h o).holds
      ((flush-Flushed a f h o).emptied (flush-IsOpen a f sa o).ok) (flush-IsOpen a f sa o)
  where
    loaded :
        (q : HistoryFile × Bool)
        → Holds w n xs q.0
        → q.0.used ≡ []
        → IsOpen q
        → Loads q.0 (line_at w y xs) (
            if hh == 0 || ltb_ℤ (pos y) (pos 0) || leb ((if f.is_open then f.lcount else 0) + hh) y
            then (f, none)
            else if ltb y (if f.is_open then f.lcount else 0)
            then if not q.1 || not q.0.is_open || not (q.0.width == w)
              then (q.0, none)
              else (q.0, read_line rd y q.0)
            else if ltb (y - (if f.is_open then f.lcount else 0)) cb.height
            then (f, some (line_at w (y - (if f.is_open then f.lcount else 0)) cb.buf))
            else (f, none))
    loaded q k z b =
        Loads-by
          (hh == 0 || ltb_ℤ (pos y) (pos 0) || leb ((if f.is_open then f.lcount else 0) + hh) y)
          (λ c. absurd (ground (arith, o, p, l, h.count o, c)))
          (λ c.
            Loads-by (ltb y (if f.is_open then f.lcount else 0))
              (λ d.
                Loads-by (not q.1 || not q.0.is_open || not (q.0.width == w))
                  (λ g. absurd (ground (arith, b.ok, b.file, k.wide b.file, g)))
                  (λ g. record { file = refl; line = read_line-Holds rd y q.0 k b.file z l sr }))
              (λ d. absurd (ground (arith, o, l, h.count o, d))))

-- A line of a list that is continued by one, from the lines before or the new one.
line_at-append :
    (w n y : ℕ) (xs line : List CharCell)
    → length xs ≡ n * w
    → length line ≡ w
    → y < n + 1
    → line_at w y (xs ++ line) ≡ (if y == n then line else line_at w y xs)
line_at-append w n y xs line e l b = elim (Bool-cases (y == n)) [
  | inl q ↦ last_line (ground (arith, q)) q
  | inr q ↦ earlier (ground (arith, q, b)) q
]
  where
    last_line :
        y ≡ n
        → (y == n) ≡ true
        → line_at w y (xs ++ line) ≡ (if y == n then line else line_at w y xs)
    last_line s q =
        let off : y * w ≡ length xs = ap (λ (k : ℕ). k * w) s ∙ sym e in
        rw (q) (
          ap (take w) (
            drop-append (y * w) xs line (omega (arith, off))
            ∙ ap (λ (ys : List CharCell). ys ++ line) (drop_past (y * w) xs (omega (arith, off))))
          ∙ ap (λ (k : ℕ). take k line) (sym l)
          ∙ take-length line)

    earlier :
        y < n
        → (y == n) ≡ false
        → line_at w y (xs ++ line) ≡ (if y == n then line else line_at w y xs)
    earlier s q =
        let k = line_lt w n y s in
        rw (q) (
          ap (take w) (drop-append (y * w) xs line (omega (arith, k, e)))
          ∙ take-append w (drop (y * w) xs) line (omega (arith, k, e, length-drop (y * w) xs)))

length-before :
    (w : ℕ) (f : HistoryFile)
    → IsHistory f
    → (f.is_open ≡ true → f.width ≡ w)
    → length (before f) ≡ lines_before f * w
length-before w f h e = go f.is_open refl
  where
    go :
        (b : Bool)
        → f.is_open ≡ b
        → length (if b then content f else []) ≡ (if b then f.lcount else 0) * w
    go true o = length-append f.store f.used ∙ h.lines o ∙ ap (λ (k : ℕ). f.lcount * k) (e o)
    go false o = omega arith

-- Round trip, for a history that is not too long and whose lines are as wide as the buffer if it is
-- open: after `history_append_line`, where the calls of the system succeed, `history_load_line` gives the line of the buffer under the number of the lines before, and under
-- every smaller number the line that the file held there, whether the lines are in the file or still
-- in the write buffer.
pub history_load_line-append :
    (r : AppendResults) (a rd : Access) (cb : CellBuffer) (hh y gy : ℕ) (f : HistoryFile)
    → IsValid cb
    → y < cb.height
    → IsHistory f
    → f.lcount ≤ 0x00ffffff
    → (f.is_open ≡ true → f.width ≡ cb.width)
    → all_succeed r ≡ true
    → 1 ≤ hh
    → gy < lines_before f + 1
    → succeeds a ≡ true
    → succeeds rd ≡ true
    → (history_load_line a rd cb cb.width hh (pos gy) (history_append_line r cb (pos y) f)).1
      ≡ some (
          if gy == lines_before f
          then line_at cb.width y cb.buf
          else line_at cb.width gy (before f))
history_load_line-append r a rd cb hh y gy f v l h c e s p g sa sr =
    let o = (history_append_line-content r cb y f v l h c e s).0 in
    let k = history_append_line-Holds r cb y f v l h c e in
    (history_load_line-Holds a rd cb hh gy _ k o p g sa sr).line
    ∙ ap some (
        line_at-append cb.width (lines_before f) gy (before f) (line_at cb.width y cb.buf)
          (length-before cb.width f h e) (length-line_at cb y v l) g)
