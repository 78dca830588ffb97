-- ===== src/History/Lines.antt =====
-- `history_flush` keeps the lines, and what a line adds to them.
use yterm.Prelude.{
  ℕ, ◌+◌, ◌*◌, ◌≡◌, refl, ap, sym, ◌∙◌, Bool, true, false, ◌&&◌, not, List, [], ◌∷◌, ◌++◌,
  if◌then◌else◌, length, length-append, arith,
}
use mathlib.Core.List.{append-nil, append_assoc}
use yterm.Cell.{CharCell}
use yterm.History.{
  HistoryFile, Access, cell_size, is_empty, write_at, history_close, history_flush, no_room,
}
use yterm.History.Inv.{write_at_end, Holds, closed-Holds}

-- What `history_flush` gives of a file that holds `n` lines.
pub record Flushed (w n : ℕ) (xs : List CharCell) (p : HistoryFile × Bool) : Type 0 where
  pub holds : Holds w n xs p.0
  pub emptied : p.1 ≡ true → p.0.used ≡ []
  pub opened : p.1 ≡ p.0.is_open

pub nil_of_empty : (xs : List CharCell) → is_empty xs ≡ true → xs ≡ []
nil_of_empty [] e = refl
nil_of_empty (x ∷ xs) e = ground (arith, e)

module _ {w n : ℕ} {xs : List CharCell} where
  Flushed-by :
      (b : Bool) {p q : HistoryFile × Bool}
      → (b ≡ true → Flushed w n xs p)
      → (b ≡ false → Flushed w n xs q)
      → Flushed w n xs (if b then p else q)
  Flushed-by true hp hq = hp refl
  Flushed-by false hp hq = hq refl

  pub Holds-by :
      (b : Bool) {p q : HistoryFile}
      → (b ≡ true → Holds w n xs p)
      → (b ≡ false → Holds w n xs q)
      → Holds w n xs (if b then p else q)
  Holds-by true hp hq = hp refl
  Holds-by false hp hq = hq refl

  written-Holds :
      (f : HistoryFile)
      → Holds w n xs f
      → is_empty f.used ≡ false
      → Holds w n xs (record f { store = write_at f.ofs f.used f.store; used = []; ofs = 0 })
  written-Holds f h e =
      let q = write_at_end f.ofs f.used f.store (h.valid.place e) in
      let l = ap length q ∙ length-append f.store f.used in
      record {
        valid = record {
          sound = h.valid.sound;
          once = h.valid.once;
          closed = h.valid.closed;
          empty = λ p. refl;
          fits = omega arith;
          lines = λ o. omega (arith, l, h.valid.lines o);
          place = λ p. ground (arith, p);
        };
        cells = λ o. append-nil _ ∙ q ∙ h.cells o;
        wide = h.wide;
        count = h.count;
      }

  pub flush-Flushed :
      (a : Access) (f : HistoryFile)
      → Holds w n xs f
      → f.is_open ≡ true
      → Flushed w n xs (history_flush a f)
  unfolding history_flush
  flush-Flushed a f h o =
      Flushed-by f.is_open
        (λ c.
          Flushed-by (not (is_empty f.used))
            (λ e.
              Flushed-by (a.seek && a.done)
                (λ d. record {
                  holds = written-Holds f h (ground (arith, e));
                  emptied = λ p. refl;
                  opened = sym o;
                })
                (λ d. record {
                  holds = closed-Holds f h.valid;
                  emptied = λ p. ground (arith, p);
                  opened = unfold history_close in refl;
                }))
            (λ e. record {
              holds = h;
              emptied = λ p. nil_of_empty f.used (ground (arith, e));
              opened = sym o;
            }))
        (λ c. absurd (ground (arith, o, c)))

  -- A line that goes to the file.
  pub appended-Holds :
      (f : HistoryFile) (line : List CharCell)
      → Holds w n xs f
      → f.is_open ≡ true
      → f.used ≡ []
      → length line ≡ w
      → Holds w (n + 1) (xs ++ line) (record f {
        store = write_at (f.lcount * length line) line f.store;
        lcount = f.lcount + 1;
      })
  appended-Holds f line h o e l =
      let z : length f.used ≡ 0 = ap length e in
      let end : f.lcount * length line ≡ length f.store =
        ap (λ (k : ℕ). f.lcount * k) (l ∙ sym (h.wide o))
        ∙ sym (h.valid.lines o)
        ∙ omega (arith, z) in
      let q = write_at_end (f.lcount * length line) line f.store end in
      let k = ap length q ∙ length-append f.store line in
      record {
        valid = record {
          sound = h.valid.sound;
          once = h.valid.once;
          closed = h.valid.closed;
          empty = h.valid.empty;
          fits = h.valid.fits;
          lines = λ p. ground (arith, k, z, l, h.wide o, h.valid.lines o);
          place = λ p. ground (arith, p, e);
        };
        cells = λ p.
            ap (λ (ys : List CharCell). write_at (f.lcount * length line) line f.store ++ ys) e
            ∙ append-nil _
            ∙ q
            ∙ ap (λ (ys : List CharCell). ys ++ line)
                (sym (append-nil f.store)
                  ∙ sym (ap (λ (ys : List CharCell). f.store ++ ys) e)
                  ∙ h.cells o);
        wide = h.wide;
        count = λ p. ap (λ (k : ℕ). k + 1) (h.count o);
      }

  pub buffered-Holds :
      (f : HistoryFile) (line : List CharCell)
      → Holds w n xs f
      → f.is_open ≡ true
      → length line ≡ w
      → no_room (cell_size * length line) f ≡ false
      → Holds w (n + 1) (xs ++ line) (record f {
        ofs = if is_empty f.used then f.lcount * length line else f.ofs;
        used = f.used ++ line;
        lcount = f.lcount + 1;
      })
  buffered-Holds f line h o l r =
      let k = length-append f.used line in
      record {
        valid = record {
          sound = h.valid.sound;
          once = h.valid.once;
          closed = h.valid.closed;
          empty = λ p. ground (arith, p, r);
          fits = ground (arith, k, r, h.valid.fits);
          lines = λ p. ground (arith, k, l, h.wide o, h.valid.lines o);
          place = λ p. placed (is_empty f.used) refl;
        };
        cells = λ p.
            sym (append_assoc f.store f.used line)
            ∙ ap (λ (ys : List CharCell). ys ++ line) (h.cells o);
        wide = h.wide;
        count = λ p. ap (λ (k : ℕ). k + 1) (h.count o);
      }
    where
      placed :
          (b : Bool)
          → is_empty f.used ≡ b
          → (if b then f.lcount * length line else f.ofs) ≡ length f.store
      placed true e =
          ap (λ (k : ℕ). f.lcount * k) (l ∙ sym (h.wide o))
          ∙ sym (h.valid.lines o)
          ∙ omega (arith, ap length (nil_of_empty f.used e))
      placed false e = h.valid.place e
