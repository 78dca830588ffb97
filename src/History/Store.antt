-- ===== src/History/Store.antt =====
-- A line is stored, in the file or in the write buffer.
use yterm.Prelude.{
  ℕ, ◌+◌, ◌-◌, ◌*◌, ◌≡◌, refl, ap, sym, ◌∙◌, Bool, true, ◌&&◌, not, List, ◌++◌, ltb, leb,
  if◌then◌else◌, length, arith,
}
use yterm.Cell.{CharCell}
use yterm.History.{
  HistoryFile, Access, AppendResults, cell_size, is_null, write_at, history_close, history_flush,
  write_line, no_room, put_line, alloc_buffer, store_line,
}
use yterm.History.Inv.{IsHistory, history_close-IsHistory, Holds}
use yterm.History.Inv.{shut-Holds}
use yterm.History.Lines.{Flushed, Holds-by, flush-Flushed, appended-Holds, buffered-Holds}

module _ {w n : ℕ} {xs : List CharCell} where
  write_after :
      (a : Access) (line : List CharCell) (p : HistoryFile × Bool)
      → Flushed w n xs p
      → length line ≡ w
      → Holds w (n + 1) (xs ++ line) (
          if not p.1
          then p.0
          else if a.seek && a.done
          then record (p.0) {
            store = write_at (p.0.lcount * length line) line p.0.store;
            lcount = p.0.lcount + 1;
          }
          else record (history_close p.0) { width = 0 })
  unfolding history_close
  write_after a line (f, ok) h l =
      Holds-by (not ok) (λ e. shut-Holds f h.holds.valid (ground (arith, e, h.opened)))
        (λ e.
          Holds-by (a.seek && a.done)
            (λ d.
              appended-Holds f line h.holds (ground (arith, e, h.opened))
                (h.emptied (ground (arith, e))) l)
            (λ d. failed-Holds f h.holds.valid))
    where
      failed-Holds :
          (f : HistoryFile)
          → IsHistory f
          → Holds w (n + 1) (xs ++ line) (record (history_close f) { width = 0 })
      failed-Holds f v =
          let c = history_close-IsHistory f v in
          shut-Holds (record (history_close f) { width = 0 })
            (record {
              sound = c.sound;
              once = c.once;
              closed = c.closed;
              empty = c.empty;
              fits = c.fits;
              lines = λ e. ground (arith, e);
              place = c.place;
            })
            refl

  put_line-Holds :
      (b a : Access) (line : List CharCell) (f : HistoryFile)
      → Holds w n xs f
      → f.is_open ≡ true
      → length line ≡ w
      → Holds w (n + 1) (xs ++ line) (put_line b a line f)
  unfolding put_line write_line
  put_line-Holds b a line f h o l =
      Holds-by (no_room (cell_size * length line) f)
        (λ e. write_after a line (history_flush b f) (flush-Flushed b f h o) l)
        (λ e. buffered-Holds f line h o l e)

  alloc_buffer-Holds :
      (ok : Bool) (f : HistoryFile)
      → Holds w n xs f
      → f.is_open ≡ true
      → Holds w n xs (alloc_buffer ok f)
  alloc_buffer-Holds ok f h o =
      Holds-by (is_null f.wrbuffer && ok)
        (λ e.
          let z = h.valid.empty (ground (arith, e)) in
          let k = ap length z in
          record {
            valid = record {
              sound = refl;
              once = h.valid.once;
              closed = λ p. ground (arith, o, p);
              empty = λ p. refl;
              fits = omega arith;
              lines = λ p. omega (arith, k, h.valid.lines p);
              place = λ p. ground (arith, p);
            };
            cells = λ p. sym (ap (λ (ys : List CharCell). f.store ++ ys) z) ∙ h.cells p;
            wide = h.wide;
            count = h.count;
          })
        (λ e. h)

  put_after :
      (b a : Access) (line : List CharCell) (p : HistoryFile × Bool)
      → Flushed w n xs p
      → length line ≡ w
      → Holds w (n + 1) (xs ++ line) (if p.1 then put_line b a line p.0 else p.0)
  put_after b a line (f, ok) h l =
      Holds-by ok (λ e. put_line-Holds b a line f h.holds (ground (arith, e, h.opened)) l)
        (λ e. shut-Holds f h.holds.valid (ground (arith, e, h.opened)))

  pub store_line-Holds :
      (r : AppendResults) (line : List CharCell) (f : HistoryFile)
      → Holds w n xs f
      → f.is_open ≡ true
      → length line ≡ w
      → Holds w (n + 1) (xs ++ line) (store_line r line f)
  unfolding store_line
  store_line-Holds r line f0 h0 o0 l =
      let f = alloc_buffer r.allocates f0 in
      let h = alloc_buffer-Holds r.allocates f0 h0 o0 in
      let o : f.is_open ≡ true = ground (arith, o0) in
      let lsz = cell_size * length line in
      Holds-by
        (not (is_null f.wrbuffer) && ltb (f.size - cell_size * length f.used) lsz && leb lsz f.size)
        (λ e.
          put_after r.second_flush r.line line (history_flush r.first_flush f)
            (flush-Flushed r.first_flush f h o) l)
        (λ e. put_line-Holds r.second_flush r.line line f h o l)
