-- ===== src/History/Append.antt =====
-- `history_append_line` appends a line.
use yterm.Prelude.{
  ℕ, ◌+◌, ◌*◌, ◌≤◌, ◌<◌, ◌≡◌, refl, Bool, true, false, ◌||◌, not, List, [], ◌++◌, ltb, ◌==◌,
  if◌then◌else◌, length, length-take, drop, length-drop, arith, pos, ltb_ℤ, leb_ℤ,
}
use yterm.Cell.{CharCell}
use yterm.Cellwin.{CellBuffer}
use yterm.Cellwin.Dirty.{IsValid}
use yterm.Cellwin.Lines.{mul_mono}
use yterm.History.{
  HistoryFile, Access, AppendResults, free_buffer, store_line, history_ensure, line_at,
  history_append_line,
}
use yterm.History.Inv.{content, IsHistory, Holds}
use yterm.History.Inv.{shut-Holds}
use yterm.History.Lines.{Holds-by}
use yterm.History.Store.{store_line-Holds}

-- The file is opened where it is closed; its lines are as long as those of the buffer already.
ensured-Holds :
    (created : Bool) (a : Access) (reformatted : Bool) (w : ℕ) (f : HistoryFile)
    → IsHistory f
    → (f.is_open ≡ true → f.width ≡ w)
    → Holds w
        (if f.is_open then f.lcount else 0)
        (if f.is_open then content f else [])
        (history_ensure created a reformatted w f)
unfolding history_ensure
ensured-Holds created a reformatted w f h e = go f.is_open refl
  where
    fresh :
        f.is_open ≡ false
        → Holds w 0 [] (record (free_buffer f) {
          is_open = created;
          store = [];
          width = w;
          lcount = 0;
          size = 0;
          used = [];
          ofs = 0;
        })
    fresh o =
        let z = h.closed o in
        record {
          valid = record {
            sound = ground (arith, z, h.sound);
            once = ground (arith, z, h.once);
            closed = λ p. ground (arith, z);
            empty = λ p. refl;
            fits = omega arith;
            lines = λ p. omega arith;
            place = λ p. ground (arith, p);
          };
          cells = λ p. refl;
          wide = λ p. refl;
          count = λ p. refl;
        }

    go :
        (b : Bool)
        → f.is_open ≡ b
        → Holds w
            (if b then f.lcount else 0)
            (if b then content f else [])
            (history_ensure created a reformatted w f)
    go true o =
        Holds-by (not f.is_open) (λ n. absurd (ground (arith, n, o)))
          (λ n.
            Holds-by (not (f.width == w)) (λ d. absurd (ground (arith, d, e o)))
              (λ d. record { valid = h; cells = λ p. refl; wide = e; count = λ p. refl }))
    go false o = Holds-by (not f.is_open) (λ n. fresh o) (λ n. absurd (ground (arith, n, o)))

pub line_lt : (w h y : ℕ) → y < h → y * w + w ≤ w * h
line_lt w h y l = omega (arith, mul_mono (y + 1) h w (omega (arith, l)))

pub length-line_at :
    (cb : CellBuffer) (y : ℕ)
    → IsValid cb
    → y < cb.height
    → length (line_at cb.width y cb.buf) ≡ cb.width
length-line_at cb y v l =
    let k = line_lt cb.width cb.height y l in
    length-take cb.width (drop (y * cb.width) cb.buf)
      (omega (arith, k, length-drop (y * cb.width) cb.buf, v.size))

-- The file that a call of `history_append_line` leaves, from the lines before.
abbrev pub before : HistoryFile → List CharCell
before f = if f.is_open then content f else []

abbrev pub lines_before : HistoryFile → ℕ
lines_before f = if f.is_open then f.lcount else 0

-- `history_append_line` refines a list of lines. Where the history is not too long and its lines are
-- as wide as the buffer, then, whatever the calls of the system return, the file keeps its invariant
-- (no memory is freed twice or used after, and the write buffer is not overrun), and it is closed or
-- holds the lines it held before and the line of the buffer after them, and counts it.
pub history_append_line-Holds :
    (r : AppendResults) (cb : CellBuffer) (y : ℕ) (f : HistoryFile)
    → IsValid cb
    → y < cb.height
    → IsHistory f
    → f.lcount ≤ 0x00ffffff
    → (f.is_open ≡ true → f.width ≡ cb.width)
    → Holds cb.width
        (lines_before f + 1)
        (before f ++ line_at cb.width y cb.buf)
        (history_append_line r cb (pos y) f)
unfolding history_append_line
history_append_line-Holds r cb y f v l h c e =
    Holds-by (ltb_ℤ (pos y) (pos 0) || leb_ℤ (pos cb.height) (pos y))
      (λ g. absurd (ground (arith, g, l)))
      (λ g. reached (ltb 0x00ffffff f.lcount) (ground (arith, c)))
  where
    stored :
        (f' : HistoryFile)
        → Holds cb.width (lines_before f) (before f) f'
        → Holds cb.width
            (lines_before f + 1)
            (before f ++ line_at cb.width y cb.buf)
            (if not f'.is_open then f' else store_line r (line_at cb.width y cb.buf) f')
    stored f' k =
        Holds-by (not f'.is_open) (λ n. shut-Holds f' k.valid (ground (arith, n)))
          (λ n.
            store_line-Holds r (line_at cb.width y cb.buf) f' k (ground (arith, n))
              (length-line_at cb y v l))

    reached :
        (b : Bool)
        → b ≡ false
        → Holds cb.width (lines_before f + 1) (before f ++ line_at cb.width y cb.buf) (
            let f1 = if b then record f { is_open = false; width = 0; lcount = 0 } else f in
            let f' = history_ensure r.created r.first_flush r.reformatted cb.width f1 in
            if not f'.is_open then f' else store_line r (line_at cb.width y cb.buf) f')
    reached true n = absurd (ground (arith, n))
    reached false n =
        stored (history_ensure r.created r.first_flush r.reformatted cb.width f)
          (ensured-Holds r.created r.first_flush r.reformatted cb.width f h e)
