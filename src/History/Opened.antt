-- ===== src/History/Opened.antt =====
-- While the calls of the system succeed the history file stays open.
use yterm.Prelude.{
  ℕ, ◌+◌, ◌≤◌, ◌<◌, ◌≡◌, refl, Bool, true, false, ◌&&◌, ◌||◌, not, List, ◌++◌, ltb, if◌then◌else◌,
  arith, pos, ltb_ℤ, leb_ℤ, inl, inr, Bool-cases,
}
use yterm.Cell.{CharCell}
use yterm.Cellwin.{CellBuffer}
use yterm.Cellwin.Dirty.{IsValid}
use yterm.History.{
  HistoryFile, Access, AppendResults, history_flush, write_line, put_line, alloc_buffer, store_line,
  history_ensure, line_at, history_append_line,
}
use yterm.History.Inv.{content, IsHistory}
use yterm.History.Append.{before, lines_before, history_append_line-Holds}

abbrev pub succeeds : Access → Bool
succeeds a = a.seek && a.done

abbrev pub all_succeed : AppendResults → Bool
all_succeed r = r.created && succeeds r.first_flush && succeeds r.second_flush && succeeds r.line

pub record IsOpen (p : HistoryFile × Bool) : Type 0 where
  pub ok : p.1 ≡ true
  pub file : p.0.is_open ≡ true

pub flush-IsOpen :
    (a : Access) (f : HistoryFile)
    → succeeds a ≡ true
    → f.is_open ≡ true
    → IsOpen (history_flush a f)
unfolding history_flush
flush-IsOpen a f s o = record { ok = ground (arith, s, o); file = ground (arith, s, o) }

-- A file that is open.
record Opened (f : HistoryFile) : Type 0 where
  open_now : f.is_open ≡ true

open-by :
    (b : Bool) {p q : HistoryFile}
    → (b ≡ true → Opened p)
    → (b ≡ false → Opened q)
    → Opened (if b then p else q)
open-by true hp hq = hp refl
open-by false hp hq = hq refl

put_line-is_open :
    (b a : Access) (line : List CharCell) (f : HistoryFile)
    → succeeds b ≡ true
    → succeeds a ≡ true
    → f.is_open ≡ true
    → (put_line b a line f).is_open ≡ true
unfolding put_line write_line
put_line-is_open b a line f sb sa o =
    let q = flush-IsOpen b f sb o in ground (arith, q.ok, q.file, sa, o)

store_line-is_open :
    (r : AppendResults) (line : List CharCell) (f : HistoryFile)
    → all_succeed r ≡ true
    → f.is_open ≡ true
    → (store_line r line f).is_open ≡ true
unfolding store_line
store_line-is_open r line f0 s o0 =
    let f = alloc_buffer r.allocates f0 in
    let o : f.is_open ≡ true = ground (arith, o0) in
    let q = flush-IsOpen r.first_flush f (ground (arith, s)) o in
    let p =
      put_line-is_open r.second_flush r.line line f (ground (arith, s)) (ground (arith, s)) o in
    let p' =
      put_line-is_open r.second_flush r.line line (history_flush r.first_flush f).0
        (ground (arith, s)) (ground (arith, s)) q.file in
    ground (arith, q.ok, p, p')

ensured-is_open :
    (created : Bool) (a : Access) (reformatted : Bool) (w : ℕ) (f : HistoryFile)
    → created ≡ true
    → (f.is_open ≡ true → f.width ≡ w)
    → (history_ensure created a reformatted w f).is_open ≡ true
unfolding history_ensure
ensured-is_open created a reformatted w f s e = elim (Bool-cases f.is_open) [
  | inl o ↦ ground (arith, o, e o)
  | inr o ↦ ground (arith, o, s)
]

appended-is_open :
    (r : AppendResults) (cb : CellBuffer) (y : ℕ) (f : HistoryFile)
    → y < cb.height
    → f.lcount ≤ 0x00ffffff
    → (f.is_open ≡ true → f.width ≡ cb.width)
    → all_succeed r ≡ true
    → Opened (history_append_line r cb (pos y) f)
unfolding history_append_line
appended-is_open r cb y f l c e s =
    open-by (ltb_ℤ (pos y) (pos 0) || leb_ℤ (pos cb.height) (pos y))
      (λ g. absurd (ground (arith, g, l)))
      (λ g. reached (ltb 0x00ffffff f.lcount) (ground (arith, c)))
  where
    stored :
        (f' : HistoryFile)
        → f'.is_open ≡ true
        → Opened (if not f'.is_open then f' else store_line r (line_at cb.width y cb.buf) f')
    stored f' o =
        open-by (not f'.is_open) (λ n. record { open_now = o })
          (λ n. record { open_now = store_line-is_open r (line_at cb.width y cb.buf) f' s o })

    reached :
        (b : Bool)
        → b ≡ false
        → Opened (
            let f1 = if b then record f { is_open = false; width = 0; lcount = 0 } else f in
            let f' = history_ensure r.created r.first_flush r.reformatted cb.width f1 in
            if not f'.is_open then f' else store_line r (line_at cb.width y cb.buf) f')
    reached true n = absurd (ground (arith, n))
    reached false n =
        stored (history_ensure r.created r.first_flush r.reformatted cb.width f)
          (ensured-is_open r.created r.first_flush r.reformatted cb.width f (ground (arith, s)) e)

-- While the calls of the system succeed no line is lost: `history_append_line` leaves a file that is
-- open and holds the lines before and the line of the buffer after them, where the history is not too
-- long and its lines are as wide as the buffer. (The allocation of the write buffer may fail.)
pub history_append_line-content :
    (r : AppendResults) (cb : CellBuffer) (y : ℕ) (f : HistoryFile)
    → IsValid cb
    → y < cb.height
    → IsHistory f
    → f.lcount ≤ 0x00ffffff
    → (f.is_open ≡ true → f.width ≡ cb.width)
    → all_succeed r ≡ true
    → ((history_append_line r cb (pos y) f).is_open ≡ true)
      × (content (history_append_line r cb (pos y) f) ≡ before f ++ line_at cb.width y cb.buf)
      × ((history_append_line r cb (pos y) f).lcount ≡ lines_before f + 1)
history_append_line-content r cb y f v l h c e s =
    let o = (appended-is_open r cb y f l c e s).open_now in
    let k = history_append_line-Holds r cb y f v l h c e in (o, k.cells o, k.count o)
