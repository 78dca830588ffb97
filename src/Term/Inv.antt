-- ===== src/Term/Inv.antt =====
-- The invariant of the terminal: both cell buffers are valid and of the terminal's size, and the
-- cursor, the saved cursor and the scroll region lie within them; the arguments and the string of the
-- escape parser lie within their arrays.
pub mod Moves
pub mod Scrolls
pub mod Still
pub mod Puts
pub mod Edits
pub mod Commands
pub mod Switches
pub mod Sizes
pub mod Sequences
pub mod Privates
pub mod Handle
pub mod Machine
pub mod Reads
use yterm.Prelude.{
  ℕ, ◌+◌, ◌-◌, ◌≤◌, ◌<◌, ◌≡◌, refl, ◌∙◌, Bool, true, false, arith, if◌then◌else◌, ◌==◌, ◌||◌, not,
  inl, inr, Bool-cases,
}
use yterm.Cellwin.{CellBuffer, max_buffer_size}
use yterm.Cellwin.Dirty.{IsValid, Keeps}
use yterm.Term.Sequence.{IsEscSeq}
use yterm.Term.{CursorPos, Screen, Term, wkscr, on_screen}

pub record IsBuffer (w h : ℕ) (cb : CellBuffer) : Type 0 where
  pub width : cb.width ≡ w
  pub height : cb.height ≡ h
  pub wide : w ≤ max_buffer_size
  pub tall : h ≤ max_buffer_size
  pub valid : IsValid cb

-- The flag of the last column is up there only: the assertion in `term_lcf_do`.
pub record IsCursor (w h : ℕ) (p : CursorPos) : Type 0 where
  pub column : p.x < w
  pub row : p.y < h
  pub flag : p.last_col_flag ≡ true → p.x + 1 ≡ w

pub record IsScreen (w h : ℕ) (s : Screen) : Type 0 where
  pub buffer : IsBuffer w h s.cbuf
  pub cursor : IsCursor w h s.curpos
  pub saved : IsCursor w h s.cursaved
  pub region : s.sc_top ≤ s.sc_bot
  pub bottom : s.sc_bot < h

-- The alternate screen has no buffer before it is used, and may be rid of it again.
abbrev pub has_alt : Term → Bool
has_alt t = t.on_alt || not (t.alt.cbuf.width == 0)

pub record IsTerm (w h : ℕ) (t : Term) : Type 0 where
  pub main : IsScreen w h t.main
  pub alt : has_alt t ≡ true → IsScreen w h t.alt
  pub sequence : IsEscSeq t.escseq

-- A function of the screen that keeps the invariant.
abbrev pub Safe : ℕ → ℕ → (Screen → Screen) → Type 0
Safe w h f = (s : Screen) → IsScreen w h s → IsScreen w h (f s)

module _ {w h : ℕ} where
  pub with_cbuf :
      {s : Screen} {cb : CellBuffer}
      → IsScreen w h s
      → Keeps s.cbuf cb
      → IsScreen w h (record s { cbuf = cb })
  with_cbuf i k = record {
    buffer = record {
      width = k.width ∙ i.buffer.width;
      height = k.height ∙ i.buffer.height;
      wide = i.buffer.wide;
      tall = i.buffer.tall;
      valid = k.valid i.buffer.valid;
    };
    cursor = i.cursor;
    saved = i.saved;
    region = i.region;
    bottom = i.bottom;
  }

  pub with_cursor :
      {s : Screen} {p : CursorPos}
      → IsScreen w h s
      → IsCursor w h p
      → IsScreen w h (record s { curpos = p })
  with_cursor i c = record {
    buffer = i.buffer;
    cursor = c;
    saved = i.saved;
    region = i.region;
    bottom = i.bottom;
  }

  pub with_region :
      {s : Screen} {top bot : ℕ}
      → IsScreen w h s
      → top ≤ bot
      → bot < h
      → IsScreen w h (record s { sc_top = top; sc_bot = bot })
  with_region i r b = record {
    buffer = i.buffer;
    cursor = i.cursor;
    saved = i.saved;
    region = r;
    bottom = b;
  }

  pub Safe-if :
      (b : Bool) {p q : Screen}
      → IsScreen w h p
      → IsScreen w h q
      → IsScreen w h (if b then p else q)
  Safe-if true hp hq = hp
  Safe-if false hp hq = hq

  -- The same, where the branches use the test.
  pub Safe-by :
      (b : Bool) {p q : Screen}
      → (b ≡ true → IsScreen w h p)
      → (b ≡ false → IsScreen w h q)
      → IsScreen w h (if b then p else q)
  Safe-by true hp hq = hp refl
  Safe-by false hp hq = hq refl

  pub wkscr-IsScreen : {t : Term} → IsTerm w h t → IsScreen w h (wkscr t)
  wkscr-IsScreen {t} i = elim (Bool-cases t.on_alt) [
    | inl e ↦ rw (e) (i.alt (ground (arith, e)))
    | inr e ↦ rw (e) i.main
  ]

  on_either-IsTerm :
      (f : Screen → Screen) (t : Term) (b : Bool)
      → t.on_alt ≡ b
      → (IsScreen w h (if b then t.alt else t.main)
          → IsScreen w h (f (if b then t.alt else t.main)))
      → IsTerm w h t
      → IsTerm w h (if b then record t { alt = f t.alt } else record t { main = f t.main })
  on_either-IsTerm f t true e s i = record {
    main = i.main;
    alt = λ _. s (i.alt (ground (arith, e)));
    sequence = i.sequence;
  }
  on_either-IsTerm f t false e s i = record { main = s i.main; alt = i.alt; sequence = i.sequence }

  pub on_screen-IsTerm :
      (f : Screen → Screen) (t : Term)
      → (IsScreen w h (wkscr t) → IsScreen w h (f (wkscr t)))
      → IsTerm w h t
      → IsTerm w h (on_screen f t)
  unfolding on_screen
  on_screen-IsTerm f t s i = on_either-IsTerm f t t.on_alt refl s i

pub wkscr-on_screen : (f : Screen → Screen) (t : Term) → wkscr (on_screen f t) ≡ f (wkscr t)
unfolding on_screen
wkscr-on_screen f t = ground arith
