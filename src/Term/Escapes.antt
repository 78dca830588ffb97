-- ===== src/Term/Escapes.antt =====
-- term_lib.inc.c: the states of the escape parser that take one character, and the ignored string.
use yterm.Prelude.{ℕ, zero, suc, Bool, true, false, not, ◌||◌, if◌then◌else◌, ◌==◌, some, pos}
use yterm.Cellwin.{CellBuffer, write_wchar_count}
use yterm.Cellwin.Dirty.{Keeps, Keeps-refl, Keeps-trans}
use yterm.Cellwin.Keeps.{write_wchar_count-Keeps}
use yterm.Cell.{CharCell}
use yterm.Term.{EscState, esc_none, esc_esc, Term, Env, wkscr, on_screen}
use yterm.Term.Putc.{putc}
use yterm.Term.Sequence.{with_state}
use yterm.Term.Inv.{IsTerm, with_cbuf, on_screen-IsTerm}
use yterm.Term.Inv.Scrolls.{IsTerm-if}
use yterm.Term.Inv.Puts.{putc-IsTerm}

abbrev pub set_state : EscState → Term → Term
set_state st t = record t { escseq = record (t.escseq) { state = st } }

-- `reset_esc`.
abbrev pub reset_esc : Term → Term
reset_esc t = set_state esc_none t

-- `term_process_altg0`: any character but 0 turns the graphics set off.
unfoldable pub process_altg0 : ℕ → Term → Term
process_altg0 cp t = record (reset_esc t) { mode = record (t.mode) { gfx0 = cp == 0x30 } }

-- `term_process_altg1`.
unfoldable pub process_altg1 : ℕ → Term → Term
process_altg1 cp t = record (reset_esc t) { mode = record (t.mode) { gfx1 = cp == 0x30 } }

-- `term_process_percent`: G and 8 force UTF-8, any other character ends it.
unfoldable pub process_percent : ℕ → Term → Term
process_percent cp t = record (reset_esc t) {
  mode = record (t.mode) { forced_utf = cp == 0x47 || cp == 0x38 };
}

-- The loop of `term_process_hash`, from the line `y` on.
unfoldable pub fill_lines : ℕ → ℕ → CharCell → CellBuffer → CellBuffer
fill_lines zero y a cb = cb
fill_lines (suc n) y a cb =
    fill_lines n (suc y) a (write_wchar_count cb (pos 0) (pos y) 0x45 (pos cb.width) (some a))

-- `term_process_hash`: 8 fills the screen with E.
unfoldable pub process_hash : ℕ → Term → Term
unfolding fill_lines
process_hash cp t =
    if cp == 0x38
    then on_screen (λ s. record s { cbuf = fill_lines s.cbuf.height 0 s.currattr s.cbuf })
        (reset_esc t)
    else record (reset_esc t) { mode = record (t.mode) { forced_utf = false } }

abbrev pub set_charset : Bool → Term → Term
set_charset g1 t = record t { charset = record { gfx0 = not g1; gfx1 = g1 } }

-- `term_process_s_ign`: the string is dropped, and some control characters end it.
unfoldable pub process_s_ign : Env → ℕ → Term → Term
process_s_ign env cp t =
    if cp == 0x07 || cp == 0x18
    then reset_esc t
    else if cp == 0x08 || cp == 0x09 || cp == 0x0a || cp == 0x0b || cp == 0x0c || cp == 0x0d
    then putc env cp (reset_esc t)
    else if cp == 0x0e
    then set_charset true (reset_esc t)
    else if cp == 0x0f
    then set_charset false (reset_esc t)
    else if cp == 0x1a
    then putc env 0x3f (reset_esc t)
    else if cp == 0x1b
    then set_state esc_esc (reset_esc t)
    else t

fill_lines-Keeps : (n y : ℕ) (a : CharCell) (cb : CellBuffer) → Keeps cb (fill_lines n y a cb)
unfolding fill_lines
fill_lines-Keeps zero y a cb = Keeps-refl cb
fill_lines-Keeps (suc n) y a cb =
    Keeps-trans (write_wchar_count-Keeps cb (pos 0) (pos y) 0x45 (pos cb.width) (some a))
      (fill_lines-Keeps n (suc y) a _)

module _ {w h : ℕ} where
  pub quiet : {t : Term} → IsTerm w h t → IsTerm w h (reset_esc t)
  quiet i = record { main = i.main; alt = i.alt; sequence = with_state esc_none i.sequence }

  pub process_hash-IsTerm : (cp : ℕ) (t : Term) → IsTerm w h t → IsTerm w h (process_hash cp t)
  unfolding process_hash
  process_hash-IsTerm cp t i =
      IsTerm-if (cp == 0x38)
        (on_screen-IsTerm _ (reset_esc t)
          (λ s.
            with_cbuf s (
              fill_lines-Keeps (wkscr (reset_esc t)).cbuf.height 0 (wkscr (reset_esc t)).currattr
                _))
          (quiet i))
        (record { main = i.main; alt = i.alt; sequence = with_state esc_none i.sequence })

  pub process_s_ign-IsTerm :
      (env : Env) (cp : ℕ) (t : Term) → IsTerm w h t → IsTerm w h (process_s_ign env cp t)
  unfolding process_s_ign
  process_s_ign-IsTerm env cp t i = IsTerm-if (cp == 0x07 || cp == 0x18) (quiet i) (
      IsTerm-if (cp == 0x08 || cp == 0x09 || cp == 0x0a || cp == 0x0b || cp == 0x0c || cp == 0x0d)
        (putc-IsTerm env cp _ (quiet i))
        (IsTerm-if (cp == 0x0e)
          (record { main = i.main; alt = i.alt; sequence = with_state esc_none i.sequence })
          (IsTerm-if (cp == 0x0f)
            (record { main = i.main; alt = i.alt; sequence = with_state esc_none i.sequence })
            (IsTerm-if (cp == 0x1a) (putc-IsTerm env 0x3f _ (quiet i)) (
              IsTerm-if (cp == 0x1b)
                (record { main = i.main; alt = i.alt; sequence = with_state esc_esc i.sequence })
                i)))))

  -- The states of the escape parser that take one character after ESC and an intermediate one, and
  -- the state that ignores a string, keep the invariant of the terminal on every character.
  pub process_one-IsTerm :
      (env : Env) (cp : ℕ) (t : Term)
      → IsTerm w h t
      → IsTerm w h (process_altg0 cp t)
        × IsTerm w h (process_altg1 cp t)
        × IsTerm w h (process_percent cp t)
        × IsTerm w h (process_hash cp t)
        × IsTerm w h (process_s_ign env cp t)
  unfolding process_altg0 process_altg1 process_percent
  process_one-IsTerm env cp t i = (
    record { main = i.main; alt = i.alt; sequence = with_state esc_none i.sequence },
    record { main = i.main; alt = i.alt; sequence = with_state esc_none i.sequence },
    record { main = i.main; alt = i.alt; sequence = with_state esc_none i.sequence },
    process_hash-IsTerm cp t i,
    process_s_ign-IsTerm env cp t i,
  )
