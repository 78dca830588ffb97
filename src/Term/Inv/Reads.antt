-- ===== src/Term/Inv/Reads.antt =====
-- `one_term_read` keeps the invariant of the terminal.
use yterm.Prelude.{ℕ, ◌≡◌, Bool, true, false, ◌&&◌, not, List, [], ◌∷◌, if◌then◌else◌}
use yterm.Utf.{utf8d_consume_ex, valid_cp, decode_failed, replacement_cp, koi2uni}
use yterm.Term.{Env}
use yterm.Term.Input.{
  Child, ReadResult, read_again, read_eio, read_error, read_eof, read_bytes, read_koi, read_byte,
  read_utf, one_term_read,
}
use yterm.Term.Inv.{IsTerm}
use yterm.Term.Inv.Scrolls.{IsTerm-if}
use yterm.Term.Inv.Puts.{putc-IsTerm}
use yterm.Term.Inv.Machine.{process_char-IsTerm}

module _ {w h : ℕ} where
  read_koi-IsTerm :
      (env : Env) (bs : List ℕ) (c : Child)
      → env.vttest ≡ false
      → IsTerm w h c.term
      → IsTerm w h (read_koi env bs c).term
  unfolding read_koi
  read_koi-IsTerm env [] c e i = i
  read_koi-IsTerm env (b ∷ bs) c e i =
      read_koi-IsTerm env bs _ e (process_char-IsTerm env (koi2uni b) c.term e i)

  read_utf-IsTerm :
      (env : Env) (bs : List ℕ) (c : Child)
      → env.vttest ≡ false
      → IsTerm w h c.term
      → IsTerm w h (read_utf env bs c).term
  unfolding read_utf read_byte
  read_utf-IsTerm env [] c e i = i
  read_utf-IsTerm env (b ∷ bs) c e i =
      let r = utf8d_consume_ex c.rdcp b in
      read_utf-IsTerm env bs (read_byte env b c) e (
        IsTerm-if (valid_cp r) (process_char-IsTerm env r c.term e i)
          (IsTerm-if (decode_failed r) (putc-IsTerm env replacement_cp c.term i) i))

  bytes-IsTerm :
      (b koi : Bool) (env : Env) (bs : List ℕ) (c : Child)
      → env.vttest ≡ false
      → IsTerm w h c.term
      → IsTerm w h (if b then if koi then read_koi env bs c else read_utf env bs c else c).term
  bytes-IsTerm true true env bs c e i = read_koi-IsTerm env bs c e i
  bytes-IsTerm true false env bs c e i = read_utf-IsTerm env bs c e i
  bytes-IsTerm false koi env bs c e i = i

  closed-IsTerm :
      (b : Bool) (c : Child)
      → IsTerm w h c.term
      → IsTerm w h (if b then record c { is_open = false } else c).term
  closed-IsTerm true c i = i
  closed-IsTerm false c i = i

  -- Whatever bytes a child writes, and whatever else `read` returns, `one_term_read` keeps the
  -- invariant of the terminal, and its size, where the mode for vttest is off: buffers of that size
  -- whose dirty counts agree with their flags, cursors and scroll region on the screen, and no write
  -- of the parser outside its arguments or its string.
  pub one_term_read-IsTerm :
      (env : Env) (r : ReadResult) (c : Child)
      → env.vttest ≡ false
      → IsTerm w h c.term
      → IsTerm w h (one_term_read env r c).term
  unfolding one_term_read
  one_term_read-IsTerm env read_again c e i = i
  one_term_read-IsTerm env read_eio c e i = i
  one_term_read-IsTerm env read_error c e i = closed-IsTerm (c.is_open && not c.term.selecting) c i
  one_term_read-IsTerm env read_eof c e i = closed-IsTerm (c.is_open && not c.term.selecting) c i
  one_term_read-IsTerm env (read_bytes bs) c e i =
      bytes-IsTerm (c.is_open && not c.term.selecting)
        (env.koi_locale && not c.term.mode.forced_utf) env bs c e i
