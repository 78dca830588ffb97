-- ===== src/Term/Input.antt =====
-- yterm_main.c: `one_term_read`, which gives the bytes of the child to the terminal.
use yterm.Prelude.{ℕ, Bool, false, not, ◌&&◌, List, [], ◌∷◌, if◌then◌else◌}
use yterm.Utf.{utf8d_consume_ex, valid_cp, decode_failed, replacement_cp, koi2uni}
use yterm.Term.{Term, Env}
use yterm.Term.Putc.{putc}
use yterm.Term.Process.{process_char}

-- The terminal, the state of its decoder, and whether `child.cmdfd` is open.
pub record Child : Type 0 where
  pub term : Term
  pub rdcp : ℕ
  pub is_open : Bool

-- What `read` returns: EINTR or EAGAIN, EIO, another error, no bytes, or some.
pub data ReadResult : Type 0 where
  read_again read_eio read_error read_eof : ReadResult
  read_bytes : List ℕ → ReadResult

-- The loop over bytes in KOI8.
unfoldable pub read_koi : Env → List ℕ → Child → Child
unfolding process_char
read_koi env [] c = c
read_koi env (b ∷ bs) c =
    read_koi env bs (record c { term = process_char env (koi2uni b) c.term; rdcp = koi2uni b })

-- One byte of UTF-8.
unfoldable pub read_byte : Env → ℕ → Child → Child
unfolding process_char
read_byte env b c =
    let r = utf8d_consume_ex c.rdcp b in
    record c {
      rdcp = r;
      term =
          if valid_cp r
          then process_char env r c.term
          else if decode_failed r
          then putc env replacement_cp c.term
          else c.term;
    }

-- The loop over bytes in UTF-8.
unfoldable pub read_utf : Env → List ℕ → Child → Child
unfolding read_byte
read_utf env [] c = c
read_utf env (b ∷ bs) c = read_utf env bs (read_byte env b c)

-- `one_term_read`, given what `read` returns.
unfoldable pub one_term_read : Env → ReadResult → Child → Child
unfolding read_koi read_utf
one_term_read env read_again c = c
one_term_read env read_eio c = c
one_term_read env read_error c =
    if c.is_open && not c.term.selecting then record c { is_open = false } else c
one_term_read env read_eof c =
    if c.is_open && not c.term.selecting then record c { is_open = false } else c
one_term_read env (read_bytes bs) c =
    if c.is_open && not c.term.selecting
    then if env.koi_locale && not c.term.mode.forced_utf
      then read_koi env bs c
      else read_utf env bs c
    else c
