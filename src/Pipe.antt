-- ===== src/Pipe.antt =====
-- term_lib.inc.c and yterm_main.c: the queue of bytes for the child, `term_write_raw` and
-- `one_term_write`. What the calls of the system return is an argument.
pub mod Bounds
pub mod Order
pub mod Drain
pub mod Write
mod Tests
use yterm.Prelude.{
  ℕ, ◌+◌, ◌-◌, ◌/◌, max, Bool, true, false, ◌&&◌, ◌||◌, not, List, [], ◌∷◌, ◌++◌, ltb, leb, ◌==◌,
  if◌then◌else◌, length, take, drop, bit_or,
}

-- `deadstate == DS_ALIVE`, `child.cmdfd >= 0`, and `wrbuf`: the bytes in use and the size.
pub record Pipe : Type 0 where
  pub alive : Bool
  pub is_open : Bool
  pub used : List ℕ
  pub size : ℕ

-- WRITE_BUF_SIZE, and the limit of the buffer.
abbrev pub write_buf_size : ℕ
write_buf_size = 128

abbrev pub max_size : ℕ
max_size = 0x00200000

-- `term_close_fd`.
abbrev pub close_fd : Pipe → Pipe
close_fd p = record p { is_open = false; used = []; size = 0 }

abbrev pub is_empty : List ℕ → Bool
is_empty [] = true
is_empty (_ ∷ _) = false

-- The size of the buffer for `n` bytes.
abbrev pub new_size : ℕ → ℕ
new_size n = if leb n write_buf_size then write_buf_size else bit_or n 4095 + 1

-- The bytes are added, and the buffer grows if it must; `ok` tells whether `realloc` succeeds.
unfoldable pub enqueue : Bool → List ℕ → Pipe → Pipe
enqueue ok bytes p =
    let need = length p.used + length bytes in
    if ltb p.size need
    then if leb max_size p.size || ltb (max_size - p.size) (length bytes) || not ok
      then close_fd p
      else record p { used = p.used ++ bytes; size = new_size need }
    else record p { used = p.used ++ bytes }

-- `term_write_raw`, with the length given.
unfoldable pub write_raw : Bool → List ℕ → Pipe → Pipe
unfolding enqueue
write_raw ok bytes p =
    if not p.alive
    then close_fd p
    else if not (is_empty bytes) && p.is_open
    then enqueue ok bytes p
    else p

-- What `write` returns: EINTR or EAGAIN, another error, 0, or the number of bytes.
pub data WriteResult : Type 0 where
  write_again write_error write_none : WriteResult
  written : ℕ → WriteResult

unfoldable pub dequeue : WriteResult → Pipe → Pipe
dequeue write_again p = p
dequeue write_error p = close_fd p
dequeue write_none p = close_fd p
dequeue (written n) p = record p { used = drop n p.used }

-- `shrink buffer`.
unfoldable pub shrink : Bool → Pipe → Pipe
shrink ok p =
    let nsz = max write_buf_size (if ltb 4096 p.size then 4096 else p.size / 2) in
    if ltb write_buf_size p.size && leb (length p.used) nsz && ok
    then record p { size = nsz }
    else p

-- Whether `one_term_write` calls `write`; `ready` is the result of `select` in `term_can_write`.
abbrev pub writes : Bool → Pipe → Bool
writes ready p = not (is_empty p.used) && p.alive && p.is_open && ready

-- `one_term_write`.
unfoldable pub one_term_write : Bool → WriteResult → Bool → Pipe → Pipe
unfolding dequeue shrink
one_term_write ready r ok p = shrink ok (if writes ready p then dequeue r p else p)
