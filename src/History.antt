-- ===== src/History.antt =====
-- history.inc.c: the lines that left the screen, in an anonymous file behind a write buffer.
--
-- The file that `fd` names is the list of its cells (every offset is a multiple of the size of a
-- cell). What the calls of the system return is an argument.
pub mod Load
pub mod Inv
pub mod Lines
pub mod Store
pub mod Append
pub mod Opened
pub mod Loaded
pub mod Reformat
mod Tests
use yterm.Prelude.{
  ℕ, zero, suc, ◌+◌, ◌-◌, ◌*◌, Bool, true, false, ◌&&◌, ◌||◌, not, List, [], ◌∷◌, ◌++◌, ltb, leb,
  ◌==◌, if◌then◌else◌, length, take, drop, replicate, ℤ, pos, pos_part, ltb_ℤ, leb_ℤ,
}
use yterm.Cell.{CharCell, default_cell}
use yterm.Cellwin.{CellBuffer}

-- The pointer `wrbuffer`: NULL, or to memory that is allocated, or that is freed.
pub data WrBuffer : Type 0 where
  no_buffer allocated freed : WrBuffer

-- `HistoryFile`. `is_open` is `fd >= 0`, `store` the contents of the file, `used` the first
-- `wrbufferUsed` bytes of the buffer as cells, `ofs` is `wrbufferOfs` in cells; `double_free` tells
-- that freed memory was freed.
pub record HistoryFile : Type 0 where
  pub is_open : Bool
  pub store : List CharCell
  pub width : ℕ
  pub lcount : ℕ
  pub wrbuffer : WrBuffer
  pub size : ℕ
  pub used : List CharCell
  pub ofs : ℕ
  pub double_free : Bool

-- Whether a call of `lseek`, and the call of `write` or `read` after it, succeed.
pub record Access : Type 0 where
  pub seek : Bool
  pub done : Bool

-- The results of the system in `history_append_line`.
pub record AppendResults : Type 0 where
  pub created : Bool
  pub reformatted : Bool
  pub allocates : Bool
  pub first_flush : Access
  pub second_flush : Access
  pub line : Access

-- `sizeof(CharCell)`, and YT_HISTORY_WRBUF_SIZE.
abbrev pub cell_size : ℕ
cell_size = 12

abbrev pub wrbuf_size : ℕ
wrbuf_size = 65536 * 2

abbrev pub is_null : WrBuffer → Bool
is_null no_buffer = true
is_null _ = false

abbrev pub is_freed : WrBuffer → Bool
is_freed freed = true
is_freed _ = false

abbrev pub is_empty : List CharCell → Bool
is_empty [] = true
is_empty (_ ∷ _) = false

-- `write` at an offset of the file; a hole before it reads as zeros.
abbrev pub zero_cell : CharCell
zero_cell = record { ch = 0; attrs = 0; auto_wrap = false; dirty = false; fg = 0; bg = 0 }

unfoldable pub write_at : ℕ → List CharCell → List CharCell → List CharCell
write_at off cells store =
    take off store
    ++ replicate (off - length store) zero_cell
    ++ cells
    ++ drop (off + length cells) store

-- `free` of the pointer, which goes on to point to the memory.
abbrev pub free_buffer : HistoryFile → HistoryFile
free_buffer f =
    if is_null f.wrbuffer
    then f
    else record f { wrbuffer = freed; double_free = f.double_free || is_freed f.wrbuffer }

-- `history_close`.
unfoldable pub history_close : HistoryFile → HistoryFile
history_close f = record (free_buffer f) {
  is_open = false;
  wrbuffer = no_buffer;
  size = 0;
  used = [];
  ofs = 0;
  lcount = 0;
}

-- `history_flush`, and its result.
unfoldable pub history_flush : Access → HistoryFile → HistoryFile × Bool
unfolding history_close write_at
history_flush a f =
    if f.is_open
    then if not (is_empty f.used)
      then if a.seek && a.done
        then (record f { store = write_at f.ofs f.used f.store; used = []; ofs = 0 }, true)
        else (history_close f, false)
      else (f, true)
    else (
      record (free_buffer f) { wrbuffer = no_buffer; size = 0; used = []; ofs = 0; lcount = 0 },
      true,
    )

-- A line of `history_reformat`: cut, or filled with default cells.
abbrev pub fit_line : ℕ → List CharCell → List CharCell
fit_line neww line = take neww line ++ replicate (neww - length line) default_cell

-- The loop of `history_reformat` over `n` lines of the old file.
unfoldable pub reformat_lines : ℕ → ℕ → ℕ → List CharCell → List CharCell
reformat_lines zero oldw neww store = []
reformat_lines (suc n) oldw neww store =
    fit_line neww (take oldw store) ++ reformat_lines n oldw neww (drop oldw store)

-- `history_reformat`, with the results of the flush and of all the calls after it.
unfoldable pub history_reformat : Access → Bool → ℕ → HistoryFile → HistoryFile
unfolding history_flush reformat_lines
history_reformat a succeeds neww f0 =
    let f = (history_flush a f0).0 in
    if not f.is_open || f.width == neww || f.lcount == 0
    then record f { width = neww }
    else if succeeds
    then record f { store = reformat_lines f.lcount f.width neww f.store; width = neww }
    else record f { is_open = false; width = neww; lcount = 0 }

-- `history_ensure`. The buffer that it frees is not forgotten.
unfoldable pub history_ensure : Bool → Access → Bool → ℕ → HistoryFile → HistoryFile
unfolding history_reformat
history_ensure created a reformatted width f =
    if not f.is_open
    then record (free_buffer f) {
      is_open = created;
      store = [];
      width = width;
      lcount = 0;
      size = 0;
      used = [];
      ofs = 0;
    }
    else if not (f.width == width)
    then history_reformat a reformatted width f
    else f

-- `history_append_line` where there is no buffer or no room in it.
unfoldable pub write_line : Access → Access → List CharCell → HistoryFile → HistoryFile
unfolding history_flush
write_line b a line f0 =
    let (f, ok) = history_flush b f0 in
    if not ok
    then f
    else if a.seek && a.done
    then record f { store = write_at (f.lcount * length line) line f.store; lcount = f.lcount + 1 }
    else record (history_close f) { width = 0 }

-- Whether the buffer is missing or has no room for a line.
abbrev pub no_room : ℕ → HistoryFile → Bool
no_room lsz f = is_null f.wrbuffer || ltb (f.size - cell_size * length f.used) lsz

-- The choice between the file and the buffer.
unfoldable pub put_line : Access → Access → List CharCell → HistoryFile → HistoryFile
unfolding write_line
put_line b a line f =
    if no_room (cell_size * length line) f then write_line b a line f else record f {
      ofs = if is_empty f.used then f.lcount * length line else f.ofs;
      used = f.used ++ line;
      lcount = f.lcount + 1;
    }

abbrev pub alloc_buffer : Bool → HistoryFile → HistoryFile
alloc_buffer ok f =
    if is_null f.wrbuffer && ok
    then record f { wrbuffer = allocated; size = wrbuf_size; used = []; ofs = 0 }
    else f

-- A full buffer that could hold the line is flushed first.
unfoldable pub store_line : AppendResults → List CharCell → HistoryFile → HistoryFile
unfolding put_line
store_line r line f0 =
    let f = alloc_buffer r.allocates f0 in
    let lsz = cell_size * length line in
    if not (is_null f.wrbuffer) && ltb (f.size - cell_size * length f.used) lsz && leb lsz f.size
    then (let (f', ok) = history_flush r.first_flush f in
        if ok then put_line r.second_flush r.line line f' else f')
    else put_line r.second_flush r.line line f

-- A line of a buffer, as `&cbuf->buf[y * width]` gives it.
abbrev pub line_at : ℕ → ℕ → List CharCell → List CharCell
line_at w y buf = take w (drop (y * w) buf)

-- `history_append_line`.
unfoldable pub history_append_line : AppendResults → CellBuffer → ℤ → HistoryFile → HistoryFile
unfolding history_ensure store_line
history_append_line r cb y f0 =
    if ltb_ℤ y (pos 0) || leb_ℤ (pos cb.height) y
    then f0
    else (let f1 =
          if ltb 0x00ffffff f0.lcount
          then record f0 { is_open = false; width = 0; lcount = 0 }
          else f0 in
        let f = history_ensure r.created r.first_flush r.reformatted cb.width f1 in
        if not f.is_open then f else store_line r (line_at cb.width (pos_part y) cb.buf) f)
