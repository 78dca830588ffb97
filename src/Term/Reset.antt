-- ===== src/Term/Reset.antt =====
-- term_lib.inc.c: `term_reset_mode`, `term_init` and `term_fix_size`.
use yterm.Prelude.{
  ℕ, ◌-◌, Bool, true, false, ◌||◌, not, [], Option, none, some, leb, ◌==◌, if◌then◌else◌, replicate,
  pos, negsuc, clamp,
}
use yterm.Cell.{CharCell}
use yterm.Cellwin.{CellBuffer, max_buffer_size, cbuf_new, cbuf_free}
use yterm.Cellwin.Resize.{cbuf_resize}
use yterm.Term.{
  CursorPos, Mode, Charset, Screen, pending, esc_none, esc_arg_size, send_size, Term, wkscr, emit,
  default_attr,
}

abbrev pub origin : CursorPos
origin = record { x = 0; y = 0; last_col_flag = false; just_moved = false }

abbrev pub no_mode : Mode
no_mode = record {
  wrap = false;
  insert = false;
  appkeypad = false;
  crlf = false;
  mousebtn = false;
  mousemotion = false;
  reverse = false;
  bracpaste = false;
  focusevt = false;
  dispctrl = false;
  gfx0 = false;
  gfx1 = false;
  forced_utf = false;
  vt220_kbd = false;
  xterm = false;
  no_altscr = false;
  origin = false;
}

abbrev pub no_charset : Charset
no_charset = record { gfx0 = false; gfx1 = false }

-- A screen with its settings reset, for a buffer of `hgt` lines. (For none the source has -1 in
-- `scBot`, which is not read before the screen gets a buffer.)
abbrev pub reset_screen : CellBuffer → ℕ → Screen
reset_screen cb hgt = record {
  cbuf = cb;
  curpos = origin;
  cursaved = origin;
  currattr = default_attr;
  curhidden = false;
  sc_top = 0;
  sc_bot = hgt - 1;
  attrsaved = default_attr;
  charsetsaved = no_charset;
  modesaved = no_mode;
}

-- `term_reset_mode`: the contents of the main screen stay.
unfoldable pub reset_mode : Term → Term
reset_mode t = record t {
  on_alt = false;
  escseq = record (t.escseq) { state = esc_none };
  mode = record no_mode { wrap = true };
  mreport = record { mode = 1000; last_x = negsuc 0; last_y = negsuc 0 };
  charset = record { gfx0 = true; gfx1 = false };
  main = reset_screen t.main.cbuf t.main.cbuf.height;
  alt = reset_screen (cbuf_free t.alt.cbuf) t.alt.cbuf.height;
}

-- What `memset` leaves of a screen.
abbrev pub zero_attr : CharCell
zero_attr = record { ch = 0; attrs = 0; auto_wrap = false; dirty = false; fg = 0; bg = 0 }

abbrev pub zero_screen : CellBuffer → Screen
zero_screen cb = record (reset_screen cb 1) { currattr = zero_attr; attrsaved = zero_attr }

-- The structure after `memset` and the assignments of `term_init`.
abbrev pub initial : Bool → CellBuffer → Term
initial history cb = record {
  main = zero_screen cb;
  alt = zero_screen (record { width = 0; height = 0; buf = []; dirty_count = 0 });
  on_alt = false;
  active = false;
  mode = no_mode;
  charset = no_charset;
  scroll_count = pending (pos 0);
  scroll_y0 = 0;
  scroll_y1 = 0;
  escseq = record {
    state = esc_none;
    priv = pos 0;
    cmd = 0;
    argv = replicate esc_arg_size (pos 0);
    argc = 0;
    sbuf = [];
    sbufpos = 0;
  };
  history_enabled = history;
  osd_shown = false;
  mreport = record { mode = 0; last_x = pos 0; last_y = pos 0 };
  selecting = false;
  color_mode = negsuc 0;
  report_mods = false;
  escesc = negsuc 0;
  saved_values = 0;
  effects = [];
}

-- `term_init`, by `opt_history_enabled`; `none` is a failed assertion on the size.
unfoldable pub init : Bool → ℕ → ℕ → Option Term
unfolding reset_mode
init history w h = elim (cbuf_new w h) [
  | none ↦ none
  | some cb ↦ some (reset_mode (initial history cb))
]

-- `cbuf_resize`; its assertion holds at the sizes that `term_fix_size` asks for (`resized_lem`).
unfoldable pub resized : CellBuffer → ℕ → ℕ → Bool → CellBuffer
resized cb w h relayout = elim (cbuf_resize cb w h relayout) [ none ↦ cb | some cb' ↦ cb' ]

-- The cursor in a buffer that shrinks. `atbot` compares a line with the width.
unfoldable pub fix_cursor : ℕ → ℕ → CellBuffer → CursorPos → CursorPos
fix_cursor neww newh cb p = record {
  x = if leb neww p.x then neww - 1 else p.x;
  y = if leb cb.width p.y then newh - 1 else if leb newh p.y then newh - 1 else p.y;
  last_col_flag = false;
  just_moved = false;
}

unfoldable pub fix_screen : ℕ → ℕ → CellBuffer → Screen → Screen
unfolding fix_cursor
fix_screen neww newh cb s = record s {
  cbuf = cb;
  curpos = fix_cursor neww newh s.cbuf s.curpos;
  sc_top = 0;
  sc_bot = newh - 1;
}

-- `term_fix_size` where the size changes; the saved cursor is left alone.
unfoldable pub change_size : ℕ → ℕ → Term → Term
unfolding fix_screen resized
change_size neww newh t =
    let alt =
      if not (t.alt.cbuf.width == 0) || t.on_alt
      then resized t.alt.cbuf neww newh false
      else cbuf_free t.alt.cbuf in
    let main = resized t.main.cbuf neww newh true in
    emit (send_size neww newh) (record t {
      selecting = false;
      scroll_count = pending (pos 0);
      main = fix_screen neww newh main t.main;
      alt = fix_screen neww newh alt t.alt;
    })

-- `term_fix_size`, by the columns and the lines that the window holds.
unfoldable pub fix_size : ℕ → ℕ → Term → Term
unfolding change_size
fix_size cols rows t =
    let neww = clamp (pos cols) 1 max_buffer_size in
    let newh = clamp (pos rows) 1 max_buffer_size in
    if not (neww == (wkscr t).cbuf.width) || not (newh == (wkscr t).cbuf.height)
    then change_size neww newh t
    else t
