-- ===== src/Term.antt =====
-- yterm_main.c: the terminal structure, as far as term_lib.inc.c and term_lib_csi.inc.c work on
-- it. `wkscr`, a pointer to one of the two screens, is the flag `on_alt`.
pub mod Cursor
pub mod Scroll
pub mod Putc
pub mod Csi
pub mod Sgr
pub mod Edit
pub mod Normal
pub mod Args
pub mod Sequence
pub mod Escapes
pub mod Reset
pub mod Screens
pub mod Yterm
pub mod Private
pub mod Handle
pub mod Strings
pub mod Process
pub mod Input
pub mod Inv
pub mod Machine
mod Tests
use yterm.Prelude.{
  ℕ, ◌+◌, ◌-◌, ◌≡◌, Bool, true, false, ◌&&◌, ◌||◌, not, List, [], ◌∷◌, Option, none, some, ltb, leb,
  ◌==◌, if◌then◌else◌, replicate, ℤ, pos, negsuc,
}
use yterm.Cell.{CharCell, default_color}
use yterm.Cellwin.{CellBuffer}

-- `CursorPos`.
pub record CursorPos : Type 0 where
  pub x : ℕ
  pub y : ℕ
  pub last_col_flag : Bool
  pub just_moved : Bool

-- The bits YTERM_MODE_...
pub record Mode : Type 0 where
  pub wrap : Bool
  pub insert : Bool
  pub appkeypad : Bool
  pub crlf : Bool
  pub mousebtn : Bool
  pub mousemotion : Bool
  pub reverse : Bool
  pub bracpaste : Bool
  pub focusevt : Bool
  pub dispctrl : Bool
  pub gfx0 : Bool
  pub gfx1 : Bool
  pub forced_utf : Bool
  pub vt220_kbd : Bool
  pub xterm : Bool
  pub no_altscr : Bool
  pub origin : Bool

-- `charset`: the bits YTERM_MODE_GFX0 and YTERM_MODE_GFX1.
pub record Charset : Type 0 where
  pub gfx0 : Bool
  pub gfx1 : Bool

-- `TermScreen`. The lines of the scroll region are inclusive.
pub record Screen : Type 0 where
  pub cbuf : CellBuffer
  pub curpos : CursorPos
  pub cursaved : CursorPos
  pub currattr : CharCell
  pub curhidden : Bool
  pub sc_top : ℕ
  pub sc_bot : ℕ
  pub attrsaved : CharCell
  pub charsetsaved : Charset
  pub modesaved : Mode

-- `scroll_count`: the scroll that is not rendered yet, negative for up; 0x7fffffff is `locked`.
pub data ScrollCount : Type 0 where
  locked : ScrollCount
  pending : ℤ → ScrollCount

-- YTERM_ESC_...
pub data EscState : Type 0 where
  esc_none esc_esc esc_altg0 esc_altg1 esc_hash esc_percent : EscState
  esc_csi esc_csi_ignore esc_osc esc_dcs esc_s_ign : EscState

abbrev pub esc_arg_size : ℕ
esc_arg_size = 16

-- `escseq`. An argument -1 is omitted.
pub record EscSeq : Type 0 where
  pub state : EscState
  pub priv : ℤ
  pub cmd : ℕ
  pub argv : List ℤ
  pub argc : ℕ
  pub sbuf : List ℕ
  pub sbufpos : ℕ

-- What goes out of the terminal, in order: the bell, bytes for the child (`term_write_raw`), a line
-- for the history file (`history_append_line`), the end of that file (`history_close`, and its new
-- width), the title that the child sets or gives back, and the size for the child.
pub data Effect : Type 0 where
  bell : Effect
  send : List ℕ → Effect
  save_line : List CharCell → Effect
  close_history : ℕ → Effect
  set_title : List ℕ → Effect
  default_title : Effect
  send_size : ℕ → ℕ → Effect

-- `mreport`, without the last button.
pub record MouseReport : Type 0 where
  pub mode : ℕ
  pub last_x : ℤ
  pub last_y : ℤ

-- `Term`, without child process, tab and selection state. `selecting` is
-- `history.blocktype != SBLOCK_NONE`.
pub record Term : Type 0 where
  pub main : Screen
  pub alt : Screen
  pub on_alt : Bool
  pub active : Bool
  pub mode : Mode
  pub charset : Charset
  pub scroll_count : ScrollCount
  pub scroll_y0 : ℕ
  pub scroll_y1 : ℕ
  pub escseq : EscSeq
  pub history_enabled : Bool
  pub osd_shown : Bool
  pub mreport : MouseReport
  pub selecting : Bool
  pub color_mode : ℤ
  pub report_mods : Bool
  pub escesc : ℤ
  pub saved_values : ℕ
  pub effects : List Effect

-- The globals that the terminal reads: `winVisible`, `curr_menu != NULL`, `opt_terminus_gfx`,
-- `winMapped`, `opt_vttest`, `opt_workaround_vim_idiocity`, and the size of the window in cells,
-- `winWidth / charWidth` and `winHeight / charHeight`, and `koiLocale`.
pub record Env : Type 0 where
  pub win_visible : Bool
  pub menu_open : Bool
  pub terminus_gfx : Bool
  pub win_mapped : Bool
  pub vttest : Bool
  pub vim_workaround : Bool
  pub win_cols : ℕ
  pub win_rows : ℕ
  pub koi_locale : Bool

-- `*term->wkscr`, read and changed.
abbrev pub wkscr : Term → Screen
wkscr t = if t.on_alt then t.alt else t.main

unfoldable pub on_screen : (Screen → Screen) → Term → Term
on_screen f t = if t.on_alt then record t { alt = f t.alt } else record t { main = f t.main }

abbrev pub emit : Effect → Term → Term
emit e t = record t { effects = e ∷ t.effects }

abbrev pub default_attr : CharCell
default_attr = record {
  ch = 0x20;
  attrs = 0;
  auto_wrap = false;
  dirty = false;
  fg = default_color;
  bg = default_color;
}
