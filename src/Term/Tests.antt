-- ===== src/Term/Tests.antt =====
-- A terminal of three columns and two lines.
mod Machine
use yterm.Prelude.{
  ℕ, zero, suc, subst, ◌%◌, ◌^◌, ◌≡◌, refl, true, false, [], ◌∷◌, some, arith, ℤ, pos, negsuc,
  replicate, get_elem?, pos_part, inl,
}
use mathlib.Core.Option.{some-injective}
use yterm.Cell.{default_cell}
use yterm.Cellwin.{CellBuffer}
use yterm.Term.{CursorPos, Mode, Charset, Screen, EscSeq, Term, Env, default_attr, pending, esc_csi}
use yterm.Term.Putc.{putc}
use yterm.Term.Csi.{get_arg, csi_next_char}
use yterm.Term.Normal.{csi_normal}
use yterm.Term.Escapes.{
  process_altg0, process_altg1, process_percent, process_hash, process_s_ign, process_one-IsTerm,
}
use yterm.Term.Args.{
  IsArg, none_given, given, IsArgs, csi_next_char-IsArgs, decimal, feed_digits, feed_digits_lem,
}
use yterm.Term.Inv.{IsScreen, IsTerm}
use yterm.Term.Inv.Puts.{putc-IsTerm}
use yterm.Term.Inv.Commands.{csi_normal-IsTerm}

abbrev origin_pos : CursorPos
origin_pos = record { x = 0; y = 0; last_col_flag = false; just_moved = false }

-- The cursor in the last column, with its flag up.
abbrev last_pos : CursorPos
last_pos = record { x = 2; y = 1; last_col_flag = true; just_moved = false }

abbrev plain_mode : Mode
plain_mode = record {
  wrap = true;
  insert = false;
  appkeypad = false;
  crlf = false;
  mousebtn = false;
  mousemotion = false;
  reverse = false;
  bracpaste = false;
  focusevt = false;
  dispctrl = false;
  gfx0 = false;
  gfx1 = false;
  forced_utf = false;
  vt220_kbd = false;
  xterm = true;
  no_altscr = false;
  origin = false;
}

abbrev first_set : Charset
first_set = record { gfx0 = true; gfx1 = false }

abbrev blank_buffer : CellBuffer
blank_buffer = record { width = 3; height = 2; buf = replicate 6 default_cell; dirty_count = 6 }

abbrev full_screen : Screen
full_screen = record {
  cbuf = blank_buffer;
  curpos = last_pos;
  cursaved = origin_pos;
  currattr = default_attr;
  curhidden = false;
  sc_top = 0;
  sc_bot = 1;
  attrsaved = default_attr;
  charsetsaved = first_set;
  modesaved = plain_mode;
}

-- After CSI 1 2 of the sequence CSI 1 2 X.
abbrev sequence : EscSeq
sequence = record {
  state = esc_csi;
  priv = pos 0;
  cmd = 0x4d;
  argv = pos 12 ∷ replicate 15 (negsuc 0);
  argc = 1;
  sbuf = [];
  sbufpos = 0;
}

abbrev pub terminal : Term
terminal = record {
  main = full_screen;
  alt = full_screen;
  on_alt = false;
  active = true;
  mode = plain_mode;
  charset = first_set;
  scroll_count = pending (pos 0);
  scroll_y0 = 0;
  scroll_y1 = 0;
  escseq = sequence;
  history_enabled = true;
  osd_shown = false;
  mreport = record { mode = 1000; last_x = negsuc 0; last_y = negsuc 0 };
  selecting = false;
  color_mode = negsuc 0;
  report_mods = false;
  escesc = negsuc 0;
  saved_values = 0;
  effects = [];
}

abbrev pub globals : Env
globals = record {
  win_visible = true;
  menu_open = false;
  terminus_gfx = false;
  win_mapped = true;
  vttest = false;
  vim_workaround = false;
  win_cols = 3;
  win_rows = 2;
  koi_locale = false;
}

full_screen-IsScreen : IsScreen 3 2 full_screen
full_screen-IsScreen = record {
  buffer = record {
    width = refl;
    height = refl;
    wide = omega arith;
    tall = omega arith;
    valid = record { size = refl; counted = refl };
  };
  cursor = record { column = omega arith; row = omega arith; flag = λ e. refl };
  saved = record { column = omega arith; row = omega arith; flag = λ e. ground arith };
  region = omega arith;
  bottom = omega arith;
}

omitted-IsArg : (n i : ℕ) (a : ℤ) → get_elem? (replicate n (negsuc 0)) i ≡ some a → IsArg a
omitted-IsArg zero i a e = ground arith
omitted-IsArg (suc n) zero a e = subst IsArg (some-injective (negsuc 0) a e) none_given
omitted-IsArg (suc n) (suc i) a e = omitted-IsArg n i a e

args-IsArg : (i : ℕ) (a : ℤ) → get_elem? sequence.argv i ≡ some a → IsArg a
args-IsArg zero a e = subst IsArg (some-injective (pos 12) a e) (given 12 (omega arith))
args-IsArg (suc i) a e = omitted-IsArg 15 i a e

sequence-IsArgs : IsArgs sequence
sequence-IsArgs = record { size = refl; used = omega arith; each = args-IsArg }

pub terminal-IsTerm : IsTerm 3 2 terminal
terminal-IsTerm = record {
  main = full_screen-IsScreen;
  alt = λ e. full_screen-IsScreen;
  sequence = record {
    args = sequence-IsArgs;
    string = record { fits = omega arith; place = inl refl };
  };
}

-- Witnesses.
putc-IsTerm_example : IsTerm 3 2 (putc globals 0x58 terminal)
putc-IsTerm_example = putc-IsTerm globals 0x58 terminal terminal-IsTerm

-- No argument yet, and what the array has of an earlier sequence.
abbrev fresh_sequence : EscSeq
fresh_sequence = record sequence { argc = 0 }

fresh_sequence-IsArgs : IsArgs fresh_sequence
fresh_sequence-IsArgs = record { size = refl; used = omega arith; each = args-IsArg }

feed_digits_lem_example :
    ((feed_digits (3 ∷ 4 ∷ []) fresh_sequence).argc ≡ 1)
    × (get_arg (feed_digits (3 ∷ 4 ∷ []) fresh_sequence).argv 0
        ≡ pos (decimal 0 (3 ∷ 4 ∷ []) % 2 ^ 16))
feed_digits_lem_example = feed_digits_lem 3 (4 ∷ []) fresh_sequence fresh_sequence-IsArgs refl
