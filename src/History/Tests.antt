-- ===== src/History/Tests.antt =====
-- A history of one line of two cells.
use yterm.Prelude.{
  ℕ, ◌+◌, ◌<◌, ◌≡◌, refl, true, false, [], ◌∷◌, ◌++◌, some, arith, pos, if◌then◌else◌, ◌==◌,
}
use yterm.Cell.{CharCell, default_cell}
use yterm.Cellwin.{CellBuffer}
use yterm.Cellwin.Dirty.{IsValid}
use yterm.History.{
  HistoryFile, allocated, Access, AppendResults, history_close, history_ensure, history_reformat,
  reformat_lines, fit_line, line_at, history_append_line,
}
use yterm.History.Load.{history_load_line}
use yterm.History.Inv.{content, IsHistory, Holds}
use yterm.History.Append.{before, lines_before, history_append_line-Holds}
use yterm.History.Opened.{history_append_line-content}
use yterm.History.Loaded.{history_load_line-append}
use yterm.History.Reformat.{history_reformat-Holds, history_close-history_reformat}

abbrev letter : ℕ → CharCell
letter c = record default_cell { ch = c }

abbrev buffer : CellBuffer
buffer = record {
  width = 2;
  height = 2;
  buf = letter 0x41 ∷ letter 0x42 ∷ letter 0x43 ∷ letter 0x44 ∷ [];
  dirty_count = 4;
}

abbrev file : HistoryFile
file = record {
  is_open = true;
  store = letter 0x58 ∷ letter 0x59 ∷ [];
  width = 2;
  lcount = 1;
  wrbuffer = allocated;
  size = 131072;
  used = [];
  ofs = 0;
  double_free = false;
}

abbrev fine : Access
fine = record { seek = true; done = true }

abbrev results : AppendResults
results = record {
  created = true;
  reformatted = true;
  allocates = true;
  first_flush = fine;
  second_flush = fine;
  line = fine;
}

-- A system whose calls fail.
abbrev broken : AppendResults
broken = record results { second_flush = record { seek = false; done = false } }

file-IsHistory : IsHistory file
file-IsHistory = record {
  sound = refl;
  once = refl;
  closed = λ e. ground (arith, e);
  empty = λ e. refl;
  fits = omega arith;
  lines = λ e. refl;
  place = λ e. ground (arith, e);
}

buffer-IsValid : IsValid buffer
buffer-IsValid = record { size = refl; counted = refl }

file-Holds : Holds 2 1 (letter 0x58 ∷ letter 0x59 ∷ []) file
file-Holds = record {
  valid = file-IsHistory;
  cells = λ e. refl;
  wide = λ e. refl;
  count = λ e. refl;
}

history_append_line-Holds_example :
    Holds 2
      (lines_before file + 1)
      (before file ++ line_at 2 1 buffer.buf)
      (history_append_line broken buffer (pos 1) file)
history_append_line-Holds_example =
    history_append_line-Holds broken buffer 1 file buffer-IsValid (omega arith) file-IsHistory
      (omega arith) (λ e. refl)

history_append_line-content_example :
    ((history_append_line results buffer (pos 1) file).is_open ≡ true)
    × (content (history_append_line results buffer (pos 1) file)
        ≡ before file ++ line_at 2 1 buffer.buf)
    × ((history_append_line results buffer (pos 1) file).lcount ≡ lines_before file + 1)
history_append_line-content_example =
    history_append_line-content results buffer 1 file buffer-IsValid (omega arith) file-IsHistory
      (omega arith) (λ e. refl) refl

history_load_line-append_example :
    (history_load_line fine fine buffer 2 2
      (pos 1)
      (history_append_line results buffer (pos 1) file)).1
    ≡ some (if 1 == lines_before file then line_at 2 1 buffer.buf else line_at 2 1 (before file))
history_load_line-append_example =
    history_load_line-append results fine fine buffer 2 1 1 file buffer-IsValid (omega arith)
      file-IsHistory (omega arith) (λ e. refl) refl (omega arith) (omega arith) refl refl

history_reformat-Holds_example :
    ((history_reformat fine true 3 file).is_open ≡ true)
    × Holds 3 1
        (reformat_lines 1 2 3 (letter 0x58 ∷ letter 0x59 ∷ []))
        (history_reformat fine true 3 file)
    × ((y : ℕ)
        → y < 1
        → line_at 3 y (reformat_lines 1 2 3 (letter 0x58 ∷ letter 0x59 ∷ []))
          ≡ fit_line 3 (line_at 2 y (letter 0x58 ∷ letter 0x59 ∷ [])))
history_reformat-Holds_example = history_reformat-Holds fine 3 file file-Holds refl refl refl

history_close-history_reformat_example :
    (history_close
      (history_ensure true fine true 3 (history_reformat fine false 3 file))).double_free
    ≡ true
history_close-history_reformat_example =
    history_close-history_reformat fine fine true true 3 3 file file-IsHistory refl refl refl refl
      refl
