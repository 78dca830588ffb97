-- ===== src/Lib.antt =====
-- Verification of yterm, a terminal emulator for X11: the parts of it between the bytes of the child
-- process and the drawing code.
--
-- The parts of the program, and the files that model them (sources are under src/):
--   * cellwin.c and cellwin.h, the buffer of character cells with its dirty flags. Cell is the cell
--     and the macros that fill and compare cells; Cellwin is the buffer and the functions on regions
--     and single cells; Cellwin.Strip is copy_strip, cbuf_scroll_area, cbuf_insert_chars and
--     cbuf_delete_chars; Cellwin.Resize is cbuf_resize; Cellwin.Merge is
--     cbuf_merge_all_dirty and cbuf_write_utf. Cellwin.Run runs sequences of calls.
--   * utf.c and utf.h, the decoder (a table-driven automaton), the encoder and the KOI8 table: Utf;
--     upper and lower case and the classes of characters: Utf.Case; from Unicode to KOI8: Utf.Koi.
--     decode_bytes there specifies what the decoder makes of a list of bytes.
--   * yterm_main.c, the structures of the terminal: Term. A terminal has a main and an alternate
--     screen; the pointer `wkscr` to one of them is the flag `on_alt`.
--   * term_lib.inc.c: Term.Cursor (cursor movement, save and restore), Term.Scroll (scrolling, with
--     the scroll that is accumulated for the renderer), Term.Putc (term_putc), Term.Reset (term_init,
--     term_reset_mode, term_fix_size), Term.Escapes (the states of the escape parser that take one
--     character), Term.Strings (OSC and DCS), Term.Process (ESC and term_process_char).
--   * term_lib_csi.inc.c: Term.Csi (the parser of arguments), Term.Sgr (csi_set_attr), Term.Edit and
--     Term.Normal (csi_normal and its commands), Term.Screens (term_switch_screen), Term.Yterm
--     (csi_priv_yterm), Term.Private (csi_priv_h and csi_priv_l), Term.Handle (csi_handle).
--   * yterm_main.c, one_term_read: Term.Input.
--   * the queue of bytes for the child (term_write_raw, term_close_fd, one_term_write): Pipe; text for
--     it (term_write, term_write_sanitize): Pipe.Write.
--   * history.inc.c, the file of the lines that left the screen: History and History.Load.
--   * cellwin.c, the palette and the colors of a cell for the renderer: Colors.
--   * osd_menu.inc.c, and x11_menu_keyevent of menus.inc.c: Menu is the structures, the chain of open
--     menus and their places; Menu.Captions is xchar2_new, Menu.Build the functions that add items,
--     Menu.Cursor the movements, Menu.Keys the actions and keys. A callback of an item is an argument.
--   * x11_keypress.inc.c, translate_keypad: Keypad.
--   * selection.inc.c, and the text of do_copy_to in clipboard.inc.c: Selection is the block and its
--     marks, Selection.Draw the drawing, Selection.Words the movements by words, Selection.Keys the
--     keys, Selection.Clip the text.
-- The invariant of the terminal is in Term.Inv and the modules below it; what the machine does
-- besides is in Term.Machine.
--
-- How they interact: one_term_read decodes bytes (Utf) and hands code points to term_process_char
-- (Term.Process), which calls term_putc, csi_handle and the handlers of strings; those move the
-- cursor, scroll, switch screens, and write cells by the functions of the buffer (Cellwin), which
-- keep the dirty flags and their count for the renderer. What goes out of the terminal (bell, answers
-- to the child, titles, lines for the history file) is a list of effects. What the terminal reads of
-- the rest of the program (is the window visible, is a menu open, the options) is the record Env.
--
-- Conventions: a C `int` is a signed integer over the native numbers, since no computation that is
-- modelled leaves its range (sizes are at most max_buffer_size, arguments at most 65535); where the
-- code masks or shifts, the remainder or the power of two is written out. An array is a list; an
-- access by a pointer that the code has clipped is get_elem? and set. The CELL_DIRTY and
-- CELL_AUTO_WRAP bits of a cell are fields of their own. A failed assertion is `none`. A write of the
-- parser behind `escseq.argv` makes the list longer, so that its length tells whether there was one.
--
-- Loops are recursions on the number of their turns, except for the relayout of cbuf_resize, whose
-- fuel relayout_fuel bounds the cells that its iterator can give; that the fuel is enough is part of
-- cbuf_resize-IsValid. The loop of csi_set_attr takes at least one argument in each turn, so its fuel
-- is their number. print_int writes at most ten digits, enough for 32 bits.
--
-- What a call of the system returns (read, write, lseek, select, realloc) is an argument; the
-- contents of the history file are the list of its cells, on which lseek, read and write do what POSIX
-- says of a regular file. Freed memory is a state of the pointer.
--
-- Not modelled: cbuf_copy_region (it reads an uninitialised pointer); mouse reports and the events of
-- the focus; the rate limit of the bell and the information window; the single menus of the program
-- and their callbacks; in the selection mode the search for key bindings and the mouse clicks that
-- Return sends; pasting and the processes that take and give the clipboard; the key bindings and the
-- X resources; and what calls X11 or the system: drawing, the tab bar, hot swap, processes, xsel. The
-- debug dumps are left out.

pub mod Prelude
pub mod Cell
pub mod Cellwin
pub mod Utf
pub mod Term
pub mod History
pub mod Colors
pub mod Pipe
pub mod Keypad
pub mod Menu
pub mod Selection
