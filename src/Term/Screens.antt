-- ===== src/Term/Screens.antt =====
-- term_lib_csi.inc.c: the alternate screen.
use yterm.Prelude.{ℕ, Bool, true, false, ◌&&◌, not, [], none, some, ◌==◌, if◌then◌else◌, pos, leb_ℤ}
use yterm.Cellwin.{CellBuffer, cbuf_new, cbuf_free, mark_all_dirty, mark_all_clean}
use yterm.Cellwin.Merge.{merge_all_dirty}
use yterm.Term.{Screen, ScrollCount, locked, pending, Term, on_screen}
use yterm.Term.Cursor.{invalidate_cursor}
use yterm.Term.Reset.{reset_screen}

-- `cbuf_new`; its assertion holds, since the main screen has this size (`new_buffer_lem`).
unfoldable pub new_buffer : ℕ → ℕ → CellBuffer
new_buffer w h = elim (cbuf_new w h) [
  | none ↦ record { width = 0; height = 0; buf = []; dirty_count = 0 }
  | some cb ↦ cb
]

-- `term_ensure_alt_buffer`.
unfoldable pub ensure_alt_buffer : Term → Term
unfolding new_buffer
ensure_alt_buffer t = record t {
  alt =
      if t.alt.cbuf.width == 0
      then reset_screen (new_buffer t.main.cbuf.width t.main.cbuf.height) t.main.cbuf.height
      else t.alt;
}

-- `term_release_alt_buffer`.
unfoldable pub release_alt_buffer : Term → Term
release_alt_buffer t =
    if not (t.alt.cbuf.width == 0) && not t.on_alt
    then record t { alt = record (t.alt) { cbuf = cbuf_free t.alt.cbuf } }
    else t

-- `term->scroll_count != 0`.
abbrev pub scroll_noted : ScrollCount → Bool
scroll_noted locked = true
scroll_noted (pending n) = not (leb_ℤ n (pos 0) && leb_ℤ (pos 0) n)

abbrev pub clean_screen : Screen → Screen
clean_screen s = record s { cbuf = mark_all_clean s.cbuf }

abbrev pub dirty_screen : Screen → Screen
dirty_screen s = record s { cbuf = mark_all_dirty s.cbuf }

abbrev pub merge_screen : CellBuffer → Screen → Screen
merge_screen sbuf s = record s { cbuf = merge_all_dirty s.cbuf sbuf }

-- The switch while a scroll waits for the renderer: everything is drawn anew.
unfoldable pub switch_all : Term → Term
unfolding ensure_alt_buffer
switch_all t0 =
    let t = on_screen clean_screen (record t0 { scroll_count = pending (pos 0) }) in
    on_screen dirty_screen (
      if t.on_alt
      then record t { on_alt = false }
      else ensure_alt_buffer (record t { on_alt = true }))

-- The switch that draws only the cells that differ.
unfoldable pub switch_merged : Term → Term
unfolding ensure_alt_buffer
switch_merged t =
    if t.on_alt
    then record t {
      main = merge_screen t.alt.cbuf t.main;
      alt = clean_screen t.alt;
      on_alt = false;
    }
    else let t' = ensure_alt_buffer t in
      record t' {
        alt = merge_screen t'.main.cbuf t'.alt;
        main = clean_screen t'.main;
        on_alt = true;
      }

-- `term_switch_screen`.
unfoldable pub switch_screen : Term → Term
unfolding switch_all switch_merged
switch_screen t0 =
    let t = on_screen invalidate_cursor t0 in
    on_screen invalidate_cursor
      (if scroll_noted t.scroll_count then switch_all t else switch_merged t)
