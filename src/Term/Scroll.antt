-- ===== src/Term/Scroll.antt =====
-- term_lib.inc.c and yterm_main.c: scrolling, with the scroll that is accumulated for the renderer.
use yterm.Prelude.{
  take, ℕ, ◌+◌, ◌-◌, Bool, true, false, ◌&&◌, not, some, ltb, leb, ◌==◌, if◌then◌else◌, ℤ, pos,
  negsuc, pos_part, neg_part, ltb_ℤ, leb_ℤ, ◌+ℤ◌, ◌-ℤ◌,
}
use yterm.Cellwin.{mark_region_dirty, clear_region, mark_line_autowrap}
use yterm.Cellwin.Strip.{scroll_area}
use yterm.Term.{Screen, ScrollCount, locked, pending, save_line, Term, Env, wkscr, on_screen, emit}
use yterm.Term.Cursor.{invalidate_cursor, set_xy}

-- `term_scroll_locked`.
abbrev pub scroll_locked : ScrollCount → Bool
scroll_locked locked = true
scroll_locked (pending n) = false

-- `term->scroll_count != 0 && !term_scroll_locked(term)`
abbrev pub scroll_waits : ScrollCount → Bool
scroll_waits locked = false
scroll_waits (pending n) = not (leb_ℤ n (pos 0) && leb_ℤ (pos 0) n)

-- `term_lock_scroll`.
unfoldable pub lock_scroll : Term → Term
lock_scroll t =
    if scroll_locked t.scroll_count
    then t
    else if scroll_waits t.scroll_count
    then record t { scroll_count = locked }
    else record t {
      scroll_count = locked;
      scroll_y0 = (wkscr t).sc_top;
      scroll_y1 = (wkscr t).sc_bot;
    }

-- The previous scroll region becomes dirty.
abbrev pub mark_scrolled : Term → Term
mark_scrolled t =
    on_screen
      (λ s. record s {
        cbuf =
            mark_region_dirty s.cbuf (pos 0) (pos t.scroll_y0) (pos s.cbuf.width -ℤ pos 1)
              (pos t.scroll_y1);
      })
      t

-- `abs(n)`.
abbrev pub abs : ℤ → ℕ
abs n = pos_part n + neg_part n

-- The accumulated scroll goes on: the same direction, less than the region, the same region.
unfoldable pub accumulates : ScrollCount → Term → ℕ → ℤ → Bool
accumulates locked t regh lines = false
accumulates (pending n) t regh lines =
    (if ltb_ℤ n (pos 0) then ltb_ℤ lines (pos 0) else ltb_ℤ (pos 0) lines && ltb_ℤ (pos 0) n)
    && ltb (abs n + abs lines) regh
    && t.scroll_y0 == (wkscr t).sc_top
    && t.scroll_y1 == (wkscr t).sc_bot

abbrev pub add_scroll : ScrollCount → ℤ → ScrollCount
add_scroll locked lines = locked
add_scroll (pending n) lines = pending (n +ℤ lines)

-- What becomes of the accumulated scroll, and `do_copy`.
unfoldable pub note_scroll : Env → Term → ℕ → ℤ → Term × Bool
unfolding lock_scroll accumulates
note_scroll env t regh lines =
    if env.win_visible
      && t.active
      && not (scroll_locked t.scroll_count)
      && not env.menu_open
      && not t.osd_shown
    then if not (scroll_waits t.scroll_count)
      then (
        record t {
          scroll_count = pending lines;
          scroll_y0 = (wkscr t).sc_top;
          scroll_y1 = (wkscr t).sc_bot;
        },
        true,
      )
      else if accumulates t.scroll_count t regh lines
      then (record t { scroll_count = add_scroll t.scroll_count lines }, true)
      else (lock_scroll (mark_scrolled t), false)
    else if scroll_waits t.scroll_count
    then (lock_scroll (mark_scrolled t), false)
    else (t, false)

-- `cbuf_scroll_area_up` or `cbuf_scroll_area_down` of the scroll region.
unfoldable pub scroll_region : ℤ → Bool → Screen → Screen
scroll_region lines merge_dirty s = record s {
  cbuf =
      scroll_area s.cbuf (pos s.sc_top) (pos s.sc_bot) (pos (abs lines))
        (if ltb_ℤ lines (pos 0) then negsuc 0 else pos 1) merge_dirty (some s.currattr);
}

unfoldable pub clear_scroll_region : Screen → Screen
clear_scroll_region s = record s {
  cbuf =
      clear_region s.cbuf (pos 0) (pos s.sc_top) (pos s.cbuf.width -ℤ pos 1) (pos s.sc_bot)
        (some s.currattr);
}

-- `term_scroll_internal`: up by a negative number of lines.
unfoldable pub scroll_internal : Env → ℤ → Term → Term
unfolding note_scroll scroll_region clear_scroll_region
scroll_internal env lines t =
    let regh = (wkscr t).sc_bot + 1 - (wkscr t).sc_top in
    if leb_ℤ lines (pos 0) && leb_ℤ (pos 0) lines
    then t
    else if leb regh (abs lines)
    then lock_scroll
        (on_screen clear_scroll_region (if scroll_waits t.scroll_count then mark_scrolled t else t))
    else let (t', do_copy) = note_scroll env (on_screen invalidate_cursor t) regh lines in
      on_screen invalidate_cursor (on_screen (scroll_region lines (not do_copy)) t')

-- `term_scroll_up`: a single line that leaves the top of the main screen goes to the history file.
unfoldable pub scroll_up : Env → ℤ → Term → Term
unfolding scroll_internal
scroll_up env lines t =
    if ltb_ℤ (pos 0) lines
    then scroll_internal env (pos 0 -ℤ lines) (
        if leb_ℤ lines (pos 1) && t.history_enabled && not t.on_alt && (wkscr t).sc_top == 0
        then emit (save_line (take (wkscr t).cbuf.width (wkscr t).cbuf.buf)) t
        else t)
    else t

-- `term_scroll_down`.
unfoldable pub scroll_down : Env → ℤ → Term → Term
unfolding scroll_internal
scroll_down env lines t = if ltb_ℤ (pos 0) lines then scroll_internal env lines t else t

-- The rest of `term_lcf_do`, with the cursor at the start of the line.
unfoldable pub wrap_line : Env → Term → Term
wrap_line env t =
    let s = wkscr t in
    if s.curpos.y == s.sc_bot
    then scroll_up env (pos 1) t
    else if not (s.curpos.y == s.cbuf.height - 1)
    then on_screen (λ s. invalidate_cursor (set_xy s.curpos.x (s.curpos.y + 1) s)) t
    else t

-- The screen's part of `term_lcf_do`: the line is marked and the cursor goes to its start.
unfoldable pub wrap_start : Screen → Screen
wrap_start s = set_xy 0 s.curpos.y (
    invalidate_cursor (record s {
      curpos = record (s.curpos) { last_col_flag = false; just_moved = false };
      cbuf = mark_line_autowrap s.cbuf (pos s.curpos.y);
    }))

-- `term_lcf_do`.
unfoldable pub lcf_do : Env → Term → Term
unfolding wrap_line wrap_start
lcf_do env t = if (wkscr t).curpos.last_col_flag then wrap_line env (on_screen wrap_start t) else t
