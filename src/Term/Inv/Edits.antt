-- ===== src/Term/Inv/Edits.antt =====
-- The commands of CSI sequences keep the invariant of the terminal.
use yterm.Prelude.{
  ℕ, zero, suc, ◌+◌, ◌-◌, ◌*◌, ◌/◌, ◌%◌, ◌∙◌, ◌≤◌, ◌<◌, ◌≡◌, refl, ap, max, Bool, true, false,
  arith, ◌==◌, ltb, leb, ℤ, pos, ◌&&◌, ◌||◌, List, clamp, bit_or,
}
use yterm.Prelude.Bits.{bit_or_mask}
use yterm.Cellwin.Dirty.{Keeps-trans}
use yterm.Cellwin.Keeps.{clear_region-Keeps, insert_chars-Keeps, delete_chars-Keeps}
use yterm.Term.{CursorPos, Screen, Term, Env, wkscr, on_screen}
use yterm.Term.Cursor.{lcf_reset}
use yterm.Term.Csi.{def_arg1, def_arg1n}
use yterm.Term.Edit.{
  tab_forward, tab_backward, erase_display, erase_line, insert_blanks, delete_blanks, erase_chars,
  tab_to, insert_lines, delete_lines, set_scroll_region, set_sc_top, in_scroll_region,
}
use yterm.Term.Inv.{
  IsScreen, IsTerm, Safe, Safe-if, Safe-by, with_cbuf, with_region, on_screen-IsTerm,
  wkscr-IsScreen, wkscr-on_screen,
}
use yterm.Term.Inv.Moves.{
  if_lt, lcf_reset-Safe, lcf_reset_nocmove-Safe, move_if_changed-IsScreen, curmove_abs-Safe,
}
use yterm.Term.Inv.Scrolls.{IsTerm-by, scroll_up-IsTerm, scroll_down-IsTerm}
use yterm.Term.Inv.Still.{Still, scroll_up-Still, scroll_down-Still}

-- `x | 7` is the last column before the next tab stop.
pub bit_or_seven : (x : ℕ) → bit_or x 7 ≡ x / 8 * 8 + 7
bit_or_seven x =
    ap (λ (n : ℕ). bit_or n 7) (omega arith) ∙ bit_or_mask 3 (x / 8) (x % 8) (omega arith)

-- The tabulations stay on the line.
pub tab_forward_lt : (n wdt x : ℕ) → x < wdt → tab_forward n wdt x < wdt
unfolding tab_forward
tab_forward_lt zero wdt x l = l
tab_forward_lt (suc n) wdt x l = if_lt (x == wdt - 1) l (tab_forward_lt n wdt _ (omega arith))

pub tab_backward_le : (n x : ℕ) → tab_backward n x ≤ x
unfolding tab_backward
tab_backward_le zero x = omega arith
tab_backward_le (suc n) x =
    ground (arith, tab_backward_le n (bit_or (x - 1) 7 - 7), bit_or_seven (x - 1))

region_lt : (b : ℤ) (n h y : ℕ) → n ≡ h → y < h → clamp b 1 n - 1 < h
region_lt b n h y e l = ground arith

not_above : (a b : ℕ) → ltb b a ≡ false → a ≤ b
not_above a b e = ground arith

max_le : (a b c : ℕ) → (leb a b && leb b c) ≡ true → max a b ≤ c
max_le a b c e = ground arith

bottom_stays :
    (y : ℕ) (t t' : Term)
    → Still (on_screen (set_sc_top y) t) t'
    → (wkscr t').sc_bot ≡ (wkscr t).sc_bot
bottom_stays y t t' st =
    ap (λ (f : CursorPos × (ℕ × ℕ)). f.1.1) st.same
    ∙ ap (λ (s : Screen). s.sc_bot) (wkscr-on_screen (set_sc_top y) t)

module _ {w h : ℕ} where
  pub erase_display-Safe : (mode : ℕ) → Safe w h (erase_display mode)
  unfolding erase_display
  erase_display-Safe mode s0 i0 =
      let i = lcf_reset-Safe s0 i0 in
      Safe-if (mode == 0)
        (with_cbuf i
          (Keeps-trans (clear_region-Keeps _ _ _ _ _ _) (clear_region-Keeps _ _ _ _ _ _)))
        (Safe-if (mode == 1)
          (with_cbuf i
            (Keeps-trans (clear_region-Keeps _ _ _ _ _ _) (clear_region-Keeps _ _ _ _ _ _)))
          (Safe-if (mode == 2 || mode == 3) (with_cbuf i (clear_region-Keeps _ _ _ _ _ _)) i))

  pub erase_line-Safe : (mode : ℕ) → Safe w h (erase_line mode)
  unfolding erase_line
  erase_line-Safe mode s0 i0 =
      let i = lcf_reset-Safe s0 i0 in
      Safe-if (mode == 0) (with_cbuf i (clear_region-Keeps _ _ _ _ _ _)) (
        Safe-if (mode == 1) (with_cbuf i (clear_region-Keeps _ _ _ _ _ _))
          (Safe-if (mode == 2) (with_cbuf i (clear_region-Keeps _ _ _ _ _ _)) i))

  pub insert_blanks-Safe : (n : ℕ) → Safe w h (insert_blanks n)
  unfolding insert_blanks
  insert_blanks-Safe n s i = with_cbuf (lcf_reset-Safe s i) (insert_chars-Keeps _ _ _ _ _)

  pub delete_blanks-Safe : (n : ℕ) → Safe w h (delete_blanks n)
  unfolding delete_blanks
  delete_blanks-Safe n s i = with_cbuf (lcf_reset-Safe s i) (delete_chars-Keeps _ _ _ _ _)

  pub erase_chars-Safe : (n : ℕ) → Safe w h (erase_chars n)
  unfolding erase_chars
  erase_chars-Safe n s i = with_cbuf (lcf_reset-Safe s i) (clear_region-Keeps _ _ _ _ _ _)

  pub tab_to-IsScreen :
      (next : ℕ → ℕ) (s : Screen)
      → IsScreen w h s
      → next s.curpos.x < w
      → IsScreen w h (tab_to next s)
  unfolding tab_to lcf_reset
  tab_to-IsScreen next s i l =
      move_if_changed-IsScreen (lcf_reset s) _ _ (lcf_reset-Safe s i) refl l i.cursor.row

  pub set_scroll_region-Safe :
      (origin : Bool) (argv : List ℤ) → Safe w h (set_scroll_region origin argv)
  unfolding set_scroll_region
  set_scroll_region-Safe origin argv s i0 =
      let i = lcf_reset_nocmove-Safe s i0 in
      let e = i.buffer.height in
      curmove_abs-Safe origin (pos 0) (pos 0) _ (
        Safe-by
          (ltb (clamp (pos (def_arg1n argv 1 s.cbuf.height)) 1 s.cbuf.height - 1)
            (clamp (pos (def_arg1 argv 0)) 1 s.cbuf.height - 1))
          (λ _.
            with_region {top = 0} {bot = s.cbuf.height - 1} i (omega arith)
              (omega (arith, e, i.cursor.row)))
          (λ t.
            with_region i (not_above _ _ t)
              (region_lt (pos (def_arg1n argv 1 s.cbuf.height)) _ h _ e i.cursor.row)))

  set_sc_top-IsScreen :
      (top : ℕ) (s : Screen) → IsScreen w h s → top ≤ s.sc_bot → IsScreen w h (set_sc_top top s)
  set_sc_top-IsScreen top s i l = with_region i l i.bottom

  -- The region may shrink to the cursor's line while it is scrolled.
  shrink-IsTerm :
      (t : Term)
      → IsTerm w h t
      → in_scroll_region (wkscr t) ≡ true
      → IsTerm w h (on_screen (set_sc_top (max (wkscr t).sc_top (wkscr t).curpos.y)) t)
  shrink-IsTerm t i e =
      on_screen-IsTerm _ t (λ s. set_sc_top-IsScreen _ (wkscr t) s (max_le _ _ _ e)) i

  -- And it is put back.
  grow-IsTerm :
      (top y : ℕ) (t t' : Term)
      → IsTerm w h t'
      → Still (on_screen (set_sc_top y) t) t'
      → top ≤ (wkscr t).sc_bot
      → IsTerm w h (on_screen (set_sc_top top) t')
  grow-IsTerm top y t t' i st l =
      on_screen-IsTerm _ t'
        (λ s. set_sc_top-IsScreen top _ s (omega (arith, l, bottom_stays y t t' st))) i

  enable-IsTerm :
      (b : Bool) (t : Term) → IsTerm w h t → IsTerm w h (record t { history_enabled = b })
  enable-IsTerm b t i = record { main = i.main; alt = i.alt; sequence = i.sequence }

  pub insert_lines-IsTerm :
      (env : Env) (n : ℕ) (t : Term) → IsTerm w h t → IsTerm w h (insert_lines env n t)
  unfolding insert_lines
  insert_lines-IsTerm env n t0 i0 =
      let t = on_screen lcf_reset t0 in
      let i = on_screen-IsTerm lcf_reset t0 (lcf_reset-Safe _) i0 in
      let y = max (wkscr t).sc_top (wkscr t).curpos.y in
      IsTerm-by (in_scroll_region (wkscr t))
        (λ e.
          grow-IsTerm (wkscr t).sc_top y t _
            (scroll_down-IsTerm env (pos n) _ (shrink-IsTerm t i e))
            (scroll_down-Still env (pos n) _) (wkscr-IsScreen i).region)
        (λ _. i)

  pub delete_lines-IsTerm :
      (env : Env) (n : ℕ) (t : Term) → IsTerm w h t → IsTerm w h (delete_lines env n t)
  unfolding delete_lines
  delete_lines-IsTerm env n t0 i0 =
      let t = on_screen lcf_reset t0 in
      let i = on_screen-IsTerm lcf_reset t0 (lcf_reset-Safe _) i0 in
      let y = max (wkscr t).sc_top (wkscr t).curpos.y in
      IsTerm-by (in_scroll_region (wkscr t))
        (λ e. enable-IsTerm t.history_enabled _ (
          grow-IsTerm (wkscr t).sc_top y (record t { history_enabled = false }) _
            (scroll_up-IsTerm env (pos n) _
              (shrink-IsTerm (record t { history_enabled = false }) (enable-IsTerm false t i) e))
            (scroll_up-Still env (pos n) _) (wkscr-IsScreen i).region))
        (λ _. i)
