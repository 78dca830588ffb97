-- ===== src/Term/Inv/Sizes.antt =====
-- The functions that make or resize a terminal give the invariant of the terminal.
use yterm.Prelude.{
  ℕ, ◌≤◌, ◌≡◌, refl, subst, Bool, true, false, ◌||◌, not, some, arith, ◌==◌, if◌then◌else◌, pos,
  clamp,
}
use yterm.Cellwin.{CellBuffer, max_buffer_size, cbuf_free}
use yterm.Cellwin.Dirty.{IsValid}
use yterm.Cellwin.Keeps.{cbuf_new-IsValid}
use yterm.Cellwin.Resized.{cbuf_resize-IsValid}
use yterm.Term.{esc_none, CursorPos, Screen, Term, wkscr}
use yterm.Term.Sequence.{zero-IsEscSeq}
use yterm.Term.Reset.{
  initial, reset_mode, init, resized, fix_cursor, fix_screen, change_size, fix_size,
}
use yterm.Term.Inv.{IsBuffer, IsCursor, IsScreen, IsTerm, wkscr-IsScreen}
use yterm.Term.Inv.Scrolls.{IsTerm-by}
use yterm.Term.Inv.Switches.{cbuf_new-some, reset_screen-IsScreen}

module _ {w h : ℕ} where
  resized-IsBuffer :
      (cb : CellBuffer) (relayout : Bool)
      → IsValid cb
      → 1 ≤ w
      → w ≤ max_buffer_size
      → 1 ≤ h
      → h ≤ max_buffer_size
      → IsBuffer w h (resized cb w h relayout)
  unfolding resized
  resized-IsBuffer cb relayout v a b c d =
      let r = cbuf_resize-IsValid cb w h relayout v (ground arith) in
      rw (r.1, resized) (record { width = r.3; height = r.4; wide = b; tall = d; valid = r.2 })

  fix_cursor-IsCursor :
      (cb : CellBuffer) (p : CursorPos) → 1 ≤ w → 1 ≤ h → IsCursor w h (fix_cursor w h cb p)
  unfolding fix_cursor
  fix_cursor-IsCursor cb p a b = record {
    column = ground arith;
    row = ground arith;
    flag = λ e. ground arith;
  }

  fix_screen-IsScreen :
      (cb : CellBuffer) (s : Screen)
      → IsBuffer w h cb
      → IsCursor w h s.cursaved
      → 1 ≤ w
      → 1 ≤ h
      → IsScreen w h (fix_screen w h cb s)
  unfolding fix_screen
  fix_screen-IsScreen cb s i c a b = record {
    buffer = i;
    cursor = fix_cursor-IsCursor s.cbuf s.curpos a b;
    saved = c;
    region = omega arith;
    bottom = omega arith;
  }

clamp_size :
    (n : ℕ)
    → (1 ≤ clamp (pos n) 1 max_buffer_size) × (clamp (pos n) 1 max_buffer_size ≤ max_buffer_size)
clamp_size n = ground arith

abbrev IsLegal : ℕ → Type 0
IsLegal n = (1 ≤ n) × (n ≤ max_buffer_size)

-- The buffer of the alternate screen is resized where there is one.
fix_alt-IsScreen :
    (w h nw nh : ℕ) (t : Term) (b : Bool)
    → IsTerm w h t
    → IsCursor nw nh t.alt.cursaved
    → IsLegal nw
    → IsLegal nh
    → (not (t.alt.cbuf.width == 0) || t.on_alt) ≡ b
    → (t.on_alt
        || not ((if b then resized t.alt.cbuf nw nh false else cbuf_free t.alt.cbuf).width == 0))
      ≡ true
    → IsScreen nw nh (
        fix_screen nw nh (if b then resized t.alt.cbuf nw nh false else cbuf_free t.alt.cbuf) t.alt)
fix_alt-IsScreen w h nw nh t true i a lw lh p e =
    fix_screen-IsScreen _ t.alt
      (resized-IsBuffer t.alt.cbuf false (i.alt (ground (arith, p))).buffer.valid lw.0 lw.1 lh.0
        lh.1)
      a lw.0 lh.0
fix_alt-IsScreen w h nw nh t false i a lw lh p e = absurd (ground (arith, p, e))

change_size-IsTerm :
    (w h nw nh : ℕ) (t : Term)
    → IsTerm w h t
    → IsCursor nw nh t.main.cursaved
    → IsCursor nw nh t.alt.cursaved
    → IsLegal nw
    → IsLegal nh
    → IsTerm nw nh (change_size nw nh t)
unfolding change_size fix_screen
change_size-IsTerm w h nw nh t i m a lw lh = record {
  main =
      fix_screen-IsScreen _ t.main
        (resized-IsBuffer t.main.cbuf true i.main.buffer.valid lw.0 lw.1 lh.0 lh.1) m lw.0 lh.0;
  alt = fix_alt-IsScreen w h nw nh t (not (t.alt.cbuf.width == 0) || t.on_alt) i a lw lh refl;
  sequence = i.sequence;
}

same_or_changed :
    (w h nw nh : ℕ) (t : Term)
    → IsTerm w h t
    → IsCursor nw nh t.main.cursaved
    → IsCursor nw nh t.alt.cursaved
    → IsLegal nw
    → IsLegal nh
    → IsTerm nw nh (
        if not (nw == (wkscr t).cbuf.width) || not (nh == (wkscr t).cbuf.height)
        then change_size nw nh t
        else t)
same_or_changed w h nw nh t i m a lw lh =
    IsTerm-by (not (nw == (wkscr t).cbuf.width) || not (nh == (wkscr t).cbuf.height))
      (λ e. change_size-IsTerm w h nw nh t i m a lw lh)
      (λ e.
        let b = (wkscr-IsScreen i).buffer in
        let p : w ≡ nw = ground (arith, e, b.width) in
        let q : h ≡ nh = ground (arith, e, b.height) in
        subst (λ (n : ℕ). IsTerm n nh t) p (subst (λ (n : ℕ). IsTerm w n t) q i))

-- `term_init` at a legal size makes a terminal that satisfies the invariant, in no escape sequence.
pub init-IsTerm :
    (history : Bool) (w h : ℕ)
    → 1 ≤ w
    → w ≤ max_buffer_size
    → 1 ≤ h
    → h ≤ max_buffer_size
    → (t : Term) × (init history w h ≡ some t) × IsTerm w h t × (t.escseq.state ≡ esc_none)
unfolding init reset_mode
init-IsTerm history w h a b c d =
    let (cb, e) = cbuf_new-some w h a b c d in
    let v = cbuf_new-IsValid w h e in
    (
      reset_mode (initial history cb),
      rw (e, init) refl,
      record {
        main =
            reset_screen-IsScreen cb.height
              (record { width = v.1; height = v.2; wide = b; tall = d; valid = v.0 }) a c v.2;
        alt = λ p. ground arith;
        sequence = zero-IsEscSeq esc_none (pos 0) 0;
      },
      refl,
    )

-- `term_fix_size` takes a terminal to the size of the window, which is clamped to the legal ones,
-- and keeps the invariant if the saved cursors fit the new size. (It does not look at them.)
pub fix_size-IsTerm :
    (w h cols rows : ℕ) (t : Term)
    → IsTerm w h t
    → IsCursor
        (clamp (pos cols) 1 max_buffer_size)
        (clamp (pos rows) 1 max_buffer_size)
        t.main.cursaved
    → IsCursor
        (clamp (pos cols) 1 max_buffer_size)
        (clamp (pos rows) 1 max_buffer_size)
        t.alt.cursaved
    → IsTerm
        (clamp (pos cols) 1 max_buffer_size)
        (clamp (pos rows) 1 max_buffer_size)
        (fix_size cols rows t)
unfolding fix_size
fix_size-IsTerm w h cols rows t i m a =
    same_or_changed w h (clamp (pos cols) 1 max_buffer_size) (clamp (pos rows) 1 max_buffer_size) t
      i m a (clamp_size cols) (clamp_size rows)
