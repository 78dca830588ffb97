-- ===== src/Term/Tests/Machine.antt =====
-- The terminal reads bytes.
use yterm.Prelude.{
  ℕ, ◌≤◌, ◌≡◌, refl, true, false, arith, List, [], ◌∷◌, ◌++◌, length, ◌==◌, negsuc, some,
}
use yterm.Utf.{start_state}
use yterm.Utf.RoundTrip.{encode_all}
use yterm.Term.{esc_none, Term}
use yterm.Term.Escapes.{reset_esc}
use yterm.Term.Reset.{reset_mode, init, fix_size}
use yterm.Term.Yterm.{save_values, restore_values}
use yterm.Term.Strings.{title_of, clean_controls, c_string}
use yterm.Term.Process.{process_char}
use yterm.Term.Input.{Child, read_bytes, read_utf, one_term_read}
use yterm.Term.Inv.{IsTerm}
use yterm.Term.Inv.Sizes.{init-IsTerm, fix_size-IsTerm}
use yterm.Term.Inv.Reads.{one_term_read-IsTerm}
use yterm.Term.Machine.Recovery.{ending, process_char-cancel, process_char-reset}
use yterm.Term.Machine.Titles.{is_printable, head_or, last_or, spaces, title_of_lem}
use yterm.Term.Machine.Reading.{process_all, read_utf-encode}
use yterm.Term.Machine.Settings.{restore_values-save_values}
use yterm.Term.Tests.{terminal, globals, terminal-IsTerm}

-- A child whose terminal is inside the sequence CSI 1 2.
abbrev child : Child
child = record { term = terminal; rdcp = 0; is_open = true }

-- The rest of the sequence, a letter, and a title in Cyrillic.
abbrev output : List ℕ
output =
    0x4a ∷ 0x58 ∷ 0x1b ∷ 0x5d ∷ 0x32 ∷ 0x3b ∷ 0xd0 ∷ 0xb0 ∷ 0x07 ∷ 0x1b ∷ 0x5b ∷ 0x3f ∷ 0x31 ∷ 0x30
    ∷ 0x34 ∷ 0x39 ∷ 0x68 ∷ []

abbrev text : List ℕ
text = 0x1b ∷ 0x5b ∷ 0x48 ∷ 0x430 ∷ 0x2500 ∷ []

one_term_read-IsTerm_example : IsTerm 3 2 (one_term_read globals (read_bytes output) child).term
one_term_read-IsTerm_example =
    one_term_read-IsTerm globals (read_bytes output) child refl terminal-IsTerm

read_utf-encode_example :
    (read_utf globals (encode_all text) child).term ≡ process_all globals text terminal
unfolding start_state
read_utf-encode_example = read_utf-encode globals text child refl refl

process_char-cancel_example : process_char globals 0x18 terminal ≡ reset_esc terminal
process_char-cancel_example = process_char-cancel globals terminal

process_char-reset_example :
    process_char globals 0x63 (process_char globals 0x1b terminal) ≡ record (reset_mode terminal) {
      effects = ending terminal.escseq.state globals terminal.escseq ++ terminal.effects;
    }
process_char-reset_example = process_char-reset globals terminal

-- Two spaces, a letter, a tab, a letter and a space.
abbrev raw_title : List ℕ
raw_title = 0x20 ∷ 0x20 ∷ 0x58 ∷ 0x09 ∷ 0x59 ∷ 0x20 ∷ []

title_of_lem_example :
    ((n : ℕ) × ((m : ℕ) × (clean_controls (c_string raw_title)
          ≡ spaces n ++ title_of raw_title ++ spaces m)))
    × (is_printable (title_of raw_title) ≡ true)
    × ((head_or 0 (title_of raw_title) == 32) ≡ false)
    × ((last_or 0 (title_of raw_title) == 32) ≡ false)
    × (length (title_of raw_title) ≤ length raw_title)
title_of_lem_example = title_of_lem raw_title

restore_values-save_values_example :
    ((restore_values (save_values terminal)).report_mods ≡ false)
    × ((restore_values (save_values terminal)).escesc ≡ negsuc 0)
    × ((restore_values (save_values terminal)).saved_values ≡ 0)
restore_values-save_values_example = restore_values-save_values terminal (save_values terminal) refl

init-IsTerm_example :
    (t : Term) × (init true 80 24 ≡ some t) × IsTerm 80 24 t × (t.escseq.state ≡ esc_none)
init-IsTerm_example = init-IsTerm true 80 24 (omega arith) (omega arith) (omega arith) (omega arith)

fix_size-IsTerm_example : IsTerm 5 1 (fix_size 5 0 terminal)
fix_size-IsTerm_example =
    fix_size-IsTerm 3 2 5 0 terminal terminal-IsTerm
      (record { column = omega arith; row = omega arith; flag = λ e. ground arith })
      (record { column = omega arith; row = omega arith; flag = λ e. ground arith })
