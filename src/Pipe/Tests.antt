-- ===== src/Pipe/Tests.antt =====
-- A pipe with three bytes.
use yterm.Prelude.{ℕ, ◌≤◌, ◌≡◌, refl, true, false, List, [], ◌∷◌, ◌++◌, arith}
use yterm.Pipe.{Pipe, written, write_again, write_raw, one_term_write}
use yterm.Pipe.Write.{after_ascii, koi_loop, term_write, Round, term_write_sanitize}
use yterm.Pipe.Write.Sent.{text_bytes, Fit, term_write_lem}
use yterm.Pipe.Write.Clean.{CleanRun, term_write_sanitize-CleanRun}
use yterm.Pipe.Bounds.{IsPipe}
use yterm.Pipe.Order.{Run, stop, ask, flush, Run-order}
use yterm.Pipe.Drain.{drain, drain_lem}

abbrev pipe : Pipe
pipe = record { alive = true; is_open = true; used = 1 ∷ 2 ∷ 3 ∷ []; size = 128 }

abbrev later : Pipe
later = record pipe { used = 3 ∷ 4 ∷ [] }

-- A byte is asked for, and two are taken.
pipe-Run : Run pipe (4 ∷ []) (1 ∷ 2 ∷ []) later
unfolding write_raw one_term_write
pipe-Run = ask true (4 ∷ []) [] (1 ∷ 2 ∷ []) pipe later (
    flush true (written 2) true [] [] (record pipe { used = 1 ∷ 2 ∷ 3 ∷ 4 ∷ [] }) later
      (omega arith) (stop later))

Run-order_example : (pipe.used ++ (4 ∷ []) ≡ (1 ∷ 2 ∷ []) ++ later.used) × IsPipe later
Run-order_example = Run-order pipe-Run (record { fits = omega arith; limit = omega arith }) refl

drain_lem_example : ((drain 3 (λ n. n) pipe).used ≡ []) × ((drain 3 (λ n. n) pipe).is_open ≡ true)
drain_lem_example = drain_lem 3 (λ n. n) pipe refl refl (omega arith)

-- "ab" and a Cyrillic letter in UTF-8.
abbrev koi_text : List ℕ
koi_text = 0x61 ∷ 0x62 ∷ 0xd0 ∷ 0xb0 ∷ []

-- An escape sequence, which is not passed on, with a call of one_term_write that takes nothing.
abbrev pasted : List ℕ
pasted = 0x1b ∷ 0x5b ∷ 0x41 ∷ []

abbrev rounds : List Round
rounds =
    record { ready = true; result = write_again; shrinks = true; grows = true }
    ∷ record { ready = true; result = write_again; shrinks = true; grows = true }
    ∷ record { ready = true; result = write_again; shrinks = true; grows = true }
    ∷ []

at_least : (n : ℕ) → 0 ≤ n
at_least n = omega arith

pipe-IsPipe : IsPipe pipe
pipe-IsPipe = record { fits = omega arith; limit = omega arith }

term_write_lem_example :
    ((term_write false (λ n. true) koi_text pipe).used ≡ pipe.used ++ text_bytes false koi_text)
    × Fit (koi_loop 0 [] (after_ascii koi_text))
unfolding term_write write_raw
term_write_lem_example = term_write_lem false (λ n. true) koi_text pipe pipe-IsPipe refl refl refl

term_write_sanitize-CleanRun_example : CleanRun pipe (term_write_sanitize rounds false pasted pipe)
term_write_sanitize-CleanRun_example =
    term_write_sanitize-CleanRun rounds false pasted pipe
      (at_least _, (at_least _, (at_least _, tt)))
