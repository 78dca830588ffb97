-- ===== src/Pipe/Order.antt =====
-- The bytes go to the child once and in order.
use yterm.Prelude.{
  ℕ, ◌/◌, max, ◌+◌, ◌-◌, ◌≤◌, take-append-drop, ◌≡◌, refl, ap, sym, ◌∙◌, Bool, true, false, ◌&&◌,
  ◌||◌, not, List, [], ◌∷◌, ◌++◌, ltb, leb, if◌then◌else◌, length, take, drop, arith,
}
use mathlib.Core.List.{append-nil, append_assoc}
use yterm.Pipe.{
  Pipe, close_fd, is_empty, enqueue, write_raw, WriteResult, write_again, write_error, write_none,
  written, dequeue, shrink, writes, one_term_write, max_size, write_buf_size,
}
use yterm.Pipe.Bounds.{IsPipe, write_raw-IsPipe, one_term_write-IsPipe}

-- What a call of `write` takes from the queue.
abbrev pub taken : WriteResult → List ℕ → List ℕ
taken (written n) bytes = take n bytes
taken _ bytes = []

abbrev rest : WriteResult → List ℕ → List ℕ
rest (written n) bytes = drop n bytes
rest _ bytes = bytes

taken-append-rest : (r : WriteResult) (xs : List ℕ) → taken r xs ++ rest r xs ≡ xs
taken-append-rest write_again xs = refl
taken-append-rest write_error xs = refl
taken-append-rest write_none xs = refl
taken-append-rest (written n) xs = take-append-drop n xs

abbrev pub sent_by : Bool → WriteResult → Pipe → List ℕ
sent_by ready r p = if writes ready p then taken r p.used else []

-- `write` does not report more bytes than it was given.
abbrev pub Reports : WriteResult → Pipe → Type 0
Reports (written n) p = n ≤ length p.used
Reports _ p = 0 ≤ length p.used

-- A run of calls, with the bytes that `term_write_raw` was given and those that the system took.
pub data Run : Pipe → List ℕ → List ℕ → Pipe → Type 0 where
  stop : (p : Pipe) → Run p [] [] p
  ask :
      (ok : Bool) (bytes asked sent : List ℕ) (p p' : Pipe)
      → Run (write_raw ok bytes p) asked sent p'
      → Run p (bytes ++ asked) sent p'
  flush :
      (ready : Bool) (r : WriteResult) (ok : Bool) (asked sent : List ℕ) (p p' : Pipe)
      → Reports r p
      → Run (one_term_write ready r ok p) asked sent p'
      → Run p asked (sent_by ready r p ++ sent) p'

-- What a call that leaves the pipe open did to a queue `xs`: the pipe was open, and the queue is `ys`.
record Kept (p : Pipe) (xs : List ℕ) (p' : Pipe) : Type 0 where
  before : p'.is_open ≡ true → p.is_open ≡ true
  queue : p'.is_open ≡ true → p'.used ≡ xs

Kept-by :
    (b : Bool) {p q q' : Pipe} {xs : List ℕ}
    → (b ≡ true → Kept p xs q)
    → (b ≡ false → Kept p xs q')
    → Kept p xs (if b then q else q')
Kept-by true hp hq = hp refl
Kept-by false hp hq = hq refl

closed-Kept : (p q : Pipe) (xs : List ℕ) → Kept p xs (close_fd q)
closed-Kept p q xs = record { before = λ e. ground (arith, e); queue = λ e. ground (arith, e) }

nil_of_empty : (xs : List ℕ) → is_empty xs ≡ true → xs ≡ []
nil_of_empty [] e = refl
nil_of_empty (x ∷ xs) e = ground (arith, e)

write_raw-Kept :
    (ok : Bool) (bytes : List ℕ) (p : Pipe) → Kept p (p.used ++ bytes) (write_raw ok bytes p)
unfolding write_raw enqueue
write_raw-Kept ok bytes p =
    let need = length p.used + length bytes in
    Kept-by (not p.alive) (λ a. closed-Kept p p _)
      (λ a.
        Kept-by (not (is_empty bytes) && p.is_open)
          (λ b.
            Kept-by (ltb p.size need)
              (λ c.
                Kept-by (leb max_size p.size || ltb (max_size - p.size) (length bytes) || not ok)
                  (λ d. closed-Kept p p _) (λ d. record { before = λ e. e; queue = λ e. refl }))
              (λ c. record { before = λ e. e; queue = λ e. refl }))
          (λ b. record {
            before = λ e. e;
            queue = λ e. sym (
                ap (λ (ys : List ℕ). p.used ++ ys) (nil_of_empty bytes (ground (arith, b, e)))
                ∙ append-nil p.used);
          }))

dequeue-Kept : (r : WriteResult) (p : Pipe) → Kept p (rest r p.used) (dequeue r p)
unfolding dequeue
dequeue-Kept write_again p = record { before = λ e. e; queue = λ e. refl }
dequeue-Kept write_error p = closed-Kept p p _
dequeue-Kept write_none p = closed-Kept p p _
dequeue-Kept (written n) p = record { before = λ e. e; queue = λ e. refl }

shrink-Kept : (ok : Bool) (p q : Pipe) (xs : List ℕ) → Kept p xs q → Kept p xs (shrink ok q)
unfolding shrink
shrink-Kept ok p q xs k =
    Kept-by
      (ltb write_buf_size q.size
        && leb (length q.used) (max write_buf_size (if ltb 4096 q.size then 4096 else q.size / 2))
        && ok)
      (λ e. record { before = k.before; queue = k.queue }) (λ e. k)

-- What `one_term_write` leaves of the queue.
abbrev left_by : Bool → WriteResult → Pipe → List ℕ
left_by ready r p = if writes ready p then rest r p.used else p.used

one_term_write-Kept :
    (ready : Bool) (r : WriteResult) (ok : Bool) (p : Pipe)
    → Kept p (left_by ready r p) (one_term_write ready r ok p)
unfolding one_term_write
one_term_write-Kept ready r ok p = shrink-Kept ok p _ _ (step (writes ready p))
  where
    step : (b : Bool) → Kept p (if b then rest r p.used else p.used) (if b then dequeue r p else p)
    step true = dequeue-Kept r p
    step false = record { before = λ e. e; queue = λ e. refl }

sent-append-left :
    (ready : Bool) (r : WriteResult) (p : Pipe) → sent_by ready r p ++ left_by ready r p ≡ p.used
sent-append-left ready r p = go (writes ready p)
  where
    go :
        (b : Bool)
        → (if b then taken r p.used else []) ++ (if b then rest r p.used else p.used) ≡ p.used
    go true = taken-append-rest r p.used
    go false = refl

-- The pipe was open all the time if it is open in the end.
Run-is_open :
    {p p' : Pipe} {asked sent : List ℕ} → Run p asked sent p' → p'.is_open ≡ true → p.is_open ≡ true
Run-is_open (stop p) o = o
Run-is_open (ask ok bytes asked sent p p' next) o =
    (write_raw-Kept ok bytes p).before (Run-is_open next o)
Run-is_open (flush ready r ok asked sent p p' h next) o =
    (one_term_write-Kept ready r ok p).before (Run-is_open next o)

-- The queue refines a stream: in any run of calls of `term_write_raw` and `one_term_write`, whatever
-- the system returns, that leaves the pipe open, the bytes that the system took and after them the
-- bytes that are still in the queue are the bytes of the queue before and after them the bytes that
-- were asked to be written, in order: none is lost, doubled or moved. The queue fits its buffer in
-- the end, if it does in the beginning.
pub Run-order :
    {p p' : Pipe} {asked sent : List ℕ}
    → Run p asked sent p'
    → IsPipe p
    → p'.is_open ≡ true
    → (p.used ++ asked ≡ sent ++ p'.used) × IsPipe p'
Run-order (stop p) h o = (append-nil p.used, h)
Run-order (ask ok bytes asked sent p p' next) h o =
    let (e, i) = Run-order next (write_raw-IsPipe ok bytes p h) o in
    (
      sym (append_assoc p.used bytes asked)
          ∙ ap (λ (xs : List ℕ). xs ++ asked)
              (sym ((write_raw-Kept ok bytes p).queue (Run-is_open next o)))
          ∙ e,
      i,
    )
Run-order (flush ready r ok asked sent p p' g next) h o =
    let (e, i) = Run-order next (one_term_write-IsPipe ready r ok p h) o in
    (
      ap (λ (xs : List ℕ). xs ++ asked)
            (sym (sent-append-left ready r p)
              ∙ ap (λ (xs : List ℕ). sent_by ready r p ++ xs)
                  (sym ((one_term_write-Kept ready r ok p).queue (Run-is_open next o))))
          ∙ append_assoc (sent_by ready r p) _ asked
          ∙ ap (λ (xs : List ℕ). sent_by ready r p ++ xs) e
          ∙ sym (append_assoc (sent_by ready r p) sent p'.used),
      i,
    )
