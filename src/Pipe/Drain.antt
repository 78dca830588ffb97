-- ===== src/Pipe/Drain.antt =====
-- The queue empties.
use yterm.Prelude.{
  ℕ, zero, suc, ◌≤◌, ◌≡◌, refl, Bool, true, false, List, [], ◌∷◌, if◌then◌else◌, length,
  length-drop, drop, arith, min,
}
use yterm.Pipe.{Pipe, is_empty, written, dequeue, shrink, writes, one_term_write}

-- `one_term_write` is called `n` times on a pipe that is ready, and `write` takes some of the bytes
-- each time: one and `more` of the count, or all where that is more than there are.
unfoldable pub drain : ℕ → (ℕ → ℕ) → Pipe → Pipe
unfolding one_term_write
drain zero more p = p
drain (suc n) more p =
    drain n more (one_term_write true (written (min (length p.used) (suc (more n)))) true p)

record IsSmaller (n : ℕ) (p : Pipe) : Type 0 where
  is_open : p.is_open ≡ true
  alive : p.alive ≡ true
  few : length p.used ≤ n

shrink-IsSmaller : (n : ℕ) (ok : Bool) (p : Pipe) → IsSmaller n p → IsSmaller n (shrink ok p)
unfolding shrink
shrink-IsSmaller n ok p h = record {
  is_open = ground (arith, h.is_open);
  alive = ground (arith, h.alive);
  few = ground (arith, h.few);
}

length_of_empty : (xs : List ℕ) → is_empty xs ≡ true → length xs ≡ 0
length_of_empty [] e = refl
length_of_empty (x ∷ xs) e = ground (arith, e)

length_of_some : (xs : List ℕ) → is_empty xs ≡ false → 1 ≤ length xs
length_of_some [] e = ground (arith, e)
length_of_some (x ∷ xs) e = omega arith

write-IsSmaller :
    (n k : ℕ) (p : Pipe)
    → IsSmaller (suc n) p
    → IsSmaller n (one_term_write true (written (min (length p.used) (suc k))) true p)
unfolding one_term_write dequeue
write-IsSmaller n k p h = shrink-IsSmaller n true _ (taking (is_empty p.used) refl)
  where
    dropped : List ℕ
    dropped = drop (min (length p.used) (suc k)) p.used

    taking :
        (b : Bool)
        → is_empty p.used ≡ b
        → IsSmaller n (if writes true p then record p { used = dropped } else p)
    taking true e = record {
      is_open = ground (arith, e, h.is_open);
      alive = ground (arith, e, h.alive);
      few = ground (arith, e, length_of_empty p.used e);
    }
    taking false e = record {
      is_open = ground (arith, e, h.is_open);
      alive = ground (arith, e, h.alive);
      few = ground (
        arith,
        e,
        h.few,
        h.is_open,
        h.alive,
        length-drop (min (length p.used) (suc k)) p.used,
        length_of_some p.used e,
      );
    }

nil_of_length : (xs : List ℕ) → length xs ≤ 0 → xs ≡ []
nil_of_length [] l = refl
nil_of_length (x ∷ xs) l = absurd (omega (arith, l))

drain-IsSmaller : (n : ℕ) (more : ℕ → ℕ) (p : Pipe) → IsSmaller n p → IsSmaller 0 (drain n more p)
unfolding drain
drain-IsSmaller zero more p h = h
drain-IsSmaller (suc n) more p h = drain-IsSmaller n more _ (write-IsSmaller n (more n) p h)

-- However few of the bytes the system takes at a time, but at least one, the queue of an open pipe
-- to a living child is empty after as many calls of `one_term_write` as there are bytes in it.
pub drain_lem :
    (n : ℕ) (more : ℕ → ℕ) (p : Pipe)
    → p.is_open ≡ true
    → p.alive ≡ true
    → length p.used ≤ n
    → ((drain n more p).used ≡ []) × ((drain n more p).is_open ≡ true)
drain_lem n more p o a l =
    let h = drain-IsSmaller n more p (record { is_open = o; alive = a; few = l }) in
    (nil_of_length (drain n more p).used h.few, h.is_open)
