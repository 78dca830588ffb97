-- ===== src/Pipe/Bounds.antt =====
-- The queue of bytes fits its buffer, and the buffer its limit.
use yterm.Prelude.{
  ℕ, ◌+◌, ◌-◌, ◌*◌, ◌/◌, ◌%◌, ◌^◌, ◌≤◌, ◌<◌, ◌≡◌, refl, ap, sym, ◌∙◌, max, Bool, true, false, ◌&&◌,
  ◌||◌, not, List, ltb, leb, if◌then◌else◌, length, length-append, length-drop, bit_or, arith,
}
use yterm.Prelude.Bits.{bit_or_mask}
use yterm.Pipe.{
  Pipe, write_buf_size, max_size, close_fd, is_empty, enqueue, write_raw, WriteResult, write_again,
  write_error, write_none, written, dequeue, shrink, writes, one_term_write,
}

-- The bytes in use fit the buffer, which is at most one page above its limit.
pub record IsPipe (p : Pipe) : Type 0 where
  pub fits : length p.used ≤ p.size
  pub limit : p.size ≤ max_size + 4096

-- `(n | 4095) + 1` is the next multiple of 4096.
page_lem : (n : ℕ) → (n < bit_or n 4095 + 1) × (bit_or n 4095 + 1 ≤ n + 4096)
page_lem n =
    let e : n / 2 ^ 12 * 2 ^ 12 + n % 2 ^ 12 ≡ n = omega arith in
    let q =
      ap (λ (m : ℕ). bit_or m 4095) (sym e)
      ∙ bit_or_mask 12 (n / 2 ^ 12) (n % 2 ^ 12) (omega arith) in
    (omega (arith, q), omega (arith, q))

IsPipe-by :
    (b : Bool) {p q : Pipe}
    → (b ≡ true → IsPipe p)
    → (b ≡ false → IsPipe q)
    → IsPipe (if b then p else q)
IsPipe-by true hp hq = hp refl
IsPipe-by false hp hq = hq refl

close_fd-IsPipe : (p : Pipe) → IsPipe (close_fd p)
close_fd-IsPipe p = record { fits = omega arith; limit = omega arith }

pub write_raw-IsPipe :
    (ok : Bool) (bytes : List ℕ) (p : Pipe) → IsPipe p → IsPipe (write_raw ok bytes p)
unfolding write_raw enqueue
write_raw-IsPipe ok bytes p h =
    let n = length-append p.used bytes in
    let need = length p.used + length bytes in
    IsPipe-by (not p.alive) (λ a. close_fd-IsPipe p)
      (λ a.
        IsPipe-by (not (is_empty bytes) && p.is_open)
          (λ b.
            IsPipe-by (ltb p.size need)
              (λ c.
                IsPipe-by (leb max_size p.size || ltb (max_size - p.size) (length bytes) || not ok)
                  (λ d. close_fd-IsPipe p)
                  (λ d. record {
                    fits = ground (arith, n, page_lem need);
                    limit = ground (arith, d, h.fits, page_lem need);
                  }))
              (λ c. record { fits = ground (arith, c, n); limit = h.limit }))
          (λ b. h))

dequeue-IsPipe : (r : WriteResult) (p : Pipe) → IsPipe p → IsPipe (dequeue r p)
unfolding dequeue
dequeue-IsPipe write_again p h = h
dequeue-IsPipe write_error p h = close_fd-IsPipe p
dequeue-IsPipe write_none p h = close_fd-IsPipe p
dequeue-IsPipe (written n) p h = record {
  fits = omega (arith, length-drop n p.used, h.fits);
  limit = h.limit;
}

shrink-IsPipe : (ok : Bool) (p : Pipe) → IsPipe p → IsPipe (shrink ok p)
unfolding shrink
shrink-IsPipe ok p h =
    let nsz = max write_buf_size (if ltb 4096 p.size then 4096 else p.size / 2) in
    IsPipe-by (ltb write_buf_size p.size && leb (length p.used) nsz && ok)
      (λ e. record { fits = ground (arith, e); limit = ground (arith, e, h.limit) }) (λ e. h)

pub one_term_write-IsPipe :
    (ready : Bool) (r : WriteResult) (ok : Bool) (p : Pipe)
    → IsPipe p
    → IsPipe (one_term_write ready r ok p)
unfolding one_term_write
one_term_write-IsPipe ready r ok p h =
    shrink-IsPipe ok _ (IsPipe-by (writes ready p) (λ e. dequeue-IsPipe r p h) (λ e. h))
