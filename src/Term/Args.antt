-- ===== src/Term/Args.antt =====
-- The arguments that the parser of CSI sequences leaves.
use yterm.Prelude.{
  ℕ, zero, suc, ◌+◌, ◌-◌, ◌*◌, ◌%◌, ◌^◌, ◌≤◌, ◌<◌, ◌≡◌, refl, ap, sym, ◌∙◌, subst, Bool-cases, inl,
  inr, ◌&&◌, ◌||◌, min, max, Bool, true, false, List, [], ◌∷◌, some, ltb, leb, ◌==◌, if◌then◌else◌,
  arith, length, get_elem?, ℤ, pos, negsuc, pos_part,
}
use mathlib.Core.Option.{some-injective}
use yterm.Term.{EscSeq, esc_arg_size}
use yterm.Term.Csi.{omitted, get_arg, put_arg, next_arg, add_digit, csi_next_char}

-- An argument is omitted or fits 16 bits.
pub data IsArg : ℤ → Type 0 where
  none_given : IsArg (negsuc 0)
  given : (n : ℕ) → n < 2 ^ 16 → IsArg (pos n)

-- The array has its sixteen elements, at most sixteen are used, and each is an argument.
pub record IsArgs (e : EscSeq) : Type 0 where
  pub size : length e.argv ≡ 16
  pub used : e.argc ≤ 16
  pub each : (i : ℕ) (a : ℤ) → get_elem? e.argv i ≡ some a → IsArg a

-- A write inside the array.
pub length-put_arg :
    (xs : List ℤ) (i : ℕ) (v : ℤ) → i < length xs → length (put_arg xs i v) ≡ length xs
unfolding put_arg
length-put_arg [] i v l = absurd (omega arith)
length-put_arg (x ∷ xs) zero v l = refl
length-put_arg (x ∷ xs) (suc i) v l = ap suc (length-put_arg xs i v (omega arith))

-- A write at one place of an array, as `get_elem?` sees it.
pub put_arg-each :
    (xs : List ℤ) (i : ℕ) (v : ℤ)
    → i < length xs
    → IsArg v
    → ((j : ℕ) (a : ℤ) → get_elem? xs j ≡ some a → IsArg a)
    → (j : ℕ) (a : ℤ) → get_elem? (put_arg xs i v) j ≡ some a
    → IsArg a
unfolding put_arg
put_arg-each [] i v l p h j a e = absurd (omega arith)
put_arg-each (x ∷ xs) zero v l p h zero a e = subst IsArg (some-injective v a e) p
put_arg-each (x ∷ xs) zero v l p h (suc j) a e = h (suc j) a e
put_arg-each (x ∷ xs) (suc i) v l p h zero a e = h zero a e
put_arg-each (x ∷ xs) (suc i) v l p h (suc j) a e =
    put_arg-each xs i v (omega arith) p (λ k. h (suc k)) j a e

IsArgs-if : (b : Bool) {p q : EscSeq} → IsArgs p → IsArgs q → IsArgs (if b then p else q)
IsArgs-if true hp hq = hp
IsArgs-if false hp hq = hq

-- One element is written, and the count of the arguments changes.
put_arg-IsArgs :
    (e : EscSeq) (i : ℕ) (v : ℤ) (n : ℕ)
    → i < 16
    → IsArg v
    → n ≤ 16
    → IsArgs e
    → IsArgs (record e { argv = put_arg e.argv i v; argc = n })
put_arg-IsArgs e i v n b p l h =
    let inside : i < length e.argv = omega (arith, b, h.size) in
    record {
      size = length-put_arg e.argv i v inside ∙ h.size;
      used = l;
      each = put_arg-each e.argv i v inside p h.each;
    }

count-IsArgs : (e : EscSeq) (n : ℕ) → n ≤ 16 → IsArgs e → IsArgs (record e { argc = n })
count-IsArgs e n l h = record { size = h.size; used = l; each = h.each }

first-IsArgs :
    (e : EscSeq) (v : ℤ)
    → IsArg v
    → IsArgs e
    → IsArgs (if e.argc == 0 then record e { argv = put_arg e.argv 0 v; argc = 1 } else e)
first-IsArgs e v p h =
    IsArgs-if (e.argc == 0) (put_arg-IsArgs e 0 v 1 (omega arith) p (omega arith) h) h

-- `;` after the first argument is there.
register-IsArgs :
    (e : EscSeq)
    → IsArgs e
    → IsArgs (record e {
      argv = if ltb e.argc esc_arg_size then put_arg e.argv e.argc omitted else e.argv;
      argc = min esc_arg_size (e.argc + 1);
    })
register-IsArgs e h = elim (Bool-cases (ltb e.argc 16)) [
  | inl b ↦
      rw (b) (put_arg-IsArgs e e.argc omitted _ (ground (arith, b)) none_given (omega arith) h)
  | inr b ↦ rw (b) (count-IsArgs e _ (omega arith) h)
]

next_arg-IsArgs : (e : EscSeq) → IsArgs e → IsArgs (next_arg e)
unfolding next_arg
next_arg-IsArgs e h = register-IsArgs _ (first-IsArgs e omitted none_given h)

-- A digit after the first argument is there.
digit-IsArgs :
    (d : ℕ) (e : EscSeq)
    → IsArgs e
    → IsArgs (
        if ltb (e.argc - 1) esc_arg_size
        then record e {
          argv =
              put_arg e.argv
                (e.argc - 1)
                (pos ((pos_part (get_arg e.argv (e.argc - 1)) * 10 + d) % 2 ^ 16));
        }
        else e)
digit-IsArgs d e h = elim (Bool-cases (ltb (e.argc - 1) 16)) [
  | inl b ↦
      rw (b) (put_arg-IsArgs e _ _ e.argc (ground (arith, b)) (given _ (omega arith)) h.used h)
  | inr b ↦ rw (b) h
]

add_digit-IsArgs : (d : ℕ) (e : EscSeq) → IsArgs e → IsArgs (add_digit d e)
unfolding add_digit
add_digit-IsArgs d e h = digit-IsArgs d _ (first-IsArgs e (pos 0) (given 0 (omega arith)) h)

record Next (p : EscSeq × Bool) : Type 0 where
  args : IsArgs p.0

Next-if : (b : Bool) {p q : EscSeq × Bool} → Next p → Next q → Next (if b then p else q)
Next-if true hp hq = hp
Next-if false hp hq = hq

-- Whatever character comes, the array of the arguments keeps its sixteen elements, `argc` stays at
-- most 16, and every argument is omitted or below 65536.
pub csi_next_char-IsArgs : (cp : ℕ) (e : EscSeq) → IsArgs e → IsArgs (csi_next_char cp e).0
unfolding csi_next_char
csi_next_char-IsArgs cp e h =
    (Next-if (cp == 0x3f && e.argc == 0)
      (record { args = record { size = h.size; used = h.used; each = h.each } })
      (Next-if (cp == 0x3e && e.argc == 0)
        (record { args = record { size = h.size; used = h.used; each = h.each } })
        (Next-if (cp == 0x3b || cp == 0x3a) (record { args = next_arg-IsArgs e h })
          (Next-if (leb 0x30 cp && leb cp 0x39) (record { args = add_digit-IsArgs (cp - 0x30) e h })
            (Next-if (leb 0x40 cp && leb cp 0x7e)
              (record { args = record { size = h.size; used = h.used; each = h.each } })
              (record { args = record { size = h.size; used = h.used; each = h.each } })))))).args

-- The value of a list of decimal digits, from `v` on.
abbrev pub decimal : ℕ → List ℕ → ℕ
decimal v [] = v
decimal v (d ∷ ds) = decimal (v * 10 + d) ds

abbrev pub feed_digits : List ℕ → EscSeq → EscSeq
feed_digits [] e = e
feed_digits (d ∷ ds) e = feed_digits ds (csi_next_char (0x30 + d) e).0

abbrev pub are_digits : List ℕ → Bool
are_digits [] = true
are_digits (d ∷ ds) = leb d 9 && are_digits ds

decimal_mod : (v : ℕ) (ds : List ℕ) → decimal v ds % 2 ^ 16 ≡ decimal (v % 2 ^ 16) ds % 2 ^ 16
decimal_mod v [] = omega arith
decimal_mod v (d ∷ ds) =
    decimal_mod (v * 10 + d) ds
    ∙ ap (λ (n : ℕ). decimal n ds % 2 ^ 16) (omega arith)
    ∙ sym (decimal_mod (v % 2 ^ 16 * 10 + d) ds)

get_arg-put_arg : (xs : List ℤ) (i : ℕ) (v : ℤ) → get_arg (put_arg xs i v) i ≡ v
unfolding put_arg
get_arg-put_arg [] zero v = refl
get_arg-put_arg [] (suc i) v = get_arg-put_arg [] i v
get_arg-put_arg (x ∷ xs) zero v = refl
get_arg-put_arg (x ∷ xs) (suc i) v = get_arg-put_arg xs i v

-- The value of the argument that the next digit belongs to: 0 before the first argument, and where
-- the argument is omitted.
abbrev pub current_arg : EscSeq → ℕ
current_arg e = if e.argc == 0 then 0 else pos_part (get_arg e.argv (e.argc - 1))

next_digit : (d : ℕ) (e : EscSeq) → d ≤ 9 → (csi_next_char (0x30 + d) e).0 ≡ add_digit d e
unfolding csi_next_char
next_digit d e h = ground arith

-- The argument and the count that a digit leaves.
record Writes (d : ℕ) (e e' : EscSeq) : Type 0 where
  count : e'.argc ≡ max 1 e.argc
  value : get_arg e'.argv (e.argc - 1) ≡ pos ((current_arg e * 10 + d) % 2 ^ 16)

-- A digit of the argument `i`, which is there.
digit-Writes :
    (d v i : ℕ) (e0 e : EscSeq)
    → i < 16
    → e0.argc - 1 ≡ i
    → e.argc ≡ max 1 e0.argc
    → pos_part (get_arg e.argv i) ≡ v
    → current_arg e0 ≡ v
    → Writes d e0 (
        if ltb i esc_arg_size
        then record e {
          argv = put_arg e.argv i (pos ((pos_part (get_arg e.argv i) * 10 + d) % 2 ^ 16));
        }
        else e)
digit-Writes d v i e0 e b p c q s =
    let inside : ltb i esc_arg_size ≡ true = ground (arith, b) in
    rw (inside) (record {
      count = c;
      value =
          ap (get_arg (put_arg e.argv i (pos ((pos_part (get_arg e.argv i) * 10 + d) % 2 ^ 16)))) p
          ∙ get_arg-put_arg e.argv i _
          ∙ ap (λ (n : ℕ). pos ((n * 10 + d) % 2 ^ 16)) (q ∙ sym s);
    })

add_digit-Writes : (d : ℕ) (e : EscSeq) → e.argc ≤ 16 → Writes d e (add_digit d e)
unfolding add_digit
add_digit-Writes d e l = elim (Bool-cases (e.argc == 0)) [
  | inl z ↦
      let none : e.argc ≡ 0 = ground (arith, z) in
      rw (z) (
        digit-Writes d 0 0 e (record e { argv = put_arg e.argv 0 (pos 0); argc = 1 }) (omega arith)
          (omega (arith, none)) (omega (arith, none))
          (ap pos_part (get_arg-put_arg e.argv 0 (pos 0))) (rw (z) refl))
  | inr z ↦
      let some_arg : 1 ≤ e.argc = ground (arith, z) in
      rw (z) (
        digit-Writes d (pos_part (get_arg e.argv (e.argc - 1))) (e.argc - 1) e e
          (omega (arith, l, some_arg)) refl (omega (arith, some_arg)) refl (rw (z) refl))
]

-- A digit that comes to the parser is the current argument's.
csi_next_char-Writes :
    (d : ℕ) (e : EscSeq) → e.argc ≤ 16 → d ≤ 9 → Writes d e (csi_next_char (0x30 + d) e).0
csi_next_char-Writes d e l b = rw (next_digit d e b) (add_digit-Writes d e l)

-- The argument is there after a digit.
current-Writes :
    (d : ℕ) (e e' : EscSeq)
    → Writes d e e'
    → (e'.argc - 1 ≡ e.argc - 1) × (current_arg e' ≡ (current_arg e * 10 + d) % 2 ^ 16)
current-Writes d e e' w =
    let same : e'.argc - 1 ≡ e.argc - 1 = omega (arith, w.count) in
    let there : (e'.argc == 0) ≡ false = ground (arith, w.count) in
    (same, rw (there) (ap (λ (i : ℕ). pos_part (get_arg e'.argv i)) same ∙ ap pos_part w.value))

-- Whatever the parser has read, digits that follow belong to one argument: the last one, or the first
-- if there is none yet. They leave in it, modulo 65536, the number that they write after the digits
-- that it had; an argument that was not there or was omitted had none.
pub feed_digits_lem :
    (d : ℕ) (ds : List ℕ) (e : EscSeq)
    → IsArgs e
    → are_digits (d ∷ ds) ≡ true
    → ((feed_digits (d ∷ ds) e).argc ≡ max 1 e.argc)
      × (get_arg (feed_digits (d ∷ ds) e).argv (e.argc - 1)
          ≡ pos (decimal (current_arg e) (d ∷ ds) % 2 ^ 16))
feed_digits_lem d [] e h a =
    let w = csi_next_char-Writes d e h.used (ground (arith, a)) in (w.count, w.value)
feed_digits_lem d (c ∷ ds) e h a =
    let w = csi_next_char-Writes d e h.used (ground (arith, a)) in
    let e' = (csi_next_char (0x30 + d) e).0 in
    let (same, value) = current-Writes d e e' w in
    let (count, rest) =
      feed_digits_lem c ds e' (csi_next_char-IsArgs (0x30 + d) e h) (ground (arith, a)) in
    (
      omega (arith, count, w.count),
      ap (get_arg (feed_digits (c ∷ ds) e').argv) (sym same)
          ∙ rest
          ∙ ap (λ (n : ℕ). pos (decimal n (c ∷ ds) % 2 ^ 16)) value
          ∙ ap pos (sym (decimal_mod (current_arg e * 10 + d) (c ∷ ds))),
    )
