-- ===== src/Term/Machine/Titles.antt =====
-- The titles that `finish_osc` sets.
use yterm.Prelude.{
  ℕ, suc, ◌≤◌, ◌≡◌, refl, ◌∙◌, Bool, true, false, ◌&&◌, not, leb, ◌==◌, inl, inr, Bool-cases, arith,
  List, [], ◌∷◌, ◌++◌, length, replicate, ap, ap₂, ==_iff,
}
use yterm.Term.Strings.{c_string, clean_controls, is_empty, trim_end, trim_start, title_of}

-- No control byte, as `finish_osc` tests it.
abbrev pub is_printable : List ℕ → Bool
is_printable [] = true
is_printable (c ∷ cs) = leb 32 c && not (c == 127) && is_printable cs

abbrev pub last_or : ℕ → List ℕ → ℕ
last_or d [] = d
last_or d (c ∷ cs) = last_or c cs

abbrev pub head_or : ℕ → List ℕ → ℕ
head_or d [] = d
head_or d (c ∷ cs) = c

clean_controls-is_printable : (cs : List ℕ) → is_printable (clean_controls cs) ≡ true
unfolding clean_controls
clean_controls-is_printable [] = refl
clean_controls-is_printable (c ∷ cs) = ground (arith, clean_controls-is_printable cs)

trim_end-is_printable : (cs : List ℕ) → is_printable cs ≡ true → is_printable (trim_end cs) ≡ true
unfolding trim_end
trim_end-is_printable [] h = refl
trim_end-is_printable (c ∷ cs) h = ground (arith, h, trim_end-is_printable cs (ground (arith, h)))

trim_start-is_printable :
    (cs : List ℕ) → is_printable cs ≡ true → is_printable (trim_start cs) ≡ true
unfolding trim_start
trim_start-is_printable [] h = refl
trim_start-is_printable (c ∷ cs) h =
    ground (arith, h, trim_start-is_printable cs (ground (arith, h)))

trim_start-head : (cs : List ℕ) → (head_or 0 (trim_start cs) == 32) ≡ false
unfolding trim_start
trim_start-head [] = refl
trim_start-head (c ∷ cs) = ground (arith, trim_start-head cs)

length-c_string : (cs : List ℕ) → length (c_string cs) ≤ length cs
unfolding c_string
length-c_string [] = omega arith
length-c_string (c ∷ cs) = ground (arith, length-c_string cs)

length-clean_controls : (cs : List ℕ) → length (clean_controls cs) ≡ length cs
unfolding clean_controls
length-clean_controls [] = refl
length-clean_controls (c ∷ cs) = ground (arith, length-clean_controls cs)

length-trim_end : (cs : List ℕ) → length (trim_end cs) ≤ length cs
unfolding trim_end
length-trim_end [] = omega arith
length-trim_end (c ∷ cs) = ground (arith, length-trim_end cs)

length-trim_start : (cs : List ℕ) → length (trim_start cs) ≤ length cs
unfolding trim_start
length-trim_start [] = omega arith
length-trim_start (c ∷ cs) = ground (arith, length-trim_start cs)

last_or_any : (d e : ℕ) (cs : List ℕ) → is_empty cs ≡ false → last_or d cs ≡ last_or e cs
last_or_any d e [] h = ground (arith, h)
last_or_any d e (c ∷ cs) h = refl

last_of_empty : (d : ℕ) (cs : List ℕ) → is_empty cs ≡ true → last_or d cs ≡ d
last_of_empty d [] h = refl
last_of_empty d (c ∷ cs) h = ground (arith, h)

trim_start_of_empty : (cs : List ℕ) → is_empty cs ≡ true → trim_start cs ≡ []
unfolding trim_start
trim_start_of_empty [] h = refl
trim_start_of_empty (c ∷ cs) h = ground (arith, h)

trim_end-last : (cs : List ℕ) → (last_or 0 (trim_end cs) == 32) ≡ false
unfolding trim_end
trim_end-last [] = refl
trim_end-last (c ∷ cs) = elim (Bool-cases (is_empty (trim_end cs))) [
  | inl e ↦ ground (arith, e, last_of_empty c (trim_end cs) e)
  | inr e ↦ ground (arith, e, trim_end-last cs, last_or_any c 0 (trim_end cs) e)
]

trim_start-last :
    (cs : List ℕ) → (last_or 0 cs == 32) ≡ false → (last_or 0 (trim_start cs) == 32) ≡ false
unfolding trim_start
trim_start-last [] h = refl
trim_start-last (c ∷ cs) h = elim (Bool-cases (is_empty cs)) [
  | inl e ↦ ground (arith, h, last_of_empty c cs e, trim_start_of_empty cs e)
  | inr e ↦ ground (arith, h, last_or_any c 0 cs e, trim_start-last cs)
]

eq_of : (a b : ℕ) → (a == b) ≡ true → a ≡ b
eq_of a b e = (==_iff a b).0 e

empty_of : (cs : List ℕ) → is_empty cs ≡ true → cs ≡ []
empty_of [] e = refl
empty_of (c ∷ cs) e = ground (arith, e)

abbrev pub spaces : ℕ → List ℕ
spaces n = replicate n 32

trim_start_splits : (cs : List ℕ) → (n : ℕ) × (cs ≡ spaces n ++ trim_start cs)
unfolding trim_start
trim_start_splits [] = (0, refl)
trim_start_splits (c ∷ cs) = elim (Bool-cases (c == 32)) [
  | inl e ↦
      (let (n, q) = trim_start_splits cs in
        (suc n, rw (e) (ap₂ (λ (x : ℕ) (xs : List ℕ). x ∷ xs) (eq_of c 32 e) q)))
  | inr e ↦ (0, rw (e) refl)
]

trim_end_splits : (cs : List ℕ) → (n : ℕ) × (cs ≡ trim_end cs ++ spaces n)
unfolding trim_end
trim_end_splits [] = (0, refl)
trim_end_splits (c ∷ cs) = elim (Bool-cases (c == 32 && is_empty (trim_end cs))) [
  | inl e ↦
      (let (n, q) = trim_end_splits cs in
        (
          suc n,
          rw (e) (
              ap₂ (λ (x : ℕ) (xs : List ℕ). x ∷ xs) (eq_of c 32 (ground (arith, e)))
                (q
                  ∙ ap (λ (xs : List ℕ). xs ++ spaces n)
                      (empty_of (trim_end cs) (ground (arith, e))))),
        ))
  | inr e ↦ (let (n, q) = trim_end_splits cs in (n, rw (e) (ap (λ (xs : List ℕ). c ∷ xs) q)))
]

-- The title that `finish_osc` makes of the bytes of an OSC string is the string up to its first zero
-- byte, with each control byte replaced by a space, without the spaces before and after: it has no
-- control byte, does not begin or end with a space, and is no longer than the string.
pub title_of_lem :
    (sbuf : List ℕ)
    → ((n : ℕ) × ((m : ℕ) × (clean_controls (c_string sbuf)
            ≡ spaces n ++ title_of sbuf ++ spaces m)))
      × (is_printable (title_of sbuf) ≡ true)
      × ((head_or 0 (title_of sbuf) == 32) ≡ false)
      × ((last_or 0 (title_of sbuf) == 32) ≡ false)
      × (length (title_of sbuf) ≤ length sbuf)
unfolding title_of
title_of_lem sbuf =
    let cs = clean_controls (c_string sbuf) in
    let (n, p) = trim_start_splits (trim_end cs) in
    let (m, q) = trim_end_splits cs in
    (
      (n, (m, q ∙ ap (λ (xs : List ℕ). xs ++ spaces m) p)),
      trim_start-is_printable (trim_end cs)
          (trim_end-is_printable cs (clean_controls-is_printable (c_string sbuf))),
      trim_start-head (trim_end cs),
      trim_start-last (trim_end cs) (trim_end-last cs),
      omega (
        arith,
        length-trim_start (trim_end cs),
        length-trim_end cs,
        length-clean_controls (c_string sbuf),
        length-c_string sbuf,
      ),
    )
