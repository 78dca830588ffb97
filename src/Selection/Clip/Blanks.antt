-- ===== src/Selection/Clip/Blanks.antt =====
-- The blank bytes that do_copy_to cuts off the end of a line are blank characters.
use mathlib.Core.List.{append_assoc}
use yterm.Prelude.{
  ℕ, ◌≤◌, ◌<◌, ◌≡◌, refl, ap, ap₂, sym, ◌∙◌, Bool, true, false, ◌&&◌, List, [], ◌∷◌, ◌++◌, inl, inr,
  leb, if◌then◌else◌, length, Bool-cases, arith,
}
use yterm.Utf.{valid_cp, utf8_encode, replacement_cp}
use yterm.Utf.RoundTrip.{encode_all, encode-bytes}
use yterm.Selection.Clip.{encode_line, keep_unless, trim_line}

abbrev no_chars : List ℕ → Bool
no_chars [] = true
no_chars (_ ∷ _) = false

-- Characters without the blanks at their end.
abbrev pub drop_blanks : List ℕ → List ℕ
drop_blanks [] = []
drop_blanks (cp ∷ cps) =
    let rest = drop_blanks cps in if no_chars rest && leb cp 32 then [] else cp ∷ rest

drop_blank :
    (b : Bool) (cp : ℕ) (rest : List ℕ)
    → keep_unless b cp rest ≡ (if no_chars rest && b then [] else cp ∷ rest)
drop_blank b cp [] = refl
drop_blank b cp (c ∷ rest) = refl

abbrev NoBlanks : List ℕ → Type 0
NoBlanks [] = Unit
NoBlanks (b ∷ bs) = (32 < b) × NoBlanks bs

encode-NoBlanks_valid : (cp : ℕ) → 32 < cp → valid_cp cp ≡ true → NoBlanks (utf8_encode cp)
encode-NoBlanks_valid cp h v = rw (encode-bytes cp v) (elim (Bool-cases (leb cp 0x7f)) [
  | inl a ↦ rw a (h, tt)
  | inr a ↦ rw a (elim (Bool-cases (leb cp 0x7ff)) [
    | inl b ↦ rw b (omega arith, (omega arith, tt))
    | inr b ↦ rw b (elim (Bool-cases (leb cp 0xffff)) [
      | inl c ↦ rw c (omega arith, (omega arith, (omega arith, tt)))
      | inr c ↦ rw c (omega arith, (omega arith, (omega arith, (omega arith, tt))))
    ])
  ])
])

encode-invalid : (cp : ℕ) → valid_cp cp ≡ false → utf8_encode cp ≡ utf8_encode replacement_cp
unfolding utf8_encode
encode-invalid cp v = rw v

encode-NoBlanks : (cp : ℕ) → 32 < cp → NoBlanks (utf8_encode cp)
encode-NoBlanks cp h = elim (Bool-cases (valid_cp cp)) [
  | inl v ↦ encode-NoBlanks_valid cp h v
  | inr v ↦ rw (encode-invalid cp v) (encode-NoBlanks_valid replacement_cp (omega arith) refl)
]

encode-blank : (cp : ℕ) → cp ≤ 32 → utf8_encode cp ≡ cp ∷ []
unfolding utf8_encode
encode-blank cp h = ground arith

-- Bytes that are not blank are kept, whatever follows them.
trim-NoBlanks : (bs rest : List ℕ) → NoBlanks bs → trim_line (bs ++ rest) ≡ bs ++ trim_line rest
unfolding trim_line
trim-NoBlanks [] rest h = refl
trim-NoBlanks (b ∷ bs) rest h = rw (trim-NoBlanks bs rest h.1) (keeps b (bs ++ trim_line rest) h.0)
  where
    keeps : (b : ℕ) (l : List ℕ) → 32 < b → keep_unless (leb b 32) b l ≡ b ∷ l
    keeps b [] h = ground arith
    keeps b (c ∷ l) h = refl

cons_of : (l : List ℕ) → 0 < length l → (b : ℕ) × (bs : List ℕ) × (l ≡ b ∷ bs)
cons_of [] h = absurd (omega arith)
cons_of (b ∷ bs) h = (b, bs, refl)

length-encode_pos : (cp : ℕ) → 0 < length (utf8_encode cp)
unfolding utf8_encode
length-encode_pos cp = ground arith

encode-cons : (cp : ℕ) → (b : ℕ) × (bs : List ℕ) × (utf8_encode cp ≡ b ∷ bs)
encode-cons cp = cons_of (utf8_encode cp) (length-encode_pos cp)

-- A blank before encoded characters is kept unless there are none.
keep-blank :
    (cp : ℕ) (cps : List ℕ)
    → cp ≤ 32
    → keep_unless true cp (encode_all cps) ≡ encode_all (keep_unless true cp cps)
unfolding encode_all
keep-blank cp [] h = refl
keep-blank cp (d ∷ ds) h = let (b, bs, e) = encode-cons d in rw (encode-blank cp h, e) refl

keep-char :
    (cp : ℕ) (cps : List ℕ)
    → utf8_encode cp ++ encode_all cps ≡ encode_all (keep_unless false cp cps)
unfolding encode_all
keep-char cp [] = refl
keep-char cp (d ∷ ds) = refl

-- Cutting the blank bytes off the end of encoded characters drops the blank characters, whole.
pub trim-encode : (cps : List ℕ) → trim_line (encode_all cps) ≡ encode_all (drop_blanks cps)
unfolding trim_line encode_all
trim-encode [] = refl
trim-encode (cp ∷ cps) = elim (Bool-cases (leb cp 32)) [
  | inl e ↦
      let blank : cp ≤ 32 = ground arith in
      ap (λ l. trim_line (l ++ encode_all cps)) (encode-blank cp blank)
      ∙ ap₂ (λ b l. keep_unless b cp l) e (trim-encode cps)
      ∙ keep-blank cp (drop_blanks cps) blank
      ∙ ap (λ b. encode_all (keep_unless b cp (drop_blanks cps))) (sym e)
      ∙ ap encode_all (drop_blank (leb cp 32) cp (drop_blanks cps))
  | inr e ↦
      trim-NoBlanks (utf8_encode cp) (encode_all cps) (encode-NoBlanks cp (ground arith))
      ∙ ap (λ l. utf8_encode cp ++ l) (trim-encode cps)
      ∙ keep-char cp (drop_blanks cps)
      ∙ ap (λ b. encode_all (keep_unless b cp (drop_blanks cps))) (sym e)
      ∙ ap encode_all (drop_blank (leb cp 32) cp (drop_blanks cps))
]

pub encode_line-all : (cps : List ℕ) → encode_line cps ≡ encode_all cps
unfolding encode_line encode_all
encode_line-all [] = refl
encode_line-all (cp ∷ cps) = ap (λ l. utf8_encode cp ++ l) (encode_line-all cps)

pub encode_all-append : (a b : List ℕ) → encode_all (a ++ b) ≡ encode_all a ++ encode_all b
unfolding encode_all
encode_all-append [] b = refl
encode_all-append (cp ∷ a) b =
    ap (λ l. utf8_encode cp ++ l) (encode_all-append a b)
    ∙ sym (append_assoc (utf8_encode cp) (encode_all a) (encode_all b))
