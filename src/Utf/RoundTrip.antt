-- ===== src/Utf/RoundTrip.antt =====
-- What the encoder of utf.c writes, the decoder reads back.
use mathlib.Core.List.{append_assoc}
use yterm.Prelude.{
  ℕ, ◌+◌, ◌*◌, ◌/◌, ◌%◌, ◌^◌, ◌≤◌, ◌<◌, ◌≡◌, ◌≢◌, refl, ◌∙◌, ap, bit_and, bit_or, Bool, true, ◌&&◌,
  leb, if◌then◌else◌, List, [], ◌∷◌, ◌++◌, map, arith,
}
use yterm.Prelude.Bits.{bit_and_mask, bit_or_high}
use yterm.Utf.{valid_cp, start_state, utf8d_consume_ex, utf8_encode, Decoded, char, decode_bytes}
use yterm.Utf.Dfa.{
  in_progress, is_state, transition, lead_bits, returned, consume_first, consume_next,
}

-- The encoder by the sizes, with sums for `|` and remainders for `&`.
abbrev pub utf8_bytes : ℕ → List ℕ
utf8_bytes cp =
    if leb cp 0x7f
    then cp ∷ []
    else if leb cp 0x7ff
    then (0xc0 + cp / 2 ^ 6) ∷ (0x80 + cp % 64) ∷ []
    else if leb cp 0xffff
    then (0xe0 + cp / 2 ^ 12) ∷ (0x80 + cp / 2 ^ 6 % 64) ∷ (0x80 + cp % 64) ∷ []
    else (0xf0 + cp / 2 ^ 18)
      ∷ (0x80 + cp / 2 ^ 12 % 64)
      ∷ (0x80 + cp / 2 ^ 6 % 64)
      ∷ (0x80 + cp % 64)
      ∷ []

tail_byte : (x : ℕ) → bit_or 0x80 (bit_and x 0x3f) ≡ 0x80 + x % 64
tail_byte x = rw (bit_and_mask 6 x) (bit_or_high 6 2 (x % 64) (omega arith))

pub encode-bytes : (cp : ℕ) → valid_cp cp ≡ true → utf8_encode cp ≡ utf8_bytes cp
unfolding utf8_encode
encode-bytes cp h = ground (
  arith,
  bit_or_high 5 6 (cp / 2 ^ 6),
  bit_or_high 4 14 (cp / 2 ^ 12),
  bit_or_high 3 30 (cp / 2 ^ 18),
  tail_byte cp,
  tail_byte (cp / 2 ^ 6),
  tail_byte (cp / 2 ^ 12),
)

-- A value inside a sequence is handed to nobody.
decode_in_progress :
    (r byte s v : ℕ) (rest : List ℕ)
    → utf8d_consume_ex r byte ≡ in_progress s v
    → v < 2 ^ 24
    → 0x10ffff < s * 2 ^ 24
    → s ≢ 12
    → decode_bytes r (byte ∷ rest) ≡ decode_bytes (in_progress s v) rest
unfolding decode_bytes
decode_in_progress r byte s v rest e hv hs n = ground (arith)

decode_done :
    (r byte cp : ℕ) (rest : List ℕ)
    → utf8d_consume_ex r byte ≡ cp
    → valid_cp cp ≡ true
    → decode_bytes r (byte ∷ rest) ≡ (char cp ∷ (decode_bytes cp rest).0, (decode_bytes cp rest).1)
unfolding decode_bytes
decode_done r byte cp rest e h = ground arith

module _ (r cp : ℕ) (rest : List ℕ) (start : start_state r ≡ 0) (valid : valid_cp cp ≡ true) where
  Emits : List ℕ → Type 0
  Emits bytes =
      decode_bytes r (bytes ++ rest)
      ≡ (char cp ∷ (decode_bytes cp rest).0, (decode_bytes cp rest).1)

  Emits-one : cp ≤ 0x7f → Emits (cp ∷ [])
  unfolding Emits
  Emits-one h =
      decode_done r cp cp rest
        (consume_first _ r cp start (omega arith) (ground arith) ∙ ground arith) valid

  Emits-two : 0x7f < cp → cp ≤ 0x7ff → Emits ((0xc0 + cp / 2 ^ 6) ∷ (0x80 + cp % 64) ∷ [])
  unfolding Emits
  Emits-two l h =
      decode_in_progress r _ 24 (cp / 64) _
        (consume_first _ r _ start (omega arith) (ground arith) ∙ ground arith) (omega arith)
        (omega arith) (omega arith)
      ∙ decode_done _ _ cp rest
          (consume_next _ 24 (cp / 64) _ refl (omega arith) (omega arith) (omega arith)
            ∙ ground arith)
          valid

  state_three : ℕ
  state_three = transition 0 (0xe0 + cp / 2 ^ 12)

  state_three_lem :
      0x7ff < cp
      → cp ≤ 0xffff
      → (is_state state_three ≡ true)
        × (state_three ≢ 0)
        × (state_three ≢ 12)
        × (1 ≤ state_three)
        × (transition state_three (0x80 + cp / 2 ^ 6 % 64) ≡ 24)
  unfolding state_three
  state_three_lem l h = (ground arith, ground arith, ground arith, ground arith, ground arith)

  enters_three :
      0x7ff < cp
      → cp ≤ 0xffff
      → returned (12 * 2 ^ 24) (transition 0 (0xe0 + cp / 2 ^ 12)) (lead_bits (0xe0 + cp / 2 ^ 12))
        ≡ in_progress state_three (cp / 2 ^ 12)
  unfolding state_three
  enters_three l h = ground arith

  Emits-three :
      0x7ff < cp
      → cp ≤ 0xffff
      → Emits ((0xe0 + cp / 2 ^ 12) ∷ (0x80 + cp / 2 ^ 6 % 64) ∷ (0x80 + cp % 64) ∷ [])
  unfolding Emits
  Emits-three l h =
      let (is, ne, nr, big, next) = state_three_lem l h in
      decode_in_progress r _ state_three (cp / 2 ^ 12) _
        (consume_first _ r (0xe0 + cp / 2 ^ 12) start (omega arith) (ground arith)
          ∙ enters_three l h)
        (omega arith) (omega arith) nr
      ∙ decode_in_progress _ _ 24 (cp / 64) _
          (consume_next _ state_three (cp / 2 ^ 12) _ is ne (omega arith) (omega arith)
            ∙ ground (arith, next))
          (omega arith) (omega arith) (omega arith)
      ∙ decode_done _ _ cp rest
          (consume_next _ 24 (cp / 64) _ refl (omega arith) (omega arith) (omega arith)
            ∙ ground arith)
          valid

  state_four : ℕ
  state_four = transition 0 (0xf0 + cp / 2 ^ 18)

  state_four_lem :
      0xffff < cp
      → (is_state state_four ≡ true)
        × (state_four ≢ 0)
        × (state_four ≢ 12)
        × (1 ≤ state_four)
        × (transition state_four (0x80 + cp / 2 ^ 12 % 64) ≡ 36)
  unfolding state_four
  state_four_lem l = (ground arith, ground arith, ground arith, ground arith, ground arith)

  enters_four :
      0xffff < cp
      → cp ≤ 0x10ffff
      → returned (12 * 2 ^ 24) (transition 0 (0xf0 + cp / 2 ^ 18)) (lead_bits (0xf0 + cp / 2 ^ 18))
        ≡ in_progress state_four (cp / 2 ^ 18)
  unfolding state_four
  enters_four l h = ground arith

  Emits-four :
      0xffff < cp
      → Emits (
          (0xf0 + cp / 2 ^ 18)
          ∷ (0x80 + cp / 2 ^ 12 % 64)
          ∷ (0x80 + cp / 2 ^ 6 % 64)
          ∷ (0x80 + cp % 64)
          ∷ [])
  unfolding Emits
  Emits-four l =
      let (is, ne, nr, big, next) = state_four_lem l in
      let h : cp ≤ 0x10ffff = ground arith in
      decode_in_progress r _ state_four (cp / 2 ^ 18) _
        (consume_first _ r (0xf0 + cp / 2 ^ 18) start (omega arith) (ground arith)
          ∙ enters_four l h)
        (omega arith) (omega arith) nr
      ∙ decode_in_progress _ _ 36 (cp / 2 ^ 12) _
          (consume_next _ state_four (cp / 2 ^ 18) _ is ne (omega arith) (omega arith)
            ∙ ground (arith, next))
          (omega arith) (omega arith) (omega arith)
      ∙ decode_in_progress _ _ 24 (cp / 64) _
          (consume_next _ 36 (cp / 2 ^ 12) _ refl (omega arith) (omega arith) (omega arith)
            ∙ ground arith)
          (omega arith) (omega arith) (omega arith)
      ∙ decode_done _ _ cp rest
          (consume_next _ 24 (cp / 64) _ refl (omega arith) (omega arith) (omega arith)
            ∙ ground arith)
          valid

  decode-encode_rest : Emits (utf8_encode cp)
  unfolding Emits
  decode-encode_rest =
      rw (encode-bytes cp valid) (ground (arith, Emits-one, Emits-two, Emits-three, Emits-four))

unfoldable pub encode_all : List ℕ → List ℕ
encode_all [] = []
encode_all (cp ∷ cps) = utf8_encode cp ++ encode_all cps

abbrev pub all_valid : List ℕ → Bool
all_valid [] = true
all_valid (cp ∷ cps) = valid_cp cp && all_valid cps

start_state_of_valid : (cp : ℕ) → valid_cp cp ≡ true → start_state cp ≡ 0
unfolding start_state
start_state_of_valid cp h = ground arith

-- From any value of the decoder that is not inside a sequence, the bytes that the encoder writes
-- for a list of valid code points are decoded to exactly those code points, whatever bytes follow:
-- none is lost, split, or marked invalid, and decoding goes on after them from the start state.
pub decode-encode :
    (cps rest : List ℕ) (r : ℕ)
    → start_state r ≡ 0
    → all_valid cps ≡ true
    → (r' : ℕ) × (start_state r' ≡ 0)
      × (decode_bytes r (encode_all cps ++ rest)
          ≡ (map char cps ++ (decode_bytes r' rest).0, (decode_bytes r' rest).1))
unfolding encode_all Emits
decode-encode [] rest r s h = (r, s, refl)
decode-encode (cp ∷ cps) rest r s h =
    let valid : valid_cp cp ≡ true = ground arith in
    let (r', s', e) = decode-encode cps rest cp (start_state_of_valid cp valid) (ground arith) in
    (
      r',
      s',
      ap (decode_bytes r) (append_assoc (utf8_encode cp) (encode_all cps) rest)
          ∙ decode-encode_rest r cp (encode_all cps ++ rest) s valid
          ∙ ap (λ (p : List Decoded × ℕ). (char cp ∷ p.0, p.1)) e,
    )
