-- ===== src/Utf/Reader.antt =====
-- The decoder of utf.c on arbitrary bytes.
use yterm.Prelude.{
  ℕ, ◌+◌, ◌*◌, ◌%◌, ◌^◌, ◌≤◌, ◌<◌, ◌≡◌, ◌≢◌, refl, ◌∙◌, ap, true, false, ◌&&◌, ◌||◌, ◌⊎◌, inl, inr,
  ltb, ◌==◌, if◌then◌else◌, get_or, length, arith, Bool-cases,
}
use yterm.Utf.{dfa, valid_cp, start_state, consume_with, utf8d_consume_ex}
use yterm.Utf.Dfa.{
  in_progress, is_state, transition, lead_bits, returned, dfa-class, consume_first, consume_next,
  next_state-transition, start_state-in_progress,
}

-- How large the bits read so far are in each state.
abbrev pub limit : ℕ → ℕ
limit s =
    if s == 24
    then 2 ^ 15
    else if s == 36
    then 2 ^ 9
    else if s == 48 || s == 60
    then 2 ^ 4
    else 2 ^ 3

-- Inside a sequence.
pub record IsInside (r : ℕ) : Type 0 where
  pub state : ℕ
  pub bits : ℕ
  pub value : r ≡ in_progress state bits
  pub known : is_state state ≡ true
  pub busy : state ≢ 0
  pub small : bits < limit state

-- The values of the decoder between two bytes: a code point, the mark of an invalid sequence, or
-- the inside of a sequence.
abbrev pub IsReader : ℕ → Type 0
IsReader r = (valid_cp r ≡ true) ⊎ ((r ≡ 12 * 2 ^ 24) ⊎ IsInside r)

consume_reject :
    (cp c : ℕ)
    → start_state cp ≡ 0
    → c < 256
    → transition 0 c ≡ 12
    → utf8d_consume_ex cp c ≡ 12 * 2 ^ 24
unfolding consume_with
consume_reject cp c e hc t = rw (e, next_state-transition 0 c refl hc, t)

-- From the start state: a code point below 0x80, an invalid byte, or the inside of a sequence.
returned_first :
    (c : ℕ)
    → c < 256
    → ((ltb 0x7f c && ltb c 0xc2) || ltb 0xf4 c) ≡ false
    → IsReader (returned (12 * 2 ^ 24) (transition 0 c) (lead_bits c))
returned_first c h g = elim (Bool-cases (ltb c 0x80)) [
  | inl low ↦ inl (ground arith)
  | inr high ↦ inr (
      inr (record {
        state = transition 0 c;
        bits = lead_bits c;
        value = ground arith;
        known = ground arith;
        busy = ground arith;
        small = ground arith;
      }))
]

-- Inside a sequence: the sequence goes on, ends in a value that is tested, or is invalid.
returned_next :
    (s v c : ℕ)
    → is_state s ≡ true
    → s ≢ 0
    → v < limit s
    → c < 256
    → IsReader (returned (12 * 2 ^ 24) (transition s c) (v * 64 + c % 64))
returned_next s v c hs n hv hc = elim (Bool-cases (transition s c == 12)) [
  | inl bad ↦ inr (inl (rw bad))
  | inr ok ↦ elim (Bool-cases (transition s c == 0)) [
    | inl done ↦ elim (Bool-cases (valid_cp (v * 64 + c % 64))) [
      | inl valid ↦ inl (rw (ok, done, valid) valid)
      | inr wrong ↦ inr (inl (rw (ok, done, wrong)))
    ]
    | inr more ↦ inr (
        inr (record {
          state = transition s c;
          bits = v * 64 + c % 64;
          value = rw (ok, more);
          known = ground arith;
          busy = ground arith;
          small = ground arith;
        }))
  ]
]

start_state_of_outside : (r : ℕ) → (valid_cp r ≡ true) ⊎ (r ≡ 12 * 2 ^ 24) → start_state r ≡ 0
unfolding start_state
start_state_of_outside r h = ground arith

-- Where a sequence may start, any byte leads to a value of the decoder.
outside-IsReader : (r c : ℕ) → start_state r ≡ 0 → c < 256 → IsReader (utf8d_consume_ex r c)
outside-IsReader r c e h = elim (Bool-cases ((ltb 0x7f c && ltb c 0xc2) || ltb 0xf4 c)) [
  | inl bad ↦ inr (inl (consume_reject r c e h (ground arith)))
  | inr ok ↦ rw (consume_first (12 * 2 ^ 24) r c e h ok) (returned_first c h ok)
]

inside-IsReader : (r c : ℕ) → IsInside r → c < 256 → IsReader (utf8d_consume_ex r c)
inside-IsReader r c i h =
    rw (i.value, consume_next (12 * 2 ^ 24) i.state i.bits c i.known i.busy (ground arith) h)
      (returned_next i.state i.bits c i.known i.busy i.small h)

start_state-inside : (r : ℕ) (i : IsInside r) → start_state r ≡ i.state
start_state-inside r i =
    ap start_state i.value ∙ start_state-in_progress i.state i.bits i.known (ground arith)

start_state-lt : (r : ℕ) → IsReader r → start_state r ≤ 96
start_state-lt r (inl v) = omega (arith, start_state_of_outside r (inl v))
start_state-lt r (inr (inl e)) = omega (arith, start_state_of_outside r (inr e))
start_state-lt r (inr (inr i)) = ground (arith, start_state-inside r i, i.known)

-- On any byte at any value that it can hold, `yterm_utf8d_consume_ex` reads its table within
-- bounds, and leaves a value that it can hold: a valid code point, the mark of an invalid
-- sequence, or the inside of one.
pub consume_ex-IsReader :
    (r c : ℕ)
    → IsReader r
    → c < 256
    → IsReader (utf8d_consume_ex r c) × (256 + start_state r + get_or dfa c 0 < length dfa)
consume_ex-IsReader r c h hc = (keeps h, bound)
  where
    keeps : IsReader r → IsReader (utf8d_consume_ex r c)
    keeps (inl v) = outside-IsReader r c (start_state_of_outside r (inl v)) hc
    keeps (inr (inl e)) = outside-IsReader r c (start_state_of_outside r (inr e)) hc
    keeps (inr (inr i)) = inside-IsReader r c i hc

    size : length dfa ≡ 364
    size = unfold dfa in refl

    bound : 256 + start_state r + get_or dfa c 0 < length dfa
    bound = ground (arith, size, start_state-lt r h, dfa-class c hc)
