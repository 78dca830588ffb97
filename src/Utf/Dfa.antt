-- ===== src/Utf/Dfa.antt =====
-- The tables of utf.c, checked entry by entry, and the states of the decoder.
use yterm.Prelude.{
  ℕ, ◌+◌, ◌-◌, ◌*◌, ◌/◌, ◌%◌, ◌^◌, ◌<◌, ◌≡◌, ◌≢◌, refl, bit_and, Bool, true, false, ◌&&◌, ◌||◌, not,
  ltb, ◌==◌, if◌then◌else◌, ==_iff, get_or, arith,
}
use yterm.Prelude.Bits.{all_below, holds_below, bit_and_mask, bit_or_low}
use yterm.Utf.{dfa, valid_cp, start_state, gather, next_state, consume_with}

-- The classes of the bytes.
abbrev pub byte_class : ℕ → ℕ
byte_class c =
    if ltb c 0x80
    then 0
    else if ltb c 0x90
    then 1
    else if ltb c 0xa0
    then 9
    else if ltb c 0xc0
    then 7
    else if ltb c 0xc2
    then 8
    else if ltb c 0xe0
    then 2
    else if c == 0xe0
    then 10
    else if c == 0xed
    then 4
    else if ltb c 0xf0
    then 3
    else if c == 0xf0
    then 11
    else if ltb c 0xf4
    then 6
    else if c == 0xf4
    then 5
    else 8

class_table : all_below 256 (λ c. get_or dfa c 0 == byte_class c) ≡ true
unfolding all_below dfa
class_table = refl

pub dfa-class : (c : ℕ) → c < 256 → get_or dfa c 0 ≡ byte_class c
dfa-class c h =
    (==_iff _ _).0 (holds_below 256 (λ c. get_or dfa c 0 == byte_class c) c class_table h)

-- What the bits of a first byte that count are.
abbrev pub lead_bits : ℕ → ℕ
lead_bits c =
    if ltb c 0x80
    then c
    else if ltb c 0xc2
    then 0
    else if ltb c 0xe0
    then c - 0xc0
    else if ltb c 0xf0
    then c - 0xe0
    else if ltb c 0xf5
    then c - 0xf0
    else 0

lead_table :
    all_below 256 (λ c.
      (ltb 0x7f c && ltb c 0xc2)
      || ltb 0xf4 c
      || (bit_and (0xff / 2 ^ get_or dfa c 0) c == lead_bits c))
    ≡ true
unfolding all_below dfa
lead_table = refl

pub lead-bits :
    (c : ℕ)
    → c < 256
    → ((ltb 0x7f c && ltb c 0xc2) || ltb 0xf4 c) ≡ false
    → bit_and (0xff / 2 ^ get_or dfa c 0) c ≡ lead_bits c
lead-bits c h g = ground (arith, holds_below 256 _ c lead_table h)

-- The transitions, by the byte.
abbrev pub transition : ℕ → ℕ → ℕ
transition s c =
    if s == 0
    then if ltb c 0x80
      then 0
      else if ltb c 0xc2
      then 12
      else if ltb c 0xe0
      then 24
      else if c == 0xe0
      then 48
      else if c == 0xed
      then 60
      else if ltb c 0xf0
      then 36
      else if c == 0xf0
      then 72
      else if ltb c 0xf4
      then 84
      else if c == 0xf4
      then 96
      else 12
    else if ltb c 0x80 || ltb 0xbf c
    then 12
    else if s == 24
    then 0
    else if s == 36
    then 24
    else if s == 48
    then if ltb c 0xa0 then 12 else 24
    else if s == 60
    then if ltb c 0xa0 then 24 else 12
    else if s == 72
    then if ltb c 0x90 then 12 else 36
    else if s == 84
    then 36
    else if ltb c 0x90
    then 36
    else 12

-- The states of the decoder between two bytes.
abbrev pub is_state : ℕ → Bool
is_state s = s == 0 || s == 24 || s == 36 || s == 48 || s == 60 || s == 72 || s == 84 || s == 96

transition_table :
    all_below 97 (λ s. not (is_state s) || all_below 256 (λ c. next_state s c == transition s c))
    ≡ true
unfolding all_below next_state dfa
transition_table = refl

pub next_state-transition :
    (s c : ℕ) → is_state s ≡ true → c < 256 → next_state s c ≡ transition s c
next_state-transition s c hs hc =
    let row =
      holds_below 97
        (λ s. not (is_state s) || all_below 256 (λ c. next_state s c == transition s c)) s
        transition_table (ground arith) in
    (==_iff _ _).0 (holds_below 256 (λ c. next_state s c == transition s c) c (ground arith) hc)

-- The value of the decoder inside a sequence: a state and the bits read so far.
abbrev pub in_progress : ℕ → ℕ → ℕ
in_progress s v = s * 2 ^ 24 + v

pub start_state-in_progress :
    (s v : ℕ) → is_state s ≡ true → v < 2 ^ 24 → start_state (in_progress s v) ≡ s
unfolding start_state
start_state-in_progress s v h hv = ground arith

masked : (s v : ℕ) → v < 2 ^ 24 → bit_and (in_progress s v) 0x00ffffff * 2 ^ 6 % 2 ^ 32 ≡ v * 2 ^ 6
masked s v hv = omega (arith, bit_and_mask 24 (in_progress s v))

gather_next : (s v c : ℕ) → s ≢ 0 → v < 2 ^ 24 → gather s (in_progress s v) c ≡ v * 64 + c % 64
unfolding gather
gather_next s v c n hv =
    let test : not (s == 0) ≡ true = ground arith in
    rw (test, gather) (rw (masked s v hv, bit_and_mask 6 c) (bit_or_low 6 v (c % 64) (omega arith)))

gather_first : (cp c : ℕ) → gather 0 cp c ≡ bit_and (0xff / 2 ^ get_or dfa c 0) c
unfolding gather
gather_first cp c = refl

-- What is returned, from the gathered bits and the new state.
abbrev pub returned : ℕ → ℕ → ℕ → ℕ
returned reject s v =
    if s == 12
    then reject
    else if not (s == 0)
    then in_progress s v
    else if valid_cp v
    then v
    else reject

-- A byte inside a sequence.
pub consume_next :
    (reject s v c : ℕ)
    → is_state s ≡ true
    → s ≢ 0
    → v < 2 ^ 15
    → c < 256
    → consume_with reject (in_progress s v) c ≡ returned reject (transition s c) (v * 64 + c % 64)
unfolding consume_with
consume_next reject s v c hs n hv hc =
    rw
      (
        start_state-in_progress s v hs (omega arith),
        next_state-transition s c hs hc,
        gather_next s v c n (omega arith),
      )
      (rw (bit_or_low 24 (transition s c) (v * 64 + c % 64) (omega arith)))

-- The first byte of a sequence, of the classes that start one.
pub consume_first :
    (reject cp c : ℕ)
    → start_state cp ≡ 0
    → c < 256
    → ((ltb 0x7f c && ltb c 0xc2) || ltb 0xf4 c) ≡ false
    → consume_with reject cp c ≡ returned reject (transition 0 c) (lead_bits c)
unfolding consume_with
consume_first reject cp c e hc g =
    rw (e, next_state-transition 0 c refl hc, gather_first cp c, lead-bits c hc g)
      (rw (bit_or_low 24 (transition 0 c) (lead_bits c) (ground arith)))
