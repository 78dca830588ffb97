-- ===== src/Pipe/Write/Clean.antt =====
-- What `term_write_sanitize` writes has no control characters.
use yterm.Prelude.{
  ℕ, ◌%◌, ◌≡◌, Bool, true, false, ◌&&◌, ◌||◌, not, List, [], ◌∷◌, ◌++◌, inl, inr, ltb, leb, ◌==◌,
  if◌then◌else◌, length, Bool-cases, arith,
}
use yterm.Utf.{valid_cp, utf8d_consume, utf8_encode}
use yterm.Utf.Koi.{uni2koi}
use yterm.Utf.RoundTrip.{encode-bytes}
use yterm.Pipe.{Pipe, write_raw, one_term_write}
use yterm.Pipe.Order.{Run, stop, ask, flush, Reports, sent_by}
use yterm.Pipe.Write.{
  is_layout, sanitized, sanitized_bytes, is_text, Round, used_limit, flush_long, sanitize_loop,
  term_write_sanitize, starts_with_zero,
}

-- A byte that is no control of ASCII but tab, line feed and carriage return.
abbrev pub is_clean : ℕ → Bool
is_clean b = (leb 32 b && not (b == 127)) || is_layout b

abbrev pub AllClean : List ℕ → Type 0
AllClean [] = Unit
AllClean (b ∷ bs) = (is_clean b ≡ true) × AllClean bs

AllClean-append : (a b : List ℕ) → AllClean a → AllClean b → AllClean (a ++ b)
AllClean-append [] b h k = k
AllClean-append (x ∷ a) b h k = (h.0, AllClean-append a b h.1 k)

-- A code point that is clean is written in clean bytes.
encode-AllClean : (cp : ℕ) → valid_cp cp ≡ true → is_clean cp ≡ true → AllClean (utf8_encode cp)
encode-AllClean cp v h = rw (encode-bytes cp v) (elim (Bool-cases (leb cp 0x7f)) [
  | inl a ↦ rw a (h, tt)
  | inr a ↦ rw a (elim (Bool-cases (leb cp 0x7ff)) [
    | inl b ↦ rw b (ground arith, (ground arith, tt))
    | inr b ↦ rw b (elim (Bool-cases (leb cp 0xffff)) [
      | inl c ↦ rw c (ground arith, (ground arith, (ground arith, tt)))
      | inr c ↦ rw c (ground arith, (ground arith, (ground arith, (ground arith, tt))))
    ])
  ])
])

sanitized-clean :
    (cp : ℕ)
    → is_text cp ≡ true
    → (valid_cp (sanitized cp) ≡ true) × (is_clean (sanitized cp) ≡ true)
unfolding sanitized
sanitized-clean cp h = (ground arith, ground arith)

bytes-AllClean :
    (koi : Bool) (cp : ℕ) → is_text cp ≡ true → AllClean (sanitized_bytes koi (sanitized cp))
unfolding sanitized_bytes
bytes-AllClean false cp h = let (v, c) = sanitized-clean cp h in encode-AllClean (sanitized cp) v c
bytes-AllClean true cp h = koi_clean (uni2koi (sanitized cp) % 256)
  where
    koi_clean :
        (k : ℕ)
        → AllClean (
            let k' : ℕ = if ltb 0 k && ltb k 32 && not (is_layout k) then 0 else k in
            if not (k' == 0) && not (k' == 127) then k' ∷ [] else [])
    koi_clean k = elim (Bool-cases (ltb 0 k && ltb k 32 && not (is_layout k))) [
      | inl e ↦ rw e tt
      | inr e ↦ rw e (elim (Bool-cases (not (k == 0) && not (k == 127))) [
        | inl f ↦ rw f (ground arith, tt)
        | inr f ↦ rw f tt
      ])
    ]

-- A run of calls that asks only for clean bytes.
pub record CleanRun (p p' : Pipe) : Type 0 where
  pub asked : List ℕ
  pub sent : List ℕ
  pub run : Run p asked sent p'
  pub clean : AllClean asked

stop-CleanRun : (p : Pipe) → CleanRun p p
stop-CleanRun p = record { asked = []; sent = []; run = stop p; clean = tt }

ask-CleanRun :
    (ok : Bool) (bytes : List ℕ) (p p' : Pipe)
    → AllClean bytes
    → CleanRun (write_raw ok bytes p) p'
    → CleanRun p p'
ask-CleanRun ok bytes p p' h r = record {
  asked = bytes ++ r.asked;
  sent = r.sent;
  run = ask ok bytes r.asked r.sent p p' r.run;
  clean = AllClean-append bytes r.asked h r.clean;
}

flush-CleanRun :
    (r : Round) (p p' : Pipe) → Reports r.result p → CleanRun (flush_long r p) p' → CleanRun p p'
unfolding flush_long
flush-CleanRun r p p' h k = elim (Bool-cases (ltb 65535 (length p.used))) [
  | inl e ↦
      let k' : CleanRun (one_term_write r.ready r.result r.shrinks p) p' = rw e at k in
      record {
        asked = k'.asked;
        sent = sent_by r.ready r.result p ++ k'.sent;
        run = flush r.ready r.result r.shrinks k'.asked k'.sent p p' h k'.run;
        clean = k'.clean;
      }
  | inr e ↦ rw e at k
]

-- What a round leaves in `cp`, and the pipe after it.
abbrev pub round_cp : ℕ → ℕ
round_cp cp = if is_text cp then sanitized cp else cp

abbrev pub round_pipe : Bool → Round → ℕ → Pipe → Pipe
round_pipe koi r cp p =
    if is_text cp
    then write_raw r.grows (sanitized_bytes koi (round_cp cp)) (flush_long r p)
    else flush_long r p

-- In no round `write` reports more bytes than it was given.
abbrev pub Truthful : List Round → Bool → ℕ → List ℕ → Pipe → Type 0
Truthful rs koi cp [] p = Unit
Truthful [] koi cp (c ∷ s) p = Unit
Truthful (r ∷ rs) koi cp (c ∷ s) p =
    Reports r.result p
    × Truthful rs koi (round_cp (utf8d_consume cp c)) s (round_pipe koi r (utf8d_consume cp c) p)

round-CleanRun :
    (koi : Bool) (r : Round) (cp : ℕ) (p p' : Pipe)
    → Reports r.result p
    → CleanRun (round_pipe koi r cp p) p'
    → CleanRun p p'
round-CleanRun koi r cp p p' h k = elim (Bool-cases (is_text cp)) [
  | inl e ↦ flush-CleanRun r p p' h (
      ask-CleanRun r.grows (sanitized_bytes koi (sanitized cp)) (flush_long r p) p'
        (bytes-AllClean koi cp e) (rw e at k))
  | inr e ↦ flush-CleanRun r p p' h (rw e at k)
]

loop-CleanRun :
    (rs : List Round) (koi : Bool) (cp : ℕ) (s : List ℕ) (p : Pipe)
    → Truthful rs koi cp s p
    → CleanRun p (sanitize_loop rs koi cp s p)
unfolding sanitize_loop
loop-CleanRun [] koi cp [] p h = stop-CleanRun p
loop-CleanRun (r ∷ rs) koi cp [] p h = stop-CleanRun p
loop-CleanRun [] koi cp (c ∷ s) p h = stop-CleanRun p
loop-CleanRun (r ∷ rs) koi cp (c ∷ s) p h = elim (Bool-cases (ltb (length p.used) used_limit)) [
  | inl e ↦ rw e (
      round-CleanRun koi r (utf8d_consume cp c) p _ h.0
        (loop-CleanRun rs koi (round_cp (utf8d_consume cp c)) s _ h.1))
  | inr e ↦ rw e (stop-CleanRun p)
]

-- `term_write_sanitize` of any bytes is a run of calls of term_write_raw and one_term_write that asks
-- for no control character of ASCII but tab, line feed and carriage return, in UTF-8 and in KOI8, if
-- `write` reports no more bytes than it was given.
pub term_write_sanitize-CleanRun :
    (rs : List Round) (koi : Bool) (str : List ℕ) (p : Pipe)
    → Truthful rs koi 0 str p
    → CleanRun p (term_write_sanitize rs koi str p)
unfolding term_write_sanitize
term_write_sanitize-CleanRun rs koi str p h =
    elim (Bool-cases (starts_with_zero str || not p.alive || not p.is_open)) [
      | inl e ↦ rw e (stop-CleanRun p)
      | inr e ↦ rw e (loop-CleanRun rs koi 0 str p h)
    ]
