-- ===== src/Pipe/Write/Sent.antt =====
-- What `term_write` writes.
use yterm.Prelude.{
  ℕ, ◌+◌, ◌≤◌, ◌≡◌, refl, ap, sym, ◌∙◌, Bool, true, false, ◌&&◌, ◌||◌, not, List, [], ◌∷◌, ◌++◌,
  ◌==◌, if◌then◌else◌, length, length-append, arith,
}
use mathlib.Core.List.{append-nil, append_assoc}
use yterm.Utf.{utf8d_consume}
use yterm.Pipe.{Pipe, is_empty, write_raw}
use yterm.Pipe.Bounds.{IsPipe}
use yterm.Pipe.Order.{Run, stop, ask, Run-order}
use yterm.Pipe.Write.{
  ascii_prefix, after_ascii, koi_of, dcbuf_size, koi_loop, koi_chunks, write_chunks, term_write,
}

-- The bytes of KOI8 of the characters of a string, from a state of the decoder.
pub koi_bytes : ℕ → List ℕ → List ℕ
koi_bytes cp [] = []
koi_bytes cp (c ∷ s) =
    let cp' = utf8d_consume cp c in
    (if koi_of cp' == 0 then [] else koi_of cp' ∷ []) ++ koi_bytes cp' s

-- The bytes that a string stands for.
abbrev pub text_bytes : Bool → List ℕ → List ℕ
text_bytes true str = ascii_prefix str ++ koi_bytes 0 (after_ascii str)
text_bytes false str = str

pub concat : List (List ℕ) → List ℕ
concat [] = []
concat (c ∷ cs) = c ++ concat cs

-- No chunk is larger than `dcbuf`.
pub Fit : List (List ℕ) → Type 0
Fit [] = Unit
Fit (c ∷ cs) = (length c ≤ dcbuf_size) × Fit cs

-- One round of the loop, by whether there is a byte and whether `dcbuf` is full.
round_bytes :
    (none full : Bool) (koi : ℕ) (acc after : List ℕ) (rest : List (List ℕ))
    → concat rest ≡ (if none then acc else if full then koi ∷ [] else acc ++ (koi ∷ [])) ++ after
    → (none ≡ true → full ≡ false)
    → concat (if full then acc ∷ rest else rest) ≡ acc ++ ((if none then [] else koi ∷ []) ++ after)
unfolding concat
round_bytes true true koi acc after rest e h = cc (h refl)
round_bytes true false koi acc after rest e h = e
round_bytes false true koi acc after rest e h = ap (λ (l : List ℕ). acc ++ l) e
round_bytes false false koi acc after rest e h = e ∙ append_assoc acc (koi ∷ []) after

koi_loop-concat :
    (s : List ℕ) (cp : ℕ) (acc : List ℕ) → concat (koi_loop cp acc s) ≡ acc ++ koi_bytes cp s
unfolding koi_loop koi_bytes concat
koi_loop-concat [] cp [] = refl
koi_loop-concat [] cp (a ∷ acc) = refl
koi_loop-concat (c ∷ s) cp acc =
    let koi = koi_of (utf8d_consume cp c) in
    round_bytes (koi == 0) (not (koi == 0) && length acc == dcbuf_size) koi acc
      (koi_bytes (utf8d_consume cp c) s) _ (koi_loop-concat s (utf8d_consume cp c) _)
      (λ e. rw e refl)

Fit-if :
    (b : Bool) (c : List ℕ) (cs : List (List ℕ))
    → length c ≤ dcbuf_size
    → Fit cs
    → Fit (if b then c ∷ cs else cs)
unfolding Fit
Fit-if true c cs h k = (h, k)
Fit-if false c cs h k = k

grown :
    (none : Bool) (koi : ℕ) (acc : List ℕ)
    → length acc ≤ dcbuf_size
    → length (
        if none
        then acc
        else if not none && length acc == dcbuf_size
        then koi ∷ []
        else acc ++ (koi ∷ []))
      ≤ dcbuf_size
grown true koi acc h = h
grown false koi acc h = ground (arith, length-append {0} acc (koi ∷ []))

koi_loop-Fit :
    (s : List ℕ) (cp : ℕ) (acc : List ℕ) → length acc ≤ dcbuf_size → Fit (koi_loop cp acc s)
unfolding koi_loop Fit
koi_loop-Fit [] cp [] h = tt
koi_loop-Fit [] cp (a ∷ acc) h = (h, tt)
koi_loop-Fit (c ∷ s) cp acc h =
    let koi = koi_of (utf8d_consume cp c) in
    Fit-if (not (koi == 0) && length acc == dcbuf_size) acc _ h
      (koi_loop-Fit s (utf8d_consume cp c) _ (grown (koi == 0) koi acc h))

chunks_if :
    (pre : List ℕ) (cs : List (List ℕ))
    → concat (if is_empty pre then cs else pre ∷ cs) ≡ pre ++ concat cs
unfolding concat
chunks_if [] cs = refl
chunks_if (c ∷ pre) cs = refl

koi_chunks-concat : (str : List ℕ) → concat (koi_chunks str) ≡ text_bytes true str
unfolding koi_chunks
koi_chunks-concat str =
    chunks_if (ascii_prefix str) _
    ∙ ap (λ (l : List ℕ). ascii_prefix str ++ l) (koi_loop-concat (after_ascii str) 0 [])

chunks-Run :
    (oks : ℕ → Bool) (n : ℕ) (cs : List (List ℕ)) (p : Pipe)
    → Run p (concat cs) [] (write_chunks oks n cs p)
unfolding write_chunks concat
chunks-Run oks n [] p = stop p
chunks-Run oks n (c ∷ cs) p =
    ask (oks n) c (concat cs) [] p _ (chunks-Run oks (n + 1) cs (write_raw (oks n) c p))

-- `term_write` of a string that is not empty is a run of `term_write_raw` that asks for its bytes.
write-Run :
    (koi : Bool) (oks : ℕ → Bool) (c : ℕ) (str : List ℕ) (p : Pipe)
    → p.alive ≡ true
    → p.is_open ≡ true
    → (asked : List ℕ) × (asked ≡ text_bytes koi (c ∷ str))
      × Run p asked [] (term_write koi oks (c ∷ str) p)
unfolding term_write
write-Run true oks c str p a o =
    let ready : (not p.alive || not p.is_open) ≡ false = ground arith in
    (
      concat (koi_chunks (c ∷ str)),
      koi_chunks-concat (c ∷ str),
      rw ready (chunks-Run oks 0 (koi_chunks (c ∷ str)) p),
    )
write-Run false oks c str p a o =
    let ready : (not p.alive || not p.is_open) ≡ false = ground arith in
    (
      (c ∷ str) ++ [],
      append-nil (c ∷ str),
      rw ready (ask (oks 0) (c ∷ str) [] [] p _ (stop (write_raw (oks 0) (c ∷ str) p))),
    )

-- `term_write` to an open pipe of a child that is alive, if the pipe is still open after it: the queue
-- has the bytes of the string after those that it had, in the encoding of the locale; and no chunk
-- that the decoder collects is larger than its buffer.
pub term_write_lem :
    (koi : Bool) (oks : ℕ → Bool) (str : List ℕ) (p : Pipe)
    → IsPipe p
    → p.alive ≡ true
    → p.is_open ≡ true
    → (term_write koi oks str p).is_open ≡ true
    → ((term_write koi oks str p).used ≡ p.used ++ text_bytes koi str)
      × Fit (koi_loop 0 [] (after_ascii str))
term_write_lem koi oks [] p i a o e = (
  unfold term_write in rw (nothing koi) (sym (append-nil p.used)),
  koi_loop-Fit _ 0 [] (omega arith),
)
  where
    nothing : (koi : Bool) → text_bytes koi [] ≡ []
    nothing true = unfold ascii_prefix in unfold after_ascii in unfold koi_bytes in refl
    nothing false = refl
term_write_lem koi oks (c ∷ str) p i a o e =
    let (asked, eq, run) = write-Run koi oks c str p a o in
    (
      sym (Run-order run i e).0 ∙ ap (λ (l : List ℕ). p.used ++ l) eq,
      koi_loop-Fit _ 0 [] (omega arith),
    )
