-- ===== src/Term/Machine/Reading.antt =====
-- The loop over bytes of `one_term_read`, and the decoder.
use yterm.Prelude.{ℕ, ◌≡◌, refl, ap, sym, ◌∙◌, Bool, true, false, if◌then◌else◌, List, [], ◌∷◌, map}
use mathlib.Core.List.{append-nil}
use yterm.Utf.{
  utf8d_consume_ex, valid_cp, decode_failed, replacement_cp, start_state, Decoded, char, invalid,
  decode_bytes,
}
use yterm.Utf.RoundTrip.{encode_all, all_valid, decode-encode}
use yterm.Term.{Term, Env}
use yterm.Term.Putc.{putc}
use yterm.Term.Process.{process_char}
use yterm.Term.Input.{Child, read_byte, read_utf}

-- What the terminal does with the values of the decoder.
abbrev pub deliver : Env → List Decoded → Term → Term
deliver env [] t = t
deliver env (char cp ∷ ds) t = deliver env ds (process_char env cp t)
deliver env (invalid ∷ ds) t = deliver env ds (putc env replacement_cp t)

abbrev pub process_all : Env → List ℕ → Term → Term
process_all env [] t = t
process_all env (cp ∷ cps) t = process_all env cps (process_char env cp t)

deliver-char :
    (env : Env) (cps : List ℕ) (t : Term) → deliver env (map char cps) t ≡ process_all env cps t
deliver-char env [] t = refl
deliver-char env (cp ∷ cps) t = deliver-char env cps (process_char env cp t)

deliver_first :
    (v f : Bool) (env : Env) (cp : ℕ) (ds : List Decoded) (t : Term)
    → deliver env (if v then char cp ∷ ds else if f then invalid ∷ ds else ds) t
      ≡ deliver env ds
          (if v then process_char env cp t else if f then putc env replacement_cp t else t)
deliver_first true f env cp ds t = refl
deliver_first false true env cp ds t = refl
deliver_first false false env cp ds t = refl

-- The loop of `one_term_read` hands to the terminal what `decode_bytes` gives, and leaves the decoder
-- in the state that it leaves.
read_utf-decode :
    (env : Env) (bs : List ℕ) (c : Child)
    → ((read_utf env bs c).term ≡ deliver env (decode_bytes c.rdcp bs).0 c.term)
      × ((read_utf env bs c).rdcp ≡ (decode_bytes c.rdcp bs).1)
unfolding read_utf read_byte decode_bytes
read_utf-decode env [] c = (refl, refl)
read_utf-decode env (b ∷ bs) c =
    let r = utf8d_consume_ex c.rdcp b in
    let (e, q) = read_utf-decode env bs (read_byte env b c) in
    (e ∙ sym (deliver_first (valid_cp r) (decode_failed r) env r (decode_bytes r bs).0 c.term), q)

-- A child that writes valid code points in UTF-8 has each of them processed by the terminal, once
-- and in order, where the decoder is not inside a sequence before.
pub read_utf-encode :
    (env : Env) (cps : List ℕ) (c : Child)
    → start_state c.rdcp ≡ 0
    → all_valid cps ≡ true
    → (read_utf env (encode_all cps) c).term ≡ process_all env cps c.term
unfolding decode_bytes
read_utf-encode env cps c s h =
    let (r', s', e) = decode-encode cps [] c.rdcp s h in
    (read_utf-decode env (encode_all cps) c).0
    ∙ ap (λ (bs : List ℕ). deliver env (decode_bytes c.rdcp bs).0 c.term)
        (sym (append-nil (encode_all cps)))
    ∙ ap (λ (p : List Decoded × ℕ). deliver env p.0 c.term) e
    ∙ ap (λ (ds : List Decoded). deliver env ds c.term) (append-nil (map char cps))
    ∙ deliver-char env cps c.term
