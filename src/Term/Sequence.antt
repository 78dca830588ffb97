-- ===== src/Term/Sequence.antt =====
-- The invariant of `escseq`: its arguments and its string lie within their arrays.
use yterm.Prelude.{
  ℕ, ◌<◌, ◌≡◌, refl, ◌⊎◌, inl, Bool, true, false, if◌then◌else◌, arith, length, ℤ, pos, [], some,
  get_elem?, replicate, zero, suc, subst,
}
use yterm.Term.{EscSeq, EscState}
use yterm.Term.Csi.{next_arg, add_digit, csi_next_char}
use mathlib.Core.Option.{some-injective}
use yterm.Term.Args.{IsArg, given, IsArgs, csi_next_char-IsArgs}

-- The string and its final zero fit `sbuf`, and the place of the next byte is at the end of the
-- string, or is the mark of a string that did not fit.
pub record IsString (e : EscSeq) : Type 0 where
  pub fits : length e.sbuf < 255
  pub place : (e.sbufpos ≡ length e.sbuf) ⊎ (e.sbufpos ≡ 256)

pub record IsEscSeq (e : EscSeq) : Type 0 where
  pub args : IsArgs e
  pub string : IsString e

IsString-if : (b : Bool) {p q : EscSeq} → IsString p → IsString q → IsString (if b then p else q)
IsString-if true hp hq = hp
IsString-if false hp hq = hq

pub IsEscSeq-if :
    (b : Bool) {p q : EscSeq} → IsEscSeq p → IsEscSeq q → IsEscSeq (if b then p else q)
IsEscSeq-if true hp hq = hp
IsEscSeq-if false hp hq = hq

-- `state`, `priv` and `cmd` are no part of the invariant.
pub with_state : (st : EscState) {e : EscSeq} → IsEscSeq e → IsEscSeq (record e { state = st })
with_state st h = record {
  args = record { size = h.args.size; used = h.args.used; each = h.args.each };
  string = record { fits = h.string.fits; place = h.string.place };
}

-- The parser of CSI sequences does not touch the string.
csi_next_char-IsString : (cp : ℕ) (e : EscSeq) → IsString e → IsString (csi_next_char cp e).0
unfolding csi_next_char next_arg add_digit
csi_next_char-IsString cp e h = record {
  fits = ground (arith, h.fits);
  place = ground (arith, h.place);
}

-- A character of a CSI sequence keeps the invariant of `escseq`.
pub csi_next_char-IsEscSeq : (cp : ℕ) (e : EscSeq) → IsEscSeq e → IsEscSeq (csi_next_char cp e).0
csi_next_char-IsEscSeq cp e h = record {
  args = csi_next_char-IsArgs cp e h.args;
  string = csi_next_char-IsString cp e h.string;
}

zero_args : (n i : ℕ) (a : ℤ) → get_elem? (replicate n (pos 0)) i ≡ some a → IsArg a
zero_args zero i a e = ground (arith, e)
zero_args (suc n) zero a e = subst IsArg (some-injective (pos 0) a e) (given 0 (omega arith))
zero_args (suc n) (suc i) a e = zero_args n i a e

-- Zeroed memory satisfies the invariant of `escseq`.
pub zero-IsEscSeq :
    (st : EscState) (p : ℤ) (cmd : ℕ)
    → IsEscSeq (record {
      state = st;
      priv = p;
      cmd = cmd;
      argv = replicate 16 (pos 0);
      argc = 0;
      sbuf = [];
      sbufpos = 0;
    })
zero-IsEscSeq st p cmd = record {
  args = record { size = refl; used = omega arith; each = zero_args 16 };
  string = record { fits = omega arith; place = inl refl };
}
