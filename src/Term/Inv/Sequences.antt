-- ===== src/Term/Inv/Sequences.antt =====
-- The functions that write `escseq` keep its invariant.
use yterm.Prelude.{
  ℕ, zero, suc, ◌+◌, ◌-◌, ◌≤◌, ◌<◌, min, ◌≡◌, refl, ◌∙◌, inl, ◌&&◌, if◌then◌else◌, leb, ◌==◌, arith,
  length, length-append, List, some, get_elem?, ℤ, pos, negsuc, leb_ℤ,
}
use yterm.Utf.{utf8_encode}
use yterm.Term.{
  EscSeq, EscState, esc_none, esc_altg0, esc_altg1, esc_hash, esc_percent, esc_osc, esc_dcs,
  esc_s_ign,
}
use yterm.Term.Csi.{omitted, start_csi}
use yterm.Term.Args.{IsArg, none_given, length-put_arg, put_arg-each}
use yterm.Term.Sequence.{IsString, IsEscSeq, IsEscSeq-if, with_state}
use yterm.Term.Strings.{start_string, append_char, osc_char}
use yterm.Term.Handle.{fill_args, fill_escseq}
use yterm.Term.Process.{start_seq}

append_char-IsString : (cp : ℕ) (e : EscSeq) → IsString e → IsString (append_char cp e)
unfolding append_char
append_char-IsString cp e h =
    let n = length-append e.sbuf (utf8_encode cp) in
    record { fits = ground (arith, h.fits, h.place, n); place = ground (arith, h.fits, h.place, n) }

with_string :
    {e e' : EscSeq} → IsEscSeq e → e'.argv ≡ e.argv → e'.argc ≡ e.argc → IsString e' → IsEscSeq e'
with_string h p q s = record {
  args = record { size = rw (p) h.args.size; used = rw (q) h.args.used; each = rw (p) h.args.each };
  string = s;
}

-- A character of a string keeps the invariant of `escseq`: the string stays within `sbuf`.
pub append_char-IsEscSeq : (cp : ℕ) (e : EscSeq) → IsEscSeq e → IsEscSeq (append_char cp e)
unfolding append_char
append_char-IsEscSeq cp e h =
    with_string h (ground arith) (ground arith) (append_char-IsString cp e h.string)

pub start_string-IsEscSeq : (st : EscState) (e : EscSeq) → IsEscSeq e → IsEscSeq (start_string st e)
unfolding start_string
start_string-IsEscSeq st e h =
    with_string h refl refl (record { fits = omega arith; place = inl refl })

-- `priv` and `cmd` are no part of the invariant.
with_command :
    (p : ℤ) (cmd : ℕ) {e : EscSeq} → IsEscSeq e → IsEscSeq (record e { priv = p; cmd = cmd })
with_command p cmd h =
    with_string h refl refl (record { fits = h.string.fits; place = h.string.place })

pub osc_char-IsEscSeq : (cp : ℕ) (e : EscSeq) → IsEscSeq e → IsEscSeq (osc_char cp e)
unfolding osc_char
osc_char-IsEscSeq cp e h =
    let counts = leb_ℤ (pos 0) e.priv in
    let e' = if counts then record e { priv = negsuc 0; cmd = 0 } else e in
    let h' = IsEscSeq-if counts (with_command (negsuc 0) 0 h) h in
    IsEscSeq-if (leb 0x30 cp && leb cp 0x39 && counts) (with_command _ _ h) (
      IsEscSeq-if (cp == 0x3b && counts) (with_command _ _ h)
        (IsEscSeq-if (e'.cmd == 2) (append_char-IsEscSeq cp e' h') h'))

pub start_seq-IsEscSeq : (cp : ℕ) (e : EscSeq) → IsEscSeq e → IsEscSeq (start_seq cp e)
unfolding start_seq start_csi
start_seq-IsEscSeq cp e h =
    let csi : IsEscSeq (start_csi e) = record {
      args = record { size = h.args.size; used = omega arith; each = h.args.each };
      string = record { fits = h.string.fits; place = h.string.place };
    } in
    IsEscSeq-if (cp == 0x5b) csi (
      IsEscSeq-if (cp == 0x5d) (start_string-IsEscSeq esc_osc e h) (
        IsEscSeq-if (cp == 0x28) (with_state esc_altg0 h) (
          IsEscSeq-if (cp == 0x29) (with_state esc_altg1 h) (
            IsEscSeq-if (cp == 0x23) (with_state esc_hash h) (
              IsEscSeq-if (cp == 0x25) (with_state esc_percent h) (
                IsEscSeq-if (cp == 0x50) (start_string-IsEscSeq esc_dcs e h)
                  (IsEscSeq-if (cp == 0x5e) (with_state esc_s_ign h) (with_state esc_none h))))))))

-- The arguments that are not given are marked as omitted, inside the array.
fill_args-size :
    (n i : ℕ) (argv : List ℤ) → i + n ≤ length argv → length (fill_args n i argv) ≡ length argv
unfolding fill_args
fill_args-size zero i argv l = refl
fill_args-size (suc n) i argv l =
    let k = length-put_arg argv i omitted (omega (arith, l)) in
    fill_args-size n (i + 1) _ (omega (arith, l, k)) ∙ k

fill_args-each :
    (n i : ℕ) (argv : List ℤ)
    → i + n ≤ length argv
    → ((j : ℕ) (a : ℤ) → get_elem? argv j ≡ some a → IsArg a)
    → (j : ℕ) (a : ℤ) → get_elem? (fill_args n i argv) j ≡ some a
    → IsArg a
unfolding fill_args
fill_args-each zero i argv l h = h
fill_args-each (suc n) i argv l h =
    let inside : i < length argv = omega (arith, l) in
    let k = length-put_arg argv i omitted inside in
    fill_args-each n (i + 1) _ (omega (arith, l, k))
      (put_arg-each argv i omitted inside none_given h)

pub fill_escseq-IsEscSeq : (e : EscSeq) → IsEscSeq e → IsEscSeq (fill_escseq e)
fill_escseq-IsEscSeq e h =
    let inside : min e.argc 16 + (16 - min e.argc 16) ≤ length e.argv =
      omega (arith, h.args.size) in
    record {
      args = record {
        size = fill_args-size _ _ e.argv inside ∙ h.args.size;
        used = omega arith;
        each = fill_args-each _ _ e.argv inside h.args.each;
      };
      string = record { fits = h.string.fits; place = h.string.place };
    }
