-- ===== src/Term/Csi.antt =====
-- term_lib_csi.inc.c: the parser of CSI sequences, and the arguments that it leaves.
use yterm.Prelude.{
  ℕ, zero, suc, [], ◌∷◌, ◌+◌, ◌-◌, ◌*◌, ◌%◌, ◌^◌, min, Bool, true, false, ◌&&◌, ◌||◌, List, ltb,
  leb, ◌==◌, if◌then◌else◌, get_or, ℤ, pos, negsuc, pos_part, ltb_ℤ,
}
use yterm.Term.{esc_csi, esc_csi_ignore, EscSeq, esc_arg_size}

-- -1, which stands for an omitted argument.
abbrev pub omitted : ℤ
omitted = negsuc 0

abbrev pub get_arg : List ℤ → ℕ → ℤ
get_arg argv i = get_or argv i omitted

-- `argv[i] = v`. A write behind the array makes it longer, so that its length tells of it.
unfoldable pub put_arg : List ℤ → ℕ → ℤ → List ℤ
put_arg [] zero v = v ∷ []
put_arg [] (suc i) v = omitted ∷ put_arg [] i v
put_arg (x ∷ xs) zero v = v ∷ xs
put_arg (x ∷ xs) (suc i) v = x ∷ put_arg xs i v

-- `start_csi`.
unfoldable pub start_csi : EscSeq → EscSeq
start_csi e = record e { state = esc_csi; argc = 0; priv = pos 0; cmd = 0 }

-- The `;` and `:` of `csi_next_char`.
unfoldable pub next_arg : EscSeq → EscSeq
next_arg e0 =
    let e = if e0.argc == 0 then record e0 { argv = put_arg e0.argv 0 omitted; argc = 1 } else e0 in
    record e {
      argv = if ltb e.argc esc_arg_size then put_arg e.argv e.argc omitted else e.argv;
      argc = min esc_arg_size (e.argc + 1);
    }

-- A digit of `csi_next_char`, by its value. `& 0xffff` is the remainder.
unfoldable pub add_digit : ℕ → EscSeq → EscSeq
add_digit d e0 =
    let e = if e0.argc == 0 then record e0 { argv = put_arg e0.argv 0 (pos 0); argc = 1 } else e0 in
    let i = e.argc - 1 in
    if ltb i esc_arg_size
    then record e {
      argv = put_arg e.argv i (pos ((pos_part (get_arg e.argv i) * 10 + d) % 2 ^ 16));
    }
    else e

-- `csi_next_char`, and whether the sequence is finished.
unfoldable pub csi_next_char : ℕ → EscSeq → EscSeq × Bool
unfolding next_arg add_digit
csi_next_char cp e =
    if cp == 0x3f && e.argc == 0
    then (record e { priv = pos 1 }, false)
    else if cp == 0x3e && e.argc == 0
    then (record e { priv = negsuc 0 }, false)
    else if cp == 0x3b || cp == 0x3a
    then (next_arg e, false)
    else if leb 0x30 cp && leb cp 0x39
    then (add_digit (cp - 0x30) e, false)
    else if leb 0x40 cp && leb cp 0x7e
    then (record e { cmd = cp }, true)
    else (record e { state = esc_csi_ignore }, false)

-- CSI_DEFARG0, CSI_DEFARG1 and CSI_DEFARG1N.
abbrev pub def_arg0 : List ℤ → ℕ → ℕ
def_arg0 argv i = pos_part (get_arg argv i)

abbrev pub def_arg1n : List ℤ → ℕ → ℕ → ℕ
def_arg1n argv i d = if ltb_ℤ (pos 0) (get_arg argv i) then pos_part (get_arg argv i) else d

abbrev pub def_arg1 : List ℤ → ℕ → ℕ
def_arg1 argv i = def_arg1n argv i 1
