-- ===== src/Term/Handle.antt =====
-- term_lib_csi.inc.c: the other private sequences, and `csi_handle`.
use yterm.Prelude.{
  ℕ, zero, suc, ◌+◌, ◌-◌, min, Bool, true, false, ◌&&◌, ◌||◌, not, List, [], ◌∷◌, ◌++◌, ◌==◌,
  if◌then◌else◌, ℤ, pos, ltb_ℤ, leb_ℤ,
}
use yterm.Term.{
  Screen, EscState, esc_csi_ignore, esc_arg_size, EscSeq, send, Term, Env, wkscr, emit,
}
use yterm.Term.Csi.{omitted, get_arg, put_arg, def_arg0, csi_next_char}
use yterm.Term.Normal.{print_int, digits, csi_normal}
use yterm.Term.Escapes.{reset_esc}
use yterm.Term.Private.{csi_priv_hl}

-- The answer to DSR ? 6, `"\x1b[?%d;%dR"`.
unfoldable pub private_report : Screen → List ℕ
unfolding digits
private_report s =
    0x1b ∷ 0x5b ∷ 0x3f ∷ print_int (s.curpos.y + 1)
    ++ 0x3b ∷ print_int (s.curpos.x + 1)
    ++ 0x52 ∷ []

-- `csi_priv`.
unfoldable pub csi_priv : Env → Term → Term
unfolding csi_priv_hl private_report
csi_priv env t =
    if t.escseq.cmd == 0x6c
    then csi_priv_hl env false t
    else if t.escseq.cmd == 0x68
    then csi_priv_hl env true t
    else if t.escseq.cmd == 0x6e
    then if def_arg0 t.escseq.argv 0 == 6 then emit (send (private_report (wkscr t))) t else t
    else t

-- `csi_priv_xt`.
unfoldable pub csi_priv_xt : Term → Term
csi_priv_xt t =
    if t.escseq.cmd == 0x63
      && (t.escseq.argc == 0 || (t.escseq.argc == 1 && leb_ℤ (get_arg t.escseq.argv 0) (pos 0)))
    then emit (send (0x1b ∷ 0x5b ∷ 0x3e ∷ 0x30 ∷ 0x3b ∷ 0x36 ∷ 0x39 ∷ 0x3b ∷ 0x30 ∷ 0x63 ∷ [])) t
    else t

-- The loop of `csi_handle` that marks `n` arguments from the index `i` on as omitted.
unfoldable pub fill_args : ℕ → ℕ → List ℤ → List ℤ
fill_args zero i argv = argv
fill_args (suc n) i argv = fill_args n (i + 1) (put_arg argv i omitted)

abbrev pub fill_escseq : EscSeq → EscSeq
fill_escseq e =
    let argc = min e.argc esc_arg_size in
    record e { argc = argc; argv = fill_args (esc_arg_size - argc) argc e.argv }

-- The commands of `csi_handle`, by the private mark.
unfoldable pub csi_dispatch : Env → Term → Term
unfolding csi_normal csi_priv csi_priv_xt
csi_dispatch env t =
    if ltb_ℤ t.escseq.priv (pos 0)
    then csi_priv_xt t
    else if ltb_ℤ (pos 0) t.escseq.priv
    then if t.escseq.cmd == 0x4a || t.escseq.cmd == 0x4b then csi_normal env t else csi_priv env t
    else csi_normal env t

abbrev pub ignores : EscState → Bool
ignores esc_csi_ignore = true
ignores _ = false

-- `csi_handle`.
unfoldable pub csi_handle : Env → Term → Term
unfolding csi_dispatch fill_args
csi_handle env t0 =
    let t = reset_esc t0 in
    if not (ignores t0.escseq.state) && not (t0.escseq.cmd == 0)
    then csi_dispatch env (record t { escseq = fill_escseq t.escseq })
    else t

-- `term_process_csi`.
unfoldable pub process_csi : Env → ℕ → Term → Term
unfolding csi_handle
process_csi env cp t =
    let (e, done) = csi_next_char cp t.escseq in
    if done then csi_handle env (record t { escseq = e }) else record t { escseq = e }
