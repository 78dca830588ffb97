-- ===== src/Term/Inv/Handle.antt =====
-- `csi_handle` keeps the invariant of the terminal.
use yterm.Prelude.{
  ℕ, ◌≡◌, Bool, true, false, ◌&&◌, ◌||◌, not, if◌then◌else◌, ◌==◌, pos, ltb_ℤ, leb_ℤ,
}
use yterm.Term.{EscSeq, Term, Env}
use yterm.Term.Csi.{def_arg0, get_arg, csi_next_char}
use yterm.Term.Escapes.{quiet}
use yterm.Term.Handle.{csi_priv, csi_priv_xt, csi_dispatch, ignores, csi_handle, process_csi}
use yterm.Term.Inv.{IsTerm}
use yterm.Term.Inv.Scrolls.{IsTerm-if, emit-IsTerm}
use yterm.Term.Inv.Commands.{csi_normal-IsTerm}
use yterm.Term.Sequence.{IsEscSeq, csi_next_char-IsEscSeq}
use yterm.Term.Inv.Sequences.{fill_escseq-IsEscSeq}
use yterm.Term.Inv.Privates.{csi_priv_hl-IsTerm}

module _ {w h : ℕ} where
  csi_priv-IsTerm :
      (env : Env) (t : Term) → env.vttest ≡ false → IsTerm w h t → IsTerm w h (csi_priv env t)
  unfolding csi_priv
  csi_priv-IsTerm env t e i =
      IsTerm-if (t.escseq.cmd == 0x6c) (csi_priv_hl-IsTerm env false t e i) (
        IsTerm-if (t.escseq.cmd == 0x68) (csi_priv_hl-IsTerm env true t e i) (
          IsTerm-if (t.escseq.cmd == 0x6e)
            (IsTerm-if (def_arg0 t.escseq.argv 0 == 6) (emit-IsTerm _ t i) i) i))

  csi_priv_xt-IsTerm : (t : Term) → IsTerm w h t → IsTerm w h (csi_priv_xt t)
  unfolding csi_priv_xt
  csi_priv_xt-IsTerm t i =
      IsTerm-if
        (t.escseq.cmd == 0x63
          && (t.escseq.argc == 0
              || (t.escseq.argc == 1 && leb_ℤ (get_arg t.escseq.argv 0) (pos 0))))
        (emit-IsTerm _ t i) i

  csi_dispatch-IsTerm :
      (env : Env) (t : Term) → env.vttest ≡ false → IsTerm w h t → IsTerm w h (csi_dispatch env t)
  unfolding csi_dispatch
  csi_dispatch-IsTerm env t e i =
      let n = csi_normal-IsTerm env t i in
      IsTerm-if (ltb_ℤ t.escseq.priv (pos 0)) (csi_priv_xt-IsTerm t i) (
        IsTerm-if (ltb_ℤ (pos 0) t.escseq.priv)
          (IsTerm-if (t.escseq.cmd == 0x4a || t.escseq.cmd == 0x4b) n (csi_priv-IsTerm env t e i))
          n)

  pub parsed :
      {t : Term} {e : EscSeq} → IsEscSeq e → IsTerm w h t → IsTerm w h (record t { escseq = e })
  parsed q i = record { main = i.main; alt = i.alt; sequence = q }

  -- `csi_handle`, whatever the command, its private mark and its arguments are, keeps the invariant
  -- of the terminal, where the mode for vttest is off: the switches between the screens, the modes
  -- that move the cursor and the settings of this emulator included.
  pub csi_handle-IsTerm :
      (env : Env) (t : Term) → env.vttest ≡ false → IsTerm w h t → IsTerm w h (csi_handle env t)
  unfolding csi_handle
  csi_handle-IsTerm env t e i =
      IsTerm-if (not (ignores t.escseq.state) && not (t.escseq.cmd == 0))
        (csi_dispatch-IsTerm env _ e (parsed (fill_escseq-IsEscSeq _ (quiet i).sequence) (quiet i)))
        (quiet i)

  handled-IsTerm :
      (env : Env) (p : EscSeq × Bool) (t : Term)
      → env.vttest ≡ false
      → IsEscSeq p.0
      → IsTerm w h t
      → IsTerm w h
          (if p.1 then csi_handle env (record t { escseq = p.0 }) else record t { escseq = p.0 })
  handled-IsTerm env (s, b) t e q i =
      IsTerm-if b (csi_handle-IsTerm env _ e (parsed q i)) (parsed q i)

  pub process_csi-IsTerm :
      (env : Env) (cp : ℕ) (t : Term)
      → env.vttest ≡ false
      → IsTerm w h t
      → IsTerm w h (process_csi env cp t)
  unfolding process_csi
  process_csi-IsTerm env cp t e i =
      handled-IsTerm env (csi_next_char cp t.escseq) t e
        (csi_next_char-IsEscSeq cp t.escseq i.sequence) i
