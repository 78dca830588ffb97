-- ===== src/Term/Machine/Recovery.antt =====
-- The escape parser can be left from every state.
use yterm.Prelude.{
  ◌≡◌, refl, ap, ◌∙◌, arith, Bool, true, false, ◌&&◌, ◌||◌, ◌==◌, if◌then◌else◌, List, [], ◌∷◌,
  ◌++◌,
}
use yterm.Term.{
  EscState, esc_none, esc_esc, esc_altg0, esc_altg1, esc_hash, esc_percent, esc_csi, esc_csi_ignore,
  esc_osc, esc_dcs, esc_s_ign, Effect, default_title, set_title, send, EscSeq, Term, Env, emit,
}
use yterm.Term.Escapes.{set_state, reset_esc}
use yterm.Term.Reset.{reset_mode}
use yterm.Term.Strings.{
  in_osc, is_empty, title_of, finish_osc, process_osc, asks_attrs, query_string, process_dcs,
}
use yterm.Term.Process.{
  eats, control_char, process_in, process_char, process_esc, start_seq, esc_command,
}

-- `term_process_char` by the state.
cancel_in :
    (st : EscState) (env : Env) (t : Term)
    → (if eats 0x18 st then control_char env 0x18 t else process_in st env 0x18 t) ≡ reset_esc t
unfolding process_in control_char process_osc process_dcs
cancel_in esc_none env t = refl
cancel_in esc_esc env t = refl
cancel_in esc_altg0 env t = refl
cancel_in esc_altg1 env t = refl
cancel_in esc_hash env t = refl
cancel_in esc_percent env t = refl
cancel_in esc_csi env t = refl
cancel_in esc_csi_ignore env t = refl
cancel_in esc_osc env t = refl
cancel_in esc_dcs env t = refl
cancel_in esc_s_ign env t = refl

-- CAN (0x18) takes every terminal, whatever the state of its escape parser, out of the sequence and
-- changes nothing else: no cell, no mode, no effect.
pub process_char-cancel : (env : Env) (t : Term) → process_char env 0x18 t ≡ reset_esc t
unfolding process_char
process_char-cancel env t = cancel_in t.escseq.state env t

-- A terminal in another state, with other effects.
abbrev pub restart : EscState → List Effect → Term → Term
restart st fx t = record (set_state st t) { effects = fx }

-- The effects of the end of a string: the title of an OSC 2, and the answer to a DCS that is no query
-- for the attributes.
abbrev pub ending : EscState → Env → EscSeq → List Effect
ending esc_osc env e =
    if e.cmd == 2
    then (if is_empty (title_of e.sbuf) then default_title else set_title (title_of e.sbuf)) ∷ []
    else []
ending esc_dcs env e =
    if asks_attrs e || env.vim_workaround
    then []
    else send (0x1b ∷ 0x50 ∷ 0x30 ∷ 0x24 ∷ 0x72 ∷ 0x1b ∷ 0x5c ∷ []) ∷ []
ending _ env e = []

finish_title :
    (i b c : Bool) (x y : Effect) (t : Term)
    → i ≡ true
    → (if i && b then if c then emit x t else emit y t else t)
      ≡ record t { effects = (if b then (if c then x else y) ∷ [] else []) ++ t.effects }
finish_title true true true x y t p = refl
finish_title true true false x y t p = refl
finish_title true false c x y t p = refl
finish_title false b c x y t p = absurd (ground arith)

finish_osc-ending :
    (env : Env) (t : Term)
    → t.escseq.state ≡ esc_osc
    → finish_osc t ≡ record t { effects = ending esc_osc env t.escseq ++ t.effects }
unfolding finish_osc
finish_osc-ending env t p =
    finish_title (in_osc t.escseq.state) (t.escseq.cmd == 2) (is_empty (title_of t.escseq.sbuf))
      default_title (set_title (title_of t.escseq.sbuf)) t (ap in_osc p)

-- Outside an OSC string there is none to finish.
finish_osc-none : (t : Term) → in_osc t.escseq.state ≡ false → finish_osc t ≡ t
unfolding finish_osc
finish_osc-none t p = rw (p) refl

answer_if :
    (b : Bool) (x : Effect) (t : Term)
    → (if b then t else emit x t) ≡ record t { effects = (if b then [] else x ∷ []) ++ t.effects }
answer_if true x t = refl
answer_if false x t = refl

query_string-ending :
    (env : Env) (t : Term)
    → query_string env t ≡ record t { effects = ending esc_dcs env t.escseq ++ t.effects }
unfolding query_string
query_string-ending env t = answer_if (asks_attrs t.escseq || env.vim_workaround) _ t

-- ESC outside a string.
plain_escape :
    (st : EscState) (t : Term)
    → t.escseq.state ≡ st
    → in_osc st ≡ false
    → set_state esc_esc (reset_esc (finish_osc t)) ≡ restart esc_esc t.effects t
plain_escape st t p q =
    ap (λ (x : Term). set_state esc_esc (reset_esc x)) (finish_osc-none t (ap in_osc p ∙ q))

escape_in :
    (st : EscState) (env : Env) (t : Term)
    → t.escseq.state ≡ st
    → (if eats 0x1b st then control_char env 0x1b t else process_in st env 0x1b t)
      ≡ restart esc_esc (ending st env t.escseq ++ t.effects) t
unfolding process_in control_char process_osc process_dcs
escape_in esc_osc env t p =
    ap (λ (x : Term). set_state esc_esc (reset_esc x)) (finish_osc-ending env t p)
escape_in esc_dcs env t p = ap (set_state esc_esc) (query_string-ending env (reset_esc t))
escape_in esc_none env t p = plain_escape esc_none t p refl
escape_in esc_esc env t p = plain_escape esc_esc t p refl
escape_in esc_altg0 env t p = plain_escape esc_altg0 t p refl
escape_in esc_altg1 env t p = plain_escape esc_altg1 t p refl
escape_in esc_hash env t p = plain_escape esc_hash t p refl
escape_in esc_percent env t p = plain_escape esc_percent t p refl
escape_in esc_csi env t p = plain_escape esc_csi t p refl
escape_in esc_csi_ignore env t p = plain_escape esc_csi_ignore t p refl
escape_in esc_s_ign env t p = plain_escape esc_s_ign t p refl

-- ESC takes every terminal, whatever the state of its escape parser, to the begin of a new sequence:
-- besides the state only the effects of the string that it ends are added.
pub process_char-escape :
    (env : Env) (t : Term)
    → process_char env 0x1b t ≡ restart esc_esc (ending t.escseq.state env t.escseq ++ t.effects) t
unfolding process_char
process_char-escape env t = escape_in t.escseq.state env t refl

-- ESC c from every state of the escape parser does `term_reset_mode`. Its only effects are those of
-- the string that it ends: the title of an OSC 2, or the answer to a DCS that is no query for the
-- attributes; outside a string it has none.
pub process_char-reset :
    (env : Env) (t : Term)
    → process_char env 0x63 (process_char env 0x1b t)
      ≡ record (reset_mode t) { effects = ending t.escseq.state env t.escseq ++ t.effects }
unfolding process_char process_in process_esc start_seq esc_command reset_mode
process_char-reset env t = ap (process_char env 0x63) (process_char-escape env t)
