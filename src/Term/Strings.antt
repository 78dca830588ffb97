-- ===== src/Term/Strings.antt =====
-- term_lib.inc.c: the strings of OSC and DCS sequences.
use yterm.Prelude.{
  ℕ, ◌+◌, ◌-◌, ◌*◌, min, Bool, true, false, ◌&&◌, ◌||◌, not, List, [], ◌∷◌, ◌++◌, ltb, leb, ◌==◌,
  if◌then◌else◌, get_or, length, pos, negsuc, pos_part, leb_ℤ,
}
use yterm.Utf.{utf8_encode}
use yterm.Term.{EscState, esc_esc, esc_osc, EscSeq, send, set_title, default_title, Term, Env, emit}
use yterm.Term.Putc.{putc}
use yterm.Term.Escapes.{set_state, reset_esc, set_charset}

-- `sizeof(escseq.sbuf)`.
abbrev pub sbuf_size : ℕ
sbuf_size = 256

-- What `start_osc` and `start_dcs` do besides the state.
unfoldable pub start_string : EscState → EscSeq → EscSeq
start_string st e = record e { state = st; sbufpos = 0; cmd = 0; priv = pos 0; sbuf = [] }

-- The end of `term_process_osc` and of `term_process_dcs`: the bytes of a character are kept where
-- they and the final zero fit, and a string that does not fit is marked by its length.
unfoldable pub append_char : ℕ → EscSeq → EscSeq
append_char cp e =
    let bytes = utf8_encode cp in
    if ltb (e.sbufpos + length bytes) (sbuf_size - 1)
    then record e { sbuf = e.sbuf ++ bytes; sbufpos = e.sbufpos + length bytes }
    else record e { sbufpos = sbuf_size }

-- The bytes before the first zero.
unfoldable pub c_string : List ℕ → List ℕ
c_string [] = []
c_string (c ∷ cs) = let rest = c_string cs in if c == 0 then [] else c ∷ rest

-- The loop of `finish_osc` that replaces control bytes by spaces.
unfoldable pub clean_controls : List ℕ → List ℕ
clean_controls [] = []
clean_controls (c ∷ cs) = (if ltb c 32 || c == 127 then 32 else c) ∷ clean_controls cs

abbrev pub is_empty : List ℕ → Bool
is_empty [] = true
is_empty (_ ∷ _) = false

-- The loop that removes trailing spaces.
unfoldable pub trim_end : List ℕ → List ℕ
trim_end [] = []
trim_end (c ∷ cs) = let rest = trim_end cs in if c == 32 && is_empty rest then [] else c ∷ rest

-- The loop that removes leading spaces.
unfoldable pub trim_start : List ℕ → List ℕ
trim_start [] = []
trim_start (c ∷ cs) = let rest = trim_start cs in if c == 32 then rest else c ∷ cs

-- The title of `finish_osc`.
unfoldable pub title_of : List ℕ → List ℕ
unfolding c_string clean_controls trim_end trim_start
title_of sbuf = trim_start (trim_end (clean_controls (c_string sbuf)))

abbrev pub in_osc : EscState → Bool
in_osc esc_osc = true
in_osc _ = false

-- `finish_osc`.
unfoldable pub finish_osc : Term → Term
unfolding title_of
finish_osc t =
    if in_osc t.escseq.state && t.escseq.cmd == 2
    then (let title = title_of t.escseq.sbuf in
        if is_empty title then emit default_title t else emit (set_title title) t)
    else t

-- The characters that are no controls in `term_process_osc`. `priv` counts the digits of the
-- command, and is -1 after it.
unfoldable pub osc_char : ℕ → EscSeq → EscSeq
unfolding append_char
osc_char cp e0 =
    let counts = leb_ℤ (pos 0) e0.priv in
    if leb 0x30 cp && leb cp 0x39 && counts
    then record e0 {
      cmd = min 255 (e0.cmd * 10 + (cp - 0x30));
      priv = pos (min 255 (pos_part e0.priv + 1));
    }
    else if cp == 0x3b && counts
    then record e0 { priv = negsuc 0; cmd = if e0.cmd == 0 || e0.cmd == 2 then 2 else 0 }
    else (let e = if counts then record e0 { priv = negsuc 0; cmd = 0 } else e0 in
        if e.cmd == 2 then append_char cp e else e)

-- `term_process_osc`.
unfoldable pub process_osc : Env → ℕ → Term → Term
unfolding finish_osc osc_char
process_osc env cp t =
    if cp == 0x07
    then reset_esc (finish_osc t)
    else if cp == 0x08 || cp == 0x09 || cp == 0x0a || cp == 0x0b || cp == 0x0c || cp == 0x0d
    then putc env cp (reset_esc t)
    else if cp == 0x0e
    then set_charset true (reset_esc t)
    else if cp == 0x0f
    then set_charset false (reset_esc t)
    else if cp == 0x18
    then reset_esc t
    else if cp == 0x1a
    then putc env 0x3f (reset_esc t)
    else if cp == 0x1b
    then set_state esc_esc (reset_esc (finish_osc t))
    else if cp == 0x7f || ltb cp 0x20
    then t
    else record t { escseq = osc_char cp t.escseq }

-- The tests of `term_process_query_string` for the one query that it knows, `$qm`.
abbrev pub asks_attrs : EscSeq → Bool
asks_attrs e =
    not (e.sbufpos == 0 || leb sbuf_size e.sbufpos)
    && get_or e.sbuf 0 0 == 0x24
    && get_or e.sbuf 1 0 == 0x71
    && get_or e.sbuf 2 0 == 0x6d
    && get_or e.sbuf 3 0 == 0

-- `term_process_query_string`: the answer to the one query that it knows is made and not sent.
unfoldable pub query_string : Env → Term → Term
query_string env t =
    if asks_attrs t.escseq || env.vim_workaround
    then t
    else emit (send (0x1b ∷ 0x50 ∷ 0x30 ∷ 0x24 ∷ 0x72 ∷ 0x1b ∷ 0x5c ∷ [])) t

-- `term_process_dcs`.
unfoldable pub process_dcs : Env → ℕ → Term → Term
unfolding append_char query_string
process_dcs env cp t =
    if cp == 0x1b
    then set_state esc_esc (query_string env (reset_esc t))
    else if cp == 0x18 || cp == 0x1a
    then reset_esc t
    else record t { escseq = append_char cp t.escseq }
