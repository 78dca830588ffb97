-- ===== src/Pipe/Write.antt =====
-- term_lib.inc.c: text for the child, `term_write` and `term_write_sanitize`.
pub mod Sent
pub mod Clean
use yterm.Prelude.{
  ℕ, ◌+◌, ◌*◌, ◌%◌, Bool, true, false, ◌&&◌, ◌||◌, not, List, [], ◌∷◌, ◌++◌, ltb, leb, ◌==◌,
  if◌then◌else◌, length,
}
use yterm.Utf.{valid_cp, utf8d_consume, utf8_encode, replacement_cp}
use yterm.Utf.Case.{printable_cp}
use yterm.Utf.Koi.{uni2koi}
use yterm.Pipe.{Pipe, is_empty, write_raw, WriteResult, one_term_write}

-- `while (*end > 0 && *end < 127) end += 1;`: the bytes before `end` and those from it on.
unfoldable pub ascii_prefix : List ℕ → List ℕ
ascii_prefix [] = []
ascii_prefix (c ∷ s) = let rest = ascii_prefix s in if ltb 0 c && ltb c 127 then c ∷ rest else []

unfoldable pub after_ascii : List ℕ → List ℕ
after_ascii [] = []
after_ascii (c ∷ s) = let rest = after_ascii s in if ltb 0 c && ltb c 127 then rest else c ∷ s

-- `char koi = yterm_uni2koi(cp)`, as a byte; 0 where `cp` is no character to be written.
abbrev pub koi_of : ℕ → ℕ
koi_of cp = if valid_cp cp then uni2koi cp % 256 else 0

-- The size of `dcbuf`.
abbrev pub dcbuf_size : ℕ
dcbuf_size = 64

-- The loop of `term_write` that decodes: what it gives to `term_write_raw`, with `acc` in `dcbuf`.
unfoldable pub koi_loop : ℕ → List ℕ → List ℕ → List (List ℕ)
koi_loop cp acc [] = if is_empty acc then [] else acc ∷ []
koi_loop cp acc (c ∷ s) =
    let cp' = utf8d_consume cp c in
    let koi = koi_of cp' in
    let full = not (koi == 0) && length acc == dcbuf_size in
    let acc' = if koi == 0 then acc else if full then koi ∷ [] else acc ++ (koi ∷ []) in
    let rest = koi_loop cp' acc' s in if full then acc ∷ rest else rest

unfoldable pub koi_chunks : List ℕ → List (List ℕ)
koi_chunks str =
    let chunks = koi_loop 0 [] (after_ascii str) in
    if is_empty (ascii_prefix str) then chunks else ascii_prefix str ∷ chunks

-- The calls of `term_write_raw`; `oks` are the results of `realloc`.
unfoldable pub write_chunks : (ℕ → Bool) → ℕ → List (List ℕ) → Pipe → Pipe
write_chunks oks n [] p = p
write_chunks oks n (c ∷ cs) p = write_chunks oks (n + 1) cs (write_raw (oks n) c p)

-- `term_write` of the bytes of a string; `koi` is `koiLocale`.
unfoldable pub term_write : Bool → (ℕ → Bool) → List ℕ → Pipe → Pipe
term_write koi oks str p =
    if is_empty str || not p.alive || not p.is_open
    then p
    else if koi
    then write_chunks oks 0 (koi_chunks str) p
    else write_raw (oks 0) str p

-- The controls that text may have: tab, line feed and carriage return.
abbrev pub is_layout : ℕ → Bool
is_layout c = c == 9 || c == 13 || c == 10

-- `cp` after the tests of `term_write_sanitize`.
unfoldable pub sanitized : ℕ → ℕ
sanitized cp =
    if not (printable_cp cp)
    then replacement_cp
    else if ltb cp 32 && not (is_layout cp)
    then replacement_cp
    else cp

-- What is written for it.
unfoldable pub sanitized_bytes : Bool → ℕ → List ℕ
sanitized_bytes koi cp =
    let k = uni2koi cp % 256 in
    let k' = if ltb 0 k && ltb k 32 && not (is_layout k) then 0 else k in
    if koi then if not (k' == 0) && not (k' == 127) then k' ∷ [] else [] else utf8_encode cp

abbrev pub is_text : ℕ → Bool
is_text cp = valid_cp cp && not (cp == 0) && not (cp == 127)

-- The results of the system in one round: of `select`, `write` and `realloc` in `one_term_write`, and
-- of `realloc` in `term_write_raw`.
pub record Round : Type 0 where
  pub ready : Bool
  pub result : WriteResult
  pub shrinks : Bool
  pub grows : Bool

abbrev pub used_limit : ℕ
used_limit = 1024 * 1024 * 32

-- The queue is flushed where it is long.
unfoldable pub flush_long : Round → Pipe → Pipe
flush_long r p =
    if ltb 65535 (length p.used) then one_term_write r.ready r.result r.shrinks p else p

-- The loop of `term_write_sanitize`, with the results of its rounds.
unfoldable pub sanitize_loop : List Round → Bool → ℕ → List ℕ → Pipe → Pipe
sanitize_loop rs koi cp [] p = p
sanitize_loop [] koi cp (c ∷ s) p = p
sanitize_loop (r ∷ rs) koi cp (c ∷ s) p =
    let cp' = utf8d_consume cp c in
    let flushed = flush_long r p in
    let kept = if is_text cp' then sanitized cp' else cp' in
    let p' =
      if is_text cp' then write_raw r.grows (sanitized_bytes koi kept) flushed else flushed in
    let rest = sanitize_loop rs koi kept s p' in if ltb (length p.used) used_limit then rest else p

abbrev pub starts_with_zero : List ℕ → Bool
starts_with_zero [] = true
starts_with_zero (c ∷ _) = c == 0

-- `term_write_sanitize`.
unfoldable pub term_write_sanitize : List Round → Bool → List ℕ → Pipe → Pipe
term_write_sanitize rs koi str p =
    if starts_with_zero str || not p.alive || not p.is_open then p else sanitize_loop rs koi 0 str p
