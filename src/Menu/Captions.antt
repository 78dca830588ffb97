-- ===== src/Menu/Captions.antt =====
-- osd_menu.inc.c: the captions of menus, `XChar2Str`.
use yterm.Prelude.{
  ℕ, ◌+◌, ◌-◌, ◌%◌, ◌^◌, Bool, true, false, ◌&&◌, not, Option, none, some, List, [], ◌∷◌, leb, ◌==◌,
  if◌then◌else◌,
}
use yterm.Utf.{valid_cp, utf8d_consume, replacement_cp}
use yterm.Utf.Case.{printable_cp}

-- The two bytes of each character are one number. `hotpos` is -1 and `hotkey` is NoSymbol where these
-- are `none`; the key of a lower-case letter or a digit goes by its character.
pub record Caption : Type 0 where
  pub text : List ℕ
  pub hotpos : Option ℕ
  pub hotkey : Option ℕ

abbrev pub no_caption : Caption
no_caption = record { text = []; hotpos = none; hotkey = none }

-- `xchar2_decode_hot`.
unfoldable pub decode_hot : ℕ → Option ℕ
decode_hot ch =
    if leb b'A' ch && leb ch b'Z'
    then some (b'a' + (ch - b'A'))
    else if leb b'a' ch && leb ch b'z'
    then some ch
    else if leb b'0' ch && leb ch b'9'
    then some ch
    else none

-- The first loop of `xchar2_new`: the number of characters, and what is left in `cp`.
unfoldable pub count_chars : ℕ → List ℕ → ℕ × ℕ
count_chars cp [] = (0, cp)
count_chars cp (c ∷ s) =
    let cp' = utf8d_consume cp c in
    let (n, last) = count_chars cp' s in ((if valid_cp cp' then n + 1 else n), last)

-- The byte at `s`; a string ends in a zero byte.
abbrev pub peek : List ℕ → ℕ
peek [] = 0
peek (c ∷ _) = c

abbrev pub is_some {ℓ} : {A : Type ℓ} → Option A → Bool
is_some none = false
is_some (some _) = true

-- What the body of the second loop does with a decoded character, at position `len` before the
-- bytes `s`: it is a mark of a hot key, or it is added.
abbrev pub is_mark : Bool → ℕ → List ℕ → Bool
is_mark with_hot cp s = with_hot && cp == b'&' && is_some (decode_hot (peek s))

unfoldable pub put_one : Bool → Bool → ℕ → Option ℕ → ℕ → Caption → Caption
put_one mark valid len key cp rest =
    if mark
    then record rest { hotpos = some len; hotkey = key }
    else if valid
    then record rest { text = cp % 2 ^ 16 ∷ rest.text }
    else rest

-- The second loop of `xchar2_new`.
unfoldable pub put_chars : Bool → ℕ → ℕ → List ℕ → Caption
put_chars with_hot len cp [] = no_caption
put_chars with_hot len cp (c ∷ s) =
    let cp' = utf8d_consume cp c in
    let valid = valid_cp cp' in
    let kept = if valid && not (printable_cp cp') then replacement_cp else cp' in
    let mark = valid && is_mark with_hot kept s in
    let len' = if valid && not mark then len + 1 else len in
    let rest = put_chars (with_hot && not mark) len' kept s in
    put_one mark valid len (decode_hot (peek s)) kept rest

-- `xchar2_new` without its allocation, which has room for the characters that the first loop counts.
-- The second loop starts with what the first left in `cp`.
unfoldable pub caption_new : List ℕ → Bool → Caption
caption_new str with_hot = put_chars with_hot 0 (count_chars 0 str).1 str
