-- ===== src/Keypad.antt =====
-- x11_keypress.inc.c: the keys, and translate_keypad.
use yterm.Prelude.{ℕ}

-- The keysyms that the code names; `letter` is that of an ASCII letter or digit, `no_symbol`
-- is NoSymbol.
pub data KeySym : Type 0 where
  no_symbol : KeySym
  letter : ℕ → KeySym
  return_key space escape up down left right home end_key page_up page_down begin insert delete f3 :
      KeySym
  kp_enter kp_up kp_down kp_left kp_right kp_home kp_end kp_page_up kp_page_down : KeySym
  kp_begin kp_insert kp_delete : KeySym
  other : ℕ → KeySym

-- `translate_keypad`.
unfoldable pub translate_keypad : KeySym → KeySym
translate_keypad kp_home = home
translate_keypad kp_left = left
translate_keypad kp_up = up
translate_keypad kp_right = right
translate_keypad kp_down = down
translate_keypad kp_page_up = page_up
translate_keypad kp_page_down = page_down
translate_keypad kp_end = end_key
translate_keypad kp_begin = begin
translate_keypad kp_insert = insert
translate_keypad kp_delete = delete
translate_keypad kp_enter = return_key
translate_keypad k = k
