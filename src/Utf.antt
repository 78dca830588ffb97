-- ===== src/Utf.antt =====
-- utf.c and utf.h: the UTF-8 decoder, a DFA with its state in the high byte of the code point, the
-- encoder, and the tables of KOI8. A byte is a number below 256, a `uint32_t` one below 2 ^ 32.
pub mod Dfa
pub mod RoundTrip
pub mod Reader
pub mod Case
pub mod Koi
mod Tests
use yterm.Prelude.{
  ℕ, zero, suc, ◌+◌, ◌-◌, ◌*◌, ◌/◌, ◌%◌, ◌^◌, ◌≡◌, bit_and, bit_or, Bool, true, false, ◌&&◌, ◌||◌,
  not, List, [], ◌∷◌, ltb, leb, ◌==◌, if◌then◌else◌, get_or, set, replicate,
}

-- `yterm_utf8dfa`: the class of each byte, and then the transitions.
unfoldable pub dfa : List ℕ
dfa =
    0x00 ∷ 0x00 ∷ 0x00 ∷ 0x00 ∷ 0x00 ∷ 0x00 ∷ 0x00 ∷ 0x00 ∷ 0x00 ∷ 0x00 ∷ 0x00 ∷ 0x00 ∷ 0x00 ∷ 0x00
    ∷ 0x00 ∷ 0x00 ∷ 0x00 ∷ 0x00 ∷ 0x00 ∷ 0x00 ∷ 0x00 ∷ 0x00 ∷ 0x00 ∷ 0x00 ∷ 0x00 ∷ 0x00 ∷ 0x00
    ∷ 0x00 ∷ 0x00 ∷ 0x00 ∷ 0x00 ∷ 0x00 ∷ 0x00 ∷ 0x00 ∷ 0x00 ∷ 0x00 ∷ 0x00 ∷ 0x00 ∷ 0x00 ∷ 0x00
    ∷ 0x00 ∷ 0x00 ∷ 0x00 ∷ 0x00 ∷ 0x00 ∷ 0x00 ∷ 0x00 ∷ 0x00 ∷ 0x00 ∷ 0x00 ∷ 0x00 ∷ 0x00 ∷ 0x00
    ∷ 0x00 ∷ 0x00 ∷ 0x00 ∷ 0x00 ∷ 0x00 ∷ 0x00 ∷ 0x00 ∷ 0x00 ∷ 0x00 ∷ 0x00 ∷ 0x00 ∷ 0x00 ∷ 0x00
    ∷ 0x00 ∷ 0x00 ∷ 0x00 ∷ 0x00 ∷ 0x00 ∷ 0x00 ∷ 0x00 ∷ 0x00 ∷ 0x00 ∷ 0x00 ∷ 0x00 ∷ 0x00 ∷ 0x00
    ∷ 0x00 ∷ 0x00 ∷ 0x00 ∷ 0x00 ∷ 0x00 ∷ 0x00 ∷ 0x00 ∷ 0x00 ∷ 0x00 ∷ 0x00 ∷ 0x00 ∷ 0x00 ∷ 0x00
    ∷ 0x00 ∷ 0x00 ∷ 0x00 ∷ 0x00 ∷ 0x00 ∷ 0x00 ∷ 0x00 ∷ 0x00 ∷ 0x00 ∷ 0x00 ∷ 0x00 ∷ 0x00 ∷ 0x00
    ∷ 0x00 ∷ 0x00 ∷ 0x00 ∷ 0x00 ∷ 0x00 ∷ 0x00 ∷ 0x00 ∷ 0x00 ∷ 0x00 ∷ 0x00 ∷ 0x00 ∷ 0x00 ∷ 0x00
    ∷ 0x00 ∷ 0x00 ∷ 0x00 ∷ 0x00 ∷ 0x00 ∷ 0x00 ∷ 0x00 ∷ 0x00 ∷ 0x00 ∷ 0x00 ∷ 0x01 ∷ 0x01 ∷ 0x01
    ∷ 0x01 ∷ 0x01 ∷ 0x01 ∷ 0x01 ∷ 0x01 ∷ 0x01 ∷ 0x01 ∷ 0x01 ∷ 0x01 ∷ 0x01 ∷ 0x01 ∷ 0x01 ∷ 0x01
    ∷ 0x09 ∷ 0x09 ∷ 0x09 ∷ 0x09 ∷ 0x09 ∷ 0x09 ∷ 0x09 ∷ 0x09 ∷ 0x09 ∷ 0x09 ∷ 0x09 ∷ 0x09 ∷ 0x09
    ∷ 0x09 ∷ 0x09 ∷ 0x09 ∷ 0x07 ∷ 0x07 ∷ 0x07 ∷ 0x07 ∷ 0x07 ∷ 0x07 ∷ 0x07 ∷ 0x07 ∷ 0x07 ∷ 0x07
    ∷ 0x07 ∷ 0x07 ∷ 0x07 ∷ 0x07 ∷ 0x07 ∷ 0x07 ∷ 0x07 ∷ 0x07 ∷ 0x07 ∷ 0x07 ∷ 0x07 ∷ 0x07 ∷ 0x07
    ∷ 0x07 ∷ 0x07 ∷ 0x07 ∷ 0x07 ∷ 0x07 ∷ 0x07 ∷ 0x07 ∷ 0x07 ∷ 0x07 ∷ 0x08 ∷ 0x08 ∷ 0x02 ∷ 0x02
    ∷ 0x02 ∷ 0x02 ∷ 0x02 ∷ 0x02 ∷ 0x02 ∷ 0x02 ∷ 0x02 ∷ 0x02 ∷ 0x02 ∷ 0x02 ∷ 0x02 ∷ 0x02 ∷ 0x02
    ∷ 0x02 ∷ 0x02 ∷ 0x02 ∷ 0x02 ∷ 0x02 ∷ 0x02 ∷ 0x02 ∷ 0x02 ∷ 0x02 ∷ 0x02 ∷ 0x02 ∷ 0x02 ∷ 0x02
    ∷ 0x02 ∷ 0x02 ∷ 0x0a ∷ 0x03 ∷ 0x03 ∷ 0x03 ∷ 0x03 ∷ 0x03 ∷ 0x03 ∷ 0x03 ∷ 0x03 ∷ 0x03 ∷ 0x03
    ∷ 0x03 ∷ 0x03 ∷ 0x04 ∷ 0x03 ∷ 0x03 ∷ 0x0b ∷ 0x06 ∷ 0x06 ∷ 0x06 ∷ 0x05 ∷ 0x08 ∷ 0x08 ∷ 0x08
    ∷ 0x08 ∷ 0x08 ∷ 0x08 ∷ 0x08 ∷ 0x08 ∷ 0x08 ∷ 0x08 ∷ 0x08 ∷ 0x00 ∷ 0x0c ∷ 0x18 ∷ 0x24 ∷ 0x3c
    ∷ 0x60 ∷ 0x54 ∷ 0x0c ∷ 0x0c ∷ 0x0c ∷ 0x30 ∷ 0x48 ∷ 0x0c ∷ 0x0c ∷ 0x0c ∷ 0x0c ∷ 0x0c ∷ 0x0c
    ∷ 0x0c ∷ 0x0c ∷ 0x0c ∷ 0x0c ∷ 0x0c ∷ 0x0c ∷ 0x0c ∷ 0x00 ∷ 0x0c ∷ 0x0c ∷ 0x0c ∷ 0x0c ∷ 0x0c
    ∷ 0x00 ∷ 0x0c ∷ 0x00 ∷ 0x0c ∷ 0x0c ∷ 0x0c ∷ 0x18 ∷ 0x0c ∷ 0x0c ∷ 0x0c ∷ 0x0c ∷ 0x0c ∷ 0x18
    ∷ 0x0c ∷ 0x18 ∷ 0x0c ∷ 0x0c ∷ 0x0c ∷ 0x0c ∷ 0x0c ∷ 0x0c ∷ 0x0c ∷ 0x0c ∷ 0x0c ∷ 0x18 ∷ 0x0c
    ∷ 0x0c ∷ 0x0c ∷ 0x0c ∷ 0x0c ∷ 0x18 ∷ 0x0c ∷ 0x0c ∷ 0x0c ∷ 0x0c ∷ 0x0c ∷ 0x0c ∷ 0x0c ∷ 0x18
    ∷ 0x0c ∷ 0x0c ∷ 0x0c ∷ 0x0c ∷ 0x0c ∷ 0x0c ∷ 0x0c ∷ 0x0c ∷ 0x0c ∷ 0x24 ∷ 0x0c ∷ 0x24 ∷ 0x0c
    ∷ 0x0c ∷ 0x0c ∷ 0x24 ∷ 0x0c ∷ 0x0c ∷ 0x0c ∷ 0x0c ∷ 0x0c ∷ 0x24 ∷ 0x0c ∷ 0x24 ∷ 0x0c ∷ 0x0c
    ∷ 0x0c ∷ 0x24 ∷ 0x0c ∷ 0x0c ∷ 0x0c ∷ 0x0c ∷ 0x0c ∷ 0x0c ∷ 0x0c ∷ 0x0c ∷ 0x0c ∷ 0x0c ∷ []

-- YTERM_UTF8_REPLACEMENT_CP
abbrev pub replacement_cp : ℕ
replacement_cp = 0xfffd

-- `yterm_utf8_valid_cp`.
abbrev pub valid_cp : ℕ → Bool
valid_cp cp = ltb cp 0xd800 || (ltb 0xdfff cp && leb cp 0x10ffff)

-- `yterm_utf8d_fuckedup`.
abbrev pub decode_failed : ℕ → Bool
decode_failed cp = cp / 2 ^ 24 == 12

-- The state that a call starts in: a rejection starts anew.
unfoldable pub start_state : ℕ → ℕ
start_state cp = let state = cp / 2 ^ 24 % 256 in if state == 12 then 0 else state

-- The code point of the byte `ch` read in a state.
unfoldable pub gather : ℕ → ℕ → ℕ → ℕ
gather state cp ch =
    if not (state == 0)
    then bit_or (bit_and ch 0x3f) (bit_and cp 0x00ffffff * 2 ^ 6 % 2 ^ 32)
    else bit_and (0xff / 2 ^ get_or dfa ch 0) ch

-- The state after the byte.
unfoldable pub next_state : ℕ → ℕ → ℕ
next_state state ch = get_or dfa (256 + state + get_or dfa ch 0) 0

-- The two consumers differ in what they return for an invalid sequence.
unfoldable pub consume_with : ℕ → ℕ → ℕ → ℕ
consume_with reject cp ch =
    let state = start_state cp in
    let cp' = gather state cp ch in
    let state' = next_state state ch in
    if state' == 12
    then reject
    else if not (state' == 0)
    then bit_or cp' (state' * 2 ^ 24)
    else if valid_cp cp'
    then cp'
    else reject

-- `yterm_utf8d_consume` and `yterm_utf8d_consume_ex`.
abbrev pub utf8d_consume : ℕ → ℕ → ℕ
utf8d_consume = consume_with replacement_cp

abbrev pub utf8d_consume_ex : ℕ → ℕ → ℕ
utf8d_consume_ex = consume_with (12 * 2 ^ 24)

-- `yterm_utf8_encode`: the bytes that it puts to `dest`; their number is its result. Each fits eight
-- bits, so that the casts to `uint8_t` cut nothing off.
unfoldable pub utf8_encode : ℕ → List ℕ
utf8_encode cp0 =
    let cp = if not (valid_cp cp0) then replacement_cp else cp0 in
    if leb cp 0x7f
    then cp ∷ []
    else if leb cp 0x7ff
    then bit_or 0xc0 (cp / 2 ^ 6) ∷ bit_or 0x80 (bit_and cp 0x3f) ∷ []
    else if leb cp 0xffff
    then bit_or 0xe0 (cp / 2 ^ 12)
      ∷ bit_or 0x80 (bit_and (cp / 2 ^ 6) 0x3f)
      ∷ bit_or 0x80 (bit_and cp 0x3f)
      ∷ []
    else bit_or 0xf0 (cp / 2 ^ 18)
      ∷ bit_or 0x80 (bit_and (cp / 2 ^ 12) 0x3f)
      ∷ bit_or 0x80 (bit_and (cp / 2 ^ 6) 0x3f)
      ∷ bit_or 0x80 (bit_and cp 0x3f)
      ∷ []

-- `yterm_koi2uni_tbl`.
unfoldable pub koi2uni_tbl : List ℕ
koi2uni_tbl =
    0x0000 ∷ 0x0001 ∷ 0x0002 ∷ 0x0003 ∷ 0x0004 ∷ 0x0005 ∷ 0x0006 ∷ 0x0007 ∷ 0x0008 ∷ 0x0009 ∷ 0x000a
    ∷ 0x000b ∷ 0x000c ∷ 0x000d ∷ 0x000e ∷ 0x000f ∷ 0x0010 ∷ 0x0011 ∷ 0x0012 ∷ 0x0013 ∷ 0x0014
    ∷ 0x0015 ∷ 0x0016 ∷ 0x0017 ∷ 0x0018 ∷ 0x0019 ∷ 0x001a ∷ 0x001b ∷ 0x001c ∷ 0x001d ∷ 0x001e
    ∷ 0x001f ∷ 0x0020 ∷ 0x0021 ∷ 0x0022 ∷ 0x0023 ∷ 0x0024 ∷ 0x0025 ∷ 0x0026 ∷ 0x0027 ∷ 0x0028
    ∷ 0x0029 ∷ 0x002a ∷ 0x002b ∷ 0x002c ∷ 0x002d ∷ 0x002e ∷ 0x002f ∷ 0x0030 ∷ 0x0031 ∷ 0x0032
    ∷ 0x0033 ∷ 0x0034 ∷ 0x0035 ∷ 0x0036 ∷ 0x0037 ∷ 0x0038 ∷ 0x0039 ∷ 0x003a ∷ 0x003b ∷ 0x003c
    ∷ 0x003d ∷ 0x003e ∷ 0x003f ∷ 0x0040 ∷ 0x0041 ∷ 0x0042 ∷ 0x0043 ∷ 0x0044 ∷ 0x0045 ∷ 0x0046
    ∷ 0x0047 ∷ 0x0048 ∷ 0x0049 ∷ 0x004a ∷ 0x004b ∷ 0x004c ∷ 0x004d ∷ 0x004e ∷ 0x004f ∷ 0x0050
    ∷ 0x0051 ∷ 0x0052 ∷ 0x0053 ∷ 0x0054 ∷ 0x0055 ∷ 0x0056 ∷ 0x0057 ∷ 0x0058 ∷ 0x0059 ∷ 0x005a
    ∷ 0x005b ∷ 0x005c ∷ 0x005d ∷ 0x005e ∷ 0x005f ∷ 0x0060 ∷ 0x0061 ∷ 0x0062 ∷ 0x0063 ∷ 0x0064
    ∷ 0x0065 ∷ 0x0066 ∷ 0x0067 ∷ 0x0068 ∷ 0x0069 ∷ 0x006a ∷ 0x006b ∷ 0x006c ∷ 0x006d ∷ 0x006e
    ∷ 0x006f ∷ 0x0070 ∷ 0x0071 ∷ 0x0072 ∷ 0x0073 ∷ 0x0074 ∷ 0x0075 ∷ 0x0076 ∷ 0x0077 ∷ 0x0078
    ∷ 0x0079 ∷ 0x007a ∷ 0x007b ∷ 0x007c ∷ 0x007d ∷ 0x007e ∷ 0x007f ∷ 0x2500 ∷ 0x2502 ∷ 0x250c
    ∷ 0x2510 ∷ 0x2514 ∷ 0x2518 ∷ 0x251c ∷ 0x2524 ∷ 0x252c ∷ 0x2534 ∷ 0x253c ∷ 0x2580 ∷ 0x2584
    ∷ 0x2588 ∷ 0x258c ∷ 0x2590 ∷ 0x2591 ∷ 0x2592 ∷ 0x2593 ∷ 0x2320 ∷ 0x25a0 ∷ 0x2219 ∷ 0x221a
    ∷ 0x2248 ∷ 0x2264 ∷ 0x2265 ∷ 0x00a0 ∷ 0x2321 ∷ 0x00b0 ∷ 0x00b2 ∷ 0x00b7 ∷ 0x00f7 ∷ 0x2550
    ∷ 0x2551 ∷ 0x2552 ∷ 0x0451 ∷ 0x0454 ∷ 0x2554 ∷ 0x0456 ∷ 0x0457 ∷ 0x2557 ∷ 0x2558 ∷ 0x2559
    ∷ 0x255a ∷ 0x255b ∷ 0x0491 ∷ 0x255d ∷ 0x255e ∷ 0x255f ∷ 0x2560 ∷ 0x2561 ∷ 0x0401 ∷ 0x0404
    ∷ 0x2563 ∷ 0x0406 ∷ 0x0407 ∷ 0x2566 ∷ 0x2567 ∷ 0x2568 ∷ 0x2569 ∷ 0x256a ∷ 0x0490 ∷ 0x256c
    ∷ 0x00a9 ∷ 0x044e ∷ 0x0430 ∷ 0x0431 ∷ 0x0446 ∷ 0x0434 ∷ 0x0435 ∷ 0x0444 ∷ 0x0433 ∷ 0x0445
    ∷ 0x0438 ∷ 0x0439 ∷ 0x043a ∷ 0x043b ∷ 0x043c ∷ 0x043d ∷ 0x043e ∷ 0x043f ∷ 0x044f ∷ 0x0440
    ∷ 0x0441 ∷ 0x0442 ∷ 0x0443 ∷ 0x0436 ∷ 0x0432 ∷ 0x044c ∷ 0x044b ∷ 0x0437 ∷ 0x0448 ∷ 0x044d
    ∷ 0x0449 ∷ 0x0447 ∷ 0x044a ∷ 0x042e ∷ 0x0410 ∷ 0x0411 ∷ 0x0426 ∷ 0x0414 ∷ 0x0415 ∷ 0x0424
    ∷ 0x0413 ∷ 0x0425 ∷ 0x0418 ∷ 0x0419 ∷ 0x041a ∷ 0x041b ∷ 0x041c ∷ 0x041d ∷ 0x041e ∷ 0x041f
    ∷ 0x042f ∷ 0x0420 ∷ 0x0421 ∷ 0x0422 ∷ 0x0423 ∷ 0x0416 ∷ 0x0412 ∷ 0x042c ∷ 0x042b ∷ 0x0417
    ∷ 0x0428 ∷ 0x042d ∷ 0x0429 ∷ 0x0427 ∷ 0x042a ∷ []

-- `yterm_koi2uni`.
unfoldable pub koi2uni : ℕ → ℕ
koi2uni ch = get_or koi2uni_tbl (bit_and ch 0xff) 0

-- A specification of readers: the values that `utf8d_consume_ex` gives for the bytes, code points and
-- marks of invalid sequences, and its last state.
pub data Decoded : Type 0 where
  char : ℕ → Decoded
  invalid : Decoded

unfoldable pub decode_bytes : ℕ → List ℕ → List Decoded × ℕ
decode_bytes rdcp [] = ([], rdcp)
decode_bytes rdcp (byte ∷ bytes) =
    let rdcp' = utf8d_consume_ex rdcp byte in
    let (rest, last) = decode_bytes rdcp' bytes in
    (
      if valid_cp rdcp'
          then char rdcp' ∷ rest
          else if decode_failed rdcp'
          then invalid ∷ rest
          else rest,
      last,
    )
