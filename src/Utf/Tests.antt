-- ===== src/Utf/Tests.antt =====
-- The coder on the letter A, the euro sign and a face.
use yterm.Prelude.{
  ℕ, ◌+◌, ◌%◌, ◌<◌, ◌≡◌, refl, inl, List, [], ◌∷◌, ◌++◌, map, length, get_or, arith,
}
use yterm.Utf.Koi.{extend, uni2koi, uni2koi-koi2uni}
use yterm.Utf.{dfa, koi2uni, start_state, char, utf8_encode, utf8d_consume_ex, decode_bytes}
use yterm.Utf.RoundTrip.{encode_all, decode-encode}
use yterm.Utf.Reader.{IsReader, consume_ex-IsReader}

abbrev text : List ℕ
text = 0x41 ∷ 0x20ac ∷ 0x1f600 ∷ []

utf8_encode_test : utf8_encode 0x20ac ≡ 0xe2 ∷ 0x82 ∷ 0xac ∷ []
unfolding utf8_encode
utf8_encode_test = refl

-- Witnesses.
decode-encode_example :
    (r : ℕ) × (start_state r ≡ 0)
    × (decode_bytes 0 (encode_all text ++ 0x42 ∷ [])
        ≡ (map char text ++ (decode_bytes r (0x42 ∷ [])).0, (decode_bytes r (0x42 ∷ [])).1))
unfolding start_state
decode-encode_example = decode-encode text (0x42 ∷ []) 0 refl refl

consume_ex-IsReader_example :
    IsReader (utf8d_consume_ex 0 0xe2) × (256 + start_state 0 + get_or dfa 0xe2 0 < length dfa)
consume_ex-IsReader_example = consume_ex-IsReader 0 0xe2 (inl refl) (omega arith)

uni2koi-koi2uni_example :
    (uni2koi (koi2uni 0xc1) % 256 ≡ 0xc1) × (uni2koi (koi2uni 0xc1) ≡ extend 0xc1)
uni2koi-koi2uni_example = uni2koi-koi2uni 0xc1 (omega arith)
