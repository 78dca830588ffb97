-- ===== src/Utf/Koi.antt =====
-- utf.c and utf.h: from Unicode to KOI8-U.
use yterm.Prelude.{
  ℕ, zero, suc, ◌+◌, ◌-◌, ◌%◌, ◌^◌, ◌<◌, ◌≡◌, refl, Bool, true, ◌&&◌, ltb, ◌==◌, if◌then◌else◌,
  arith, get_or, ==_iff,
}
use yterm.Prelude.Bits.{all_below, holds_below}
use yterm.Utf.{koi2uni_tbl, koi2uni}

-- The table that `ctor_init_tables_` leaves, by its loop: `n` codes from the last one down, so the
-- last write to an entry is the one that is found. 0 is an entry that is not written.
unfoldable pub uni2koi_tbl : ℕ → ℕ → ℕ
uni2koi_tbl zero cp = 0
uni2koi_tbl (suc n) cp =
    let rest = uni2koi_tbl n cp in if get_or koi2uni_tbl (suc n) 0 == cp then suc n else rest

-- A `char` of the table as the `uint32_t` that is returned: `char` has a sign.
abbrev pub extend : ℕ → ℕ
extend c = if ltb c 128 then c else 2 ^ 32 - 256 + c

-- `yterm_uni2koi`.
unfoldable pub uni2koi : ℕ → ℕ
unfolding uni2koi_tbl koi2uni_tbl
uni2koi cp = if ltb cp 65536 then extend (uni2koi_tbl 255 cp) else 0

abbrev comes_back : ℕ → Bool
comes_back ch = uni2koi (koi2uni ch) == extend ch && ltb (koi2uni ch) 65536

all_come_back : (ch : ℕ) → ch < 256 → comes_back ch ≡ true
unfolding all_below uni2koi koi2uni koi2uni_tbl
all_come_back ch l = holds_below 256 comes_back ch refl l

-- Every byte of KOI8-U comes back from its code point, as the low eight bits of what
-- `yterm_uni2koi` returns; the other bits are ones for a byte above 127, where `char` has a sign.
pub uni2koi-koi2uni :
    (ch : ℕ) → ch < 256 → (uni2koi (koi2uni ch) % 256 ≡ ch) × (uni2koi (koi2uni ch) ≡ extend ch)
uni2koi-koi2uni ch l = returned (uni2koi (koi2uni ch)) (back (all_come_back ch l))
  where
    back : comes_back ch ≡ true → uni2koi (koi2uni ch) ≡ extend ch
    back e = (==_iff _ _).0 (ground (arith, e))

    returned : (r : ℕ) → r ≡ extend ch → (r % 256 ≡ ch) × (r ≡ extend ch)
    returned r e = (ground (arith, e, l), e)
