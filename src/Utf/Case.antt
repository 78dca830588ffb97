-- ===== src/Utf/Case.antt =====
-- utf.h: upper and lower case.
use yterm.Prelude.{
  ℕ, ◌+◌, ◌-◌, ◌%◌, ◌≡◌, Bool, true, false, ◌&&◌, ◌||◌, not, leb, ◌==◌, if◌then◌else◌,
}

-- A range of a `case` label.
abbrev pub within : ℕ → ℕ → ℕ → Bool
within lo hi cp = leb lo cp && leb cp hi

-- The letters in pairs, an upper one at an even number and its lower one after it.
abbrev pub in_pairs : ℕ → Bool
in_pairs cp = within 0x1e00 0x1e95 cp

-- `yterm_isupper`.
unfoldable pub is_upper : ℕ → Bool
is_upper cp =
    within 0x41 0x5a cp
    || within 0xc0 0xd6 cp
    || within 0xd8 0xde cp
    || cp == 0x178
    || within 0x400 0x42f cp
    || cp == 0x1e9e
    || (in_pairs cp && cp % 2 == 0)

-- `yterm_islower`; the test of the pairs is that of `yterm_isupper`.
unfoldable pub is_lower : ℕ → Bool
is_lower cp =
    within 0x61 0x7a cp
    || within 0xdf 0xf6 cp
    || within 0xf8 0xff cp
    || within 0x430 0x45f cp
    || (in_pairs cp && cp % 2 == 0)

-- `yterm_toupper`; `cp & ~1u` is the even number of the pair.
unfoldable pub to_upper : ℕ → ℕ
to_upper cp =
    if within 0x61 0x7a cp || within 0xe0 0xf6 cp || within 0xf8 0xfe cp || within 0x430 0x44f cp
    then cp - 0x20
    else if cp == 0xdf
    then 0x1e9e
    else if cp == 0xff
    then 0x178
    else if within 0x450 0x45f cp
    then cp - 0x50
    else if in_pairs cp || within 0x1ea0 0x1eff cp
    then cp - cp % 2
    else cp

-- `yterm_tolower`; `cp | 1` is the odd number of the pair.
unfoldable pub to_lower : ℕ → ℕ
to_lower cp =
    if within 0x41 0x5a cp || within 0xc0 0xd6 cp || within 0xd8 0xde cp || within 0x410 0x42f cp
    then cp + 0x20
    else if cp == 0x178
    then 0xff
    else if within 0x400 0x40f cp
    then cp + 0x50
    else if in_pairs cp || within 0x1ea0 0x1eff cp
    then cp - cp % 2 + 1
    else if cp == 0x1e9e
    then 0xdf
    else cp

-- What is claimed of one code below 0x1f00, as a test.
abbrev fits_case : ℕ → Bool
fits_case cp =
    (not (is_upper cp) || to_upper (to_lower cp) == cp)
    && (not (is_lower cp) || in_pairs cp || to_lower (to_upper cp) == cp)
    && to_upper (to_upper cp) == to_upper cp
    && to_lower (to_lower cp) == to_lower cp

-- The conclusions for one code.
pub record IsCase (cp : ℕ) : Type 0 where
  pub upper : is_upper cp ≡ true → to_upper (to_lower cp) ≡ cp
  pub lower : is_lower cp ≡ true → in_pairs cp ≡ false → to_lower (to_upper cp) ≡ cp
  pub upper_twice : to_upper (to_upper cp) ≡ to_upper cp
  pub lower_twice : to_lower (to_lower cp) ≡ to_lower cp
  pub pairs : in_pairs cp ≡ true → is_lower cp ≡ is_upper cp

-- `yterm_isalnum`.
unfoldable pub is_alnum : ℕ → Bool
is_alnum cp =
    within 0x30 0x39 cp
    || within 0x41 0x5a cp
    || within 0x61 0x7a cp
    || within 0xc0 0xd6 cp
    || within 0xd8 0xf6 cp
    || within 0xf8 0xff cp
    || within 0x400 0x45f cp
    || within 0x1e00 0x1e95 cp
    || cp == 0x1e9e
    || within 0x1ea0 0x1eff cp

-- `yterm_utf8_printable_cp`.
unfoldable pub printable_cp : ℕ → Bool
printable_cp cp =
    within 1 0x24f cp
    || within 0x390 0x482 cp
    || within 0x48a 0x52f cp
    || within 0x1e00 0x1eff cp
    || within 0x2000 0x2c7f cp
    || within 0x2e00 0x2e42 cp
    || within 0xab30 0xab65 cp
