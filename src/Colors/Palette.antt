-- ===== src/Colors/Palette.antt =====
-- The palette that `cbuf_init_palette` makes.
use yterm.Prelude.{
  ℕ, ◌+◌, ◌*◌, ◌/◌, ◌%◌, ◌^◌, ◌<◌, ◌≡◌, refl, true, ltb, ◌==◌, get_or, length, arith, ==_iff,
}
use yterm.Prelude.Bits.{all_below, holds_below}
use yterm.Colors.{init_palette, cube_part}

-- The color of the cube at the index `i`.
abbrev pub cube_color : ℕ → ℕ
cube_color i = cube_part (i / 36) * 2 ^ 16 + cube_part (i / 6 % 6) * 2 ^ 8 + cube_part (i % 6)

cube_at : (i : ℕ) → i < 216 → (get_or init_palette (16 + i) 0 == cube_color i) ≡ true
unfolding all_below init_palette
cube_at i l = holds_below 216 (λ i. get_or init_palette (16 + i) 0 == cube_color i) i refl l

gray_at : (i : ℕ) → i < 24 → (get_or init_palette (232 + i) 0 == (8 + 10 * i) * 0x010101) ≡ true
unfolding all_below init_palette
gray_at i l =
    holds_below 24 (λ i. get_or init_palette (232 + i) 0 == (8 + 10 * i) * 0x010101) i refl l

small_at : (i : ℕ) → i < 266 → ltb (get_or init_palette i 0) (2 ^ 24) ≡ true
unfolding all_below init_palette
small_at i l = holds_below 266 (λ i. ltb (get_or init_palette i 0) (2 ^ 24)) i refl l

palette_length : length init_palette ≡ 266
unfolding init_palette
palette_length = refl

-- The palette of `cbuf_init_palette` fills its array of 266 entries; the entries 16 to 231 are the
-- colors of the cube of 6 by 6 by 6, red first, the entries 232 to 255 are grays in steps of 10 from
-- 8 on, and every entry has 24 bits.
pub init_palette_lem :
    (length init_palette ≡ 266)
    × ((i : ℕ) → i < 216 → get_or init_palette (16 + i) 0 ≡ cube_color i)
    × ((i : ℕ) → i < 24 → get_or init_palette (232 + i) 0 ≡ (8 + 10 * i) * 0x010101)
    × ((i : ℕ) → i < 266 → get_or init_palette i 0 < 2 ^ 24)
init_palette_lem = (
  palette_length,
  λ i l. (==_iff _ _).0 (cube_at i l),
  λ i l. (==_iff _ _).0 (gray_at i l),
  λ i l. small i (small_at i l),
)
  where
    small :
        (i : ℕ) → ltb (get_or init_palette i 0) (2 ^ 24) ≡ true → get_or init_palette i 0 < 2 ^ 24
    small i e = ground (arith, e)
