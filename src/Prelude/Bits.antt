-- ===== src/Prelude/Bits.antt =====
-- `|` and `&` of C on fields and low masks, at every width: each is a sum or a remainder. The
-- inductions follow the binary digits of the first number.
use Prim.Native.Nat.{
  ℕ, zero, suc, ◌+◌, ◌-◌, ◌*◌, ◌/◌, ◌%◌, ◌^◌, ◌≤◌, ◌<◌, min, max, bit_and, bit_or, digits,
  bit_and-bitwise, bit_or-bitwise,
}
use mathlib.Core.Path.{◌≡◌, refl, ap, ◌∙◌}
use mathlib.Core.Bool.{Bool, true, ◌&&◌}
use native.Mathlib.Nat.{pow-suc, one-le-pow, le_refl}
use native.Mathlib.Omega.{arith}

abbrev and_upto : ℕ → ℕ → ℕ → ℕ
and_upto = digits (λ b. zero) min

abbrev or_upto : ℕ → ℕ → ℕ → ℕ
or_upto = digits (λ b. b) max

double_field : (q k : ℕ) → q * 2 ^ suc k ≡ q * 2 ^ k + q * 2 ^ k
double_field q k = omega (arith, ap (λ (t : ℕ). q * t) (pow-suc 2 k))

and_upto_field :
    (n a k q r : ℕ) → a ≤ n → a ≡ q * 2 ^ k + r → r < 2 ^ k → and_upto n a (2 ^ k - 1) ≡ r
and_upto_field zero a k q r h e f = omega arith
and_upto_field (suc n) zero k q r h e f = omega arith
and_upto_field (suc n) (suc a) zero q r h e f =
    omega (
      arith,
      and_upto_field n (suc a / 2) 0 (suc a / 2) 0 (omega arith) (omega arith) (omega arith),
    )
and_upto_field (suc n) (suc a) (suc k) q r h e f =
    ground (
      arith,
      double_field q k,
      pow-suc 2 k,
      one-le-pow k 2,
      and_upto_field n (suc a / 2) k q (r / 2),
    )

-- `a & (2^k - 1)`.
pub bit_and_mask : (k a : ℕ) → bit_and a (2 ^ k - 1) ≡ a % 2 ^ k
bit_and_mask k a = ground (
  arith,
  bit_and-bitwise a (2 ^ k - 1),
  one-le-pow k 2,
  and_upto_field a a k (a / 2 ^ k) (a % 2 ^ k),
)

or_upto_high : (n a k q r : ℕ) → a ≤ n → a ≡ q * 2 ^ k → r < 2 ^ k → or_upto n a r ≡ a + r
or_upto_high zero a k q r h e f = omega arith
or_upto_high (suc n) zero k q r h e f = omega arith
or_upto_high (suc n) (suc a) zero q r h e f =
    ground (arith, or_upto_high n (suc a / 2) 0 (suc a / 2) (r / 2))
or_upto_high (suc n) (suc a) (suc k) q r h e f =
    ground (arith, double_field q k, pow-suc 2 k, or_upto_high n (suc a / 2) k q (r / 2))

or_upto_low : (n a k q b : ℕ) → a ≤ n → b ≡ q * 2 ^ k → a < 2 ^ k → or_upto n a b ≡ b + a
or_upto_low zero a k q b h e f = omega arith
or_upto_low (suc n) zero k q b h e f = omega arith
or_upto_low (suc n) (suc a) zero q b h e f = omega arith
or_upto_low (suc n) (suc a) (suc k) q b h e f =
    ground (arith, double_field q k, pow-suc 2 k, or_upto_low n (suc a / 2) k q (b / 2))

-- `(q << k) | r` and `r | (q << k)` with `r` below `2^k`.
pub bit_or_high : (k q r : ℕ) → r < 2 ^ k → bit_or (q * 2 ^ k) r ≡ q * 2 ^ k + r
bit_or_high k q r h =
    bit_or-bitwise (q * 2 ^ k) r ∙ or_upto_high (q * 2 ^ k) (q * 2 ^ k) k q r (le_refl _) refl h

pub bit_or_low : (k q r : ℕ) → r < 2 ^ k → bit_or r (q * 2 ^ k) ≡ q * 2 ^ k + r
bit_or_low k q r h =
    bit_or-bitwise r (q * 2 ^ k) ∙ or_upto_low r r k q (q * 2 ^ k) (le_refl _) refl h

or_upto_mask :
    (n a k q r : ℕ)
    → a ≤ n
    → a ≡ q * 2 ^ k + r
    → r < 2 ^ k
    → or_upto n a (2 ^ k - 1) ≡ q * 2 ^ k + (2 ^ k - 1)
or_upto_mask zero a k q r h e f = ground arith
or_upto_mask (suc n) zero k q r h e f = ground arith
or_upto_mask (suc n) (suc a) zero q r h e f =
    ground (arith, or_upto_high (suc n) (suc a) 0 (suc a) 0)
or_upto_mask (suc n) (suc a) (suc k) q r h e f =
    ground
      (arith, double_field q k, pow-suc 2 k, one-le-pow k 2, or_upto_mask n (suc a / 2) k q (r / 2))

-- `a | (2^k - 1)`, where `a` is `q * 2^k + r`.
pub bit_or_mask :
    (k q r : ℕ) → r < 2 ^ k → bit_or (q * 2 ^ k + r) (2 ^ k - 1) ≡ q * 2 ^ k + (2 ^ k - 1)
bit_or_mask k q r h =
    bit_or-bitwise (q * 2 ^ k + r) (2 ^ k - 1)
    ∙ or_upto_mask (q * 2 ^ k + r) (q * 2 ^ k + r) k q r (le_refl _) refl h

-- Over a small range a law is checked at every value.
unfoldable pub all_below : ℕ → (ℕ → Bool) → Bool
all_below zero p = true
all_below (suc n) p = p n && all_below n p

pub holds_below : (n : ℕ) (p : ℕ → Bool) (x : ℕ) → all_below n p ≡ true → x < n → p x ≡ true
unfolding all_below
holds_below zero p x h lt = absurd (omega arith)
holds_below (suc n) p x h lt = ground (arith, holds_below n p x)
