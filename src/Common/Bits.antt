-- ===== src/Common/Bits.antt =====
-- `bit_or` of a number in the high bits and one in the low bits.
use Prim.Native.Nat.{digits, bit_or-bitwise, max}
use native.Mathlib.Nat.{pow-suc, mul_assoc}
use gonfs.Common.{
  ℕ, zero, suc, ◌+◌, ◌*◌, ◌/◌, ◌%◌, ◌^◌, ◌≤◌, ◌<◌, ◌≡◌, refl, sym, subst, ap, ◌∙◌, bit_or, arith,
}

abbrev or_digits : ℕ → ℕ → ℕ → ℕ
or_digits n a b = digits (λ b. b) max n a b

or_digits_fuel : (n m a b : ℕ) → a ≤ n → a ≤ m → or_digits n a b ≡ or_digits m a b
or_digits_fuel zero zero a b p q = refl
or_digits_fuel zero (suc m) zero b p q = refl
or_digits_fuel zero (suc m) (suc a) b p q = absurd (omega arith)
or_digits_fuel (suc n) zero zero b p q = refl
or_digits_fuel (suc n) zero (suc a) b p q = absurd (omega arith)
or_digits_fuel (suc n) (suc m) zero b p q = refl
or_digits_fuel (suc n) (suc m) (suc a) b p q =
    omega (arith, or_digits_fuel n m (suc a / 2) (b / 2) (omega arith) (omega arith))

zero-bit_or : (b : ℕ) → bit_or 0 b ≡ b
zero-bit_or b = bit_or-bitwise 0 b

bit_or_step : (a b : ℕ) → bit_or a b ≡ bit_or (a / 2) (b / 2) * 2 + max (a % 2) (b % 2)
bit_or_step zero b = omega (arith, zero-bit_or b, zero-bit_or (b / 2))
bit_or_step (suc a) b = omega (
  arith,
  bit_or-bitwise (suc a) b,
  bit_or-bitwise (suc a / 2) (b / 2),
  or_digits_fuel a (suc a / 2) (suc a / 2) (b / 2) (omega arith) (omega arith),
)

bit_or-zero_fuel : (n a : ℕ) → a ≤ n → bit_or a 0 ≡ a
bit_or-zero_fuel n zero h = refl
bit_or-zero_fuel zero (suc a) h = absurd (omega arith)
bit_or-zero_fuel (suc n) (suc a) h =
    omega (arith, bit_or_step (suc a) 0, bit_or-zero_fuel n (suc a / 2) (omega arith))

-- One more digit below, on both sides.
bit_or-double : (x y b : ℕ) → y ≡ x * 2 → bit_or x (b / 2) ≡ x + b / 2 → bit_or y b ≡ y + b
bit_or-double x y b e h =
    subst (λ z. bit_or z b ≡ z + b) (sym e)
      (omega (arith, bit_or_step (x * 2) b, subst (λ z. bit_or z (b / 2) ≡ x + b / 2) half h))
  where
    half : x ≡ x * 2 / 2
    half = omega arith

-- The digits of a number below 2 ^ w and those of a multiple of 2 ^ w do not meet.
pub bit_or-high : (w a b : ℕ) → b < 2 ^ w → bit_or (a * 2 ^ w) b ≡ a * 2 ^ w + b
bit_or-high zero a b h = omega (arith, bit_or-zero_fuel a a (omega arith), no_bits)
  where
    no_bits : bit_or (a * 1) b ≡ bit_or a 0
    no_bits = ap (λ x. bit_or x b) (omega arith) ∙ ap (λ y. bit_or a y) (omega arith)
bit_or-high (suc w) a b h =
    bit_or-double (a * 2 ^ w) (a * 2 ^ suc w) b
      (ap (λ x. a * x) (pow-suc 2 w) ∙ sym (mul_assoc a (2 ^ w) 2))
      (bit_or-high w a (b / 2) (omega (arith, pow-suc 2 w)))

bit_or-half : (x y b : ℕ) → y ≡ x * 2 → bit_or (b / 2) x ≡ x + b / 2 → bit_or b y ≡ y + b
bit_or-half x y b e h =
    subst (λ z. bit_or b z ≡ z + b) (sym e)
      (omega (arith, bit_or_step b (x * 2), subst (λ z. bit_or (b / 2) z ≡ x + b / 2) half h))
  where
    half : x ≡ x * 2 / 2
    half = omega arith

-- The same with the high bits on the right.
pub bit_or-low : (w a b : ℕ) → b < 2 ^ w → bit_or b (a * 2 ^ w) ≡ a * 2 ^ w + b
bit_or-low zero a b h = omega (arith, zero-bit_or (a * 1), no_bits)
  where
    no_bits : bit_or b (a * 1) ≡ bit_or 0 (a * 1)
    no_bits = ap (λ x. bit_or x (a * 1)) (omega arith)
bit_or-low (suc w) a b h =
    bit_or-half (a * 2 ^ w) (a * 2 ^ suc w) b
      (ap (λ x. a * x) (pow-suc 2 w) ∙ sym (mul_assoc a (2 ^ w) 2))
      (bit_or-low w a (b / 2) (omega (arith, pow-suc 2 w)))
