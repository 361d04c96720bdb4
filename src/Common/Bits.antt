-- ===== src/Common/Bits.antt =====
-- Bounds of the bit operations, and masks and fields as arithmetic.
use Prim.Native.Nat.{
  ℕ, zero, suc, ◌+◌, ◌*◌, ◌/◌, ◌%◌, ◌^◌, ◌≤◌, ◌<◌, min, max, digits, differ, bit_and, bit_or,
  bit_xor, bit_and-bitwise, bit_or-bitwise, bit_xor-bitwise,
}
use native.Mathlib.Nat.{pow-suc}
use native.Mathlib.Omega.{arith}
use mathlib.Core.Path.{◌≡◌, ◌∙◌}

module _ (z : ℕ → ℕ) (f : ℕ → ℕ → ℕ) (z_le : (b : ℕ) → z b ≤ b)
    (f_le : (x y : ℕ) → x < 2 → y < 2 → f x y ≤ 1) where
  digits-lt : (n k a b : ℕ) → a < 2 ^ k → b < 2 ^ k → digits z f n a b < 2 ^ k
  digits-lt zero k a b ha hb = omega (arith, z_le b)
  digits-lt (suc n) k zero b ha hb = omega (arith, z_le b)
  digits-lt (suc n) zero (suc a) b ha hb = absurd (omega arith)
  digits-lt (suc n) (suc k) (suc a) b ha hb = omega (
    arith,
    pow-suc 2 k,
    digits-lt n k (suc a / 2) (b / 2) (omega (arith, pow-suc 2 k)) (omega (arith, pow-suc 2 k)),
    f_le (suc a % 2) (b % 2) (omega arith) (omega arith),
  )

differ-le : (x y : ℕ) → x < 2 → y < 2 → differ x y ≤ 1
differ-le zero y hx hy = omega arith
differ-le (suc x) zero hx hy = omega arith
differ-le (suc zero) (suc zero) hx hy = omega arith
differ-le (suc zero) (suc (suc y)) hx hy = absurd (omega arith)
differ-le (suc (suc x)) (suc y) hx hy = absurd (omega arith)

module _ (k a b : ℕ) (ha : a < 2 ^ k) (hb : b < 2 ^ k) where
  pub bit_and-lt : bit_and a b < 2 ^ k
  bit_and-lt = omega (
    arith,
    bit_and-bitwise a b,
    digits-lt (λ _. 0) min (λ _. omega arith) (λ x y hx hy. omega arith) a k a b ha hb,
  )

  pub bit_or-lt : bit_or a b < 2 ^ k
  bit_or-lt = omega (
    arith,
    bit_or-bitwise a b,
    digits-lt (λ y. y) max (λ _. omega arith) (λ x y hx hy. omega arith) a k a b ha hb,
  )

  pub bit_xor-lt : bit_xor a b < 2 ^ k
  bit_xor-lt = omega (
    arith,
    bit_xor-bitwise a b,
    digits-lt (λ y. y) differ (λ _. omega arith) differ-le a k a b ha hb,
  )

digits-add : (n k h a b : ℕ) → a ≤ n → a ≡ h * 2 ^ k → b < 2 ^ k → digits (λ y. y) max n a b ≡ a + b
digits-add zero k h a b le e lt = omega arith
digits-add (suc n) k h zero b le e lt = omega arith
digits-add (suc n) zero h (suc a) b le e lt = omega (
  arith,
  digits-add n zero (suc a / 2) (suc a / 2) (b / 2) (omega arith) (omega arith) (omega arith),
)
digits-add (suc n) (suc k) h (suc a) b le e lt = omega (
  arith,
  digits-add n k h (suc a / 2) (b / 2) (omega arith) (omega (arith, half, pow-suc 2 k))
      (omega (arith, pow-suc 2 k)),
  half,
)
  where
    half : suc a ≡ h * 2 ^ k * 2
    half = e ∙ rw (pow-suc 2 k) (omega arith)

-- A number below 2^k takes the place of k zero bits.
pub bit_or-add : (k h a b : ℕ) → a ≡ h * 2 ^ k → b < 2 ^ k → bit_or a b ≡ a + b
bit_or-add k h a b e lt = omega (arith, bit_or-bitwise a b, digits-add a k h a b (omega arith) e lt)

digits-low :
    (n k q r a b : ℕ)
    → a ≤ n
    → a ≡ q * 2 ^ k + r
    → r < 2 ^ k
    → suc b ≡ 2 ^ k
    → digits (λ _. 0) min n a b ≡ r
digits-low zero k q r a b le e lt m = omega arith
digits-low (suc n) k q r zero b le e lt m = omega arith
digits-low (suc n) zero q r (suc a) b le e lt m = omega (
  arith,
  digits-low n zero (suc a / 2) 0 (suc a / 2) (b / 2) (omega arith) (omega arith) (omega arith)
      (omega arith),
)
digits-low (suc n) (suc k) q r (suc a) b le e lt m = omega (
  arith,
  digits-low n k q (r / 2) (suc a / 2) (b / 2) (omega arith) (omega (arith, half))
      (omega (arith, pow-suc 2 k)) (omega (arith, pow-suc 2 k)),
  half,
  pow-suc 2 k,
)
  where
    half : suc a ≡ q * 2 ^ k * 2 + r
    half = e ∙ rw (pow-suc 2 k) (omega arith)

-- A mask of k ones keeps the k lowest bits.
pub bit_and-low : (k q r a b : ℕ) → a ≡ q * 2 ^ k + r → r < 2 ^ k → suc b ≡ 2 ^ k → bit_and a b ≡ r
bit_and-low k q r a b e lt m =
    omega (arith, bit_and-bitwise a b, digits-low a k q r a b (omega arith) e lt m)
