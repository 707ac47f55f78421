-- ===== src/Common/BitBounds.antt =====
-- The bitwise operations on numbers below a power of two.
use smt_solver_rust.Common.Bits.{bit_and_digit, bit_or_digit, bit_xor_digit, bit_or-zero}
use Prim.Native.Nat.{
  ℕ, zero, suc, ◌+◌, ◌-◌, ◌*◌, ◌/◌, ◌^◌, ◌<◌, bit_and, bit_or, bit_xor, bit_or-bitwise,
}
use mathlib.Core.Path.{◌≡◌, refl, ◌∙◌, ap}
use native.Mathlib.Nat.{pow-suc, one-le-pow}
use native.Mathlib.Omega.{arith}

half_below : (k a : ℕ) → a < 2 ^ suc k → a / 2 < 2 ^ k
half_below k a h = omega (arith, pow-suc 2 k)

pub bit_and_below : (k a b : ℕ) → a < 2 ^ k → b < 2 ^ k → bit_and a b < 2 ^ k
bit_and_below zero zero zero h l = omega arith
bit_and_below zero (suc a) b h l = absurd (omega arith)
bit_and_below zero zero (suc b) h l = absurd (omega arith)
bit_and_below (suc k) a b h l = ground (
  arith,
  pow-suc 2 k,
  bit_and_digit a b,
  bit_and_below k (a / 2) (b / 2) (half_below k a h) (half_below k b l),
)

pub bit_or_below : (k a b : ℕ) → a < 2 ^ k → b < 2 ^ k → bit_or a b < 2 ^ k
bit_or_below zero zero zero h l = omega arith
bit_or_below zero (suc a) b h l = absurd (omega arith)
bit_or_below zero zero (suc b) h l = absurd (omega arith)
bit_or_below (suc k) a b h l = ground (
  arith,
  pow-suc 2 k,
  bit_or_digit a b,
  bit_or_below k (a / 2) (b / 2) (half_below k a h) (half_below k b l),
)

pub bit_xor_below : (k a b : ℕ) → a < 2 ^ k → b < 2 ^ k → bit_xor a b < 2 ^ k
bit_xor_below zero zero zero h l = omega arith
bit_xor_below zero (suc a) b h l = absurd (omega arith)
bit_xor_below zero zero (suc b) h l = absurd (omega arith)
bit_xor_below (suc k) a b h l = ground (
  arith,
  pow-suc 2 k,
  bit_xor_digit a b,
  bit_xor_below k (a / 2) (b / 2) (half_below k a h) (half_below k b l),
)

-- The complement within a mask.
pub bit_xor-mask : (k a : ℕ) → a < 2 ^ k → bit_xor (2 ^ k - 1) a ≡ 2 ^ k - 1 - a
bit_xor-mask zero zero h = refl
bit_xor-mask zero (suc a) h = absurd (omega arith)
bit_xor-mask (suc k) a h = ground (
  arith,
  pow-suc 2 k,
  one-le-pow k 2,
  bit_xor_digit (2 ^ suc k - 1) a,
  bit_xor-mask k (a / 2) (half_below k a h),
)

double : (b p : ℕ) → b * (2 * p) ≡ 2 * (b * p)
double b p = grind arith

double_power : (b k : ℕ) → b * 2 ^ suc k ≡ 2 * (b * 2 ^ k)
double_power b k = ap (λ t. b * t) (let e = pow-suc 2 k in omega arith) ∙ double b (2 ^ k)

zero-bit_or : (b : ℕ) → bit_or 0 b ≡ b
zero-bit_or b = simp bit_or-bitwise (omega arith)

-- High digits over low ones.
pub bit_or-high : (k a b : ℕ) → a < 2 ^ k → bit_or (b * 2 ^ k) a ≡ b * 2 ^ k + a
bit_or-high zero zero b h = bit_or-zero (b * 1) ∙ omega arith
bit_or-high zero (suc a) b h = absurd (omega arith)
bit_or-high (suc k) a b h =
    let e : b * 2 ^ suc k ≡ 2 * (b * 2 ^ k) = double_power b k in
    ground (arith, e, bit_or_digit (b * 2 ^ suc k) a, bit_or-high k (a / 2) b (half_below k a h))

pub bit_or-low : (k a b : ℕ) → a < 2 ^ k → bit_or a (b * 2 ^ k) ≡ b * 2 ^ k + a
bit_or-low zero zero b h = zero-bit_or (b * 1) ∙ omega arith
bit_or-low zero (suc a) b h = absurd (omega arith)
bit_or-low (suc k) a b h =
    let e : b * 2 ^ suc k ≡ 2 * (b * 2 ^ k) = double_power b k in
    ground (arith, e, bit_or_digit a (b * 2 ^ suc k), bit_or-low k (a / 2) b (half_below k a h))
