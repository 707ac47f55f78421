-- ===== src/Common/Bits.antt =====
-- The bitwise operations one binary digit at a time. The native operations stand for `digits`, a
-- recursion on the digits with fuel; the fuel is dropped here.
use Prim.Native.Nat.{
  ℕ, zero, suc, ◌+◌, ◌-◌, ◌*◌, ◌/◌, ◌%◌, ◌^◌, ◌≤◌, ◌<◌, min, max, digits, bitwise, differ, bit_and,
  bit_or, bit_xor, bit_and-bitwise, bit_or-bitwise, bit_xor-bitwise,
}
use mathlib.Core.Path.{◌≡◌, refl, ◌∙◌, ap}
use native.Mathlib.Decide.{ℕ_discrete}
use native.Mathlib.Nat.{pow-suc, one-le-pow}
use native.Mathlib.Omega.{arith}

module _ (rest : ℕ → ℕ) (on_digit : ℕ → ℕ → ℕ) where
  -- Beyond the first operand, one more unit of fuel changes nothing.
  digits_more : (f a b : ℕ) → a ≤ f → digits rest on_digit (suc f) a b ≡ digits rest on_digit f a b
  digits_more zero zero b p = refl
  digits_more zero (suc a) b p = absurd (omega arith)
  digits_more (suc f) zero b p = refl
  digits_more (suc f) (suc a) b p = rw (digits_more f (suc a / 2) (b / 2) (omega arith))

  digits-bitwise : (f a b : ℕ) → a ≤ f → digits rest on_digit f a b ≡ bitwise rest on_digit a b
  digits-bitwise zero zero b p = refl
  digits-bitwise zero (suc a) b p = absurd (omega arith)
  digits-bitwise (suc f) a b p = elim (ℕ_discrete a (suc f)) [
    | yes e ↦ rw e
    | no ne ↦ digits_more f a b (omega arith) ∙ digits-bitwise f a b (omega arith)
  ]

  bitwise_next :
      (a b : ℕ)
      → bitwise rest on_digit (suc a) b
        ≡ bitwise rest on_digit (suc a / 2) (b / 2) * 2 + on_digit (suc a % 2) (b % 2)
  bitwise_next a b = rw (digits-bitwise a (suc a / 2) (b / 2) (omega arith))

pub bit_and_digit : (x y : ℕ) → bit_and x y ≡ bit_and (x / 2) (y / 2) * 2 + min (x % 2) (y % 2)
bit_and_digit zero b = simp bit_and-bitwise (omega arith)
bit_and_digit (suc a) b = simp bit_and-bitwise (bitwise_next (λ _. 0) min a b)

pub bit_or_digit : (x y : ℕ) → bit_or x y ≡ bit_or (x / 2) (y / 2) * 2 + max (x % 2) (y % 2)
bit_or_digit zero b = simp bit_or-bitwise (omega arith)
bit_or_digit (suc a) b = simp bit_or-bitwise (bitwise_next (λ c. c) max a b)

bit_xor-differ : (a b : ℕ) → bit_xor a b ≡ bit_xor (a / 2) (b / 2) * 2 + differ (a % 2) (b % 2)
bit_xor-differ zero b = simp bit_xor-bitwise (omega arith)
bit_xor-differ (suc a) b = simp bit_xor-bitwise (bitwise_next (λ c. c) differ a b)

differ_mod : (x y : ℕ) → x < 2 → y < 2 → differ x y ≡ (x + y) % 2
differ_mod zero y p q = omega arith
differ_mod (suc zero) zero p q = refl
differ_mod (suc zero) (suc zero) p q = refl
differ_mod (suc zero) (suc (suc y)) p q = absurd (omega arith)
differ_mod (suc (suc x)) y p q = absurd (omega arith)

pub bit_xor_digit : (a b : ℕ) → bit_xor a b ≡ bit_xor (a / 2) (b / 2) * 2 + (a % 2 + b % 2) % 2
bit_xor_digit a b =
    omega (arith, bit_xor-differ a b, differ_mod (a % 2) (b % 2) (omega arith) (omega arith))

-- With zero on the right; the number of digits bounds the recursion.
bit_or-zero_below : (n a : ℕ) → a ≤ n → bit_or a 0 ≡ a
bit_or-zero_below n zero h = refl
bit_or-zero_below zero (suc a) h = absurd (omega arith)
bit_or-zero_below (suc n) (suc a) h =
    omega (arith, bit_or_digit (suc a) 0, bit_or-zero_below n (suc a / 2) (omega arith))

pub bit_or-zero : (a : ℕ) → bit_or a 0 ≡ a
bit_or-zero a = bit_or-zero_below a a (omega arith)

bit_xor-zero_below : (n a : ℕ) → a ≤ n → bit_xor a 0 ≡ a
bit_xor-zero_below n zero h = refl
bit_xor-zero_below zero (suc a) h = absurd (omega arith)
bit_xor-zero_below (suc n) (suc a) h =
    omega (arith, bit_xor_digit (suc a) 0, bit_xor-zero_below n (suc a / 2) (omega arith))

pub bit_xor-zero : (a : ℕ) → bit_xor a 0 ≡ a
bit_xor-zero a = bit_xor-zero_below a a (omega arith)

bit_and-zero_below : (n a : ℕ) → a ≤ n → bit_and a 0 ≡ 0
bit_and-zero_below n zero h = refl
bit_and-zero_below zero (suc a) h = absurd (omega arith)
bit_and-zero_below (suc n) (suc a) h =
    omega (arith, bit_and_digit (suc a) 0, bit_and-zero_below n (suc a / 2) (omega arith))

pub bit_and-zero : (a : ℕ) → bit_and a 0 ≡ 0
bit_and-zero a = bit_and-zero_below a a (omega arith)

-- The lowest bit alone.
pub bit_or-one : (a : ℕ) → bit_or (a * 2) 1 ≡ a * 2 + 1
bit_or-one a = omega (arith, bit_or_digit (a * 2) 1, bit_or-zero (a * 2 / 2))

pub bit_xor-one : (a : ℕ) → bit_xor a 1 ≡ a / 2 * 2 + (a % 2 + 1) % 2
bit_xor-one a = omega (arith, bit_xor_digit a 1, bit_xor-zero (a / 2))

pub bit_and-one : (a : ℕ) → bit_and a 1 ≡ a % 2
bit_and-one a = omega (arith, bit_and_digit a 1, bit_and-zero (a / 2))

mod_unique : (q m r : ℕ) → r < m → (q * m + r) % m ≡ r
mod_unique q m r h = grind arith

-- The remainder by `2 * p`, from the lowest digit and the remainder of the others.
mod_digit : (a p : ℕ) → 0 < p → a % (2 * p) ≡ a / 2 % p * 2 + a % 2
mod_digit a p h =
    let e : a ≡ a / 2 / p * (2 * p) + (a / 2 % p * 2 + a % 2) = grind arith in
    ap (λ (t : ℕ). t % (2 * p)) e
    ∙ mod_unique (a / 2 / p) (2 * p) (a / 2 % p * 2 + a % 2) (ground arith)

-- A mask of `k` low bits is the remainder by `2 ^ k`.
pub bit_and-mask : (k a : ℕ) → bit_and a (2 ^ k - 1) ≡ a % 2 ^ k
bit_and-mask zero a = ground (arith, bit_and-zero a)
bit_and-mask (suc k) a = ground (
  arith,
  one-le-pow k 2,
  pow-suc 2 k,
  bit_and_digit a (2 ^ suc k - 1),
  mod_digit a (2 ^ k),
  bit_and-mask k (a / 2),
)
