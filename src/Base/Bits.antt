-- ===== src/Base/Bits.antt =====
-- The bit operations at variables: the law for the lowest digit of `bit_and` and of `bit_or`, and
-- what they say of single bits.
use Prim.Native.Nat.{
  ℕ, zero, suc, ◌+◌, ◌*◌, ◌/◌, ◌%◌, ◌≤◌, min, max, digits, bit_and, bit_or, bit_and-bitwise,
  bit_or-bitwise,
}
use mathlib.Core.Path.{◌≡◌, refl, ap}
use native.Mathlib.Omega.{arith}

module _ (z : ℕ → ℕ) (f : ℕ → ℕ → ℕ) where
  -- The count of digits does not matter, once it is large enough.
  digits_count : (n m a b : ℕ) → a ≤ n → a ≤ m → digits z f n a b ≡ digits z f m a b
  digits_count zero zero a b p q = refl
  digits_count zero (suc m) zero b p q = refl
  digits_count zero (suc m) (suc a) b p q = elim p [ ]
  digits_count (suc n) zero zero b p q = refl
  digits_count (suc n) zero (suc a) b p q = elim q [ ]
  digits_count (suc n) (suc m) zero b p q = refl
  digits_count (suc n) (suc m) (suc a) b p q =
      ap (λ d. d * 2 + f (suc a % 2) (b % 2))
        (digits_count n m (suc a / 2) (b / 2) (omega arith) (omega arith))

  digits_step :
      ((b : ℕ) → z b ≡ z (b / 2) * 2 + f 0 (b % 2))
      → (a b : ℕ) → digits z f a a b ≡ digits z f (a / 2) (a / 2) (b / 2) * 2 + f (a % 2) (b % 2)
  digits_step run_out zero b = run_out b
  digits_step run_out (suc a) b =
      ap (λ d. d * 2 + f (suc a % 2) (b % 2))
        (digits_count a (suc a / 2) (suc a / 2) (b / 2) (omega arith) (omega arith))

pub bit_and_digit : (a b : ℕ) → bit_and a b ≡ bit_and (a / 2) (b / 2) * 2 + min (a % 2) (b % 2)
bit_and_digit a b =
    let law = digits_step (λ b. zero) min (λ b. omega arith) a b in
    omega (arith, law, bit_and-bitwise a b, bit_and-bitwise (a / 2) (b / 2))

pub bit_or_digit : (a b : ℕ) → bit_or a b ≡ bit_or (a / 2) (b / 2) * 2 + max (a % 2) (b % 2)
bit_or_digit a b =
    let law = digits_step (λ b. b) max (λ b. omega arith) a b in
    omega (arith, law, bit_or-bitwise a b, bit_or-bitwise (a / 2) (b / 2))

bit_and_zero_within : (n a : ℕ) → a ≤ n → bit_and a 0 ≡ 0
bit_and_zero_within zero zero h = refl
bit_and_zero_within zero (suc a) h = elim h [ ]
bit_and_zero_within (suc n) a h =
    omega (arith, bit_and_digit a 0, bit_and_zero_within n (a / 2) (omega arith))

pub bit_and-zero : (a : ℕ) → bit_and a 0 ≡ 0
bit_and-zero a = bit_and_zero_within a a (omega arith)

pub bit_and-one : (a : ℕ) → bit_and a 1 ≡ a % 2
bit_and-one a = omega (arith, bit_and_digit a 1, bit_and-zero (a / 2))
