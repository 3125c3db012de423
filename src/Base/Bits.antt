-- ===== src/Base/Bits.antt =====
-- The bit operations of C on numbers that are not literals: a test of one bit, a low mask, and the
-- union of disjoint fields, restated as arithmetic.
use Prim.Native.Nat.{
  ℕ, zero, suc, ◌+◌, ◌*◌, ◌/◌, ◌%◌, ◌^◌, ◌≤◌, ◌<◌, min, max, bit_and, bit_or, digits,
  bit_and-bitwise, bit_or-bitwise,
}
use mathlib.Core.Path.{◌≡◌, refl, ap}
use native.Mathlib.Nat.{pow-suc, one-le-pow}
use native.Mathlib.Omega.{arith}

-- The digit recursion behind a bit operation needs only as much fuel as its first argument.
module _ (last : ℕ → ℕ) (join : ℕ → ℕ → ℕ) where
  fuel_irrelevant : (n m a b : ℕ) → a ≤ n → a ≤ m → digits last join n a b ≡ digits last join m a b
  fuel_irrelevant zero zero a b p q = refl
  fuel_irrelevant zero (suc m) zero b p q = refl
  fuel_irrelevant zero (suc m) (suc a) b p q = absurd (omega arith)
  fuel_irrelevant (suc n) zero zero b p q = refl
  fuel_irrelevant (suc n) zero (suc a) b p q = absurd (omega arith)
  fuel_irrelevant (suc n) (suc m) zero b p q = refl
  fuel_irrelevant (suc n) (suc m) (suc a) b p q =
      omega (arith, fuel_irrelevant n m (suc a / 2) (b / 2) (omega arith) (omega arith))

zero-bit_and : (b : ℕ) → bit_and 0 b ≡ 0
zero-bit_and b = bit_and-bitwise 0 b

zero-bit_or : (b : ℕ) → bit_or 0 b ≡ b
zero-bit_or b = bit_or-bitwise 0 b

-- One binary digit of each operation.
pub bit_and-digit : (a b : ℕ) → bit_and a b ≡ bit_and (a / 2) (b / 2) * 2 + min (a % 2) (b % 2)
bit_and-digit zero b = omega (arith, zero-bit_and b, zero-bit_and (b / 2))
bit_and-digit (suc a) b = omega (
  arith,
  bit_and-bitwise (suc a) b,
  bit_and-bitwise (suc a / 2) (b / 2),
  fuel_irrelevant (λ x. zero) min a (suc a / 2) (suc a / 2) (b / 2) (omega arith) (omega arith),
)

pub bit_or-digit : (a b : ℕ) → bit_or a b ≡ bit_or (a / 2) (b / 2) * 2 + max (a % 2) (b % 2)
bit_or-digit zero b = omega (arith, zero-bit_or b, zero-bit_or (b / 2))
bit_or-digit (suc a) b = omega (
  arith,
  bit_or-bitwise (suc a) b,
  bit_or-bitwise (suc a / 2) (b / 2),
  fuel_irrelevant (λ x. x) max a (suc a / 2) (suc a / 2) (b / 2) (omega arith) (omega arith),
)

bit_and-zero_bounded : (n a : ℕ) → a ≤ n → bit_and a 0 ≡ 0
bit_and-zero_bounded zero zero h = refl
bit_and-zero_bounded zero (suc a) h = absurd (omega arith)
bit_and-zero_bounded (suc n) zero h = refl
bit_and-zero_bounded (suc n) (suc a) h =
    omega (arith, bit_and-digit (suc a) 0, bit_and-zero_bounded n (suc a / 2) (omega arith))

pub bit_and-zero : (a : ℕ) → bit_and a 0 ≡ 0
bit_and-zero a = bit_and-zero_bounded a a (omega arith)

bit_or-zero_bounded : (n a : ℕ) → a ≤ n → bit_or a 0 ≡ a
bit_or-zero_bounded zero zero h = refl
bit_or-zero_bounded zero (suc a) h = absurd (omega arith)
bit_or-zero_bounded (suc n) zero h = refl
bit_or-zero_bounded (suc n) (suc a) h =
    omega (arith, bit_or-digit (suc a) 0, bit_or-zero_bounded n (suc a / 2) (omega arith))

pub bit_or-zero : (a : ℕ) → bit_or a 0 ≡ a
bit_or-zero a = bit_or-zero_bounded a a (omega arith)

-- `a & (1 << k)`, on a number cut at bit `k`: the bit above the `k` low ones decides.
bit_and_flag_parts : (k q r : ℕ) → r < 2 ^ k → bit_and (q * 2 ^ k + r) (2 ^ k) ≡ q % 2 * 2 ^ k
bit_and_flag_parts zero q r h =
    let whole : q * 2 ^ 0 + r ≡ q = omega arith in
    rw whole (omega (arith, bit_and-digit q 1, bit_and-zero (q / 2)))
bit_and_flag_parts (suc k) q r h = ground (
  arith,
  pow-suc 2 k,
  ap (λ (t : ℕ). q * t) (pow-suc 2 k),
  ap (λ (t : ℕ). q % 2 * t) (pow-suc 2 k),
  bit_and-digit (q * 2 ^ suc k + r) (2 ^ suc k),
  bit_and_flag_parts k q (r / 2),
)

pub bit_and_flag : (k a : ℕ) → bit_and a (2 ^ k) ≡ a / 2 ^ k % 2 * 2 ^ k
bit_and_flag k a = ground (arith, one-le-pow k 2, bit_and_flag_parts k (a / 2 ^ k) (a % 2 ^ k))

bit_and_low_parts : (k q r m : ℕ) → r < 2 ^ k → suc m ≡ 2 ^ k → bit_and (q * 2 ^ k + r) m ≡ r
bit_and_low_parts zero q r m h e =
    let none_left : m ≡ 0 = omega arith in
    rw none_left (omega (arith, bit_and-zero (q * 2 ^ 0 + r)))
bit_and_low_parts (suc k) q r m h e = ground (
  arith,
  pow-suc 2 k,
  ap (λ (t : ℕ). q * t) (pow-suc 2 k),
  bit_and-digit (q * 2 ^ suc k + r) m,
  bit_and_low_parts k q (r / 2) (m / 2),
)

-- `a & ((1 << k) - 1)` is the remainder.
pub bit_and_low : (k a m : ℕ) → suc m ≡ 2 ^ k → bit_and a m ≡ a % 2 ^ k
bit_and_low k a m e = ground (arith, one-le-pow k 2, bit_and_low_parts k (a / 2 ^ k) (a % 2 ^ k) m)

-- `q << k | r`, with `r` below the shift, is their sum.
pub bit_or_shifted : (k q r : ℕ) → r < 2 ^ k → bit_or (q * 2 ^ k) r ≡ q * 2 ^ k + r
bit_or_shifted zero q r h =
    let z : r ≡ 0 = omega arith in rw z (omega (arith, bit_or-zero (q * 2 ^ 0)))
bit_or_shifted (suc k) q r h = ground (
  arith,
  ap (λ (t : ℕ). q * t) (pow-suc 2 k),
  pow-suc 2 k,
  bit_or-digit (q * 2 ^ suc k) r,
  bit_or_shifted k q (r / 2),
)
