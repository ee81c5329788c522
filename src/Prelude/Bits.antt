-- ===== src/Prelude/Bits.antt =====
-- The native `&` and `|` at variables: scaling by a power of two, low masks, one bit.
use Prim.Native.Nat.{
  ℕ, zero, suc, ◌+◌, ◌-◌, ◌*◌, ◌/◌, ◌%◌, ◌^◌, ◌≤◌, ◌<◌, min, max, digits, bitwise, bit_and, bit_or,
}
use Prim.Native.Nat.{bit_and-bitwise, bit_or-bitwise}
use mathlib.Core.Path.{◌≡◌, refl, ap, sym, ◌∙◌}
use native.Mathlib.Nat.{
  pow-suc, pow-succ', one-le-pow, div-div-eq-div-mul, mod-eq_of_lt, mod-lt, div-add-mod', add-zero,
  mul-sub,
}
use native.Mathlib.Omega.{arith}

-- The digit recursion does not depend on its fuel.
enough_digits :
    (z : ℕ → ℕ) (f : ℕ → ℕ → ℕ) (n m a b : ℕ) → a ≤ n → a ≤ m → digits z f n a b ≡ digits z f m a b
enough_digits z f zero zero a b p q = refl
enough_digits z f zero (suc m) zero b p q = refl
enough_digits z f zero (suc m) (suc a) b p q = absurd (omega arith)
enough_digits z f (suc n) zero zero b p q = refl
enough_digits z f (suc n) zero (suc a) b p q = absurd (omega arith)
enough_digits z f (suc n) (suc m) zero b p q = refl
enough_digits z f (suc n) (suc m) (suc a) b p q =
    ap (λ (t : ℕ). t * 2 + f (suc a % 2) (b % 2))
      (enough_digits z f n m (suc a / 2) (b / 2) (omega arith) (omega arith))

bitwise_low :
    (z : ℕ → ℕ) (f : ℕ → ℕ → ℕ) (a b : ℕ)
    → bitwise z f (suc a) b ≡ bitwise z f (suc a / 2) (b / 2) * 2 + f (suc a % 2) (b % 2)
bitwise_low z f a b =
    ap (λ (t : ℕ). t * 2 + f (suc a % 2) (b % 2))
      (enough_digits z f a (suc a / 2) (suc a / 2) (b / 2) (omega arith) (omega arith))

-- One binary digit of each operation.
pub bit_and_low : (a b : ℕ) → bit_and a b ≡ bit_and (a / 2) (b / 2) * 2 + min (a % 2) (b % 2)
bit_and_low zero b = omega (arith, bit_and-bitwise 0 b, bit_and-bitwise 0 (b / 2))
bit_and_low (suc a) b = omega (
  arith,
  bit_and-bitwise (suc a) b,
  bit_and-bitwise (suc a / 2) (b / 2),
  bitwise_low (λ y. 0) min a b,
)

pub bit_or_low : (a b : ℕ) → bit_or a b ≡ bit_or (a / 2) (b / 2) * 2 + max (a % 2) (b % 2)
bit_or_low zero b = omega (arith, bit_or-bitwise 0 b, bit_or-bitwise 0 (b / 2))
bit_or_low (suc a) b = omega (
  arith,
  bit_or-bitwise (suc a) b,
  bit_or-bitwise (suc a / 2) (b / 2),
  bitwise_low (λ y. y) max a b,
)

zero-bit_and : (b : ℕ) → bit_and 0 b ≡ 0
zero-bit_and b = bit_and-bitwise 0 b

zero-bit_or : (b : ℕ) → bit_or 0 b ≡ b
zero-bit_or b = bit_or-bitwise 0 b

-- `a & (m << k)` looks at the digits of `a` from `k` on.
pub bit_and_shifted : (k a m : ℕ) → bit_and a (m * 2 ^ k) ≡ bit_and (a / 2 ^ k) m * 2 ^ k
bit_and_shifted zero a m = ground (arith, ap (λ t. bit_and t m) h₁, ap (bit_and a) h₂)
  where
    h₁ : a / 2 ^ 0 ≡ a
    h₁ = omega arith

    h₂ : m * 2 ^ 0 ≡ m
    h₂ = omega arith
bit_and_shifted (suc k) a m = omega (
  arith,
  bit_and_low a (m * 2 ^ suc k),
  ap (bit_and (a / 2)) half,
  ap (λ t. bit_and t m * 2 ^ k) quot,
  bit_and_shifted k (a / 2) m,
  double,
  ap (λ (t : ℕ). bit_and (a / 2 ^ suc k) m * t) (pow-suc 2 k),
)
  where
    double : m * 2 ^ suc k ≡ 2 * (m * 2 ^ k)
    double = omega (arith, ap (λ (t : ℕ). m * t) (pow-suc 2 k))

    half : m * 2 ^ suc k / 2 ≡ m * 2 ^ k
    half = omega (arith, double)

    quot : a / 2 / 2 ^ k ≡ a / 2 ^ suc k
    quot = div-div-eq-div-mul a 2 (2 ^ k) ∙ ap (λ t. a / t) (sym (pow-succ' 2 k))

bit_and-zero : (n a : ℕ) → a ≤ n → bit_and a 0 ≡ 0
bit_and-zero n zero h = refl
bit_and-zero zero (suc a) h = absurd (omega arith)
bit_and-zero (suc n) (suc a) h =
    omega (arith, bit_and_low (suc a) 0, bit_and-zero n (suc a / 2) (omega arith))

pub bit_or-zero : (n a : ℕ) → a ≤ n → bit_or a 0 ≡ a
bit_or-zero n zero h = refl
bit_or-zero zero (suc a) h = absurd (omega arith)
bit_or-zero (suc n) (suc a) h =
    omega (arith, bit_or_low (suc a) 0, bit_or-zero n (suc a / 2) (omega arith))

pub two_pow_pos : (k : ℕ) → 1 ≤ 2 ^ k
two_pow_pos k = one-le-pow k 2 (omega arith)

pub two_pow_add : (j k : ℕ) → 2 ^ (j + k) ≡ 2 ^ j * 2 ^ k
two_pow_add j zero = omega (arith, ap (λ t. 2 ^ t) (add-zero j))
two_pow_add j (suc k) = omega (
  arith,
  ap (λ t. 2 ^ t) add_suc,
  pow-suc 2 (j + k),
  two_pow_add j k,
  ap (λ (t : ℕ). 2 ^ j * t) (pow-suc 2 k),
)
  where
    add_suc : j + suc k ≡ suc (j + k)
    add_suc = omega arith

low_digits : (k q r : ℕ) → r < 2 ^ k → bit_and (q * 2 ^ k + r) (2 ^ k - 1) ≡ r
low_digits zero q r fits = omega (arith, bit_and-zero (q * 1 + r) (q * 1 + r) (omega arith))
low_digits (suc k) q r fits = omega (
  arith,
  bit_and_low (q * 2 ^ suc k + r) (2 ^ suc k - 1),
  ap (λ t. bit_and t ((2 ^ suc k - 1) / 2)) top,
  ap (bit_and (q * 2 ^ k + r / 2)) mask,
  low_digits k q (r / 2) (omega (arith, pow-suc 2 k)),
  double,
  pow-suc 2 k,
  two_pow_pos k,
)
  where
    double : q * 2 ^ suc k ≡ 2 * (q * 2 ^ k)
    double = omega (arith, ap (λ (t : ℕ). q * t) (pow-suc 2 k))

    top : (q * 2 ^ suc k + r) / 2 ≡ q * 2 ^ k + r / 2
    top = omega (arith, double)

    mask : (2 ^ suc k - 1) / 2 ≡ 2 ^ k - 1
    mask = omega (arith, pow-suc 2 k)

-- `a & (2^k - 1)` is the remainder by `2^k`.
pub bit_and_mask : (k a : ℕ) → bit_and a (2 ^ k - 1) ≡ a % 2 ^ k
bit_and_mask k a =
    ap (λ t. bit_and t (2 ^ k - 1)) (sym (div-add-mod' a (2 ^ k)))
    ∙ low_digits k (a / 2 ^ k) (a % 2 ^ k) (mod-lt a (two_pow_pos k))

-- Of a `w`-bit word, `a & ~(2^k - 1)` clears the `k` low bits.
pub bit_and_high : (w k a : ℕ) → k ≤ w → a < 2 ^ w → bit_and a (2 ^ w - 2 ^ k) ≡ a - a % 2 ^ k
bit_and_high w k a le fits = omega (
  arith,
  ap (bit_and a) ones,
  bit_and_shifted k a (2 ^ (w - k) - 1),
  ap (λ (t : ℕ). t * 2 ^ k) (bit_and_mask (w - k) (a / 2 ^ k)),
  ap (λ (t : ℕ). t * 2 ^ k) (mod-eq_of_lt {n = a / 2 ^ k} {m = 2 ^ (w - k)} small),
  div-add-mod' a (2 ^ k),
)
  where
    split : 2 ^ w ≡ 2 ^ (w - k) * 2 ^ k
    split = ap (λ t. 2 ^ t) (omega arith) ∙ two_pow_add (w - k) k

    ones : 2 ^ w - 2 ^ k ≡ (2 ^ (w - k) - 1) * 2 ^ k
    ones = omega (arith, split, mul-sub (2 ^ k) (2 ^ (w - k)) 1)

    small : a / 2 ^ k < 2 ^ (w - k)
    small = grind (arith, split, two_pow_pos k, div-add-mod' a (2 ^ k))

-- `a & (1 << k)` is the bit `k`, in its place.
pub bit_and_bit : (k a : ℕ) → bit_and a (2 ^ k) ≡ a / 2 ^ k % 2 * 2 ^ k
bit_and_bit k a = omega (
  arith,
  ap (bit_and a) one,
  bit_and_shifted k a 1,
  ap (λ (t : ℕ). t * 2 ^ k) (bit_and_mask 1 (a / 2 ^ k)),
)
  where
    one : 2 ^ k ≡ 1 * 2 ^ k
    one = omega arith

-- `a | (1 << k)` adds `2^k` where the bit is clear.
pub bit_or_bit : (k a : ℕ) → a / 2 ^ k % 2 ≡ 0 → bit_or a (2 ^ k) ≡ a + 2 ^ k
bit_or_bit zero a clear = omega (arith, bit_or_low a 1, bit_or-zero (a / 2) (a / 2) (omega arith))
bit_or_bit (suc k) a clear = omega (
  arith,
  bit_or_low a (2 ^ suc k),
  ap (bit_or (a / 2)) half,
  bit_or_bit k (a / 2) (ap (λ t. t % 2) quot ∙ clear),
  pow-suc 2 k,
)
  where
    half : 2 ^ suc k / 2 ≡ 2 ^ k
    half = omega (arith, pow-suc 2 k)

    quot : a / 2 / 2 ^ k ≡ a / 2 ^ suc k
    quot = div-div-eq-div-mul a 2 (2 ^ k) ∙ ap (λ t. a / t) (sym (pow-succ' 2 k))

bit_and-le_fuel : (n a b : ℕ) → a ≤ n → bit_and a b ≤ a
bit_and-le_fuel n zero b h = omega (arith, zero-bit_and b)
bit_and-le_fuel zero (suc a) b h = absurd (omega arith)
bit_and-le_fuel (suc n) (suc a) b h =
    omega (arith, bit_and_low (suc a) b, bit_and-le_fuel n (suc a / 2) (b / 2) (omega arith))

pub bit_and-le : (a b : ℕ) → bit_and a b ≤ a
bit_and-le a b = bit_and-le_fuel a a b (omega arith)
