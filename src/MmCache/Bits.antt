-- ===== src/MmCache/Bits.antt =====
-- The word of allocated objects of a slab of src/mmspace.c as a set of indices.
use syslib.Prelude.{
  ℕ, zero, suc, ◌+◌, ◌-◌, ◌*◌, ◌/◌, ◌%◌, ◌^◌, ◌≤◌, ◌<◌, ◌≡◌, ◌≢◌, ◌⊎◌, inl, inr, refl, ap, sym, ◌∙◌,
  arith, bit_and, bit_and_low, bit_and_bit, bit_and_high, two_pow_pos, ◌==◌, if◌then◌else◌,
}
use mathlib.Core.Path.{ap₂}
use native.Mathlib.Nat.{
  pow-suc, pow-succ', div-div-eq-div-mul, add-div_right, div-eq_of_lt, pow-le-pow_right,
}
use syslib.MmCache.{count_bits}

-- The bit `i`, and how many of the `n` low bits are set.
abbrev pub bit : ℕ → ℕ → ℕ
bit b i = b / 2 ^ i % 2

unfoldable pub ones : ℕ → ℕ → ℕ
ones zero b = 0
ones (suc n) b = b % 2 + ones n (b / 2)

pub bit-suc : (b j : ℕ) → bit b (suc j) ≡ bit (b / 2) j
bit-suc b j =
    ap (λ t. t % 2) (ap (λ t. b / t) (pow-succ' 2 j) ∙ sym (div-div-eq-div-mul b 2 (2 ^ j)))

pub ones_set : (n k b : ℕ) → k < n → bit b k ≡ 0 → ones n (b + 2 ^ k) ≡ ones n b + 1
unfolding ones
ones_set zero k b lt clear = absurd (omega arith)
ones_set (suc n) zero b lt clear =
    let half : (b + 1) / 2 ≡ b / 2 = omega arith in omega (arith, ap (ones n) half)
ones_set (suc n) (suc k) b lt clear =
    let half : (b + 2 ^ suc k) / 2 ≡ b / 2 + 2 ^ k = omega (arith, pow-suc 2 k) in
    omega (
      arith,
      ap (ones n) half,
      pow-suc 2 k,
      ones_set n k (b / 2) (omega arith) (sym (bit-suc b k) ∙ clear),
    )

-- A set bit taken away leaves a clear one.
pub clear_bit : (k b : ℕ) → bit b k ≡ 1 → (2 ^ k ≤ b) × (bit (b - 2 ^ k) k ≡ 0)
clear_bit k b set = elim (le_or_lt (2 ^ k) b) [
  | inl le ↦
      let up : (b - 2 ^ k + 2 ^ k) / 2 ^ k ≡ (b - 2 ^ k) / 2 ^ k + 1 =
        add-div_right (b - 2 ^ k) (two_pow_pos k) in
      let same : b - 2 ^ k + 2 ^ k ≡ b = omega arith in
      (le, omega (arith, up, ap (λ t. t / 2 ^ k) same))
  | inr lt ↦ absurd (omega (arith, div-eq_of_lt lt))
]
  where
    le_or_lt : (m n : ℕ) → (m ≤ n) ⊎ (n < m)
    le_or_lt m n = omega arith

pub bit_other : (k j b : ℕ) → bit b k ≡ 0 → j ≢ k → bit (b + 2 ^ k) j ≡ bit b j
bit_other zero zero b clear ne = absurd (ne refl)
bit_other zero (suc j) b clear ne =
    let half : (b + 1) / 2 ≡ b / 2 = omega arith in
    bit-suc (b + 1) j ∙ ap (λ t. bit t j) half ∙ sym (bit-suc b j)
bit_other (suc k) zero b clear ne = omega (arith, pow-suc 2 k)
bit_other (suc k) (suc j) b clear ne =
    let half : (b + 2 ^ suc k) / 2 ≡ b / 2 + 2 ^ k = omega (arith, pow-suc 2 k) in
    bit-suc (b + 2 ^ suc k) j
    ∙ ap (λ t. bit t j) half
    ∙ bit_other k j (b / 2) (sym (bit-suc b k) ∙ clear) (λ e. ne (ap suc e))
    ∙ sym (bit-suc b j)

pub bit_self : (k b : ℕ) → bit b k ≡ 0 → bit (b + 2 ^ k) k ≡ 1
bit_self k b clear = omega (arith, add-div_right b (two_pow_pos k))

pub set_fits : (c k b : ℕ) → k < c → b < 2 ^ c → bit b k ≡ 0 → b + 2 ^ k < 2 ^ c
set_fits zero k b lt fits clear = absurd (omega arith)
set_fits (suc c) zero b lt fits clear = omega (arith, pow-suc 2 c)
set_fits (suc c) (suc k) b lt fits clear = omega (
  arith,
  pow-suc 2 c,
  pow-suc 2 k,
  set_fits c k (b / 2) (omega arith) (omega (arith, pow-suc 2 c)) (sym (bit-suc b k) ∙ clear),
)

-- `c` low bits that are all set are `c` of the ones.
pub all_ones : (c n b : ℕ) → c ≤ n → ((j : ℕ) → j < c → bit b j ≡ 1) → c ≤ ones n b
unfolding ones
all_ones zero n b le set = omega arith
all_ones (suc c) zero b le set = absurd (omega arith)
all_ones (suc c) (suc n) b le set = omega (
  arith,
  set 0 (omega arith),
  all_ones c n (b / 2) (omega arith) (λ j lt. sym (bit-suc b j) ∙ set (suc j) (omega arith)),
)

pub no_ones : (n : ℕ) → ones n 0 ≡ 0
unfolding ones
no_ones zero = refl
no_ones (suc n) = omega (arith, no_ones n)

-- The bits of the complement of a word.
pub bit-complement : (w k a : ℕ) → k < w → a < 2 ^ w → bit (2 ^ w - 1 - a) k ≡ 1 - bit a k
bit-complement zero k a lt fits = absurd (omega arith)
bit-complement (suc w) zero a lt fits = omega (arith, pow-suc 2 w)
bit-complement (suc w) (suc k) a lt fits =
    let half : (2 ^ suc w - 1 - a) / 2 ≡ 2 ^ w - 1 - a / 2 = omega (arith, pow-suc 2 w) in
    omega (
      arith,
      bit-suc (2 ^ suc w - 1 - a) k,
      bit-suc a k,
      ap (λ t. bit t k) half,
      bit-complement w k (a / 2) (omega arith) (omega (arith, pow-suc 2 w)),
    )

-- `bits & ~(1 << k)` takes a set bit away.
pub bit_and_clear :
    (w k a : ℕ) → k < w → a < 2 ^ w → bit_and a (2 ^ w - 1 - 2 ^ k) ≡ a - bit a k * 2 ^ k
bit_and_clear zero k a lt fits = absurd (omega arith)
bit_and_clear (suc w) zero a lt fits =
    ap (bit_and a) (omega arith) ∙ bit_and_high (suc w) 1 a (omega arith) fits ∙ omega arith
bit_and_clear (suc w) (suc k) a lt fits = omega (
  arith,
  bit_and_low a (2 ^ suc w - 1 - 2 ^ suc k),
  ap (bit_and (a / 2)) half,
  bit_and_clear w k (a / 2) (omega arith) (omega (arith, pow-suc 2 w)),
  bit-suc a k,
  whole,
  low,
  le,
  pow-suc 2 w,
)
  where
    smaller : 2 ^ suc k ≤ 2 ^ w
    smaller = pow-le-pow_right {n = 2} (omega arith) {i = suc k} {j = w} (omega arith)

    half : (2 ^ suc w - 1 - 2 ^ suc k) / 2 ≡ 2 ^ w - 1 - 2 ^ k
    half = omega (arith, pow-suc 2 w, pow-suc 2 k, smaller)

    low : (2 ^ suc w - 1 - 2 ^ suc k) % 2 ≡ 1
    low = omega (arith, pow-suc 2 w, pow-suc 2 k, smaller, two_pow_pos w)

    whole : bit a (suc k) * 2 ^ suc k ≡ 2 * (bit (a / 2) k * 2 ^ k)
    whole = omega (
      arith,
      ap (λ (t : ℕ). t * 2 ^ suc k) (bit-suc a k),
      ap (λ (t : ℕ). bit (a / 2) k * t) (pow-suc 2 k),
    )

    le : bit (a / 2) k * 2 ^ k ≤ a / 2
    le = grind (arith, clear_bit k (a / 2))

test : (b i : ℕ) → (if bit_and b (2 ^ i) == 0 then 0 else 1) ≡ b / 2 ^ i % 2
test b i = elim (digit (b / 2 ^ i)) [
  | inl clear ↦ ground (arith, bit_and_bit i b, clear)
  | inr set ↦ ground (arith, bit_and_bit i b, set, two_pow_pos i)
]
  where
    digit : (a : ℕ) → (a % 2 ≡ 0) ⊎ (a % 2 ≡ 1)
    digit a = omega arith

pub count_bits-ones : (b i n : ℕ) → count_bits b i n ≡ ones n (b / 2 ^ i)
unfolding count_bits ones
count_bits-ones b i zero = refl
count_bits-ones b i (suc n) =
    let next : b / 2 ^ suc i ≡ b / 2 ^ i / 2 =
      ap (λ t. b / t) (pow-suc 2 i) ∙ sym (div-div-eq-div-mul b (2 ^ i) 2) in
    ap₂ (λ (x y : ℕ). x + y) (test b i) (count_bits-ones b (suc i) n ∙ ap (ones n) next)

-- An odd multiple of 2^n has its lowest one at `n`.
half_odd : (n q : ℕ) → (2 ^ suc n + q * (2 * 2 ^ suc n)) / 2 ≡ 2 ^ n + q * (2 * 2 ^ n)
half_odd n q = omega (arith, pow-suc 2 n, ap (λ (t : ℕ). q * (2 * t)) (pow-suc 2 n), twice)
  where
    twice : q * (2 * (2 ^ n * 2)) ≡ 2 * (q * (2 * 2 ^ n))
    twice = omega arith

pub lowest_set : (n q : ℕ) → bit (2 ^ n + q * (2 * 2 ^ n)) n ≡ 1
lowest_set zero q = omega arith
lowest_set (suc n) q =
    bit-suc (2 ^ suc n + q * (2 * 2 ^ suc n)) n ∙ ap (λ t. bit t n) (half_odd n q) ∙ lowest_set n q

pub below_lowest : (n q j : ℕ) → j < n → bit (2 ^ n + q * (2 * 2 ^ n)) j ≡ 0
below_lowest zero q j lt = absurd (omega arith)
below_lowest (suc n) q zero lt =
    omega (arith, pow-suc 2 n, ap (λ (t : ℕ). q * (2 * t)) (pow-suc 2 n))
below_lowest (suc n) q (suc j) lt =
    bit-suc (2 ^ suc n + q * (2 * 2 ^ suc n)) j
    ∙ ap (λ t. bit t j) (half_odd n q)
    ∙ below_lowest n q j (omega arith)
