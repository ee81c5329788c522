-- ===== src/Misc/Power.antt =====
-- What the bit scans and the rounding to powers of two return (src/misc.c).
use syslib.Prelude.{
  ℕ, zero, suc, ◌+◌, ◌-◌, ◌*◌, ◌/◌, ◌%◌, ◌^◌, ◌≤◌, ◌<◌, ◌≡◌, ◌↔◌, refl, ap, ◌∙◌, true, none, some,
  arith, word, sub64, two_pow_pos, ◌==◌, Bool-cases, eq→==, Bool, Option, ◌⊎◌, inl, inr,
}
use native.Mathlib.Nat.{pow-le-pow_right, pow-suc, pow-succ'}
use syslib.Misc.{
  highest, lowest, log_2, bsr, bsf, shift_one, round_up_2power, round_down_2power, is_2power, ◌>>=◌,
}

highest_lem : (n v : ℕ) → 0 < v → v < 2 ^ n → (2 ^ highest n v ≤ v) × (v < 2 * 2 ^ highest n v)
unfolding highest
highest_lem zero v pos fits = absurd (omega arith)
highest_lem (suc n) v pos fits =
    ground (arith, highest_lem n (v / 2), pow-suc 2 n, pow-suc 2 (highest n (v / 2)))

-- On a non-zero word `log_2` and `bsr` return the same number n with 2^n <= v < 2^(n+1).
pub log_2_bounds :
    (v : ℕ)
    → 0 < v
    → v < word
    → (n : ℕ) × (log_2 v ≡ some n) × (bsr v ≡ some n) × (2 ^ n ≤ v) × (v < 2 * 2 ^ n)
unfolding log_2 bsr
log_2_bounds v pos fits =
    let (low, high) = highest_lem 64 v pos fits in
    (highest 64 v, ground arith, ground arith, low, high)

lowest_lem :
    (n v : ℕ) → 0 < v → v < 2 ^ n → (q : ℕ) × (v ≡ 2 ^ lowest n v + q * (2 * 2 ^ lowest n v))
unfolding lowest
lowest_lem zero v pos fits = absurd (omega arith)
lowest_lem (suc n) v pos fits = elim (Bool-cases (v % 2 == 1)) [
  | inl odd ↦ rw odd (v / 2, ground arith)
  | inr even ↦
      let (q, e) = lowest_lem n (v / 2) (ground arith) (omega (arith, pow-suc 2 n)) in
      rw even (
        q,
        ground (
          arith,
          e,
          pow-succ' 2 (lowest n (v / 2)),
          ap (λ (t : ℕ). q * (2 * t)) (pow-succ' 2 (lowest n (v / 2))),
        ),
      )
]

-- On a non-zero word `bsf` returns the n for which v is an odd multiple of 2^n.
pub bsf_odd_multiple :
    (v : ℕ)
    → 0 < v
    → v < word
    → (n : ℕ) × (bsf v ≡ some n) × ((q : ℕ) × (v ≡ 2 ^ n + q * (2 * 2 ^ n)))
unfolding bsf
bsf_odd_multiple v pos fits = (lowest 64 v, ground arith, lowest_lem 64 v pos fits)

pub le_or_lt : (a b : ℕ) → (a ≤ b) ⊎ (b < a)
le_or_lt a b = omega arith

pub below : (a b : ℕ) → a < b → 2 * 2 ^ a ≤ 2 ^ b
below a b lt =
    omega (arith, pow-succ' 2 a, pow-le-pow_right {n = 2} (omega arith) {i = suc a} {j = b} lt)

pub exponent_lt : (a b : ℕ) → 2 ^ a < 2 ^ b → a < b
exponent_lt a b h = elim (le_or_lt b a) [
  | inl le ↦ absurd (omega (arith, pow-le-pow_right {n = 2} (omega arith) {i = b} {j = a} le))
  | inr lt ↦ lt
]

-- The exponent is determined by the two bounds.
pub exponent_unique : (m n v : ℕ) → 2 ^ m ≤ v → v < 2 * 2 ^ m → 2 ^ n ≤ v → v < 2 * 2 ^ n → m ≡ n
exponent_unique m n v lm hm ln hn = elim (le_or_lt m n) [
  | inl le ↦ elim (le_or_lt n m) [
    | inl ge ↦ omega arith
    | inr lt ↦ absurd (omega (arith, below m n lt))
  ]
  | inr gt ↦ absurd (omega (arith, below n m gt))
]

pub shift_one-run : (n : ℕ) → n ≤ 30 → shift_one n ≡ some (2 ^ n)
unfolding shift_one
shift_one-run n hi = ground arith

pub log_2-power : (k : ℕ) → k ≤ 63 → log_2 (2 ^ k) ≡ some k
log_2-power k hi =
    let pos = two_pow_pos k in
    let fits : 2 ^ k ≤ 2 ^ 63 = pow-le-pow_right (omega arith) {j = 63} hi in
    let (n, e, _, low, high) = log_2_bounds (2 ^ k) pos (omega arith) in
    e ∙ ap some (exponent_unique n k (2 ^ k) low high (omega arith) (omega (arith, pos)))

-- For 2 <= v <= 2^30, `round_up_2power` is the least power of two that is not below v.
pub round_up_2power_least :
    (v : ℕ)
    → 2 ≤ v
    → v ≤ 2 ^ 30
    → (n : ℕ) × (round_up_2power v ≡ some (2 ^ suc n)) × (v ≤ 2 ^ suc n) × (2 ^ n < v)
unfolding round_up_2power shift_one
round_up_2power_least v lo hi =
    let (n, e, _, low, high) = log_2_bounds (v - 1) (omega arith) (omega arith) in
    let small : n < 30 = exponent_lt n 30 (omega arith) in
    let prev : sub64 v 1 ≡ v - 1 = omega arith in
    let next : n + 1 ≡ suc n = omega arith in
    (n, rw (prev, e, next) (ground arith), omega (arith, pow-suc 2 n), omega arith)

-- For 1 <= v < 2^31, `round_down_2power` is the greatest power of two that is not above v.
pub round_down_2power_greatest :
    (v : ℕ)
    → 1 ≤ v
    → v < 2 ^ 31
    → (n : ℕ) × (round_down_2power v ≡ some (2 ^ n)) × (2 ^ n ≤ v) × (v < 2 * 2 ^ n)
unfolding round_down_2power shift_one
round_down_2power_greatest v lo hi =
    let (n, e, _, low, high) = log_2_bounds v (omega arith) (omega arith) in
    let small : n < 31 = exponent_lt n 31 (omega arith) in (n, rw e (ground arith), low, high)

equal_of_answer : (o : Option Bool) (a b : ℕ) → o ≡ some (a == b) → o ≡ some true → a ≡ b
equal_of_answer o a b e h = ground arith

exact_power :
    (m d n v : ℕ)
    → v ≤ 2 ^ suc m
    → 2 ^ m < v
    → 2 ^ d ≤ v
    → v < 2 * 2 ^ d
    → v ≡ 2 ^ n
    → (2 ^ suc m == 2 ^ d) ≡ true
exact_power m d n v above least under greatest e = elim (le_or_lt n (suc m)) [
  | inl le ↦
      let up : m < n = exponent_lt m n (omega arith) in
      let last : suc m ≡ n = omega arith in
      let same : d ≡ n =
        exponent_unique d n v under greatest (omega arith) (omega (arith, two_pow_pos n)) in
      rw (last, same) (eq→== (2 ^ n) (2 ^ n) refl)
  | inr gt ↦ absurd (omega (arith, below (suc m) n gt))
]

-- For 2 <= v <= 2^30, `is_2power` answers whether v is a power of two.
pub is_2power_iff :
    (v : ℕ) → 2 ≤ v → v ≤ 2 ^ 30 → (is_2power v ≡ some true) ↔ ((n : ℕ) × (v ≡ 2 ^ n))
unfolding is_2power
is_2power_iff v lo hi =
    let (m, eu, above, least) = round_up_2power_least v lo hi in
    let (d, ed, under, greatest) = round_down_2power_greatest v (omega arith) (omega arith) in
    let answer : is_2power v ≡ some (2 ^ suc m == 2 ^ d) = rw (eu, ed) in
    (
      λ h. (d, omega (arith, equal_of_answer (is_2power v) (2 ^ suc m) (2 ^ d) answer h)),
      λ (n, e). answer ∙ ap some (exact_power m d n v above least under greatest e),
    )

undefined_of_shift :
    (v u n : ℕ) → sub64 v 1 ≡ u → log_2 u ≡ some n → shift_one (n + 1) ≡ none → is_2power v ≡ none
unfolding is_2power round_up_2power
undefined_of_shift v u n prev e overflow = rw (prev, e, ◌>>=◌, overflow)

-- `is_2power` is undefined for 0, for 1 and for every word above 2^30.
pub is_2power_undefined : (v : ℕ) → v < word → (v ≤ 1) ⊎ (2 ^ 30 < v) → is_2power v ≡ none
unfolding is_2power round_up_2power log_2 shift_one highest
is_2power_undefined zero fits (inl lo) = refl
is_2power_undefined (suc zero) fits (inl lo) = refl
is_2power_undefined (suc (suc v)) fits (inl lo) = absurd (omega arith)
is_2power_undefined v fits (inr hi) =
    let (n, e, _, low, high) = log_2_bounds (v - 1) (omega arith) (omega arith) in
    let large : n < 30 → 2 * 2 ^ n ≤ 2 ^ 30 = below n 30 in
    let overflow : shift_one (n + 1) ≡ none = ground arith in
    undefined_of_shift v (v - 1) n (omega arith) e overflow
