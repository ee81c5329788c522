-- ===== src/Misc/Align.antt =====
-- What rounding to a power of two returns (src/misc.c).
use syslib.Prelude.{
  ℕ, ◌+◌, ◌-◌, ◌/◌, ◌%◌, ◌^◌, ◌≤◌, ◌<◌, ◌≡◌, ap, ◌∙◌, arith, word, add64, sub64, not64, bit_and,
  bit_and_high, two_pow_pos,
}
use native.Mathlib.Nat.{pow-le-pow_right, mod-lt, mul-mod_right, div-add-mod}
use syslib.Misc.{
  align8, align16, round_up, round_down, move_ptr_align8, move_ptr_align16, move_ptr_align64,
  move_ptr_align128, move_ptr_roundup,
}

-- `r` is the least multiple of `m` from `v` on.
pub record IsCeil (m v r : ℕ) : Type 0 where
  pub multiple : r % m ≡ 0
  pub above : v ≤ r
  pub least : r < v + m

-- `r` is the greatest multiple of `m` up to `v`.
pub record IsFloor (m v r : ℕ) : Type 0 where
  pub multiple : r % m ≡ 0
  pub below : r ≤ v
  pub greatest : v < r + m

-- Clearing the `k` low bits of a word goes down to a multiple of `2^k`.
pub clear-IsFloor : (k v : ℕ) → k ≤ 64 → v < word → IsFloor (2 ^ k) v (bit_and v (word - 2 ^ k))
clear-IsFloor k v small fits =
    rw (bit_and_high 64 k v small fits)
      (record { multiple = multiple; below = omega arith; greatest = omega (arith, rest) })
  where
    rest : v % 2 ^ k < 2 ^ k
    rest = mod-lt v (two_pow_pos k)

    multiple : (v - v % 2 ^ k) % 2 ^ k ≡ 0
    multiple =
        ap (λ t. t % 2 ^ k) (omega (arith, div-add-mod v (2 ^ k)))
        ∙ mul-mod_right (2 ^ k) (v / 2 ^ k)

module _ (k v : ℕ) (small : k < 64) where
  two_pow_le : 2 ^ k ≤ 2 ^ 63
  two_pow_le = pow-le-pow_right (omega arith) {j = 63} (omega arith)

  -- For a boundary 2^k with k < 64, `round_down` of a word is the greatest multiple of the
  -- boundary that is not above it.
  pub round_down-IsFloor : v < word → IsFloor (2 ^ k) v (round_down v (2 ^ k))
  unfolding round_down
  round_down-IsFloor fits = rw mask (clear-IsFloor k v (omega arith) fits)
    where
      mask : not64 (sub64 (2 ^ k) 1) ≡ word - 2 ^ k
      mask = omega (arith, two_pow_le, two_pow_pos k)

  ceil : {r : ℕ} → IsFloor (2 ^ k) (v + 2 ^ k - 1) r → IsCeil (2 ^ k) v r
  ceil f = record {
    multiple = f.multiple;
    above = omega (arith, two_pow_pos k);
    least = omega (arith, two_pow_pos k);
  }

  -- For a boundary 2^k with k < 64 and no overflow, `round_up` is the least multiple of the boundary
  -- that is not below the value.
  pub round_up-IsCeil : v + 2 ^ k ≤ word → IsCeil (2 ^ k) v (round_up v (2 ^ k))
  unfolding round_up
  round_up-IsCeil fits =
      rw (mask, sum) (ceil (clear-IsFloor k _ (omega arith) (omega (arith, two_pow_pos k))))
    where
      mask : not64 (sub64 (2 ^ k) 1) ≡ word - 2 ^ k
      mask = omega (arith, two_pow_le, two_pow_pos k)

      sum : sub64 (add64 v (2 ^ k)) 1 ≡ v + 2 ^ k - 1
      sum = omega (arith, two_pow_le, two_pow_pos k)

-- `align8`, `align16` and the `move_ptr` functions are `round_up` of their sum, for every word.
pub align-eq-round_up :
    (v ptr offset align : ℕ)
    → 0 < align
    → align < word
    → (align8 v ≡ round_up v 8)
      × (align16 v ≡ round_up v 16)
      × (move_ptr_align8 ptr offset ≡ round_up (add64 ptr offset) 8)
      × (move_ptr_align16 ptr offset ≡ round_up (add64 ptr offset) 16)
      × (move_ptr_align64 ptr offset ≡ round_up (add64 ptr offset) 64)
      × (move_ptr_align128 ptr offset ≡ round_up (add64 ptr offset) 128)
      × (move_ptr_roundup ptr offset align ≡ round_up (add64 ptr offset) align)
unfolding align8 align16 move_ptr_align8 move_ptr_align16 move_ptr_align64 move_ptr_align128
    move_ptr_roundup round_up
align-eq-round_up v ptr offset align pos fits = (
  ap (λ t. bit_and t (not64 7)) (omega arith),
  ap (λ t. bit_and t (not64 15)) (omega arith),
  ap (λ t. bit_and t (not64 7)) (omega arith),
  ap (λ t. bit_and t (not64 15)) (omega arith),
  ap (λ t. bit_and t (not64 63)) (omega arith),
  ap (λ t. bit_and t (not64 127)) (omega arith),
  ap (λ t. bit_and t (not64 (sub64 align 1))) (omega arith),
)
