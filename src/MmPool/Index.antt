-- ===== src/MmPool/Index.antt =====
-- Which list of src/mmpool.c a payload is taken from.
use syslib.Prelude.{
  ℕ, suc, ◌+◌, ◌-◌, ◌^◌, ◌≤◌, ◌<◌, ◌≡◌, refl, true, false, some, arith, ltb, two_pow_pos, add64,
  sub64, inl, inr,
}
use native.Mathlib.Nat.{pow-le-pow_right}
use syslib.Misc.Power.{
  round_up_2power_least, log_2-power, shift_one-run, exponent_lt, le_or_lt, below,
}
use syslib.MmPool.{Impl, head_tail_size, normalize_block_size, flh_idx}

-- The blocks of the list `idx` have room for the payload with head and tail, and those of a smaller
-- list have not.
pub record IsFit (min_order max_order payload idx : ℕ) : Type 0 where
  pub room : payload + head_tail_size ≤ 2 ^ (min_order + idx)
  pub in_lists : min_order + idx ≤ max_order
  pub least : (smaller : ℕ) → smaller < idx → 2 ^ (min_order + smaller) < payload + head_tail_size

-- In a pool of orders up to 30, `_flh_idx` of a payload for which the largest blocks have room is the
-- list of the smallest blocks that have room.
pub flh_idx-IsFit :
    (s : Impl) (payload : ℕ)
    → s.min_block_order ≤ s.max_block_order
    → s.max_block_order ≤ 30
    → payload + head_tail_size ≤ 2 ^ s.max_block_order
    → (idx : ℕ) × (flh_idx payload s ≡ some (some idx, s))
      × IsFit s.min_block_order s.max_block_order payload idx
unfolding flh_idx normalize_block_size
flh_idx-IsFit s payload order small room =
    let top : 2 ^ s.max_block_order ≤ 2 ^ 30 = pow-le-pow_right (omega arith) {j = 30} small in
    let (n, up, above, least) = round_up_2power_least (payload + 16) (omega arith) (omega arith) in
    let below_max : n < s.max_block_order = exponent_lt n s.max_block_order (omega arith) in
    let not_above : 2 ^ suc n ≤ 2 ^ s.max_block_order =
      pow-le-pow_right {n = 2} (omega arith) {i = suc n} {j = s.max_block_order} below_max in
    let sum : add64 payload 16 ≡ payload + 16 = omega arith in
    let low = shift_one-run s.min_block_order (omega arith) in
    let high = shift_one-run s.max_block_order small in
    let accepted : ltb (2 ^ s.max_block_order) (2 ^ suc n) ≡ false = ground arith in
    elim (le_or_lt s.min_block_order (suc n)) [
      | inl le ↦
          let min_le : 2 ^ s.min_block_order ≤ 2 ^ suc n =
            pow-le-pow_right {n = 2} (omega arith) {i = s.min_block_order} {j = suc n} le in
          let kept : ltb (2 ^ suc n) (2 ^ s.min_block_order) ≡ false = ground arith in
          let idx : sub64 (suc n) s.min_block_order ≡ suc n - s.min_block_order = omega arith in
          let top_of : s.min_block_order + (suc n - s.min_block_order) ≡ suc n = omega arith in
          (
            suc n - s.min_block_order,
            rw (sum, up, low, high, accepted, kept, log_2-power (suc n) (omega arith), idx) refl,
            record {
              room = rw top_of above;
              in_lists = omega arith;
              least = λ smaller lt. omega (
                arith,
                least,
                pow-le-pow_right {n = 2} (omega arith) {i = s.min_block_order + smaller} {j = n}
                    (omega arith),
              );
            },
          )
      | inr gt ↦
          let raised : ltb (2 ^ suc n) (2 ^ s.min_block_order) ≡ true =
            ground (arith, below (suc n) s.min_block_order gt, two_pow_pos (suc n)) in
          let idx : sub64 s.min_block_order s.min_block_order ≡ 0 = omega arith in
          let bottom : s.min_block_order + 0 ≡ s.min_block_order = omega arith in
          (
            0,
            rw
                (
                  sum,
                  up,
                  low,
                  high,
                  accepted,
                  raised,
                  log_2-power s.min_block_order (omega arith),
                  idx,
                )
                refl,
            record {
              room = rw bottom (omega (arith, above, below (suc n) s.min_block_order gt));
              in_lists = omega arith;
              least = λ smaller lt. absurd (omega arith);
            },
          )
    ]
