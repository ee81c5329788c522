-- ===== src/Timer/Slots.antt =====
-- Into which list of the wheel of src/timer.c a timer goes.
use syslib.Prelude.{
  ℕ, ◌+◌, ◌*◌, ◌/◌, ◌%◌, ◌^◌, ◌≤◌, ◌<◌, ◌≡◌, ◌↔◌, ap, ◌∙◌, arith, some, bit_and, bit_and_shifted,
  bit_and_mask, two_pow_pos, ◌⊎◌, inl, inr, ltb, if◌then◌else◌,
}
use native.Mathlib.Nat.{mul-div_cancel}
use syslib.Timer.{Slot, set0, set, digit, shift_bits, place, place_from}

digit-mod : (n v : ℕ) → digit n v ≡ v / 2 ^ shift_bits n % 64
unfolding digit
digit-mod n v =
    ap (λ t. t / 2 ^ shift_bits n)
      (bit_and_shifted (shift_bits n) v 63
        ∙ ap (λ t. t * 2 ^ shift_bits n) (bit_and_mask 6 (v / 2 ^ shift_bits n)))
    ∙ mul-div_cancel (v / 2 ^ shift_bits n % 64) (two_pow_pos (shift_bits n))

-- The list for a timer that is added at the tick `current` and is due in `delay` ticks: for fewer than
-- 256 ticks the one of `_tv_set0` with that number; for more, of the set in whose range the delay
-- lies, the list with the delay, in units of that set, counted on from the current tick in the same
-- units.
abbrev pub slot_for : (current delay : ℕ) → Slot
slot_for current delay =
    if ltb delay 256
    then set0 delay
    else if ltb delay (2 ^ 14)
    then set 0 ((delay / 2 ^ 8 + current / 2 ^ 8) % 64)
    else if ltb delay (2 ^ 20)
    then set 1 ((delay / 2 ^ 14 + current / 2 ^ 14) % 64)
    else if ltb delay (2 ^ 26)
    then set 2 ((delay / 2 ^ 20 + current / 2 ^ 20) % 64)
    else set 3 ((delay / 2 ^ 26 + current / 2 ^ 26) % 64)

ranges :
    (d : ℕ)
    → d < 2 ^ 32
    → (d < 256)
      ⊎ (((256 ≤ d) × (d < 2 ^ 14))
          ⊎ (((2 ^ 14 ≤ d) × (d < 2 ^ 20)) ⊎ (((2 ^ 20 ≤ d) × (d < 2 ^ 26)) ⊎ (2 ^ 26 ≤ d))))
ranges d hi = omega arith

-- Every delay below 2^32 has the list of `slot_for`.
pub place-slot_for :
    (current diff : ℕ) → diff < 2 ^ 32 → place current diff ≡ some (slot_for current diff)
unfolding place place_from
place-slot_for current diff hi =
    let d0 : digit 0 diff ≡ diff / 2 ^ 8 % 64 = digit-mod 0 diff in
    let d1 : digit 1 diff ≡ diff / 2 ^ 14 % 64 = digit-mod 1 diff in
    let d2 : digit 2 diff ≡ diff / 2 ^ 20 % 64 = digit-mod 2 diff in
    let d3 : digit 3 diff ≡ diff / 2 ^ 26 % 64 = digit-mod 3 diff in
    let mask = λ (n : ℕ). bit_and_mask 6 (digit n diff + digit n current) in
    elim (ranges diff hi) [
      | inl h ↦ ground (arith, bit_and_mask 8 diff)
      | inr (inl h) ↦ ground (arith, mask 0, digit-mod 0 current)
      | inr (inr (inl h)) ↦ ground (arith, mask 1, digit-mod 1 current)
      | inr (inr (inr (inl h))) ↦ ground (arith, mask 2, digit-mod 2 current)
      | inr (inr (inr (inr h))) ↦ ground (arith, mask 3, digit-mod 3 current)
    ]

-- For a timer that is due in fewer than 256 ticks, the list of `_tv_set0` with the low 8 bits of the
-- tick in which it is due is the one that it is put into exactly when the current tick is a multiple
-- of 256.
pub place_on_time :
    (current diff : ℕ)
    → diff < 256
    → (place current diff ≡ some (set0 (bit_and (current + diff) 255))) ↔ (current % 256 ≡ 0)
unfolding place
place_on_time current diff lt = (
  λ e. ground (arith, bit_and_mask 8 diff, bit_and_mask 8 (current + diff)),
  λ e. ground (arith, bit_and_mask 8 diff, bit_and_mask 8 (current + diff)),
)
