-- ===== src/StkPool/Init.antt =====
-- What `stkp_create` of src/stkpool.c makes: how many frames there are, and the pool.
use syslib.Prelude.{
  ℕ, zero, suc, ◌+◌, ◌*◌, ◌%◌, ◌≤◌, ◌<◌, ◌≡◌, inl, inr, refl, ap, ◌∙◌, false, arith, word, ltb,
  some, add64, sub64, Bool-cases,
}
use native.Mathlib.Nat.{mul_comm, add-mul, mod-eq_of_lt}
use syslib.StkPool.{count_frames}

-- There is room for `n` frames and their nodes between `cur` and `end`.
abbrev pub Room : (cur end size n : ℕ) → Type 0
Room cur end size n = cur + n * 24 + n * size ≤ end

module _ (cur end size : ℕ) (high : size ≤ cur) (top : end + 24 < word) where
  -- While the counts before have had room, nothing in the test wraps.
  test-Room :
      (c : ℕ)
      → Room cur end size c
      → ltb (sub64 end (size * suc c % word)) (add64 cur (suc c * 24 % word))
        ≡ ltb end (cur + suc c * 24 + suc c * size)
  test-Room c room =
      let frames : size * suc c % word ≡ size * suc c =
        mod-eq_of_lt {n = size * suc c} {m = word}
          (omega (arith, mul_comm size (suc c), add-mul c 1 size)) in
      let e : size * suc c ≡ suc c * size = mul_comm size (suc c) in
      let more : suc c * size ≡ c * size + size = omega (arith, add-mul c 1 size) in
      let nodes : add64 cur (suc c * 24 % word) ≡ cur + suc c * 24 = omega arith in
      rw (frames, e, nodes) (ground arith)

  count_frames-from :
      (fuel c : ℕ)
      → Room cur end size c
      → end < fuel + c
      → (n : ℕ) × (count_frames fuel cur end size (suc c) ≡ some n)
        × Room cur end size n
        × (end < cur + suc n * 24 + suc n * size)
  unfolding count_frames
  count_frames-from zero c room h = absurd (omega arith)
  count_frames-from (suc fuel) c room h =
      let back : sub64 (suc c) 1 ≡ c = omega arith in
      let forth : add64 (suc c) 1 ≡ suc (suc c) = omega arith in
      elim (Bool-cases (ltb end (cur + suc c * 24 + suc c * size))) [
        | inl full ↦ (c, rw (test-Room c room, full, back) refl, room, ground arith)
        | inr more ↦
            let (n, run, fits, last) =
              count_frames-from fuel (suc c) (ground arith) (omega arith) in
            (
              n,
              rw (test-Room c room, more) (ap (count_frames fuel cur end size) forth ∙ run),
              fits,
              last,
            )
      ]

  -- For frames of at most `cur` bytes, a begin `cur` not behind `end`, and an end more than 24 below
  -- 2^64, the loop from 0 ends within `end + 2` rounds with the greatest count for which there is room
  -- between `cur` and `end`.
  pub count_frames-greatest :
      (fuel : ℕ)
      → end + 1 < fuel
      → cur ≤ end
      → (n : ℕ) × (count_frames fuel cur end size 0 ≡ some n)
        × Room cur end size n
        × (end < cur + suc n * 24 + suc n * size)
  unfolding count_frames
  count_frames-greatest zero enough le = absurd (omega arith)
  count_frames-greatest (suc fuel) enough le =
      let (n, run, fits, last) = count_frames-from fuel 0 (omega arith) (omega arith) in
      let none : size * 0 % word ≡ 0 = omega arith in
      let start : ltb (sub64 end 0) (add64 cur 0) ≡ false = ground arith in
      (n, rw (none, start) run, fits, last)

pub one_frame :
    (cur end size n : ℕ) → Room cur end size 1 → end < cur + suc n * 24 + suc n * size → 1 ≤ n
one_frame cur end size zero one last = absurd (omega arith)
one_frame cur end size (suc n) one last = omega arith
