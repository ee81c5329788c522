-- ===== src/MmPool/Fill.antt =====
-- How far the loops of `_mmp_init_chunk` of src/mmpool.c run.
use syslib.Prelude.{
  ℕ, zero, suc, ◌+◌, ◌/◌, ◌^◌, ◌≤◌, ◌<◌, ◌≡◌, refl, Option, some, true, false, ◌&&◌, arith, ltb,
  word, add64, Bool-cases, inl, inr, two_pow_pos,
}
use native.Mathlib.Nat.{pow-suc, pow-le-pow_right, mul-le-mul}
use syslib.Misc.{shift_one}
use syslib.Dlist.{Ptr, Code, succeed, fail}
use syslib.MmPool.{Impl, M, block_size_by_idx, lifted}
use syslib.MmPool.Calls.{mmp_init_block, on_success, fill_size, fill_chunk}
use syslib.MmPool.Keeps.{Post, ends_bind, any}

-- The loop has ended.
abbrev pub Ended : {A : Type 0} → Option A → Impl → Type 0
Ended {A} r s = (a : A) × (r ≡ some a)

carried_on :
    {A : Type 0} (stop : A) (code : Code) (rest : M (Option A)) (t : Impl)
    → Post Ended (rest t)
    → Post Ended (on_success (some stop) code rest t)
carried_on stop fail rest t e = (stop, refl)
carried_on stop succeed rest t e = e

-- For blocks that are not empty, and addresses that do not wrap behind the end, `f` + 1 rounds are
-- enough for the blocks of one size when the end lies less than `f` bytes behind `chk2`.
fill_size-Ended :
    (f : ℕ) (mmpi : Ptr) (idx blk end : ℕ) (chk1 chk2 : Ptr) (s : Impl)
    → 1 ≤ blk
    → end + blk < word
    → end < chk2 + f
    → Post Ended (fill_size (suc f) mmpi idx blk end chk1 chk2 s)
unfolding fill_size
fill_size-Ended zero mmpi idx blk end chk1 chk2 s pos fits near =
    let done : ltb end chk2 ≡ true = ground arith in rw done ((succeed, chk1, chk2), refl)
fill_size-Ended (suc f) mmpi idx blk end chk1 chk2 s pos fits near =
    elim (Bool-cases (ltb end chk2)) [
      | inl done ↦ rw done ((succeed, chk1, chk2), refl)
      | inr on ↦ rw on (
          ends_bind (λ _ _. Unit {0}) Ended (mmp_init_block mmpi chk1 idx s) _
            (any (mmp_init_block mmpi chk1 idx s))
            λ code t _.
              carried_on (fail, chk1, chk2) code _ t
                (fill_size-Ended f mmpi idx blk end chk2 (add64 chk2 blk) t pos fits (nearer on)))
    ]
  where
    nearer : ltb end chk2 ≡ false → end < add64 chk2 blk + f
    nearer on = ground arith

abbrev Within : ℕ → ℕ → Impl → Type 0
Within top v s = (1 ≤ v) × (v ≤ top)

power_bounds : (n : ℕ) (s : Impl) → Post (Within (2 ^ 30)) (lifted (shift_one n) s)
unfolding shift_one
power_bounds n s = elim (Bool-cases (ltb n 31)) [
  | inl small ↦
      rw small
        (two_pow_pos n, pow-le-pow_right {n = 2} (omega arith) {i = n} {j = 30} (ground arith))
  | inr big ↦ rw big tt
]

size_bounds : (idx : ℕ) (s : Impl) → Post (Within (2 ^ 60)) (block_size_by_idx idx s)
unfolding block_size_by_idx
size_bounds idx s =
    ends_bind (Within (2 ^ 30)) (Within (2 ^ 60)) (lifted (shift_one s.min_block_order) s) _
      (power_bounds s.min_block_order s)
      λ low t (l, h).
        ends_bind (Within (2 ^ 30)) (Within (2 ^ 60)) (lifted (shift_one idx) t) _
          (power_bounds idx t) λ n u (l', h'). (mul-le-mul l l', mul-le-mul h h')

-- For a chunk that ends more than 2^60 bytes before the last address, and at an address below
-- `rounds`, and an index below 2^f, `f` + 1 rounds of fuel are enough for the loops of
-- `_mmp_init_chunk` over the sizes and their blocks: they end, unless they stop at a fault.
pub fill_chunk-Ended :
    (rounds f : ℕ) (mmpi : Ptr) (idx end : ℕ) (chk1 chk2 : Ptr) (s : Impl)
    → end + 2 ^ 60 < word
    → end + 1 < rounds
    → idx < 2 ^ f
    → Post Ended (fill_chunk rounds (suc f) mmpi idx end chk1 chk2 s)
unfolding fill_chunk
fill_chunk-Ended rounds zero mmpi idx end chk1 chk2 s fits near below =
    let done : ltb 0 idx ≡ false = ground arith in rw done (succeed, refl)
fill_chunk-Ended zero (suc f) mmpi idx end chk1 chk2 s fits near below = absurd (omega arith)
fill_chunk-Ended (suc rounds) (suc f) mmpi idx end chk1 chk2 s fits near below =
    elim (Bool-cases (ltb 0 idx && (ltb chk1 end && ltb chk2 end))) [
      | inl goes ↦ rw goes (
          ends_bind (Within (2 ^ 60)) Ended (block_size_by_idx idx s) _ (size_bounds idx s)
            λ blk t (pos, top).
              ends_bind Ended Ended
                (fill_size (suc rounds) mmpi idx blk end chk1 (add64 chk1 blk) t) _
                (fill_size-Ended rounds mmpi idx blk end chk1 (add64 chk1 blk) t pos
                  (omega (arith, fits, top)) (omega (arith, near)))
                λ r u ((code, c1, c2), e). rw e (
                  carried_on fail code _ u
                    (fill_chunk-Ended (suc rounds) f mmpi (idx / 2) end c1 c2 u fits near half)))
      | inr over ↦ rw over (succeed, refl)
    ]
  where
    half : idx / 2 < 2 ^ f
    half = omega (arith, below, pow-suc 2 f)
