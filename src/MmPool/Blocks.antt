-- ===== src/MmPool/Blocks.antt =====
-- The head and the tail of a block of src/mmpool.c lead to each other.
use syslib.Prelude.{
  ℕ, ◌+◌, ◌^◌, ◌≤◌, ◌<◌, ◌≡◌, refl, ◌∙◌, some, arith, eq→==, word, add64, sub64, upd,
}
use native.Mathlib.Nat.{pow-le-pow_right}
use syslib.Misc.Power.{is_2power_iff}
use syslib.MmPool.{Impl, tail_mark, get_tail, prev_block, next_block, fill_block, make_block}

pub two_powers : (n : ℕ) → n ≤ 30 → 2 ^ n ≤ 2 ^ 30
two_powers n hi = pow-le-pow_right (omega arith) {j = 30} hi

pub make_block-run :
    (bh n : ℕ) (s : Impl) → 1 ≤ n → n ≤ 30 → make_block bh (2 ^ n) s ≡ fill_block bh (2 ^ n) 0 s
unfolding make_block
make_block-run bh n s lo hi =
    let low : 2 ≤ 2 ^ n = pow-le-pow_right {n = 2} (omega arith) {i = 1} {j = n} lo in
    let (_, power) = is_2power_iff (2 ^ n) low (two_powers n hi) in rw (power (n, refl)) refl

pub upd_at : {A : Type 0} (f : ℕ → A) (p q : ℕ) (v : A) → q ≡ p → upd f p v q ≡ v
upd_at f p q v e = rw (eq→== q p e) refl

-- What is read of a block at `bh` of a size from 16 on, as it is made.
pub record IsTagged (s : Impl) (bh size : ℕ) : Type 0 where
  pub head : s.block_size bh ≡ size
  pub unused : s.flag bh ≡ 0
  pub next : next_block s bh ≡ bh + size
  pub prev_of_next : prev_block s (next_block s bh) ≡ bh
  pub label : s.tail_label (get_tail s bh) ≡ tail_mark
  pub tail : s.tail_size (get_tail s bh) ≡ s.block_size bh

module _ (bh size : ℕ) (s : Impl) (lo : 16 ≤ size) (fits : bh + size < word) where
  next_at : add64 bh size ≡ bh + size
  next_at = omega (arith, fits)

  abbrev made : Impl
  made = record s {
    block_size = upd s.block_size bh size;
    flag = upd s.flag bh 0;
    tail_label = upd s.tail_label (sub64 (add64 bh size) 8) tail_mark;
    tail_size = upd s.tail_size (sub64 (add64 bh size) 8) size;
  }

  fill_run : fill_block bh size 0 s ≡ some (bh, made)
  unfolding fill_block
  fill_run = refl

  made-IsTagged : IsTagged made bh size
  unfolding next_block prev_block get_tail
  made-IsTagged =
      let size_at : upd s.block_size bh size bh ≡ size = upd_at s.block_size bh bh size refl in
      let tail = upd_at s.tail_size (sub64 (bh + size) 8) (sub64 (bh + size) 8) size refl in
      let label = upd_at s.tail_label (sub64 (bh + size) 8) (sub64 (bh + size) 8) tail_mark refl in
      record {
        head = size_at;
        unused = upd_at s.flag bh bh 0 refl;
        next = rw (size_at, next_at) refl;
        prev_of_next = rw (size_at, next_at, tail) (omega (arith, fits));
        label = rw (size_at, next_at, label) refl;
        tail = rw (size_at, next_at, tail) refl;
      }

-- A block of 2^n bytes that `_make_block` makes, 4 <= n <= 30 and inside the addresses, is free, its
-- next block is 2^n bytes on, the previous block of that is the block itself, and its tail holds the
-- label and the size that `mmp_free` checks.
pub prev_block-next_block :
    (bh n : ℕ) (s : Impl)
    → 4 ≤ n
    → n ≤ 30
    → bh + 2 ^ n < word
    → (s' : Impl) × (make_block bh (2 ^ n) s ≡ some (bh, s')) × IsTagged s' bh (2 ^ n)
prev_block-next_block bh n s lo hi fits =
    let lo' : 16 ≤ 2 ^ n = pow-le-pow_right {n = 2} (omega arith) {i = 4} {j = n} lo in
    (
      made bh (2 ^ n) s lo' fits,
      make_block-run bh n s (omega arith) hi ∙ fill_run bh (2 ^ n) s lo' fits,
      made-IsTagged bh (2 ^ n) s lo' fits,
    )
