-- ===== src/MmPool/Buddies.antt =====
-- Which blocks of src/mmpool.c are merged.
use syslib.Prelude.{
  ℕ, suc, ◌+◌, ◌-◌, ◌*◌, ◌/◌, ◌%◌, ◌^◌, ◌≤◌, ◌<◌, ◌≡◌, ◌↔◌, refl, ap, sym, ◌∙◌, true, arith, ◌==◌,
  eq→==, word, sub64, bit_and_high, two_pow_pos,
}
use native.Mathlib.Nat.{pow-le-pow_right, pow-suc, mul-div_cancel_left, div-add-mod}
use syslib.MmPool.{Impl}
use syslib.MmPool.Merge.{are_buddies}

-- Two offsets agree above the low `k` bits exactly when their quotients are the same.
masked : (a c m : ℕ) → 0 < m → (a - a % m ≡ c - c % m) ↔ (a / m ≡ c / m)
masked a c m pos = (
  λ h.
      sym (mul-div_cancel_left (a / m) pos)
      ∙ ap (λ t. t / m) (omega (arith, h, div-add-mod a m, div-add-mod c m))
      ∙ mul-div_cancel_left (c / m) pos,
  λ e. omega (arith, div-add-mod a m, div-add-mod c m, ap (λ t. m * t) e),
)

same_test : {x y : ℕ} {P : Type 0} → (x ≡ y) ↔ P → ((x == y) ≡ true) ↔ P
same_test {x} {y} (f, g) = (λ h. f (ground arith), λ p. eq→== x y (g p))

-- Of two free blocks of 2^n bytes, n <= 30, behind the start of the chunk, `_merge_buddy_next` and
-- `_merge_buddy_prev` go on exactly when they are in the same block of twice the size.
pub are_buddies_iff :
    (s : Impl) (a c n : ℕ)
    → n ≤ 30
    → s.chunk_addr + a < word
    → s.chunk_addr + c < word
    → s.block_size (s.chunk_addr + a) ≡ 2 ^ n
    → s.block_size (s.chunk_addr + c) ≡ 2 ^ n
    → s.flag (s.chunk_addr + a) ≡ 0
    → s.flag (s.chunk_addr + c) ≡ 0
    → (are_buddies s (s.chunk_addr + a) (s.chunk_addr + c) ≡ true) ↔ (a / 2 ^ suc n ≡ c / 2 ^ suc n)
unfolding are_buddies
are_buddies_iff s a c n small fits_a fits_c size_a size_c flag_a flag_c =
    let double : 2 ^ n * 2 % 2 ^ 32 ≡ 2 ^ suc n =
      omega (arith, pow-suc 2 n, pow-le-pow_right {n = 2} (omega arith) {i = n} {j = 30} small) in
    let bound : 2 ^ suc n ≤ 2 ^ 31 =
      pow-le-pow_right {n = 2} (omega arith) {i = suc n} {j = 31} (omega arith) in
    let mask : sub64 0 (2 ^ suc n) ≡ 2 ^ 64 - 2 ^ suc n =
      omega (arith, bound, two_pow_pos (suc n)) in
    let off_a : sub64 (s.chunk_addr + a) s.chunk_addr ≡ a = omega (arith, fits_a) in
    let off_c : sub64 (s.chunk_addr + c) s.chunk_addr ≡ c = omega (arith, fits_c) in
    let high_a = bit_and_high 64 (suc n) a (omega arith) (omega (arith, fits_a)) in
    let high_c = bit_and_high 64 (suc n) c (omega arith) (omega (arith, fits_c)) in
    rw
      (
        flag_a,
        flag_c,
        size_a,
        size_c,
        double,
        mask,
        off_a,
        off_c,
        high_a,
        high_c,
        eq→== (2 ^ n) (2 ^ n) refl,
      )
      (same_test (masked a c (2 ^ suc n) (two_pow_pos (suc n))))
