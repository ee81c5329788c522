-- ===== src/MmCache/Counts.antt =====
-- The count of free objects and the bits of a slab of src/mmspace.c.
use syslib.Prelude.{
  ℕ, ◌+◌, ◌-◌, ◌*◌, ◌^◌, ◌≤◌, ◌<◌, ◌≡◌, ◌⊎◌, inl, inr, refl, ap, arith, word, not64, some, upd,
  eq→==,
}
use native.Mathlib.Nat.{mul-le-mul_right, pow-le-pow_right, zero-div}
use syslib.Misc.Power.{bsf_odd_multiple, exponent_lt}
use syslib.Dlist.{Ptr}
use syslib.MmCache.{Store, next_free_obj}
use syslib.MmCache.Bits.{
  bit, ones, ones_set, clear_bit, set_fits, all_ones, bit-complement, lowest_set, below_lowest,
}

-- The size of the objects of a slab, and the address of the object `i`.
abbrev pub size : Store → Ptr → ℕ
size s mc = s.obj_size (s.cache mc)

abbrev pub obj : Store → Ptr → ℕ → Ptr
obj s mc i = s.obj_ptr mc + i * size s mc

pub record IsSlab (s : Store) (mc : Ptr) : Type 0 where
  pub small : s.obj_count mc ≤ 64
  pub bits : s.alloc_bits mc < 2 ^ s.obj_count mc
  pub counted : s.free_count mc + ones 64 (s.alloc_bits mc) ≡ s.obj_count mc
  pub sized : 0 < size s mc
  pub placed : 0 < s.obj_ptr mc
  pub short : s.obj_count mc * size s mc < 2 ^ 32
  pub fits : s.obj_ptr mc + s.obj_count mc * size s mc < word

-- The slab with another word of bits and another count of free objects.
abbrev pub with_bits : Store → Ptr → ℕ → ℕ → Store
with_bits s mc b f = record s {
  alloc_bits = upd s.alloc_bits mc b;
  free_count = upd s.free_count mc f;
}

module _ (s : Store) (mc : Ptr) (is : IsSlab s mc) where
  abbrev pub bits : ℕ
  bits = s.alloc_bits mc

  pub word_bits : bits < word
  word_bits = omega (
    arith,
    is.bits,
    pow-le-pow_right {n = 2} (omega arith) {i = s.obj_count mc} {j = 64} is.small,
  )

  complement : (j : ℕ) → j < 64 → bit (not64 bits) j ≡ 1 - bit bits j
  complement j lt = bit-complement 64 j bits lt word_bits

  -- With an object free not all of the bits are set.
  not_all : 0 < s.free_count mc → ((j : ℕ) → j < s.obj_count mc → bit bits j ≡ 1) → ⊥
  not_all some_free set = omega (arith, is.counted, all_ones (s.obj_count mc) 64 bits is.small set)

  some_clear : 0 < s.free_count mc → 0 < not64 bits
  some_clear some_free = elim (zero_or_pos (not64 bits)) [
    | inl e ↦ absurd (
        not_all some_free (λ j lt. omega (
          arith,
          is.small,
          complement j (omega (arith, is.small)),
          ap (λ v. bit v j) e,
          zero-div (2 ^ j),
        )))
    | inr pos ↦ pos
  ]
    where
      zero_or_pos : (n : ℕ) → (n ≡ 0) ⊎ (0 < n)
      zero_or_pos n = omega arith

  -- `bsf` of the complement is the lowest clear bit, and is that of an object.
  pub first_clear :
      0 < s.free_count mc
      → (i : ℕ) × (next_free_obj s mc ≡ some i)
        × (i < s.obj_count mc)
        × (bit bits i ≡ 0)
        × ((j : ℕ) → j < i → bit bits j ≡ 1)
  unfolding next_free_obj
  first_clear some_free =
      let (n, e, (q, odd)) = bsf_odd_multiple (not64 bits) (some_clear some_free) (omega arith) in
      let low : n < 64 = exponent_lt n 64 (omega (arith, odd)) in
      let clear : bit bits n ≡ 0 =
        omega (arith, complement n low, ap (λ v. bit v n) odd, lowest_set n q) in
      let before : (j : ℕ) → j < n → bit bits j ≡ 1 = λ j lt.
        omega (arith, complement j (omega arith), ap (λ v. bit v j) odd, below_lowest n q j lt) in
      elim (le_or_lt (s.obj_count mc) n) [
        | inl le ↦ absurd (not_all some_free (λ j lt. before j (omega arith)))
        | inr lt ↦ (n, rw e (ground arith), lt, clear, before)
      ]
    where
      le_or_lt : (a b : ℕ) → (a ≤ b) ⊎ (b < a)
      le_or_lt a b = omega arith

  pub in_slab : (i : ℕ) → i < s.obj_count mc → (i + 1) * size s mc ≤ s.obj_count mc * size s mc
  in_slab i lt = mul-le-mul_right (size s mc) (omega arith)

  pub set-IsSlab :
      (i : ℕ)
      → i < s.obj_count mc
      → bit bits i ≡ 0
      → 0 < s.free_count mc
      → IsSlab (with_bits s mc (bits + 2 ^ i) (s.free_count mc - 1)) mc
  set-IsSlab i lt clear some_free = record {
    small = is.small;
    bits = ground (arith, eq→== mc mc refl, set_fits (s.obj_count mc) i bits lt is.bits clear);
    counted =
        ground
          (arith, eq→== mc mc refl, ones_set 64 i bits (omega (arith, is.small)) clear, is.counted);
    sized = is.sized;
    placed = is.placed;
    short = is.short;
    fits = is.fits;
  }

  pub clear-IsSlab :
      (i : ℕ)
      → i < s.obj_count mc
      → bit bits i ≡ 1
      → IsSlab (with_bits s mc (bits - 2 ^ i) (s.free_count mc + 1)) mc
  clear-IsSlab i lt set =
      let (le, clear) = clear_bit i bits set in
      record {
        small = is.small;
        bits = ground (arith, eq→== mc mc refl, is.bits);
        counted = ground (
          arith,
          eq→== mc mc refl,
          ones_set 64 i (bits - 2 ^ i) (omega (arith, is.small)) clear,
          is.counted,
          ap (ones 64) same,
        );
        sized = is.sized;
        placed = is.placed;
        short = is.short;
        fits = is.fits;
      }
    where
      same : bits - 2 ^ i + 2 ^ i ≡ bits
      same = omega (arith, clear_bit i bits set)
