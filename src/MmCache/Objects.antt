-- ===== src/MmCache/Objects.antt =====
-- What `_mm_zfetch_obj` and `_mm_zreturn_obj` of src/mmspace.c do to a slab.
use syslib.Prelude.{
  ◌↔◌, ℕ, ◌+◌, ◌-◌, ◌*◌, ◌/◌, ◌%◌, ◌^◌, ◌≤◌, ◌<◌, ◌≡◌, ◌⊎◌, inl, inr, refl, ap, ◌∙◌, true, false,
  arith, not64, bit_and, add64, bit_and_bit, bit_or_bit, two_pow_pos, ◌==◌, ltb, leb, some, eq→==,
}
use mathlib.Core.Path.{ap₂, fun_ext}
use native.Mathlib.Nat.{add-mul, mod-eq_of_lt, div-eq_of_lt, add-mul-div_right}
use syslib.Dlist.{Ptr, succeed, fail}
use syslib.MmCache.{
  Store, next_free_obj, zfetch_obj, put_obj, zreturn_obj, check_alloc_bits, count_bits,
}
use syslib.MmCache.Bits.{bit, ones, clear_bit, bit_self, bit_and_clear, count_bits-ones}
use syslib.MmCache.Counts.{
  size, obj, IsSlab, with_bits, word_bits, first_clear, in_slab, set-IsSlab, clear-IsSlab,
}

-- `_mm_zfetch_obj` of a slab with an object free.
pub record Fetched (s : Store) (mc : Ptr) (i : ℕ) (t : Store) : Type 0 where
  pub object : i < s.obj_count mc
  pub free : bit (s.alloc_bits mc) i ≡ 0
  pub least : (j : ℕ) → j < i → bit (s.alloc_bits mc) j ≡ 1
  pub after : t ≡ with_bits s mc (s.alloc_bits mc + 2 ^ i) (s.free_count mc - 1)

module _ (s : Store) (mc : Ptr) (is : IsSlab s mc) where
  obj-run :
      (i : ℕ) → i < s.obj_count mc → add64 (s.obj_ptr mc) (i * size s mc % 2 ^ 32) ≡ obj s mc i
  obj-run i lt =
      let inside = in_slab s mc is i lt in
      let offset : i * size s mc % 2 ^ 32 ≡ i * size s mc =
        mod-eq_of_lt (omega (arith, is.short, add-mul i 1 (size s mc))) in
      omega (arith, offset, inside, is.fits, add-mul i 1 (size s mc))

  few : s.obj_count mc < 2 ^ 16
  few = omega (arith, is.small)

  zfetch-run :
      (i : ℕ)
      → 0 < s.free_count mc
      → i < s.obj_count mc
      → bit (s.alloc_bits mc) i ≡ 0
      → next_free_obj s mc ≡ some i
      → zfetch_obj mc s
        ≡ some (obj s mc i, with_bits s mc (s.alloc_bits mc + 2 ^ i) (s.free_count mc - 1))
  unfolding zfetch_obj
  zfetch-run i pos lt clear e =
      let count : (s.free_count mc + 2 ^ 16 - 1) % 2 ^ 16 ≡ s.free_count mc - 1 =
        omega (arith, few, is.counted) in
      rw (e, obj-run i lt, bit_or_bit i (s.alloc_bits mc) clear, count) refl

  -- From a well-formed slab with an object free, the object with the least index that is not
  -- allocated is fetched; it is allocated then, and the slab well-formed.
  pub zfetch_obj-Fetched :
      0 < s.free_count mc
      → (i : ℕ) × ((t : Store) × (zfetch_obj mc s ≡ some (obj s mc i, t))
          × Fetched s mc i t
          × IsSlab t mc)
  zfetch_obj-Fetched pos =
      let (i, e, lt, clear, least) = first_clear s mc is pos in
      (
        i,
        (
          with_bits s mc (s.alloc_bits mc + 2 ^ i) (s.free_count mc - 1),
          zfetch-run i pos lt clear e,
          record { object = lt; free = clear; least = least; after = refl },
          set-IsSlab s mc is i lt clear pos,
        ),
      )

  put-beyond : (i : ℕ) → s.obj_count mc ≤ i → put_obj mc i s ≡ some (fail, s)
  unfolding put_obj
  put-beyond i le = let e : leb (s.obj_count mc) i ≡ true = ground arith in rw e refl

  put-clear :
      (i : ℕ) → i < s.obj_count mc → bit (s.alloc_bits mc) i ≡ 0 → put_obj mc i s ≡ some (fail, s)
  unfolding put_obj
  put-clear i lt clear =
      let e : leb (s.obj_count mc) i ≡ false = ground arith in
      let f : bit_and (s.alloc_bits mc) (2 ^ i) ≡ 0 =
        omega (arith, bit_and_bit i (s.alloc_bits mc), ap (λ (b : ℕ). b * 2 ^ i) clear) in
      rw (e, f) refl

  put-set :
      (i : ℕ)
      → i < s.obj_count mc
      → bit (s.alloc_bits mc) i ≡ 1
      → put_obj mc i s
        ≡ some (succeed, with_bits s mc (s.alloc_bits mc - 2 ^ i) (s.free_count mc + 1))
  unfolding put_obj
  put-set i lt set =
      let e : leb (s.obj_count mc) i ≡ false = ground arith in
      let one : bit (s.alloc_bits mc) i * 2 ^ i ≡ 2 ^ i =
        omega (arith, ap (λ (b : ℕ). b * 2 ^ i) set) in
      let f : bit_and (s.alloc_bits mc) (2 ^ i) ≡ 2 ^ i = bit_and_bit i (s.alloc_bits mc) ∙ one in
      let g : (2 ^ i == 0) ≡ false = ground (arith, two_pow_pos i) in
      let h : bit_and (s.alloc_bits mc) (not64 (2 ^ i)) ≡ s.alloc_bits mc - 2 ^ i =
        bit_and_clear 64 i (s.alloc_bits mc) (omega (arith, is.small)) (word_bits s mc is)
        ∙ ap (λ (b : ℕ). s.alloc_bits mc - b) one in
      let (some_free, _) = clear_bit i (s.alloc_bits mc) set in
      let count : (s.free_count mc + 1) % 2 ^ 16 ≡ s.free_count mc + 1 =
        omega (arith, few, is.counted) in
      rw (e, f, g, h, count) refl

  -- From an address in the object `i` the return leads to `i`.
  zreturn-run : (i d : ℕ) → d < size s mc → zreturn_obj mc (obj s mc i + d) s ≡ put_obj mc i s
  unfolding zreturn_obj
  zreturn-run i d inside =
      let above : ltb (obj s mc i + d) (s.obj_ptr mc) ≡ false = ground arith in
      let some_size : (size s mc == 0) ≡ false = ground (arith, is.sized) in
      let offset : obj s mc i + d - s.obj_ptr mc ≡ d + i * size s mc = omega arith in
      let index : (d + i * size s mc) / size s mc ≡ i =
        add-mul-div_right d i is.sized ∙ omega (arith, div-eq_of_lt inside) in
      rw (above, some_size, offset, index) refl

  -- For any address from the objects of a well-formed slab on, which lies in the place of a number
  -- `i`, `_mm_zreturn_obj` succeeds if `i` is an object that is allocated: it is free then, and the
  -- slab well-formed. Otherwise it fails and changes nothing.
  pub zreturn_obj_answer :
      (i d : ℕ)
      → d < size s mc
      → ((i < s.obj_count mc)
          × (bit (s.alloc_bits mc) i ≡ 1)
          × ((t : Store) × (zreturn_obj mc (obj s mc i + d) s ≡ some (succeed, t))
              × (t ≡ with_bits s mc (s.alloc_bits mc - 2 ^ i) (s.free_count mc + 1))
              × IsSlab t mc))
        ⊎ (((s.obj_count mc ≤ i) ⊎ (bit (s.alloc_bits mc) i ≡ 0))
            × (zreturn_obj mc (obj s mc i + d) s ≡ some (fail, s)))
  zreturn_obj_answer i d inside = elim (le_or_lt (s.obj_count mc) i) [
    | inl le ↦ inr (inl le, zreturn-run i d inside ∙ put-beyond i le)
    | inr lt ↦ elim (digit (s.alloc_bits mc / 2 ^ i)) [
      | inl clear ↦ inr (inr clear, zreturn-run i d inside ∙ put-clear i lt clear)
      | inr set ↦ inl (
        lt,
        set,
        (
          with_bits s mc (s.alloc_bits mc - 2 ^ i) (s.free_count mc + 1),
          zreturn-run i d inside ∙ put-set i lt set,
          refl,
          clear-IsSlab s mc is i lt set,
        ),
      )
    ]
  ]
    where
      le_or_lt : (a b : ℕ) → (a ≤ b) ⊎ (b < a)
      le_or_lt a b = omega arith

      digit : (a : ℕ) → (a % 2 ≡ 0) ⊎ (a % 2 ≡ 1)
      digit a = omega arith

-- What `_check_alloc_bits` accepts is what a well-formed slab has: as many ones as objects are not
-- free.
pub check_alloc_bits_iff :
    (s : Store) (mc : Ptr)
    → (check_alloc_bits s mc ≡ succeed)
      ↔ (s.free_count mc + ones 64 (s.alloc_bits mc) ≡ s.obj_count mc)
unfolding check_alloc_bits
check_alloc_bits_iff s mc =
    let e : count_bits (s.alloc_bits mc) 0 64 ≡ ones 64 (s.alloc_bits mc) =
      count_bits-ones (s.alloc_bits mc) 0 64 ∙ ap (ones 64) (omega arith) in
    (λ h. ground (arith, e), λ h. ground (arith, e))

abbrev pub taken : Store → Ptr → ℕ → Store
taken s mc i = with_bits s mc (s.alloc_bits mc + 2 ^ i) (s.free_count mc - 1)

restored :
    (s : Store) (mc : Ptr) (i : ℕ)
    → 0 < s.free_count mc
    → (let t = taken s mc i in with_bits t mc (t.alloc_bits mc - 2 ^ i) (t.free_count mc + 1)) ≡ s
restored s mc i pos =
    ap₂ (λ bits free. record s { alloc_bits = bits; free_count = free })
      (fun_ext λ q. ground (arith, eq→== mc mc refl))
      (fun_ext λ q. ground (arith, eq→== mc mc refl))

-- An object that is fetched and returned leaves the slab, and all of the store, as it was.
pub zreturn_obj-zfetch_obj :
    (s : Store) (mc : Ptr)
    → IsSlab s mc
    → 0 < s.free_count mc
    → (p : Ptr) × ((t : Store) × (zfetch_obj mc s ≡ some (p, t))
        × (zreturn_obj mc p t ≡ some (succeed, s)))
zreturn_obj-zfetch_obj s mc is pos =
    let (i, e, lt, clear, _) = first_clear s mc is pos in
    let t = taken s mc i in
    let is' = set-IsSlab s mc is i lt clear pos in
    let start : obj t mc i ≡ obj t mc i + 0 = omega arith in
    let set : bit (t.alloc_bits mc) i ≡ 1 =
      ground (arith, eq→== mc mc refl, bit_self i (s.alloc_bits mc) clear) in
    (
      obj s mc i,
      (
        t,
        zfetch-run s mc is i pos lt clear e,
        ap (λ p. zreturn_obj mc p t) start
            ∙ zreturn-run t mc is' i 0 is.sized
            ∙ put-set t mc is' i lt set
            ∙ ap (λ r. some (succeed, r)) (restored s mc i pos),
      ),
    )
