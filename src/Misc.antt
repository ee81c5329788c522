-- ===== src/Misc.antt =====
-- src/misc.c: powers of two, alignment and the bit scans. An `unsigned long` is a number below
-- 2^64. `none` is a value that C or the processor leaves undefined: `bsr` of 0, and a shift of the
-- `int` 1 by 31 or more.
pub mod Align
pub mod Power
mod Tests
use syslib.Prelude.{
  ℕ, zero, suc, ◌+◌, ◌/◌, ◌%◌, ◌^◌, Bool, Option, none, some, ◌==◌, ltb, if◌then◌else◌, bit_and,
  add64, sub64, not64, leb,
}

infixl 5 ◌>>=◌
abbrev pub ◌>>=◌ : {A B : Type 0} → Option A → (A → Option B) → Option B
none >>= f = none
some a >>= f = f a

-- The position of the highest one among the `n` low bits.
unfoldable pub highest : ℕ → ℕ → ℕ
highest zero v = 0
highest (suc n) v = if ltb v 2 then 0 else suc (highest n (v / 2))

-- The position of the lowest one among the `n` low bits.
lowest : ℕ → ℕ → ℕ
lowest zero v = 0
lowest (suc n) v = if v % 2 == 1 then 0 else suc (lowest n (v / 2))

-- The `bsrq` instruction.
unfoldable pub log_2 : ℕ → Option ℕ
unfolding highest
log_2 v = if v == 0 then none else some (highest 64 v)

-- `none` is the -1 of the source.
pub bsr : ℕ → Option ℕ
unfolding highest
bsr v = if v == 0 then none else some (highest 64 v)

unfoldable pub bsf : ℕ → Option ℕ
unfolding lowest
bsf v = if v == 0 then none else some (lowest 64 v)

-- `1 << n`, on the type `int`.
unfoldable pub shift_one : ℕ → Option ℕ
shift_one n = if ltb n 31 then some (2 ^ n) else none

unfoldable pub round_up_2power : ℕ → Option ℕ
round_up_2power v = do n ← log_2 (sub64 v 1); shift_one (n + 1)

unfoldable pub round_down_2power : ℕ → Option ℕ
round_down_2power v = do n ← log_2 v; shift_one n

unfoldable pub is_2power : ℕ → Option Bool
is_2power v = do up ← round_up_2power v; down ← round_down_2power v; some (up == down)

unfoldable pub align8 : ℕ → ℕ
align8 v = bit_and (add64 v 7) (not64 7)

pub align16 : ℕ → ℕ
align16 v = bit_and (add64 v 15) (not64 15)

unfoldable pub round_up : ℕ → ℕ → ℕ
round_up v boundary = bit_and (sub64 (add64 v boundary) 1) (not64 (sub64 boundary 1))

unfoldable pub round_down : ℕ → ℕ → ℕ
round_down v boundary = bit_and v (not64 (sub64 boundary 1))

-- A pointer is the number of its address.
unfoldable pub move_ptr_align8 : ℕ → ℕ → ℕ
move_ptr_align8 ptr offset = bit_and (add64 (add64 ptr offset) 7) (not64 7)

pub move_ptr_align16 : ℕ → ℕ → ℕ
move_ptr_align16 ptr offset = bit_and (add64 (add64 ptr offset) 15) (not64 15)

unfoldable pub move_ptr_align64 : ℕ → ℕ → ℕ
move_ptr_align64 ptr offset = bit_and (add64 (add64 ptr offset) 63) (not64 63)

pub move_ptr_align128 : ℕ → ℕ → ℕ
move_ptr_align128 ptr offset = bit_and (add64 (add64 ptr offset) 127) (not64 127)

pub move_ptr_roundup : ℕ → ℕ → ℕ → ℕ
move_ptr_roundup ptr offset align =
    bit_and (add64 (add64 ptr offset) (sub64 align 1)) (not64 (sub64 align 1))
