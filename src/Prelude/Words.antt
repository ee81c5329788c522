-- ===== src/Prelude/Words.antt =====
-- `unsigned long`: sums and differences wrap at 2^64, `~` flips 64 bits.
use Prim.Native.Nat.{ℕ, ◌+◌, ◌-◌, ◌%◌, ◌^◌}

abbrev pub word : ℕ
word = 2 ^ 64

abbrev pub add64 : ℕ → ℕ → ℕ
add64 a b = (a + b) % word

abbrev pub sub64 : ℕ → ℕ → ℕ
sub64 a b = (a + word - b) % word

abbrev pub not64 : ℕ → ℕ
not64 a = word - 1 - a
