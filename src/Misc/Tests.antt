-- ===== src/Misc/Tests.antt =====
-- The functions of src/misc.c on some words.
use syslib.Prelude.{ℕ, ◌^◌, ◌≡◌, ◌↔◌, arith, some, true}
use syslib.Misc.{is_2power}
use syslib.Misc.Power.{is_2power_iff}

is_2power_iff_example : (is_2power 4096 ≡ some true) ↔ ((n : ℕ) × (4096 ≡ 2 ^ n))
is_2power_iff_example = is_2power_iff 4096 (omega arith) (omega arith)
