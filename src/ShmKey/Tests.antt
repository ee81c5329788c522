-- ===== src/ShmKey/Tests.antt =====
-- Keys of src/mmops.c.
use syslib.Prelude.{ℕ, ◌+◌, ◌*◌, ◌^◌, ◌≡◌, refl, some}
use syslib.ShmKey.{SubKey, mm_create_shm_key}

abbrev area : SubKey
area = record { ar_idx = 3; ar_type = 1 }

-- An index is a byte.
abbrev same_area : SubKey
same_area = record { ar_idx = 259; ar_type = 1 }

abbrev ipc : ℕ
ipc = 1

abbrev system : ℕ
system = 7

abbrev its_key : ℕ
its_key = 2 ^ 28 + 7 * 2 ^ 16 + 259

its_key_lem :
    (mm_create_shm_key ipc system area ≡ some its_key)
    × (mm_create_shm_key ipc system same_area ≡ some its_key)
unfolding mm_create_shm_key
its_key_lem = (refl, refl)
