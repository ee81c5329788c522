-- ===== src/ShmKey.antt =====
-- src/mmops.c and the key types of inc/mmops.h: the keys of shared memory segments.
pub mod Range
mod Tests
use syslib.Prelude.{ℕ, ◌+◌, ◌-◌, ◌*◌, ◌%◌, ◌^◌, Option, none, some, ltb, leb, if◌then◌else◌}

-- MM_SHM_COUNT: the types are MM_SHM_MEMORY_SPACE = 0 and MM_SHM_IPC = 1.
abbrev pub shm_count : ℕ
shm_count = 2

abbrev pub shm_type_shift : ℕ
shm_type_shift = 28

abbrev pub shm_sysid_shift : ℕ
shm_sysid_shift = 16

-- `union shmm_sub_key`: its two byte fields, packed, and its two views of the whole.
pub record SubKey : Type 0 where
  pub ar_idx : ℕ
  pub ar_type : ℕ

abbrev pub sub_key : SubKey → ℕ
sub_key k = k.ar_idx % 2 ^ 8 + k.ar_type % 2 ^ 8 * 2 ^ 8

-- `none` is the -1 of the source; the arguments are not negative.
pub mm_create_shm_key : (shm_type sys_id : ℕ) → SubKey → Option ℕ
mm_create_shm_key shm_type sys_id k =
    if leb shm_count shm_type
    then none
    else if ltb (2 ^ (shm_type_shift - shm_sysid_shift + 1) - 1) sys_id
    then none
    else some (shm_type * 2 ^ 28 + sys_id * 2 ^ 16 + sub_key k)
