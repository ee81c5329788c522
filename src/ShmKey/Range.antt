-- ===== src/ShmKey/Range.antt =====
-- Which keys of src/mmops.c are told apart.
use syslib.Prelude.{ℕ, ◌+◌, ◌-◌, ◌*◌, ◌^◌, ◌≤◌, ◌<◌, ◌≡◌, arith, some}
use syslib.ShmKey.{SubKey, sub_key, mm_create_shm_key}

-- For system numbers up to 4095 an accepted key determines the type, the system number and the
-- sub-key.
pub mm_create_shm_key_injective :
    (t t' s s' : ℕ) (k k' : SubKey) {key : ℕ}
    → s < 4096
    → s' < 4096
    → mm_create_shm_key t s k ≡ some key
    → mm_create_shm_key t' s' k' ≡ some key
    → (t ≡ t') × (s ≡ s') × (sub_key k ≡ sub_key k')
unfolding mm_create_shm_key
mm_create_shm_key_injective t t' s s' k k' h h' e e' = ground arith

-- Every accepted key fits a positive `int`.
pub mm_create_shm_key_bound :
    (t s : ℕ) (k : SubKey) {key : ℕ} → mm_create_shm_key t s k ≡ some key → key < 2 ^ 31
unfolding mm_create_shm_key
mm_create_shm_key_bound t s k e = ground arith

-- The system numbers 4096 to 8191 are accepted too, and a memory space's key is then the key of an
-- IPC segment of another system.
pub mm_create_shm_key_collides :
    (s : ℕ) (k : SubKey)
    → 4096 ≤ s
    → s ≤ 8191
    → (key : ℕ) × (mm_create_shm_key 0 s k ≡ some key)
      × (mm_create_shm_key 1 (s - 4096) k ≡ some key)
unfolding mm_create_shm_key
mm_create_shm_key_collides s k lo hi = (s * 2 ^ 16 + sub_key k, ground arith, ground arith)

-- The key of a channel.
pub channel_key-run : (k : SubKey) → mm_create_shm_key 1 0 k ≡ some (2 ^ 28 + sub_key k)
unfolding mm_create_shm_key
channel_key-run k = ground arith
