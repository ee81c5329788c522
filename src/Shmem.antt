-- ===== src/Shmem.antt =====
-- src/shmem.c: blocks of shared memory. The `struct _shmm_blk_impl` stands at the start of an attached
-- segment, the `struct shmm_blk` 8 bytes into it. The calls of the operating system are parameters:
-- `none` is the error return of `shmget` and `shmat`. Of the flags no bit stands twice, so they are
-- summed.
pub mod Blocks
mod Tests
use syslib.Prelude.{
  ℕ, ◌+◌, ◌-◌, ◌*◌, ◌/◌, ◌%◌, ◌^◌, Bool, true, false, not, ◌&&◌, ◌||◌, Option, none, some, List, [],
  ◌∷◌, ◌==◌, ltb, leb, if◌then◌else◌, bit_and, word, add64, sub64, upd,
}
use syslib.Misc.{round_up, move_ptr_roundup}
use syslib.Dlist.{Ptr, null, Code, succeed, fail}

-- The segments as the process sees them, and the addresses that it has handed to `shmdt`, the last
-- one first.
pub record Segments : Type 0 where
  pub shmm_tag : Ptr → ℕ
  pub addr_begin_offset : Ptr → ℕ
  pub addr_end_offset : Ptr → ℕ
  pub the_key : Ptr → ℕ
  pub fd : Ptr → ℕ
  pub detached : List Ptr

-- `shmget` takes a key, a size and flags, `shmat` a segment, an address and flags; `shmctl` says
-- whether the removal of a segment succeeds.
pub record System : Type 0 where
  pub shmget : ℕ → ℕ → ℕ → Option ℕ
  pub shmat : ℕ → Ptr → ℕ → Option Ptr
  pub shmctl : ℕ → Bool

-- SHMM_TAG, SHM_PAGE_SIZE, the two thresholds and `sizeof(struct _shmm_blk_impl)`
abbrev pub shmm_tag_value : ℕ
shmm_tag_value = 0x1234567890abcdef

abbrev pub shm_page_size : ℕ
shm_page_size = 4096

abbrev pub mid_page_threshold : ℕ
mid_page_threshold = 2 ^ 18

abbrev pub huge_page_threshold : ℕ
huge_page_threshold = 2 ^ 28

abbrev pub blk_impl_size : ℕ
blk_impl_size = 80

-- `_conv_blk`
abbrev pub conv_blk : Ptr → Ptr
conv_blk shm = sub64 shm 8

abbrev pub blk_of : Ptr → Ptr
blk_of sbi = add64 sbi 8

unfoldable pub shmm_begin_addr : Segments → Ptr → Ptr
shmm_begin_addr s shm = if shm == null then null else add64 shm (s.addr_begin_offset (conv_blk shm))

unfoldable pub shmm_end_addr : Segments → Ptr → Ptr
shmm_end_addr s shm = if shm == null then null else add64 shm (s.addr_end_offset (conv_blk shm))

abbrev pub shmdt : Ptr → Segments → Segments
shmdt addr s = record s { detached = addr ∷ s.detached }

-- IPC_CREAT, IPC_EXCL, SHM_R and SHM_W, which are S_IRUSR and S_IWUSR; with the huge pages
-- SHM_HUGETLB and the size of the pages.
unfoldable pub create_flag : Bool → ℕ → ℕ
create_flag try_huge_page size =
    512
    + 1024
    + 256
    + 128
    + (if try_huge_page && ltb mid_page_threshold size
        then 2048 + (if leb size huge_page_threshold then 21 * 2 ^ 26 else 30 * 2 ^ 26)
        else 0)

-- The error return of `shmm_create`, where the variable `sbi` has the value `stale`.
abbrev pub create_error : Ptr → Ptr → Segments → Ptr × Segments
create_error stale ret_addr s =
    if not (stale == null) && not (ret_addr == null) then (null, shmdt ret_addr s) else (null, s)

-- The stores of `shmm_create` to the new segment at `sbi`.
unfoldable pub fill_segment : Ptr → (key size fd : ℕ) → Segments → Segments
fill_segment sbi key size fd s = record s {
  shmm_tag = upd s.shmm_tag sbi shmm_tag_value;
  addr_end_offset = upd s.addr_end_offset sbi size;
  addr_begin_offset =
      upd s.addr_begin_offset sbi (sub64 (move_ptr_roundup sbi blk_impl_size shm_page_size) sbi);
  the_key = upd s.the_key sbi key;
  fd = upd s.fd sbi fd;
}

abbrev pub attached : Ptr → (key size fd : ℕ) → Option Ptr → Segments → Ptr × Segments
attached stale key size fd none s = create_error stale (word - 1) s
attached stale key size fd (some ret_addr) s =
    (blk_of ret_addr, fill_segment ret_addr key size fd s)

abbrev pub got : System → Ptr → Ptr → (key size : ℕ) → Option ℕ → Segments → Ptr × Segments
got sys stale at_addr key size none s = create_error stale null s
got sys stale at_addr key size (some fd) s =
    attached stale key size fd (sys.shmat fd at_addr 8192) s

-- Keys are not negative here: a key that is not positive is 0. The check of the address is read as
-- `at_addr & ((SHM_PAGE_SIZE - 1) != 0)`.
unfoldable pub shmm_create :
    System → Ptr → (key : ℕ) → (at_addr : Ptr) → (size : ℕ) → Bool → Segments → Ptr × Segments
unfolding create_flag
shmm_create sys stale key at_addr size try_huge_page s =
    if (key == 0) || (size == 0)
    then create_error stale null s
    else if not (bit_and at_addr 1 == 0)
    then create_error stale null s
    else (let whole = add64 (round_up size shm_page_size) shm_page_size in
        got sys stale at_addr key whole (sys.shmget key whole (create_flag try_huge_page size)) s)

abbrev pub check_opened : (key : ℕ) → Option Ptr → Segments → Ptr × Segments
check_opened key none s = (null, s)
check_opened key (some ret_addr) s =
    if not (s.shmm_tag ret_addr == shmm_tag_value) || not (s.the_key ret_addr == key)
    then (if not (ret_addr == null) then (null, shmdt ret_addr s) else (null, s))
    else (blk_of ret_addr, s)

abbrev pub opened : System → (key : ℕ) → Ptr → Option ℕ → Segments → Ptr × Segments
opened sys key at_addr none s = (null, s)
opened sys key at_addr (some fd) s = check_opened key (sys.shmat fd at_addr 0) s

unfoldable pub shmm_open_raw : System → (key : ℕ) → (at_addr : Ptr) → Segments → Ptr × Segments
shmm_open_raw sys key at_addr s =
    if key == 0
    then (null, s)
    else if not (at_addr == null) && not (bit_and at_addr (shm_page_size - 1) == 0)
    then (null, s)
    else opened sys key at_addr (sys.shmget key 0 (256 + 128)) s

unfoldable pub shmm_open : System → (key : ℕ) → (at_addr : Ptr) → Segments → Ptr × Segments
shmm_open sys key at_addr s = shmm_open_raw sys key (conv_blk at_addr) s

unfoldable pub shmm_close : Ptr → Segments → Code × Segments
shmm_close shm s =
    let sbi = conv_blk shm in
    if (s.addr_begin_offset sbi == 0) || (s.addr_end_offset sbi == 0)
    then (fail, s)
    else if not (s.shmm_tag sbi == shmm_tag_value)
    then (fail, s)
    else (succeed, shmdt shm s)

unfoldable pub shmm_destroy : System → Ptr → Segments → Code × Segments
shmm_destroy sys shm s = if sys.shmctl (s.fd (conv_blk shm)) then shmm_close shm s else (fail, s)
