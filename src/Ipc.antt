-- ===== src/Ipc.antt =====
-- src/ipc.c: a channel is a ring of bytes in a block of shared memory, which is found by a key that is
-- made of the number of the channel. A peer is an object of a cache; what the cache returns is a
-- parameter, and the count of the objects that are taken is kept.
pub mod Peers
mod Tests
use syslib.Prelude.{
  ℕ, suc, ◌-◌, ◌/◌, ◌%◌, ◌^◌, Bool, true, false, not, ◌||◌, Option, none, some, List, [], ◌∷◌, ◌==◌,
  if◌then◌else◌, sub64, ◌+◌, leb, length,
}
use syslib.Dlist.{Ptr, null, Code, succeed, fail}
use syslib.ShmKey.{SubKey, mm_create_shm_key}
use syslib.RingBuf.{Ring, rbuf_create, rbuf_write_block, rbuf_read_block}
use syslib.Shmem.{
  Segments, System, shmm_create, shmm_open, shmm_close, shmm_destroy, shmm_begin_addr,
  shmm_end_addr,
}

-- `struct _ipc_peer_impl`
pub record Peer : Type 0 where
  pub channel_id : ℕ
  pub buffer_size : ℕ
  pub shb : Ptr
  pub rb : Option Ring

-- The segments, the objects of the zone that are taken, and the rings that were handed to
-- `rbuf_destroy`.
pub record Ipc : Type 0 where
  pub segs : Segments
  pub objs : ℕ
  pub destroyed : List Ring

-- `zone` and `slot` say whether `_ipc_try_restore_zone` and `mm_cache_alloc` succeed, `ring_zone` and
-- `ring_slot` the same for a ring; `stale_rb` and `stale_shb` are the fields of the new object before
-- they are written, `stale_sbi` is the variable of `shmm_create`; `mem` is what the segment holds from
-- the begin of the area to the end of the segment, which may come before the end of the area.
pub record Env : Type 0 where
  pub sys : System
  pub zone : Bool
  pub slot : Bool
  pub ring_zone : Bool
  pub ring_slot : Bool
  pub stale_rb : Option Ring
  pub stale_shb : Ptr
  pub stale_sbi : Ptr
  pub mem : List ℕ

-- `_ipc_try_restore_zone`: what `mm_search_zone` finds, as the size of its objects, and whether
-- `mm_cache_create` succeeds.
unfoldable pub try_restore_zone :
    (the_zone : Bool) → (found : Option ℕ) → (created : Bool) → (peer_size : ℕ) → Code
try_restore_zone true found created peer_size = succeed
try_restore_zone false none created peer_size = if created then succeed else fail
try_restore_zone false (some obj_size) created peer_size =
    if not (obj_size == peer_size) then fail else succeed

-- The number of a channel, stored to the 16 bits of the sub-key.
abbrev pub channel_key : ℕ → SubKey
channel_key channel_id = record {
  ar_idx = channel_id % 2 ^ 8;
  ar_type = channel_id / 2 ^ 8 % 2 ^ 8;
}

abbrev pub destroy_ring : Option Ring → Ipc → Ipc
destroy_ring none s = s
destroy_ring (some rb) s = record s { destroyed = rb ∷ s.destroyed }

-- The error return with an object: its ring and its block are given up by `close`, then the object.
abbrev pub give_up :
    (Ptr → Segments → Code × Segments) → Option Ring → Ptr → Ipc → Option Peer × Ipc
give_up close rb shb s =
    let s' = destroy_ring rb s in
    let (_, segs') = if shb == null then (fail, s'.segs) else close shb s'.segs in
    (none, record s' { segs = segs'; objs = s'.objs - 1 })

-- The object as it is filled once there is a ring.
abbrev pub with_ring :
    (Ptr → Segments → Code × Segments)
    → (channel_id : ℕ) → (shb : Ptr) → (buffer_size : ℕ) → Option Ring
    → Ipc
    → Option Peer × Ipc
with_ring close channel_id shb buffer_size none s = give_up close none shb s
with_ring close channel_id shb buffer_size (some rb) s = (
  some (record { channel_id = channel_id; buffer_size = buffer_size; shb = shb; rb = some rb }),
  s,
)

abbrev pub with_block :
    Env
    → (Ptr → Segments → Code × Segments)
    → (channel_id : ℕ) → Ptr × Segments
    → Ipc
    → Option Peer × Ipc
with_block e close channel_id (shb, segs) s =
    if shb == null
    then give_up close e.stale_rb null (record s { segs = segs })
    else (let addr_begin = shmm_begin_addr segs shb in
        let len = sub64 (shmm_end_addr segs shb) addr_begin in
        with_ring close channel_id shb len
          (rbuf_create e.ring_zone e.ring_slot addr_begin len e.mem) (record s { segs = segs }))

abbrev pub with_shm_key :
    Env
    → (Ptr → Segments → Code × Segments)
    → (ℕ → Segments → Ptr × Segments)
    → (channel_id : ℕ) → Option ℕ
    → Ipc
    → Option Peer × Ipc
with_shm_key e close get channel_id none s = give_up close e.stale_rb e.stale_shb s
with_shm_key e close get channel_id (some key) s = with_block e close channel_id (get key s.segs) s

-- Numbers of channels are not negative here.
unfoldable pub ipc_create : Env → (channel_id buffer_size : ℕ) → Bool → Ipc → Option Peer × Ipc
ipc_create e channel_id buffer_size use_huge_tlb s =
    if buffer_size == 0
    then (none, s)
    else if not e.zone
    then (none, s)
    else if not e.slot
    then (none, s)
    else with_shm_key e (shmm_destroy e.sys)
        (λ key. shmm_create e.sys e.stale_sbi key null buffer_size use_huge_tlb) channel_id
        (mm_create_shm_key 1 0 (channel_key channel_id)) (record s { objs = suc s.objs })

unfoldable pub ipc_link : Env → (channel_id : ℕ) → Ipc → Option Peer × Ipc
ipc_link e channel_id s =
    if not e.zone
    then (none, s)
    else if not e.slot
    then (none, s)
    else with_shm_key e shmm_close (λ key. shmm_open e.sys key null) channel_id
        (mm_create_shm_key 1 0 (channel_key channel_id)) (record s { objs = suc s.objs })

-- `ipc_unlink` does nothing; `ipc_destroy` refuses the null pointer and does nothing else. The null
-- pointer is `none`.
unfoldable pub ipc_unlink : Option Peer → Ipc → Code × Ipc
ipc_unlink pr s = (succeed, s)

unfoldable pub ipc_destroy : Option Peer → Ipc → Code × Ipc
ipc_destroy none s = (fail, s)
ipc_destroy (some pr) s = (succeed, s)

-- Where the bytes end that a block of `len` bytes at `offset` touches in the memory of a ring.
unfoldable pub reach : Ring → (offset len : ℕ) → ℕ
reach rb offset len =
    if len == 0
    then 0
    else if leb (offset + len) rb.size
    then offset + len
    else if leb rb.size offset
    then offset + len - rb.size
    else rb.size

abbrev pub in_segment : Option Ring → (Ring → ℕ) → (len : ℕ) → Bool
in_segment none offset len = true
in_segment (some rb) offset len = leb (reach rb (offset rb) len) (length rb.bytes)

-- `none` is a copy that leaves the segment.
abbrev pub with_written : Peer → (inside : Bool) → Code × Option Ring → Option (Code × Option Peer)
with_written pr inside (fail, rb') = some (fail, some (record pr { rb = rb' }))
with_written pr inside (succeed, rb') =
    if inside then some (succeed, some (record pr { rb = rb' })) else none

unfoldable pub ipc_write : Option Peer → List ℕ → Option (Code × Option Peer)
ipc_write none buff = some (fail, none)
ipc_write (some pr) buff =
    if pr.shb == null
    then some (fail, some pr)
    else with_written pr (in_segment pr.rb (λ rb. rb.w_offset) (length buff))
        (rbuf_write_block pr.rb buff)

abbrev pub with_read :
    Peer → (inside : Bool) → Code × List ℕ × Option Ring → Option (Code × List ℕ × Option Peer)
with_read pr inside (fail, out, rb') = some (fail, out, some (record pr { rb = rb' }))
with_read pr inside (succeed, out, rb') =
    if inside then some (succeed, out, some (record pr { rb = rb' })) else none

unfoldable pub ipc_read : Option Peer → ℕ → Option (Code × List ℕ × Option Peer)
ipc_read none size = some (fail, [], none)
ipc_read (some pr) size =
    if pr.shb == null
    then some (fail, [], some pr)
    else with_read pr (in_segment pr.rb (λ rb. rb.r_offset) size) (rbuf_read_block pr.rb size)
