-- ===== src/MmPool/Creation.antt =====
-- What the creation of a pool of src/mmpool.c comes to: null, or sections behind each other in a chunk
-- that `mmp_load` finds.
use syslib.Prelude.{ℕ, ◌+◌, ◌-◌, ◌*◌, ◌%◌, ◌^◌, ◌≤◌, ◌≡◌, ◌≢◌, Option, some, word, ◌⊎◌}
use syslib.Dlist.{Ptr, null, Code}
use syslib.MmPool.{Impl, unless_out, chunk_label}
use syslib.MmPool.Calls.{mmp_load, pool_at}
use syslib.MmPool.Keeps.{Post}
use syslib.MmPool.Layout.{end, lists, nodes, node_count, start}
use syslib.MmPool.Places.{Place}

-- The head of 128 bytes, the lists, the nodes and the blocks lie behind each other, up to the end.
pub record IsLaid (addr : Ptr) (s : Impl) : Type 0 where
  pub lists : addr + 128 ≤ s.flh
  pub nodes : s.flh + s.free_list_count * 40 ≤ s.fln_pool
  pub chunk : s.fln_pool + s.fln_count * 32 ≤ s.chunk_addr
  pub blocks : s.chunk_addr + s.chunk_size ≤ s.addr_end addr

-- What `mmp_create` for `addr` comes to: null, or the pool of a chunk that is laid out.
abbrev pub Made : Ptr → Ptr → Impl → Type 0
Made addr p s = (p ≡ null) ⊎ ((p ≡ addr + 8) × (mmp_load p s ≡ some (p, s)) × IsLaid addr s)

-- The creation has ended.
abbrev pub Created : Ptr → Option Ptr → Impl → Type 0
Created addr r s = (p : Ptr) × (r ≡ some p) × Made addr p s

-- The same of the pool for a code.
abbrev Answered : Ptr → Option Code → Impl → Type 0
Answered addr r s = Post (Created addr) (unless_out r (pool_at addr) s)

module _ (g addr total min_order max_order : ℕ) (room : 1600 ≤ total)
    (fits : addr + total + 2 ^ 61 ≤ word) (enough : addr + total + 8 ≤ g) (ne : addr ≢ null)
    (aligned : addr % 8 ≡ 0) where
  abbrev count : ℕ
  count = max_order - min_order + 1

  module _ (min max : ℕ) (few : count ≤ 31) (small : min ≤ 2 ^ 30) (s : Impl) where
    abbrev v : Place
    v = record {
      label = chunk_label;
      begin = addr;
      end = end addr total count min room fits few small;
      lists = lists addr total count min room fits few small;
      list_count = count;
      nodes = nodes addr total count min room fits few small;
      node_count = node_count addr total count min room fits few small;
      chunk = s.chunk_addr;
      size = s.chunk_size;
    }

    abbrev E : Ptr
    E = end addr total count min room fits few small

    abbrev cur : Ptr
    cur = start addr total count min room fits few small
