-- ===== src/MmPool/Calls.antt =====
-- src/mmpool.c: the calls of the pool.
use syslib.Prelude.{
  ℕ, zero, suc, ◌+◌, ◌-◌, ◌*◌, ◌/◌, ◌%◌, ◌^◌, not, ◌&&◌, ◌||◌, Option, none, some, ◌==◌, ltb, leb,
  if◌then◌else◌, bit_and, bit_or, word, add64, sub64, pure, ◌>>=◌, ◌>>◌, upd,
}
use syslib.Misc.{shift_one, align8, move_ptr_align64}
use syslib.Dlist.{Ptr, null, Code, succeed, fail, lst_new, lst_clr, lst_push_back}
use syslib.MmPool.{
  Impl, M, on_links, lifted, unless_out, chunk_label, tail_mark, head_tail_size, block_bit_used,
  block_bit_unm, conv_mmp, free_fln_list_of, flh_of, fln_of, block_size_by_idx, get_tail, flh_idx,
  make_block, return_free_node_to_head, take_free_node,
}
use syslib.MmPool.Merge.{merge_up}

unfoldable pub mmp_init_block : Ptr → Ptr → ℕ → M Code
mmp_init_block mmpi blk head_idx = do
  size ← block_size_by_idx head_idx
  hd ← make_block blk (size % 2 ^ 32)
  if hd == null then pure fail else return_free_node_to_head mmpi hd

-- The loop over the nodes, `n` of them from `i` on.
unfoldable pub init_nodes : ℕ → Ptr → ℕ → M (Unit {0})
init_nodes zero mmpi i s = some (tt, s)
init_nodes (suc n) mmpi i s =
    let rest = init_nodes n mmpi (suc i) in
    let fln = fln_of s i in
    (do
      _ ← on_links (lst_clr fln)
      λ t.
          some (
            tt,
            record t { node_block = upd t.node_block fln null; node_idx = upd t.node_idx fln i },
          )
      _ ← on_links (lst_push_back (free_fln_list_of mmpi) fln)
      rest)
      s

unfoldable pub init_lists : ℕ → ℕ → M (Unit {0})
init_lists zero i s = some (tt, s)
init_lists (suc n) i s =
    let rest = init_lists n (suc i) in
    (do
      λ t. some (tt, record t { op_count = upd t.op_count (flh_of s i) 0 })
      _ ← on_links (lst_new (flh_of s i))
      rest)
      s

abbrev pub on_success : {A : Type 0} → A → Code → M A → M A
on_success stop fail rest = pure stop
on_success stop succeed rest = rest

-- The blocks of one size from `chk1` on; the two pointers that it leaves. In the results of the loops
-- `none` is fuel that has run out.
unfoldable pub fill_size :
    ℕ → Ptr → (idx blk_size end : ℕ) → (chk1 chk2 : Ptr) → M (Option (Code × Ptr × Ptr))
fill_size zero mmpi idx blk_size end chk1 chk2 s = some (none, s)
fill_size (suc fuel) mmpi idx blk_size end chk1 chk2 s =
    let rest = fill_size fuel mmpi idx blk_size end chk2 (add64 chk2 blk_size) in
    if ltb end chk2
    then some (some (succeed, chk1, chk2), s)
    else (do code ← mmp_init_block mmpi chk1 idx; on_success (some (fail, chk1, chk2)) code rest) s

-- The sizes from that of the list `idx` on; the index is halved from one to the next. Of each size
-- there are less than `rounds` blocks.
unfoldable pub fill_chunk :
    (rounds fuel : ℕ) → Ptr → (idx end : ℕ) → (chk1 chk2 : Ptr) → M (Option Code)
fill_chunk rounds zero mmpi idx end chk1 chk2 s = some (none, s)
fill_chunk rounds (suc fuel) mmpi idx end chk1 chk2 s =
    let rest = fill_chunk rounds fuel mmpi (idx / 2) end in
    if not (ltb 0 idx && (ltb chk1 end && ltb chk2 end))
    then some (some succeed, s)
    else (do
      blk_size ← block_size_by_idx idx
      r ← fill_size rounds mmpi idx blk_size end chk1 (add64 chk1 blk_size)
      unless_out r (λ (code, c1, c2). on_success (some fail) code (rest c1 c2)))
        s

-- The fields up to the loop over the nodes, and where the chunk starts.
unfoldable pub set_up_chunk :
    (addr total min_order max_order min_size max_size : ℕ) → Impl → Ptr × Impl
set_up_chunk addr total min_order max_order min_size max_size s =
    let lists = max_order - min_order + 1 in
    let flh = move_ptr_align64 addr 128 in
    let pool = move_ptr_align64 flh (lists * 40) in
    let end = align8 (add64 addr total) in
    let count = sub64 end pool / align8 (min_size + 32) in
    (
      move_ptr_align64 pool (count * 32 % word),
      record s {
        chunck_label = upd s.chunck_label addr chunk_label;
        addr_begin = upd s.addr_begin addr addr;
        addr_end = upd s.addr_end addr end;
        min_block_order = min_order;
        max_block_order = max_order;
        free_list_count = lists;
        min_payload_size = min_size - head_tail_size;
        max_payload_size = max_size - head_tail_size;
        flh = flh;
        fln_pool = pool;
        fln_count = count;
      },
    )

-- From the loops on.
unfoldable pub init_sections : ℕ → (addr cur_section max_size : ℕ) → M (Option Code)
init_sections fuel addr cur_section max_size s =
    (do
      _ ← on_links (lst_new (free_fln_list_of addr))
      init_nodes s.fln_count addr 0
      init_lists s.free_list_count 0
      if leb (s.addr_end addr) cur_section then pure (some fail) else do
        let size = bit_and (sub64 (s.addr_end addr) cur_section) (sub64 0 max_size)
        λ t. some (tt, record t { chunk_addr = cur_section; chunk_size = size })
        fill_chunk fuel fuel addr (s.free_list_count - 1) (add64 cur_section size) cur_section null)
      s

-- `_mmp_init_chunk`
unfoldable pub mmp_init_chunk : ℕ → (addr total min_order max_order : ℕ) → M (Option Code)
mmp_init_chunk fuel addr total min_order max_order s =
    (do
      min_size ← lifted (shift_one min_order)
      max_size ← lifted (shift_one max_order)
      if ltb min_size head_tail_size || leb max_size min_size
          then pure (some fail)
          else if s.chunck_label addr == chunk_label
          then pure (some fail)
          else (λ t.
              let (cur, u) = set_up_chunk addr total min_order max_order min_size max_size t in
              init_sections fuel addr cur max_size u))
      s

abbrev pub pool_at : Ptr → Code → M (Option Ptr)
pool_at addr fail = pure (some null)
pool_at addr succeed = pure (some (addr + 8))

unfoldable pub mmp_create : ℕ → (addr total min_order max_order : ℕ) → M (Option Ptr)
mmp_create fuel addr total min_order max_order =
    if addr == null
    then pure (some null)
    else if not (bit_and addr 7 == 0)
    then pure (some null)
    else do
      low ← lifted (shift_one min_order)
      if ltb total low || ltb 0xFFFFFFFF total then pure (some null) else do
        code ← mmp_init_chunk fuel addr total min_order max_order
        unless_out code (pool_at addr)

-- `addr` is that of a pool; the fields are read where its implementation would stand.
unfoldable pub mmp_load_chunk : Ptr → M Ptr
mmp_load_chunk addr s =
    if not (s.chunck_label (conv_mmp addr) == chunk_label)
    then some (null, s)
    else if not (s.addr_begin (conv_mmp addr) == conv_mmp addr)
        || leb (s.addr_end (conv_mmp addr)) addr
    then some (null, s)
    else some (conv_mmp addr, s)

unfoldable pub mmp_load : Ptr → M Ptr
mmp_load addr =
    if not (bit_and addr 7 == 0)
    then pure null
    else do mmpi ← mmp_load_chunk addr; if mmpi == null then pure null else pure (add64 mmpi 8)

unfoldable pub mmp_destroy : Ptr → M (Unit {0})
mmp_destroy mmp s =
    let mmpi = conv_mmp mmp in
    if not (s.chunck_label mmpi == chunk_label)
    then some (tt, s)
    else some (
      tt,
      record s {
        chunck_label = upd s.chunck_label mmpi 0;
        addr_begin = upd s.addr_begin mmpi 0;
        addr_end = upd s.addr_end mmpi 0;
      },
    )

abbrev pub use_block : Ptr → M Ptr
use_block bh s =
    if not (bit_and (s.flag bh) block_bit_used == 0) || not (bit_and (s.flag bh) block_bit_unm == 0)
    then some (null, s)
    else some (add64 bh 8, record s { flag = upd s.flag bh (bit_or (s.flag bh) block_bit_used) })

abbrev take_again : M (Option Ptr) → Code × Ptr → M (Option Ptr)
take_again rest (fail, bh) = pure (some null)
take_again rest (succeed, bh) = if bh == null then rest else do p ← use_block bh; pure (some p)

-- The loop of `mmp_alloc` and what follows it, up to `fuel` rounds.
unfoldable pub take_block : ℕ → Ptr → ℕ → M (Option Ptr)
take_block zero mmpi idx s = some (none, s)
take_block (suc fuel) mmpi idx s =
    let rest = take_block fuel mmpi idx in (do r ← take_free_node mmpi idx; take_again rest r) s

abbrev in_list : ℕ → Ptr → Option ℕ → M (Option Ptr)
in_list fuel mmpi none = pure (some null)
in_list fuel mmpi (some idx) = take_block fuel mmpi idx

unfoldable pub mmp_alloc : ℕ → Ptr → ℕ → M (Option Ptr)
mmp_alloc fuel mmp payload_size s =
    if payload_size == 0 || ltb s.max_payload_size payload_size
    then some (some null, s)
    else (do idx ← flh_idx payload_size; in_list fuel (conv_mmp mmp) idx) s

-- From the head of the block on.
unfoldable pub free_block : ℕ → Ptr → Ptr → M (Option Code)
free_block fuel mmpi bh s =
    let tl = get_tail s bh in
    if not (s.tail_size tl == s.block_size bh) || not (s.tail_label tl == tail_mark)
    then some (some fail, s)
    else if bit_and (s.flag bh) block_bit_used == 0
    then some (some fail, s)
    else (do
      max_block_size ← lifted (shift_one s.max_block_order)
      r ← merge_up fuel mmpi max_block_size bh
      unless_out r (λ b. do code ← return_free_node_to_head mmpi b; pure (some code)))
        (record s { flag = upd s.flag bh (s.flag bh - block_bit_used) })

unfoldable pub mmp_free : ℕ → Ptr → Ptr → M (Option Code)
mmp_free fuel mmp p =
    if p == null then pure (some fail) else free_block fuel (conv_mmp mmp) (sub64 p 8)
