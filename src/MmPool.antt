-- ===== src/MmPool.antt =====
-- src/mmpool.c: the buddy pool. The `struct _mmpool_impl` stands at an address; blocks have a head and
-- a tail, kept by their addresses, the free ones are in lists of src/dlist.c by their size, through
-- nodes from an array. `none` is a fault, or a shift or `log_2` that is undefined; the result of a loop
-- says whether its fuel has run out. Addresses are words, the sizes of blocks numbers of 32 bits. The
-- label and the bounds are kept for every address at which a pool may stand, the other fields for the
-- pool at hand.
pub mod Merge
pub mod Calls
pub mod Blocks
pub mod Index
pub mod Buddies
pub mod Keeps
pub mod Rounds
pub mod Fill
pub mod Reload
pub mod Places
pub mod Layout
pub mod Creation
mod Tests
use syslib.Prelude.{
  ℕ, zero, suc, ◌+◌, ◌-◌, ◌*◌, ◌/◌, ◌%◌, ◌^◌, Bool, true, false, not, ◌&&◌, ◌||◌, Option, none,
  some, ◌==◌, ltb, leb, if◌then◌else◌, bit_and, bit_or, word, add64, sub64, Run, zoomed, pure,
  and_then, ◌>>=◌, ◌>>◌, upd,
}
use syslib.Misc.{log_2, shift_one, is_2power, round_up_2power, align8, move_ptr_align64}
use syslib.Dlist.{
  Ptr, null, Links, Code, succeed, fail, lst_new, lst_clr, lst_empty, lst_push_back, lst_push_front,
  lst_pop_front, lst_remove,
}

-- The implementation, then the heads of blocks, their tails, the nodes, the counts of the lists, and
-- the links of nodes and lists.
pub record Impl : Type 0 where
  pub chunck_label : Ptr → ℕ
  pub addr_begin : Ptr → Ptr
  pub addr_end : Ptr → Ptr
  pub min_block_order : ℕ
  pub max_block_order : ℕ
  pub free_list_count : ℕ
  pub min_payload_size : ℕ
  pub max_payload_size : ℕ
  pub chunk_addr : Ptr
  pub chunk_size : ℕ
  pub fln_count : ℕ
  pub fln_pool : Ptr
  pub flh : Ptr
  pub flag : Ptr → ℕ
  pub fln_idx : Ptr → ℕ
  pub block_size : Ptr → ℕ
  pub tail_label : Ptr → ℕ
  pub tail_size : Ptr → ℕ
  pub node_block : Ptr → Ptr
  pub node_idx : Ptr → ℕ
  pub op_count : Ptr → ℕ
  pub links : Links

-- CHUNK_LABEL, TAIL_LABEL, BLOCK_BIT_USED and the other two bits
abbrev pub chunk_label : ℕ
chunk_label = 0xabab1212dfdf6969

abbrev pub tail_mark : ℕ
tail_mark = 0x1a2b3c4d

abbrev pub block_bit_used : ℕ
block_bit_used = 1

abbrev pub block_bit_unm : ℕ
block_bit_unm = 2

-- HEAD_TAIL_SIZE
abbrev pub head_tail_size : ℕ
head_tail_size = 16

abbrev pub M : Type 0 → Type 0
M A = Run Impl A

abbrev pub on_links : {A : Type 0} → Run Links A → M A
on_links m s = zoomed (m s.links) (λ l. record s { links = l })

abbrev pub lifted : {A : Type 0} → Option A → M A
lifted none s = none
lifted (some a) s = some (a, s)

-- The rest of a loop, unless its fuel has run out.
abbrev pub unless_out : {A B : Type 0} → Option A → (A → M (Option B)) → M (Option B)
unless_out none k = pure none
unless_out (some a) k = k a

-- `_conv_mmp` and `&mmpi->_free_fln_list`
abbrev pub conv_mmp : Ptr → Ptr
conv_mmp pl = sub64 pl 8

abbrev pub free_fln_list_of : Ptr → Ptr
free_fln_list_of mmpi = mmpi + 80

-- `&mmpi->_flh[idx]`, which starts with its list, and `&mmpi->_fln_pool[idx]`
abbrev pub flh_of : Impl → ℕ → Ptr
flh_of s idx = add64 s.flh (idx * 40 % word)

abbrev pub fln_of : Impl → ℕ → Ptr
fln_of s idx = add64 s.fln_pool (idx * 32 % word)

-- `_block_size_by_idx`; `_block_size` is `shift_one`.
unfoldable pub block_size_by_idx : ℕ → M ℕ
block_size_by_idx idx s =
    (do low ← lifted (shift_one s.min_block_order); n ← lifted (shift_one idx); pure (low * n)) s

unfoldable pub get_tail : Impl → Ptr → Ptr
get_tail s bh = sub64 (add64 bh (s.block_size bh)) 8

unfoldable pub prev_block : Impl → Ptr → Ptr
prev_block s bh = sub64 bh (s.tail_size (sub64 bh 8))

unfoldable pub next_block : Impl → Ptr → Ptr
next_block s bh = add64 bh (s.block_size bh)

unfoldable pub normalize_block_size : ℕ → Option ℕ
normalize_block_size payload_size = round_up_2power (add64 payload_size head_tail_size)

abbrev pub idx_between : (min_order blk_size min_size max_size : ℕ) → M (Option ℕ)
idx_between min_order blk_size min_size max_size = if ltb max_size blk_size then pure none else do
  n ← lifted (log_2 (if ltb blk_size min_size then min_size else blk_size))
  pure (some (sub64 n min_order))

-- `_flh_idx`; the inner `none` is its -1.
unfoldable pub flh_idx : ℕ → M (Option ℕ)
flh_idx payload_size s =
    (do
      blk_size ← lifted (normalize_block_size payload_size)
      min_size ← lifted (shift_one s.min_block_order)
      max_size ← lifted (shift_one s.max_block_order)
      idx_between s.min_block_order blk_size min_size max_size)
      s

-- The stores of `_make_block` and `_make_unmblock`, the tail being that of the new size.
unfoldable pub fill_block : Ptr → (size flag : ℕ) → M Ptr
fill_block addr size flag s =
    let tail = sub64 (add64 addr size) 8 in
    some (
      addr,
      record s {
        block_size = upd s.block_size addr size;
        flag = upd s.flag addr flag;
        tail_label = upd s.tail_label tail tail_mark;
        tail_size = upd s.tail_size tail size;
      },
    )

unfoldable pub make_block : Ptr → ℕ → M Ptr
make_block addr size = do
  ok ← lifted (is_2power size)
  if not ok then pure null else fill_block addr size 0

unfoldable pub set_node_block : Ptr → Ptr → M (Unit {0})
set_node_block fln v s =
    if fln == null then none else some (tt, record s { node_block = upd s.node_block fln v })

unfoldable pub set_fln_idx : Ptr → ℕ → M (Unit {0})
set_fln_idx bh v s =
    if bh == null then none else some (tt, record s { fln_idx = upd s.fln_idx bh (v % 2 ^ 28) })

-- The node is cleared before it is compared with null, so the null pointer is a fault.
unfoldable pub fetch_free_fln : Ptr → M Ptr
fetch_free_fln mmpi = do
  fln ← on_links (lst_pop_front (free_fln_list_of mmpi))
  set_node_block fln null
  _ ← on_links (lst_clr fln)
  pure fln

unfoldable pub return_free_fln : Ptr → Ptr → M Code
return_free_fln mmpi fln = do
  set_node_block fln null
  _ ← on_links (lst_clr fln)
  on_links (lst_push_front (free_fln_list_of mmpi) fln)

abbrev pub count_op : Ptr → Code → M Code
count_op flh fail = pure fail
count_op flh succeed =
    λ s. some (succeed, record s { op_count = upd s.op_count flh (suc (s.op_count flh)) })

-- From the fetched node on.
unfoldable pub enlist : (Ptr → Ptr → Run Links Code) → Ptr → ℕ → Ptr → M Code
enlist push hd idx fln s =
    (do
      set_node_block fln hd
      set_fln_idx hd (s.node_idx fln)
      code ← on_links (push (flh_of s idx) fln)
      count_op (flh_of s idx) code)
      s

-- `_return_free_node_to_head` and `_return_free_node_to_tail` differ in `push`.
unfoldable pub return_free_node : (Ptr → Ptr → Run Links Code) → Ptr → Ptr → M Code
return_free_node push mmpi hd s =
    if hd == null
    then none
    else if not (bit_and (s.flag hd) block_bit_used == 0)
    then some (fail, s)
    else (do
      max_size ← lifted (shift_one s.max_block_order)
      if ltb max_size (s.block_size hd) then pure fail else do
        n ← lifted (log_2 (s.block_size hd))
        fln ← fetch_free_fln mmpi
        enlist push hd (sub64 n s.min_block_order) fln)
        s

unfoldable pub return_free_node_to_head : Ptr → Ptr → M Code
return_free_node_to_head mmpi hd = return_free_node lst_push_front mmpi hd

unfoldable pub return_free_node_to_tail : Ptr → Ptr → M Code
return_free_node_to_tail mmpi hd = return_free_node lst_push_back mmpi hd

-- The first list from `idx` on that is not empty, of the `n` lists that are left.
unfoldable pub first_list : ℕ → ℕ → M ℕ
first_list zero idx s = some (idx, s)
first_list (suc n) idx s =
    let rest = first_list n (suc idx) in
    (do empty ← on_links (lst_empty (flh_of s idx)); if empty then rest else pure idx) s

-- The loop that splits the block `n` times: each time the upper half goes into its list.
unfoldable pub split : ℕ → Ptr → Ptr → ℕ → M ℕ
split zero mmpi bh new_size = pure new_size
split (suc n) mmpi bh new_size =
    let half = new_size / 2 in
    let rest = split n mmpi bh half in
    do h ← make_block (add64 bh half) half; _ ← return_free_node_to_head mmpi h; rest

-- The block of the node, which stands in the list `up` steps above the wanted one.
unfoldable pub take_from : Ptr → ℕ → Ptr → M (Code × Ptr)
take_from mmpi zero fln s =
    (do
      set_fln_idx (s.node_block fln) 0
      code ← return_free_fln mmpi fln
      pure (code, s.node_block fln))
      s
take_from mmpi (suc up) fln s =
    (let bh = s.node_block fln in
        do
          size ← split (suc up) mmpi bh (s.block_size bh)
          b ← make_block bh size
          _ ← return_free_node_to_head mmpi b
          code ← return_free_fln mmpi fln
          pure (code, null))
      s

-- `_take_free_node`, with what it stores to `rbh`.
unfoldable pub take_free_node : Ptr → ℕ → M (Code × Ptr)
take_free_node mmpi flh_idx s =
    (do
      idx ← first_list (s.free_list_count - flh_idx) flh_idx
      if leb s.free_list_count idx then pure (fail, null) else do
        fln ← on_links (lst_pop_front (flh_of s idx))
        if fln == null then pure (fail, null) else take_from mmpi (idx - flh_idx) fln)
      s
