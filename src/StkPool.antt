-- ===== src/StkPool.antt =====
-- src/stkpool.c: the pool of stack frames. The `struct _stkp_impl` stands at an address, with the
-- free list and the array of nodes at their offsets in it; the first page of every frame is a guard
-- page. The nodes are in lists of src/dlist.c, and the union of a node, a word whose two low bits
-- are `using`, is kept by the address of the node. `none` is a fault, or fuel that has run out.
pub mod Frames
pub mod Alloc
pub mod Release
pub mod Contract
pub mod Clients
pub mod Init
pub mod Create
pub mod Ready
mod Tests
use syslib.Prelude.{
  ℕ, zero, suc, ◌+◌, ◌-◌, ◌*◌, ◌/◌, ◌%◌, ◌^◌, Bool, not, ◌||◌, Option, none, some, List, [], ◌∷◌,
  ◌==◌, ltb, if◌then◌else◌, bit_and, bit_or, word, add64, sub64, not64, Run, zoomed, pure, and_then,
  ◌>>=◌, ◌>>◌, upd,
}
use syslib.Misc.{round_up, round_down, move_ptr_align8}
use syslib.Dlist.{
  Ptr, null, Links, Code, succeed, fail, lst_new, lst_clr, lst_push_back, lst_push_front,
  lst_pop_front,
}

pub record Pool : Type 0 where
  pub stkp_tag : ℕ
  pub addr_begin : Ptr
  pub addr_end : Ptr
  pub payload_trunk_addr : Ptr
  pub stk_frm_size : ℕ
  pub stk_frm_cnt : ℕ
  pub sys_pg_size : ℕ
  pub payload : Ptr → ℕ
  pub links : Links

-- STKP_TAG and MIN_STK_SIZE
abbrev pub tag : ℕ
tag = 0xAAFFBBEE00995577

abbrev pub min_stk_size : ℕ
min_stk_size = 0x2000

abbrev pub M : Type 0 → Type 0
M A = Run Pool A

-- An operation on the lists.
abbrev pub on_links : {A : Type 0} → Run Links A → M A
on_links m s = zoomed (m s.links) (λ l. record s { links = l })

-- `_conv_impl`: the pool stands 8 bytes into the implementation.
abbrev pub conv_impl : Ptr → Ptr
conv_impl stkp = stkp - 8

-- `&stkpi->_free_list` and `&stkpi->_node_pool[i]`; a node starts with its list node.
abbrev pub free_list_of : Ptr → Ptr
free_list_of stkpi = stkpi + 24

abbrev pub node_of : Ptr → ℕ → Ptr
node_of stkpi i = stkpi + 88 + i * 24

unfoldable pub set_using : Ptr → ℕ → M (Unit {0})
set_using node v s =
    some (
      tt,
      record s { payload = upd s.payload node (bit_or (bit_and (s.payload node) (not64 3)) v) },
    )

unfoldable pub get_payload : Ptr → M Ptr
get_payload node s = some (bit_and (s.payload node) (not64 3), s)

unfoldable pub stkp_alloc : Ptr → M Ptr
stkp_alloc stkp = if stkp == null then pure null else do
  dln ← on_links (lst_pop_front (free_list_of (conv_impl stkp)))
  if dln == null then pure null else do set_using dln 1; get_payload dln

-- The node is marked free and put in front of the free list.
unfoldable pub release_node : Ptr → Ptr → M Code
release_node stkpi node = do
  set_using node 0
  _ ← on_links (lst_push_front (free_list_of stkpi) node)
  pure succeed

-- From the address of the frame on, that of the guard page.
unfoldable pub free_frame : Ptr → Ptr → M Code
free_frame stkpi p s =
    if ltb p s.payload_trunk_addr
    then some (fail, s)
    else if s.stk_frm_size == 0
    then none
    else (let node = node_of stkpi ((p - s.payload_trunk_addr) / s.stk_frm_size) in
        if bit_and (s.payload node) 3 == 0 then some (fail, s) else release_node stkpi node s)

unfoldable pub stkp_free : Ptr → Ptr → M Code
stkp_free stkp p = if stkp == null then pure fail else if p == null then pure fail else λ s.
    if bit_and p (sub64 s.sys_pg_size 1) == 0
    then free_frame (conv_impl stkp) (sub64 p s.sys_pg_size) s
    else some (fail, s)

-- The loop that counts the frames for which there is room, from the count that it finds.
unfoldable pub count_frames : ℕ → (cur end size cnt : ℕ) → Option ℕ
count_frames zero cur end size cnt = none
count_frames (suc fuel) cur end size cnt =
    let rest = count_frames fuel cur end size (add64 cnt 1) in
    if ltb (sub64 end (size * cnt % word)) (add64 cur (cnt * 24 % word))
    then some (sub64 cnt 1)
    else rest

-- One round of the loop over the frames, but for the protection of the guard page.
unfoldable pub init_frame : Ptr → ℕ → M Ptr
init_frame stkpi i s =
    let guard = add64 s.payload_trunk_addr (i * s.stk_frm_size % word) in
    let node = node_of stkpi i in
    (do
      _ ← on_links (lst_clr node)
      λ r. some (tt, record r { payload = upd r.payload node (add64 guard r.sys_pg_size) })
      _ ← on_links (lst_push_back (free_list_of stkpi) node)
      pure guard)
      s

-- `refuses` says for which page `mprotect` fails; the frames from `i` on, `n` of them.
unfoldable pub init_frames : (Ptr → Bool) → Ptr → ℕ → ℕ → M Code
init_frames refuses stkpi i zero = pure succeed
init_frames refuses stkpi i (suc n) =
    let rest = init_frames refuses stkpi (suc i) n in
    do guard ← init_frame stkpi i; if refuses guard then pure fail else rest

-- The fields up to the count, with what `sysconf` returns for the size of a page.
unfoldable pub set_up : (pg addr total frm : ℕ) → Pool → Pool
set_up pg addr total frm s =
    let size = round_up (add64 pg frm) pg in
    record s {
      sys_pg_size = pg;
      stk_frm_size = size;
      stkp_tag = tag;
      addr_begin = addr;
      addr_end = round_down (add64 addr total) size;
    }

-- From the count on.
unfoldable pub place_frames : (Ptr → Bool) → Ptr → ℕ → M Code
place_frames refuses stkpi cnt s =
    let r = record s {
      stk_frm_cnt = cnt;
      payload_trunk_addr = sub64 s.addr_end (s.stk_frm_size * cnt % word);
    } in
    if cnt == 0
    then some (fail, record s { stk_frm_cnt = cnt })
    else init_frames refuses stkpi 0 cnt r

abbrev with_count : (Ptr → Bool) → Ptr → Option ℕ → M Code
with_count refuses stkpi none s = none
with_count refuses stkpi (some cnt) s = place_frames refuses stkpi cnt s

abbrev count_of : ℕ → Ptr → Pool → Option ℕ
count_of fuel stkpi s =
    count_frames fuel (move_ptr_align8 stkpi 88) s.addr_end s.stk_frm_size s.stk_frm_cnt

-- `_stkp_init`; the count of the frames starts from what the memory holds.
unfoldable pub stkp_init : (Ptr → Bool) → ℕ → (pg addr total frm : ℕ) → M Code
stkp_init refuses fuel pg addr total frm s =
    (do
      _ ← on_links (lst_new (free_list_of addr))
      λ r. with_count refuses addr (count_of fuel addr r) r)
      (set_up pg addr total frm s)

abbrev pool_of : Ptr → Code → M Ptr
pool_of addr succeed = pure (addr + 8)
pool_of addr fail = pure null

-- `addr & 7 != 0` is read as `addr & (7 != 0)`.
abbrev pub misaligned : Ptr → Bool
misaligned addr = (addr == null) || not (bit_and addr 1 == 0)

unfoldable pub stkp_create : (Ptr → Bool) → ℕ → (pg addr total frm : ℕ) → M Ptr
stkp_create refuses fuel pg addr total frm =
    if misaligned addr
    then pure null
    else if ltb frm min_stk_size
    then pure null
    else do code ← stkp_init refuses fuel pg addr total frm; pool_of addr code

unfoldable pub stkp_load : Ptr → M Ptr
stkp_load addr = if misaligned addr then pure null else λ s.
    if s.stkp_tag == tag then some (addr + 8, s) else some (null, s)

-- The pages whose protection `stkp_destroy` lifts, in order.
unfoldable pub lifted_pages : ℕ → Ptr → List Ptr
lifted_pages zero p = []
lifted_pages (suc n) p = p ∷ lifted_pages n p

unfoldable pub stkp_destroy : Ptr → M (List Ptr)
unfolding lifted_pages
stkp_destroy stkp = if stkp == null then pure [] else λ s.
    some (lifted_pages s.stk_frm_cnt s.payload_trunk_addr, record s { stkp_tag = 0 })
