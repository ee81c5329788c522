-- ===== src/MmPool/Merge.antt =====
-- src/mmpool.c: two free blocks become one.
use syslib.Prelude.{
  ℕ, zero, suc, ◌+◌, ◌*◌, ◌%◌, ◌^◌, Bool, not, Option, ◌&&◌, ◌||◌, none, some, ◌==◌, ltb, leb,
  if◌then◌else◌, bit_and, bit_or, sub64, pure, ◌>>=◌, ◌>>◌, upd,
}
use syslib.Misc.{log_2, is_2power}
use syslib.Dlist.{Ptr, null, Code, succeed, fail, lst_remove}
use syslib.MmPool.{
  Impl, M, on_links, lifted, flh_of, fln_of, block_bit_used, block_bit_unm, prev_block, next_block,
  make_block, set_fln_idx, return_free_fln,
}

-- The index is a `long`, so that one below 0 passes the test.
unfoldable pub get_flh : Ptr → M Ptr
get_flh bh s =
    (do
      n ← lifted (log_2 (s.block_size bh))
      pure (
          let idx = sub64 n s.min_block_order in
          if ltb idx (2 ^ 63) && leb s.free_list_count idx then null else flh_of s idx))
      s

abbrev pub removed_fln : Ptr → Ptr → Ptr → Code → M Code
removed_fln mmpi bh fln fail = pure fail
removed_fln mmpi bh fln succeed = do set_fln_idx bh 0; return_free_fln mmpi fln

unfoldable pub unlink_block : Ptr → Ptr → M Code
unlink_block mmpi bh s =
    (do
      flh ← get_flh bh
      code ← on_links (lst_remove flh (fln_of s (s.fln_idx bh)))
      removed_fln mmpi bh (fln_of s (s.fln_idx bh)) code)
      s

-- The checks of `_merge_buddy_next` and `_merge_buddy_prev`: both blocks are free and of one size, and
-- stand in one block of twice the size.
unfoldable pub are_buddies : Impl → Ptr → Ptr → Bool
are_buddies s bh nbh =
    let next_block_size = s.block_size bh * 2 % 2 ^ 32 in
    let mask = sub64 0 next_block_size in
    (s.flag bh == 0 && s.flag nbh == 0)
    && (s.block_size bh == s.block_size nbh
        && bit_and (sub64 bh s.chunk_addr) mask == bit_and (sub64 nbh s.chunk_addr) mask)

abbrev pub merge_unlinked : Ptr → ℕ → Code → M Ptr
merge_unlinked bh next_block_size fail = pure null
merge_unlinked bh next_block_size succeed = make_block bh next_block_size

-- `out` is the one of the two that is in a list.
unfoldable pub merge_buddies : (out : Ptr) → Ptr → Ptr → Ptr → M Ptr
merge_buddies out mmpi bh nbh s =
    if not (are_buddies s bh nbh)
    then some (null, s)
    else (do code ← unlink_block mmpi out; merge_unlinked bh (s.block_size bh * 2 % 2 ^ 32) code) s

unfoldable pub merge_buddy_next : Ptr → Ptr → Ptr → M Ptr
merge_buddy_next mmpi bh nbh = merge_buddies nbh mmpi bh nbh

unfoldable pub merge_buddy_prev : Ptr → Ptr → Ptr → M Ptr
merge_buddy_prev mmpi bh nbh = merge_buddies bh mmpi bh nbh

-- The block over both where its size is a power of two, after `more`.
abbrev make_joined : Ptr → ℕ → Code → M Ptr
make_joined bh size fail = pure null
make_joined bh size succeed = do
  ok ← lifted (is_2power size)
  if not ok then pure null else make_block bh size

abbrev follows_unm : Impl → Ptr → Ptr → Bool
follows_unm s bh nbh =
    not (bit_and (s.flag bh) block_bit_unm == 0)
    && (not (bit_and (s.flag nbh) 4 == 0) && bit_and (s.flag nbh) block_bit_used == 0)

unfoldable pub merge_unmblock : Ptr → Ptr → M Ptr
merge_unmblock mmpi bh s =
    let nbh = next_block s bh in
    if not (follows_unm s bh nbh) || not (bit_and (s.flag bh) block_bit_used == 0)
    then some (null, s)
    else (do
      code ← unlink_block mmpi nbh
      λ t. make_joined bh ((t.block_size bh + t.block_size nbh) % 2 ^ 32) code t)
        s

abbrev mark_used : Bool → Ptr → M Ptr
mark_used used bh s =
    if used && not (bh == null)
    then some (bh, record s { flag = upd s.flag bh (bit_or (s.flag bh) block_bit_used) })
    else some (bh, s)

unfoldable pub merge_to_unmblock : Ptr → Ptr → M Ptr
merge_to_unmblock mmpi bh s =
    let nbh = next_block s bh in
    if not (follows_unm s bh nbh)
    then some (null, s)
    else (do
      code ← unlink_block mmpi nbh
      b ← λ t. make_joined bh ((t.block_size bh + t.block_size nbh) % 2 ^ 32) code t
      mark_used (not (bit_and (s.flag bh) block_bit_used == 0)) b)
        s

-- With the block behind, or else with the block before.
abbrev pub or_prev : Ptr → Ptr → Ptr → M Ptr
or_prev mmpi bh found s =
    if found == null then merge_buddy_prev mmpi (prev_block s bh) bh s else some (found, s)

abbrev pub merge_round : Ptr → Ptr → M Ptr
merge_round mmpi bh s =
    (do found ← merge_buddy_next mmpi bh (next_block s bh); or_prev mmpi bh found) s

-- The loop of `mmp_free`, up to `fuel` rounds; `none` in the result is fuel that has run out.
unfoldable pub merge_up : ℕ → Ptr → (max_block_size : ℕ) → Ptr → M (Option Ptr)
merge_up zero mmpi max_block_size bh s = some (none, s)
merge_up (suc fuel) mmpi max_block_size bh s =
    let rest = merge_up fuel mmpi max_block_size in
    if leb max_block_size (s.block_size bh)
    then some (some bh, s)
    else (do ret ← merge_round mmpi bh; if ret == null then pure (some bh) else rest ret) s
