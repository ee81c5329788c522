-- ===== src/MmPool/Tests.antt =====
-- The theorems about src/mmpool.c at small pools.
use syslib.Prelude.{and_then, ℕ, ◌+◌, ◌/◌, ◌^◌, ◌≡◌, ◌↔◌, refl, true, Option, none, some, arith}
use syslib.Misc.{
  log_2, highest, shift_one, is_2power, round_up_2power, round_down_2power, align8,
  move_ptr_align64,
}
use syslib.Dlist.{
  Code, succeed, lst_empty, lst_first, Ptr, null, lst_new, lst_clr, lst_push_back, lst_push_front,
  lst_insert_before, lst_insert_after, lst_pop_front, lst_remove, get_prev, get_next, set_prev,
  set_next,
}
use syslib.MmPool.{
  unless_out, normalize_block_size, take_free_node, take_from, split, first_list, return_free_fln,
  next_block, prev_block, get_tail, return_free_node_to_tail, Impl, chunk_label, flh_idx,
  make_block, fill_block, block_size_by_idx, return_free_node_to_head, return_free_node,
  fetch_free_fln, enlist, set_node_block, set_fln_idx,
}
use syslib.MmPool.Merge.{
  merge_buddy_next, merge_buddy_prev, merge_buddies, unlink_block, get_flh, are_buddies, merge_up,
}
use syslib.MmPool.Calls.{
  mmp_alloc, mmp_free, free_block, take_block, mmp_create, mmp_destroy, mmp_load, mmp_init_chunk,
  set_up_chunk, init_sections, init_nodes, init_lists, fill_chunk, fill_size, mmp_init_block,
}
use syslib.MmPool.Blocks.{IsTagged, prev_block-next_block}
use syslib.MmPool.Index.{IsFit, flh_idx-IsFit}
use syslib.MmPool.Buddies.{are_buddies_iff}
use syslib.MmPool.Keeps.{Post}
use syslib.MmPool.Rounds.{Merged, merge_up-Merged}
use syslib.MmPool.Fill.{Ended, fill_chunk-Ended}
use syslib.MmPool.Reload.{mmp_load-mmp_destroy}

-- Blocks of 32 bytes, of at most 128.
abbrev pool : Impl
pool = record {
  chunck_label = λ p. 0;
  addr_begin = λ p. 0;
  addr_end = λ p. 0;
  min_block_order = 5;
  max_block_order = 7;
  free_list_count = 3;
  min_payload_size = 16;
  max_payload_size = 112;
  chunk_addr = 4096;
  chunk_size = 128;
  fln_count = 0;
  fln_pool = 2048;
  flh = 1024;
  flag = λ p. 0;
  fln_idx = λ p. 0;
  block_size = λ p. 32;
  tail_label = λ p. 0;
  tail_size = λ p. 32;
  node_block = λ p. 0;
  node_idx = λ p. 0;
  op_count = λ p. 0;
  links = record { prev = λ p. 0; next = λ p. 0 };
}

flh_idx-IsFit_example : (idx : ℕ) × (flh_idx 40 pool ≡ some (some idx, pool)) × IsFit 5 7 40 idx
flh_idx-IsFit_example = flh_idx-IsFit pool 40 (omega arith) (omega arith) (omega arith)

are_buddies_iff_example : (are_buddies pool 4160 4192 ≡ true) ↔ (64 / 2 ^ 6 ≡ 96 / 2 ^ 6)
are_buddies_iff_example =
    are_buddies_iff pool 64 96 5 (omega arith) (omega arith) (omega arith) refl refl refl refl

prev_block-next_block_example :
    (s' : Impl) × (make_block 4096 64 pool ≡ some (4096, s')) × IsTagged s' 4096 64
prev_block-next_block_example =
    prev_block-next_block 4096 6 pool (omega arith) (omega arith) (omega arith)

merge_up-Merged_example : Post (Merged 2 32) (merge_up 3 0 128 4096 pool)
merge_up-Merged_example =
    merge_up-Merged 2 0 4096 128 pool (omega arith) (omega arith) (omega arith)

fill_chunk-Ended_example : Post Ended (fill_chunk 5000 2 0 1 4224 4096 0 pool)
fill_chunk-Ended_example =
    fill_chunk-Ended 5000 1 0 1 4224 4096 0 pool (omega arith) (omega arith) (omega arith)

-- Two chunks, at 4096 and at 8192.
abbrev two_chunks : Impl
two_chunks = record pool {
  chunck_label = λ p. chunk_label;
  addr_begin = λ p. p;
  addr_end = λ p. p + 2048;
}

mmp_load-mmp_destroy_example :
    (s' : Impl) × (mmp_destroy 8200 two_chunks ≡ some (tt, s'))
    × (mmp_load 8200 s' ≡ some (null, s'))
    × (mmp_load 4104 s' ≡ some (4104, s'))
mmp_load-mmp_destroy_example =
    mmp_load-mmp_destroy 8200 4096 two_chunks (omega arith) (omega arith) refl (omega arith)
      (record { label = refl; begins = refl; ends = omega arith })

abbrev created : Option (Option Ptr × Impl)
created = mmp_create 6201 4096 2048 5 6 pool

abbrev answer : Option (Option Ptr × Impl) → Option (Option Ptr)
answer none = none
answer (some (r, s)) = some r

-- A pool is made, neither null nor a fault.
created_run : answer created ≡ some (some 4104)
unfolding mmp_create mmp_init_chunk set_up_chunk init_sections init_nodes init_lists fill_chunk
    fill_size mmp_init_block block_size_by_idx make_block fill_block return_free_node_to_head
    return_free_node fetch_free_fln enlist set_node_block set_fln_idx lst_new lst_clr lst_push_back
    lst_push_front lst_insert_before lst_insert_after lst_pop_front lst_remove get_prev get_next
    set_prev set_next log_2 highest shift_one is_2power round_up_2power round_down_2power align8
    move_ptr_align64
created_run = refl

-- A request for 16 bytes of the new pool, and their release, up to eight rounds of each.
abbrev used : Option (Option Ptr × Impl) → Option (Option Code × Impl)
used (some (some mmp, s)) = and_then (mmp_alloc 8 mmp 16 s) λ p. unless_out p (mmp_free 8 mmp)
used r = none

abbrev code : Option (Option Code × Impl) → Option (Option Code)
code none = none
code (some (r, s)) = some r

used_run : code (used created) ≡ some (some succeed)
unfolding mmp_create mmp_init_chunk set_up_chunk init_sections init_nodes init_lists fill_chunk
    fill_size mmp_init_block block_size_by_idx make_block fill_block return_free_node_to_head
    return_free_node fetch_free_fln enlist set_node_block set_fln_idx lst_new lst_clr lst_push_back
    lst_push_front lst_insert_before lst_insert_after lst_pop_front lst_remove get_prev get_next
    set_prev set_next log_2 highest shift_one is_2power round_up_2power round_down_2power align8
    move_ptr_align64 mmp_alloc mmp_free free_block take_block take_free_node take_from split
    first_list flh_idx normalize_block_size merge_up merge_buddy_next merge_buddy_prev merge_buddies
    are_buddies unlink_block get_flh return_free_fln next_block prev_block get_tail
    return_free_node_to_tail lst_empty lst_first
used_run = refl
