-- ===== src/MmPool/Layout.antt =====
-- The sections of a chunk of src/mmpool.c, as `_mmp_init_chunk` places them, lie behind each other.
use syslib.Prelude.{ℕ, ◌+◌, ◌-◌, ◌*◌, ◌/◌, ◌%◌, ◌^◌, ◌≤◌, ◌<◌, ◌≡◌, arith, word, add64, sub64}
use native.Mathlib.Nat.{mul-le-mul_left, mod-eq_of_lt, div-add-mod'}
use syslib.Misc.{align8, move_ptr_align64}
use syslib.Misc.Align.{IsCeil, round_up-IsCeil, align-eq-round_up}
use syslib.Dlist.{Ptr}

pub align64-IsCeil : (p o : ℕ) → p + o + 64 ≤ word → IsCeil 64 (p + o) (move_ptr_align64 p o)
align64-IsCeil p o fits =
    let (_, _, _, _, up, _, _) = align-eq-round_up 0 p o 8 (omega arith) (omega arith) in
    let sum : add64 p o ≡ p + o = omega (arith, fits) in
    rw (up, sum) (round_up-IsCeil 6 (p + o) (omega arith) (omega (arith, fits)))

pub align8-IsCeil : (v : ℕ) → v + 8 ≤ word → IsCeil 8 v (align8 v)
align8-IsCeil v fits =
    let (up, _, _, _, _, _, _) = align-eq-round_up v 0 0 8 (omega arith) (omega arith) in
    rw up (round_up-IsCeil 3 v (omega arith) (omega (arith, fits)))

-- A chunk of `total` bytes at `addr` with `count` lists and blocks from `min` bytes on.
module _ (addr total count min : ℕ) (room : 1600 ≤ total) (fits : addr + total + 2 ^ 61 ≤ word)
    (few : count ≤ 31) (small : min ≤ 2 ^ 30) where
  abbrev pub end : Ptr
  end = align8 (add64 addr total)

  abbrev pub lists : Ptr
  lists = move_ptr_align64 addr 128

  abbrev pub nodes : Ptr
  nodes = move_ptr_align64 lists (count * 40)

  abbrev pub node_count : ℕ
  node_count = sub64 end nodes / align8 (min + 32)

  abbrev pub start : Ptr
  start = move_ptr_align64 nodes (node_count * 32 % word)

  pub end_bounds : (addr + total ≤ end) × (end < addr + total + 8)
  end_bounds =
      let sum : add64 addr total ≡ addr + total = omega (arith, fits) in
      let c : IsCeil 8 (addr + total) (align8 (addr + total)) =
        align8-IsCeil (addr + total) (omega (arith, fits)) in
      rw sum (c.above, c.least)

  pub lists_bounds : (addr + 128 ≤ lists) × (lists < addr + 192)
  lists_bounds =
      let c = align64-IsCeil addr 128 (omega (arith, fits)) in (c.above, omega (arith, c.least))

  pub nodes_bounds : (lists + count * 40 ≤ nodes) × (nodes < addr + 1496)
  nodes_bounds =
      let c = align64-IsCeil lists (count * 40) (omega (arith, fits, few, lists_bounds.1)) in
      (c.above, omega (arith, c.least, few, lists_bounds.1))

  node_room : node_count * 32 ≤ end - nodes
  node_room =
      let diff : sub64 end nodes ≡ end - nodes =
        omega (arith, end_bounds.0, end_bounds.1, nodes_bounds.1, room, fits) in
      let c = align8-IsCeil (min + 32) (omega (arith, small)) in
      let least : node_count * 32 ≤ node_count * align8 (min + 32) =
        mul-le-mul_left node_count (omega (arith, c.above)) in
      omega (arith, least, diff, div-add-mod' (sub64 end nodes) (align8 (min + 32)))

  pub start_bound : nodes + node_count * 32 ≤ start
  start_bound =
      let whole : node_count * 32 % word ≡ node_count * 32 =
        mod-eq_of_lt (omega (arith, node_room, end_bounds.1, fits)) in
      let c : IsCeil 64 (nodes + node_count * 32) (move_ptr_align64 nodes (node_count * 32)) =
        align64-IsCeil nodes (node_count * 32)
          (omega (arith, node_room, end_bounds.0, end_bounds.1, nodes_bounds.1, room, fits)) in
      rw whole c.above
