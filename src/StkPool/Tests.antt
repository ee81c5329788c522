-- ===== src/StkPool/Tests.antt =====
-- A pool of src/stkpool.c at address 1000 with two frames of two pages of four bytes from 4800 on,
-- both of them free, and the creation of a pool.
use syslib.Prelude.{
  ℕ, ◌+◌, ◌*◌, ◌^◌, ◌≤◌, ◌<◌, suc, ◌≡◌, refl, arith, some, none, Option, List, [], ◌∷◌, ◌==◌,
  if◌then◌else◌, false,
}
use syslib.Misc.{round_up, round_down, move_ptr_align8}
use syslib.Dlist.{Ptr, Code, lst_pop_front, lst_remove, get_next, set_next, get_prev, set_prev}
use syslib.Dlist.Chain.{◌∈◌, Distinct}
use syslib.StkPool.{
  Pool, node_of, stkp_alloc, stkp_free, stkp_create, set_up, count_frames, set_using, get_payload,
}
use syslib.StkPool.Frames.{frame, IsPool}
use syslib.StkPool.Create.{upto}
use syslib.StkPool.Ready.{stkp_create-IsPool}
use syslib.StkPool.Init.{Room, count_frames-greatest}
use syslib.StkPool.Clients.{History, live_apart}
use syslib.StkPool.Contract.{Allocates, Releases, stkp_refines}

abbrev pool : Pool
pool = record {
  stkp_tag = 0xAAFFBBEE00995577;
  addr_begin = 1000;
  addr_end = 4816;
  payload_trunk_addr = 4800;
  stk_frm_size = 8;
  stk_frm_cnt = 2;
  sys_pg_size = 4;
  payload = λ p. if p == 1088 then 4804 else if p == 1112 then 4812 else 0;
  links = record {
    prev =
        λ p. if p == 1088 then 1024 else if p == 1112 then 1088 else if p == 1040 then 1112 else 0;
    next =
        λ p. if p == 1024 then 1088 else if p == 1088 then 1112 else if p == 1112 then 1040 else 0;
  };
}

pool_words : (i : ℕ) → i < 2 → pool.payload (node_of 1000 i) ≡ frame pool i + 0
pool_words i lt = ground arith

pool-IsPool : IsPool 1000 pool (0 ∷ 1 ∷ [])
pool-IsPool = record {
  k = 2;
  t = 1200;
  f = 2;
  page_bits = omega arith;
  page = refl;
  trunk = refl;
  size = refl;
  guarded = omega arith;
  fits = omega arith;
  list = ground arith;
  in_range = λ i m. ground arith;
  words = λ i lt. ground (arith, pool_words i lt);
}

stkp_refines_example :
    ((p : Ptr) × ((t : Pool) × ((free' : List ℕ) × (stkp_alloc 1008 pool ≡ some (p, t))
          × Allocates 1000 pool p t
          × IsPool 1000 t free')))
    × ((i : ℕ)
        → i < 2
        → (c : Code) × ((t : Pool) × ((free' : List ℕ) × (stkp_free 1008 (frame pool i) pool
                ≡ some (c, t))
              × Releases 1000 pool i c t
              × IsPool 1000 t free')))
stkp_refines_example = stkp_refines 1000 pool (0 ∷ 1 ∷ []) pool-IsPool

abbrev pool_of : Option (Ptr × Pool) → Pool
pool_of none = pool
pool_of (some (p, t)) = t

taken : Pool
taken = pool_of (stkp_alloc 1008 pool)

first : stkp_alloc 1008 pool ≡ some (4804, taken)
unfolding taken stkp_alloc lst_pop_front lst_remove get_next set_next get_prev set_prev set_using
    get_payload
first = refl

once : History 1000 pool taken (4804 ∷ [])
once = History.allocated History.start first (λ h. omega arith)

live_apart_example :
    Distinct (4804 ∷ [])
    × ((p : Ptr)
        → p ∈ (4804 ∷ [])
        → (pool.payload_trunk_addr + pool.sys_pg_size ≤ p)
          × (p + pool.stk_frm_size
              ≤ pool.payload_trunk_addr + pool.stk_frm_cnt * pool.stk_frm_size + pool.sys_pg_size))
    × ((p q : Ptr) → p ∈ (4804 ∷ []) → q ∈ (4804 ∷ []) → p < q → p + pool.stk_frm_size ≤ q)
live_apart_example =
    live_apart 1000 pool taken (4804 ∷ []) (0 ∷ 1 ∷ []) pool-IsPool (λ i lt. ground arith) once

count_frames-greatest_example :
    (n : ℕ) × (count_frames 30000 10088 21808 8200 0 ≡ some n)
    × Room 10088 21808 8200 n
    × (21808 < 10088 + suc n * 24 + suc n * 8200)
count_frames-greatest_example =
    count_frames-greatest 10088 21808 8200 (omega arith) (omega arith) 30000 (omega arith)
      (omega arith)

abbrev blank : Pool
blank = record pool { stk_frm_cnt = 0 }

sized : (set_up (2 ^ 3) 10000 20000 8192 blank).stk_frm_size ≤ 10000
unfolding set_up round_up
sized = omega arith

one :
    Room
      (move_ptr_align8 10000 88)
      (set_up (2 ^ 3) 10000 20000 8192 blank).addr_end
      (set_up (2 ^ 3) 10000 20000 8192 blank).stk_frm_size
      1
unfolding set_up round_up round_down move_ptr_align8
one = omega arith

stkp_create-IsPool_example :
    (t : Pool) × (stkp_create (λ p. false) 30002 (2 ^ 3) 10000 20000 8192 blank ≡ some (10008, t))
    × IsPool 10000 t (upto t.stk_frm_cnt)
    × (node_of 10000 t.stk_frm_cnt ≤ t.payload_trunk_addr)
    × (t.payload_trunk_addr + t.stk_frm_cnt * t.stk_frm_size ≤ 30000)
stkp_create-IsPool_example =
    stkp_create-IsPool (λ p. false) 30002 3 10000 20000 8192 blank (omega arith) (omega arith)
      (omega arith) (omega arith) refl (omega arith) (omega arith) refl (λ p. refl) sized one
