-- ===== src/StkPool/Release.antt =====
-- `stkp_free` of src/stkpool.c.
use syslib.Prelude.{
  ℕ, ◌+◌, ◌-◌, ◌*◌, ◌/◌, ◌^◌, ◌≤◌, ◌<◌, ◌≡◌, ◌≢◌, refl, ap, ◌∙◌, false, List, [], ◌∷◌, arith, word,
  ◌==◌, if◌then◌else◌, bit_and, ne→==, some, sub64, ltb,
}
use syslib.Dlist.{tail_of, lst_push_front, Ptr, null, Links, succeed, fail}
use syslib.Dlist.Chain.{◌∈◌, ◌∉◌, has-append, nodes}
use syslib.Dlist.Insert.{push-IsList}
use syslib.StkPool.{Pool, free_list_of, node_of, stkp_free, release_node, free_frame, set_using}
use syslib.StkPool.Frames.{frame, node_list, IsPool, has-node_list, node-not_sentinel, page_aligned}
use syslib.StkPool.Alloc.{
  bits, using_value, page_of, frame-page, two_pages, four_le-page, frame_fits, index-frame, Same,
  marked, flag, marked-IsPool, pool-ne, impl-pool, node-ne,
}

module _ (stkpi : Ptr) (s : Pool) (i : ℕ) (free : List ℕ) (is : IsPool stkpi s free)
    (lt : i < s.stk_frm_cnt) where
  abbrev guard_page : Ptr
  guard_page = s.payload_trunk_addr + i * s.stk_frm_size

  -- The two checks of the pointer pass, and lead to the guard page.
  free-frame : stkp_free (stkpi + 8) (frame s i) s ≡ free_frame stkpi guard_page s
  unfolding stkp_free
  free-frame =
      rw
        (
          ne→== (stkpi + 8) null (pool-ne stkpi),
          impl-pool stkpi,
          ne→== (frame s i) null present,
          mask,
          aligned,
          guard,
        )
        refl
    where
      four : 4 ≤ s.sys_pg_size
      four = four_le-page stkpi s free is

      present : frame s i ≢ null
      present = omega (arith, four)

      fit : frame s i + 1 < word
      fit = frame_fits stkpi s free is i lt

      mask : sub64 s.sys_pg_size 1 ≡ 2 ^ is.k - 1
      mask = omega (arith, four, fit, is.page)

      aligned : bit_and (frame s i) (2 ^ is.k - 1) ≡ 0
      aligned =
          ap (λ a. bit_and a (2 ^ is.k - 1)) (frame-page stkpi s free is i)
          ∙ page_aligned is.k (page_of stkpi s free is i)

      guard : sub64 (frame s i) s.sys_pg_size ≡ guard_page
      guard = omega (arith, fit)

  free_frame-node : free_frame stkpi guard_page s ≡ (
      if bit_and (s.payload (node_of stkpi i)) 3 == 0
      then some (fail, s)
      else release_node stkpi (node_of stkpi i) s)
  unfolding free_frame
  free_frame-node = rw (inside, sized, index) refl
    where
      inside : ltb guard_page s.payload_trunk_addr ≡ false
      inside = ground arith

      sized : (s.stk_frm_size == 0) ≡ false
      sized = ground (arith, two_pages stkpi s free is, four_le-page stkpi s free is)

      index : (guard_page - s.payload_trunk_addr) / s.stk_frm_size ≡ i
      index = ap (λ n. n / s.stk_frm_size) (omega arith) ∙ index-frame stkpi s free is i

  release_node-run :
      (l : Links)
      → s.payload (node_of stkpi i) ≡ frame s i + 1
      → lst_push_front (free_list_of stkpi) (node_of stkpi i) s.links ≡ some (succeed, l)
      → release_node stkpi (node_of stkpi i) s ≡ some (succeed, marked stkpi i 0 l s)
  unfolding release_node set_using
  release_node-run l w run =
      let mark = using_value stkpi s free is i lt 1 (omega arith) 0 (omega arith) in
      rw (w, mark, run) refl

  -- A frame that is in use goes back to the front of the free list.
  pub stkp_free-returns :
      i ∉ free
      → (t : Pool) × (stkp_free (stkpi + 8) (frame s i) s ≡ some (succeed, t))
        × IsPool stkpi t (i ∷ free)
        × Same s t
  stkp_free-returns out =
      let ns = node_list stkpi free in
      let head = free_list_of stkpi in
      let w : s.payload (node_of stkpi i) ≡ frame s i + 1 = ground (arith, is.words i lt) in
      let away : node_of stkpi i ∉ nodes head ns = ground (
        arith,
        node-not_sentinel stkpi i,
        has-append (node_of stkpi i) ns (tail_of head ∷ []),
        has-node_list stkpi i free,
      ) in
      let (l, run, list, _) =
        (push-IsList s.links head (node_of stkpi i) ns is.list (node-ne stkpi i) away).1 in
      let used = (bits stkpi s free is i lt 1 (omega arith)).1 in
      let self : flag i (i ∷ free) ≡ 0 = ground arith in
      (
        marked stkpi i (flag i (i ∷ free)) l s,
        free-frame ∙ free_frame-node ∙ rw (w, used) (rw self (release_node-run l w run)),
        marked-IsPool stkpi s free (i ∷ free) i l is list (λ j m. ground (arith, is.in_range j))
            (λ j ne. ground arith),
        record { trunk = refl; size = refl; count = refl; page = refl },
      )

  -- A frame that is free is refused.
  pub stkp_free_twice : i ∈ free → stkp_free (stkpi + 8) (frame s i) s ≡ some (fail, s)
  stkp_free_twice m =
      let w : s.payload (node_of stkpi i) ≡ frame s i + 0 = ground (arith, is.words i lt) in
      let unused = (bits stkpi s free is i lt 0 (omega arith)).1 in
      free-frame ∙ free_frame-node ∙ rw (w, unused) refl
