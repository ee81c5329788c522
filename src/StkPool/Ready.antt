-- ===== src/StkPool/Ready.antt =====
-- The pool that `stkp_create` of src/stkpool.c leaves is well-formed and all of its frames are free.
use syslib.Prelude.{
  ℕ, ◌+◌, ◌-◌, ◌*◌, ◌/◌, ◌%◌, ◌^◌, ◌≤◌, ◌<◌, ◌≡◌, ◌⊎◌, inl, inr, refl, ap, sym, ◌∙◌, Bool, false,
  [], arith, word, ◌==◌, ltb, some, add64, sub64, not64, bit_and, bit_and_shifted, bit_and-le,
  two_pow_add, two_pow_pos,
}
use mathlib.Core.Path.{subst, ap₂}
use native.Mathlib.Nat.{
  mul_comm, mul_assoc, add-mul, mul-le-mul_right, mul-sub, div-add-mod', pow-le-pow_right,
}
use syslib.Misc.{round_up, round_down, move_ptr_align8}
use syslib.Misc.Align.{round_up-IsCeil, align-eq-round_up, IsCeil}
use syslib.Dlist.{Ptr, Links, succeed, lst_new}
use syslib.Dlist.Chain.{IsList}
use syslib.Dlist.Insert.{lst_new-IsList}
use syslib.StkPool.{
  Pool, free_list_of, node_of, count_frames, set_up, place_frames, stkp_init, stkp_create,
  misaligned, min_stk_size,
}
use syslib.StkPool.Frames.{frame, IsPool}
use syslib.StkPool.Alloc.{Same}
use syslib.StkPool.Init.{Room, one_frame, count_frames-greatest}
use syslib.StkPool.Create.{SetUp, upto, has-upto, init_frames-SetUp}

-- A mask of a multiple of a page leaves a multiple of the page, below the value.
page_mask :
    (k f v n : ℕ)
    → n ≡ f * 2 ^ k
    → k ≤ 64
    → 1 ≤ n
    → n < word
    → bit_and v (not64 (sub64 n 1)) ≡ bit_and (v / 2 ^ k) (2 ^ (64 - k) - f) * 2 ^ k
page_mask k f v n e small pos fits = ap (bit_and v) mask ∙ bit_and_shifted k v (2 ^ (64 - k) - f)
  where
    whole : 64 ≡ 64 - k + k
    whole = omega arith

    split : word ≡ 2 ^ (64 - k) * 2 ^ k
    split = ap (λ t. 2 ^ t) whole ∙ two_pow_add (64 - k) k

    mask : not64 (sub64 n 1) ≡ (2 ^ (64 - k) - f) * 2 ^ k
    mask = omega (arith, split, mul-sub (2 ^ k) (2 ^ (64 - k)) f)

module _ (k addr total frm : ℕ) (bits : 3 ≤ k) (small : k < 32) (wide : frm < 2 ^ 32)
    (pos : 0 < frm) (top : addr + total + 128 < word) where
  abbrev size : ℕ
  size = round_up (add64 (2 ^ k) frm) (2 ^ k)

  abbrev end : ℕ
  end = round_down (add64 addr total) size

  page_small : 2 ^ k ≤ 2 ^ 31
  page_small = pow-le-pow_right (omega arith) {j = 31} (omega arith)

  ceil : IsCeil (2 ^ k) (2 ^ k + frm) size
  ceil =
      let e : add64 (2 ^ k) frm ≡ 2 ^ k + frm = omega (arith, page_small) in
      rw e (round_up-IsCeil k (2 ^ k + frm) (omega arith) (omega (arith, page_small)))

  abbrev pages : ℕ
  pages = size / 2 ^ k

  size-pages : size ≡ pages * 2 ^ k
  size-pages = omega (arith, ceil.multiple, div-add-mod' size (2 ^ k))

  two_le-pages : 2 ≤ pages
  two_le-pages = elim (le_or_lt 2 pages) [
    | inl le ↦ le
    | inr lt ↦ absurd (omega (arith, size-pages, ceil.above, mul-le-mul_right (2 ^ k) lt))
  ]
    where
      le_or_lt : (a b : ℕ) → (a ≤ b) ⊎ (b + 1 ≤ a)
      le_or_lt a b = omega arith

  abbrev end_page : ℕ
  end_page = bit_and (add64 addr total / 2 ^ k) (2 ^ (64 - k) - pages)

  size_bounds : (1 ≤ size) × (size < word)
  size_bounds = (omega (arith, ceil.above, two_pow_pos k), omega (arith, ceil.least, page_small))

  end-pages : (end ≡ end_page * 2 ^ k) × (end ≤ addr + total)
  unfolding round_down
  end-pages = (
    page_mask k pages (add64 addr total) size size-pages (omega arith) size_bounds.0 size_bounds.1,
    omega (arith, bit_and-le (add64 addr total) (not64 (sub64 size 1))),
  )

  abbrev cur : ℕ
  cur = move_ptr_align8 addr 88

  cur_above : addr + 88 ≤ cur
  cur_above =
      let e = (align-eq-round_up addr addr 88 8 (omega arith) (omega arith)).2 in
      let sum : add64 addr 88 ≡ addr + 88 = omega arith in
      let c : IsCeil 8 (addr + 88) (round_up (addr + 88) 8) =
        round_up-IsCeil 3 (addr + 88) (omega arith) (omega arith) in
      omega (arith, e, c.above, ap (λ a. round_up a 8) sum)

  -- A count for which there is room leads to a well-formed pool.
  module _ (refuses : Ptr → Bool) (never : (p : Ptr) → refuses p ≡ false) (s : Pool) (n : ℕ)
      (some_room : 1 ≤ n) (room : Room cur end size n) (sized : s.stk_frm_size ≡ size)
      (ends : s.addr_end ≡ end) (paged : s.sys_pg_size ≡ 2 ^ k)
      (list : IsList s.links (free_list_of addr) []) where
    abbrev counted : Pool
    counted = record s {
      stk_frm_cnt = n;
      payload_trunk_addr = sub64 s.addr_end (s.stk_frm_size * n % word);
    }

    trunk : counted.payload_trunk_addr ≡ end - n * size
    trunk =
        let e : s.stk_frm_size * n ≡ n * size =
          mul_comm s.stk_frm_size n ∙ ap (λ (t : ℕ). n * t) sized in
        omega (arith, end-pages.1, e)

    trunk-pages : end - n * size ≡ (end_page - n * pages) * 2 ^ k
    trunk-pages = omega (
      arith,
      end-pages.0,
      ap (λ (t : ℕ). n * t) size-pages,
      mul_assoc n pages (2 ^ k),
      mul-sub (2 ^ k) end_page (n * pages),
    )

    frames_fit : (j : ℕ) → j < n → frame counted j < word
    frames_fit j lt =
        let next : (j + 1) * size ≤ n * size = mul-le-mul_right size (omega arith) in
        let inner : j * s.stk_frm_size ≡ j * size = ap (λ (t : ℕ). j * t) sized in
        omega (arith, trunk, end-pages.1, add-mul j 1 size, inner, paged, page_small, ceil.above)

    SetUp-IsPool : (t : Pool) → SetUp addr t n → Same counted t → IsPool addr t (upto n)
    SetUp-IsPool t ready same = record {
      k = k;
      t = end_page - n * pages;
      f = pages;
      page_bits = omega arith;
      page = same.page ∙ paged;
      trunk = same.trunk ∙ trunk ∙ trunk-pages;
      size = same.size ∙ sized ∙ size-pages;
      guarded = two_le-pages;
      fits = omega (
        arith,
        same.trunk,
        trunk,
        end-pages.1,
        ap₂ (λ (a b : ℕ). a * b) same.count (same.size ∙ sized),
      );
      list = ready.list;
      in_range = λ i m. ground (arith, has-upto i n, same.count);
      words = λ i lt. ground (arith, has-upto i n, same.count, ready.words i);
    }

    place_frames-IsPool :
        (t : Pool) × (place_frames refuses addr n s ≡ some (succeed, t))
        × IsPool addr t (upto n)
        × Same counted t
    unfolding place_frames
    place_frames-IsPool =
        let up : SetUp addr counted 0 = record {
          list = list;
          words = λ j lt. absurd (omega arith);
        } in
        let (t, run, ready, same) =
          init_frames-SetUp refuses addr n 0 counted up (λ j lt. frames_fit j (omega arith))
            (λ j lt. never (counted.payload_trunk_addr + j * counted.stk_frm_size)) in
        let some_frames : (n == 0) ≡ false = ground arith in
        let all : SetUp addr t n = subst (SetUp addr t) (omega arith) ready in
        (t, rw some_frames run, SetUp-IsPool t all same, same)

  create-run :
      (refuses : Ptr → Bool) (fuel n : ℕ) (s t : Pool) (l : Links)
      → misaligned addr ≡ false
      → min_stk_size ≤ frm
      → lst_new (free_list_of addr) s.links ≡ some (succeed, l)
      → count_frames fuel cur end size s.stk_frm_cnt ≡ some n
      → place_frames refuses addr n (record (set_up (2 ^ k) addr total frm s) { links = l })
        ≡ some (succeed, t)
      → stkp_create refuses fuel (2 ^ k) addr total frm s ≡ some (addr + 8, t)
  unfolding stkp_create stkp_init set_up
  create-run refuses fuel n s t l even long new count place =
      let large : ltb frm min_stk_size ≡ false = ground arith in
      rw (even, large, new, count, place) refl

-- On an even address, with pages of 2^k bytes and frames of at least the least size, in memory whose
-- count is zero, and with room for one frame, `stkp_create` returns a well-formed pool all of whose
-- frames are free, if no page is refused: the addresses must not wrap, and the fuel must be more than
-- the end of the area by two. The nodes end before the frames start, and the frames end within the
-- area.
pub stkp_create-IsPool :
    (refuses : Ptr → Bool) (fuel k addr total frm : ℕ) (s : Pool)
    → 3 ≤ k
    → k < 32
    → min_stk_size ≤ frm
    → frm < 2 ^ 32
    → misaligned addr ≡ false
    → addr + total + 128 < word
    → addr + total + 1 < fuel
    → s.stk_frm_cnt ≡ 0
    → ((p : Ptr) → refuses p ≡ false)
    → (set_up (2 ^ k) addr total frm s).stk_frm_size ≤ addr
    → (let r = set_up (2 ^ k) addr total frm s in
        Room (move_ptr_align8 addr 88) r.addr_end r.stk_frm_size 1)
    → (t : Pool) × (stkp_create refuses fuel (2 ^ k) addr total frm s ≡ some (addr + 8, t))
      × IsPool addr t (upto t.stk_frm_cnt)
      × (node_of addr t.stk_frm_cnt ≤ t.payload_trunk_addr)
      × (t.payload_trunk_addr + t.stk_frm_cnt * t.stk_frm_size ≤ addr + total)
unfolding set_up
stkp_create-IsPool refuses fuel k addr total frm s bits small long wide even top enough zeroed never
      high one =
    let pos : 0 < frm = omega arith in
    let size = round_up (add64 (2 ^ k) frm) (2 ^ k) in
    let end = round_down (add64 addr total) size in
    let cur = move_ptr_align8 addr 88 in
    let within : end ≤ addr + total = (end-pages k addr total frm bits small wide pos top).1 in
    let above : addr + 88 ≤ cur = cur_above k addr total frm bits small wide pos top in
    let (n, count, room, last) =
      count_frames-greatest cur end size (omega arith) (omega arith) fuel (omega arith)
        (omega arith) in
    let (l, new, list, _) = lst_new-IsList s.links (free_list_of addr) (λ h. omega arith) in
    let r = record (set_up (2 ^ k) addr total frm s) { links = l } in
    let some_room : 1 ≤ n = one_frame cur end size n one last in
    let (t, place, is, same) =
      place_frames-IsPool k addr total frm bits small wide pos top refuses never r n some_room room
        refl refl refl list in
    let count' : count_frames fuel cur end size s.stk_frm_cnt ≡ some n = rw zeroed count in
    (
      t,
      create-run k addr total frm bits small wide pos top refuses fuel n s t l even long new count'
          place,
      subst (λ c. IsPool addr t (upto c)) (sym same.count) is,
      omega (
        arith,
        same.trunk,
        trunk k addr total frm bits small wide pos top refuses never r n some_room room refl refl
            refl list,
        same.count,
      ),
      omega (
        arith,
        same.trunk,
        trunk k addr total frm bits small wide pos top refuses never r n some_room room refl refl
            refl list,
        ap₂ (λ (a b : ℕ). a * b) same.count same.size,
      ),
    )
