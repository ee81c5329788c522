-- ===== src/StkPool/Alloc.antt =====
-- What `stkp_alloc` of src/stkpool.c does to a pool, and where its frames stand.
use syslib.Prelude.{
  ℕ, ◌+◌, ◌-◌, ◌*◌, ◌/◌, ◌^◌, ◌≤◌, ◌<◌, ◌≡◌, ◌≢◌, refl, ap, ◌∙◌, List, [], ◌∷◌, arith, word,
  if◌then◌else◌, bit_and, bit_or, not64, upd, ne→==, eq→==, some,
}
use native.Mathlib.Nat.{mul_assoc, add-mul, mul-le-mul_right, pow-le-pow_right, mul-div_left}
use syslib.Dlist.{tail_of, lst_pop_front, Ptr, null, Links}
use syslib.Dlist.Chain.{has, ◌∈◌, ◌∉◌, IsList, has-append}
use syslib.Dlist.Pop.{pop_front-Removed, pop-nil}
use syslib.StkPool.{Pool, free_list_of, node_of, stkp_alloc, set_using, get_payload}
use syslib.StkPool.Frames.{
  frame, node_list, IsPool, node_of-injective, has-node_list, payload_bits, using_bits,
}

module _ (stkpi : Ptr) (s : Pool) (free : List ℕ) (is : IsPool stkpi s free) where
  abbrev pub page_of : ℕ → ℕ
  page_of i = is.t + i * is.f + 1

  pub frame-page : (i : ℕ) → frame s i ≡ page_of i * 2 ^ is.k
  frame-page i = omega (
    arith,
    is.page,
    is.trunk,
    ap (λ (n : ℕ). i * n) is.size,
    mul_assoc i is.f (2 ^ is.k),
    add-mul (is.t + i * is.f) 1 (2 ^ is.k),
    add-mul is.t (i * is.f) (2 ^ is.k),
  )

  -- A frame has its guard page and another page at least.
  pub two_pages : 2 * s.sys_pg_size ≤ s.stk_frm_size
  two_pages = omega (arith, is.page, is.size, mul-le-mul_right (2 ^ is.k) is.guarded)

  pub four_le-page : 4 ≤ s.sys_pg_size
  four_le-page = omega (arith, is.page, pow-le-pow_right {n = 2} (omega arith) is.page_bits)

  below_end :
      (i : ℕ) → i < s.stk_frm_cnt → (i + 1) * s.stk_frm_size ≤ s.stk_frm_cnt * s.stk_frm_size
  below_end i lt = mul-le-mul_right s.stk_frm_size (omega arith)

  pub frame_fits : (i : ℕ) → i < s.stk_frm_cnt → frame s i + 1 < word
  frame_fits i lt =
      omega (arith, is.fits, two_pages, four_le-page, below_end i lt, add-mul i 1 s.stk_frm_size)

  pub index-frame :
      (i : ℕ) → (frame s i - s.sys_pg_size - s.payload_trunk_addr) / s.stk_frm_size ≡ i
  index-frame i = ap (λ n. n / s.stk_frm_size) offset ∙ mul-div_left i pos
    where
      offset : frame s i - s.sys_pg_size - s.payload_trunk_addr ≡ i * s.stk_frm_size
      offset = omega arith

      pos : 0 < s.stk_frm_size
      pos = omega (arith, two_pages, four_le-page)

  module _ (i : ℕ) (lt : i < s.stk_frm_cnt) (u : ℕ) (small : u < 2) where
    bound : page_of i * 2 ^ is.k + u < word
    bound = omega (arith, frame_fits i lt, frame-page i)

    pub bits : (bit_and (frame s i + u) (not64 3) ≡ frame s i) × (bit_and (frame s i + u) 3 ≡ u)
    bits = rw (frame-page i) (payload_bits is.k is.page_bits (page_of i) u (omega arith) bound)

    pub using_value : (v : ℕ) → v < 2 → bit_or (bit_and (frame s i + u) (not64 3)) v ≡ frame s i + v
    using_value v le =
        rw (frame-page i) (using_bits is.k is.page_bits (page_of i) u v (omega arith) le bound)

pub is_using :
    (stkpi : Ptr) (s : Pool) (free : List ℕ) (is : IsPool stkpi s free) (i : ℕ)
    → i < s.stk_frm_cnt
    → bit_and (s.payload (node_of stkpi i)) 3 ≡ (if has i free then 0 else 1)
is_using stkpi s free is i lt =
    let small : (if has i free then 0 else 1) < 2 = ground arith in
    ap (λ a. bit_and a 3) (is.words i lt)
    ∙ (bits stkpi s free is i lt (if has i free then 0 else 1) small).1

-- The geometry of the pool does not change.
pub record Same (s t : Pool) : Type 0 where
  pub trunk : t.payload_trunk_addr ≡ s.payload_trunk_addr
  pub size : t.stk_frm_size ≡ s.stk_frm_size
  pub count : t.stk_frm_cnt ≡ s.stk_frm_cnt
  pub page : t.sys_pg_size ≡ s.sys_pg_size

pub Same-frame : (s t : Pool) → Same s t → (i : ℕ) → frame t i ≡ frame s i
Same-frame s t e i = rw (e.trunk, e.size, e.page) refl

pub Same-trans : (r s t : Pool) → Same r s → Same s t → Same r t
Same-trans r s t a b = record {
  trunk = b.trunk ∙ a.trunk;
  size = b.size ∙ a.size;
  count = b.count ∙ a.count;
  page = b.page ∙ a.page;
}

-- The pool with the word of the node `i` and the links changed.
abbrev pub marked : Ptr → ℕ → ℕ → Links → Pool → Pool
marked stkpi i u l s = record s {
  payload = upd s.payload (node_of stkpi i) (frame s i + u);
  links = l;
}

abbrev pub flag : ℕ → List ℕ → ℕ
flag i free = if has i free then 0 else 1

pub marked-IsPool :
    (stkpi : Ptr) (s : Pool) (free free' : List ℕ) (i : ℕ) (l : Links)
    → IsPool stkpi s free
    → IsList l (free_list_of stkpi) (node_list stkpi free')
    → ((j : ℕ) → j ∈ free' → j < s.stk_frm_cnt)
    → ((j : ℕ) → j ≢ i → has j free' ≡ has j free)
    → IsPool stkpi (marked stkpi i (flag i free') l s) free'
marked-IsPool stkpi s free free' i l is list range others = record {
  k = is.k;
  t = is.t;
  f = is.f;
  page_bits = is.page_bits;
  page = is.page;
  trunk = is.trunk;
  size = is.size;
  guarded = is.guarded;
  fits = is.fits;
  list = list;
  in_range = range;
  words = λ j lt. ground (arith, is.words j lt, others j, node_of-injective stkpi j i);
}

pub pool-ne : (stkpi : Ptr) → stkpi + 8 ≢ null
pool-ne stkpi h = omega arith

pub impl-pool : (stkpi : Ptr) → stkpi + 8 - 8 ≡ stkpi
impl-pool stkpi = omega arith

pub node-ne : (stkpi i : ℕ) → node_of stkpi i ≢ null
node-ne stkpi i h = omega arith

-- No frame is twice in the free list.
pub head-not_free :
    (stkpi : Ptr) (s : Pool) (i : ℕ) (free : List ℕ) → IsPool stkpi s (i ∷ free) → i ∉ free
head-not_free stkpi s i free is = ground (
  arith,
  is.list.distinct,
  has-append (node_of stkpi i) (node_list stkpi free) (tail_of (free_list_of stkpi) ∷ []),
  has-node_list stkpi i free,
)

alloc-run :
    (stkpi : Ptr) (s : Pool) (i : ℕ) (l : Links)
    → lst_pop_front (free_list_of stkpi) s.links ≡ some (node_of stkpi i, l)
    → s.payload (node_of stkpi i) ≡ frame s i + 0
    → bit_or (bit_and (frame s i + 0) (not64 3)) 1 ≡ frame s i + 1
    → bit_and (frame s i + 1) (not64 3) ≡ frame s i
    → stkp_alloc (stkpi + 8) s ≡ some (frame s i, marked stkpi i 1 l s)
unfolding stkp_alloc set_using get_payload
alloc-run stkpi s i l run w mark value =
    let n = node_of stkpi i in
    rw
      (
        ne→== (stkpi + 8) null (pool-ne stkpi),
        impl-pool stkpi,
        run,
        ne→== n null (node-ne stkpi i),
        eq→== n n refl,
        w,
        mark,
        value,
      )
      refl

pub stkp_alloc-takes :
    (stkpi : Ptr) (s : Pool) (i : ℕ) (free : List ℕ)
    → IsPool stkpi s (i ∷ free)
    → (t : Pool) × (stkp_alloc (stkpi + 8) s ≡ some (frame s i, t)) × IsPool stkpi t free × Same s t
stkp_alloc-takes stkpi s i free is =
    let ns = node_list stkpi free in
    let (l, run, out) =
      pop_front-Removed s.links (free_list_of stkpi) (node_of stkpi i) ns is.list in
    let lt : i < s.stk_frm_cnt = is.in_range i (ground arith) in
    let w : s.payload (node_of stkpi i) ≡ frame s i + 0 = ground (arith, is.words i lt) in
    let fresh = head-not_free stkpi s i free is in
    let value = using_value stkpi s (i ∷ free) is i lt 0 (omega arith) 1 (omega arith) in
    let whole = (bits stkpi s (i ∷ free) is i lt 1 (omega arith)).0 in
    (
      marked stkpi i (flag i free) l s,
      rw fresh (alloc-run stkpi s i l run w value whole),
      marked-IsPool stkpi s (i ∷ free) free i l is out.list (λ j m. is.in_range j (ground arith))
          (λ j ne. ground arith),
      record { trunk = refl; size = refl; count = refl; page = refl },
    )

-- With no frame free, null.
pub stkp_alloc-nil :
    (stkpi : Ptr) (s : Pool) → IsPool stkpi s [] → stkp_alloc (stkpi + 8) s ≡ some (null, s)
unfolding stkp_alloc
stkp_alloc-nil stkpi s is =
    rw
      (
        ne→== (stkpi + 8) null (pool-ne stkpi),
        impl-pool stkpi,
        (pop-nil s.links (free_list_of stkpi) is.list).0,
      )
      refl
