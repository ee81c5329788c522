-- ===== src/MmCache/Alloc.antt =====
-- What `mm_cache_alloc` of src/mmspace.c takes from a cache.
use syslib.Prelude.{
  ℕ, ◌+◌, ◌-◌, ◌^◌, ◌<◌, ◌≡◌, ◌≢◌, ◌⊎◌, inl, inr, refl, ap, ◌∙◌, true, false, arith, List, [], ◌∷◌,
  ◌==◌, some, eq→==, ne→==, leb, Bool-cases, ==→eq, ==→ne,
}
use mathlib.Core.Path.{subst}
use syslib.Dlist.{Ptr, null, Links, succeed, lst_remove, lst_push_front}
use syslib.Dlist.Move.{Three, SameElsewhere, move-Three, turn-Three, kept, two-ne, three-ne}
use syslib.Dlist.Query.{query-IsList}
use syslib.MmCache.{
  Store, full_list, empty_list, partial_list, zfetch_obj, alloc_partial, alloc_from, alloc_empty,
  mm_cache_alloc, zcache_new,
}
use syslib.MmCache.Bits.{bit}
use syslib.MmCache.Objects.{taken, zfetch_obj-Fetched}
use syslib.MmCache.Counts.{IsSlab, obj}
use syslib.MmCache.Slabs.{Member, IsCache, after, rebuilt, zmove_node-run, zfirst-run, zfirst-nil}

-- From which slab `n` of the lists `part`, `full` and `empty` an object is taken, so that `left` of its
-- objects stay free, and the lists after it: it is the first partial one, which stays or is put in
-- front of the full ones, or with no partial ones the first empty one, which is then the partial one.
pub data Took (n : Ptr) (left : ℕ) : (part full empty part' full' empty' : List Ptr) → Type 0 where
  stays :
      (ps full empty : List Ptr) → 0 < left → Took n left (n ∷ ps) full empty (n ∷ ps) full empty
  fills :
      (ps full empty : List Ptr) → left ≡ 0 → Took n left (n ∷ ps) full empty ps (n ∷ full) empty
  starts : (full es : List Ptr) → Took n left [] full (n ∷ es) (n ∷ []) full es

-- The address `p` is that of an object that was not allocated, of the slab that `Took` names. Its bit
-- is set, the count of the slab is one less, the lists are those of `Took`, and apart from the links
-- that are theirs the store is as it was; the cache is well-formed.
pub record Allocated (mzi : Ptr) (s t : Store) (p : Ptr) (part full empty : List Ptr) : Type 0 where
  pub n : Ptr
  pub i : ℕ
  pub links : Links
  pub part' : List Ptr
  pub full' : List Ptr
  pub empty' : List Ptr
  pub took : Took n (s.free_count (n - 8) - 1) part full empty part' full' empty'
  pub owner : s.cache (n - 8) ≡ mzi
  pub object : i < s.obj_count (n - 8)
  pub free : bit (s.alloc_bits (n - 8)) i ≡ 0
  pub address : p ≡ obj s (n - 8) i
  pub store : t ≡ after s (n - 8) (s.alloc_bits (n - 8) + 2 ^ i) (s.free_count (n - 8) - 1) links
  pub others :
      SameElsewhere
        (partial_list mzi)
        (full_list mzi)
        (empty_list mzi)
        part
        full
        empty
        s.links
        links
  pub cache : IsCache mzi t part' full' empty'

-- What is known of a slab from which an object is fetched.
module _ (mzi : Ptr) (s : Store) (n : Ptr) (mem : Member mzi s n)
    (pos : 0 < s.free_count (n - 8)) where
  abbrev slab : Ptr
  slab = n - 8

  abbrev left : ℕ
  left = s.free_count slab - 1

  -- The store after the fetch of the object `i`, with other links.
  abbrev linked : ℕ → Links → Store
  linked i u = after s slab (s.alloc_bits slab + 2 ^ i) left u

  fetched :
      (i : ℕ) × ((zfetch_obj slab s ≡ some (obj s slab i, taken s slab i))
        × (i < s.obj_count slab)
        × (bit (s.alloc_bits slab) i ≡ 0)
        × IsSlab (taken s slab i) slab)
  fetched =
      let (i, (t, run, got, is)) = zfetch_obj-Fetched s slab mem.slab pos in
      (
        i,
        (
          run ∙ ap (λ r. some (obj s slab i, r)) got.after,
          got.object,
          got.free,
          subst (λ r. IsSlab r slab) got.after is,
        ),
      )

  -- The object is not the null pointer.
  obj-ne : (i : ℕ) → obj s slab i ≢ null
  obj-ne i e = omega (arith, mem.slab.placed)

  left_after : (i : ℕ) → (taken s slab i).free_count slab ≡ left
  left_after i = ground (arith, eq→== slab slab refl)

  -- The slab is the first of the partial ones.
  module _ (ps full empty : List Ptr) (is : IsCache mzi s (n ∷ ps) full empty) where
    partial-run :
        (i : ℕ)
        → zfetch_obj slab s ≡ some (obj s slab i, taken s slab i)
        → 0 < left
        → alloc_partial mzi s ≡ some (obj s slab i, taken s slab i)
    unfolding alloc_partial
    partial-run i fetch more =
        let e : leb ((taken s slab i).free_count slab) 0 ≡ false =
          rw (left_after i) (ground arith) in
        rw
          (
            zfirst-run s (partial_list mzi) n ps is.lists.one,
            ne→== slab null (λ e. omega (arith, mem.present)),
            fetch,
            ne→== (obj s slab i) null (obj-ne i),
            e,
          )
          refl

    filled-run :
        (i : ℕ) (t u : Links)
        → zfetch_obj slab s ≡ some (obj s slab i, taken s slab i)
        → left ≡ 0
        → lst_remove (partial_list mzi) n s.links ≡ some (succeed, t)
        → lst_push_front (full_list mzi) n t ≡ some (succeed, u)
        → alloc_partial mzi s ≡ some (obj s slab i, linked i u)
    unfolding alloc_partial
    filled-run i t u fetch none remove push =
        let e : leb ((taken s slab i).free_count slab) 0 ≡ true =
          rw (left_after i) (rw none refl) in
        rw
          (
            zfirst-run s (partial_list mzi) n ps is.lists.one,
            ne→== slab null (λ e. omega (arith, mem.present)),
            fetch,
            ne→== (obj s slab i) null (obj-ne i),
            e,
            zmove_node-run (taken s slab i) n (partial_list mzi) (full_list mzi) t u mem.present
                remove push,
          )
          refl

    allocated :
        (i : ℕ) (u : Links) (part' full' : List Ptr)
        → Took n left (n ∷ ps) full empty part' full' empty
        → SameElsewhere
            (partial_list mzi)
            (full_list mzi)
            (empty_list mzi)
            (n ∷ ps)
            full
            empty
            s.links
            u
        → i < s.obj_count slab
        → bit (s.alloc_bits slab) i ≡ 0
        → IsCache mzi (linked i u) part' full' empty
        → Allocated mzi s (linked i u) (obj s slab i) (n ∷ ps) full empty
    allocated i u part' full' took others lt clear cache = record {
      n = n;
      i = i;
      links = u;
      part' = part';
      full' = full';
      empty' = empty;
      took = took;
      owner = mem.owner;
      object = lt;
      free = clear;
      address = refl;
      store = refl;
      others = others;
      cache = cache;
    }

    partial-Allocated :
        (p : Ptr) × ((t : Store) × (alloc_partial mzi s ≡ some (p, t))
          × Allocated mzi s t p (n ∷ ps) full empty)
    partial-Allocated =
        let (i, (fetch, lt, clear, got)) = fetched in
        let less : left < s.obj_count slab = omega (arith, (is.in_part n (ground arith)).2) in
        elim (zero_or_pos left) [
          | inl none ↦
              let (t, (u, remove, push, th, others)) =
                move-Three s.links (partial_list mzi) (full_list mzi) (empty_list mzi) n [] ps full
                  empty is.lists in
              let cache =
                rebuilt mzi s n (s.alloc_bits slab + 2 ^ i) left u (n ∷ ps) full empty ps (n ∷ full)
                  empty is mem got th
                  (λ m h. inr (
                    kept s.links (partial_list mzi) (full_list mzi) (empty_list mzi) n [] ps full
                      empty is.lists m h))
                  (λ m h. elim (Bool-cases (m == n)) [
                    | inl e ↦ inl (==→eq m n e, none)
                    | inr ne ↦ inr (==→ne m n ne, ground arith)
                  ])
                  (λ m h. inr (
                    three-ne s.links (partial_list mzi) (full_list mzi) (empty_list mzi) n [] ps
                        full empty is.lists m h,
                    h,
                  )) in
              (
                obj s slab i,
                (
                  linked i u,
                  filled-run i t u fetch none remove push,
                  allocated i u ps (n ∷ full) (fills ps full empty none) others lt clear cache,
                ),
              )
          | inr more ↦
              let cache =
                rebuilt mzi s n (s.alloc_bits slab + 2 ^ i) left s.links (n ∷ ps) full empty
                  (n ∷ ps) full empty is mem got is.lists
                  (λ m h. elim (Bool-cases (m == n)) [
                    | inl e ↦ inl (==→eq m n e, more, less)
                    | inr ne ↦ inr (==→ne m n ne, h)
                  ])
                  (λ m h. inr (
                    two-ne s.links (partial_list mzi) (full_list mzi) (empty_list mzi) n [] ps full
                        empty is.lists m h,
                    h,
                  ))
                  (λ m h. inr (
                    three-ne s.links (partial_list mzi) (full_list mzi) (empty_list mzi) n [] ps
                        full empty is.lists m h,
                    h,
                  )) in
              (
                obj s slab i,
                (
                  linked i s.links,
                  partial-run i fetch more,
                  allocated i s.links (n ∷ ps) full (stays ps full empty more)
                      (λ q x y z. (refl, refl)) lt clear cache,
                ),
              )
        ]
      where
        zero_or_pos : (k : ℕ) → (k ≡ 0) ⊎ (0 < k)
        zero_or_pos k = omega arith

  -- The slab is the first of the empty ones.
  module _ (full es : List Ptr) (is : IsCache mzi s [] full (n ∷ es)) where
    from-run :
        (i : ℕ) (t u : Links)
        → zfetch_obj slab s ≡ some (obj s slab i, taken s slab i)
        → lst_remove (empty_list mzi) n s.links ≡ some (succeed, t)
        → lst_push_front (partial_list mzi) n t ≡ some (succeed, u)
        → alloc_from mzi slab s ≡ some (obj s slab i, linked i u)
    unfolding alloc_from
    from-run i t u fetch remove push =
        rw
          (
            ne→== slab null (λ e. omega (arith, mem.present)),
            fetch,
            ne→== (obj s slab i) null (obj-ne i),
            zmove_node-run (taken s slab i) n (empty_list mzi) (partial_list mzi) t u mem.present
                remove push,
          )
          refl

    turned : Three s.links (empty_list mzi) (partial_list mzi) (full_list mzi) (n ∷ es) [] full
    turned = turn-Three (turn-Three is.lists)

    from-Allocated :
        (p : Ptr) × ((t : Store) × (alloc_from mzi slab s ≡ some (p, t))
          × Allocated mzi s t p [] full (n ∷ es))
    from-Allocated =
        let (i, (fetch, lt, clear, got)) = fetched in
        let all : s.free_count slab ≡ s.obj_count slab = (is.in_empty n (ground arith)).1 in
        let (t, (u, remove, push, th, others)) =
          move-Three s.links (empty_list mzi) (partial_list mzi) (full_list mzi) n [] es [] full
            turned in
        let cache =
          rebuilt mzi s n (s.alloc_bits slab + 2 ^ i) left u [] full (n ∷ es) (n ∷ []) full es is
            mem got (turn-Three th)
            (λ m h. elim (Bool-cases (m == n)) [
              | inl e ↦ inl (==→eq m n e, omega (arith, mem.many), omega (arith, mem.many))
              | inr ne ↦ inr (==→ne m n ne, ground arith)
            ])
            (λ m h. inr (
              three-ne s.links (empty_list mzi) (partial_list mzi) (full_list mzi) n [] es [] full
                  turned m h,
              h,
            ))
            (λ m h. inr (
              kept s.links (empty_list mzi) (partial_list mzi) (full_list mzi) n [] es [] full
                turned m h)) in
        (
          obj s slab i,
          (
            linked i u,
            from-run i t u fetch remove push,
            record {
              n = n;
              i = i;
              links = u;
              part' = n ∷ [];
              full' = full;
              empty' = es;
              took = starts full es;
              owner = mem.owner;
              object = lt;
              free = clear;
              address = refl;
              store = refl;
              others = λ q x y z. others q z x y;
              cache = cache;
            },
          ),
        )

-- The choice of the list.
alloc_partial_chosen :
    (mzi pg : Ptr) (s : Store) (n : Ptr) (ps full empty : List Ptr)
    → IsCache mzi s (n ∷ ps) full empty
    → mm_cache_alloc mzi pg s ≡ alloc_partial mzi s
unfolding mm_cache_alloc
alloc_partial_chosen mzi pg s n ps full empty is =
    rw (query-IsList s.links (partial_list mzi) (n ∷ ps) is.lists.one).0 refl

alloc_empty_chosen :
    (mzi pg : Ptr) (s : Store) (n : Ptr) (full es : List Ptr)
    → IsCache mzi s [] full (n ∷ es)
    → mm_cache_alloc mzi pg s ≡ alloc_from mzi (n - 8) s
unfolding mm_cache_alloc alloc_empty
alloc_empty_chosen mzi pg s n full es is =
    let big : 8 < n = (is.in_empty n (ground arith)).0.present in
    rw
      (
        (query-IsList s.links (partial_list mzi) [] is.lists.one).0,
        zfirst-run s (empty_list mzi) n es is.lists.three,
        ne→== (n - 8) null (λ e. omega (arith, big)),
      )
      refl

-- A well-formed cache with a slab that is partial or empty gives an object that was not allocated: of
-- the first partial slab, otherwise of the first empty one. The bit of the object is set and the slab
-- has one free object less; the slab stays the first partial one, goes in front of the full ones
-- when no object of it is left, or from the empty ones to the partial ones. The other slabs keep
-- their lists and their order, the cache is well-formed, and nothing else in the store has changed but
-- links of the nodes of the three lists.
pub mm_cache_alloc-Allocated :
    (mzi pg : Ptr) (s : Store) (part full empty : List Ptr)
    → IsCache mzi s part full empty
    → (part ≢ []) ⊎ (empty ≢ [])
    → (p : Ptr) × ((t : Store) × (mm_cache_alloc mzi pg s ≡ some (p, t))
        × Allocated mzi s t p part full empty)
mm_cache_alloc-Allocated mzi pg s (n ∷ ps) full empty is some_slab =
    let (mem, pos, _) = is.in_part n (ground arith) in
    let (p, (t, run, got)) = partial-Allocated mzi s n mem pos ps full empty is in
    (p, (t, alloc_partial_chosen mzi pg s n ps full empty is ∙ run, got))
mm_cache_alloc-Allocated mzi pg s [] full (n ∷ es) is some_slab =
    let (mem, all) = is.in_empty n (ground arith) in
    let (p, (t, run, got)) = from-Allocated mzi s n mem (omega (arith, mem.many)) full es is in
    (p, (t, alloc_empty_chosen mzi pg s n full es is ∙ run, got))
mm_cache_alloc-Allocated mzi pg s [] full [] is (inl ne) = absurd (ne refl)
mm_cache_alloc-Allocated mzi pg s [] full [] is (inr ne) = absurd (ne refl)

-- With all slabs full, and no page for a new one, null.
pub mm_cache_alloc_exhausted :
    (mzi : Ptr) (s : Store) (full : List Ptr)
    → IsCache mzi s [] full []
    → mm_cache_alloc mzi null s ≡ some (null, s)
unfolding mm_cache_alloc alloc_empty zcache_new alloc_from
mm_cache_alloc_exhausted mzi s full is =
    rw
      (
        (query-IsList s.links (partial_list mzi) [] is.lists.one).0,
        zfirst-nil s (empty_list mzi) is.lists.three,
      )
      refl
