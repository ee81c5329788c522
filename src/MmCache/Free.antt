-- ===== src/MmCache/Free.antt =====
-- What `mm_cache_free` of src/mmspace.c gives back to a cache.
use syslib.Prelude.{
  ℕ, ◌+◌, ◌-◌, ◌^◌, ◌≤◌, ◌<◌, ◌≡◌, ◌⊎◌, inl, inr, refl, ap, sym, ◌∙◌, true, false, ◌||◌, arith,
  List, [], ◌∷◌, ◌++◌, ◌==◌, some, eq→==, leb, Bool-cases, ==→eq, ==→ne,
}
use mathlib.Core.Path.{subst}
use syslib.Dlist.{Ptr, null, Links, succeed, fail, lst_remove, lst_push_front}
use syslib.Dlist.Chain.{◌∈◌}
use syslib.Dlist.Move.{SameElsewhere, move-Three, swap-Three, turn-Three, kept, two-ne, three-ne}
use syslib.MmCache.{
  Store, full_list, empty_list, partial_list, zreturn_obj, zcache_full, put_back, free_in,
  mm_cache_free, cache_of_obj,
}
use syslib.MmCache.Bits.{bit}
use syslib.MmCache.Objects.{zreturn_obj_answer}
use syslib.MmCache.Counts.{IsSlab, with_bits, size, obj}
use syslib.MmCache.Slabs.{Member, IsCache, after, rebuilt, zmove_node-run}

-- A node of a list stands somewhere in it.
pub split_mem :
    (n : Ptr) (ns : List Ptr) → n ∈ ns → (xs : List Ptr) × ((ys : List Ptr) × (ns ≡ xs ++ (n ∷ ys)))
split_mem n [] m = absurd (cc m)
split_mem n (x ∷ ns) m = elim (Bool-cases (n == x)) [
  | inl e ↦ ([], (ns, ap (λ q. q ∷ ns) (sym (==→eq n x e))))
  | inr ne ↦ let (xs, (ys, e)) = split_mem n ns (ground arith) in (x ∷ xs, (ys, ap (λ q. x ∷ q) e))
]

-- The lists before and after an object of the slab `n` of `count` objects is given back, when `free`
-- of them were free: a partial slab stays where it is, or is put in front of the empty ones when all
-- objects are free; a full one is put in front of the partial ones.
pub data Gave (n : Ptr) (free count : ℕ)
    : (part full empty part' full' empty' : List Ptr) → Type 0 where
  keeps :
      (part full empty : List Ptr)
      → n ∈ part
      → free + 1 < count
      → Gave n free count part full empty part full empty
  empties :
      (xs ys full empty : List Ptr)
      → free + 1 ≡ count
      → Gave n free count (xs ++ (n ∷ ys)) full empty (xs ++ ys) full (n ∷ empty)
  reopens :
      (part xs ys empty : List Ptr)
      → free ≡ 0
      → Gave n free count part (xs ++ (n ∷ ys)) empty (n ∷ part) (xs ++ ys) empty

mem_middle : (n : Ptr) (xs ys : List Ptr) → n ∈ xs ++ (n ∷ ys)
mem_middle n [] ys = ground (arith, eq→== n n refl)
mem_middle n (x ∷ xs) ys = let rest = mem_middle n xs ys in ground arith

-- The bit of the object `i` of the slab `n - 8` is cleared, the slab has one free object more, the
-- lists are those of `Gave`, and apart from the links that are theirs the store is as it was; the
-- cache is well-formed.
pub record Freed (mzi : Ptr) (s t : Store) (n i : ℕ) (part full empty : List Ptr) : Type 0 where
  pub links : Links
  pub part' : List Ptr
  pub full' : List Ptr
  pub empty' : List Ptr
  pub gave : Gave n (s.free_count (n - 8)) (s.obj_count (n - 8)) part full empty part' full' empty'
  pub store : t ≡ after s (n - 8) (s.alloc_bits (n - 8) - 2 ^ i) (s.free_count (n - 8) + 1) links
  pub others :
      SameElsewhere
        (partial_list mzi)
        (full_list mzi)
        (empty_list mzi)
        part
        full
        empty
        s.links
        links
  pub cache : IsCache mzi t part' full' empty'

module _ (mzi : Ptr) (s : Store) (n i d : ℕ) (mem : Member mzi s n) (inside : d < size s (n - 8))
    (lt : i < s.obj_count (n - 8)) (set : bit (s.alloc_bits (n - 8)) i ≡ 1)
    (some_used : s.free_count (n - 8) < s.obj_count (n - 8)) where
  abbrev slab : Ptr
  slab = n - 8

  abbrev b : ℕ
  b = s.alloc_bits slab - 2 ^ i

  abbrev more : ℕ
  more = s.free_count slab + 1

  abbrev given : Store
  given = with_bits s slab b more

  abbrev p : Ptr
  p = obj s slab i + d

  returned : (zreturn_obj slab p s ≡ some (succeed, given)) × IsSlab given slab
  returned = elim (zreturn_obj_answer s slab mem.slab i d inside) [
    | inl (_, _, (t, run, e, is)) ↦
        (run ∙ ap (λ r. some (succeed, r)) e, subst (λ r. IsSlab r slab) e is)
    | inr (why, _) ↦ elim why [
      | inl le ↦ absurd (omega arith)
      | inr clear ↦ absurd (omega (arith, clear, set))
    ]
  ]

  given_free : given.free_count slab ≡ more
  given_free = ground (arith, eq→== slab slab refl)

  -- The guards pass, and the return succeeds.
  free-start : free_in mzi slab p s ≡ put_back mzi slab (zcache_full s slab) succeed given
  unfolding free_in
  free-start =
      let e : ((slab == null) || leb (s.obj_count slab) (s.free_count slab)) ≡ false =
        ground (arith, mem.present) in
      rw (e, returned.0) refl

  -- The test for an empty slab, after the return.
  empty-test : leb (s.obj_count slab) (given.free_count slab) ≡ leb (s.obj_count slab) more
  empty-test = ap (leb (s.obj_count slab)) given_free

  abbrev linked : Links → Store
  linked u = after s slab b more u

  keep-run :
      0 < s.free_count slab → more < s.obj_count slab → free_in mzi slab p s ≡ some (succeed, given)
  keep-run pos less =
      let e : zcache_full s slab ≡ false = ground arith in
      let f : leb (s.obj_count slab) more ≡ false = ground arith in
      free-start ∙ rw (e, empty-test, f) refl

  empty-run :
      (t u : Links)
      → 0 < s.free_count slab
      → more ≡ s.obj_count slab
      → lst_remove (partial_list mzi) n s.links ≡ some (succeed, t)
      → lst_push_front (empty_list mzi) n t ≡ some (succeed, u)
      → free_in mzi slab p s ≡ some (succeed, linked u)
  empty-run t u pos all remove push =
      let e : zcache_full s slab ≡ false = ground arith in
      let f : leb (s.obj_count slab) more ≡ true = ground arith in
      free-start
      ∙ rw
          (
            e,
            empty-test,
            f,
            zmove_node-run given n (partial_list mzi) (empty_list mzi) t u mem.present remove push,
          )
          refl

  partial-run :
      (t u : Links)
      → s.free_count slab ≡ 0
      → lst_remove (full_list mzi) n s.links ≡ some (succeed, t)
      → lst_push_front (partial_list mzi) n t ≡ some (succeed, u)
      → free_in mzi slab p s ≡ some (succeed, linked u)
  partial-run t u none remove push =
      let e : zcache_full s slab ≡ true = ground arith in
      let f : leb (s.obj_count slab) more ≡ false = ground (arith, mem.many) in
      free-start
      ∙ rw
          (
            e,
            empty-test,
            f,
            zmove_node-run given n (full_list mzi) (partial_list mzi) t u mem.present remove push,
          )
          refl

  freed :
      {part full empty : List Ptr} (u : Links) (part' full' empty' : List Ptr)
      → Gave n (s.free_count slab) (s.obj_count slab) part full empty part' full' empty'
      → SameElsewhere (partial_list mzi) (full_list mzi) (empty_list mzi) part full empty s.links u
      → IsCache mzi (linked u) part' full' empty'
      → Freed mzi s (linked u) n i part full empty
  freed u part' full' empty' gave others cache = record {
    links = u;
    part' = part';
    full' = full';
    empty' = empty';
    gave = gave;
    store = refl;
    others = others;
    cache = cache;
  }

  abbrev Result : (part full empty : List Ptr) → Type 0
  Result part full empty =
      (t : Store) × (free_in mzi slab p s ≡ some (succeed, t)) × Freed mzi s t n i part full empty

  free_full :
      (xs ys part empty : List Ptr)
      → IsCache mzi s part (xs ++ (n ∷ ys)) empty
      → s.free_count slab ≡ 0
      → Result part (xs ++ (n ∷ ys)) empty
  free_full xs ys part empty is none =
      let th = swap-Three is.lists in
      let (t, (u, remove, push, th', others)) =
        move-Three s.links (full_list mzi) (partial_list mzi) (empty_list mzi) n xs ys part empty
          th in
      let cache =
        rebuilt mzi s n b more u part (xs ++ (n ∷ ys)) empty (n ∷ part) (xs ++ ys) empty is mem
          returned.1 (swap-Three th')
          (λ m h. elim (Bool-cases (m == n)) [
            | inl e ↦ inl (==→eq m n e, omega arith, omega (arith, mem.many))
            | inr ne ↦ inr (==→ne m n ne, ground arith)
          ])
          (λ m h. inr (
            kept s.links (full_list mzi) (partial_list mzi) (empty_list mzi) n xs ys part empty th m
              h))
          (λ m h. inr (
            three-ne s.links (full_list mzi) (partial_list mzi) (empty_list mzi) n xs ys part empty
                th m h,
            h,
          )) in
      (
        linked u,
        partial-run t u none remove push,
        freed u (n ∷ part) (xs ++ ys) empty (reopens part xs ys empty none)
            (λ q x y z. others q y x z) cache,
      )

  free_partial :
      (xs ys full empty : List Ptr)
      → IsCache mzi s (xs ++ (n ∷ ys)) full empty
      → 0 < s.free_count slab
      → Result (xs ++ (n ∷ ys)) full empty
  free_partial xs ys full empty is pos = elim (eq_or_lt more (s.obj_count slab) (omega arith)) [
    | inl all ↦
        let th = swap-Three (turn-Three (turn-Three is.lists)) in
        let (t, (u, remove, push, th', others)) =
          move-Three s.links (partial_list mzi) (empty_list mzi) (full_list mzi) n xs ys empty full
            th in
        let cache =
          rebuilt mzi s n b more u (xs ++ (n ∷ ys)) full empty (xs ++ ys) full (n ∷ empty) is mem
            returned.1 (swap-Three (turn-Three (turn-Three th')))
            (λ m h. inr (
              kept s.links (partial_list mzi) (empty_list mzi) (full_list mzi) n xs ys empty full th
                m h))
            (λ m h. inr (
              three-ne s.links (partial_list mzi) (empty_list mzi) (full_list mzi) n xs ys empty
                  full th m h,
              h,
            ))
            (λ m h. elim (Bool-cases (m == n)) [
              | inl e ↦ inl (==→eq m n e, all)
              | inr ne ↦ inr (==→ne m n ne, ground arith)
            ]) in
        (
          linked u,
          empty-run t u pos all remove push,
          freed u (xs ++ ys) full (n ∷ empty) (empties xs ys full empty all)
              (λ q x y z. others q x z y) cache,
        )
    | inr less ↦
        let th = is.lists in
        let cache =
          rebuilt mzi s n b more s.links (xs ++ (n ∷ ys)) full empty (xs ++ (n ∷ ys)) full empty is
            mem returned.1 th
            (λ m h. elim (Bool-cases (m == n)) [
              | inl e ↦ inl (==→eq m n e, omega arith, less)
              | inr ne ↦ inr (==→ne m n ne, h)
            ])
            (λ m h. inr (
              two-ne s.links (partial_list mzi) (full_list mzi) (empty_list mzi) n xs ys full empty
                  th m h,
              h,
            ))
            (λ m h. inr (
              three-ne s.links (partial_list mzi) (full_list mzi) (empty_list mzi) n xs ys full
                  empty th m h,
              h,
            )) in
        (
          linked s.links,
          keep-run pos less,
          freed s.links (xs ++ (n ∷ ys)) full empty
              (keeps (xs ++ (n ∷ ys)) full empty (mem_middle n xs ys) less)
              (λ q x y z. (refl, refl)) cache,
        )
  ]
    where
      eq_or_lt : (k c : ℕ) → k ≤ c → (k ≡ c) ⊎ (k < c)
      eq_or_lt k c h = omega arith

  free-found :
      (page_size maxpg_count : ℕ)
      → cache_of_obj s page_size maxpg_count p ≡ slab
      → mm_cache_free page_size maxpg_count mzi p s ≡ free_in mzi slab p s
  unfolding mm_cache_free
  free-found page_size maxpg_count found =
      let e : (p == null) ≡ false = ground (arith, mem.slab.placed) in rw (e, found) refl

-- Where the slab of an address is found, `mm_cache_free` of an address in an allocated object of a
-- partial or full slab of a well-formed cache succeeds. The bit of the object is cleared and the slab
-- has one free object more; a partial slab stays in its place, or goes in front of the empty ones
-- when all its objects are free, and a full one goes in front of the partial ones. The other slabs
-- keep their lists and their order, the cache is well-formed, and nothing else in the store has
-- changed but links of the nodes of the three lists.
pub mm_cache_free-Freed :
    (mzi : Ptr) (s : Store) (part full empty : List Ptr) (n i d page_size maxpg_count : ℕ)
    → IsCache mzi s part full empty
    → (n ∈ part) ⊎ (n ∈ full)
    → i < s.obj_count (n - 8)
    → bit (s.alloc_bits (n - 8)) i ≡ 1
    → d < size s (n - 8)
    → cache_of_obj s page_size maxpg_count (obj s (n - 8) i + d) ≡ n - 8
    → (t : Store) × (mm_cache_free page_size maxpg_count mzi (obj s (n - 8) i + d) s
        ≡ some (succeed, t))
      × Freed mzi s t n i part full empty
mm_cache_free-Freed mzi s part full empty n i d page_size maxpg_count is (inl m) lt set inside
      found =
    let (mem, pos, less) = is.in_part n m in
    let (xs, (ys, e)) = split_mem n part m in
    let (t, run, out) =
      subst (λ r. Result mzi s n i d mem inside lt set less r full empty) (sym e)
        (free_partial mzi s n i d mem inside lt set less xs ys full empty
          (subst (λ r. IsCache mzi s r full empty) e is) pos) in
    (t, free-found mzi s n i d mem inside lt set less page_size maxpg_count found ∙ run, out)
mm_cache_free-Freed mzi s part full empty n i d page_size maxpg_count is (inr m) lt set inside
      found =
    let (mem, none) = is.in_full n m in
    let less : s.free_count (n - 8) < s.obj_count (n - 8) = omega (arith, mem.many) in
    let (xs, (ys, e)) = split_mem n full m in
    let (t, run, out) =
      subst (λ r. Result mzi s n i d mem inside lt set less part r empty) (sym e)
        (free_full mzi s n i d mem inside lt set less xs ys part empty
          (subst (λ r. IsCache mzi s part r empty) e is) none) in
    (t, free-found mzi s n i d mem inside lt set less page_size maxpg_count found ∙ run, out)

-- An address in an object that is not allocated is refused.
pub mm_cache_free_twice :
    (mzi : Ptr) (s : Store) (n i d page_size maxpg_count : ℕ)
    → Member mzi s n
    → bit (s.alloc_bits (n - 8)) i ≡ 0
    → d < size s (n - 8)
    → cache_of_obj s page_size maxpg_count (obj s (n - 8) i + d) ≡ n - 8
    → mm_cache_free page_size maxpg_count mzi (obj s (n - 8) i + d) s ≡ some (fail, s)
unfolding mm_cache_free free_in
mm_cache_free_twice mzi s n i d page_size maxpg_count mem clear inside found =
    elim (zreturn_obj_answer s (n - 8) mem.slab i d inside) [
      | inl (_, set, _) ↦ absurd (omega (arith, clear, set))
      | inr (_, refused) ↦
          let e : (obj s (n - 8) i + d == null) ≡ false = ground (arith, mem.slab.placed) in
          let f : (n - 8 == null) ≡ false = ground (arith, mem.present) in
          elim (Bool-cases (leb (s.obj_count (n - 8)) (s.free_count (n - 8)))) [
            | inl all ↦ rw (e, found, f, all) refl
            | inr some_used ↦ rw (e, found, f, some_used, refused) refl
          ]
    ]
