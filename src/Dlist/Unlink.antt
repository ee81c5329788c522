-- ===== src/Dlist/Unlink.antt =====
-- What the writes that unlink a node in src/dlist.c do to the neighbours.
use syslib.Prelude.{upd, ◌≡◌, ◌≢◌, refl, ne→==, List, [], ◌∷◌, ◌++◌, arith, some}
use mathlib.Core.List.{append-nil}
use syslib.Dlist.{
  unlink, Ptr, null, Links, succeed, tail_of, lst_remove, lst_remove_node, get_prev-ok, get_next-ok,
  set_prev-ok, set_next-ok,
}
use syslib.Dlist.Chain.{
  ◌∈◌, ◌∉◌, Distinct, Chain, IsList, last_of, first_of, has-append, last_of-mem, first_of-mem,
  ne_of_mem, gap, frame, not_mem_last,
}

-- `n` is taken out from between `p` and `q`.
abbrev pub unlinked : Links → Ptr → Ptr → Ptr → Links
unlinked s p n q = record { prev = upd (upd s.prev q p) n null; next = upd (upd s.next p q) n null }

-- The two neighbours of a node of a list.
pub neighbours :
    (s : Links) (n a b : Ptr) (xs ys : List Ptr)
    → Chain s a (xs ++ (n ∷ ys)) b
    → (s.prev n ≡ last_of a xs) × (s.next n ≡ first_of ys b)
neighbours s n a b [] [] c = ground arith
neighbours s n a b [] (y ∷ ys) c = ground arith
neighbours s n a b (x ∷ xs) ys (e, f, c) = neighbours s n x b xs ys c

pub Chain-unlinked :
    (s : Links) (n a b : Ptr) (xs ys : List Ptr)
    → Chain s a (xs ++ (n ∷ ys)) b
    → Distinct (a ∷ ((xs ++ ys) ++ (b ∷ [])))
    → n ∉ (a ∷ ((xs ++ ys) ++ (b ∷ [])))
    → Chain (unlinked s (last_of a xs) n (first_of ys b)) a (xs ++ ys) b
Chain-unlinked s n a b [] [] c d out = ground arith
Chain-unlinked s n a b [] (y ∷ ys) (e, f, (g, h, c)) d out = (
  ground arith,
  ground arith,
  frame y b ys c
      (λ p m. ground (
        arith,
        has-append p (y ∷ ys) (b ∷ []),
        ne_of_mem p a (y ∷ (ys ++ (b ∷ []))),
        ne_of_mem p n (y ∷ (ys ++ (b ∷ []))),
      ))
      (λ p m. ground (arith, ne_of_mem p y (ys ++ (b ∷ [])), ne_of_mem p n (ys ++ (b ∷ [])))),
)
Chain-unlinked s n a b (x ∷ xs) ys (e, f, c) d out = (
  ground (
    arith,
    last_of-mem x xs,
    ne_of_mem (last_of x xs) a (x ∷ xs),
    has-append a (xs ++ ys) (b ∷ []),
    has-append a xs ys,
  ),
  ground (
    arith,
    first_of-mem ys b,
    ne_of_mem (first_of ys b) x (ys ++ (b ∷ [])),
    has-append x (xs ++ ys) (b ∷ []),
    has-append x xs ys,
    has-append x ys (b ∷ []),
  ),
  Chain-unlinked s n x b xs ys c d.1 (ground arith),
)

pub unlink-run :
    (s : Links) (n : Ptr)
    → n ≢ null
    → s.prev n ≢ null
    → s.next n ≢ null
    → n ≢ s.prev n
    → unlink n s ≡ some (succeed, unlinked s (s.prev n) n (s.next n))
unlink-run s n hn hp hq ne =
    rw
      (
        get_prev-ok hn,
        get_next-ok hn,
        set_next-ok hp,
        get_next-ok hn,
        get_prev-ok hn,
        ne→== n (s.prev n) ne,
        set_prev-ok hq,
        set_prev-ok hn,
        set_next-ok hn,
      )
      refl

pub lst_remove-run :
    (s : Links) (lst n : Ptr)
    → lst ≢ null
    → n ≢ null
    → s.prev n ≢ null
    → s.next n ≢ null
    → n ≢ s.prev n
    → s.prev (tail_of lst) ≢ lst
    → s.next lst ≢ tail_of lst
    → n ≢ lst
    → n ≢ tail_of lst
    → lst_remove lst n s ≡ some (succeed, unlinked s (s.prev n) n (s.next n))
unfolding lst_remove
lst_remove-run s lst n hl hn hp hq ne some_last some_first ne_head ne_tail =
    let ht : tail_of lst ≢ null = omega arith in
    rw
      (
        ne→== lst null hl,
        ne→== n null hn,
        get_prev-ok hn,
        get_next-ok hn,
        get_next-ok hl,
        get_prev-ok ht,
        ne→== (s.prev n) null hp,
        ne→== (s.next n) null hq,
        ne→== (s.prev (tail_of lst)) lst some_last,
        ne→== (s.next lst) (tail_of lst) some_first,
        ne→== n lst ne_head,
        ne→== n (tail_of lst) ne_tail,
      )
      (unlink-run s n hn hp hq ne)

pub lst_remove_node-run :
    (s : Links) (n : Ptr)
    → n ≢ null
    → s.prev n ≢ null
    → s.next n ≢ null
    → n ≢ s.prev n
    → lst_remove_node n s ≡ some (succeed, unlinked s (s.prev n) n (s.next n))
unfolding lst_remove_node
lst_remove_node-run s n hn hp hq ne =
    rw
      (
        ne→== n null hn,
        get_prev-ok hn,
        get_next-ok hn,
        ne→== (s.prev n) null hp,
        ne→== (s.next n) null hq,
      )
      (unlink-run s n hn hp hq ne)

pub first_of-inner : (n b : Ptr) (xs ys : List Ptr) → first_of (xs ++ (n ∷ ys)) b ∈ (xs ++ (n ∷ ys))
first_of-inner n b [] ys = ground arith
first_of-inner n b (x ∷ xs) ys = ground arith

pub last_of-inner : (n a : Ptr) (xs ys : List Ptr) → last_of a (xs ++ (n ∷ ys)) ∈ (xs ++ (n ∷ ys))
last_of-inner n a [] ys = last_of-mem n ys
last_of-inner n a (x ∷ xs) ys = ground (arith, last_of-inner n x xs ys)

-- The sentinels of a list that is not empty do not point at one another.
pub not_empty :
    (s : Links) (lst n : Ptr) (xs ys : List Ptr)
    → IsList s lst (xs ++ (n ∷ ys))
    → (s.prev (tail_of lst) ≢ lst) × (s.next lst ≢ tail_of lst)
not_empty s lst n xs ys is =
    let inner = xs ++ (n ∷ ys) in
    let t = tail_of lst in
    let (first, _) = gap s lst t [] inner is.chain in
    let (_, last) = gap s lst t inner [] (rw (append-nil inner) is.chain) in
    let hl : lst ∉ inner = ground (arith, is.distinct, has-append lst inner (t ∷ [])) in
    let ht : t ∉ inner = ground (arith, not_mem_last t (lst ∷ inner) is.distinct) in
    (
      rw last (ne_of_mem (last_of lst inner) lst inner (last_of-inner n lst xs ys) hl),
      rw first (ne_of_mem (first_of inner t) t inner (first_of-inner n t xs ys) ht),
    )
