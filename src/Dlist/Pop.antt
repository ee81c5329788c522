-- ===== src/Dlist/Pop.antt =====
-- What `lst_pop_front` and `lst_pop_back` of src/dlist.c do to a list.
use syslib.Prelude.{
  ◌≡◌, ◌≢◌, ◌⊎◌, inl, inr, ◌∙◌, refl, ne→==, true, ◌||◌, List, [], ◌∷◌, ◌++◌, arith, ◌==◌, some,
}
use mathlib.Core.List.{append-nil}
use syslib.Dlist.{
  Ptr, null, Links, succeed, fail, tail_of, lst_remove, lst_pop_back, lst_pop_front, get_prev-ok,
  get_next-ok,
}
use syslib.Dlist.Chain.{IsList, last_of, gap}
use syslib.Dlist.Remove.{Removed, remove-Removed, lst_ne}

-- A removal that the guards refuse changes nothing.
remove-sentinel :
    (s : Links) (lst n : Ptr)
    → lst ≢ null
    → n ≢ null
    → (s.prev n ≡ null) ⊎ (s.next n ≡ null)
    → lst_remove lst n s ≡ some (fail, s)
unfolding lst_remove
remove-sentinel s lst n hl hn end =
    let ht : tail_of lst ≢ null = omega arith in
    let stop : ((s.prev n == null) || (s.next n == null)) ≡ true = ground arith in
    rw
      (
        ne→== lst null hl,
        ne→== n null hn,
        get_prev-ok hn,
        get_next-ok hn,
        get_next-ok hl,
        get_prev-ok ht,
        stop,
      )
      refl

pop_front-run :
    (s t : Links) (lst n : Ptr)
    → lst ≢ null
    → s.next lst ≡ n
    → lst_remove lst n s ≡ some (succeed, t)
    → lst_pop_front lst s ≡ some (n, t)
unfolding lst_pop_front
pop_front-run s t lst n hl e run = rw (ne→== lst null hl, get_next-ok hl, e, run) refl

pop_back-run :
    (s t : Links) (lst n : Ptr)
    → lst ≢ null
    → s.prev (tail_of lst) ≡ n
    → lst_remove lst n s ≡ some (succeed, t)
    → lst_pop_back lst s ≡ some (n, t)
unfolding lst_pop_back
pop_back-run s t lst n hl e run =
    let ht : tail_of lst ≢ null = omega arith in rw (ne→== lst null hl, get_prev-ok ht, e, run) refl

pub last_of-snoc : (n a : Ptr) (xs : List Ptr) → last_of a (xs ++ (n ∷ [])) ≡ n
last_of-snoc n a [] = refl
last_of-snoc n a (x ∷ xs) = last_of-snoc n x xs

last_link :
    (s : Links) (lst n : Ptr) (xs : List Ptr)
    → IsList s lst (xs ++ (n ∷ []))
    → s.prev (tail_of lst) ≡ n
last_link s lst n xs is =
    let inner = xs ++ (n ∷ []) in
    (gap s lst (tail_of lst) inner [] (rw (append-nil inner) is.chain)).1 ∙ last_of-snoc n lst xs

-- On a list that is not empty `lst_pop_front` unlinks and returns the first node, and touches
-- nothing else.
pub pop_front-Removed :
    (s : Links) (lst n : Ptr) (ys : List Ptr)
    → IsList s lst (n ∷ ys)
    → (t : Links) × (lst_pop_front lst s ≡ some (n, t)) × Removed s t lst n [] ys
pop_front-Removed s lst n ys is =
    let (t, run, _, out) = remove-Removed s lst n [] ys is in
    (t, pop_front-run s t lst n (lst_ne s lst n [] ys is) is.chain.0 run, out)

-- On a list that is not empty `lst_pop_back` unlinks and returns the last node, and touches nothing
-- else.
pub pop_back-Removed :
    (s : Links) (lst n : Ptr) (xs : List Ptr)
    → IsList s lst (xs ++ (n ∷ []))
    → (t : Links) × (lst_pop_back lst s ≡ some (n, t)) × Removed s t lst n xs []
pop_back-Removed s lst n xs is =
    let (t, run, _, out) = remove-Removed s lst n xs [] is in
    (t, pop_back-run s t lst n (lst_ne s lst n xs [] is) (last_link s lst n xs is) run, out)

-- On an empty list `lst_pop_front` and `lst_pop_back` return null and change nothing.
pub pop-nil :
    (s : Links) (lst : Ptr)
    → IsList s lst []
    → (lst_pop_front lst s ≡ some (null, s)) × (lst_pop_back lst s ≡ some (null, s))
unfolding lst_pop_front lst_pop_back
pop-nil s lst is =
    let hl : lst ≢ null = ground (arith, is.non_null) in
    let ht : tail_of lst ≢ null = omega arith in
    (
      rw
          (
            ne→== lst null hl,
            get_next-ok hl,
            is.chain.0,
            remove-sentinel s lst (tail_of lst) hl ht (inr is.tail_next),
          )
          refl,
      rw
          (
            ne→== lst null hl,
            get_prev-ok ht,
            is.chain.1,
            remove-sentinel s lst lst hl hl (inl is.head_prev),
          )
          refl,
    )
