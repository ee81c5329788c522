-- ===== src/Dlist/Query.antt =====
-- What the queries of src/dlist.c answer on a list.
use syslib.Prelude.{◌≡◌, refl, Bool, true, false, List, [], ◌∷◌, arith, some, eq→==, ne→==}
use syslib.Dlist.{Ptr, Links, tail_of, lst_empty, lst_first, get_next-ok, get_prev-ok}
use syslib.Dlist.Chain.{IsList, IsList-inner, first_of}
use syslib.Dlist.Unlink.{not_empty}

abbrev pub is_nil : List Ptr → Bool
is_nil [] = true
is_nil (x ∷ xs) = false

-- On a list `lst_empty` answers whether it has no nodes, `lst_first` returns its first node or the
-- tail sentinel if it has none, and neither changes anything.
pub query-IsList :
    (s : Links) (lst : Ptr) (xs : List Ptr)
    → IsList s lst xs
    → (lst_empty lst s ≡ some (is_nil xs, s))
      × (lst_first lst s ≡ some (first_of xs (tail_of lst), s))
unfolding lst_empty lst_first
query-IsList s lst [] is =
    let hl = (IsList-inner lst [] is).0 in
    (
      rw
          (
            get_next-ok hl,
            is.chain.0,
            get_prev-ok {p = tail_of lst} (omega arith),
            eq→== (tail_of lst) (tail_of lst) refl,
          )
          refl,
      rw (get_next-ok hl, is.chain.0) refl,
    )
query-IsList s lst (x ∷ xs) is =
    let hl = (IsList-inner lst (x ∷ xs) is).0 in
    let (last, first) = not_empty s lst x [] xs is in
    (
      rw
          (
            get_next-ok hl,
            get_prev-ok {p = tail_of lst} (omega arith),
            ne→== (s.next lst) (tail_of lst) first,
            ne→== (s.prev (tail_of lst)) lst last,
          )
          refl,
      rw (get_next-ok hl, is.chain.0) refl,
    )
