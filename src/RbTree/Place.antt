-- ===== src/RbTree/Place.antt =====
-- The place of a new key among the ranks of a tree of src/rbtree.c.
use syslib.Prelude.{
  ℕ, ◌<◌, ◌≡◌, ◌≢◌, refl, Bool, true, List, [], ◌∷◌, ◌++◌, arith, ltb, Bool-cases, inl, inr,
}
use syslib.Dlist.{Ptr}
use syslib.Dlist.Chain.{◌∈◌, has-append}
use syslib.RbTree.{Side, left, right, Sign, less, more, def_order_func}
use syslib.RbTree.Shape.{Shape, leaf, node, in_order, Frame, at}
use syslib.RbTree.Search.{Least, Ascending, Least-append, Ascending-split, spot}
use syslib.RbTree.Path.{before, behind, path, all, all-append, above_all, below_all}

abbrev pub sign_of : Side → Sign
sign_of left = less
sign_of right = more

module _ (rank : Ptr → ℕ) (k : ℕ) where
  abbrev pub Between : List Frame → Type 0
  Between c = (all rank k (λ r. ltb r k) (before c) ≡ true) × (all rank k (ltb k) (behind c) ≡ true)

  pub path-Between :
      (t : Shape) (c : List Frame)
      → Ascending rank (in_order t)
      → ((a : Ptr) → a ∈ in_order t → rank a ≢ k)
      → Between c
      → Between (path rank k t c)
  path-Between leaf c asc out bet = bet
  path-Between (node b l n r) c asc out (lo, hi) =
      let both = λ (a : Ptr). has-append a (in_order l) (n ∷ in_order r) in
      let (al, ar, smaller, larger) = Ascending-split rank n (in_order l) (in_order r) asc in
      elim (Bool-cases (ltb k (rank n))) [
        | inl lt ↦ rw lt (
            path-Between l (at left b n r ∷ c) al (λ a m. out a (ground (arith, both a)))
              (
                lo,
                ground (
                  arith,
                  all-append rank k (ltb k) (in_order r) (behind c),
                  above_all rank k n (in_order r) larger,
                ),
              ))
        | inr ge ↦
            let gt : rank n < k = ground (arith, out n, both n) in
            rw ge (
              path-Between r (at right b n l ∷ c) ar (λ a m. out a (ground (arith, both a)))
                (
                  ground (
                    arith,
                    all-append rank k (λ i. ltb i k) (before c) (in_order l ++ (n ∷ [])),
                    all-append rank k (λ i. ltb i k) (in_order l) (n ∷ []),
                    below_all rank k n (in_order l) smaller gt,
                  ),
                  hi,
                ))
      ]

  -- The nearest frame is at the node that the search ends at, on the side of the comparison.
  abbrev pub Top : List Frame → Ptr → Type 0
  Top c h =
      (e : Side) × (b : Bool) × (u : Shape) × (c' : List Frame) × (c ≡ at e b h u ∷ c')
      × (def_order_func k (rank h) ≡ sign_of e)

  path-Top :
      (t : Shape) (c : List Frame) (h : Ptr)
      → Top c h
      → ((a : Ptr) → a ∈ in_order t → rank a ≢ k)
      → Top (path rank k t c) (spot rank k h t)
  path-Top leaf c h top out = top
  path-Top (node b l n r) c h top out =
      let both = λ (a : Ptr). has-append a (in_order l) (n ∷ in_order r) in
      elim (Bool-cases (ltb k (rank n))) [
        | inl lt ↦ rw lt (
            path-Top l (at left b n r ∷ c) n (left, b, r, c, refl, ground arith)
              (λ a m. out a (ground (arith, both a))))
        | inr ge ↦ rw ge (
            path-Top r (at right b n l ∷ c) n (right, b, l, c, refl, ground (arith, out n, both n))
              (λ a m. out a (ground (arith, both a))))
      ]

  pub path-node :
      (h : Ptr) (b : Bool) (l : Shape) (n : Ptr) (r : Shape)
      → ((a : Ptr) → a ∈ in_order (node b l n r) → rank a ≢ k)
      → Top (path rank k (node b l n r) []) (spot rank k h (node b l n r))
  path-node h b l n r out =
      let both = λ (a : Ptr). has-append a (in_order l) (n ∷ in_order r) in
      elim (Bool-cases (ltb k (rank n))) [
        | inl lt ↦ rw lt (
            path-Top l (at left b n r ∷ []) n (left, b, r, [], refl, ground arith)
              (λ a m. out a (ground (arith, both a))))
        | inr ge ↦ rw ge (
            path-Top r (at right b n l ∷ []) n
              (right, b, l, [], refl, ground (arith, out n, both n))
              (λ a m. out a (ground (arith, both a))))
      ]

  Least-join :
      (y : Ptr) (xs ys : List Ptr) → Least rank y xs → Least rank y ys → Least rank y (xs ++ ys)
  Least-join y [] ys a b = b
  Least-join y (x ∷ xs) ys (lt, a) b = (lt, Least-join y xs ys a b)

  Least-all :
      (x : Ptr) (ys : List Ptr) → rank x ≡ k → all rank k (ltb k) ys ≡ true → Least rank x ys
  Least-all x [] e h = tt
  Least-all x (y ∷ ys) e h = (ground arith, Least-all x ys e (ground arith))

  pub Ascending-join :
      (x : Ptr) (xs ys : List Ptr)
      → Ascending rank (xs ++ ys)
      → rank x ≡ k
      → all rank k (λ r. ltb r k) xs ≡ true
      → all rank k (ltb k) ys ≡ true
      → Ascending rank (xs ++ (x ∷ ys))
  Ascending-join x [] ys asc e lo hi = (Least-all x ys e hi, asc)
  Ascending-join x (y ∷ xs) ys (le, asc) e lo hi =
      let (l1, l2) = Least-append rank y xs ys le in
      (
        Least-join y xs (x ∷ ys) l1 (ground arith, l2),
        Ascending-join x xs ys asc e (ground arith) hi,
      )
