-- ===== src/RbTree/Search.antt =====
-- What `rb_search` of src/rbtree.c finds.
use syslib.Prelude.{
  ℕ, zero, suc, ◌<◌, ◌≡◌, ◌≢◌, refl, sym, ◌∙◌, true, false, some, List, [], ◌∷◌, ◌++◌, arith, ltb,
  if◌then◌else◌, length, length-append, ne→==, ◌⊎◌, inl, inr,
}
use syslib.Dlist.{Ptr, null}
use syslib.Dlist.Chain.{◌∈◌, has-append}
use syslib.RbTree.{
  RbTree, left, right, less, same, more, def_order_func, compare_key, search_from, rb_search,
}
use syslib.RbTree.Shape.{Shape, leaf, node, in_order, IsTree}

three : (a b : ℕ) → (a < b) ⊎ ((a ≡ b) ⊎ (b < a))
three a b = omega arith

module _ (rank : Ptr → ℕ) where
  abbrev pub Least : Ptr → List Ptr → Type 0
  Least a [] = Unit
  Least a (x ∷ xs) = (rank a < rank x) × Least a xs

  -- The ranks of the nodes ascend.
  abbrev pub Ascending : List Ptr → Type 0
  Ascending [] = Unit
  Ascending (x ∷ xs) = Least x xs × Ascending xs

  pub Least-mem : (a x : Ptr) (xs : List Ptr) → Least a xs → x ∈ xs → rank a < rank x
  Least-mem a x [] le m = cc
  Least-mem a x (y ∷ ys) (lt, le) m = ground (arith, Least-mem a x ys le)

  pub Least-append : (a : Ptr) (xs ys : List Ptr) → Least a (xs ++ ys) → Least a xs × Least a ys
  Least-append a [] ys le = (tt, le)
  Least-append a (x ∷ xs) ys (lt, le) = let (p, q) = Least-append a xs ys le in ((lt, p), q)

  -- The nodes before and behind `n`.
  pub Ascending-split :
      (n : Ptr) (xs ys : List Ptr)
      → Ascending (xs ++ (n ∷ ys))
      → Ascending xs
        × Ascending ys
        × ((a : Ptr) → a ∈ xs → rank a < rank n)
        × ((a : Ptr) → a ∈ ys → rank n < rank a)
  Ascending-split n [] ys (le, asc) = (tt, asc, (λ a m. cc), λ a m. Least-mem n a ys le m)
  Ascending-split n (x ∷ xs) ys (le, asc) =
      let (ax, ay, before, behind) = Ascending-split n xs ys asc in
      let (lx, (lt, _)) = Least-append x xs (n ∷ ys) le in
      ((lx, ax), ay, (λ a m. ground (arith, before a)), behind)

  -- The node at which the search for a key that is not there ends, from `h` on.
  abbrev pub spot : ℕ → Ptr → Shape → Ptr
  spot k h leaf = h
  spot k h (node b l n r) = if ltb k (rank n) then spot k n l else spot k n r

  module _ (s : RbTree) (k : ℕ)
      (agrees : (n : Ptr) → compare_key s k n ≡ def_order_func k (rank n)) where
    sign_less : (n : Ptr) → k < rank n → compare_key s k n ≡ less
    sign_less n lt = agrees n ∙ ground arith

    sign_same : (n : Ptr) → rank n ≡ k → compare_key s k n ≡ same
    sign_same n e = agrees n ∙ ground arith

    sign_more : (n : Ptr) → rank n < k → compare_key s k n ≡ more
    sign_more n lt = agrees n ∙ ground arith

    search_from_found :
        (fuel : ℕ) (h p q m : Ptr) (t : Shape)
        → IsTree s p q t
        → Ascending (in_order t)
        → m ∈ in_order t
        → rank m ≡ k
        → length (in_order t) < fuel
        → search_from fuel s k h p ≡ some (m, m)
    unfolding search_from
    search_from_found zero h p q m t is asc mem e lt = absurd (omega arith)
    search_from_found (suc fuel) h p q m leaf is asc mem e lt = cc
    search_from_found (suc fuel) h p q m (node b l n r) (ep, ne, _, _, il, ir) asc mem e lt =
        let (al, ar, before, behind) = Ascending-split n (in_order l) (in_order r) asc in
        let both = has-append m (in_order l) (n ∷ in_order r) in
        let size = length-append (in_order l) (n ∷ in_order r) in
        elim (three k (rank n)) [
          | inl lo ↦
              rw (ep, ne→== n null ne, sign_less n lo)
                (search_from_found fuel n (s.child left n) n m l il al
                  (ground (arith, both, behind m)) e (omega (arith, size)))
          | inr (inl eq) ↦
              let here : m ≡ n = ground (arith, both, before m, behind m) in
              rw (ep, ne→== n null ne, sign_same n (sym eq), here) refl
          | inr (inr hi) ↦
              rw (ep, ne→== n null ne, sign_more n hi)
                (search_from_found fuel n (s.child right n) n m r ir ar
                  (ground (arith, both, before m)) e (omega (arith, size)))
        ]

    search_from_absent :
        (fuel : ℕ) (h p q : Ptr) (t : Shape)
        → IsTree s p q t
        → ((a : Ptr) → a ∈ in_order t → rank a ≢ k)
        → length (in_order t) < fuel
        → search_from fuel s k h p ≡ some (null, spot k h t)
    unfolding search_from
    search_from_absent zero h p q t is out lt = absurd (omega arith)
    search_from_absent (suc fuel) h p q leaf is out lt = rw is refl
    search_from_absent (suc fuel) h p q (node b l n r) (ep, ne, _, _, il, ir) out lt =
        let both = λ (a : Ptr). has-append a (in_order l) (n ∷ in_order r) in
        let size = length-append (in_order l) (n ∷ in_order r) in
        elim (three k (rank n)) [
          | inl lo ↦
              let e : ltb k (rank n) ≡ true = ground arith in
              rw (ep, ne→== n null ne, sign_less n lo, e)
                (search_from_absent fuel n (s.child left n) n l il
                  (λ a m. out a (ground (arith, both a))) (omega (arith, size)))
          | inr (inl eq) ↦ absurd (out n (ground (arith, both n)) (sym eq))
          | inr (inr hi) ↦
              let e : ltb k (rank n) ≡ false = ground arith in
              rw (ep, ne→== n null ne, sign_more n hi, e)
                (search_from_absent fuel n (s.child right n) n r ir
                  (λ a m. out a (ground (arith, both a))) (omega (arith, size)))
        ]

    -- Where the comparison is the order of numbers on the ranks of the nodes, in a tree whose ranks
    -- ascend, with fuel above the number of nodes, `rb_search` of the rank of one of its nodes
    -- returns that node.
    pub rb_search_found :
        (fuel : ℕ) (m : Ptr) (t : Shape)
        → IsTree s s.root null t
        → Ascending (in_order t)
        → m ∈ in_order t
        → rank m ≡ k
        → length (in_order t) < fuel
        → rb_search fuel s k ≡ some (m, m)
    unfolding rb_search
    rb_search_found fuel m leaf is asc mem e lt = cc
    rb_search_found fuel m (node b l n r) is asc mem e lt =
        let hr : s.root ≢ null = rw is.0 is.1 in
        rw (ne→== s.root null hr)
          (search_from_found fuel s.root s.root null m (node b l n r) is asc mem e lt)

    -- Where the comparison is the order of numbers on the ranks of the nodes, in a tree none of
    -- whose nodes has the rank, with fuel above the number of nodes, `rb_search` returns null, and
    -- the last node on the way as `hot`, null if the tree is empty.
    pub rb_search_absent :
        (fuel : ℕ) (t : Shape)
        → IsTree s s.root null t
        → ((a : Ptr) → a ∈ in_order t → rank a ≢ k)
        → length (in_order t) < fuel
        → rb_search fuel s k ≡ some (null, spot k null t)
    unfolding rb_search
    rb_search_absent fuel leaf is out lt = rw is refl
    rb_search_absent fuel (node b l n r) is out lt =
        let hr : s.root ≢ null = rw is.0 is.1 in
        rw (ne→== s.root null hr)
          (search_from_absent fuel s.root s.root null (node b l n r) is out lt)
