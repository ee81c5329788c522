-- ===== src/RbTree/Shape.antt =====
-- What a tree in the store of src/rbtree.c stands for, and the rest of a tree around a subtree.
use syslib.Prelude.{◌≡◌, ◌≢◌, ◌∙◌, Bool, List, [], ◌∷◌, ◌++◌, arith}
use syslib.Dlist.{Ptr, null}
use syslib.Dlist.Chain.{◌∈◌, ◌∉◌, Distinct, has-append}
use syslib.RbTree.{RbTree, Side, left, right, flip}

-- A tree of nodes with their colours.
pub data Shape : Type 0 where
  leaf : Shape
  node : (black : Bool) (l : Shape) (n : Ptr) (r : Shape) → Shape

-- The tree with `t` on the side `d` and `u` on the other.
abbrev pub branch : Side → Bool → Shape → Ptr → Shape → Shape
branch left b t n u = node b t n u
branch right b t n u = node b u n t

abbrev pub in_order : Shape → List Ptr
in_order leaf = []
in_order (node b l n r) = in_order l ++ (n ∷ in_order r)

-- The tree at `p`, below `q`.
abbrev pub IsTree : RbTree → Ptr → Ptr → Shape → Type 0
IsTree s p q leaf = p ≡ null
IsTree s p q (node b l n r) =
    (p ≡ n)
    × (n ≢ null)
    × (s.parent n ≡ q)
    × (s.isblack n ≡ b)
    × IsTree s (s.child left n) n l
    × IsTree s (s.child right n) n r

-- A node above a subtree, which is on the side `d` of it, and what is on its other side.
pub data Frame : Type 0 where
  at : (d : Side) (black : Bool) (n : Ptr) (u : Shape) → Frame

-- The tree with `t` below the frames, the nearest first.
abbrev pub plug : List Frame → Shape → Shape
plug [] t = t
plug (at d b n u ∷ c) t = plug c (branch d b t n u)

-- The rest of the tree, around a subtree at `p` below `q`.
abbrev pub IsContext : RbTree → Ptr → Ptr → List Frame → Type 0
IsContext s p q [] = (q ≡ null) × (s.root ≡ p)
IsContext s p q (at d b n u ∷ c) =
    (q ≡ n)
    × (n ≢ null)
    × (s.child d n ≡ p)
    × (s.isblack n ≡ b)
    × IsTree s (s.child (flip d) n) n u
    × IsContext s n (s.parent n) c

abbrev pub above : List Frame → List Ptr
above [] = []
above (at d b n u ∷ c) = n ∷ (in_order u ++ above c)

abbrev pub Same : RbTree → RbTree → Ptr → Type 0
Same s t p =
    (t.child left p ≡ s.child left p)
    × (t.child right p ≡ s.child right p)
    × (t.parent p ≡ s.parent p)
    × (t.isblack p ≡ s.isblack p)

pub Distinct-append :
    (xs ys : List Ptr)
    → Distinct (xs ++ ys)
    → Distinct xs × Distinct ys × ((a : Ptr) → a ∈ xs → a ∉ ys)
Distinct-append [] ys d = (tt, d, λ a m. cc)
Distinct-append (x ∷ xs) ys d =
    let (dx, dy, apart) = Distinct-append xs ys d.1 in
    (
      (ground (arith, has-append x xs ys), dx),
      dy,
      λ a m. ground (arith, has-append x xs ys, apart a),
    )

-- The root is in neither subtree.
pub Distinct-node :
    (b : Bool) (l : Shape) (n : Ptr) (r : Shape)
    → Distinct (in_order (node b l n r))
    → Distinct (in_order l) × Distinct (in_order r) × (n ∉ in_order l) × (n ∉ in_order r)
Distinct-node b l n r d =
    let (dl, (nr, dr), apart) = Distinct-append (in_order l) (n ∷ in_order r) d in
    (dl, dr, ground (arith, apart n), nr)

module _ (s t : RbTree) where
  pub IsTree-frame :
      (p q : Ptr) (sh : Shape)
      → IsTree s p q sh
      → ((r : Ptr) → r ∈ in_order sh → Same s t r)
      → IsTree t p q sh
  IsTree-frame p q leaf is same = is
  IsTree-frame p q (node b l n r) (e, ne, par, col, il, ir) same =
      let both = λ (x : Ptr). has-append x (in_order l) (n ∷ in_order r) in
      let (cl, cr, cp, cb) = same n (ground (arith, both n)) in
      (
        e,
        ne,
        cp ∙ par,
        cb ∙ col,
        rw cl (IsTree-frame (s.child left n) n l il (λ x m. same x (ground (arith, both x)))),
        rw cr (IsTree-frame (s.child right n) n r ir (λ x m. same x (ground (arith, both x)))),
      )

  -- The tree with another parent of its root.
  pub IsTree-moved :
      (p q q' : Ptr) (sh : Shape)
      → IsTree s p q sh
      → Distinct (in_order sh)
      → (p ≢ null
          → (t.parent p ≡ q')
            × (t.child left p ≡ s.child left p)
            × (t.child right p ≡ s.child right p)
            × (t.isblack p ≡ s.isblack p))
      → ((r : Ptr) → r ∈ in_order sh → r ≢ p → Same s t r)
      → IsTree t p q' sh
  IsTree-moved p q q' leaf is d top same = is
  IsTree-moved p q q' (node b l n r) (e, ne, _, col, il, ir) d top same =
      let hp : p ≢ null = rw e ne in
      let both = λ (x : Ptr). has-append x (in_order l) (n ∷ in_order r) in
      let (_, _, nl, nr) = Distinct-node b l n r d in
      let (cp', cl', cr', cb') = top hp in
      let cp = rw e at cp' in
      let cl = rw e at cl' in
      let cr = rw e at cr' in
      let cb = rw e at cb' in
      (
        e,
        ne,
        cp,
        cb ∙ col,
        rw cl (
            IsTree-frame (s.child left n) n l il
              (λ x m. same x (ground (arith, both x)) (ground arith))),
        rw cr (
            IsTree-frame (s.child right n) n r ir
              (λ x m. same x (ground (arith, both x)) (ground arith))),
      )

  pub IsContext-frame :
      (p q : Ptr) (c : List Frame)
      → IsContext s p q c
      → t.root ≡ s.root
      → ((r : Ptr) → r ∈ above c → Same s t r)
      → IsContext t p q c
  IsContext-frame p q [] is root same = (is.0, root ∙ is.1)
  IsContext-frame p q (at left b n u ∷ c) (e, ne, ch, col, iu, ic) root same =
      let both = λ (x : Ptr). has-append x (in_order u) (above c) in
      let (cl, cr, cp, cb) = same n (ground arith) in
      (
        e,
        ne,
        cl ∙ ch,
        cb ∙ col,
        rw cr (IsTree-frame (s.child right n) n u iu (λ x m. same x (ground (arith, both x)))),
        rw cp (IsContext-frame n (s.parent n) c ic root (λ x m. same x (ground (arith, both x)))),
      )
  IsContext-frame p q (at right b n u ∷ c) (e, ne, ch, col, iu, ic) root same =
      let both = λ (x : Ptr). has-append x (in_order u) (above c) in
      let (cl, cr, cp, cb) = same n (ground arith) in
      (
        e,
        ne,
        cr ∙ ch,
        cb ∙ col,
        rw cl (IsTree-frame (s.child left n) n u iu (λ x m. same x (ground (arith, both x)))),
        rw cp (IsContext-frame n (s.parent n) c ic root (λ x m. same x (ground (arith, both x)))),
      )
