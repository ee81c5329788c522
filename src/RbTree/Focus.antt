-- ===== src/RbTree/Focus.antt =====
-- A subtree of a tree of src/rbtree.c, with the tree around it: moves, colours and rotations.
use syslib.Prelude.{◌≡◌, ◌≢◌, refl, ap, sym, Bool, some, List, [], ◌∷◌, ◌++◌, arith, upd}
use mathlib.Core.List.{append_assoc, append-nil}
use mathlib.Core.Path.{subst}
use syslib.Dlist.{Ptr}
use syslib.Dlist.Chain.{◌∈◌, ◌∉◌, Distinct, has-append}
use syslib.RbTree.{RbTree, Side, left, right, flip, rotate}
use syslib.RbTree.Shape.{
  Shape, node, branch, in_order, IsTree, Frame, at, plug, IsContext, above, Same, Distinct-append,
  Distinct-node, IsTree-frame, IsContext-frame,
}
use syslib.RbTree.Turn.{Kept, open_branch, close_branch, rotate-IsTree}

-- The converse of the split of a list without repetitions.
Distinct-join :
    (xs ys : List Ptr)
    → Distinct xs
    → Distinct ys
    → ((a : Ptr) → a ∈ xs → a ∉ ys)
    → Distinct (xs ++ ys)
Distinct-join [] ys dx dy apart = dy
Distinct-join (x ∷ xs) ys dx dy apart = (
  ground (arith, has-append x xs ys, dx.0, apart x),
  Distinct-join xs ys dx.1 dy (λ a m. apart a (ground arith)),
)

pub plug-in_order :
    (c : List Frame) (t u : Shape)
    → in_order t ≡ in_order u
    → in_order (plug c t) ≡ in_order (plug c u)
plug-in_order [] t u e = e
plug-in_order (at left b n w ∷ c) t u e =
    plug-in_order c (node b t n w) (node b u n w) (ap (λ xs. xs ++ (n ∷ in_order w)) e)
plug-in_order (at right b n w ∷ c) t u e =
    plug-in_order c (node b w n t) (node b w n u) (ap (λ xs. in_order w ++ (n ∷ xs)) e)

pub Distinct-plug :
    (c : List Frame) (t : Shape) → Distinct (in_order (plug c t)) → Distinct (in_order t ++ above c)
Distinct-plug [] t d = rw (append-nil (in_order t)) d
Distinct-plug (at left b n u ∷ c) t d =
    subst Distinct (append_assoc (in_order t) (n ∷ in_order u) (above c))
      (Distinct-plug c (node b t n u) d)
Distinct-plug (at right b n u ∷ c) t d =
    let (d1, dc, out) =
      Distinct-append (in_order u ++ (n ∷ in_order t)) (above c)
        (Distinct-plug c (node b u n t) d) in
    let (du, (nt, dt), out') = Distinct-append (in_order u) (n ∷ in_order t) d1 in
    let both = λ (a : Ptr). has-append a (in_order u) (n ∷ in_order t) in
    let rest = λ (a : Ptr). has-append a (in_order u) (above c) in
    Distinct-join (in_order t) (n ∷ (in_order u ++ above c)) dt
      (
        ground (arith, rest n, both n, out n, out' n),
        Distinct-join (in_order u) (above c) du dc (λ a m. ground (arith, both a, out a)),
      )
      (λ a m. ground (arith, rest a, both a, out a, out' a))

pub record Focus (s : RbTree) (p q : Ptr) (t : Shape) (c : List Frame) : Type 0 where
  pub tree : IsTree s p q t
  pub context : IsContext s p q c
  pub distinct : Distinct (in_order (plug c t))

pub Focus-up :
    (s : RbTree) (x p : Ptr) (t : Shape) (e : Side) (b : Bool) (n : Ptr) (u : Shape)
    (c : List Frame)
    → Focus s x p t (at e b n u ∷ c)
    → Focus s n (s.parent n) (branch e b t n u) c
Focus-up s x p t e b n u c f =
    let (ep, ne, ch, col, iu, ic) = f.context in
    record {
      tree = close_branch s e n (s.parent n) b t n u (
        refl,
        ne,
        refl,
        col,
        subst (λ r. IsTree s r n t) (sym ch) (subst (λ r. IsTree s x r t) ep f.tree),
        iu,
      );
      context = ic;
      distinct = f.distinct;
    }

pub Focus-down :
    (s : RbTree) (p q : Ptr) (t : Shape) (e : Side) (b : Bool) (n : Ptr) (u : Shape)
    (c : List Frame)
    → Focus s p q (branch e b t n u) c
    → Focus s (s.child e n) n t (at e b n u ∷ c)
Focus-down s p q t e b n u c f =
    let (ep, ne, par, col, it, iu) = open_branch s e p q b t n u f.tree in
    record {
      tree = it;
      context = (
        refl,
        ne,
        refl,
        col,
        iu,
        subst (λ r. IsContext s n r c) (sym par) (subst (λ r. IsContext s r q c) ep f.context),
      );
      distinct = f.distinct;
    }

pub branch-flip :
    (d : Side) (b : Bool) (t : Shape) (n : Ptr) (u : Shape)
    → branch d b t n u ≡ branch (flip d) b u n t
branch-flip left b t n u = refl
branch-flip right b t n u = refl

abbrev pub coloured : Bool → Ptr → RbTree → RbTree
coloured b n s = record s { isblack = upd s.isblack n b }

in_order-branch :
    (d : Side) (b b' : Bool) (t : Shape) (n : Ptr) (u : Shape)
    → in_order (branch d b t n u) ≡ in_order (branch d b' t n u)
in_order-branch left b b' t n u = refl
in_order-branch right b b' t n u = refl

branch_apart :
    (d : Side) (b : Bool) (t : Shape) (n : Ptr) (u : Shape) (xs : List Ptr)
    → Distinct (in_order (branch d b t n u) ++ xs)
    → (n ∉ in_order t) × (n ∉ in_order u) × (n ∉ xs)
branch_apart left b t n u xs d =
    let (d1, _, out) = Distinct-append (in_order t ++ (n ∷ in_order u)) xs d in
    let (_, _, nt, nu) = Distinct-node b t n u d1 in
    (nt, nu, out n (ground (arith, has-append n (in_order t) (n ∷ in_order u))))
branch_apart right b t n u xs d =
    let (d1, _, out) = Distinct-append (in_order u ++ (n ∷ in_order t)) xs d in
    let (_, _, nu, nt) = Distinct-node b u n t d1 in
    (nt, nu, out n (ground (arith, has-append n (in_order u) (n ∷ in_order t))))

-- The colour of the node on top.
pub Focus-coloured :
    (s : RbTree) (p q : Ptr) (t : Shape) (e : Side) (b b' : Bool) (n : Ptr) (u : Shape)
    (c : List Frame)
    → Focus s p q (branch e b t n u) c
    → Focus (coloured b' n s) p q (branch e b' t n u) c
Focus-coloured s p q t e b b' n u c f =
    let (ep, ne, par, col, it, iu) = open_branch s e p q b t n u f.tree in
    let (nt, nu, nc) =
      branch_apart e b t n u (above c) (Distinct-plug c (branch e b t n u) f.distinct) in
    let s' = coloured b' n s in
    let same : (r : Ptr) → r ≢ n → Same s s' r = λ r ne'. ground arith in
    record {
      tree = close_branch s' e p q b' t n u (
        ep,
        ne,
        par,
        ground arith,
        IsTree-frame s s' (s.child e n) n t it (λ r m. same r (ground (arith, nt))),
        IsTree-frame s s' (s.child (flip e) n) n u iu (λ r m. same r (ground (arith, nu))),
      );
      context = IsContext-frame s s' p q c f.context refl (λ r m. same r (ground (arith, nc)));
      distinct =
          subst Distinct
            (plug-in_order c (branch e b t n u) (branch e b' t n u) (in_order-branch e b b' t n u))
            f.distinct;
    }

-- A rotation at the top.
pub Focus-rotate :
    (d : Side) (s : RbTree) (x y p : Ptr) (bx by : Bool) (a tb tc : Shape) (c : List Frame)
    → Focus s x p (branch d bx a x (branch d by tb y tc)) c
    → (t : RbTree) × (rotate d x s ≡ some (tt, t))
      × Focus t y p (branch d by (branch d bx a x tb) y tc) c
      × Kept s t
Focus-rotate d s x y p bx by a tb tc c f =
    let big = branch d bx a x (branch d by tb y tc) in
    let (t, run, it, ic, kept, order) =
      rotate-IsTree d s x y p bx by a tb tc c f.tree f.context (Distinct-plug c big f.distinct) in
    (
      t,
      run,
      record {
        tree = it;
        context = ic;
        distinct =
            subst Distinct (plug-in_order c big (branch d by (branch d bx a x tb) y tc) (sym order))
              f.distinct;
      },
      kept,
    )
