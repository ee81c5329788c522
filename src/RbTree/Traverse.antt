-- ===== src/RbTree/Traverse.antt =====
-- The walks of src/rbtree.c over a tree: the successor of a node and the three traversals.
use syslib.Prelude.{
  ℕ, zero, suc, ◌<◌, ◌≡◌, ◌≢◌, refl, ap, sym, ◌∙◌, Bool, Option, some, none, List, [], ◌∷◌, ◌++◌,
  arith, ◌==◌, if◌then◌else◌, ne→==, eq→==, length, length-append,
}
use mathlib.Core.List.{append_assoc}
use syslib.Dlist.{Ptr, null}
use syslib.Dlist.Chain.{first_of}
use syslib.RbTree.{RbTree, left, right}
use syslib.RbTree.Shape.{Shape, leaf, node, in_order, IsTree, Frame, at}
use syslib.RbTree.Focus.{Focus, Focus-up}
use syslib.RbTree.Round.{other_child}
use syslib.RbTree.Path.{behind}

-- The loop of `_succ`; `none` is the end of the fuel.
unfoldable pub leftmost : ℕ → RbTree → (p subroot : Ptr) → Option Ptr
leftmost zero s p subroot = none
leftmost (suc fuel) s p subroot =
    let rest = leftmost fuel s subroot (s.child left subroot) in
    if subroot == null then some p else rest

-- The loop of `rb_succ`.
next_above : ℕ → RbTree → (x y : Ptr) → Option Ptr
next_above zero s x y = none
next_above (suc fuel) s x y =
    let rest = next_above fuel s y (s.parent y) in
    if y == null then some y else if x == s.child right y then rest else some y

pub rb_succ : ℕ → RbTree → Ptr → Option Ptr
unfolding leftmost next_above
rb_succ fuel s x =
    let r = if x == null then null else s.child right x in
    let y = if x == null then null else s.parent x in
    if r == null then next_above fuel s x y else leftmost fuel s r r

-- The nodes for which the traversals call `f`, in the order of the calls; `none` is the end of the
-- fuel.
abbrev visits :
    (List Ptr → List Ptr → List Ptr) → Option (List Ptr) → Option (List Ptr) → Option (List Ptr)
visits f none b = none
visits f (some a) none = none
visits f (some a) (some b) = some (f a b)

pub in_order_visits : ℕ → RbTree → Ptr → Option (List Ptr)
in_order_visits zero s p = none
in_order_visits (suc fuel) s p =
    let l = in_order_visits fuel s (s.child left p) in
    let r = in_order_visits fuel s (s.child right p) in
    if p == null then some [] else visits (λ a b. a ++ (p ∷ b)) l r

pub pre_order_visits : ℕ → RbTree → Ptr → Option (List Ptr)
pre_order_visits zero s p = none
pre_order_visits (suc fuel) s p =
    let l = pre_order_visits fuel s (s.child left p) in
    let r = pre_order_visits fuel s (s.child right p) in
    if p == null then some [] else visits (λ a b. p ∷ (a ++ b)) l r

pub post_order_visits : ℕ → RbTree → Ptr → Option (List Ptr)
post_order_visits zero s p = none
post_order_visits (suc fuel) s p =
    let l = post_order_visits fuel s (s.child left p) in
    let r = post_order_visits fuel s (s.child right p) in
    if p == null then some [] else visits (λ a b. a ++ (b ++ (p ∷ []))) l r

abbrev pub pre_nodes : Shape → List Ptr
pre_nodes leaf = []
pre_nodes (node b l n r) = n ∷ (pre_nodes l ++ pre_nodes r)

abbrev pub post_nodes : Shape → List Ptr
post_nodes leaf = []
post_nodes (node b l n r) = post_nodes l ++ (post_nodes r ++ (n ∷ []))

-- On a tree, with fuel above the number of its nodes, `in_order` visits the nodes from left to
-- right, `pre_order` each before its subtrees and `post_order` each behind them.
pub traverse-IsTree :
    (fuel : ℕ) (s : RbTree) (p q : Ptr) (t : Shape)
    → IsTree s p q t
    → length (in_order t) < fuel
    → (in_order_visits fuel s p ≡ some (in_order t))
      × (pre_order_visits fuel s p ≡ some (pre_nodes t))
      × (post_order_visits fuel s p ≡ some (post_nodes t))
unfolding in_order_visits pre_order_visits post_order_visits
traverse-IsTree zero s p q t is lt = absurd (omega arith)
traverse-IsTree (suc fuel) s p q leaf is lt = (rw is refl, rw is refl, rw is refl)
traverse-IsTree (suc fuel) s p q (node b l n r) (e, ne, _, _, il, ir) lt =
    let size = length-append (in_order l) (n ∷ in_order r) in
    let (a1, a2, a3) = traverse-IsTree fuel s (s.child left n) n l il (omega (arith, size)) in
    let (b1, b2, b3) = traverse-IsTree fuel s (s.child right n) n r ir (omega (arith, size)) in
    (
      rw (e, ne→== n null ne, a1, b1) refl,
      rw (e, ne→== n null ne, a2, b2) refl,
      rw (e, ne→== n null ne, a3, b3) refl,
    )

first_of-append : (xs ys : List Ptr) (n b : Ptr) → first_of (xs ++ (n ∷ ys)) b ≡ first_of xs n
first_of-append [] ys n b = refl
first_of-append (x ∷ xs) ys n b = refl

leftmost-run :
    (fuel : ℕ) (s : RbTree) (p sub q : Ptr) (t : Shape)
    → IsTree s sub q t
    → length (in_order t) < fuel
    → leftmost fuel s p sub ≡ some (first_of (in_order t) p)
unfolding leftmost
leftmost-run zero s p sub q t is lt = absurd (omega arith)
leftmost-run (suc fuel) s p sub q leaf is lt = rw is refl
leftmost-run (suc fuel) s p sub q (node b l n r) (e, ne, _, _, il, ir) lt =
    let size = length-append (in_order l) (n ∷ in_order r) in
    rw (e, ne→== n null ne, first_of-append (in_order l) (in_order r) n p)
      (leftmost-run fuel s n (s.child left n) n l il (omega (arith, size)))

next_above-run :
    (c : List Frame) (fuel : ℕ) (s : RbTree) (x y : Ptr) (t : Shape)
    → Focus s x y t c
    → x ≢ null
    → length c < fuel
    → next_above fuel s x y ≡ some (first_of (behind c) null)
unfolding next_above
next_above-run c zero s x y t f hx lt = absurd (omega arith)
next_above-run [] (suc fuel) s x y t f hx lt = rw f.context.0 refl
next_above-run (at left b n u ∷ c) (suc fuel) s x y t f hx lt =
    let apart : x ≢ s.child right n = λ e. other_child s x y t left b n u c f hx (sym e) in
    rw (f.context.0, ne→== n null f.context.1, ne→== x (s.child right n) apart) refl
next_above-run (at right b n u ∷ c) (suc fuel) s x y t f hx lt =
    rw (f.context.0, ne→== n null f.context.1, eq→== x (s.child right n) (sym f.context.2))
      (next_above-run c fuel s n (s.parent n) (node b u n t) (Focus-up s x y t right b n u c f)
        f.context.1 (omega arith))

-- For a node `x` of a tree, with `r` on its right, the frames `c` above it, and fuel above the number
-- of nodes in `r` and of the frames, `rb_succ` returns the node behind `x` in the order of the tree,
-- null behind the last one.
pub rb_succ-Focus :
    (fuel : ℕ) (s : RbTree) (x q : Ptr) (b : Bool) (l r : Shape) (c : List Frame)
    → Focus s x q (node b l x r) c
    → length (in_order r) < fuel
    → length c < fuel
    → rb_succ fuel s x ≡ some (first_of (in_order r ++ behind c) null)
unfolding rb_succ
rb_succ-Focus fuel s x q b l leaf c f lt deep =
    let (_, hx, par, _, _, ir) = f.tree in
    rw (ne→== x null hx, ir, par) (next_above-run c fuel s x q (node b l x leaf) f hx deep)
rb_succ-Focus fuel s x q b l (node b' l' n r') c f lt deep =
    let (_, hx, par, _, _, ir) = f.tree in
    let tail = in_order r' ++ behind c in
    rw
      (
        ne→== x null hx,
        ir.0,
        ne→== n null ir.1,
        append_assoc (in_order l') (n ∷ in_order r') (behind c),
        first_of-append (in_order l') tail n null,
      )
      (leftmost-run fuel s n n x (node b' l' n r') (rw ir.0 at ir) lt
        ∙ ap some (first_of-append (in_order l') (in_order r') n n))
