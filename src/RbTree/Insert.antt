-- ===== src/RbTree/Insert.antt =====
-- What `rb_insert` of src/rbtree.c makes of a tree.
use syslib.Prelude.{
  ℕ, ◌≡◌, ◌≢◌, refl, sym, ◌∙◌, Bool, false, some, List, [], ◌∷◌, ◌++◌, arith, length,
}
use mathlib.Core.Path.{subst}
use mathlib.Core.List.{append-nil}
use syslib.Dlist.{Ptr, null}
use syslib.Dlist.Chain.{◌∈◌, ◌∉◌, Distinct, has-append, Distinct-insert}
use syslib.RbTree.{RbTree, Side, left, right, flip, put-ok, link}
use syslib.RbTree.Shape.{
  Shape, leaf, node, in_order, IsTree, Frame, at, plug, IsContext, above, Same, IsTree-frame,
  IsContext-frame,
}
use syslib.RbTree.Focus.{Focus, Distinct-plug}
use syslib.RbTree.Fix.{red, IsRedBlack}
use syslib.RbTree.Search.{Ascending}
use syslib.RbTree.Path.{before, behind, plug-split}
use syslib.RbTree.Place.{sign_of}
use syslib.RbTree.Link.{has-plug, filled, linked}

pub link-run :
    (e : Side) (x h : Ptr) (s : RbTree)
    → x ≢ null
    → h ≢ null
    → link (sign_of e) x h (filled x h s) ≡ some (some tt, linked e x h s)
link-run left x h s hx hh = rw (put-ok hh, put-ok hx) refl
link-run right x h s hx hh = rw (put-ok hh, put-ok hx) refl

module _ (s : RbTree) (x h : Ptr) (xh : x ≢ h) where
  linked-elsewhere : (e : Side) (r : Ptr) → r ≢ x → r ≢ h → Same s (linked e x h s) r
  linked-elsewhere left r rx rh = ground arith
  linked-elsewhere right r rx rh = ground arith

  linked-above :
      (e : Side)
      → ((linked e x h s).child e h ≡ x)
        × ((linked e x h s).child (flip e) h ≡ s.child (flip e) h)
        × ((linked e x h s).parent h ≡ s.parent h)
        × ((linked e x h s).isblack h ≡ s.isblack h)
  linked-above left = ground arith
  linked-above right = ground arith

  linked-new :
      (e : Side)
      → ((linked e x h s).child left x ≡ null)
        × ((linked e x h s).child right x ≡ null)
        × ((linked e x h s).parent x ≡ h)
        × ((linked e x h s).isblack x ≡ false)
  linked-new left = ground arith
  linked-new right = ground arith

pub Distinct-new :
    (c : List Frame) (x : Ptr)
    → Distinct (in_order (plug c leaf))
    → x ∉ in_order (plug c leaf)
    → Distinct (in_order (plug c (node false leaf x leaf)))
Distinct-new c x d out =
    let e = append-nil (before c ++ behind c) in
    let d' : Distinct ((before c ++ behind c) ++ []) =
      rw e (subst Distinct (plug-split c leaf) d) in
    let out' : x ∉ ((before c ++ behind c) ++ []) =
      rw e (subst (λ xs. x ∉ xs) (plug-split c leaf) out) in
    subst Distinct (sym (plug-split c (node false leaf x leaf))) (
      rw (append-nil (before c ++ (x ∷ behind c))) at
        (Distinct-insert x [] (before c) (behind c) d' out'))

pub linked-Focus :
    (s : RbTree) (x p q : Ptr) (e : Side) (b : Bool) (h : Ptr) (u : Shape) (c : List Frame)
    → Focus s p q leaf (at e b h u ∷ c)
    → x ≢ null
    → x ∉ in_order (plug (at e b h u ∷ c) leaf)
    → Focus (linked e x h s) x h (node false leaf x leaf) (at e b h u ∷ c)
linked-Focus s x p q e b h u c f hx out =
    let t = linked e x h s in
    let both = λ (r : Ptr). has-append r (in_order u) (above c) in
    let fresh : x ∉ (h ∷ (in_order u ++ above c)) =
      ground (arith, has-plug x (at e b h u ∷ c) leaf) in
    let (nh, d) = Distinct-plug (at e b h u ∷ c) leaf f.distinct in
    let xh : x ≢ h = ground arith in
    let (_, hh, _, col, iu, ic) = f.context in
    let (n1, n2, n3, n4) = linked-new s x h xh e in
    let (a1, a2, a3, a4) = linked-above s x h xh e in
    let same : (r : Ptr) → r ∈ (in_order u ++ above c) → Same s t r =
      λ r m. linked-elsewhere s x h xh e r (ground (arith, fresh)) (ground (arith, nh)) in
    record {
      tree = (refl, hx, n3, n4, n1, n2);
      context = (
        refl,
        hh,
        a1,
        a4 ∙ col,
        subst (λ r. IsTree t r h u) (sym a2)
            (IsTree-frame s t (s.child (flip e) h) h u iu (λ r m. same r (ground (arith, both r)))),
        subst (λ r. IsContext t h r c) (sym a3)
            (IsContext-frame s t h (s.parent h) c ic (same_root e)
              (λ r m. same r (ground (arith, both r)))),
      );
      distinct = Distinct-new (at e b h u ∷ c) x f.distinct out;
    }
  where
    same_root : (e : Side) → (linked e x h s).root ≡ s.root
    same_root e = refl

-- What makes a tree right: its nodes are in the store, their ranks ascend, the root is black, every
-- path has the same number of black nodes and no red node a red child, and `size` counts the nodes.
pub record IsValid (rank : Ptr → ℕ) (s : RbTree) (t : Shape) : Type 0 where
  pub focus : Focus s s.root null t []
  pub ascending : Ascending rank (in_order t)
  pub black_root : red t ≡ false
  pub balanced : (n : ℕ) × IsRedBlack t n
  pub count : s.size ≡ length (in_order t)
