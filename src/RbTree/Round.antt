-- ===== src/RbTree/Round.antt =====
-- One round of `_fix_rr` of src/rbtree.c in the store.
use syslib.Prelude.{
  ◌≡◌, ◌≢◌, refl, ap, sym, ◌∙◌, Bool, true, false, some, List, ◌∷◌, ◌++◌, arith, ◌==◌, ne→==, eq→==,
}
use mathlib.Core.Path.{subst}
use syslib.Dlist.{Ptr, null}
use syslib.Dlist.Chain.{◌∈◌, has-append}
use syslib.RbTree.{RbTree, Side, left, right, flip, rotate, get-ok, is_red, recolour, rebalance}
use syslib.RbTree.Shape.{
  Shape, leaf, node, branch, in_order, IsTree, Frame, at, above, Distinct-append,
}
use syslib.RbTree.Turn.{Kept, root-mem}
use syslib.RbTree.Focus.{
  Focus, Focus-up, Focus-down, Focus-coloured, Focus-rotate, branch-flip, coloured, Distinct-plug,
}
use syslib.RbTree.Fix.{red, settle}

pub is_red-red : (s : RbTree) (p q : Ptr) (t : Shape) → IsTree s p q t → is_red p s ≡ red t
is_red-red s p q leaf is = rw is refl
is_red-red s p q (node b l n r) (e, ne, _, col, _, _) = rw (e, ne→== n null ne, col) refl

-- The subtree at the other side of a node is not the one at this side.
pub other_child :
    (s : RbTree) (x q : Ptr) (t : Shape) (e : Side) (b : Bool) (n : Ptr) (u : Shape)
    (c : List Frame)
    → Focus s x q t (at e b n u ∷ c)
    → x ≢ null
    → s.child (flip e) n ≢ x
other_child s x q t e b n u c f hx eq =
    let (_, _, _, _, iu, _) = f.context in
    let d = Distinct-plug (at e b n u ∷ c) t f.distinct in
    let (_, _, apart) = Distinct-append (in_order t) (n ∷ (in_order u ++ above c)) d in
    let mx : x ∈ in_order t = root-mem s x q t f.tree hx in
    let mu : x ∈ in_order u = root-mem s x n u (subst (λ r. IsTree s r n u) eq iu) hx in
    ground (arith, apart x mx, has-append x (in_order u) (above c))

-- The two colours and the rotation that end the loop.
module _ (s : RbTree) (n q : Ptr) (d : Side) (k : Bool) (a b : Shape) (kg : Bool) (g : Ptr)
    (w : Shape) (c : List Frame) where
  abbrev both : RbTree
  both = coloured false g (coloured true n s)

  settled :
      Focus s n q (branch d k a n b) (at d kg g w ∷ c)
      → (t : RbTree) × (rotate (flip d) g both ≡ some (tt, t))
        × Focus t n (s.parent g) (branch d true a n (branch d false b g w)) c
        × Kept s t
  settled f =
      let f1 = Focus-coloured s n q a d k true n b (at d kg g w ∷ c) f in
      let s1 = coloured true n s in
      let f2 = Focus-up s1 n q (branch d true a n b) d kg g w c f1 in
      let f3 = Focus-coloured s1 g (s.parent g) (branch d true a n b) d kg false g w c f2 in
      let e : branch d false (branch d true a n b) g w
          ≡ branch (flip d) false w g (branch (flip d) true b n a) =
        branch-flip d false (branch d true a n b) g w
        ∙ ap (branch (flip d) false w g) (branch-flip d true a n b) in
      let e' : branch (flip d) true (branch (flip d) false w g b) n a
          ≡ branch d true a n (branch d false b g w) =
        ap (λ t. branch (flip d) true t n a) (sym (branch-flip d false b g w))
        ∙ sym (branch-flip d true a n (branch d false b g w)) in
      let f4 = subst (λ t. Focus both g (s.parent g) t c) e f3 in
      let (t, run, f5, kept) = Focus-rotate (flip d) both g n (s.parent g) false true w b a c f4 in
      (
        t,
        run,
        subst (λ u. Focus t n (s.parent g) u c) e' f5,
        record { key = kept.key; cfunc = kept.cfunc; size = kept.size },
      )

pub recolour-run :
    (s : RbTree) (p u g : Ptr)
    → p ≢ null
    → u ≢ null
    → g ≢ null
    → recolour p u g s ≡ some ((true, g), coloured false g (coloured true u (coloured true p s)))
unfolding recolour
recolour-run s p u g hp hu hg = rw (ne→== p null hp, ne→== u null hu, ne→== g null hg) refl

module _ (s : RbTree) (x q : Ptr) (t : Shape) (e : Side) (p : Ptr) (u : Shape) (d : Side)
    (kg : Bool) (g : Ptr) (c : List Frame) where
  pub recoloured :
      (l : Shape) (v : Ptr) (r : Shape)
      → Focus s x q t (at e false p u ∷ (at d kg g (node false l v r) ∷ c))
      → Focus
          (coloured false g (coloured true v (coloured true p s)))
          g
          (s.parent g)
          (branch d false (branch e true t p u) g (node true l v r))
          c
  recoloured l v r f =
      let w = node false l v r in
      let w' = node true l v r in
      let s1 = coloured true p s in
      let s2 = coloured true v s1 in
      let big = branch e true t p u in
      let f1 = Focus-up s x q t e false p u (at d kg g w ∷ c) f in
      let f2 = Focus-coloured s p (s.parent p) t e false true p u (at d kg g w ∷ c) f1 in
      let f3 = Focus-up s1 p (s.parent p) big d kg g w c f2 in
      let f4 = subst (λ z. Focus s1 g (s.parent g) z c) (branch-flip d kg big g w) f3 in
      let f5 = Focus-down s1 g (s.parent g) w (flip d) kg g big c f4 in
      let f6 =
        Focus-coloured s1 (s.child (flip d) g) g l left false true v r (at (flip d) kg g big ∷ c)
          f5 in
      let f7 = Focus-up s2 (s.child (flip d) g) g w' (flip d) kg g big c f6 in
      let f8 = subst (λ z. Focus s2 g (s.parent g) z c) (sym (branch-flip d kg big g w')) f7 in
      Focus-coloured s2 g (s.parent g) big d kg false g w' c f8

-- The parts of a tree on the side `d` and on the other.
abbrev part : Side → Shape → Shape → Shape
part left l r = l
part right l r = r

part-branch :
    (d : Side) (b : Bool) (l : Shape) (n : Ptr) (r : Shape)
    → node b l n r ≡ branch d b (part d l r) n (part (flip d) l r)
part-branch left b l n r = refl
part-branch right b l n r = refl

flip-flip : (d : Side) → flip (flip d) ≡ d
flip-flip left = refl
flip-flip right = refl

settle-straight :
    (d : Side) (t : Shape) (p : Ptr) (u : Shape) (g : Ptr) (w : Shape)
    → settle d d t p u g w ≡ branch d true t p (branch d false u g w)
settle-straight left t p u g w = refl
settle-straight right t p u g w = refl

settle-bent :
    (d : Side) (b : Bool) (l : Shape) (x : Ptr) (r : Shape) (p : Ptr) (u : Shape) (g : Ptr)
    (w : Shape)
    → settle d (flip d) (node b l x r) p u g w
      ≡ branch d true (branch d false u p (part d l r)) x (branch d false (part (flip d) l r) g w)
settle-bent left b l x r p u g w = refl
settle-bent right b l x r p u g w = refl

-- What a round that ends the loop comes to.
abbrev pub Ended : RbTree → Side → (x p g : Ptr) → Shape → List Frame → Type 0
Ended s d x p g t c =
    (n : Ptr) × (z : RbTree) × (o : Ptr) × (rebalance d x p g s ≡ some ((false, n), z))
    × (n ≢ null)
    × Focus z n o t c
    × Kept s z

module _ (s : RbTree) (x q : Ptr) (d : Side) (p : Ptr) (u : Shape) (kg : Bool) (g : Ptr) (w : Shape)
    (c : List Frame) (hx : x ≢ null) (hp : p ≢ null) (hg : g ≢ null) where
  pub straight :
      (t : Shape)
      → Focus s x q t (at d false p u ∷ (at d kg g w ∷ c))
      → Ended s d x p g (settle d d t p u g w) c
  unfolding rebalance
  straight t f =
      let outer : (x == s.child (flip d) p) ≡ false =
        ne→== x (s.child (flip d) p)
          (λ e. other_child s x q t d false p u (at d kg g w ∷ c) f hx (sym e)) in
      let f1 = Focus-up s x q t d false p u (at d kg g w ∷ c) f in
      let (z, run, f2, kept) = settled s p (s.parent p) d false t u kg g w c f1 in
      (
        p,
        z,
        s.parent g,
        rw (get-ok hp, outer, ne→== p null hp, ne→== g null hg, run) refl,
        hp,
        subst (λ y. Focus z p (s.parent g) y c) (sym (settle-straight d t p u g w)) f2,
        kept,
      )

  pub bent :
      (b : Bool) (l r : Shape)
      → Focus s x q (node b l x r) (at (flip d) false p u ∷ (at d kg g w ∷ c))
      → Ended s d x p g (settle d (flip d) (node b l x r) p u g w) c
  unfolding rebalance
  bent b l r f =
      let rest = at d kg g w ∷ c in
      let tree = node b l x r in
      let near = part d l r in
      let far = part (flip d) l r in
      let inner : (x == s.child (flip d) p) ≡ true =
        eq→== x (s.child (flip d) p) (sym (f.context.2)) in
      let e : branch (flip d) false tree p u ≡ branch d false u p (branch d b near x far) =
        sym (branch-flip d false u p tree) ∙ ap (branch d false u p) (part-branch d b l x r) in
      let f1 =
        subst (λ y. Focus s p (s.parent p) y rest) e
          (Focus-up s x q tree (flip d) false p u rest f) in
      let (y, run, f2, kept) = Focus-rotate d s p x (s.parent p) false b u near far rest f1 in
      let (z, run', f3, kept') =
        settled y x (s.parent p) d b (branch d false u p near) far kg g w c f2 in
      (
        x,
        z,
        y.parent g,
        rw (get-ok hp, inner, run, ne→== x null hx, ne→== g null hg, run') refl,
        hx,
        subst (λ v. Focus z x (y.parent g) v c) (sym (settle-bent d b l x r p u g w)) f3,
        record {
          key = kept'.key ∙ kept.key;
          cfunc = kept'.cfunc ∙ kept.cfunc;
          size = kept'.size ∙ kept.size;
        },
      )
