-- ===== src/RbTree/Link.antt =====
-- The link to a new node in `rb_insert` of src/rbtree.c, and the whole of `_fix_rr`.
use syslib.Prelude.{
  ℕ, zero, suc, ◌<◌, ◌≡◌, ◌≢◌, refl, ap, sym, ◌∙◌, true, false, ◌||◌, some, List, [], ◌∷◌, arith,
  ne→==, upd, length,
}
use mathlib.Core.Path.{subst}
use syslib.Dlist.{Ptr, null}
use syslib.Dlist.Chain.{has, has-append}
use syslib.RbTree.{RbTree, Side, left, right, fix_rr, climb, set_child, fill, put-ok}
use syslib.RbTree.Shape.{Shape, leaf, node, branch, in_order, IsTree, Frame, at, plug, above}
use syslib.RbTree.Turn.{Kept}
use syslib.RbTree.Focus.{Focus, Focus-up, Focus-coloured, coloured}
use syslib.RbTree.Fix.{red, blacken, fix_up}
use syslib.RbTree.Repair.{root_black, fix_loop-Repaired}

climb-run :
    (c : List Frame) (fuel : ℕ) (s : RbTree) (p q : Ptr) (t : Shape)
    → Focus s p q t c
    → p ≢ null
    → s.parent p ≡ q
    → length c < fuel
    → climb fuel s p ≡ some s.root
unfolding climb
climb-run c zero s p q t f hp par lt = absurd (omega arith)
climb-run [] (suc fuel) s p q t f hp par lt =
    rw (ne→== p null hp, par, f.context.0, f.context.1) refl
climb-run (at e b n u ∷ c) (suc fuel) s p q t f hp par lt =
    rw (ne→== p null hp, par, f.context.0, ne→== n null f.context.1)
      (climb-run c fuel s n (s.parent n) (branch e b t n u) (Focus-up s p q t e b n u c f)
        f.context.1 refl (omega arith))

pub Focus-whole :
    (s : RbTree) (p q : Ptr) (t : Shape) (c : List Frame)
    → Focus s p q t c
    → Focus s s.root null (plug c t) []
Focus-whole s p q t [] f =
    subst (λ r. Focus s r null t []) (sym f.context.1) (subst (λ r. Focus s p r t []) f.context.0 f)
Focus-whole s p q t (at e b n u ∷ c) f =
    Focus-whole s n (s.parent n) (branch e b t n u) c (Focus-up s p q t e b n u c f)

pub blackened :
    (s : RbTree) (t : Shape)
    → Focus s s.root null t []
    → s.root ≢ null
    → Focus (coloured true s.root s) s.root null (blacken t) []
blackened s leaf f ne = absurd (ne f.tree)
blackened s (node b l n r) f ne =
    subst (λ m. Focus (coloured true m s) s.root null (node true l n r) []) (sym f.tree.0)
      (Focus-coloured s s.root null l left b true n r [] f)

root_ne :
    (s : RbTree) (p q : Ptr) (t : Shape) (c : List Frame)
    → Focus s p q t c
    → p ≢ null
    → s.root ≢ null
root_ne s p q t [] f ne = rw f.context.1 ne
root_ne s p q t (at e b n u ∷ c) f ne =
    root_ne s n (s.parent n) (branch e b t n u) c (Focus-up s p q t e b n u c f) f.context.1

parent_ok : (s : RbTree) (p q : Ptr) (t : Shape) → IsTree s p q t → p ≢ null → s.parent p ≡ q
parent_ok s p q leaf is ne = absurd (ne is)
parent_ok s p q (node b l n r) is ne = ap s.parent is.0 ∙ is.2

-- For a red subtree below another node in a tree with a black root, with fuel above its depth,
-- `_fix_rr` ends, and the tree is the one that `fix_up` gives, with a black root.
pub fix_rr-IsTree :
    (c : List Frame) (fuel : ℕ) (s : RbTree) (x q : Ptr) (t : Shape)
    → Focus s x q t c
    → red t ≡ true
    → x ≢ null
    → root_black c ≡ true
    → q ≢ null
    → length c < fuel
    → (z : RbTree) × (fix_rr fuel x s ≡ some (some tt, z))
      × (z.root ≢ null)
      × Focus z z.root null (blacken (fix_up c t)) []
      × Kept s z
unfolding fix_rr
fix_rr-IsTree c fuel s x q t f rt hx rb hq lt =
    let par = parent_ok s x q t f.tree hx in
    let (z, n, o, t', c', run, done) = fix_loop-Repaired c fuel s x q t f rt rb lt in
    let top =
      climb-run c' fuel z n o t' done.focus done.n_ne (parent_ok z n o t' done.focus.tree done.n_ne)
        (omega (arith, done.shorter)) in
    let hr = root_ne z n o t' c' done.focus done.n_ne in
    let whole =
      subst (λ u. Focus z z.root null u []) done.tree (Focus-whole z n o t' c' done.focus) in
    (
      coloured true z.root z,
      rw (ne→== x null hx, par, ne→== x null hx, ne→== q null hq, run, top, ne→== z.root null hr)
          refl,
      hr,
      blackened z (fix_up c t) whole hr,
      record { key = done.kept.key; cfunc = done.kept.cfunc; size = done.kept.size },
    )

pub has-plug :
    (a : Ptr) (c : List Frame) (t : Shape)
    → has a (in_order (plug c t)) ≡ (has a (in_order t) || has a (above c))
has-plug a [] t = ground arith
has-plug a (at left b n u ∷ c) t = ground (
  arith,
  has-plug a c (node b t n u),
  has-append a (in_order t) (n ∷ in_order u),
  has-append a (in_order u) (above c),
)
has-plug a (at right b n u ∷ c) t = ground (
  arith,
  has-plug a c (node b u n t),
  has-append a (in_order u) (n ∷ in_order t),
  has-append a (in_order u) (above c),
)

-- The store behind the links to the new node `x` on the side `e` of `h`.
abbrev pub filled : (x h : Ptr) → RbTree → RbTree
filled x h s =
    (let s' = set_child right x null (set_child left x null (coloured false x s)) in
      record s' { parent = upd s'.parent x h })

abbrev pub linked : Side → (x h : Ptr) → RbTree → RbTree
linked e x h s =
    (let s' = set_child e h x (filled x h s) in record s' { parent = upd s'.parent x h })

pub fill-run : (x h : Ptr) (s : RbTree) → x ≢ null → fill x h s ≡ some (tt, filled x h s)
unfolding fill
fill-run x h s hx = rw (put-ok hx, put-ok hx, put-ok hx, put-ok hx) refl
