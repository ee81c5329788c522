-- ===== src/RbTree/Rotate.antt =====
-- What the rotations of src/rbtree.c do to a subtree and to the rest of the tree.
use syslib.Prelude.{◌≡◌, ◌≢◌, some, arith, ◌==◌, upd, if◌then◌else◌, ne→==}
use syslib.Dlist.{Ptr, null}
use syslib.RbTree.{
  RbTree, Side, left, right, flip, side_of, set_child, get, put, get-ok, put-ok, replace_child,
  rotate, adopt, root_at,
}
use syslib.RbTree.Shape.{Same}

abbrev pub with_parent : Ptr → Ptr → RbTree → RbTree
with_parent p q s = record s { parent = upd s.parent p q }

abbrev pub replaced : (p x y : Ptr) → RbTree → RbTree
replaced p x y s = if p == null then s else set_child (side_of x (s.child left p)) p y s

abbrev pub taken : (b x : Ptr) → RbTree → RbTree
taken b x s = if b == null then s else with_parent b x s

abbrev pub rooted : (p y : Ptr) → RbTree → RbTree
rooted p y s = if p == null then record s { root = y } else s

-- The store behind a rotation at `x` below `p`, whose child `y` comes up and gives it the child `b`.
abbrev pub rotated : Side → (x y b p : Ptr) → RbTree → RbTree
rotated d x y b p s = rooted p y (
    set_child d y x
      (set_child (flip d) x b (taken b x (with_parent x y (replaced p x y (with_parent y p s))))))

replace_child-run : (p x y : Ptr) (s : RbTree) → replace_child p x y s ≡ some (tt, replaced p x y s)
unfolding replace_child get put
replace_child-run p x y s = ground arith

adopt-run : (b x : Ptr) (s : RbTree) → adopt b x s ≡ some (tt, taken b x s)
unfolding adopt put
adopt-run b x s = ground arith

root_at-run : (p y : Ptr) (s : RbTree) → root_at p y s ≡ some (tt, rooted p y s)
unfolding root_at
root_at-run p y s = ground arith

module _ (d : Side) (x y b p : Ptr) (s : RbTree) (hx : x ≢ null) (hy : y ≢ null)
    (ey : s.child (flip d) x ≡ y) (eb : s.child d y ≡ b) (ep : s.parent x ≡ p) (apart : p ≢ y) where
  replaced_child : (replaced p x y (with_parent y p s)).child d y ≡ b
  replaced_child = ground (arith, eb)

  taken_child : (taken b x (with_parent x y (replaced p x y (with_parent y p s)))).child d y ≡ b
  taken_child = ground (arith, eb)

  pub rotate-run : rotate d x s ≡ some (tt, rotated d x y b p s)
  unfolding rotate
  rotate-run =
      rw
        (
          ne→== x null hx,
          get-ok hx,
          ey,
          ne→== y null hy,
          ep,
          ne→== x null hx,
          put-ok hy,
          replace_child-run p x y,
          put-ok hx,
          get-ok hy,
          replaced_child,
          adopt-run b x,
          get-ok hy,
          taken_child,
          put-ok hx,
          put-ok hy,
        )
        (root_at-run p y _)

-- The fields behind a rotation.
module _ (x y b p : Ptr) (s : RbTree) (xy : x ≢ y) where
  pub rotated-elsewhere :
      (d : Side) (r : Ptr)
      → r ≢ x
      → r ≢ y
      → (b ≢ null → r ≢ b)
      → (p ≢ null → r ≢ p)
      → Same s (rotated d x y b p s) r
  rotated-elsewhere left r rx ry rb rp = ground arith
  rotated-elsewhere right r rx ry rb rp = ground arith

  pub rotated-down :
      (d : Side)
      → p ≢ x
      → b ≢ x
      → ((rotated d x y b p s).child d x ≡ s.child d x)
        × ((rotated d x y b p s).child (flip d) x ≡ b)
        × ((rotated d x y b p s).parent x ≡ y)
        × ((rotated d x y b p s).isblack x ≡ s.isblack x)
  rotated-down left px bx = ground arith
  rotated-down right px bx = ground arith

  pub rotated-up :
      (d : Side)
      → p ≢ y
      → b ≢ y
      → ((rotated d x y b p s).child d y ≡ x)
        × ((rotated d x y b p s).child (flip d) y ≡ s.child (flip d) y)
        × ((rotated d x y b p s).parent y ≡ p)
        × ((rotated d x y b p s).isblack y ≡ s.isblack y)
  rotated-up left py by = ground arith
  rotated-up right py by = ground arith

  pub rotated-across :
      (d : Side)
      → b ≢ null
      → b ≢ x
      → b ≢ y
      → b ≢ p
      → ((rotated d x y b p s).parent b ≡ x)
        × ((rotated d x y b p s).child left b ≡ s.child left b)
        × ((rotated d x y b p s).child right b ≡ s.child right b)
        × ((rotated d x y b p s).isblack b ≡ s.isblack b)
  rotated-across left b0 bx by bp = ground arith
  rotated-across right b0 bx by bp = ground arith

  pub rotated-above :
      (d e : Side)
      → p ≢ null
      → p ≢ x
      → p ≢ y
      → b ≢ p
      → s.child e p ≡ x
      → (s.child (flip e) p ≢ x)
      → ((rotated d x y b p s).child e p ≡ y)
        × ((rotated d x y b p s).child (flip e) p ≡ s.child (flip e) p)
        × ((rotated d x y b p s).parent p ≡ s.parent p)
        × ((rotated d x y b p s).isblack p ≡ s.isblack p)
  rotated-above left left p0 px py bp e ne = ground arith
  rotated-above left right p0 px py bp e ne = ground arith
  rotated-above right left p0 px py bp e ne = ground arith
  rotated-above right right p0 px py bp e ne = ground arith
