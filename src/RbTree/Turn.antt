-- ===== src/RbTree/Turn.antt =====
-- The rotations of src/rbtree.c turn one tree into another.
use syslib.Prelude.{
  ◌≡◌, ◌≢◌, refl, ap, sym, ◌∙◌, Bool, some, List, [], ◌∷◌, ◌++◌, arith, inl, inr, ◌⊎◌,
}
use mathlib.Core.List.{append_assoc}
use mathlib.Core.Path.{subst}
use syslib.Dlist.{Ptr, null}
use syslib.Dlist.Chain.{◌∈◌, ◌∉◌, Distinct, has-append}
use syslib.RbTree.{RbTree, Side, left, right, flip, rotate}
use syslib.RbTree.Shape.{
  Shape, leaf, node, branch, in_order, IsTree, Frame, at, IsContext, above, Same, Distinct-append,
  IsTree-frame, IsTree-moved, IsContext-frame,
}
use syslib.RbTree.Rotate.{
  rotated, rotate-run, rotated-elsewhere, rotated-down, rotated-up, rotated-across, rotated-above,
}

-- How the parts of a tree around a rotation are apart.
record Parts (x y : Ptr) (xs ys zs vs : List Ptr) : Type 0 where
  x_y : x ≢ y
  x_out : (x ∉ xs) × (x ∉ ys) × (x ∉ zs) × (x ∉ vs)
  y_out : (y ∉ xs) × (y ∉ ys) × (y ∉ zs) × (y ∉ vs)
  middle : Distinct ys
  xs_ys : (r : Ptr) → r ∈ xs → r ∉ ys
  zs_ys : (r : Ptr) → r ∈ zs → r ∉ ys
  outer : (r : Ptr) → r ∈ vs → (r ∉ xs) × (r ∉ ys) × (r ∉ zs)

abbrev around : Side → Ptr → Ptr → (xs ys zs : List Ptr) → List Ptr
around left x y xs ys zs = xs ++ (x ∷ (ys ++ (y ∷ zs)))
around right x y xs ys zs = (zs ++ (y ∷ ys)) ++ (x ∷ xs)

parts :
    (d : Side) (x y : Ptr) (xs ys zs vs : List Ptr)
    → Distinct (around d x y xs ys zs ++ vs)
    → Parts x y xs ys zs vs
parts left x y xs ys zs vs dis =
    let (d1, _, out) = Distinct-append (xs ++ (x ∷ (ys ++ (y ∷ zs)))) vs dis in
    let (_, d2, a_out) = Distinct-append xs (x ∷ (ys ++ (y ∷ zs))) d1 in
    let (db, d3, b_out) = Distinct-append ys (y ∷ zs) d2.1 in
    let h1 = λ (r : Ptr). has-append r xs (x ∷ (ys ++ (y ∷ zs))) in
    let h2 = λ (r : Ptr). has-append r ys (y ∷ zs) in
    record {
      x_y = ground (arith, h2 x, d2.0);
      x_out = ground (arith, h1 x, h2 x, d2.0, a_out x, out x);
      y_out = ground (arith, h1 y, h2 y, d3.0, a_out y, b_out y, out y);
      middle = db;
      xs_ys = λ r m. ground (arith, h2 r, a_out r);
      zs_ys = λ r m. ground (arith, b_out r);
      outer = λ r m. ground (arith, h1 r, h2 r, out r);
    }
parts right x y xs ys zs vs dis =
    let (d1, _, out) = Distinct-append ((zs ++ (y ∷ ys)) ++ (x ∷ xs)) vs dis in
    let (d2, d3, l_out) = Distinct-append (zs ++ (y ∷ ys)) (x ∷ xs) d1 in
    let (_, d4, c_out) = Distinct-append zs (y ∷ ys) d2 in
    let h1 = λ (r : Ptr). has-append r (zs ++ (y ∷ ys)) (x ∷ xs) in
    let h2 = λ (r : Ptr). has-append r zs (y ∷ ys) in
    record {
      x_y = ground (arith, h2 y, l_out y);
      x_out = ground (arith, h1 x, h2 x, d3.0, l_out x, out x);
      y_out = ground (arith, h1 y, h2 y, d4.0, l_out y, c_out y, out y);
      middle = d4.1;
      xs_ys = λ r m. ground (arith, h2 r, l_out r);
      zs_ys = λ r m. ground (arith, c_out r);
      outer = λ r m. ground (arith, h1 r, h2 r, out r);
    }

pub root-mem : (s : RbTree) (b q : Ptr) (t : Shape) → IsTree s b q t → b ≢ null → b ∈ in_order t
root-mem s b q leaf is ne = absurd (ne is)
root-mem s b q (node c l n r) is ne =
    ground (arith, is.0, has-append n (in_order l) (n ∷ in_order r))

pub open_branch :
    (s : RbTree) (d : Side) (p q : Ptr) (b : Bool) (t : Shape) (n : Ptr) (u : Shape)
    → IsTree s p q (branch d b t n u)
    → (p ≡ n)
      × (n ≢ null)
      × (s.parent n ≡ q)
      × (s.isblack n ≡ b)
      × IsTree s (s.child d n) n t
      × IsTree s (s.child (flip d) n) n u
open_branch s left p q b t n u is = is
open_branch s right p q b t n u (e, ne, par, col, il, ir) = (e, ne, par, col, ir, il)

pub close_branch :
    (s : RbTree) (d : Side) (p q : Ptr) (b : Bool) (t : Shape) (n : Ptr) (u : Shape)
    → (p ≡ n)
      × (n ≢ null)
      × (s.parent n ≡ q)
      × (s.isblack n ≡ b)
      × IsTree s (s.child d n) n t
      × IsTree s (s.child (flip d) n) n u
    → IsTree s p q (branch d b t n u)
close_branch s left p q b t n u is = is
close_branch s right p q b t n u (e, ne, par, col, il, ir) = (e, ne, par, col, ir, il)

in_order-around :
    (d : Side) (bx by : Bool) (a tb tc : Shape) (x y : Ptr)
    → (in_order (branch d bx a x (branch d by tb y tc))
        ≡ around d x y (in_order a) (in_order tb) (in_order tc))
      × (in_order (branch d by (branch d bx a x tb) y tc)
          ≡ around d x y (in_order a) (in_order tb) (in_order tc))
in_order-around left bx by a tb tc x y =
    (refl, append_assoc (in_order a) (x ∷ in_order tb) (y ∷ in_order tc))
in_order-around right bx by a tb tc x y =
    (refl, sym (append_assoc (in_order tc) (y ∷ in_order tb) (x ∷ in_order a)))

above-mem : (s : RbTree) (x p : Ptr) (c : List Frame) → IsContext s x p c → p ≢ null → p ∈ above c
above-mem s x p [] is ne = absurd (ne is.0)
above-mem s x p (at e b n u ∷ c) is ne = ground (arith, is.0)

module _ (d : Side) (x y b p : Ptr) (s : RbTree) (xs ys zs : List Ptr) where
  turned-IsContext :
      (c : List Frame)
      → IsContext s x p c
      → Distinct (above c)
      → Parts x y xs ys zs (above c)
      → x ≢ null
      → y ≢ null
      → (b ≢ null → b ∈ ys)
      → IsContext (rotated d x y b p s) y p c
  turned-IsContext [] is dis parts hx hy hb = (is.0, ground (arith, is.0))
  turned-IsContext (at e k n u ∷ c) (ep, ne, ch, col, iu, ic) dis parts hx hy hb =
      let both = λ (r : Ptr). has-append r (in_order u) (above c) in
      let (du, dc, u_out) = Distinct-append (in_order u) (above c) dis.1 in
      let p_mem : p ∈ (n ∷ (in_order u ++ above c)) = ground (arith, ep) in
      let hp : p ≢ null = rw ep ne in
      let px : p ≢ x = ground (arith, parts.x_out, p_mem) in
      let py : p ≢ y = ground (arith, parts.y_out, p_mem) in
      let bp : b ≢ p = ground (arith, parts.outer p p_mem, hb) in
      let sibling : s.child (flip e) p ≢ x =
        λ eq. ground (arith, root-mem s (s.child (flip e) n) n u iu, ep, both x, parts.x_out) in
      let (t1, t2, t3, t4) =
        rotated-above x y b p s parts.x_y d e hp px py bp (ap (s.child e) ep ∙ ch) sibling in
      let t = rotated d x y b p s in
      let other : (r : Ptr)
          → (r ∈ in_order u) ⊎ (r ∈ above c)
          → r ∈ (n ∷ (in_order u ++ above c)) × (r ≢ p) =
        λ r m. (ground (arith, both r), ground (arith, both r, dis.0, ep)) in
      let same : (r : Ptr) → (r ∈ in_order u) ⊎ (r ∈ above c) → Same s t r = λ r m.
        let (mem, rp) = other r m in
        rotated-elsewhere x y b p s parts.x_y d r (ground (arith, parts.x_out))
          (ground (arith, parts.y_out)) (λ ne'. ground (arith, parts.outer r mem, hb)) (λ _. rp) in
      (
        ep,
        ne,
        ap (t.child e) (sym ep) ∙ t1,
        ap t.isblack (sym ep) ∙ t4 ∙ ap s.isblack ep ∙ col,
        subst (λ r. IsTree t r n u)
            (ap (s.child (flip e)) (sym ep) ∙ sym t2 ∙ ap (t.child (flip e)) ep)
            (IsTree-frame s t (s.child (flip e) n) n u iu (λ r m. same r (inl m))),
        subst (λ r. IsContext t n r c) (ap s.parent (sym ep) ∙ sym t3 ∙ ap t.parent ep)
            (IsContext-frame s t n (s.parent n) c ic (ground (arith, hp)) (λ r m. same r (inr m))),
      )

-- The fields that a rotation leaves as they are.
pub record Kept (s t : RbTree) : Type 0 where
  pub key : t.key ≡ s.key
  pub cfunc : t.cfunc ≡ s.cfunc
  pub size : t.size ≡ s.size

rotated-Kept : (d : Side) (x y b p : Ptr) (s : RbTree) → Kept s (rotated d x y b p s)
rotated-Kept d x y b p s = record { key = ground arith; cfunc = ground arith; size = ground arith }

-- For a subtree at `x` with the child `y` on the side other than `d`, and the tree around it, all
-- of whose nodes are distinct, `rotate d` succeeds; `y` is then at the top of the subtree, with `x`
-- on the side `d`, the order of the nodes, their colours and the tree around them are as before.
pub rotate-IsTree :
    (d : Side) (s : RbTree) (x y p : Ptr) (bx by : Bool) (a tb tc : Shape) (c : List Frame)
    → IsTree s x p (branch d bx a x (branch d by tb y tc))
    → IsContext s x p c
    → Distinct (in_order (branch d bx a x (branch d by tb y tc)) ++ above c)
    → (t : RbTree) × (rotate d x s ≡ some (tt, t))
      × IsTree t y p (branch d by (branch d bx a x tb) y tc)
      × IsContext t y p c
      × Kept s t
      × (in_order (branch d by (branch d bx a x tb) y tc)
          ≡ in_order (branch d bx a x (branch d by tb y tc)))
rotate-IsTree d s x y p bx by a tb tc c is ic dis =
    let (before, behind) = in_order-around d bx by a tb tc x y in
    let dis' = subst (λ xs. Distinct (xs ++ above c)) before dis in
    let parts = parts d x y (in_order a) (in_order tb) (in_order tc) (above c) dis' in
    let dc =
      (Distinct-append (around d x y (in_order a) (in_order tb) (in_order tc)) (above c) dis').1 in
    let (_, hx, xp, xb, ia, iy) = open_branch s d x p bx a x (branch d by tb y tc) is in
    let (ey, hy, yp, yb, ib, it) = open_branch s d (s.child (flip d) x) x by tb y tc iy in
    let b = s.child d y in
    let t = rotated d x y b p s in
    let hb : b ≢ null → b ∈ in_order tb = root-mem s b y tb ib in
    let hp : p ≢ null → p ∈ above c = above-mem s x p c ic in
    let px : p ≢ x = ground (arith, parts.x_out) in
    let py : p ≢ y = ground (arith, parts.y_out) in
    let bx' : b ≢ x = ground (arith, parts.x_out) in
    let by' : b ≢ y = ground (arith, parts.y_out) in
    let (d1, d2, d3, d4) = rotated-down x y b p s parts.x_y d px bx' in
    let (u1, u2, u3, u4) = rotated-up x y b p s parts.x_y d py by' in
    let outside : (r : Ptr) → r ∉ in_order tb → r ≢ x → r ≢ y → r ∉ above c → Same s t r =
      λ r rb rx ry ro.
        rotated-elsewhere x y b p s parts.x_y d r rx ry (λ ne. ground (arith, hb))
          (λ ne. ground (arith, hp)) in
    let ia' : IsTree t (s.child d x) x a = IsTree-frame s t (s.child d x) x a ia (λ r m.
      outside r (parts.xs_ys r m) (ground (arith, parts.x_out)) (ground (arith, parts.y_out))
        (ground (arith, parts.outer r))) in
    let it' : IsTree t (s.child (flip d) y) y tc =
      IsTree-frame s t (s.child (flip d) y) y tc it (λ r m.
        outside r (parts.zs_ys r m) (ground (arith, parts.x_out)) (ground (arith, parts.y_out))
          (ground (arith, parts.outer r))) in
    let ib' : IsTree t b x tb =
      IsTree-moved s t b y x tb ib parts.middle
        (λ ne.
          rotated-across x y b p s parts.x_y d ne bx' by'
            (ground (arith, hb ne, hp, parts.outer p)))
        (λ r m rb.
          rotated-elsewhere x y b p s parts.x_y d r (ground (arith, parts.x_out))
            (ground (arith, parts.y_out)) (λ _. rb) (λ ne. ground (arith, hp ne, parts.outer p))) in
    (
      t,
      rotate-run d x y b p s hx hy ey refl xp py,
      close_branch t d y p by (branch d bx a x tb) y tc (
        refl,
        hy,
        u3,
        u4 ∙ yb,
        subst (λ r. IsTree t r y (branch d bx a x tb)) (sym u1)
            (close_branch t d x y bx a x tb (
              refl,
              hx,
              d3,
              d4 ∙ xb,
              subst (λ r. IsTree t r x a) (sym d1) ia',
              subst (λ r. IsTree t r x tb) (sym d2) ib',
            )),
        subst (λ r. IsTree t r y tc) (sym u2) it',
      ),
      turned-IsContext d x y b p s (in_order a) (in_order tb) (in_order tc) c ic dc parts hx hy hb,
      rotated-Kept d x y b p s,
      behind ∙ sym before,
    )
