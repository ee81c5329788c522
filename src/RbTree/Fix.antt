-- ===== src/RbTree/Fix.antt =====
-- The repair of `_fix_rr` of src/rbtree.c on trees as values: a specification of what it makes of
-- the store, with the two-colour invariants.
use syslib.Prelude.{
  ℕ, suc, ◌≡◌, refl, ◌∙◌, Bool, true, false, not, List, [], ◌∷◌, arith, if◌then◌else◌, Bool-cases,
  inl, inr, ◌⊎◌,
}
use mathlib.Core.List.{append_assoc}
use syslib.Dlist.{Ptr}
use syslib.RbTree.{Side, left, right, same_side}
use syslib.RbTree.Shape.{Shape, leaf, node, branch, in_order, Frame, at, plug}
use syslib.RbTree.Focus.{plug-in_order}

abbrev pub red : Shape → Bool
red leaf = false
red (node b l n r) = not b

abbrev pub blacken : Shape → Shape
blacken leaf = leaf
blacken (node b l n r) = node true l n r

-- The red subtree on the inner side comes up between its parent `p` and its grandparent `g`.
abbrev pub bend : Side → Shape → Ptr → Shape → Ptr → Shape → Shape
bend d leaf p u g w = leaf
bend left (node b l x r) p u g w =
    branch left true (branch left false u p l) x (branch left false r g w)
bend right (node b l x r) p u g w =
    branch right true (branch right false u p r) x (branch right false l g w)

abbrev pub settle : (d e : Side) → Shape → Ptr → Shape → Ptr → Shape → Shape
settle d e t p u g w =
    if same_side d e then branch d true t p (branch d false u g w) else bend d t p u g w

-- The whole tree behind the repair from a red subtree `t` upwards.
abbrev pub fix_up : List Frame → Shape → Shape
fix_up [] t = t
fix_up (at e true p u ∷ c) t = plug (at e true p u ∷ c) t
fix_up (at e false p u ∷ []) t = plug (at e false p u ∷ []) t
fix_up (at e false p u ∷ (at d b g w ∷ c)) t =
    if red w
    then fix_up c (branch d false (branch e true t p u) g (blacken w))
    else plug c (settle d e t p u g w)

-- Every path to a leaf has `n` black nodes, and no red node has a red child.
abbrev pub IsRedBlack : Shape → ℕ → Type 0
IsRedBlack leaf n = n ≡ 0
IsRedBlack (node true l x r) n = (m : ℕ) × (n ≡ suc m) × IsRedBlack l m × IsRedBlack r m
IsRedBlack (node false l x r) n =
    (red l ≡ false) × (red r ≡ false) × IsRedBlack l n × IsRedBlack r n

-- The nearest frame is black, if there is one.
abbrev pub black_top : List Frame → Bool
black_top [] = false
black_top (at d b n u ∷ c) = b

-- The frames around a subtree of black height `n`.
abbrev pub IsAround : List Frame → ℕ → Type 0
IsAround [] n = Unit
IsAround (at d true x u ∷ c) n = IsRedBlack u n × IsAround c (suc n)
IsAround (at d false x u ∷ c) n =
    (red u ≡ false) × (black_top c ≡ true) × IsRedBlack u n × IsAround c n

join_black :
    (d : Side) (t : Shape) (x : Ptr) (u : Shape) (n : ℕ)
    → IsRedBlack t n
    → IsRedBlack u n
    → IsRedBlack (branch d true t x u) (suc n)
join_black left t x u n it iu = (n, refl, it, iu)
join_black right t x u n it iu = (n, refl, iu, it)

join_red :
    (d : Side) (t : Shape) (x : Ptr) (u : Shape) (n : ℕ)
    → red t ≡ false
    → red u ≡ false
    → IsRedBlack t n
    → IsRedBlack u n
    → IsRedBlack (branch d false t x u) n
join_red left t x u n rt ru it iu = (rt, ru, it, iu)
join_red right t x u n rt ru it iu = (ru, rt, iu, it)

pub red-branch :
    (d : Side) (b : Bool) (t : Shape) (x : Ptr) (u : Shape) → red (branch d b t x u) ≡ not b
red-branch left b t x u = refl
red-branch right b t x u = refl

-- A subtree with no red top, or below a black node, fits.
plug-IsRedBlack :
    (c : List Frame) (t : Shape) (n : ℕ)
    → IsAround c n
    → IsRedBlack t n
    → (red t ≡ false) ⊎ (black_top c ≡ true)
    → (m : ℕ) × IsRedBlack (plug c t) m
plug-IsRedBlack [] t n around it top = (n, it)
plug-IsRedBlack (at d true x u ∷ c) t n (iu, around) it top =
    plug-IsRedBlack c (branch d true t x u) (suc n) around (join_black d t x u n it iu)
      (inl (red-branch d true t x u))
plug-IsRedBlack (at d false x u ∷ c) t n (ru, bt, iu, around) it top =
    plug-IsRedBlack c (branch d false t x u) n around (join_red d t x u n (ground arith) ru it iu)
      (inr bt)

blacken-IsRedBlack : (t : Shape) (n : ℕ) → IsRedBlack t n → (m : ℕ) × IsRedBlack (blacken t) m
blacken-IsRedBlack leaf n it = (n, it)
blacken-IsRedBlack (node true l x r) n it = (n, it)
blacken-IsRedBlack (node false l x r) n (_, _, il, ir) = (suc n, (n, refl, il, ir))

higher_when_red :
    (t : Shape) (n : ℕ) → red t ≡ true → IsRedBlack t n → IsRedBlack (blacken t) (suc n)
higher_when_red leaf n e it = cc
higher_when_red (node true l x r) n e it = cc
higher_when_red (node false l x r) n e (_, _, il, ir) = (n, refl, il, ir)

settle-IsRedBlack :
    (d e : Side) (t : Shape) (p : Ptr) (u : Shape) (g : Ptr) (w : Shape) (n : ℕ)
    → IsRedBlack t n
    → red t ≡ true
    → IsRedBlack u n
    → red u ≡ false
    → IsRedBlack w n
    → red w ≡ false
    → IsRedBlack (settle d e t p u g w) (suc n) × (red (settle d e t p u g w) ≡ false)
settle-IsRedBlack d e leaf p u g w n it rt iu ru iw rw' = cc
settle-IsRedBlack d e (node true l x r) p u g w n it rt iu ru iw rw' = cc
settle-IsRedBlack left left (node false l x r) p u g w n it rt iu ru iw rw' =
    ((n, refl, it, (ru, rw', iu, iw)), refl)
settle-IsRedBlack right right (node false l x r) p u g w n it rt iu ru iw rw' =
    ((n, refl, (rw', ru, iw, iu), it), refl)
settle-IsRedBlack left right (node false l x r) p u g w n (rl, rr, il, ir) rt iu ru iw rw' =
    ((n, refl, (ru, rl, iu, il), (rr, rw', ir, iw)), refl)
settle-IsRedBlack right left (node false l x r) p u g w n (rl, rr, il, ir) rt iu ru iw rw' =
    ((n, refl, (rw', rl, iw, il), (rr, ru, ir, iu)), refl)

-- Black heights and colours are right behind the repair.
pub fix_up-IsRedBlack :
    (c : List Frame) (t : Shape) (n : ℕ)
    → IsRedBlack t n
    → red t ≡ true
    → IsAround c n
    → (m : ℕ) × IsRedBlack (blacken (fix_up c t)) m
fix_up-IsRedBlack [] t n it rt around = blacken-IsRedBlack t n it
fix_up-IsRedBlack (at e true p u ∷ c) t n it rt around =
    let (m, h) = plug-IsRedBlack (at e true p u ∷ c) t n around it (inr refl) in
    blacken-IsRedBlack (plug (at e true p u ∷ c) t) m h
fix_up-IsRedBlack (at e false p u ∷ []) t n it rt around = cc
fix_up-IsRedBlack (at e false p u ∷ (at d false g w ∷ c)) t n it rt (_, bg, _, _) = cc
fix_up-IsRedBlack (at e false p u ∷ (at d true g w ∷ c)) t n it rt (ru, _, iu, (iw, around)) =
    elim (Bool-cases (red w)) [
      | inl rw' ↦ rw rw' (
          fix_up-IsRedBlack c (branch d false (branch e true t p u) g (blacken w)) (suc n)
            (join_red d (branch e true t p u) g (blacken w) (suc n) (red-branch e true t p u)
              (ground arith) (join_black e t p u n it iu) (higher_when_red w n rw' iw))
            (red-branch d false (branch e true t p u) g (blacken w)) around)
      | inr bw ↦
          let (h, b) = settle-IsRedBlack d e t p u g w n it rt iu ru iw bw in
          let (m, h') = plug-IsRedBlack c (settle d e t p u g w) (suc n) around h (inl b) in
          rw bw (blacken-IsRedBlack (plug c (settle d e t p u g w)) m h')
    ]

settle-in_order :
    (d e : Side) (b : Bool) (t : Shape) (p : Ptr) (u : Shape) (g : Ptr) (w : Shape)
    → red t ≡ true
    → in_order (settle d e t p u g w) ≡ in_order (branch d b (branch e false t p u) g w)
settle-in_order d e b leaf p u g w rt = cc
settle-in_order left left b (node k l x r) p u g w rt = simp append_assoc
settle-in_order right right b (node k l x r) p u g w rt = simp append_assoc
settle-in_order left right b (node k l x r) p u g w rt = simp append_assoc
settle-in_order right left b (node k l x r) p u g w rt = simp append_assoc

recolour-in_order :
    (d e : Side) (b : Bool) (t : Shape) (p : Ptr) (u : Shape) (g : Ptr) (w : Shape)
    → in_order (branch d false (branch e true t p u) g (blacken w))
      ≡ in_order (branch d b (branch e false t p u) g w)
recolour-in_order left left b t p u g leaf = refl
recolour-in_order left left b t p u g (node k l x r) = refl
recolour-in_order left right b t p u g leaf = refl
recolour-in_order left right b t p u g (node k l x r) = refl
recolour-in_order right left b t p u g leaf = refl
recolour-in_order right left b t p u g (node k l x r) = refl
recolour-in_order right right b t p u g leaf = refl
recolour-in_order right right b t p u g (node k l x r) = refl

-- The order of the nodes is as before.
pub fix_up-in_order :
    (c : List Frame) (t : Shape) → red t ≡ true → in_order (fix_up c t) ≡ in_order (plug c t)
fix_up-in_order [] t rt = refl
fix_up-in_order (at e true p u ∷ c) t rt = refl
fix_up-in_order (at e false p u ∷ []) t rt = refl
fix_up-in_order (at e false p u ∷ (at d b g w ∷ c)) t rt =
    let small = branch d false (branch e true t p u) g (blacken w) in
    let big = branch d b (branch e false t p u) g w in
    elim (Bool-cases (red w)) [
      | inl rw' ↦ rw rw' (
          fix_up-in_order c small (red-branch d false (branch e true t p u) g (blacken w))
          ∙ plug-in_order c small big (recolour-in_order d e b t p u g w))
      | inr bw ↦
          rw bw (plug-in_order c (settle d e t p u g w) big (settle-in_order d e b t p u g w rt))
    ]
