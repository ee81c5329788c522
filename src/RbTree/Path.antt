-- ===== src/RbTree/Path.antt =====
-- The way of `rb_search` of src/rbtree.c down to the place of a key that is not there.
use syslib.Prelude.{
  ℕ, suc, ◌+◌, ◌<◌, ◌≤◌, ◌≡◌, refl, sym, ◌∙◌, Bool, true, false, ◌&&◌, List, [], ◌∷◌, ◌++◌, arith,
  if◌then◌else◌, ltb, Bool-cases, inl, inr, ◌⊎◌, length, length-append,
}
use mathlib.Core.List.{append_assoc, append-nil}
use syslib.Dlist.{Ptr}
use syslib.Dlist.Chain.{◌∈◌}
use syslib.RbTree.{RbTree, left, right}
use syslib.RbTree.Shape.{Shape, leaf, node, in_order, Frame, at, plug}
use syslib.RbTree.Focus.{Focus, Focus-down}
use syslib.RbTree.Fix.{red, IsRedBlack, IsAround, black_top}
use syslib.RbTree.Repair.{root_black}

-- The nodes before and behind the subtree below the frames.
abbrev pub before : List Frame → List Ptr
before [] = []
before (at left b n u ∷ c) = before c
before (at right b n u ∷ c) = before c ++ (in_order u ++ (n ∷ []))

abbrev pub behind : List Frame → List Ptr
behind [] = []
behind (at left b n u ∷ c) = n ∷ (in_order u ++ behind c)
behind (at right b n u ∷ c) = behind c

pub plug-split :
    (c : List Frame) (t : Shape) → in_order (plug c t) ≡ before c ++ (in_order t ++ behind c)
plug-split [] t = sym (append-nil (in_order t))
plug-split (at left b n u ∷ c) t = plug-split c (node b t n u) ∙ simp append_assoc
plug-split (at right b n u ∷ c) t = plug-split c (node b u n t) ∙ simp append_assoc

module _ (rank : Ptr → ℕ) (k : ℕ) where
  -- The frames around the place of the key `k`.
  abbrev pub path : Shape → List Frame → List Frame
  path leaf c = c
  path (node b l n r) c =
      if ltb k (rank n) then path l (at left b n r ∷ c) else path r (at right b n l ∷ c)

  abbrev pub all : (ℕ → Bool) → List Ptr → Bool
  all f [] = true
  all f (x ∷ xs) = f (rank x) && all f xs

  pub all-append : (f : ℕ → Bool) (xs ys : List Ptr) → all f (xs ++ ys) ≡ (all f xs && all f ys)
  all-append f [] ys = refl
  all-append f (x ∷ xs) ys = ground (arith, all-append f xs ys)

  pub path-plug : (t : Shape) (c : List Frame) → plug (path t c) leaf ≡ plug c t
  path-plug leaf c = refl
  path-plug (node b l n r) c = elim (Bool-cases (ltb k (rank n))) [
    | inl lo ↦ rw lo (path-plug l (at left b n r ∷ c))
    | inr hi ↦ rw hi (path-plug r (at right b n l ∷ c))
  ]

  pub path-Focus :
      (s : RbTree) (p q : Ptr) (t : Shape) (c : List Frame)
      → Focus s p q t c
      → (p' : Ptr) × (q' : Ptr) × Focus s p' q' leaf (path t c)
  path-Focus s p q leaf c f = (p, q, f)
  path-Focus s p q (node b l n r) c f = elim (Bool-cases (ltb k (rank n))) [
    | inl lo ↦
        rw lo (
          path-Focus s (s.child left n) n l (at left b n r ∷ c) (Focus-down s p q l left b n r c f))
    | inr hi ↦ rw hi (
        path-Focus s (s.child right n) n r (at right b n l ∷ c)
          (Focus-down s p q r right b n l c f))
  ]

  pub path-IsAround :
      (t : Shape) (c : List Frame) (n : ℕ)
      → IsRedBlack t n
      → IsAround c n
      → (red t ≡ false) ⊎ (black_top c ≡ true)
      → IsAround (path t c) 0
  path-IsAround leaf c n it ic top = rw it at ic
  path-IsAround (node true l x r) c n (m, e, il, ir) ic top =
      let ic' : IsAround c (suc m) = rw e at ic in
      elim (Bool-cases (ltb k (rank x))) [
        | inl lo ↦ rw lo (path-IsAround l (at left true x r ∷ c) m il (ir, ic') (inr refl))
        | inr hi ↦ rw hi (path-IsAround r (at right true x l ∷ c) m ir (il, ic') (inr refl))
      ]
  path-IsAround (node false l x r) c n (rl, rr, il, ir) ic top =
      let bt : black_top c ≡ true = ground arith in
      elim (Bool-cases (ltb k (rank x))) [
        | inl lo ↦ rw lo (path-IsAround l (at left false x r ∷ c) n il (rr, bt, ir, ic) (inl rl))
        | inr hi ↦ rw hi (path-IsAround r (at right false x l ∷ c) n ir (rl, bt, il, ic) (inl rr))
      ]

  path-root_black :
      (t : Shape) (f : Frame) (c : List Frame) → root_black (path t (f ∷ c)) ≡ root_black (f ∷ c)
  path-root_black leaf f c = refl
  path-root_black (node b l n r) f c = elim (Bool-cases (ltb k (rank n))) [
    | inl lo ↦ rw lo (path-root_black l (at left b n r) (f ∷ c))
    | inr hi ↦ rw hi (path-root_black r (at right b n l) (f ∷ c))
  ]

  pub path_root : (t : Shape) → red t ≡ false → root_black (path t []) ≡ true
  path_root leaf e = refl
  path_root (node b l n r) e = elim (Bool-cases (ltb k (rank n))) [
    | inl lo ↦ rw lo (path-root_black l (at left b n r) [] ∙ ground arith)
    | inr hi ↦ rw hi (path-root_black r (at right b n l) [] ∙ ground arith)
  ]

  pub length-path :
      (t : Shape) (c : List Frame) → length (path t c) ≤ length (in_order t) + length c
  length-path leaf c = omega arith
  length-path (node b l n r) c =
      let size = length-append (in_order l) (n ∷ in_order r) in
      elim (Bool-cases (ltb k (rank n))) [
        | inl lo ↦ rw lo (omega (arith, size, length-path l (at left b n r ∷ c)))
        | inr hi ↦ rw hi (omega (arith, size, length-path r (at right b n l ∷ c)))
      ]

  pub above_all :
      (n : Ptr) (xs : List Ptr)
      → ((a : Ptr) → a ∈ xs → rank n < rank a)
      → k < rank n
      → all (ltb k) xs ≡ true
  above_all n [] le lt = refl
  above_all n (x ∷ xs) le lt = ground (arith, le x, above_all n xs (λ a m. le a (ground arith)) lt)

  pub below_all :
      (n : Ptr) (xs : List Ptr)
      → ((a : Ptr) → a ∈ xs → rank a < rank n)
      → rank n < k
      → all (λ r. ltb r k) xs ≡ true
  below_all n [] le lt = refl
  below_all n (x ∷ xs) le lt = ground (arith, le x, below_all n xs (λ a m. le a (ground arith)) lt)
