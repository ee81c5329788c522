-- ===== src/RbTree/Repair.antt =====
-- `_fix_rr` of src/rbtree.c in the store.
use syslib.Prelude.{
  ℕ, zero, suc, ◌<◌, ◌≤◌, ◌≡◌, ◌≢◌, refl, ap, sym, ◌∙◌, Bool, true, false, some, List, [], ◌∷◌,
  arith, if◌then◌else◌, ne→==, eq→==, inl, inr, ◌⊎◌, length,
}
use mathlib.Core.Path.{subst}
use syslib.Dlist.{Ptr, null}
use syslib.RbTree.{
  RbTree, Side, left, right, flip, side_of, get-ok, is_red, recolour, rebalance, fix_round,
  fix_loop,
}
use syslib.RbTree.Shape.{Shape, leaf, node, branch, IsTree, Frame, at, plug}
use syslib.RbTree.Turn.{Kept}
use syslib.RbTree.Focus.{Focus, Focus-up, coloured}
use syslib.RbTree.Fix.{red, settle, fix_up, red-branch}
use syslib.RbTree.Round.{is_red-red, other_child, recolour-run, recoloured, Ended, straight, bent}

side_ok :
    (s : RbTree) (x q : Ptr) (t : Shape) (d : Side) (b : Bool) (n : Ptr) (u : Shape)
    (c : List Frame)
    → Focus s x q t (at d b n u ∷ c)
    → x ≢ null
    → side_of x (s.child left n) ≡ d
side_ok s x q t left b n u c f hx = rw (eq→== x (s.child left n) (sym f.context.2)) refl
side_ok s x q t right b n u c f hx =
    rw (ne→== x (s.child left n) (λ e. other_child s x q t right b n u c f hx (sym e))) refl

module _ (s : RbTree) (x q : Ptr) (t : Shape) (e : Side) (p : Ptr) (u : Shape) (d : Side)
    (kg : Bool) (g : Ptr) (w : Shape) (c : List Frame)
    (f : Focus s x q t (at e false p u ∷ (at d kg g w ∷ c))) (hx : x ≢ null)
    (par : s.parent x ≡ q) where
  hp : p ≢ null
  hp = f.context.1

  hg : g ≢ null
  hg = f.context.5.1

  pg : s.parent p ≡ g
  pg = f.context.5.0

  up : Focus s p (s.parent p) (branch e false t p u) (at d kg g w ∷ c)
  up = Focus-up s x q t e false p u (at d kg g w ∷ c) f

  uncle : is_red (s.child (flip d) g) s ≡ red w
  uncle = is_red-red s (s.child (flip d) g) g w (up.context.4)

  round-run :
      fix_round x s ≡ (if red w then recolour p (s.child (flip d) g) g s else rebalance d x p g s)
  unfolding fix_round
  round-run =
      rw
        (
          ne→== x null hx,
          par,
          f.context.0,
          ne→== p null hp,
          pg,
          get-ok hg,
          side_ok s p (s.parent p) (branch e false t p u) d kg g w c up hp,
          get-ok hg,
          uncle,
        )
        refl

same_or_flip : (d e : Side) → (e ≡ d) ⊎ (e ≡ flip d)
same_or_flip left left = inl refl
same_or_flip left right = inr refl
same_or_flip right left = inr refl
same_or_flip right right = inl refl

-- The root of the whole tree is black, unless the subtree is the whole tree.
abbrev pub root_black : List Frame → Bool
root_black [] = true
root_black (at d b n u ∷ []) = b
root_black (at d b n u ∷ (f ∷ c)) = root_black (f ∷ c)

root_black_rest : (f : Frame) (c : List Frame) → root_black (f ∷ c) ≡ true → root_black c ≡ true
root_black_rest (at d b n u) [] e = refl
root_black_rest (at d b n u) (f ∷ c) e = e

-- Where the loop of `_fix_rr` has come to.
pub record Repaired (s z : RbTree) (n o : Ptr) (t t' : Shape) (c c' : List Frame) : Type 0 where
  pub n_ne : n ≢ null
  pub focus : Focus z n o t' c'
  pub tree : plug c' t' ≡ fix_up c t
  pub shorter : length c' ≤ length c
  pub kept : Kept s z

abbrev pub LoopEnd : ℕ → RbTree → (x q : Ptr) → Shape → List Frame → Type 0
LoopEnd fuel s x q t c =
    (z : RbTree) × (n : Ptr) × (o : Ptr) × (t' : Shape) × (c' : List Frame) × (fix_loop fuel x q s
      ≡ some (some n, z))
    × Repaired s z n o t t' c c'

ended :
    (s : RbTree) (x q : Ptr) (t : Shape) (e : Side) (p : Ptr) (u : Shape) (d : Side) (kg : Bool)
    (g : Ptr) (w : Shape) (c : List Frame)
    → Focus s x q t (at e false p u ∷ (at d kg g w ∷ c))
    → red t ≡ true
    → Ended s d x p g (settle d e t p u g w) c
ended s x q leaf e p u d kg g w c f rt = cc
ended s x q (node b l n r) e p u d kg g w c f rt =
    let hx : x ≢ null = rw f.tree.0 f.tree.1 in
    let hp : p ≢ null = f.context.1 in
    let hg : g ≢ null = f.context.5.1 in
    elim (same_or_flip d e) [
      | inl eq ↦ rw eq (
          straight s x q d p u kg g w c hx hp hg (node b l n r)
            (subst (λ i. Focus s x q (node b l n r) (at i false p u ∷ (at d kg g w ∷ c))) eq f))
      | inr eq ↦
          let f1 =
            subst (λ i. Focus s x q (node b l n r) (at i false p u ∷ (at d kg g w ∷ c))) eq f in
          let f2 =
            subst (λ m. Focus s x q (node b l m r) (at (flip d) false p u ∷ (at d kg g w ∷ c)))
              (sym f.tree.0) f1 in
          rw eq (
            subst (λ m. Ended s d x p g (settle d (flip d) (node b l m r) p u g w) c) f.tree.0
              (bent s x q d p u kg g w c hx hp hg b l r f2))
    ]

module _ (t : Shape) (x q : Ptr) (s : RbTree) where
  top_ne : {c : List Frame} → Focus s x q t c → red t ≡ true → (x ≢ null) × (s.parent x ≡ q)
  top_ne f rt = parent_of t f.tree rt
    where
      parent_of : (t : Shape) → IsTree s x q t → red t ≡ true → (x ≢ null) × (s.parent x ≡ q)
      parent_of leaf is rt = cc
      parent_of (node b l n r) is rt = (rw is.0 is.1, ap s.parent is.0 ∙ is.2)

module _ (fuel : ℕ) (s : RbTree) (x q : Ptr) where
  stop_at :
      (t : Shape) (c : List Frame)
      → Focus s x q t c
      → x ≢ null
      → is_red q s ≡ false
      → plug c t ≡ fix_up c t
      → LoopEnd (suc fuel) s x q t c
  unfolding fix_loop
  stop_at t c f hx stop e = (
    s,
    x,
    q,
    t,
    c,
    rw stop refl,
    record {
      n_ne = hx;
      focus = f;
      tree = e;
      shorter = omega arith;
      kept = record { key = refl; cfunc = refl; size = refl };
    },
  )

last_round :
    (s : RbTree) (x q : Ptr) (t : Shape) (e : Side) (p : Ptr) (u : Shape) (d : Side) (kg : Bool)
    (g : Ptr) (w : Shape) (c : List Frame) (fuel : ℕ)
    → Focus s x q t (at e false p u ∷ (at d kg g w ∷ c))
    → red t ≡ true
    → red w ≡ false
    → LoopEnd (suc fuel) s x q t (at e false p u ∷ (at d kg g w ∷ c))
unfolding fix_loop
last_round s x q t e p u d kg g w c fuel f rt bw =
    let (ep, hp, _, col, _, _) = f.context in
    let (hx, par) = top_ne t x q s f rt in
    let is_red' : is_red q s ≡ true = rw (ep, ne→== p null hp, col) refl in
    let run = round-run s x q t e p u d kg g w c f hx par in
    let (n, z, o, run', hn, f', kept) = ended s x q t e p u d kg g w c f rt in
    (
      z,
      n,
      o,
      settle d e t p u g w,
      c,
      rw (is_red', run, bw, run') refl,
      record { n_ne = hn; focus = f'; tree = rw bw refl; shorter = omega arith; kept = kept },
    )

-- For a red subtree at `x` in a tree with a black root, with fuel above the depth of `x`, the loop
-- of `_fix_rr` ends, and the tree is then the one that `fix_up` gives.
pub fix_loop-Repaired :
    (c : List Frame) (fuel : ℕ) (s : RbTree) (x q : Ptr) (t : Shape)
    → Focus s x q t c
    → red t ≡ true
    → root_black c ≡ true
    → length c < fuel
    → LoopEnd fuel s x q t c
unfolding fix_loop
fix_loop-Repaired c zero s x q t f rt rb lt = absurd (omega arith)
fix_loop-Repaired [] (suc fuel) s x q t f rt rb lt =
    stop_at fuel s x q t [] f (top_ne t x q s f rt).0 (rw f.context.0 refl) refl
fix_loop-Repaired (at e true p u ∷ c) (suc fuel) s x q t f rt rb lt =
    let (ep, hp, _, col, _, _) = f.context in
    let black : is_red q s ≡ false = rw (ep, ne→== p null hp, col) refl in
    stop_at fuel s x q t (at e true p u ∷ c) f (top_ne t x q s f rt).0 black refl
fix_loop-Repaired (at e false p u ∷ []) (suc fuel) s x q t f rt rb lt = cc
fix_loop-Repaired (at e false p u ∷ (at d kg g leaf ∷ c)) (suc fuel) s x q t f rt rb lt =
    last_round s x q t e p u d kg g leaf c fuel f rt refl
fix_loop-Repaired (at e false p u ∷ (at d kg g (node true l v r) ∷ c)) (suc fuel) s x q t f rt rb
      lt =
    last_round s x q t e p u d kg g (node true l v r) c fuel f rt refl
fix_loop-Repaired (at e false p u ∷ (at d kg g (node false l v r) ∷ c)) (suc fuel) s x q t f rt rb
      lt =
    let (ep, hp, _, col, _, _) = f.context in
    let hg : g ≢ null = f.context.5.1 in
    let (hx, par) = top_ne t x q s f rt in
    let is_red' : is_red q s ≡ true = rw (ep, ne→== p null hp, col) refl in
    let run = round-run s x q t e p u d kg g (node false l v r) c f hx par in
    let (ev, hv, _, _, _, _) = f.context.5.4 in
    let up = coloured false g (coloured true v (coloured true p s)) in
    let small = branch d false (branch e true t p u) g (node true l v r) in
    let (z, n, o, t', c', run', done) =
      fix_loop-Repaired c fuel up g (s.parent g) small (recoloured s x q t e p u d kg g c l v r f)
        (red-branch d false (branch e true t p u) g (node true l v r))
        (root_black_rest (at d kg g (node false l v r)) c rb) (omega arith) in
    (
      z,
      n,
      o,
      t',
      c',
      rw (is_red', run, ev, recolour-run s p v g hp hv hg, ne→== g null hg) run',
      record {
        n_ne = done.n_ne;
        focus = done.focus;
        tree = done.tree;
        shorter = omega (arith, done.shorter);
        kept = record { key = done.kept.key; cfunc = done.kept.cfunc; size = done.kept.size };
      },
    )
