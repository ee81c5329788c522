-- ===== src/RbTree/Grow.antt =====
-- `rb_insert` of src/rbtree.c on a tree that is right.
use syslib.Prelude.{
  ℕ, ◌+◌, ◌<◌, ◌≡◌, ◌≢◌, ◌%◌, refl, ap, sym, ◌∙◌, Bool, true, false, some, List, [], ◌∷◌, ◌++◌,
  arith, ne→==, eq→==, inl, length, length-append,
}
use mathlib.Core.Path.{subst}
use syslib.Dlist.{Ptr, null, succeed, fail}
use syslib.Dlist.Chain.{◌∈◌, ◌∉◌, has-append}
use syslib.RbTree.{
  RbTree, Side, left, right, put-ok, compare_key, def_order_func, finish, insert_at, rb_insert,
}
use syslib.RbTree.Shape.{Shape, leaf, node, in_order, IsTree, Frame, at, plug, IsTree-frame}
use syslib.RbTree.Turn.{Kept}
use syslib.RbTree.Focus.{Focus, coloured}
use syslib.RbTree.Fix.{red, blacken, fix_up, fix_up-IsRedBlack, fix_up-in_order}
use syslib.RbTree.Search.{Ascending, rb_search_absent, rb_search_found, spot}
use syslib.RbTree.Repair.{root_black}
use syslib.RbTree.Path.{
  before, behind, plug-split, path, path-plug, path-Focus, path-IsAround, path_root, length-path,
}
use syslib.RbTree.Place.{sign_of, path-Between, path-node, Ascending-join}
use syslib.RbTree.Link.{filled, linked, fill-run, fix_rr-IsTree, blackened}
use syslib.RbTree.Insert.{link-run, linked-Focus, IsValid}

blacken_twice : (t : Shape) → blacken (blacken t) ≡ blacken t
blacken_twice leaf = refl
blacken_twice (node b l n r) = refl

blacken-red : (t : Shape) → red (blacken t) ≡ false
blacken-red leaf = refl
blacken-red (node b l n r) = refl

blacken-in_order : (t : Shape) → in_order (blacken t) ≡ in_order t
blacken-in_order leaf = refl
blacken-in_order (node b l n r) = refl

abbrev finished : RbTree → RbTree
finished s = record (coloured true s.root s) { size = s.size + 1 }

finish-run : (s : RbTree) → s.root ≢ null → finish s ≡ some (some succeed, finished s)
unfolding finish
finish-run s ne = rw (put-ok ne) refl

finished-Focus :
    (s : RbTree) (t : Shape)
    → Focus s s.root null (blacken t) []
    → s.root ≢ null
    → Focus (finished s) s.root null (blacken t) []
finished-Focus s t f ne =
    let g =
      subst (λ u. Focus (coloured true s.root s) s.root null u []) (blacken_twice t)
        (blackened s (blacken t) f ne) in
    record {
      tree =
          IsTree-frame (coloured true s.root s) (finished s) s.root null (blacken t) g.tree
            (λ r m. (refl, refl, refl, refl));
      context = g.context;
      distinct = g.distinct;
    }

-- What an insertion of `x` into the tree `t` comes to.
pub record Inserted (rank : Ptr → ℕ) (s z : RbTree) (x : Ptr) (t t' : Shape) (xs ys : List Ptr)
    : Type 0 where
  pub valid : IsValid rank z t'
  pub old_order : in_order t ≡ xs ++ ys
  pub new_order : in_order t' ≡ xs ++ (x ∷ ys)
  pub size : z.size ≡ s.size + 1
  pub keys : (z.key ≡ s.key) × (z.cfunc ≡ s.cfunc)

module _ (rank : Ptr → ℕ) (s : RbTree) (x : Ptr) (fuel : ℕ)
    (agrees : (n : Ptr) → compare_key s (s.key x) n ≡ def_order_func (s.key x) (rank n))
    (hx : x ≢ null) (aligned : x % 4 ≡ 0) (own : rank x ≡ s.key x) where
  abbrev k : ℕ
  k = s.key x

  Result : Shape → Type 0
  Result t =
      (z : RbTree) × (t' : Shape) × (xs : List Ptr) × (ys : List Ptr) × (rb_insert fuel x s
        ≡ some (some succeed, z))
      × Inserted rank s z x t t' xs ys

  insert_empty : IsValid rank s leaf → 0 < fuel → Result leaf
  unfolding Result rb_insert insert_at
  insert_empty v lt =
      let found = rb_search_absent rank s k agrees fuel leaf v.focus.tree (λ a m. cc) lt in
      let new : RbTree = record (filled x null s) { root = x } in
      (
        finished new,
        node true leaf x leaf,
        [],
        [],
        rw (ne→== x null hx, eq→== (x % 4) 0 aligned, found, fill-run x null s hx)
            (finish-run new hx),
        record {
          valid = record {
            focus = record { tree = ground arith; context = (refl, refl); distinct = (refl, tt) };
            ascending = (tt, tt);
            black_root = refl;
            balanced = (1, (0, refl, refl, refl));
            count = ap (λ n. n + 1) v.count;
          };
          old_order = refl;
          new_order = refl;
          size = refl;
          keys = (refl, refl);
        },
      )

  -- The links and the repair from the frames at the place of the key.
  insert_below :
      (p q : Ptr) (e : Side) (b : Bool) (h : Ptr) (u : Shape) (c : List Frame)
      → Focus s p q leaf (at e b h u ∷ c)
      → x ∉ in_order (plug (at e b h u ∷ c) leaf)
      → compare_key s k h ≡ sign_of e
      → root_black (at e b h u ∷ c) ≡ true
      → length (at e b h u ∷ c) < fuel
      → (z : RbTree) × (insert_at fuel x h (filled x h s) ≡ some (some succeed, finished z))
        × (z.root ≢ null)
        × Focus z z.root null (blacken (fix_up (at e b h u ∷ c) (node false leaf x leaf))) []
        × Kept s z
  unfolding insert_at
  insert_below p q e b h u c f out sign rb lt =
      let hh : h ≢ null = f.context.1 in
      let (z, run, hr, whole, kept) =
        fix_rr-IsTree (at e b h u ∷ c) fuel (linked e x h s) x h (node false leaf x leaf)
          (linked-Focus s x p q e b h u c f hx out) refl hx rb hh lt in
      (
        z,
        rw (ne→== h null hh, sign, link-run e x h s hx hh, run) (finish-run z hr),
        hr,
        whole,
        record { key = kept.key; cfunc = kept.cfunc; size = kept.size },
      )

  -- The tree that the insertion makes.
  abbrev grown : List Frame → Shape
  grown c = blacken (fix_up c (node false leaf x leaf))

  grown-in_order : (c : List Frame) → in_order (grown c) ≡ before c ++ (x ∷ behind c)
  grown-in_order c =
      blacken-in_order (fix_up c (node false leaf x leaf))
      ∙ fix_up-in_order c (node false leaf x leaf) refl
      ∙ plug-split c (node false leaf x leaf)

  insert_node :
      (b : Bool) (l : Shape) (n : Ptr) (r : Shape)
      → IsValid rank s (node b l n r)
      → x ∉ in_order (node b l n r)
      → ((a : Ptr) → a ∈ in_order (node b l n r) → rank a ≢ k)
      → length (in_order (node b l n r)) < fuel
      → Result (node b l n r)
  unfolding Result rb_insert
  insert_node b l n r v out none_has lt =
      let t = node b l n r in
      let place = path rank k t [] in
      let h = spot rank k null t in
      let (e, b', u, c, top, sign) = path-node rank k null b l n r none_has in
      let found = rb_search_absent rank s k agrees fuel t v.focus.tree none_has lt in
      let (p, q, f) = path-Focus rank k s s.root null t [] v.focus in
      let same_tree : plug place leaf ≡ t = path-plug rank k t [] in
      let out' : x ∉ in_order (plug place leaf) = subst (λ y. x ∉ in_order y) (sym same_tree) out in
      let deep : length place < fuel = omega (arith, length-path rank k t [], lt) in
      let (z, run, hr, whole, kept) =
        insert_below p q e b' h u c (subst (Focus s p q leaf) top f)
          (subst (λ y. x ∉ in_order (plug y leaf)) top out') (agrees h ∙ sign)
          (subst (λ y. root_black y ≡ true) top (path_root rank k t v.black_root))
          (subst (λ y. length y < fuel) top deep) in
      let whole' : Focus z z.root null (grown place) [] =
        subst (λ y. Focus z z.root null (grown y) []) (sym top) whole in
      let old : in_order t ≡ before place ++ behind place =
        ap in_order (sym same_tree) ∙ plug-split place leaf in
      let (lo, hi) = path-Between rank k t [] v.ascending none_has (refl, refl) in
      let new = grown-in_order place in
      let height =
        fix_up-IsRedBlack place (node false leaf x leaf) 0 (refl, refl, refl, refl) refl
          (path-IsAround rank k t [] v.balanced.0 v.balanced.1 tt (inl v.black_root)) in
      (
        finished z,
        grown place,
        before place,
        behind place,
        rw (ne→== x null hx, eq→== (x % 4) 0 aligned, found, fill-run x h s hx) run,
        record {
          valid = record {
            focus = finished-Focus z (fix_up place (node false leaf x leaf)) whole' hr;
            ascending = subst (Ascending rank) (sym new) (
                Ascending-join rank k x (before place) (behind place)
                  (subst (Ascending rank) old v.ascending) own lo hi);
            black_root = blacken-red (fix_up place (node false leaf x leaf));
            balanced = height;
            count = omega (
              arith,
              kept.size,
              v.count,
              ap length old,
              ap length new,
              length-append (before place) (behind place),
              length-append (before place) (x ∷ behind place),
            );
          };
          old_order = old;
          new_order = new;
          size = ap (λ i. i + 1) kept.size;
          keys = (kept.key, kept.cfunc);
        },
      )

  -- Let the comparison be the order of numbers on the ranks of the nodes, and the node `x` not null,
  -- its address a multiple of 4, its rank its key, and the fuel above the number of nodes. Into a
  -- valid tree that has neither `x` nor its rank, `rb_insert` succeeds, and the tree is again valid:
  -- in order, with a black root, equal black heights, no two red nodes in a row, and the right size.
  -- Its nodes in order are the ones before with `x` put between them.
  pub rb_insert-IsValid :
      (t : Shape)
      → IsValid rank s t
      → x ∉ in_order t
      → ((a : Ptr) → a ∈ in_order t → rank a ≢ s.key x)
      → length (in_order t) < fuel
      → (z : RbTree) × (t' : Shape) × (xs : List Ptr) × (ys : List Ptr) × (rb_insert fuel x s
          ≡ some (some succeed, z))
        × Inserted rank s z x t t' xs ys
  unfolding Result
  rb_insert-IsValid leaf v out none_has lt = insert_empty v lt
  rb_insert-IsValid (node b l n r) v out none_has lt = insert_node b l n r v out none_has lt

  -- Let the comparison be the order of numbers on the ranks of the nodes, and the node `x` not null,
  -- its address a multiple of 4, its rank its key, and the fuel above the number of nodes. Into a
  -- valid tree in which some node has the rank already, `rb_insert` fails and changes nothing.
  pub rb_insert_present :
      (t : Shape) (m : Ptr)
      → IsValid rank s t
      → m ∈ in_order t
      → rank m ≡ s.key x
      → length (in_order t) < fuel
      → rb_insert fuel x s ≡ some (some fail, s)
  unfolding rb_insert
  rb_insert_present leaf m v mem e lt = cc
  rb_insert_present (node b l n r) m v mem e lt =
      let found =
        rb_search_found rank s k agrees fuel m (node b l n r) v.focus.tree v.ascending mem e lt in
      let hm : m ≢ null = not_null (node b l n r) s.root null m v.focus.tree mem in
      rw (ne→== x null hx, eq→== (x % 4) 0 aligned, found, ne→== m null hm) refl
    where
      not_null : (t : Shape) (p q m : Ptr) → IsTree s p q t → m ∈ in_order t → m ≢ null
      not_null leaf p q m is mem = cc
      not_null (node b l n r) p q m (_, ne, _, _, il, ir) mem = ground (
        arith,
        has-append m (in_order l) (n ∷ in_order r),
        not_null l (s.child left n) n m il,
        not_null r (s.child right n) n m ir,
      )
