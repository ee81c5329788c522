-- ===== src/RbTree/Removal.antt =====
-- The removal of src/rbtree.c, and what it does where there is nothing to repair. `none` is also the
-- use of a variable that has not been set; the size is not negative.
use syslib.Prelude.{
  ℕ, zero, suc, ◌-◌, ◌<◌, ◌≡◌, ◌≢◌, arith, Bool, true, false, not, ◌&&◌, ◌||◌, Option, none, some,
  ◌==◌, leb, if◌then◌else◌, and_then, pure, ◌>>=◌, ◌>>◌, upd, length,
}
use syslib.Dlist.{Ptr, null}
use syslib.Dlist.Chain.{◌∈◌}
use syslib.RbTree.{
  RbTree, M, Side, left, right, flip, get, get_child, put_child, put_parent, put_colour, get_parent,
  set_root, set_colour, is_black, is_red, adopt, rotate, rb_search, compare_key, def_order_func,
}
use syslib.RbTree.Shape.{Shape, in_order}
use syslib.RbTree.Search.{rb_search_absent}
use syslib.RbTree.Insert.{IsValid}
use syslib.RbTree.Traverse.{leftmost}

-- The macros `l_child` and `r_child`.
abbrev child_of : Side → Ptr → M Ptr
child_of d p s = some (if p == null then null else s.child d p, s)

-- `_cp_color`
abbrev cp_color : Ptr → Ptr → M (Unit {0})
cp_color p from s =
    if p == null
    then some (tt, s)
    else some (tt, record s { isblack = upd s.isblack p (is_black from s) })

-- `_link`
link_children : (p lc rc : Ptr) → M (Unit {0})
link_children p lc rc =
    if p == null
    then pure tt
    else if p == lc || p == rc
    then pure tt
    else do put_child left p lc; put_child right p rc; adopt lc p; adopt rc p

-- Where `p` is a child of `pp`, `q` is now.
swap_child : (pp p q : Ptr) → M (Unit {0})
swap_child pp p q = if pp == null then pure tt else do
  l ← get_child left pp
  r ← get_child right pp
  if p == l then put_child left pp q else if p == r then put_child right pp q else pure tt

-- `_swap_value` of a child of the two nodes.
swap_values : Side → (p q : Ptr) → M (Unit {0})
swap_values d p q = do a ← get_child d p; b ← get_child d q; put_child d p b; put_child d q a

-- `_swap_value` of the words that hold the parent and the colour.
swap_parents : (p q : Ptr) → M (Unit {0})
swap_parents p q = do
  a ← get (λ s. s.parent) p
  b ← get (λ s. s.parent) q
  i ← get (λ s. s.isblack) p
  j ← get (λ s. s.isblack) q
  put_parent p b
  put_parent q a
  put_colour p j
  put_colour q i

swap_node : (p q : Ptr) → M (Unit {0})
unfolding swap_child swap_values swap_parents
swap_node p q = if p == null && q == null then pure tt else do
  plc ← get_child left p
  prc ← get_child right p
  pp ← get_parent p
  qlc ← get_child left q
  qrc ← get_child right q
  qp ← get_parent q
  adopt plc q
  adopt prc q
  adopt qlc p
  adopt qrc p
  swap_child pp p q
  swap_child qp q p
  swap_values left p q
  swap_values right p q
  swap_parents p q

-- `sc` is taken from its parent.
take_off : Ptr → M (Unit {0})
take_off sc = if sc == null then pure tt else do
  p ← get_parent sc
  l ← get_child left p
  r ← get_child right p
  if sc == l then put_child left p null else if sc == r then put_child right p null else pure tt

-- The links of `_transplant` from the parent of `rm`.
replace_in : (rm_p rm sc : Ptr) → M (Unit {0})
unfolding link_children
replace_in rm_p rm sc = do
  l ← get_child left rm_p
  r ← get_child right rm_p
  if rm == l then link_children rm_p sc r else pure tt
  l' ← get_child left rm_p
  r' ← get_child right rm_p
  if rm == r' then link_children rm_p l' sc else pure tt
  c ← get_child left rm
  link_children sc c null

replace_root : (rm sc : Ptr) → M (Unit {0})
unfolding link_children
replace_root rm sc = do
  l ← get_child left rm
  r ← get_child right rm
  link_children sc l r
  set_root sc
  adopt sc null

clear : Ptr → M (Unit {0})
clear x = do put_parent x null; put_child left x null; put_child right x null

transplant : (rm sc : Ptr) → M (Unit {0})
unfolding take_off replace_in replace_root clear
transplant rm sc = if rm == null then pure tt else do
  rm_p ← get_parent rm
  take_off sc
  if rm_p == null then replace_root rm sc else replace_in rm_p rm sc
  clear rm

-- A round of `_fix_bb_new` for `x` on the side `d` of `p`; the result is the next `x`.
red_sibling : Side → (p w : Ptr) → M (Unit {0})
red_sibling d p w s =
    if is_red w s then (do set_colour true w; set_colour false p; rotate d p) s else some (tt, s)

-- The sibling has a red child on its near side only: it is turned, and `x` stays.
turn_sibling : Side → (x w near : Ptr) → M Ptr
turn_sibling d x w near = do set_colour true near; set_colour false w; rotate (flip d) w; pure x

-- The sibling has a red child on its far side: the rotation that ends the loop.
turn_parent : Side → (p w far : Ptr) → M Ptr
turn_parent d p w far = do
  cp_color w p
  set_colour true p
  set_colour true far
  rotate d p
  λ s. some (s.root, s)

rest_of_round : Side → (x p w near far : Ptr) → M Ptr
unfolding turn_sibling turn_parent
rest_of_round d x p w near far s =
    if is_black near s && is_black far s
    then (do set_colour false w; pure p) s
    else if is_black far s
    then turn_sibling d x w near s
    else turn_parent d p w far s

bb_round : (x p : Ptr) → M Ptr
unfolding red_sibling rest_of_round
bb_round x p = do
  l ← get_child left p
  let d = if x == l then left else right
  v ← child_of (flip d) p
  red_sibling d p v
  w ← child_of (flip d) p
  near ← child_of d w
  far ← child_of (flip d) w
  rest_of_round d x p w near far

-- The loop: its `x` in the end; `none` in the result is the end of the fuel.
bb_loop : ℕ → Ptr → M (Option Ptr)
unfolding bb_round
bb_loop zero x s = some (none, s)
bb_loop (suc fuel) x s =
    if x == s.root || not (is_black x s)
    then some (some x, s)
    else and_then (get_parent x s)
        (λ p. if p == null then pure (some x) else do y ← bb_round x p; bb_loop fuel y)

blacken_end : Option Ptr → M (Option (Unit {0}))
blacken_end none = pure none
blacken_end (some x) = do set_colour true x; pure (some tt)

fix_bb_new : ℕ → Ptr → M (Option (Unit {0}))
unfolding bb_loop blacken_end
fix_bb_new fuel x = do x' ← bb_loop fuel x; blacken_end x'

-- The repair if it is asked for, then `_transplant`.
fix_and_transplant : ℕ → Bool → (x r : Ptr) → M (Option (Unit {0}))
unfolding fix_bb_new transplant
fix_and_transplant fuel double_black x r = do
  fixed ← if double_black then fix_bb_new fuel x else pure (some tt)
  elim fixed [ none ↦ pure none | some done ↦ (do transplant x r; pure (some tt)) ]

-- A node with two children changes places with its successor first.
with_successor : ℕ → Ptr → Option Ptr → M (Option (Unit {0}))
unfolding swap_node fix_and_transplant
with_successor fuel x none = pure none
with_successor fuel x (some r) = do
  rr ← get_child right r
  double_black ← λ s. some (is_black r s, s)
  λ s. (if x == s.root then set_root r else pure tt) s
  swap_node x r
  fix_and_transplant fuel double_black x rr

with_child : ℕ → (x r : Ptr) → M (Option (Unit {0}))
unfolding fix_and_transplant
with_child fuel x r s = fix_and_transplant fuel (is_black x s) x r s

unlink_node : ℕ → Ptr → M (Option (Unit {0}))
unfolding leftmost with_successor with_child
unlink_node fuel x = do
  l ← get_child left x
  r ← get_child right x
  λ s.
      if not (l == null) && not (r == null)
      then with_successor fuel x (leftmost fuel s r r) s
      else with_child fuel x (if r == null then l else r) s

-- The end of `rb_remove_node`.
count_down : M (Unit {0})
count_down s =
    some (tt, record s { size = s.size - 1; root = if leb (s.size - 1) 0 then null else s.root })

rb_remove_node : ℕ → Ptr → M (Option (Unit {0}))
unfolding unlink_node clear count_down
rb_remove_node fuel x = do
  done ← unlink_node fuel x
  elim done [
    | none ↦ pure none
    | some u ↦ do λ s. set_colour true s.root s; clear x; count_down; pure (some tt)
  ]

abbrev removed_node : Ptr → Option (Unit {0}) → Option Ptr
removed_node x none = none
removed_node x (some u) = some x

pub rb_remove : ℕ → ℕ → M (Option Ptr)
unfolding rb_remove_node
rb_remove fuel key s =
    if s.root == null
    then some (some null, s)
    else if leb s.size 0
    then some (some null, s)
    else elim (rb_search fuel s key) [
      | none ↦ some (none, s)
      | some (x, hot) ↦
          if x == null
          then some (some null, s)
          else and_then (rb_remove_node fuel x s) (λ done. pure (removed_node x done))
    ]

-- Where the comparison is the order of numbers on the ranks of the nodes, and the fuel is above the
-- number of nodes, `rb_remove` of a key that no node of a valid tree has returns null and changes
-- nothing.
pub rb_remove_absent :
    (rank : Ptr → ℕ) (s : RbTree) (key fuel : ℕ) (t : Shape)
    → ((n : Ptr) → compare_key s key n ≡ def_order_func key (rank n))
    → IsValid rank s t
    → ((a : Ptr) → a ∈ in_order t → rank a ≢ key)
    → length (in_order t) < fuel
    → rb_remove fuel key s ≡ some (some null, s)
unfolding rb_remove
rb_remove_absent rank s key fuel t agrees v out lt =
    let found = rb_search_absent rank s key agrees fuel t v.focus.tree out lt in
    ground (arith, found)
