-- ===== src/RbTree.antt =====
-- src/rbtree.c and inc/rbtree.h: the red-black tree. The store holds the fields of every `struct
-- rbnode`, by address, and those of one `struct rbtree`. The addresses of the nodes are multiples
-- of 4, so that the two fields of the union in a node do not overlap. What the code writes twice,
-- mirrored, is one definition that takes a side.
pub mod Shape
pub mod Search
pub mod Rotate
pub mod Turn
pub mod Focus
pub mod Fix
pub mod Round
pub mod Repair
pub mod Path
pub mod Place
pub mod Link
pub mod Insert
pub mod Grow
pub mod Traverse
pub mod Removal
mod Tests
use syslib.Prelude.{
  ℕ, zero, suc, ◌+◌, ◌%◌, Bool, true, false, not, ◌&&◌, ◌||◌, Option, none, some, ◌==◌, ltb,
  if◌then◌else◌, arith, Run, pure, and_then, ◌>>=◌, ◌>>◌, upd, ◌≡◌, ◌≢◌,
}
use syslib.Dlist.{Ptr, null, Code, succeed, fail}

pub data Side : Type 0 where
  left right : Side

abbrev pub flip : Side → Side
flip left = right
flip right = left

abbrev pub same_side : Side → Side → Bool
same_side left left = true
same_side left right = false
same_side right left = false
same_side right right = true

-- The sign of the result of a comparison.
pub data Sign : Type 0 where
  less same more : Sign

pub record RbTree : Type 0 where
  pub size : ℕ
  pub root : Ptr
  pub cfunc : Option (ℕ → Ptr → Sign)
  pub key : Ptr → ℕ
  pub child : Side → Ptr → Ptr
  pub parent : Ptr → Ptr
  pub isblack : Ptr → Bool

abbrev pub M : Type 0 → Type 0
M A = Run RbTree A

abbrev pub set_child : Side → Ptr → Ptr → RbTree → RbTree
set_child d p q s = record s { child = λ e r. if same_side e d && (r == p) then q else s.child e r }

unfoldable pub get : {A : Type 0} → (RbTree → Ptr → A) → Ptr → M A
get field p s = if p == null then none else some (field s p, s)

unfoldable pub put : (RbTree → RbTree) → Ptr → M (Unit {0})
put change p s = if p == null then none else some (tt, change s)

abbrev pub get_child : Side → Ptr → M Ptr
get_child d = get (λ s. s.child d)

abbrev pub put_child : Side → Ptr → Ptr → M (Unit {0})
put_child d p q = put (set_child d p q) p

-- `_set_parent`, which keeps the colour.
abbrev pub put_parent : Ptr → Ptr → M (Unit {0})
put_parent p q = put (λ s. record s { parent = upd s.parent p q }) p

abbrev pub put_colour : Ptr → Bool → M (Unit {0})
put_colour p b = put (λ s. record s { isblack = upd s.isblack p b }) p

abbrev pub set_root : Ptr → M (Unit {0})
set_root p s = some (tt, record s { root = p })

-- `_get_parent`
abbrev pub get_parent : Ptr → M Ptr
get_parent p s = some (if p == null then null else s.parent p, s)

abbrev pub is_black : Ptr → RbTree → Bool
is_black p s = (p == null) || s.isblack p

abbrev pub is_red : Ptr → RbTree → Bool
is_red p s = not (is_black p s)

-- `set_black` and `set_red`
abbrev pub set_colour : Bool → Ptr → M (Unit {0})
set_colour b p s = some (tt, if p == null then s else record s { isblack = upd s.isblack p b })

module _ {p : Ptr} (ne : p ≢ null) (s : RbTree) where
  pub get-ok : {A : Type 0} (field : RbTree → Ptr → A) → get field p s ≡ some (field s p, s)
  unfolding get
  get-ok field = ground arith

  pub put-ok : (change : RbTree → RbTree) → put change p s ≡ some (tt, change s)
  unfolding put
  put-ok change = ground arith

abbrev pub def_order_func : ℕ → ℕ → Sign
def_order_func a b = if ltb a b then less else if ltb b a then more else same

abbrev pub compare_with : Option (ℕ → Ptr → Sign) → (Ptr → ℕ) → ℕ → Ptr → Sign
compare_with none key_of k n = def_order_func k (key_of n)
compare_with (some f) key_of k n = f k n

abbrev pub compare_key : RbTree → ℕ → Ptr → Sign
compare_key s k n = compare_with s.cfunc s.key k n

-- The pointer of `rb_search` after a comparison with `p`.
abbrev pub moved : Sign → RbTree → Ptr → Ptr
moved less s p = s.child left p
moved more s p = s.child right p
moved same s p = p

abbrev pub is_same : Sign → Bool
is_same less = false
is_same more = false
is_same same = true

-- The loop of `rb_search`: what it returns, and `h`; `none` is the end of the fuel.
unfoldable pub search_from : ℕ → RbTree → ℕ → Ptr → Ptr → Option (Ptr × Ptr)
search_from zero s k h p = none
search_from (suc fuel) s k h p =
    let sign = compare_key s k p in
    let rest = search_from fuel s k p (moved sign s p) in
    if p == null then some (null, h) else if is_same sign then some (p, p) else rest

-- What it returns, and `*hot`.
unfoldable pub rb_search : ℕ → RbTree → ℕ → Option (Ptr × Ptr)
rb_search fuel s k =
    if s.root == null then some (null, null) else search_from fuel s k s.root s.root

-- Where `node` was the child of `p`, `c` is now.
unfoldable pub replace_child : Ptr → Ptr → Ptr → M (Unit {0})
replace_child p node c =
    if p == null
    then pure tt
    else do l ← get_child left p; if node == l then put_child left p c else put_child right p c

unfoldable pub adopt : Ptr → Ptr → M (Unit {0})
adopt b node = if b == null then pure tt else put_parent b node

unfoldable pub root_at : Ptr → Ptr → M (Unit {0})
root_at p c = if p == null then set_root c else pure tt

-- `_left_rotate` for the side `left`, `_right_rotate` for the side `right`.
unfoldable pub rotate : Side → Ptr → M (Unit {0})
rotate d node = if node == null then pure tt else do
  c ← get_child (flip d) node
  if c == null then pure tt else do
    node_p ← get_parent node
    put_parent c node_p
    replace_child node_p node c
    put_parent node c
    b ← get_child d c
    adopt b node
    b' ← get_child d c
    put_child (flip d) node b'
    put_child d c node
    root_at node_p c

-- The side of `g` that `p` is on, as `_fix_rr` tests it.
abbrev pub side_of : Ptr → Ptr → Side
side_of p l = if p == l then left else right

-- The two ends of a round of `_fix_rr`: the uncle is red, and the round moves to the grandparent,
-- or it is black, and a rotation ends the loop. The result has whether the loop goes on, and `node`.
unfoldable pub recolour : (p u g : Ptr) → M (Bool × Ptr)
recolour p u g = do set_colour true p; set_colour true u; set_colour false g; pure (true, g)

unfoldable pub rebalance : Side → (node p g : Ptr) → M (Bool × Ptr)
rebalance d node p g = do
  inner ← get_child (flip d) p
  let node' = if node == inner then node else p
  if node == inner then rotate d p else pure tt
  set_colour true node'
  set_colour false g
  rotate (flip d) g
  pure (false, node')

-- The body of the loop.
unfoldable pub fix_round : Ptr → M (Bool × Ptr)
fix_round node = do
  p ← get_parent node
  g ← get_parent p
  l ← get_child left g
  u ← get_child (flip (side_of p l)) g
  λ s. if is_red u s then recolour p u g s else rebalance (side_of p l) node p g s

-- The loop: its `node` in the end; `none` is the end of the fuel.
unfoldable pub fix_loop : ℕ → (node p : Ptr) → M (Option Ptr)
fix_loop zero node p s = some (none, s)
fix_loop (suc fuel) node p s =
    if is_red p s
    then and_then (fix_round node s)
        (λ (on, n). if on then (do q ← get_parent n; fix_loop fuel n q) else pure (some n))
    else some (some node, s)

-- The root above `node`; `none` is the end of the fuel.
unfoldable pub climb : ℕ → RbTree → Ptr → Option Ptr
climb zero s node = none
climb (suc fuel) s node =
    let rest = climb fuel s (s.parent node) in
    if node == null then some node else if s.parent node == null then some node else rest

-- The node at which the climb ends becomes the root, and black.
abbrev pub set_top : Option Ptr → M (Option (Unit {0}))
set_top none = pure none
set_top (some top) = do set_root top; set_colour true top; pure (some tt)

abbrev pub climb_from : ℕ → Option Ptr → M (Option (Unit {0}))
climb_from fuel none = pure none
climb_from fuel (some node) = λ s. set_top (climb fuel s node) s

-- `_fix_rr`; `none` in the result is the end of the fuel.
unfoldable pub fix_rr : ℕ → Ptr → M (Option (Unit {0}))
fix_rr fuel node = if node == null then pure (some tt) else do
  p ← get_parent node
  if p == null then pure (some tt) else do end ← fix_loop fuel node p; climb_from fuel end

-- The stores to the new node before it is linked.
unfoldable pub fill : Ptr → Ptr → M (Unit {0})
fill node hot = do
  put_colour node false
  put_child left node null
  put_child right node null
  put_parent node hot

-- The link from `hot`, by the sign of the comparison; `none` is the jump to the error return.
abbrev pub link : Sign → (node hot : Ptr) → M (Option (Unit {0}))
link less node hot = do put_child left hot node; put_parent node hot; pure (some tt)
link more node hot = do put_child right hot node; put_parent node hot; pure (some tt)
link same node hot = pure none

-- The end of `rb_insert` behind the links.
unfoldable pub finish : M (Option Code)
finish s = (do put_colour s.root true; λ t. some (some succeed, record t { size = t.size + 1 })) s

-- `none` in the result is the end of the fuel.
unfoldable pub insert_at : ℕ → (node hot : Ptr) → M (Option Code)
insert_at fuel node hot = if hot == null then (do set_root node; finish) else λ s.
    and_then (link (compare_key s (s.key node) hot) node hot s) (λ linked. elim linked [
      | none ↦ pure (some fail)
      | some done ↦ do
        fixed ← fix_rr fuel node
        elim fixed [ none ↦ pure none | some done ↦ finish ]
    ])

unfoldable pub rb_insert : ℕ → Ptr → M (Option Code)
rb_insert fuel node s =
    if node == null || not (node % 4 == 0)
    then some (some fail, s)
    else elim (rb_search fuel s (s.key node)) [
      | none ↦ some (none, s)
      | some (found, hot) ↦
          if found == null
          then (do fill node hot; insert_at fuel node hot) s
          else some (some fail, s)
    ]
