-- ===== src/BinTree/Laws.antt =====
-- What the operations of src/bin_tree.c undo and keep.
use syslib.Prelude.{◌≡◌, ◌≢◌, refl, arith, ◌==◌, upd, ◌⊎◌, inl, inr, Bool-cases}
use syslib.Dlist.{Ptr, null, succeed, fail}
use syslib.BinTree.{BinTree, bt_insert, bt_remove, bt_sibling}

-- The same tree, but for the parent of `node`, which is null.
pub record Detached (s t : BinTree) (node : Ptr) : Type 0 where
  pub root : t.root ≡ s.root
  pub lchild : (q : Ptr) → t.lchild q ≡ s.lchild q
  pub rchild : (q : Ptr) → t.rchild q ≡ s.rchild q
  pub parent : (q : Ptr) → q ≢ node → t.parent q ≡ s.parent q
  pub cleared : t.parent node ≡ null

-- For pointers that are not null, a node that is not the root nor the left child of `p`, and a `p` that
-- lacks a child, `bt_insert` succeeds and makes `p` the parent; `bt_remove` then succeeds too and
-- leaves the tree as it was, but for the parent of the node, which is null.
pub bt_remove-bt_insert :
    (s : BinTree) (t p node : Ptr)
    → t ≢ null
    → p ≢ null
    → node ≢ null
    → s.root ≢ node
    → s.lchild p ≢ node
    → (s.lchild p ≡ null) ⊎ (s.rchild p ≡ null)
    → (u : BinTree) × (bt_insert t p node s ≡ (succeed, u))
      × (u.parent node ≡ p)
      × ((v : BinTree) × (bt_remove t node u ≡ (succeed, v)) × Detached s v node)
unfolding bt_insert bt_remove
bt_remove-bt_insert s t p node ht hp hn hr hl free = elim (Bool-cases (s.lchild p == null)) [
  | inl empty ↦
      let u : BinTree = record s { lchild = upd s.lchild p node; parent = upd s.parent node p } in
      let v : BinTree = record u {
        lchild = upd u.lchild p null;
        parent = upd u.parent node null;
      } in
      (
        u,
        ground arith,
        ground arith,
        (
          v,
          ground arith,
          record {
            root = refl;
            lchild = λ q. ground arith;
            rchild = λ q. refl;
            parent = λ q ne. ground arith;
            cleared = ground arith;
          },
        ),
      )
  | inr full ↦
      let u : BinTree = record s { rchild = upd s.rchild p node; parent = upd s.parent node p } in
      let v : BinTree = record u {
        rchild = upd u.rchild p null;
        parent = upd u.parent node null;
      } in
      (
        u,
        ground arith,
        ground arith,
        (
          v,
          ground arith,
          record {
            root = refl;
            lchild = λ q. refl;
            rchild = λ q. ground arith;
            parent = λ q ne. ground arith;
            cleared = ground arith;
          },
        ),
      )
]

-- Of two different nodes, not null, that are the left and the right child of their parent,
-- `bt_sibling` returns for each the other.
pub bt_sibling-bt_sibling :
    (s : BinTree) (p a b : Ptr)
    → p ≢ null
    → a ≢ null
    → b ≢ null
    → a ≢ b
    → s.parent a ≡ p
    → s.parent b ≡ p
    → s.lchild p ≡ a
    → s.rchild p ≡ b
    → (bt_sibling a s ≡ b) × (bt_sibling b s ≡ a)
unfolding bt_sibling
bt_sibling-bt_sibling s p a b hp ha hb ne pa pb la rb = ground arith

-- Under a parent with two children, `bt_insert` fails and changes nothing.
pub bt_insert_full :
    (s : BinTree) (t p node : Ptr)
    → s.lchild p ≢ null
    → s.rchild p ≢ null
    → bt_insert t p node s ≡ (fail, s)
unfolding bt_insert
bt_insert_full s t p node hl hr = ground arith
