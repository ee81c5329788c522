-- ===== src/BinTree.antt =====
-- src/bin_tree.c and inc/bin_tree.h: a binary tree of nodes that the caller provides. The store
-- holds the fields of every `struct btnode`, by address, and the root of one `struct bintree`. Its
-- size and depth are never used. The functions check every pointer that they follow.
pub mod Laws
mod Tests
use syslib.Prelude.{Bool, true, false, ◌||◌, ◌==◌, if◌then◌else◌, upd}
use syslib.Dlist.{Ptr, null, Code, succeed, fail}

pub record BinTree : Type 0 where
  pub root : Ptr
  pub parent : Ptr → Ptr
  pub lchild : Ptr → Ptr
  pub rchild : Ptr → Ptr

pub bt_fillnew : Ptr → BinTree → BinTree
bt_fillnew node s = record s {
  parent = upd s.parent node null;
  lchild = upd s.lchild node null;
  rchild = upd s.rchild node null;
}

pub bt_insert : (t p node : Ptr) → BinTree → Code × BinTree
bt_insert t p node s =
    if (t == null || p == null) || node == null
    then (fail, s)
    else if s.lchild p == null
    then (succeed, record s { lchild = upd s.lchild p node; parent = upd s.parent node p })
    else if s.rchild p == null
    then (succeed, record s { rchild = upd s.rchild p node; parent = upd s.parent node p })
    else (fail, s)

pub bt_remove : (t node : Ptr) → BinTree → Code × BinTree
bt_remove t node s =
    if t == null || node == null
    then (fail, s)
    else if s.root == node
    then (succeed, record s { root = null })
    else if s.parent node == null
    then (fail, s)
    else if node == s.lchild (s.parent node)
    then (
      succeed,
      record s { lchild = upd s.lchild (s.parent node) null; parent = upd s.parent node null },
    )
    else if node == s.rchild (s.parent node)
    then (
      succeed,
      record s { rchild = upd s.rchild (s.parent node) null; parent = upd s.parent node null },
    )
    else (fail, s)

pub bt_sibling : Ptr → BinTree → Ptr
bt_sibling node s =
    if node == null || s.parent node == null
    then null
    else if node == s.lchild (s.parent node)
    then s.rchild (s.parent node)
    else if node == s.rchild (s.parent node)
    then s.lchild (s.parent node)
    else null
