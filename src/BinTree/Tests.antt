-- ===== src/BinTree/Tests.antt =====
-- The operations of src/bin_tree.c on the node 1 with the left child 2.
use syslib.Prelude.{◌≡◌, refl, arith, ◌==◌, if◌then◌else◌, inr}
use syslib.Dlist.{succeed}
use syslib.BinTree.{BinTree, bt_insert, bt_remove}
use syslib.BinTree.Laws.{Detached, bt_remove-bt_insert}

abbrev small : BinTree
small = record {
  root = 1;
  parent = λ p. if p == 2 then 1 else 0;
  lchild = λ p. if p == 1 then 2 else 0;
  rchild = λ p. 0;
}

bt_remove-bt_insert_example :
    (u : BinTree) × (bt_insert 9 1 3 small ≡ (succeed, u))
    × (u.parent 3 ≡ 1)
    × ((v : BinTree) × (bt_remove 9 3 u ≡ (succeed, v)) × Detached small v 3)
bt_remove-bt_insert_example =
    bt_remove-bt_insert small 9 1 3 (omega arith) (omega arith) (omega arith) (omega arith)
      (omega arith) (inr refl)
