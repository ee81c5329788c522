-- ===== src/RbTree/Tests.antt =====
-- A tree of src/rbtree.c with the black root 4 and the red node 8 on its right, and the keys 10 and
-- 20. The node 12 with the key 30 is not yet in it.
use syslib.Prelude.{ℕ, ◌≡◌, refl, true, false, some, none, List, [], arith, ◌==◌, if◌then◌else◌}
use syslib.Dlist.{Ptr, null, succeed, fail}
use syslib.RbTree.{RbTree, left, right, rb_search, rb_insert, rotate}
use syslib.RbTree.Shape.{Shape, leaf, node, in_order, IsTree, IsContext}
use syslib.RbTree.Turn.{Kept, rotate-IsTree}
use syslib.RbTree.Focus.{Focus}
use syslib.RbTree.Search.{rb_search_found}
use syslib.RbTree.Insert.{IsValid}
use syslib.RbTree.Grow.{Inserted, rb_insert-IsValid, rb_insert_present}
use syslib.RbTree.Removal.{rb_remove, rb_remove_absent}
use syslib.RbTree.Traverse.{rb_succ, rb_succ-Focus}

abbrev keys : Ptr → ℕ
keys p = if p == 4 then 10 else if p == 8 then 20 else if p == 12 then 30 else 0

abbrev store : RbTree
store = record {
  size = 2;
  root = 4;
  cfunc = none;
  key = keys;
  child = λ d p. elim d [ left ↦ 0 | right ↦ if p == 4 then 8 else 0 ];
  parent = λ p. if p == 8 then 4 else 0;
  isblack = λ p. p == 4;
}

abbrev pair : Shape
pair = node true leaf 4 (node false leaf 8 leaf)

-- The node 16 has the key 20, as the node 8.
abbrev again : RbTree
again = record store { key = λ p. if p == 16 then 20 else keys p }

pair-Focus : Focus store 4 null pair []
pair-Focus = record { tree = ground arith; context = (refl, refl); distinct = ground arith }

pair-IsValid : IsValid keys store pair
pair-IsValid = record {
  focus = pair-Focus;
  ascending = ground arith;
  black_root = refl;
  balanced = (1, (0, refl, refl, (refl, refl, refl, refl)));
  count = refl;
}

again-IsValid : IsValid again.key again pair
again-IsValid = record {
  focus = record { tree = ground arith; context = (refl, refl); distinct = ground arith };
  ascending = ground arith;
  black_root = refl;
  balanced = (1, (0, refl, refl, (refl, refl, refl, refl)));
  count = refl;
}

rb_search_found_example : rb_search 3 store 20 ≡ some (8, 8)
rb_search_found_example =
    rb_search_found keys store 20 (λ n. refl) 3 8 pair pair-Focus.tree (ground arith) refl refl
      (omega arith)

rotate-IsTree_example :
    (t : RbTree) × (rotate left 4 store ≡ some (tt, t))
    × IsTree t 8 null (node false (node true leaf 4 leaf) 8 leaf)
    × IsContext t 8 null []
    × Kept store t
    × (in_order (node false (node true leaf 4 leaf) 8 leaf) ≡ in_order pair)
rotate-IsTree_example =
    rotate-IsTree left store 4 8 null true false leaf leaf leaf [] pair-Focus.tree (refl, refl)
      (ground arith)

rb_insert-IsValid_example :
    (z : RbTree) × (t' : Shape) × (xs : List Ptr) × (ys : List Ptr) × (rb_insert 3 12 store
      ≡ some (some succeed, z))
    × Inserted keys store z 12 pair t' xs ys
rb_insert-IsValid_example =
    rb_insert-IsValid keys store 12 3 (λ n. refl) (omega arith) refl refl pair pair-IsValid refl
      (λ a m. ground arith) (omega arith)

rb_insert_present_example : rb_insert 3 16 again ≡ some (some fail, again)
rb_insert_present_example =
    rb_insert_present again.key again 16 3 (λ n. refl) (omega arith) refl refl pair 8 again-IsValid
      refl refl (omega arith)

rb_succ-Focus_example : rb_succ 2 store 4 ≡ some 8
rb_succ-Focus_example =
    rb_succ-Focus 2 store 4 null true leaf (node false leaf 8 leaf) [] pair-Focus (omega arith)
      (omega arith)

rb_remove_absent_example : rb_remove 3 15 store ≡ some (some null, store)
rb_remove_absent_example =
    rb_remove_absent keys store 15 3 pair (λ n. refl) pair-IsValid (λ a m. ground arith)
      (omega arith)
