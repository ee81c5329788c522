-- ===== src/Graph/Tests.antt =====
-- A node of src/graph.c for an empty graph.
use syslib.Prelude.{ℕ, ◌≡◌, refl, arith, true, false, none, some, List, [], ◌==◌, if◌then◌else◌}
use syslib.Dlist.{Ptr}
use syslib.Dlist.Chain.{IsList}
use syslib.RbTree.Shape.{Shape, leaf}
use syslib.RbTree.Insert.{IsValid}
use syslib.RbTree.Grow.{Inserted}
use syslib.Graph.{Graph, graph_add_node}
use syslib.Graph.AddNode.{prepared, graph_add_node_answer}

abbrev rank : Ptr → ℕ
rank p = if p == 12 then 30 else 0

abbrev bare : Graph
bare = record {
  gnode_table = record {
    size = 0;
    root = 0;
    cfunc = none;
    key = λ p. 0;
    child = λ d p. 0;
    parent = λ p. 0;
    isblack = λ p. true;
  };
  links = record { prev = λ p. 0; next = λ p. 0 };
  visited = λ p. 0;
}

bare-IsValid : IsValid rank bare.gnode_table leaf
bare-IsValid = record {
  focus = record { tree = refl; context = (refl, refl); distinct = tt };
  ascending = tt;
  black_root = refl;
  balanced = (0, refl);
  count = refl;
}

graph_add_node_answer_example :
    (h : Graph) × (t' : Shape) × (xs : List Ptr) × (ys : List Ptr) × (graph_add_node 1 true 12 30
        bare
      ≡ some (some false, h))
    × Inserted rank (prepared 12 30 bare.gnode_table) h.gnode_table 12 leaf t' xs ys
    × IsList h.links 44 []
graph_add_node_answer_example =
    graph_add_node_answer rank bare leaf 12 30 1 refl (λ n. refl) (omega arith) refl bare-IsValid
      refl (λ a m. cc) (omega arith)
