-- ===== src/Graph.antt =====
-- src/graph.c and inc/graph.h: a graph whose nodes are kept in a tree of src/rbtree.c by their keys,
-- each with a list of src/dlist.c of its neighbours. A `struct gnode` has its tree node at its start
-- and its list 32 bytes behind it. The two searches of the file have no body.
pub mod AddNode
mod Tests
use syslib.Prelude.{
  ℕ, ◌+◌, Bool, true, false, not, Option, none, some, ◌==◌, if◌then◌else◌, Run, pure, and_then,
  ◌>>=◌, ◌>>◌, upd,
}
use syslib.Dlist.{Ptr, null, Links, Code, succeed, fail, lst_new}
use syslib.RbTree.{RbTree, Side, left, right, set_child, rb_insert}

pub record Graph : Type 0 where
  pub gnode_table : RbTree
  pub links : Links
  pub visited : Ptr → ℕ

abbrev pub M : Type 0 → Type 0
M A = Run Graph A

-- `&node->ngb_list`
abbrev pub ngb_list : Ptr → Ptr
ngb_list node = node + 32

abbrev of_table : {A : Type 0} → Option (A × RbTree) → Graph → Option (A × Graph)
of_table none g = none
of_table (some (a, t)) g = some (a, record g { gnode_table = t })

abbrev pub on_table : {A : Type 0} → Run RbTree A → M A
on_table m g = of_table (m g.gnode_table) g

abbrev of_links : {A : Type 0} → Option (A × Links) → Graph → Option (A × Graph)
of_links none g = none
of_links (some (a, l)) g = some (a, record g { links = l })

abbrev pub on_links : {A : Type 0} → Run Links A → M A
on_links m g = of_links (m g.links) g

-- `rb_fillnew` of a node that is not null.
abbrev pub rb_fillnew : Ptr → RbTree → RbTree
rb_fillnew node s =
    (let s' = set_child right node null (set_child left node null s) in
      record s' {
        key = upd s'.key node 0;
        isblack = upd s'.isblack node false;
        parent = upd s'.parent node null;
      })

-- The answers 1 and 0 are `true` and `false`; a null graph is `none`.
unfoldable pub graph_new : Option Graph → Bool × Option Graph
graph_new none = (false, none)
graph_new (some g) =
    (true, some (record g { gnode_table = record g.gnode_table { size = 0; root = null } }))

-- The test of what `rb_insert` returns: it is 0 where it succeeds.
abbrev pub answer : Option Code → Option Bool
answer none = none
answer (some succeed) = some false
answer (some fail) = some true

abbrev pub with_key : Ptr → ℕ → Graph → Graph
with_key node key g = record g {
  gnode_table = record g.gnode_table { key = upd g.gnode_table.key node key };
  visited = upd g.visited node 0;
}

-- `given` says whether the graph is not null; `none` in the result is the end of the fuel.
unfoldable pub graph_add_node : ℕ → (given : Bool) → (node : Ptr) → (key : ℕ) → M (Option Bool)
graph_add_node fuel given node key =
    if not given then pure (some false) else if node == null then pure (some false) else do
      λ g. some (tt, record g { gnode_table = rb_fillnew node g.gnode_table })
      _ ← on_links (lst_new (ngb_list node))
      λ g. some (tt, with_key node key g)
      code ← on_table (rb_insert fuel node)
      pure (answer code)
