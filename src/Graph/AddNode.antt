-- ===== src/Graph/AddNode.antt =====
-- What `graph_add_node` of src/graph.c does to the table of nodes.
use syslib.Prelude.{
  ℕ, ◌%◌, ◌<◌, ◌≡◌, ◌≢◌, refl, ap, sym, arith, true, false, some, none, List, [], ne→==, upd,
  length,
}
use syslib.Dlist.{Ptr, null}
use syslib.Dlist.Chain.{◌∈◌, ◌∉◌, IsList}
use syslib.Dlist.Insert.{lst_new-IsList}
use syslib.RbTree.{RbTree, compare_key, def_order_func}
use syslib.RbTree.Shape.{Shape, in_order, Same, IsTree-frame}
use syslib.RbTree.Insert.{IsValid}
use syslib.RbTree.Grow.{Inserted, rb_insert-IsValid}
use syslib.Graph.{Graph, ngb_list, rb_fillnew, graph_add_node}

-- The table just before the insertion.
abbrev pub prepared : Ptr → ℕ → RbTree → RbTree
prepared node key s = (let s' = rb_fillnew node s in record s' { key = upd s'.key node key })

prepared-IsValid :
    (rank : Ptr → ℕ) (node : Ptr) (key : ℕ) (s : RbTree) (t : Shape)
    → IsValid rank s t
    → node ∉ in_order t
    → IsValid rank (prepared node key s) t
prepared-IsValid rank node key s t v out =
    let same : (r : Ptr) → r ≢ node → Same s (prepared node key s) r = λ r ne. ground arith in
    record {
      focus = record {
        tree =
            IsTree-frame s (prepared node key s) s.root null t v.focus.tree
              (λ r m. same r (λ e. ground (arith, e)));
        context = (refl, refl);
        distinct = v.focus.distinct;
      };
      ascending = v.ascending;
      black_root = v.black_root;
      balanced = v.balanced;
      count = v.count;
    }

-- Let the table be a valid tree that compares keys as numbers, the rank of every node being the key
-- that it has or, for the new node, is given; the node is not null, its address a multiple of 4,
-- it is not in the tree and its key is not either, and the fuel is above the number of nodes. Then
-- `graph_add_node` puts the node into the table, between the nodes of smaller and of larger keys,
-- and leaves its list of neighbours empty; but what it returns is the failure 0.
pub graph_add_node_answer :
    (rank : Ptr → ℕ) (g : Graph) (t : Shape) (node : Ptr) (key fuel : ℕ)
    → g.gnode_table.cfunc ≡ none
    → ((n : Ptr) → upd g.gnode_table.key node key n ≡ rank n)
    → node ≢ null
    → node % 4 ≡ 0
    → IsValid rank g.gnode_table t
    → node ∉ in_order t
    → ((a : Ptr) → a ∈ in_order t → rank a ≢ key)
    → length (in_order t) < fuel
    → (h : Graph) × (t' : Shape) × (xs : List Ptr) × (ys : List Ptr) × (graph_add_node fuel true
          node key g
        ≡ some (some false, h))
      × Inserted rank (prepared node key g.gnode_table) h.gnode_table node t t' xs ys
      × IsList h.links (ngb_list node) []
unfolding graph_add_node
graph_add_node_answer rank g t node key fuel plain ranks hn aligned v out fresh lt =
    let s = prepared node key g.gnode_table in
    let (l, made, empty, _) = lst_new-IsList g.links (ngb_list node) (omega arith) in
    let key_at : (n : Ptr) → s.key n ≡ rank n = λ n. ground (arith, ranks n) in
    let own : s.key node ≡ key = ground arith in
    let agrees : (n : Ptr) → compare_key s (s.key node) n ≡ def_order_func (s.key node) (rank n) =
      λ n. rw plain (ap (def_order_func (s.key node)) (key_at n)) in
    let (z, t', xs, ys, run, done) =
      rb_insert-IsValid rank s node fuel agrees hn aligned (sym (key_at node)) t
        (prepared-IsValid rank node key g.gnode_table t v out) out (λ a m. rw own (fresh a m)) lt in
    (
      record { gnode_table = z; links = l; visited = upd g.visited node 0 },
      t',
      xs,
      ys,
      rw (ne→== node null hn, made, run) refl,
      done,
      empty,
    )
