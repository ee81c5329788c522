-- ===== src/Dlist/Remove.antt =====
-- What `lst_remove` and `lst_remove_node` of src/dlist.c do to a list.
use syslib.Prelude.{◌≡◌, ◌≢◌, ◌∙◌, List, [], ◌∷◌, ◌++◌, arith, some}
use mathlib.Core.Path.{ap₂, sym}
use syslib.Dlist.{Ptr, null, Links, succeed, tail_of, lst_remove, lst_remove_node}
use syslib.Dlist.Chain.{
  ◌∈◌, ◌∉◌, Distinct, nodes, IsList, last_of, first_of, has-append, ne_of_mem, has-insert,
  Distinct-delete, SameOutside, last_of-nodes, first_of-nodes, first_of-ne-head, last_of-ne-tail,
}
use syslib.Dlist.Unlink.{
  unlinked, neighbours, Chain-unlinked, lst_remove-run, lst_remove_node-run, not_empty,
}

-- What a removal of `n` from between `xs` and `ys` comes to.
pub record Removed (s t : Links) (lst n : Ptr) (xs ys : List Ptr) : Type 0 where
  pub list : IsList t lst (xs ++ ys)
  pub cleared : (t.prev n ≡ null) × (t.next n ≡ null)
  pub same : SameOutside (n ∷ nodes lst (xs ++ ys)) s t

module _ (s : Links) (lst n : Ptr) (xs ys : List Ptr) (is : IsList s lst (xs ++ (n ∷ ys))) where
  abbrev all : List Ptr
  all = nodes lst (xs ++ ys)

  abbrev p : Ptr
  p = last_of lst xs

  abbrev q : Ptr
  q = first_of ys (tail_of lst)

  rest : Distinct all × (n ∉ all)
  rest =
      let (d, out) = Distinct-delete n (tail_of lst ∷ []) xs ys is.distinct.1 in
      (
        (ground (arith, is.distinct, has-insert n (tail_of lst ∷ []) lst xs ys), d),
        ground (arith, is.distinct, out, has-insert n (tail_of lst ∷ []) lst xs ys),
      )

  p_in : p ∈ all
  p_in = last_of-nodes lst xs ys rest.0

  q_in : q ∈ all
  q_in = first_of-nodes lst xs ys rest.0

  null_out : null ∉ all
  null_out = ground (arith, is.non_null, has-insert n (tail_of lst ∷ []) null xs ys)

  n_ne : n ≢ null
  n_ne = ground (arith, is.non_null, has-insert n (tail_of lst ∷ []) null xs ys)

  pub lst_ne : lst ≢ null
  lst_ne = ground (arith, null_out)

  unlinked-Removed : Removed s (unlinked s p n q) lst n xs ys
  unlinked-Removed = record {
    list = record {
      distinct = rest.0;
      non_null = null_out;
      chain = Chain-unlinked s n lst (tail_of lst) xs ys is.chain rest.0 rest.1;
      head_prev = ground (arith, first_of-ne-head lst xs ys rest.0, is.head_prev);
      tail_next = ground (arith, last_of-ne-tail lst xs ys rest.0, is.tail_next);
    };
    cleared = ground arith;
    same = λ r o. ground (arith, ne_of_mem p r all p_in, ne_of_mem q r all q_in);
  }

  -- For a node `n` of a list, between `xs` and `ys`, `lst_remove` and `lst_remove_node` both
  -- succeed with the same store, in which the list is `xs ++ ys`, the fields of `n` are null and
  -- no node outside the list has changed.
  pub remove-Removed :
      (t : Links) × (lst_remove lst n s ≡ some (succeed, t))
      × (lst_remove_node n s ≡ some (succeed, t))
      × Removed s t lst n xs ys
  remove-Removed =
      let (back, forth) = neighbours s n lst (tail_of lst) xs ys is.chain in
      let (last, first) = not_empty s lst n xs ys is in
      let hp : s.prev n ≢ null = rw back (ne_of_mem p null all p_in null_out) in
      let hq : s.next n ≢ null = rw forth (ne_of_mem q null all q_in null_out) in
      let ne : n ≢ s.prev n = rw back (λ e. ne_of_mem p n all p_in rest.1 (sym e)) in
      (
        unlinked s p n q,
        lst_remove-run s lst n lst_ne n_ne hp hq ne last first (ground (arith, rest.1))
              (ground (arith, rest.1, has-append n (xs ++ ys) (tail_of lst ∷ [])))
            ∙ ap₂ (λ a b. some (succeed, unlinked s a n b)) back forth,
        lst_remove_node-run s n n_ne hp hq ne
            ∙ ap₂ (λ a b. some (succeed, unlinked s a n b)) back forth,
        unlinked-Removed,
      )
