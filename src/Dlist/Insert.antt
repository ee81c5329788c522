-- ===== src/Dlist/Insert.antt =====
-- What the operations of src/dlist.c that create and extend lists do.
use syslib.Prelude.{
  upd, ◌≡◌, ◌≢◌, ◌∙◌, refl, ap, ne→==, false, List, [], ◌∷◌, ◌++◌, arith, ◌==◌, some,
}
use mathlib.Core.List.{append-nil}
use syslib.Dlist.{
  Ptr, null, Links, succeed, tail_of, lst_new, lst_insert_before, lst_insert_after, lst_push_back,
  lst_push_front, get_prev-ok, get_next-ok, set_prev-ok, set_next-ok,
}
use syslib.Dlist.Chain.{
  ◌∈◌, ◌∉◌, nodes, IsList, last_of, first_of, has-append, ne_of_mem, gap, spliced, Chain-spliced,
  has-insert, Distinct-insert, SameOutside, last_of-nodes, first_of-nodes, first_of-ne-head,
  last_of-ne-tail,
}

-- At an address that is not null `lst_new` succeeds and leaves the empty list, whatever was there,
-- and changes nothing but the two sentinels.
pub lst_new-IsList :
    (s : Links) (lst : Ptr)
    → lst ≢ null
    → (t : Links) × (lst_new lst s ≡ some (succeed, t))
      × IsList t lst []
      × SameOutside (nodes lst []) s t
unfolding lst_new
lst_new-IsList s lst ne =
    let e : (lst == null) ≡ false = ground arith in
    let ne' : tail_of lst ≢ null = omega arith in
    (
      record {
        prev = upd (upd s.prev lst null) (tail_of lst) lst;
        next = upd (upd s.next lst (tail_of lst)) (tail_of lst) null;
      },
      rw (e, set_prev-ok ne, set_next-ok ne, set_prev-ok ne', set_next-ok ne'),
      ground arith,
      λ p out. ground arith,
    )

insert_before_run :
    (s : Links) (lst q n : Ptr)
    → lst ≢ null
    → q ≢ null
    → n ≢ null
    → q ≢ lst
    → q ≢ n
    → s.prev q ≢ null
    → lst_insert_before lst q n s ≡ some (succeed, spliced s (s.prev q) n q)
unfolding lst_insert_before
insert_before_run s lst q n hl hq hn ne_head ne_self hp =
    rw
      (
        ne→== lst null hl,
        ne→== q null hq,
        ne→== n null hn,
        ne→== q lst ne_head,
        get_prev-ok hq,
        set_prev-ok hn,
        set_next-ok hn,
        get_prev-ok hq,
        ne→== q n ne_self,
        set_next-ok hp,
        set_prev-ok hq,
      )
      refl

insert_after_run :
    (s : Links) (lst p n : Ptr)
    → lst ≢ null
    → p ≢ null
    → n ≢ null
    → p ≢ tail_of lst
    → p ≢ n
    → s.next p ≢ null
    → lst_insert_after lst p n s ≡ some (succeed, spliced s p n (s.next p))
unfolding lst_insert_after
insert_after_run s lst p n hl hp hn ne_tail ne_self hq =
    rw
      (
        ne→== lst null hl,
        ne→== p null hp,
        ne→== n null hn,
        ne→== p (tail_of lst) ne_tail,
        set_prev-ok hn,
        get_next-ok hp,
        set_next-ok hn,
        get_next-ok hp,
        ne→== p n ne_self,
        set_prev-ok hq,
        set_next-ok hp,
      )
      refl

-- What an insertion of `n` between `xs` and `ys` comes to.
pub record Inserted (s t : Links) (lst n : Ptr) (xs ys : List Ptr) : Type 0 where
  pub list : IsList t lst (xs ++ (n ∷ ys))
  pub same : SameOutside (n ∷ nodes lst (xs ++ ys)) s t

module _ (s : Links) (lst n : Ptr) (xs ys : List Ptr) (is : IsList s lst (xs ++ ys)) (ne : n ≢ null)
    (out : n ∉ nodes lst (xs ++ ys)) where
  abbrev all : List Ptr
  all = nodes lst (xs ++ ys)

  abbrev p : Ptr
  p = last_of lst xs

  abbrev q : Ptr
  q = first_of ys (tail_of lst)

  head_ne : q ≢ lst
  head_ne = first_of-ne-head lst xs ys is.distinct

  tail_ne : p ≢ tail_of lst
  tail_ne = last_of-ne-tail lst xs ys is.distinct

  p_in : p ∈ nodes lst (xs ++ ys)
  p_in = last_of-nodes lst xs ys is.distinct

  q_in : q ∈ nodes lst (xs ++ ys)
  q_in = first_of-nodes lst xs ys is.distinct

  lst_ne : lst ≢ null
  lst_ne = ground (arith, is.non_null)

  spliced-Inserted : Inserted s (spliced s p n q) lst n xs ys
  spliced-Inserted = record {
    list = record {
      distinct = (
        ground (arith, has-insert n (tail_of lst ∷ []) lst xs ys),
        Distinct-insert n (tail_of lst ∷ []) xs ys is.distinct.1 (ground arith),
      );
      non_null = ground (arith, is.non_null, has-insert n (tail_of lst ∷ []) null xs ys);
      chain = Chain-spliced s n lst (tail_of lst) xs ys is.chain is.distinct out;
      head_prev = ground (arith, head_ne, is.head_prev);
      tail_next = ground (arith, tail_ne, is.tail_next, has-append n (xs ++ ys) (tail_of lst ∷ []));
    };
    same = λ r o. ground (
      arith,
      ne_of_mem p r (nodes lst (xs ++ ys)) p_in,
      ne_of_mem q r (nodes lst (xs ++ ys)) q_in,
    );
  }

  -- For a list `xs ++ ys` and a node `n` that is not null and not among its nodes,
  -- `lst_insert_before` the first node of `ys`, or the tail sentinel if there is none, succeeds;
  -- the list is then `xs ++ (n ∷ ys)` and no other node has changed.
  pub insert_before-Inserted :
      (t : Links) × (lst_insert_before lst q n s ≡ some (succeed, t)) × Inserted s t lst n xs ys
  insert_before-Inserted =
      let (forth, back) = gap s lst (tail_of lst) xs ys is.chain in
      (
        spliced s p n q,
        insert_before_run s lst q n lst_ne (ne_of_mem q null all q_in is.non_null) ne head_ne
              (ne_of_mem q n all q_in out) (rw back (ne_of_mem p null all p_in is.non_null))
            ∙ ap (λ r. some (succeed, spliced s r n q)) back,
        spliced-Inserted,
      )

  -- For a list `xs ++ ys` and a node `n` that is not null and not among its nodes,
  -- `lst_insert_after` the last node of `xs`, or the head sentinel if there is none, succeeds; the
  -- list is then `xs ++ (n ∷ ys)` and no other node has changed.
  pub insert_after-Inserted :
      (t : Links) × (lst_insert_after lst p n s ≡ some (succeed, t)) × Inserted s t lst n xs ys
  insert_after-Inserted =
      let (forth, back) = gap s lst (tail_of lst) xs ys is.chain in
      (
        spliced s p n q,
        insert_after_run s lst p n lst_ne (ne_of_mem p null all p_in is.non_null) ne tail_ne
              (ne_of_mem p n all p_in out) (rw forth (ne_of_mem q null all q_in is.non_null))
            ∙ ap (λ r. some (succeed, spliced s p n r)) forth,
        spliced-Inserted,
      )

-- A node that is not null and not among a list's nodes is appended by `lst_push_back` and put in
-- front by `lst_push_front`; both succeed and change no other node.
pub push-IsList :
    (s : Links) (lst n : Ptr) (xs : List Ptr)
    → IsList s lst xs
    → n ≢ null
    → n ∉ nodes lst xs
    → ((t : Links) × (lst_push_back lst n s ≡ some (succeed, t))
        × IsList t lst (xs ++ (n ∷ []))
        × SameOutside (n ∷ nodes lst xs) s t)
      × ((t : Links) × (lst_push_front lst n s ≡ some (succeed, t))
          × IsList t lst (n ∷ xs)
          × SameOutside (n ∷ nodes lst xs) s t)
unfolding lst_push_back lst_push_front
push-IsList s lst n xs is ne out =
    let e = append-nil xs in
    let (t, run, i) = insert_before-Inserted s lst n xs [] (rw e is) ne (rw e out) in
    let (u, run', j) = insert_after-Inserted s lst n [] xs is ne out in
    ((t, run, i.list, rw e at i.same), (u, run', j.list, j.same))
