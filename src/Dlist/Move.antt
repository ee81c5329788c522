-- ===== src/Dlist/Move.antt =====
-- A node that goes from one of three lists of src/dlist.c to the front of another.
use syslib.Prelude.{
  ◌≡◌, ◌≢◌, ap, ◌∙◌, List, [], ◌∷◌, ◌++◌, arith, some, ◌||◌, ◌==◌, Bool-cases, inl, inr, ==→eq,
}
use syslib.Dlist.{Ptr, null, Links, succeed, tail_of, lst_remove, lst_push_front}
use syslib.Dlist.Chain.{
  has, ◌∈◌, ◌∉◌, nodes, IsList, IsList-frame, ne_of_mem, has-append, has-insert, Distinct-delete,
}
use syslib.Dlist.Remove.{remove-Removed}
use syslib.Dlist.Insert.{push-IsList}

-- Three lists with no node in common.
pub record Three (s : Links) (a b c : Ptr) (xs ys zs : List Ptr) : Type 0 where
  pub one : IsList s a xs
  pub two : IsList s b ys
  pub three : IsList s c zs
  pub ab : (p : Ptr) → p ∈ nodes a xs → p ∉ nodes b ys
  pub ac : (p : Ptr) → p ∈ nodes a xs → p ∉ nodes c zs
  pub bc : (p : Ptr) → p ∈ nodes b ys → p ∉ nodes c zs

-- The two stores agree at every node that is in none of three lists.
abbrev pub SameElsewhere : (a b c : Ptr) → (xs ys zs : List Ptr) → Links → Links → Type 0
SameElsewhere a b c xs ys zs s u =
    (p : Ptr)
    → p ∉ nodes a xs
    → p ∉ nodes b ys
    → p ∉ nodes c zs
    → (u.prev p ≡ s.prev p) × (u.next p ≡ s.next p)

mem_nodes : (a m : Ptr) (xs : List Ptr) → m ∈ xs → m ∈ nodes a xs
mem_nodes a m xs h = ground (arith, has-append m xs (tail_of a ∷ []))

apart : (p : Ptr) (xs ys : List Ptr) → (p ∈ xs → p ∉ ys) → p ∈ ys → p ∉ xs
apart p xs ys h m = elim (Bool-cases (has p xs)) [ inl k ↦ absurd (cc (h k, m)) | inr out ↦ out ]

module _ (s : Links) (a b c n : Ptr) (xs xs' ys zs : List Ptr)
    (th : Three s a b c (xs ++ (n ∷ xs')) ys zs) where
  -- Among the nodes of a list are those of the list without `n`, and `n`.
  has-nodes :
      (p : Ptr) → has p (nodes a (xs ++ (n ∷ xs'))) ≡ ((p == n) || has p (nodes a (xs ++ xs')))
  has-nodes p = has-insert n (tail_of a ∷ []) p (a ∷ xs) xs'

  n_in : n ∈ nodes a (xs ++ (n ∷ xs'))
  n_in = ground (arith, has-nodes n)

  n_out : n ∉ nodes a (xs ++ xs')
  n_out = (Distinct-delete n (tail_of a ∷ []) (a ∷ xs) xs' th.one.distinct).1

  -- The other nodes of the three lists are other than `n`.
  pub kept : (m : Ptr) → m ∈ (xs ++ xs') → (m ≢ n) × (m ∈ (xs ++ (n ∷ xs')))
  kept m h =
      let k : m ∈ nodes a (xs ++ xs') = mem_nodes a m (xs ++ xs') h in
      (
        ne_of_mem m n (nodes a (xs ++ xs')) k n_out,
        ground (arith, has-append m xs xs', has-append m xs (n ∷ xs')),
      )

  pub two-ne : (m : Ptr) → m ∈ ys → m ≢ n
  two-ne m h = ne_of_mem m n (nodes b ys) (mem_nodes b m ys h) (th.ab n n_in)

  pub three-ne : (m : Ptr) → m ∈ zs → m ≢ n
  three-ne m h = ne_of_mem m n (nodes c zs) (mem_nodes c m zs h) (th.ac n n_in)

  -- `n` can be removed from the first list and put in front of the second; other nodes keep their links.
  pub move-Three :
      (t : Links) × ((u : Links) × (lst_remove a n s ≡ some (succeed, t))
        × (lst_push_front b n t ≡ some (succeed, u))
        × Three u a b c (xs ++ xs') (n ∷ ys) zs
        × SameElsewhere a b c (xs ++ (n ∷ xs')) ys zs s u)
  move-Three =
      let (t, run, _, out) = remove-Removed s a n xs xs' th.one in
      let gone = n ∷ nodes a (xs ++ xs') in
      let in_a : (p : Ptr) → p ∈ gone → p ∈ nodes a (xs ++ (n ∷ xs')) =
        λ p m. ground (arith, has-nodes p) in
      let two : IsList t b ys =
        IsList-frame gone ys th.two out.same
          (λ p m. apart p gone (nodes b ys) (λ k. th.ab p (in_a p k)) m) in
      let three : IsList t c zs =
        IsList-frame gone zs th.three out.same
          (λ p m. apart p gone (nodes c zs) (λ k. th.ac p (in_a p k)) m) in
      let (u, run', list, same) =
        (push-IsList t b n ys two
          (ne_of_mem n null (nodes a (xs ++ (n ∷ xs'))) n_in th.one.non_null) (th.ab n n_in)).1 in
      (
        t,
        (
          u,
          run,
          run',
          record {
            one = IsList-frame (n ∷ nodes b ys) (xs ++ xs') out.list same (λ p m. ground (
              arith,
              ne_of_mem p n (nodes a (xs ++ xs')) m n_out,
              th.ab p (in_a p (ground arith)),
            ));
            two = list;
            three =
                IsList-frame (n ∷ nodes b ys) zs three same
                  (λ p m. ground (arith, th.bc p, ne_of_mem p n (nodes c zs) m (th.ac n n_in)));
            ab = λ p m. ground (
              arith,
              ne_of_mem p n (nodes a (xs ++ xs')) m n_out,
              th.ab p (in_a p (ground arith)),
            );
            ac = λ p m. th.ac p (in_a p (ground arith));
            bc = λ p m. elim (Bool-cases (p == n)) [
              | inl e ↦ ap (λ q. has q (nodes c zs)) (==→eq p n e) ∙ th.ac n n_in
              | inr ne ↦ th.bc p (ground arith)
            ];
          },
          λ p x y z.
              let before = out.same p (ground (arith, has-nodes p)) in
              let then = same p (ground (arith, has-nodes p)) in
              (then.0 ∙ before.0, then.1 ∙ before.1),
        ),
      )

-- The three lists in another order.
pub swap-Three :
    {s : Links} {a b c : Ptr} {xs ys zs : List Ptr}
    → Three s a b c xs ys zs
    → Three s b a c ys xs zs
swap-Three {a} {b} {c} {xs} {ys} {zs} th = record {
  one = th.two;
  two = th.one;
  three = th.three;
  ab = λ p m. apart p (nodes a xs) (nodes b ys) (th.ab p) m;
  ac = th.bc;
  bc = th.ac;
}

pub turn-Three :
    {s : Links} {a b c : Ptr} {xs ys zs : List Ptr}
    → Three s a b c xs ys zs
    → Three s b c a ys zs xs
turn-Three {a} {b} {c} {xs} {ys} {zs} th = record {
  one = th.two;
  two = th.three;
  three = th.one;
  ab = th.bc;
  ac = λ p m. apart p (nodes a xs) (nodes b ys) (th.ab p) m;
  bc = λ p m. apart p (nodes a xs) (nodes c zs) (th.ac p) m;
}
