-- ===== src/Hash/Update.antt =====
-- What `hash_insert` and `hash_remove` of src/hash.c do to the buckets.
use syslib.Prelude.{
  ℕ, ◌+◌, ◌^◌, ◌<◌, ◌≡◌, ◌≢◌, ◌∙◌, refl, ap, true, some, List, [], ◌∷◌, ◌++◌, arith, ne→==, eq→==,
  length, length-append,
}
use syslib.Dlist.{Ptr, null, Links, succeed, lst_remove}
use syslib.Dlist.Chain.{◌∉◌, nodes, IsList, SameOutside, IsList-inner, has-append}
use syslib.Dlist.Fresh.{lst_clr-run, push_cleared-IsList}
use syslib.Dlist.Remove.{Removed, remove-Removed}
use syslib.Dlist.Pop.{last_of-snoc}
use syslib.Hash.{
  Table, str_eq, hash_value, hash_insert, hash_search, hash_remove, hash_search_bucket,
}
use syslib.Hash.Search.{
  Misses, home, hash_search_found, hash_search_bucket_found, hash_search_bucket_missing,
}

str_eq_refl : (xs : List ℕ) → str_eq xs xs ≡ true
str_eq_refl [] = refl
str_eq_refl (x ∷ xs) = rw (eq→== x x refl) (str_eq_refl xs)

module _ (key_of : Ptr → List ℕ) (s : Links) (ht : Table) (some_buckets : ht.bucket_size ≢ 0)
    (small : ht.bucket_size < 2 ^ 32) where
  -- `hash_insert` appends a node of its own to the bucket of its key, and touches nothing else.
  hash_insert-IsList :
      (n : Ptr) (xs : List Ptr)
      → IsList s (home key_of (key_of n) ht) xs
      → n ≢ null
      → n ∉ nodes (home key_of (key_of n) ht) xs
      → (t : Links) × (hash_insert key_of (some ht) n s ≡ some (succeed, t))
        × IsList t (home key_of (key_of n) ht) (xs ++ (n ∷ []))
        × SameOutside (n ∷ nodes (home key_of (key_of n) ht) xs) s t
  unfolding hash_insert
  hash_insert-IsList n xs is hn out =
      let lst = home key_of (key_of n) ht in
      let (t, run, i, same) = push_cleared-IsList s lst n xs is hn out in
      (
        t,
        rw (ne→== n null hn, ne→== ht.bucket_size 0 some_buckets, lst_clr-run s n hn) run,
        i,
        same,
      )

  -- In a table with some buckets and fewer than 2^32, `hash_insert` of a node that is not null and
  -- not in the bucket of its key, where no node has that key, appends it to the bucket and changes
  -- no other node; `hash_search` for the key then returns the node, with fuel above the number of
  -- nodes that the bucket had.
  pub hash_search-hash_insert :
      (n : Ptr) (xs : List Ptr) (fuel : ℕ)
      → IsList s (home key_of (key_of n) ht) xs
      → n ≢ null
      → n ∉ nodes (home key_of (key_of n) ht) xs
      → Misses key_of (key_of n) xs
      → length xs < fuel
      → (t : Links) × (hash_insert key_of (some ht) n s ≡ some (succeed, t))
        × IsList t (home key_of (key_of n) ht) (xs ++ (n ∷ []))
        × SameOutside (n ∷ nodes (home key_of (key_of n) ht) xs) s t
        × (hash_search key_of fuel (some ht) (some (key_of n)) t ≡ some (some n, t))
  hash_search-hash_insert n xs fuel is hn out miss lt =
      let (t, run, i, same) = hash_insert-IsList n xs is hn out in
      (
        t,
        run,
        i,
        same,
        hash_search_found key_of (key_of n) t ht fuel some_buckets small n xs [] i miss
            (str_eq_refl (key_of n)) lt,
      )

  module _ (key : List ℕ) (fuel : ℕ) where
    abbrev lst : Ptr
    lst = home key_of key ht

    remove-run :
        (n : Ptr) {t : Links}
        → hash_search_bucket key_of fuel ht (hash_value key ht.bucket_size) key s ≡ some (some n, s)
        → n ≢ null
        → lst_remove lst n s ≡ some (succeed, t)
        → hash_remove key_of fuel (some ht) (some key) s ≡ some (some succeed, t)
    unfolding hash_remove
    remove-run n found hn removed =
        rw (ne→== ht.bucket_size 0 some_buckets, found, ne→== n null hn, removed) refl

    -- In a table with some buckets and fewer than 2^32, where a node of the key's bucket has the key
    -- and the fuel is above the number of nodes before the first such node, `hash_remove` reports
    -- success and unlinks that node and no other.
    pub hash_remove_found :
        (n : Ptr) (us vs : List Ptr)
        → IsList s lst (us ++ (n ∷ vs))
        → Misses key_of key us
        → str_eq (key_of n) key ≡ true
        → length us < fuel
        → (t : Links) × (hash_remove key_of fuel (some ht) (some key) s ≡ some (some succeed, t))
          × Removed s t lst n us vs
    hash_remove_found n us vs is miss hit lt =
        let (t, run, _, out) = remove-Removed s lst n us vs is in
        let (_, _, _, nz) = IsList-inner lst (us ++ (n ∷ vs)) is in
        (
          t,
          remove-run n
              (hash_search_bucket_found key_of key s ht fuel some_buckets small n us vs is miss hit
                lt)
              (ground (arith, has-append null us (n ∷ vs))) run,
          out,
        )

    -- In a table with some buckets and fewer than 2^32, where no node of the key's bucket has the
    -- key, the bucket is not empty and the fuel is above the number of its nodes, `hash_remove`
    -- unlinks the last node of the bucket all the same, and reports success.
    pub hash_remove_missing :
        (n : Ptr) (xs : List Ptr)
        → IsList s lst (xs ++ (n ∷ []))
        → Misses key_of key (xs ++ (n ∷ []))
        → length xs + 1 < fuel
        → (t : Links) × (hash_remove key_of fuel (some ht) (some key) s ≡ some (some succeed, t))
          × Removed s t lst n xs []
    hash_remove_missing n xs is miss lt =
        let (t, run, _, out) = remove-Removed s lst n xs [] is in
        let (_, _, _, nz) = IsList-inner lst (xs ++ (n ∷ [])) is in
        (
          t,
          remove-run n
              (hash_search_bucket_missing key_of key s ht fuel some_buckets small (xs ++ (n ∷ []))
                  is miss (omega (arith, length-append xs (n ∷ [])))
                ∙ ap (λ r. some (some r, s)) (last_of-snoc n null xs))
              (ground (arith, has-append null xs (n ∷ []))) run,
          out,
        )
