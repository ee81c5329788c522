-- ===== src/Hash/Search.antt =====
-- What the search in a bucket of src/hash.c returns.
use syslib.Prelude.{
  ℕ, zero, suc, ◌%◌, ◌^◌, ◌<◌, ◌≡◌, ◌≢◌, refl, true, false, some, List, [], ◌∷◌, ◌++◌, arith, ne→==,
  eq→==, length,
}
use native.Mathlib.Nat.{mod-lt}
use syslib.Dlist.{Ptr, null, Links, tail_of, get_next-ok}
use syslib.Dlist.Chain.{◌∉◌, Chain, IsList, last_of, IsList-inner}
use syslib.Hash.{
  sum_chars, Table, bucket, str_eq, hash_value, search_from, hash_search_bucket, hash_search,
}

module _ (key_of : Ptr → List ℕ) (key : List ℕ) where
  -- No node of the list has the key.
  abbrev pub Misses : List Ptr → Type 0
  Misses [] = Unit
  Misses (x ∷ xs) = (str_eq (key_of x) key ≡ false) × Misses xs

  module _ (s : Links) (stop : Ptr) where
    search_from_found :
        (fuel : ℕ) (h a x : Ptr) (us vs : List Ptr)
        → Chain s a (us ++ (x ∷ vs)) stop
        → stop ∉ (us ++ (x ∷ vs))
        → null ∉ (us ++ (x ∷ vs))
        → Misses us
        → str_eq (key_of x) key ≡ true
        → length us < fuel
        → search_from key_of fuel stop key h (s.next a) s ≡ some (some x, s)
    unfolding search_from
    search_from_found zero h a x us vs c out nz miss hit lt = absurd (omega arith)
    search_from_found (suc fuel) h a x [] vs c out nz miss hit lt =
        rw (c.0, ne→== x stop (ground arith), hit) refl
    search_from_found (suc fuel) h a x (u ∷ us) vs (e, f, c) out nz (no_match, miss) hit lt =
        rw (e, ne→== u stop (ground arith), no_match, get_next-ok {p = u} (ground arith))
          (search_from_found fuel u u x us vs c (ground arith) (ground arith) miss hit
            (omega arith))

    search_from_missing :
        (fuel : ℕ) (h a : Ptr) (xs : List Ptr)
        → Chain s a xs stop
        → stop ∉ xs
        → null ∉ xs
        → Misses xs
        → length xs < fuel
        → search_from key_of fuel stop key h (s.next a) s ≡ some (some (last_of h xs), s)
    unfolding search_from
    search_from_missing zero h a xs c out nz miss lt = absurd (omega arith)
    search_from_missing (suc fuel) h a [] c out nz miss lt = rw (c.0, eq→== stop stop refl) refl
    search_from_missing (suc fuel) h a (x ∷ xs) (e, f, c) out nz (no_match, miss) lt =
        rw (e, ne→== x stop (ground arith), no_match, get_next-ok {p = x} (ground arith))
          (search_from_missing fuel x x xs c (ground arith) (ground arith) miss (omega arith))

  -- The bucket of the key.
  abbrev pub home : Table → Ptr
  home ht = bucket ht (hash_value key ht.bucket_size)

  module _ (s : Links) (ht : Table) (fuel : ℕ) (some_buckets : ht.bucket_size ≢ 0)
      (small : ht.bucket_size < 2 ^ 32) where
    same_bucket : hash_value key ht.bucket_size % 2 ^ 32 ≡ hash_value key ht.bucket_size
    unfolding hash_value
    same_bucket = omega (arith, mod-lt (sum_chars 0 key) {m = ht.bucket_size} (omega arith))

    pub hash_search_bucket_found :
        (x : Ptr) (us vs : List Ptr)
        → IsList s (home ht) (us ++ (x ∷ vs))
        → Misses us
        → str_eq (key_of x) key ≡ true
        → length us < fuel
        → hash_search_bucket key_of fuel ht (hash_value key ht.bucket_size) key s ≡ some (some x, s)
    unfolding hash_search_bucket
    hash_search_bucket_found x us vs is miss hit lt =
        let (hl, _, out, nz) = IsList-inner (home ht) (us ++ (x ∷ vs)) is in
        rw (same_bucket, get_next-ok hl)
          (search_from_found s (tail_of (home ht)) fuel null (home ht) x us vs is.chain out nz miss
            hit lt)

    pub hash_search_bucket_missing :
        (xs : List Ptr)
        → IsList s (home ht) xs
        → Misses xs
        → length xs < fuel
        → hash_search_bucket key_of fuel ht (hash_value key ht.bucket_size) key s
          ≡ some (some (last_of null xs), s)
    unfolding hash_search_bucket
    hash_search_bucket_missing xs is miss lt =
        let (hl, _, out, nz) = IsList-inner (home ht) xs is in
        rw (same_bucket, get_next-ok hl)
          (search_from_missing s (tail_of (home ht)) fuel null (home ht) xs is.chain out nz miss lt)

    -- In a table with some buckets and fewer than 2^32, where a node of the key's bucket has the key
    -- and the fuel is above the number of nodes before the first such node, `hash_search` returns
    -- that node and changes nothing.
    pub hash_search_found :
        (x : Ptr) (us vs : List Ptr)
        → IsList s (home ht) (us ++ (x ∷ vs))
        → Misses us
        → str_eq (key_of x) key ≡ true
        → length us < fuel
        → hash_search key_of fuel (some ht) (some key) s ≡ some (some x, s)
    unfolding hash_search
    hash_search_found x us vs is miss hit lt =
        rw (ne→== ht.bucket_size 0 some_buckets) (hash_search_bucket_found x us vs is miss hit lt)

    -- In a table with some buckets and fewer than 2^32, where no node of the key's bucket has the
    -- key and the fuel is above the number of its nodes, `hash_search` returns the last node of the
    -- bucket, or null if the bucket is empty.
    pub hash_search_missing :
        (xs : List Ptr)
        → IsList s (home ht) xs
        → Misses xs
        → length xs < fuel
        → hash_search key_of fuel (some ht) (some key) s ≡ some (some (last_of null xs), s)
    unfolding hash_search
    hash_search_missing xs is miss lt =
        rw (ne→== ht.bucket_size 0 some_buckets) (hash_search_bucket_missing xs is miss lt)
