-- ===== src/Hash/Tests.antt =====
-- A table of src/hash.c with two buckets at address 200, and the node 2 with the key "b" in the
-- first of them.
use syslib.Prelude.{ℕ, ◌≡◌, refl, some, List, [], ◌∷◌, arith, ◌==◌, if◌then◌else◌}
use syslib.Dlist.{Ptr, Links, succeed}
use syslib.Dlist.Chain.{nodes, IsList, SameOutside}
use syslib.Hash.{Table, hash_value, hash_insert, hash_search, sum_chars}
use syslib.Hash.Update.{hash_search-hash_insert}

abbrev table : Table
table = record { bucket_size = 2; hash_list = 200 }

-- "b" at the node 2, "d" at the node 4; both go into the first bucket.
abbrev key_of : Ptr → List ℕ
key_of p = if p == 2 then 98 ∷ [] else if p == 4 then 100 ∷ [] else []

abbrev store : Links
store = record {
  prev = λ p. if p == 216 then 2 else if p == 2 then 200 else 0;
  next = λ p. if p == 200 then 2 else if p == 2 then 216 else 0;
}

store-IsList : IsList store 200 (2 ∷ [])
store-IsList = ground arith

hash_search-hash_insert_example :
    (t : Links) × (hash_insert key_of (some table) 4 store ≡ some (succeed, t))
    × IsList t 200 (2 ∷ 4 ∷ [])
    × SameOutside (4 ∷ nodes 200 (2 ∷ [])) store t
    × (hash_search key_of 2 (some table) (some (100 ∷ [])) t ≡ some (some 4, t))
unfolding hash_value sum_chars
hash_search-hash_insert_example =
    hash_search-hash_insert key_of store table (omega arith) (omega arith) 4 (2 ∷ []) 2 store-IsList
      (omega arith) refl (refl, tt) (omega arith)
