-- ===== src/Hash.antt =====
-- src/hash.c: a table of buckets, each a list of src/dlist.c. The key is the first thing behind the
-- list node of a `struct hash_node`, so a node is known by the address of its list node; `key_of`
-- gives the string stored at a node, as its bytes before the terminator.
pub mod Search
pub mod Update
mod Tests
use syslib.Prelude.{
  pure, ◌>>=◌, ℕ, zero, suc, ◌+◌, ◌-◌, ◌*◌, ◌%◌, ◌^◌, Bool, true, false, ◌&&◌, ◌||◌, Option, none,
  some, List, [], ◌∷◌, ◌==◌, ltb, if◌then◌else◌, add64, word,
}
use syslib.Dlist.{
  Ptr, null, Links, Code, succeed, fail, M, tail_of, get_next, lst_clr, lst_push_back, lst_remove,
}

pub record Table : Type 0 where
  pub bucket_size : ℕ
  pub hash_list : Ptr

-- `&ht->hash_list[i]`; a `struct dlist` has 32 bytes.
abbrev pub bucket : Table → ℕ → Ptr
bucket ht i = ht.hash_list + 32 * i

-- A `char` is signed, and is extended to `unsigned long`.
abbrev pub extend : ℕ → ℕ
extend c = if ltb c 128 then c else c + word - 256

sum_chars : ℕ → List ℕ → ℕ
sum_chars sum [] = sum
sum_chars sum (c ∷ key) = sum_chars (add64 sum (extend c)) key

pub hash_value : List ℕ → ℕ → ℕ
unfolding sum_chars
hash_value key bucket_size = sum_chars 0 key % bucket_size

-- `strcmp(a, b) == 0`
abbrev pub str_eq : List ℕ → List ℕ → Bool
str_eq [] [] = true
str_eq [] (y ∷ ys) = false
str_eq (x ∷ xs) [] = false
str_eq (x ∷ xs) (y ∷ ys) = (x == y) && str_eq xs ys

-- A null `ht` or `key` is `none`.
module _ (key_of : Ptr → List ℕ) where
  unfoldable pub hash_insert : Option Table → Ptr → M Code
  unfolding hash_value
  hash_insert none hn = pure fail
  hash_insert (some ht) hn =
      if hn == null
      then pure fail
      else if ht.bucket_size == 0
      then pure fail
      else do _ ← lst_clr hn; lst_push_back (bucket ht (hash_value (key_of hn) ht.bucket_size)) hn

  -- The walk of `_hash_search`: `hn` is the node looked at last, `dln` the next one. `none` in the
  -- result is the end of the fuel.
  unfoldable pub search_from : ℕ → Ptr → List ℕ → Ptr → Ptr → M (Option Ptr)
  search_from zero stop key hn dln = pure none
  search_from (suc fuel) stop key hn dln =
      if dln == stop
      then pure (some hn)
      else if str_eq (key_of dln) key
      then pure (some dln)
      else do next ← get_next dln; search_from fuel stop key dln next

  -- The bucket number is an `unsigned int` here.
  unfoldable pub hash_search_bucket : ℕ → Table → ℕ → List ℕ → M (Option Ptr)
  unfolding search_from
  hash_search_bucket fuel ht value key = do
    let lst = bucket ht (value % 2 ^ 32)
    dln ← get_next lst
    search_from fuel (tail_of lst) key null dln

  unfoldable pub hash_search : ℕ → Option Table → Option (List ℕ) → M (Option Ptr)
  unfolding hash_search_bucket hash_value
  hash_search fuel none key = pure (some null)
  hash_search fuel (some ht) none = pure (some null)
  hash_search fuel (some ht) (some key) =
      if ht.bucket_size == 0
      then pure (some null)
      else hash_search_bucket fuel ht (hash_value key ht.bucket_size) key

  -- What `hash_remove` does with the result of the search; `none` is the end of the fuel.
  remove_found : Ptr → Option Ptr → M (Option Code)
  remove_found lst none = pure none
  remove_found lst (some hn) =
      if hn == null then pure (some fail) else do code ← lst_remove lst hn; pure (some code)

  unfoldable pub hash_remove : ℕ → Option Table → Option (List ℕ) → M (Option Code)
  unfolding hash_search_bucket hash_value remove_found
  hash_remove fuel none key = pure (some fail)
  hash_remove fuel (some ht) none = pure (some fail)
  hash_remove fuel (some ht) (some key) = if ht.bucket_size == 0 then pure (some fail) else do
    let value = hash_value key ht.bucket_size
    found ← hash_search_bucket fuel ht value key
    remove_found (bucket ht value) found
