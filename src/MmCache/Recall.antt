-- ===== src/MmCache/Recall.antt =====
-- What the recall of the empty slabs of src/mmspace.c gives back.
use syslib.Prelude.{
  ℕ, zero, suc, ◌<◌, ◌≡◌, ◌≢◌, refl, List, [], ◌∷◌, length, arith, some, eq→==, ne→==,
}
use syslib.Dlist.{Ptr, null, tail_of, get_next-ok}
use syslib.Dlist.Chain.{◌∉◌, Chain, IsList, IsList-inner, first_of, gap}
use syslib.Dlist.Insert.{lst_new-IsList}
use syslib.MmCache.{Store, conv_cache, empty_list, recall_from, recall_empty}

abbrev pub slabs_of : List Ptr → List Ptr
slabs_of [] = []
slabs_of (n ∷ ns) = conv_cache n ∷ slabs_of ns

recall_from-run :
    (fuel : ℕ) (a tail : Ptr) (ns : List Ptr) (s : Store)
    → Chain s.links a ns tail
    → tail ∉ ns
    → null ∉ ns
    → length ns < fuel
    → recall_from fuel tail (first_of ns tail) s ≡ some (slabs_of ns, s)
unfolding recall_from
recall_from-run zero a tail ns s chain stop present enough = absurd (omega arith)
recall_from-run (suc fuel) a tail [] s chain stop present enough = rw (eq→== tail tail refl) refl
recall_from-run (suc fuel) a tail (n ∷ ns) s chain stop present enough =
    let ne : n ≢ tail = ground arith in
    let some_node : n ≢ null = ground arith in
    let next = (gap s.links n tail [] ns chain.2).0 in
    let rest =
      recall_from-run fuel n tail ns s chain.2 (ground arith) (ground arith) (omega arith) in
    rw (ne→== n tail ne, get_next-ok some_node, next, rest) refl

-- With fuel for the slabs of the list, `_mm_ztry_recall_empty_cache` gives each of the empty slabs to
-- `mm_free` once, in order, and leaves the list empty.
pub recall_empty-run :
    (fuel : ℕ) (mzi : Ptr) (s : Store) (ns : List Ptr)
    → IsList s.links (empty_list mzi) ns
    → length ns < fuel
    → (t : Store) × (recall_empty fuel mzi s ≡ some (slabs_of ns, t))
      × IsList t.links (empty_list mzi) []
unfolding recall_empty
recall_empty-run fuel mzi s ns is enough =
    let list = empty_list mzi in
    let (present, _, stop, null_out) = IsList-inner list ns is in
    let walk = recall_from-run fuel list (tail_of list) ns s is.chain stop null_out enough in
    let first = (gap s.links list (tail_of list) [] ns is.chain).0 in
    let (l, new, none, _) = lst_new-IsList s.links list present in
    (record s { links = l }, rw (get_next-ok present, first, walk, new) refl, none)
