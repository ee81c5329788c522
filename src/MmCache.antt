-- ===== src/MmCache.antt =====
-- src/mmspace.c, the object caches. A cache (`struct _mmcache_impl`) has three lists of slabs, full,
-- partial and empty; a slab (`struct _mm_cache`) has up to 64 objects of one size and a word with a
-- bit for each that is allocated. The fields of the slabs and of the caches are kept by address, the
-- lists are those of src/dlist.c. `none` is a fault. What the page area returns for a new slab, and
-- the contents of the objects, which the constructors fill, are the caller's.
pub mod Bits
pub mod Counts
pub mod Objects
pub mod Slabs
pub mod Alloc
pub mod Free
pub mod Grow
pub mod Sizes
pub mod Recall
mod Tests
use syslib.Prelude.{
  ℕ, zero, suc, ◌+◌, ◌-◌, ◌*◌, ◌/◌, ◌%◌, ◌^◌, Bool, true, false, ◌||◌, Option, none, some, List, [],
  ◌∷◌, ◌++◌, ◌==◌, ltb, leb, if◌then◌else◌, bit_and, bit_or, word, add64, sub64, not64, Run, zoomed,
  pure, and_then, ◌>>=◌, ◌>>◌, upd,
}
use syslib.Misc.{bsf, round_up, round_down}
use syslib.Dlist.{
  Ptr, null, Links, Code, succeed, fail, tail_of, get_next, lst_new, lst_clr, lst_empty, lst_remove,
  lst_push_front,
}

pub record Store : Type 0 where
  pub links : Links
  pub slab_label : Ptr → ℕ
  pub cache : Ptr → Ptr
  pub free_count : Ptr → ℕ
  pub obj_count : Ptr → ℕ
  pub alloc_bits : Ptr → ℕ
  pub obj_ptr : Ptr → Ptr
  pub obj_size : Ptr → ℕ
  pub cache_size : Ptr → ℕ

-- SLAB_LABEL, CACHE_OBJ_COUNT, CACHE_OBJ_COUNT_MAX and `sizeof(struct _mm_cache)`
abbrev pub label : ℕ
label = 0x22222222

abbrev pub objects : ℕ
objects = 32

abbrev pub objects_max : ℕ
objects_max = 64

abbrev pub head_size : ℕ
head_size = 48

abbrev pub u32 : ℕ → ℕ
u32 n = n % 2 ^ 32

abbrev pub u16 : ℕ → ℕ
u16 n = n % 2 ^ 16

abbrev pub M : Type 0 → Type 0
M A = Run Store A

abbrev pub on_links : {A : Type 0} → Run Links A → M A
on_links m s = zoomed (m s.links) (λ l. record s { links = l })

-- The lists of a cache, and the list node of a slab.
abbrev pub full_list : Ptr → Ptr
full_list mzi = mzi + 40

abbrev pub empty_list : Ptr → Ptr
empty_list mzi = mzi + 72

abbrev pub partial_list : Ptr → Ptr
partial_list mzi = mzi + 104

abbrev pub list_node : Ptr → Ptr
list_node mc = mc + 8

abbrev pub conv_cache : Ptr → Ptr
conv_cache dln = dln - 8

-- `_mm_zcache_full` and `_mm_zcache_empty`
abbrev pub zcache_full : Store → Ptr → Bool
zcache_full s mc = leb (s.free_count mc) 0

abbrev pub zcache_empty : Store → Ptr → Bool
zcache_empty s mc = leb (s.obj_count mc) (s.free_count mc)

abbrev pub pick : ℕ → Option ℕ → Option ℕ
pick count none = none
pick count (some idx) = if leb count idx then none else some idx

-- `_mmc_next_free_obj`; `none` is the -1 of the source.
unfoldable pub next_free_obj : Store → Ptr → Option ℕ
next_free_obj s mc = pick (s.obj_count mc) (bsf (not64 (s.alloc_bits mc)))

-- The loop of `_check_alloc_bits` over the bits from `i` on, `n` of them.
unfoldable pub count_bits : (bits i n : ℕ) → ℕ
count_bits bits i zero = 0
count_bits bits i (suc n) = (if bit_and bits (2 ^ i) == 0 then 0 else 1) + count_bits bits (suc i) n

-- The comparison is one of `int`s.
unfoldable pub check_alloc_bits : Store → Ptr → Code
check_alloc_bits s mc =
    if count_bits (s.alloc_bits mc) 0 64 + s.free_count mc == s.obj_count mc then succeed else fail

unfoldable pub take_obj : Ptr → Option ℕ → M Ptr
take_obj mc none s = some (null, s)
take_obj mc (some idx) s = some (
  add64 (s.obj_ptr mc) (u32 (idx * s.obj_size (s.cache mc))),
  record s {
    alloc_bits = upd s.alloc_bits mc (bit_or (s.alloc_bits mc) (2 ^ idx));
    free_count = upd s.free_count mc (u16 (s.free_count mc + 2 ^ 16 - 1));
  },
)

-- `_mm_zfetch_obj`
unfoldable pub zfetch_obj : Ptr → M Ptr
unfolding take_obj
zfetch_obj mc s = take_obj mc (next_free_obj s mc) s

unfoldable pub put_obj : Ptr → ℕ → M Code
put_obj mc idx s =
    if leb (s.obj_count mc) idx
    then some (fail, s)
    else if bit_and (s.alloc_bits mc) (2 ^ idx) == 0
    then some (fail, s)
    else some (
      succeed,
      record s {
        free_count = upd s.free_count mc (u16 (s.free_count mc + 1));
        alloc_bits = upd s.alloc_bits mc (bit_and (s.alloc_bits mc) (not64 (2 ^ idx)));
      },
    )

-- `_mm_zreturn_obj`
unfoldable pub zreturn_obj : Ptr → Ptr → M Code
zreturn_obj mc p s =
    if ltb p (s.obj_ptr mc)
    then some (fail, s)
    else if s.obj_size (s.cache mc) == 0
    then none
    else put_obj mc ((p - s.obj_ptr mc) / s.obj_size (s.cache mc)) s

-- `_mm_zmove_cache`, without and with a list to take the slab from.
unfoldable pub zput_cache : Ptr → Ptr → M Code
zput_cache mc to_list = on_links (lst_push_front to_list (list_node mc))

abbrev pub put_removed : Ptr → Ptr → Code → M Code
put_removed mc to_list succeed = on_links (lst_push_front to_list (list_node mc))
put_removed mc to_list fail = pure fail

unfoldable pub zmove_cache : Ptr → Ptr → Ptr → M Code
zmove_cache mc from_list to_list = do
  code ← on_links (lst_remove from_list (list_node mc))
  put_removed mc to_list code

-- `_mm_zfirst_cache_from_list`
unfoldable pub zfirst_cache : Ptr → M Ptr
zfirst_cache from_list = do
  dln ← on_links (get_next from_list)
  pure (if dln == tail_of from_list then null else conv_cache dln)

-- The fields of a new slab; the count is stored in 16 bits and then cut to 64.
unfoldable pub new_slab : Ptr → Ptr → Store → Store
new_slab mzi mc s =
    let size = s.obj_size mzi in
    let count = u16 (sub64 (s.cache_size mzi) head_size / size) in
    let kept = if leb count objects_max then count else objects_max in
    record s {
      slab_label = upd s.slab_label mc label;
      cache = upd s.cache mc mzi;
      obj_count = upd s.obj_count mc kept;
      obj_ptr = upd s.obj_ptr mc (sub64 (add64 mc (s.cache_size mzi)) (u32 (kept * size)));
      alloc_bits = upd s.alloc_bits mc 0;
      free_count = upd s.free_count mc kept;
    }

-- `_mm_zcache_new`, where `_mm_zalloc_pg` returns `mc`.
unfoldable pub zcache_new : Ptr → Ptr → M Ptr
zcache_new mzi mc = if mc == null then pure null else λ s.
    if s.obj_size mzi == 0
    then none
    else (do _ ← on_links (lst_clr (list_node mc)); _ ← zput_cache mc (empty_list mzi); pure mc)
        (new_slab mzi mc s)

-- The three moves of `mm_cache_alloc`.
unfoldable pub alloc_partial : Ptr → M Ptr
alloc_partial mzi = do
  mc ← zfirst_cache (partial_list mzi)
  if mc == null then pure null else do
    p ← zfetch_obj mc
    if p == null then pure null else λ s.
        (if zcache_full s mc
            then (do _ ← zmove_cache mc (partial_list mzi) (full_list mzi); pure p)
            else pure p)
          s

unfoldable pub alloc_from : Ptr → Ptr → M Ptr
alloc_from mzi mc = if mc == null then pure null else do
  p ← zfetch_obj mc
  if p == null then pure null else do _ ← zmove_cache mc (empty_list mzi) (partial_list mzi); pure p

unfoldable pub alloc_empty : Ptr → Ptr → M Ptr
alloc_empty mzi pg = do
  mc ← zfirst_cache (empty_list mzi)
  if mc == null then (do new ← zcache_new mzi pg; alloc_from mzi new) else alloc_from mzi mc

-- `mm_cache_alloc`; `pg` is what the page area returns if a new slab is wanted.
unfoldable pub mm_cache_alloc : Ptr → Ptr → M Ptr
mm_cache_alloc mzi pg = do
  none_partial ← on_links (lst_empty (partial_list mzi))
  if none_partial then alloc_empty mzi pg else alloc_partial mzi

-- The loop of `_cache_of_obj`: the pages from `p - i * page_size` down, `n` of them.
unfoldable pub scan_pages : Store → (page_size p i n : ℕ) → Ptr
scan_pages s page_size p i zero = null
scan_pages s page_size p i (suc n) =
    let mc = sub64 p (u32 (i * page_size)) in
    let rest = scan_pages s page_size p (suc i) n in if s.slab_label mc == label then mc else rest

unfoldable pub cache_of_obj : Store → (page_size maxpg_count : ℕ) → Ptr → Ptr
cache_of_obj s page_size maxpg_count obj =
    scan_pages s page_size (round_down obj page_size) 0 maxpg_count

abbrev pub when : Bool → M Code → M (Unit {0})
when true m = do _ ← m; pure tt
when false m = pure tt

abbrev pub put_back : Ptr → Ptr → Bool → Code → M Code
put_back mzi mc from_full fail = pure fail
put_back mzi mc from_full succeed = λ s.
    (do
      when (zcache_empty s mc) (zmove_cache mc (partial_list mzi) (empty_list mzi))
      when from_full (zmove_cache mc (full_list mzi) (partial_list mzi))
      pure succeed)
      s

-- From the slab on.
unfoldable pub free_in : Ptr → Ptr → Ptr → M Code
free_in mzi mc p s =
    if (mc == null) || zcache_empty s mc
    then some (fail, s)
    else (do code ← zreturn_obj mc p; put_back mzi mc (zcache_full s mc) code) s

unfoldable pub mm_cache_free : (page_size maxpg_count : ℕ) → Ptr → Ptr → M Code
mm_cache_free page_size maxpg_count mzi p s =
    if p == null then some (fail, s) else free_in mzi (cache_of_obj s page_size maxpg_count p) p s

-- The sizes that `mm_cache_create` computes, the size of an object first; `none` is one that is
-- refused. The product of the size and the number of the objects is one of `unsigned int`s.
unfoldable pub cache_sizes : (page_size maxpg_count obj_size : ℕ) → Option (ℕ × ℕ)
cache_sizes page_size maxpg_count obj_size =
    let size = u32 (round_up obj_size 8) in
    let whole = round_up (add64 (u32 (size * objects)) head_size) page_size in
    if leb (u32 (page_size * maxpg_count)) whole then none else some (size, whole)

-- The loop of `_mm_ztry_recall_empty_cache` from a node on: the slabs that are given to `mm_free`, in
-- order. `none` is also fuel that has run out.
unfoldable pub recall_from : ℕ → Ptr → Ptr → M (List Ptr)
recall_from zero tail dln = λ s. none
recall_from (suc fuel) tail dln = if dln == tail then pure [] else do
  next ← on_links (get_next dln)
  slabs ← recall_from fuel tail next
  pure (conv_cache dln ∷ slabs)

unfoldable pub recall_empty : ℕ → Ptr → M (List Ptr)
recall_empty fuel mzi = do
  first ← on_links (get_next (empty_list mzi))
  slabs ← recall_from fuel (tail_of (empty_list mzi)) first
  _ ← on_links (lst_new (empty_list mzi))
  pure slabs

-- `_conv_zone_lst_node`
abbrev pub conv_zone : Ptr → Ptr
conv_zone dln = dln - 136

-- The loop of `_mm_ztry_recall` over the caches.
unfoldable pub recall_zones : ℕ → ℕ → Ptr → Ptr → M (List Ptr)
recall_zones zero fuel tail dln = λ s. none
recall_zones (suc zones) fuel tail dln = if dln == tail then pure [] else do
  slabs ← recall_empty fuel (conv_zone dln)
  next ← on_links (get_next dln)
  more ← recall_zones zones fuel tail next
  pure (slabs ++ more)
