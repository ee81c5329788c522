-- ===== src/MmCache/Tests.antt =====
-- A cache of src/mmspace.c at address 1000 with one slab at 5000, which is partial: 32 objects of
-- eight bytes from 5048 on, of which the first is allocated.
use syslib.Prelude.{
  ℕ, ◌+◌, ◌-◌, ◌*◌, ◌^◌, ◌≤◌, ◌<◌, ◌≡◌, ◌≢◌, inl, refl, arith, some, [], ◌∷◌, ◌==◌, if◌then◌else◌,
  sym, ==→eq,
}
use mathlib.Core.Path.{subst}
use syslib.Misc.{round_down, round_up}
use syslib.Dlist.{Ptr, succeed}
use syslib.Dlist.Chain.{IsList}
use syslib.Dlist.Move.{Three}
use syslib.MmCache.{
  Store, empty_list, zfetch_obj, zreturn_obj, mm_cache_alloc, mm_cache_free, cache_of_obj,
  scan_pages, new_slab, cache_sizes, label,
}
use syslib.MmCache.Bits.{ones}
use syslib.MmCache.Objects.{zreturn_obj-zfetch_obj}
use syslib.MmCache.Counts.{IsSlab, obj, size}
use syslib.MmCache.Slabs.{Member, IsCache}
use syslib.MmCache.Alloc.{Allocated, mm_cache_alloc-Allocated}
use syslib.MmCache.Free.{Freed, mm_cache_free-Freed}
use syslib.MmCache.Grow.{new_slab-IsSlab, cache_of_obj_nearest}

abbrev store : Store
store = record {
  links = record {
    prev = λ p.
        if p == 5008
        then 1104
        else if p == 1120
        then 5008
        else if p == 1056
        then 1040
        else if p == 1088
        then 1072
        else 0;
    next = λ p.
        if p == 1104
        then 5008
        else if p == 5008
        then 1120
        else if p == 1040
        then 1056
        else if p == 1072
        then 1088
        else 0;
  };
  slab_label = λ p. if p == 5000 then 0x22222222 else 0;
  cache = λ p. if p == 5000 then 1000 else 0;
  free_count = λ p. if p == 5000 then 31 else 0;
  obj_count = λ p. if p == 5000 then 32 else 0;
  alloc_bits = λ p. if p == 5000 then 1 else 0;
  obj_ptr = λ p. if p == 5000 then 5048 else 0;
  obj_size = λ p. if p == 1000 then 8 else 0;
  cache_size = λ p. if p == 1000 then 512 else 0;
}

slab_ones : ones 64 1 ≡ 1
unfolding ones
slab_ones = refl

slab-IsSlab : IsSlab store 5000
slab-IsSlab = record {
  small = omega arith;
  bits = omega arith;
  counted = omega (arith, slab_ones);
  sized = omega arith;
  placed = omega arith;
  short = omega arith;
  fits = omega arith;
}

lists-Three : Three store.links 1104 1040 1072 (5008 ∷ []) [] []
lists-Three = record {
  one = ground arith;
  two = ground arith;
  three = ground arith;
  ab = λ p m. ground arith;
  ac = λ p m. ground arith;
  bc = λ p m. ground arith;
}

slab-Member : Member 1000 store 5008
slab-Member = record { present = omega arith; slab = slab-IsSlab; owner = refl; many = omega arith }

store-IsCache : IsCache 1000 store (5008 ∷ []) [] []
store-IsCache = record {
  lists = lists-Three;
  in_part = λ n m.
      subst
        (λ q.
          Member 1000 store q
          × (0 < store.free_count (q - 8))
          × (store.free_count (q - 8) < store.obj_count (q - 8)))
        (sym (==→eq n 5008 (ground arith))) (slab-Member, omega arith, omega arith);
  in_full = λ n m. absurd (cc m);
  in_empty = λ n m. absurd (cc m);
}

zreturn_obj-zfetch_obj_example :
    (p : Ptr) × ((t : Store) × (zfetch_obj 5000 store ≡ some (p, t))
      × (zreturn_obj 5000 p t ≡ some (succeed, store)))
zreturn_obj-zfetch_obj_example = zreturn_obj-zfetch_obj store 5000 slab-IsSlab (omega arith)

mm_cache_alloc-Allocated_example :
    (p : Ptr) × ((t : Store) × (mm_cache_alloc 1000 0 store ≡ some (p, t))
      × Allocated 1000 store t p (5008 ∷ []) [] [])
mm_cache_alloc-Allocated_example =
    mm_cache_alloc-Allocated 1000 0 store (5008 ∷ []) [] [] store-IsCache (inl (λ e. cc e))

-- The pages of eight bytes from 5048 down to the slab.
unlabelled : (h : ℕ) → h < 6 → store.slab_label (round_down 5048 8 - h * 8) ≢ label
unfolding round_down
unlabelled h lt = ground arith

labelled : store.slab_label (round_down 5048 8 - 6 * 8) ≡ label
unfolding round_down
labelled = refl

rounded : round_down 5048 8 ≡ 5048
unfolding round_down
rounded = refl

cache_of_obj_nearest_example : cache_of_obj store 8 7 5048 ≡ round_down 5048 8 - 6 * 8
cache_of_obj_nearest_example =
    cache_of_obj_nearest store 8 7 5048 6 (omega arith) (omega arith) (omega arith)
      (omega (arith, rounded)) (omega (arith, rounded)) labelled unlabelled

found : cache_of_obj store 8 7 (obj store (5008 - 8) 0 + 0) ≡ 5008 - 8
unfolding cache_of_obj scan_pages round_down
found = refl

mm_cache_free-Freed_example :
    (t : Store) × (mm_cache_free 8 7 1000 (obj store (5008 - 8) 0 + 0) store ≡ some (succeed, t))
    × Freed 1000 store t 5008 0 (5008 ∷ []) [] []
mm_cache_free-Freed_example =
    mm_cache_free-Freed 1000 store (5008 ∷ []) [] [] 5008 0 0 8 7 store-IsCache (inl (ground arith))
      (omega arith) (omega arith) (omega arith) found

new_slab-IsSlab_example :
    (let t = new_slab 1000 6000 store in
      IsSlab t 6000
      × (t.free_count 6000 ≡ t.obj_count 6000)
      × (32 ≤ t.obj_count 6000)
      × (6000 + 48 ≤ t.obj_ptr 6000)
      × (t.obj_ptr 6000 + t.obj_count 6000 * size t 6000 ≡ 6000 + 512))
new_slab-IsSlab_example =
    new_slab-IsSlab 1000 6000 store (omega arith) (omega arith) (omega arith) (omega arith)
      (omega arith)

sizes_run : cache_sizes (2 ^ 12) 8 20 ≡ some (24, 4096)
unfolding cache_sizes round_up
sizes_run = refl

abbrev idle : Store
idle = record store {
  links = record {
    prev = λ p. if p == 5008 then 1072 else if p == 1088 then 5008 else 0;
    next = λ p. if p == 1072 then 5008 else if p == 5008 then 1088 else 0;
  };
}

idle-IsList : IsList idle.links (empty_list 1000) (5008 ∷ [])
idle-IsList = ground arith
